-- ===== src/Maps.antt =====
-- Go maps with string keys as association lists. The list order stands for one order of a range
-- statement; laws are stated by lookups and sizes.
use hades.Prelude.{
  Bytes, List, Option, [], arith, bytes_beq_iff, if◌then◌else◌, length, none, refl, some, ◌+◌, ◌<◌,
  ◌==◌, ◌∷◌, ◌≡◌, ◌≤◌, nat_eq, bytes_eq, string_eq,
}

abbrev pub Assoc {ℓ} : Type ℓ → Type ℓ
Assoc V = List (Bytes × V)

module _ {ℓ} {V : Type ℓ} where
  -- m[key]; `none` for a missing key
  unfoldable pub lookup : Bytes → Assoc V → Option V
  lookup key [] = none
  lookup key ((name, v) ∷ entries) = if name == key then some v else lookup key entries

  -- delete(m, key)
  unfoldable pub remove : Bytes → Assoc V → Assoc V
  remove key [] = []
  remove key ((name, v) ∷ entries) =
      let rest = remove key entries in if name == key then rest else (name, v) ∷ rest

  -- m[key] = v
  unfoldable pub insert : Bytes → V → Assoc V → Assoc V
  insert key v [] = (key, v) ∷ []
  insert key v ((name, w) ∷ entries) =
      if name == key then (key, v) ∷ entries else (name, w) ∷ insert key v entries

  pub lookup-insert :
      (key other : Bytes) (v : V) (entries : Assoc V)
      → lookup other (insert key v entries)
        ≡ (if key == other then some v else lookup other entries)
  unfolding insert lookup
  lookup-insert key other v [] = refl
  lookup-insert key other v ((name, w) ∷ entries) = ground (
    arith,
    lookup-insert key other v entries,
    bytes_beq_iff name key,
    bytes_beq_iff key other,
    bytes_beq_iff name other,
  )

  pub lookup-remove :
      (k j : Bytes) (m : Assoc V) → lookup j (remove k m) ≡ (if k == j then none else lookup j m)
  unfolding lookup remove
  lookup-remove k j [] = ground arith
  lookup-remove k j ((i, w) ∷ m) =
      ground (arith, bytes_beq_iff k j, bytes_beq_iff i k, bytes_beq_iff i j, lookup-remove k j m)

  pub length-remove : (k : Bytes) (m : Assoc V) → length (remove k m) ≤ length m
  unfolding remove
  length-remove k [] = omega arith
  length-remove k ((j, w) ∷ m) = ground (arith, length-remove k m)

  -- Deleting a key that is there makes the map smaller.
  pub length-remove_mem :
      (k : Bytes) (v : V) (m : Assoc V) → lookup k m ≡ some v → length (remove k m) < length m
  unfolding remove lookup
  length-remove_mem k v [] h = cc
  length-remove_mem k v ((j, w) ∷ m) h = ground (arith, length-remove k m, length-remove_mem k v m)

  pub length-insert : (k : Bytes) (v : V) (m : Assoc V) → length (insert k v m) ≤ length m + 1
  unfolding insert
  length-insert k v [] = omega arith
  length-insert k v ((j, w) ∷ m) = ground (arith, length-insert k v m)

  -- Writing to a key that is there keeps the size.
  pub length-insert_mem :
      (k : Bytes) (v w : V) (m : Assoc V) → lookup k m ≡ some w → length (insert k v m) ≡ length m
  unfolding insert lookup
  length-insert_mem k v w [] h = cc
  length-insert_mem k v w ((j, u) ∷ m) h = ground (arith, length-insert_mem k v w m)
