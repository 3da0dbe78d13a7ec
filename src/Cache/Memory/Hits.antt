-- ===== src/Cache/Memory/Hits.antt =====
-- A hit of the value store is of a value that was set and neither deleted nor replaced since,
-- also when the store is full.
use hades.Prelude.{
  Bool, Bool-cases, Bytes, [], false, if◌then◌else◌, inl, inr, length, ltb, none, some, suc, take,
  true, zero, ℕ, ◌+◌, ◌==◌, ◌∷◌, ◌≡◌, ◌⊎◌, nat_eq, bytes_eq, string_eq,
}
use hades.Maps.{Assoc, insert, lookup, lookup-insert, lookup-remove, remove}
use hades.Cache.Memory.{
  MemEntry, MemoryCache, RangeOrder, delete, evict_entries, eviction_sample_size, expired, get,
  live_value, max_value_keys, sample_entry, set_value,
}

no_hit : {A : Type 0} (raw : Bytes) → none ≡ some raw → A
no_hit raw h = cc

lookup-remove_live :
    (k j : Bytes) (m : Assoc MemEntry) (now : ℕ) (raw : Bytes)
    → live_value (lookup j (remove k m)) now ≡ some raw
    → ((k == j) ≡ false) × (live_value (lookup j m) now ≡ some raw)
unfolding live_value
lookup-remove_live k j m now raw h = elim (Bool-cases (k == j)) [
  | inl e ↦ no_hit raw (rw (lookup-remove k j m, e) at h)
  | inr e ↦ (e, rw (lookup-remove k j m, e) at h)
]

evict_entries_live :
    (fuel : ℕ) (order : RangeOrder MemEntry) (now : ℕ) (j : Bytes) (m : Assoc MemEntry) (later : ℕ)
    (raw : Bytes)
    → live_value (lookup j (evict_entries fuel order now m)) later ≡ some raw
    → live_value (lookup j m) later ≡ some raw
unfolding evict_entries
evict_entries_live zero order now j m later raw h = h
evict_entries_live (suc fuel) order now j m later raw h =
    full (ltb max_value_keys (length m))
      (sample_entry now (take eviction_sample_size (order m)) [] 0)
      (λ victim g. evict_entries_live fuel order now j (remove victim m) later raw g) h
  where
    full :
        (b : Bool) (victim : Bytes)
        → ((v : Bytes)
            → live_value (lookup j (evict_entries fuel order now (remove v m))) later ≡ some raw
            → live_value (lookup j (remove v m)) later ≡ some raw)
        → live_value
            (lookup j (elim b [
              | false ↦ m
              | true ↦ elim victim [
                | [] ↦ m
                | c ∷ k ↦ evict_entries fuel order now (remove (c ∷ k) m)
              ]
            ]))
            later
          ≡ some raw
        → live_value (lookup j m) later ≡ some raw
    full false victim ih g = g
    full true [] ih g = g
    full true (c ∷ k) ih g = (lookup-remove_live (c ∷ k) j m later raw (ih (c ∷ k) g)).1

pub get-set_value_hit :
    (order : RangeOrder MemEntry) (m : MemoryCache) (k v : Bytes) (ttl now : ℕ) (j : Bytes)
    (later : ℕ) (raw : Bytes)
    → get (set_value order m k v ttl now) j later ≡ some raw
    → (((k == j) ≡ true) × (raw ≡ v)) ⊎ (get m j later ≡ some raw)
unfolding get set_value live_value
get-set_value_hit order m k v ttl now j later raw h =
    let e : MemEntry = record { value = v; expires = if ltb 0 ttl then now + ttl else 0 } in
    let added =
      evict_entries_live (length (insert k e m.entries)) order now j (insert k e m.entries) later
        raw h in
    elim (Bool-cases (k == j)) [
      | inl same ↦ inl (
        same,
        set_hit (expired e later) v raw (rw (lookup-insert k j e m.entries, same) at added),
      )
      | inr apart ↦ inr (rw (lookup-insert k j e m.entries, apart) at added)
    ]
  where
    set_hit : (gone : Bool) (v raw : Bytes) → (if gone then none else some v) ≡ some raw → raw ≡ v
    set_hit true v raw g = cc
    set_hit false v raw g = cc

pub get-delete_hit :
    (m : MemoryCache) (k j : Bytes) (later : ℕ) (raw : Bytes)
    → get (delete m k) j later ≡ some raw
    → ((k == j) ≡ false) × (get m j later ≡ some raw)
unfolding get delete
get-delete_hit m k j later raw h = lookup-remove_live k j m.entries later raw h
