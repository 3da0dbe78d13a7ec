-- ===== src/Cache/Memory/Eviction.antt =====
-- The caps of the two maps: evictWindowsLocked and evictEntriesLocked on enough fuel.
use hades.Prelude.{
  All, Bool, Bool-cases, Bytes, List, Option-cases, [], arith, bytes_beq, false, if◌then◌else◌, inl,
  inr, is_some, length, length-take, ltb, none, suc, take, true, zero, ℕ, ◌+◌, ◌<◌, ◌==◌, ◌||◌, ◌∷◌,
  ◌≡◌, ◌≤◌, nat_eq, bytes_eq, string_eq,
}
use hades.Maps.{Assoc, insert, length-remove_mem, lookup, lookup-insert, lookup-remove, remove}
use hades.Cache.Memory.{
  MemEntry, MemoryCache, RangeOrder, allow, evict_entries, evict_windows, eviction_sample_size,
  expired, expiry_rank, last_hit, max_rate_limit_keys, max_value_keys, or_nil, sample_entry,
  sample_window, set_value, slide,
}

abbrev has_key {ℓ} : {V : Type ℓ} → Assoc V → Bytes → Bool
has_key m k = is_some (lookup k m)

-- A range statement visits keys of the map only, and as many as there are.
pub record IsRange {ℓ} {V : Type ℓ} (order : RangeOrder V) : Type ℓ where
  pub visits : (m : Assoc V) → All (λ e. is_some (lookup e.0 m) ≡ true) (order m)
  pub visits_all : (m : Assoc V) → length (order m) ≡ length m

sample_window-keeps :
    (p : Bytes → Bool) (ps : Assoc (List ℕ)) (victim : Bytes) (ts : ℕ)
    → p victim ≡ true
    → All (λ e. p e.0 ≡ true) ps
    → p (sample_window ps victim ts) ≡ true
unfolding sample_window
sample_window-keeps p [] victim ts h hs = h
sample_window-keeps p ((k, w) ∷ ps) victim ts h (hk, hs) =
    let found = victim == [] || ltb (last_hit w) ts in
    let here : p (if found then k else victim) ≡ true = ground (arith, h, hk) in
    sample_window-keeps p ps (if found then k else victim) (if found then last_hit w else ts) here
      hs

sample_entry-keeps :
    (p : Bytes → Bool) (now : ℕ) (ps : Assoc MemEntry) (victim : Bytes) (ts : ℕ)
    → p victim ≡ true
    → All (λ e. p e.0 ≡ true) ps
    → p (sample_entry now ps victim ts) ≡ true
unfolding sample_entry
sample_entry-keeps p now [] victim ts h hs = h
sample_entry-keeps p now ((k, e) ∷ ps) victim ts h (hk, hs) =
    let found = victim == [] || ltb (expiry_rank e) ts in
    let here : p (if found then k else victim) ≡ true = ground (arith, h, hk) in
    let later =
      sample_entry-keeps p now ps (if found then k else victim)
        (if found then expiry_rank e else ts) here hs in
    elim (Bool-cases (expired e now)) [ inl x ↦ rw x hk | inr x ↦ rw x later ]

All-take {ℓ} :
    {V : Type ℓ} (p : Bytes → Bool) (n : ℕ) (ps : Assoc V)
    → All (λ e. p e.0 ≡ true) ps
    → All (λ e. p e.0 ≡ true) (take n ps)
All-take p zero ps h = tt
All-take p (suc n) [] h = tt
All-take p (suc n) (e ∷ ps) (h, hs) = (h, All-take p n ps hs)

-- The victim of a sample that is not empty is a key of the map.
sample_window-mem :
    (p : Bytes → Bool) (ps : Assoc (List ℕ))
    → All (λ e. p e.0 ≡ true) ps
    → 0 < length ps
    → p (sample_window ps [] 0) ≡ true
unfolding sample_window bytes_beq
sample_window-mem p [] h lt = absurd (omega arith)
sample_window-mem p ((k, w) ∷ ps) (h, hs) lt = sample_window-keeps p ps k (last_hit w) h hs

sample_entry-mem :
    (p : Bytes → Bool) (now : ℕ) (ps : Assoc MemEntry)
    → All (λ e. p e.0 ≡ true) ps
    → 0 < length ps
    → p (sample_entry now ps [] 0) ≡ true
unfolding sample_entry bytes_beq
sample_entry-mem p now [] h lt = absurd (omega arith)
sample_entry-mem p now ((k, e) ∷ ps) (h, hs) lt = elim (Bool-cases (expired e now)) [
  | inl x ↦ rw x h
  | inr x ↦ rw x (sample_entry-keeps p now ps k (expiry_rank e) h hs)
]

has_key-some {ℓ} :
    {V : Type ℓ} (m : Assoc V) (k : Bytes) → has_key m k ≡ true → length (remove k m) < length m
has_key-some m k h = elim (Option-cases (lookup k m)) [
  | inl e ↦ absurd (cc (e, h))
  | inr (v, e) ↦ length-remove_mem k v m e
]

remove-unnamed {ℓ} :
    {V : Type ℓ} (m : Assoc V) (k : Bytes) → lookup [] m ≡ none → lookup [] (remove k m) ≡ none
remove-unnamed m k h = ground (arith, lookup-remove k [] m, h)

-- The sample is not empty when the map is not.
sample-nonempty {ℓ} :
    {V : Type ℓ} (order : RangeOrder V) (m : Assoc V)
    → IsRange order
    → 0 < length m
    → 0 < length (take eviction_sample_size (order m))
sample-nonempty order m range lt =
    rw (length-take eviction_sample_size (order m), range.visits_all m) (ground arith)

-- A round of the eviction: the victim is there, so that the round deletes it and goes on.
round-capped {ℓ} :
    {V : Type ℓ} (m : Assoc V) (next : Assoc V → Assoc V) (cap : ℕ) (victim : Bytes)
    → lookup [] m ≡ none
    → ((k : Bytes)
        → length (remove k m) < length m
        → lookup [] (remove k m) ≡ none
        → length (next (remove k m)) ≤ cap)
    → has_key m victim ≡ true
    → length (elim victim as (λ v. Assoc V) [ [] ↦ m | c ∷ k ↦ next (remove (c ∷ k) m) ]) ≤ cap
round-capped m next cap [] named ih h = absurd (cc (h, named))
round-capped m next cap (c ∷ k) named ih h =
    ih (c ∷ k) (has_key-some m (c ∷ k) h) (remove-unnamed m (c ∷ k) named)

evict_windows-capped :
    (fuel : ℕ) (order : RangeOrder (List ℕ)) (m : Assoc (List ℕ))
    → IsRange order
    → lookup [] m ≡ none
    → length m ≤ fuel
    → length (evict_windows fuel order m) ≤ max_rate_limit_keys
unfolding evict_windows
evict_windows-capped zero order m range named le = omega arith
evict_windows-capped (suc fuel) order m range named le =
    elim (Bool-cases (ltb max_rate_limit_keys (length m))) [
      | inr e ↦ rw (e, length) (ground (arith, e))
      | inl e ↦
          let sample = take eviction_sample_size (order m) in
          rw (e, length)
            (round-capped m (evict_windows fuel order) max_rate_limit_keys
              (sample_window sample [] 0) named
              (λ k lt named'.
                evict_windows-capped fuel order (remove k m) range named' (omega arith))
              (sample_window-mem (has_key m) sample
                (All-take (has_key m) eviction_sample_size (order m) (range.visits m))
                (sample-nonempty order m range (ground (arith, e)))))
    ]

evict_entries-capped :
    (fuel : ℕ) (order : RangeOrder MemEntry) (now : ℕ) (m : Assoc MemEntry)
    → IsRange order
    → lookup [] m ≡ none
    → length m ≤ fuel
    → length (evict_entries fuel order now m) ≤ max_value_keys
unfolding evict_entries
evict_entries-capped zero order now m range named le = omega arith
evict_entries-capped (suc fuel) order now m range named le =
    elim (Bool-cases (ltb max_value_keys (length m))) [
      | inr e ↦ rw (e, length) (ground (arith, e))
      | inl e ↦
          let sample = take eviction_sample_size (order m) in
          rw (e, length)
            (round-capped m (evict_entries fuel order now) max_value_keys
              (sample_entry now sample [] 0) named
              (λ k lt named'.
                evict_entries-capped fuel order now (remove k m) range named' (omega arith))
              (sample_entry-mem (has_key m) now sample
                (All-take (has_key m) eviction_sample_size (order m) (range.visits m))
                (sample-nonempty order m range (ground (arith, e)))))
    ]

insert-unnamed {ℓ} :
    {V : Type ℓ} (k : Bytes) (v : V) (m : Assoc V)
    → (k == []) ≡ false
    → lookup [] m ≡ none
    → lookup [] (insert k v m) ≡ none
insert-unnamed k v m h named = rw (lookup-insert k [] v m, h) named

-- After a `Set` and after an `Allow`, with a key that is not empty on maps without an empty key,
-- the map written to is within its cap, whatever its size was and in whatever order the range
-- statements visit it.
pub writes_within_caps :
    (order : RangeOrder MemEntry) (order' : RangeOrder (List ℕ)) (m : MemoryCache)
    (key value : Bytes) (ttl limit window now : ℕ)
    → IsRange order
    → IsRange order'
    → (key == []) ≡ false
    → lookup [] m.entries ≡ none
    → lookup [] m.windows ≡ none
    → (length (set_value order m key value ttl now).entries ≤ max_value_keys)
      × (length (allow order' m key limit window now).0.windows ≤ max_rate_limit_keys)
unfolding set_value allow
writes_within_caps order order' m key value ttl limit window now range range' h named named' =
    let expires = if ltb 0 ttl then now + ttl else 0 in
    let added = insert key (record { value = value; expires = expires }) m.entries in
    let added' = insert key (slide (or_nil (lookup key m.windows)) window now) m.windows in
    (
      evict_entries-capped (length added) order now added range
          (insert-unnamed key (record { value = value; expires = expires }) m.entries h named)
          (omega arith),
      evict_windows-capped (length added') order' added' range'
          (insert-unnamed key (slide (or_nil (lookup key m.windows)) window now) m.windows h named')
          (omega arith),
    )

-- Ranging over an association list in its own order.
abbrev pub in_order {ℓ} : {V : Type ℓ} → RangeOrder V
in_order m = m
