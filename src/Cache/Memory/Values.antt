-- ===== src/Cache/Memory/Values.antt =====
-- What a reader of the value store sees: reads after writes, deletions and sweeps.
use hades.Prelude.{
  Bool-cases, Bytes, [], arith, bytes_beq_iff, if◌then◌else◌, inl, inr, length, ltb, none, refl,
  some, suc, zero, ℕ, ◌&&◌, ◌+◌, ◌<◌, ◌==◌, ◌∷◌, ◌≡◌, ◌≤◌, nat_eq, bytes_eq, string_eq,
}
use hades.Maps.{Assoc, insert, length-insert, lookup, lookup-insert}
use hades.Cache.Memory.{
  MemEntry, MemoryCache, RangeOrder, evict_entries, expired, get, live_value, max_value_keys,
  set_value, sweep, sweep_entries,
}

-- No key stands twice in the map.
abbrev pub IsKeyed : Assoc MemEntry → Type 0
IsKeyed [] = Unit
IsKeyed ((k, e) ∷ m) = (lookup k m ≡ none) × IsKeyed m

evict_entries_small :
    (fuel : ℕ) (order : RangeOrder MemEntry) (now : ℕ) (m : Assoc MemEntry)
    → length m ≤ max_value_keys
    → evict_entries fuel order now m ≡ m
unfolding evict_entries
evict_entries_small zero order now m h = refl
evict_entries_small (suc fuel) order now m h = ground arith

-- Below the cap, a read after a `Set` returns the value that was set until its TTL has passed, and
-- reads of the other keys are as before.
pub get-set_value :
    (order : RangeOrder MemEntry) (m : MemoryCache) (k j value : Bytes) (ttl now now' : ℕ)
    → length m.entries < max_value_keys
    → get (set_value order m k value ttl now) j now' ≡ (
        if k == j
        then (if ltb 0 ttl && ltb (now + ttl) now' then none else some value)
        else get m j now')
unfolding get set_value expired live_value
get-set_value order m k j value ttl now now' room =
    let e : MemEntry = record { value = value; expires = if ltb 0 ttl then now + ttl else 0 } in
    let small = length-insert k e m.entries in
    rw
      (
        evict_entries_small (length (insert k e m.entries)) order now (insert k e m.entries)
            (omega (arith, small)),
        lookup-insert k j e m.entries,
      )
      (elim (Bool-cases (k == j)) [ inl eq ↦ rw eq (ground arith) | inr ne ↦ rw ne refl ])

lookup-sweep_none :
    (now : ℕ) (k : Bytes) (m : Assoc MemEntry)
    → lookup k m ≡ none
    → lookup k (sweep_entries now m) ≡ none
unfolding lookup sweep_entries
lookup-sweep_none now k [] h = refl
lookup-sweep_none now k ((j, e) ∷ m) h = ground (arith, lookup-sweep_none now k m)

live-sweep :
    (now now' : ℕ) (k : Bytes) (m : Assoc MemEntry)
    → IsKeyed m
    → now ≤ now'
    → live_value (lookup k (sweep_entries now m)) now' ≡ live_value (lookup k m) now'
unfolding lookup sweep_entries live_value expired
live-sweep now now' k [] u le = refl
live-sweep now now' k ((j, e) ∷ m) (h, hs) le =
    ground (arith, bytes_beq_iff j k, live-sweep now now' k m hs le, lookup-sweep_none now k m)

-- A sweep drops nothing that a read at that time or later would still return.
pub get-sweep :
    (m : MemoryCache) (k : Bytes) (now now' : ℕ)
    → IsKeyed m.entries
    → now ≤ now'
    → get (sweep m now) k now' ≡ get m k now'
unfolding get sweep
get-sweep m k now now' u le = live-sweep now now' k m.entries u le
