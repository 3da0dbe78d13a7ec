-- ===== src/Cache/Memory.antt =====
-- internal/hades/cache/memory.go. The clock and the order in which Go ranges over a map are
-- arguments; times are nanoseconds since the epoch, as natural numbers, so `now - window` stops
-- at 0, below which no hit lies. `Close` and the janitor's ticker are left out: `sweep` is what a
-- tick does.
pub mod Window
pub mod RateLimit
pub mod Values
pub mod Hits
pub mod Eviction
mod Tests
use hades.Prelude.{
  Bool, Bytes, List, Option, [], drop, false, if◌then◌else◌, leb, length, ltb, none, not, some, suc,
  take, true, zero, ℕ, ◌&&◌, ◌++◌, ◌+◌, ◌-◌, ◌==◌, ◌^◌, ◌||◌, ◌∷◌, nat_eq, bytes_eq, string_eq,
}
use hades.Maps.{Assoc, insert, lookup, remove}
use hades.Cache.Search.{sort_search}

pub record MemEntry : Type 0 where
  pub value : Bytes
  pub expires : ℕ

-- memEntry.expired, at the time that `time.Now` returns
unfoldable pub expired : MemEntry → ℕ → Bool
expired e now = not (e.expires == 0) && ltb e.expires now

abbrev pub max_rate_limit_keys : ℕ
max_rate_limit_keys = 100000

abbrev pub max_value_keys : ℕ
max_value_keys = 100000

abbrev pub eviction_sample_size : ℕ
eviction_sample_size = 32

-- A window holds the times of its hits, oldest first.
pub record MemoryCache : Type 0 where
  pub entries : Assoc MemEntry
  pub windows : Assoc (List ℕ)

-- NewMemoryCache, with windowTTL fixed at one hour
abbrev pub empty : MemoryCache
empty = record { entries = []; windows = [] }

abbrev pub window_ttl : ℕ
window_ttl = 3600000000000

abbrev pub last_hit : List ℕ → ℕ
last_hit [] = 0
last_hit (t ∷ []) = t
last_hit (t ∷ (u ∷ ts)) = last_hit (u ∷ ts)

-- The two loops of sweep.
unfoldable pub sweep_entries : ℕ → Assoc MemEntry → Assoc MemEntry
sweep_entries now [] = []
sweep_entries now ((k, e) ∷ m) =
    let rest = sweep_entries now m in if expired e now then rest else (k, e) ∷ rest

abbrev is_idle : ℕ → List ℕ → Bool
is_idle cutoff [] = true
is_idle cutoff (t ∷ ts) = ltb (last_hit (t ∷ ts)) cutoff

sweep_windows : ℕ → Assoc (List ℕ) → Assoc (List ℕ)
sweep_windows cutoff [] = []
sweep_windows cutoff ((k, w) ∷ m) =
    let rest = sweep_windows cutoff m in if is_idle cutoff w then rest else (k, w) ∷ rest

-- MemoryCache.sweep
unfoldable pub sweep : MemoryCache → ℕ → MemoryCache
unfolding sweep_entries sweep_windows
sweep m now = record {
  entries = sweep_entries now m.entries;
  windows = sweep_windows (now - window_ttl) m.windows;
}

-- The order in which the next range statement visits a map.
abbrev pub RangeOrder {ℓ} : Type ℓ → Type ℓ
RangeOrder V = Assoc V → Assoc V

-- The sampling loop of evictWindowsLocked: the victim so far, "" for none, and its last hit.
pub sample_window : Assoc (List ℕ) → Bytes → ℕ → Bytes
sample_window [] victim victim_ts = victim
sample_window ((k, w) ∷ rest) victim victim_ts =
    let found = victim == [] || ltb (last_hit w) victim_ts in
    sample_window rest (if found then k else victim) (if found then last_hit w else victim_ts)

-- evictWindowsLocked on fuel; each round but the last deletes a key, so the size is enough fuel.
pub evict_windows : ℕ → RangeOrder (List ℕ) → Assoc (List ℕ) → Assoc (List ℕ)
evict_windows zero order m = m
evict_windows (suc fuel) order m = elim (ltb max_rate_limit_keys (length m)) [
  | false ↦ m
  | true ↦ elim (sample_window (take eviction_sample_size (order m)) [] 0) [
    | [] ↦ m
    | c ∷ k ↦ evict_windows fuel order (remove (c ∷ k) m)
  ]
]

-- 1<<63 - 1, by which a zero expiry counts as the furthest away
abbrev pub no_expiry : ℕ
no_expiry = 2 ^ 63 - 1

abbrev pub expiry_rank : MemEntry → ℕ
expiry_rank e = if e.expires == 0 then no_expiry else e.expires

-- The sampling loop of evictEntriesLocked, which stops at an expired entry.
pub sample_entry : ℕ → Assoc MemEntry → Bytes → ℕ → Bytes
sample_entry now [] victim victim_expiry = victim
sample_entry now ((k, e) ∷ rest) victim victim_expiry =
    let found = victim == [] || ltb (expiry_rank e) victim_expiry in
    let later =
      sample_entry now rest (if found then k else victim)
        (if found then expiry_rank e else victim_expiry) in
    if expired e now then k else later

-- evictEntriesLocked on fuel
unfoldable pub evict_entries : ℕ → RangeOrder MemEntry → ℕ → Assoc MemEntry → Assoc MemEntry
evict_entries zero order now m = m
evict_entries (suc fuel) order now m = elim (ltb max_value_keys (length m)) [
  | false ↦ m
  | true ↦ elim (sample_entry now (take eviction_sample_size (order m)) [] 0) [
    | [] ↦ m
    | c ∷ k ↦ evict_entries fuel order now (remove (c ∷ k) m)
  ]
]

unfoldable pub live_value : Option MemEntry → ℕ → Option Bytes
live_value none now = none
live_value (some e) now = if expired e now then none else some e.value

-- MemoryCache.Get; `none` for a miss
unfoldable pub get : MemoryCache → Bytes → ℕ → Option Bytes
unfolding live_value
get m key now = live_value (lookup key m.entries) now

-- MemoryCache.Set; a TTL that is not positive is 0
unfoldable pub set_value : RangeOrder MemEntry → MemoryCache → Bytes → Bytes → ℕ → ℕ → MemoryCache
set_value order m key value ttl now =
    let expires = if ltb 0 ttl then now + ttl else 0 in
    let added = insert key (record { value = value; expires = expires }) m.entries in
    record m { entries = evict_entries (length added) order now added }

abbrev pub or_nil : Option (List ℕ) → List ℕ
or_nil none = []
or_nil (some w) = w

abbrev pub at_or_after : List ℕ → ℕ → ℕ → Bool
at_or_after [] cutoff i = true
at_or_after (t ∷ ts) cutoff zero = leb cutoff t
at_or_after (t ∷ ts) cutoff (suc i) = at_or_after ts cutoff i

-- The hits that Allow keeps, and the new one: `entries[start:]` and the append.
pub slide : List ℕ → ℕ → ℕ → List ℕ
slide hits window now =
    drop (sort_search (length hits) (at_or_after hits (now - window))) hits ++ now ∷ []

-- MemoryCache.Allow
unfoldable pub allow : RangeOrder (List ℕ) → MemoryCache → Bytes → ℕ → ℕ → ℕ → MemoryCache × Bool
allow order m key limit window now =
    let hits = slide (or_nil (lookup key m.windows)) window now in
    let added = insert key hits m.windows in
    (record m { windows = evict_windows (length added) order added }, leb (length hits) limit)

-- MemoryCache.Delete
unfoldable pub delete : MemoryCache → Bytes → MemoryCache
delete m key = record m { entries = remove key m.entries }
