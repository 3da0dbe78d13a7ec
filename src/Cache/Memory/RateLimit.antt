-- ===== src/Cache/Memory/RateLimit.antt =====
-- The sliding-window limit over a trace of calls, whatever other keys are used in between.
use hades.Prelude.{
  All, Bool, Bool-cases, Bytes, List, [], arith, bytes_beq_iff, dec_lt, false, if◌then◌else◌, inl,
  inr, keep, leb, length, refl, suc, zero, ℕ, ◌&&◌, ◌+◌, ◌<◌, ◌==◌, ◌∙◌, ◌∷◌, ◌≡◌, ◌≤◌, ◌⊎◌, nat_eq,
  bytes_eq, string_eq,
}
use hades.Maps.{Assoc, insert, length-insert, lookup, lookup-insert}
use hades.Cache.Memory.{
  MemoryCache, RangeOrder, allow, empty, evict_windows, max_rate_limit_keys, or_nil, slide,
}
use hades.Cache.Memory.Window.{
  IsPast, IsPast-later, hits_from, hits_from-none, hits_from-slide, slide-IsPast,
}

pub record Call : Type 0 where
  pub key : Bytes
  pub limit : ℕ
  pub window : ℕ
  pub now : ℕ

-- The calls of `Allow` one after another, each with its answer.
unfoldable pub run_calls : RangeOrder (List ℕ) → MemoryCache → List Call → List (Call × Bool)
run_calls order m [] = []
run_calls order m (c ∷ cs) =
    let (m', answer) = allow order m c.key c.limit c.window c.now in
    (c, answer) ∷ run_calls order m' cs

abbrev counts : Bytes → ℕ → ℕ → Call × Bool → Bool
counts k lo hi (c, answer) = (c.key == k && answer) && (leb lo c.now && leb c.now hi)

-- How many calls on the key were allowed at a time from lo to hi.
abbrev pub allowed_between : Bytes → ℕ → ℕ → List (Call × Bool) → ℕ
allowed_between k lo hi out = length (keep (counts k lo hi) out)

-- The calls are in order of time, none before t.
abbrev pub IsChronological : ℕ → List Call → Type 0
IsChronological t [] = Unit
IsChronological t (c ∷ cs) = (t ≤ c.now) × IsChronological c.now cs

-- Each call on the key has this limit and window.
abbrev pub HasPolicy : Bytes → ℕ → ℕ → Call → Type 0
HasPolicy k limit window c = c.key ≡ k → (c.limit ≡ limit) × (c.window ≡ window)

abbrev hits_of : Bytes → MemoryCache → List ℕ
hits_of k m = or_nil (lookup k m.windows)

evict_windows_small :
    (fuel : ℕ) (order : RangeOrder (List ℕ)) (m : Assoc (List ℕ))
    → length m ≤ max_rate_limit_keys
    → evict_windows fuel order m ≡ m
unfolding evict_windows
evict_windows_small zero order m h = refl
evict_windows_small (suc fuel) order m h = ground arith

-- Below the cap, a call changes the window of its own key only.
allow_step :
    (order : RangeOrder (List ℕ)) (m : MemoryCache) (c : Call) (k : Bytes)
    → length m.windows < max_rate_limit_keys
    → let r = allow order m c.key c.limit c.window c.now in
      (hits_of k r.0 ≡ (if c.key == k then slide (hits_of c.key m) c.window c.now else hits_of k m))
      × (r.1 ≡ leb (length (slide (hits_of c.key m) c.window c.now)) c.limit)
      × (length r.0.windows ≤ length m.windows + 1)
unfolding allow
allow_step order m c k room =
    let hits : List ℕ = slide (hits_of c.key m) c.window c.now in
    let small : length (insert c.key hits m.windows) ≤ length m.windows + 1 =
      length-insert c.key hits m.windows in
    rw
      (evict_windows_small (length (insert c.key hits m.windows)) order
        (insert c.key hits m.windows) (omega (arith, small)))
      (ground (arith, lookup-insert c.key k hits m.windows), refl, small)

none_later :
    (order : RangeOrder (List ℕ)) (m : MemoryCache) (cs : List Call) (k : Bytes) (lo hi t : ℕ)
    → hi < t
    → IsChronological t cs
    → allowed_between k lo hi (run_calls order m cs) ≡ 0
unfolding run_calls
none_later order m [] k lo hi t lt h = refl
none_later order m (c ∷ cs) k lo hi t lt (h, hs) =
    let r = allow order m c.key c.limit c.window c.now in
    ground (arith, none_later order r.0 cs k lo hi c.now (omega arith) hs)

-- What is counted so far, with the hits that the key already has.
abbrev Bounded : ℕ → ℕ → ℕ → Type 0
Bounded count held limit = (count ≡ 0) ⊎ (count + held ≤ limit)

-- A call on another key leaves the count and the hits alone.
Bounded-other :
    (k : Bytes) (lo hi : ℕ) (c : Call) (answer : Bool) (rest : List (Call × Bool)) (held limit : ℕ)
    → (c.key == k) ≡ false
    → Bounded (allowed_between k lo hi rest) held limit
    → Bounded (allowed_between k lo hi ((c, answer) ∷ rest)) held limit
Bounded-other k lo hi c answer rest held limit e b = ground (arith, e)

-- A call on the key before the interval: nothing is held in the interval, before or after it.
Bounded-early :
    (k : Bytes) (lo hi : ℕ) (c : Call) (answer : Bool) (rest : List (Call × Bool)) (limit : ℕ)
    → c.now < lo
    → Bounded (allowed_between k lo hi rest) 0 limit
    → Bounded (allowed_between k lo hi ((c, answer) ∷ rest)) 0 limit
Bounded-early k lo hi c answer rest limit lt b = ground arith

-- A call on the key inside the interval, which is allowed if its hits are within the limit.
Bounded-inside :
    (k : Bytes) (lo hi : ℕ) (c : Call) (answer : Bool) (rest : List (Call × Bool))
    (held size limit : ℕ)
    → held + 1 ≤ size
    → answer ≡ leb size limit
    → Bounded (allowed_between k lo hi rest) (held + 1) limit
    → Bounded (allowed_between k lo hi ((c, answer) ∷ rest)) held limit
Bounded-inside k lo hi c answer rest held size limit le e b = ground arith

module _ (order : RangeOrder (List ℕ)) (k : Bytes) (limit window lo : ℕ) where
  Bounded-own :
      (m : MemoryCache) (c : Call) (cs : List Call)
      → c.key ≡ k
      → IsPast c.now (hits_of k m)
      → IsChronological c.now cs
      → let r = allow order m c.key c.limit c.window c.now in
        r.1 ≡ leb (length (slide (hits_of k m) window c.now)) limit
        → Bounded
            (allowed_between k lo (lo + window) (run_calls order r.0 cs))
            (hits_from lo (slide (hits_of k m) window c.now))
            limit
        → Bounded
            (allowed_between k lo (lo + window) ((c, r.1) ∷ run_calls order r.0 cs))
            (hits_from lo (hits_of k m))
            limit
  Bounded-own m c cs ek past chron answer ih =
      let r = allow order m c.key c.limit c.window c.now in
      let rest = run_calls order r.0 cs in
      let later : IsPast c.now (slide (hits_of k m) window c.now) =
        slide-IsPast (hits_of k m) window c.now past in
      elim (dec_lt c.now lo) [
        | yes early ↦ rw (hits_from-none lo c.now (hits_of k m) early past.past) (
            Bounded-early k lo (lo + window) c r.1 rest limit early (
              rw (hits_from-none lo c.now (slide (hits_of k m) window c.now) early later.past) at
                ih))
        | no from ↦ elim (dec_lt (lo + window) c.now) [
          | yes late ↦
              inl (ground (arith, none_later order r.0 cs k lo (lo + window) c.now late chron))
          | no to ↦
              let (grows, held) =
                hits_from-slide lo window c.now (hits_of k m) past.sorted (omega arith)
                  (omega arith) in
              Bounded-inside k lo (lo + window) c r.1 rest (hits_from lo (hits_of k m))
                (length (slide (hits_of k m) window c.now)) limit held answer (rw grows at ih)
        ]
      ]

  rate-Bounded :
      (m : MemoryCache) (cs : List Call) (t : ℕ)
      → IsChronological t cs
      → All (HasPolicy k limit window) cs
      → length m.windows + length cs ≤ max_rate_limit_keys
      → IsPast t (hits_of k m)
      → Bounded
          (allowed_between k lo (lo + window) (run_calls order m cs))
          (hits_from lo (hits_of k m))
          limit
  unfolding run_calls
  rate-Bounded m [] t h p room past = inl refl
  rate-Bounded m (c ∷ cs) t (h, hs) (p, ps) room past =
      let r = allow order m c.key c.limit c.window c.now in
      let (hits, answer, size) = allow_step order m c k (omega arith) in
      let now_past : IsPast c.now (hits_of k m) = IsPast-later t c.now (hits_of k m) h past in
      elim (Bool-cases (c.key == k)) [
        | inr ne ↦
            let same : hits_of k r.0 ≡ hits_of k m = rw ne at hits in
            Bounded-other k lo (lo + window) c r.1 (run_calls order r.0 cs)
              (hits_from lo (hits_of k m)) limit ne
              (rw same at (rate-Bounded r.0 cs c.now hs ps (omega arith) (rw same now_past)))
        | inl eq ↦
            let ek : c.key ≡ k = (bytes_beq_iff c.key k).0 eq in
            let (el, ew) = p ek in
            let same_slide : slide (hits_of c.key m) c.window c.now
                ≡ slide (hits_of k m) window c.now =
              cc (ek, ew) in
            let hits' : hits_of k r.0 ≡ slide (hits_of k m) window c.now =
              (rw eq at hits) ∙ same_slide in
            Bounded-own m c cs ek now_past hs (cc (answer, same_slide, el)) (
              rw hits' at (
                rate-Bounded r.0 cs c.now hs ps (omega arith)
                  (rw hits' (slide-IsPast (hits_of k m) window c.now now_past))))
      ]

-- In calls to `Allow` in order of time, on any keys (as many calls as keys are kept, so that none
-- is evicted) and where those on one key all have the same limit and window, at most the limit is
-- allowed on that key in any interval as long as the window.
pub rate_limit_sound :
    (order : RangeOrder (List ℕ)) (calls : List Call) (k : Bytes) (limit window lo t : ℕ)
    → IsChronological t calls
    → All (HasPolicy k limit window) calls
    → length calls ≤ max_rate_limit_keys
    → allowed_between k lo (lo + window) (run_calls order empty calls) ≤ limit
unfolding lookup
rate_limit_sound order calls k limit window lo t chron policy few =
    elim (rate-Bounded order k limit window lo empty calls t chron policy (omega arith)
      (record { sorted = tt; past = tt })) [ inl e ↦ omega (arith, e) | inr le ↦ omega (arith, le) ]
