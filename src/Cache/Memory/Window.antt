-- ===== src/Cache/Memory/Window.antt =====
-- The hits that the limiter keeps for a key.
use hades.Prelude.{
  All, All-concat, Bool, Bool-cases, List, [], ap, arith, drop, inl, inr, keep, leb, leb→le, length,
  refl, suc, sym, true, zero, ℕ, ◌++◌, ◌+◌, ◌-◌, ◌<◌, ◌∙◌, ◌∷◌, ◌≡◌, ◌≤◌,
}
use hades.Cache.Search.{IsMonotone, Splits, sort_search_lem}
use hades.Cache.Memory.{at_or_after, slide}

abbrev pub IsSorted : List ℕ → Type 0
IsSorted [] = Unit
IsSorted (t ∷ ts) = All (λ u. t ≤ u) ts × IsSorted ts

at_or_after-above :
    (t cutoff : ℕ) (ts : List ℕ) (i : ℕ)
    → cutoff ≤ t
    → All (λ u. t ≤ u) ts
    → at_or_after ts cutoff i ≡ true
at_or_after-above t cutoff [] i le h = refl
at_or_after-above t cutoff (u ∷ ts) zero le (h, hs) = ground arith
at_or_after-above t cutoff (u ∷ ts) (suc i) le (h, hs) = at_or_after-above t cutoff ts i le hs

at_or_after_mono : (cutoff : ℕ) (ts : List ℕ) → IsSorted ts → IsMonotone (at_or_after ts cutoff)
at_or_after_mono cutoff [] h a b le e = refl
at_or_after_mono cutoff (t ∷ ts) (h, hs) zero zero le e = e
at_or_after_mono cutoff (t ∷ ts) (h, hs) zero (suc b) le e =
    at_or_after-above t cutoff ts b (leb→le cutoff t e) h
at_or_after_mono cutoff (t ∷ ts) (h, hs) (suc a) zero le e = absurd (omega arith)
at_or_after_mono cutoff (t ∷ ts) (h, hs) (suc a) (suc b) le e =
    at_or_after_mono cutoff ts hs a b (omega arith) e

keep-all :
    (cutoff : ℕ) (ts : List ℕ)
    → ((k : ℕ) → k < length ts → at_or_after ts cutoff k ≡ true)
    → keep (leb cutoff) ts ≡ ts
keep-all cutoff [] h = refl
keep-all cutoff (t ∷ ts) h =
    rw (h zero (omega arith), keep-all cutoff ts (λ k l. h (suc k) (omega arith))) refl

drop-keep :
    (cutoff : ℕ) (ts : List ℕ) (r : ℕ)
    → Splits (at_or_after ts cutoff) 0 (length ts) r
    → drop r ts ≡ keep (leb cutoff) ts
drop-keep cutoff [] zero s = refl
drop-keep cutoff [] (suc r) s = refl
drop-keep cutoff (t ∷ ts) zero s = sym (keep-all cutoff (t ∷ ts) (λ k l. s.after k (omega arith) l))
drop-keep cutoff (t ∷ ts) (suc r) s = rw (s.before zero (omega arith) (omega arith)) (
    drop-keep cutoff ts r (record {
      low = omega arith;
      high = omega (arith, s.high);
      before = λ k a b. s.before (suc k) (omega arith) (omega arith);
      after = λ k a b. s.after (suc k) (omega arith) (omega arith);
    }))

-- For hits in order of time, the binary search keeps exactly those inside the window.
pub slide-keep :
    (hits : List ℕ) (window now : ℕ)
    → IsSorted hits
    → slide hits window now ≡ keep (leb (now - window)) hits ++ now ∷ []
unfolding slide
slide-keep hits window now h =
    rw
      (drop-keep (now - window) hits _ (
        sort_search_lem (length hits) (at_or_after hits (now - window))
          (at_or_after_mono (now - window) hits h)))
      refl

All-keep : (P : ℕ → Type 0) (p : ℕ → Bool) (ts : List ℕ) → All P ts → All P (keep p ts)
All-keep P p [] h = tt
All-keep P p (t ∷ ts) (h, hs) = elim (Bool-cases (p t)) [
  | inl e ↦ rw e (h, All-keep P p ts hs)
  | inr e ↦ rw e (All-keep P p ts hs)
]

IsSorted-keep : (p : ℕ → Bool) (ts : List ℕ) → IsSorted ts → IsSorted (keep p ts)
IsSorted-keep p [] h = tt
IsSorted-keep p (t ∷ ts) (h, hs) = elim (Bool-cases (p t)) [
  | inl e ↦ rw e (All-keep (λ u. t ≤ u) p ts h, IsSorted-keep p ts hs)
  | inr e ↦ rw e (IsSorted-keep p ts hs)
]

IsSorted-concat :
    (ts : List ℕ) (u : ℕ) → IsSorted ts → All (λ t. t ≤ u) ts → IsSorted (ts ++ u ∷ [])
IsSorted-concat [] u h k = (tt, tt)
IsSorted-concat (t ∷ ts) u (h, hs) (k, ks) =
    (All-concat (λ v. t ≤ v) ts u h k, IsSorted-concat ts u hs ks)

All-later : (t u : ℕ) (ts : List ℕ) → t ≤ u → All (λ v. v ≤ t) ts → All (λ v. v ≤ u) ts
All-later t u [] le h = tt
All-later t u (v ∷ ts) le (h, hs) = (omega arith, All-later t u ts le hs)

-- Hits in order of time, none after t.
pub record IsPast (t : ℕ) (hits : List ℕ) : Type 0 where
  pub sorted : IsSorted hits
  pub past : All (λ u. u ≤ t) hits

pub IsPast-later : (t u : ℕ) (hits : List ℕ) → t ≤ u → IsPast t hits → IsPast u hits
IsPast-later t u hits le h = record { sorted = h.sorted; past = All-later t u hits le h.past }

pub slide-IsPast :
    (hits : List ℕ) (window now : ℕ) → IsPast now hits → IsPast now (slide hits window now)
slide-IsPast hits window now h = rw (slide-keep hits window now h.sorted) (record {
  sorted =
      IsSorted-concat (keep (leb (now - window)) hits) now
        (IsSorted-keep (leb (now - window)) hits h.sorted)
        (All-keep (λ u. u ≤ now) (leb (now - window)) hits h.past);
  past =
      All-concat (λ u. u ≤ now) (keep (leb (now - window)) hits) now
        (All-keep (λ u. u ≤ now) (leb (now - window)) hits h.past) (omega arith);
})

-- How many hits are at or after a time.
abbrev pub hits_from : ℕ → List ℕ → ℕ
hits_from lo ts = length (keep (leb lo) ts)

hits_from-keep :
    (lo cutoff : ℕ) (ts : List ℕ)
    → cutoff ≤ lo
    → hits_from lo (keep (leb cutoff) ts) ≡ hits_from lo ts
hits_from-keep lo cutoff [] le = refl
hits_from-keep lo cutoff (t ∷ ts) le = ground (arith, hits_from-keep lo cutoff ts le)

hits_from-concat :
    (lo u : ℕ) (ts : List ℕ) → lo ≤ u → hits_from lo (ts ++ u ∷ []) ≡ hits_from lo ts + 1
hits_from-concat lo u [] le = ground arith
hits_from-concat lo u (t ∷ ts) le = ground (arith, hits_from-concat lo u ts le)

hits_from-le : (lo : ℕ) (ts : List ℕ) → hits_from lo ts ≤ length ts
hits_from-le lo [] = omega arith
hits_from-le lo (t ∷ ts) = ground (arith, hits_from-le lo ts)

pub hits_from-none : (lo t : ℕ) (ts : List ℕ) → t < lo → All (λ u. u ≤ t) ts → hits_from lo ts ≡ 0
hits_from-none lo t [] lt h = refl
hits_from-none lo t (u ∷ ts) lt (h, hs) = ground (arith, hits_from-none lo t ts lt hs)

-- A call inside [lo, lo + window] adds one hit from lo on, and all of them are counted.
pub hits_from-slide :
    (lo window now : ℕ) (hits : List ℕ)
    → IsSorted hits
    → lo ≤ now
    → now ≤ lo + window
    → (hits_from lo (slide hits window now) ≡ hits_from lo hits + 1)
      × (hits_from lo hits + 1 ≤ length (slide hits window now))
hits_from-slide lo window now hits h le le' =
    let same : hits_from lo (keep (leb (now - window)) hits ++ now ∷ []) ≡ hits_from lo hits + 1 =
      hits_from-concat lo now (keep (leb (now - window)) hits) le
      ∙ ap (λ (n : ℕ). n + 1) (hits_from-keep lo (now - window) hits (omega arith)) in
    rw (slide-keep hits window now h)
      (same, omega (arith, same, hits_from-le lo (keep (leb (now - window)) hits ++ now ∷ [])))
