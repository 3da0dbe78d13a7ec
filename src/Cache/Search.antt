-- ===== src/Cache/Search.antt =====
-- Go's `sort.Search`, by which the limiter finds the first hit inside its window.
use hades.Prelude.{
  Bool, Bool-cases, arith, dec_lt, false, inl, inr, ltb, refl, suc, true, zero, ℕ, ◌+◌, ◌/◌, ◌<◌,
  ◌≡◌, ◌≤◌,
}

-- `for i < j { h := (i + j) / 2; if !f(h) { i = h + 1 } else { j = h } }` on fuel
unfoldable pub search_loop : ℕ → (ℕ → Bool) → ℕ → ℕ → ℕ
search_loop zero f i j = i
search_loop (suc fuel) f i j = elim (ltb i j) [
  | true ↦ elim (f ((i + j) / 2)) [
    | true ↦ search_loop fuel f i ((i + j) / 2)
    | false ↦ search_loop fuel f ((i + j) / 2 + 1) j
  ]
  | false ↦ i
]

-- sort.Search(n, f); n rounds are enough, since the interval shrinks in each
unfoldable pub sort_search : ℕ → (ℕ → Bool) → ℕ
sort_search n f = search_loop n f 0 n

abbrev pub IsMonotone : (ℕ → Bool) → Type 0
IsMonotone f = (a b : ℕ) → a ≤ b → f a ≡ true → f b ≡ true

-- The result splits the interval into a false part and a true part.
pub record Splits (f : ℕ → Bool) (i j r : ℕ) : Type 0 where
  pub low : i ≤ r
  pub high : r ≤ j
  pub before : (k : ℕ) → i ≤ k → k < r → f k ≡ false
  pub after : (k : ℕ) → r ≤ k → k < j → f k ≡ true

below_false : (f : ℕ → Bool) (h k : ℕ) → IsMonotone f → f h ≡ false → k ≤ h → f k ≡ false
below_false f h k mono e le = elim (Bool-cases (f k)) [ inl t ↦ cc (mono k h le t) | inr n ↦ n ]

Splits-left :
    (f : ℕ → Bool) (i j h r : ℕ)
    → IsMonotone f
    → f h ≡ true
    → h < j
    → Splits f i h r
    → Splits f i j r
Splits-left f i j h r mono e lt s = record {
  low = s.low;
  high = omega (arith, s.high);
  before = s.before;
  after = λ k a b. elim (dec_lt k h) [ yes p ↦ s.after k a p | no p ↦ mono h k (omega arith) e ];
}

Splits-right :
    (f : ℕ → Bool) (i j h r : ℕ)
    → IsMonotone f
    → f h ≡ false
    → i ≤ h
    → Splits f (h + 1) j r
    → Splits f i j r
Splits-right f i j h r mono e le s = record {
  low = omega (arith, s.low);
  high = s.high;
  before = λ k a b. elim (dec_lt h k) [
    | yes p ↦ s.before k (omega arith) b
    | no p ↦ below_false f h k mono e (omega arith)
  ];
  after = s.after;
}

search_loop_left :
    (fuel : ℕ) (f : ℕ → Bool) (i j : ℕ)
    → ltb i j ≡ true
    → f ((i + j) / 2) ≡ true
    → search_loop (suc fuel) f i j ≡ search_loop fuel f i ((i + j) / 2)
unfolding search_loop
search_loop_left fuel f i j lt e = ground arith

search_loop_right :
    (fuel : ℕ) (f : ℕ → Bool) (i j : ℕ)
    → ltb i j ≡ true
    → f ((i + j) / 2) ≡ false
    → search_loop (suc fuel) f i j ≡ search_loop fuel f ((i + j) / 2 + 1) j
unfolding search_loop
search_loop_right fuel f i j lt e = ground arith

search_loop_done :
    (fuel : ℕ) (f : ℕ → Bool) (i j : ℕ) → ltb i j ≡ false → search_loop fuel f i j ≡ i
unfolding search_loop
search_loop_done zero f i j ge = refl
search_loop_done (suc fuel) f i j ge = ground arith

Splits-empty : (f : ℕ → Bool) (i j : ℕ) → i ≤ j → j ≤ i → Splits f i j i
Splits-empty f i j le ge = record {
  low = omega arith;
  high = le;
  before = λ k a b. absurd (omega arith);
  after = λ k a b. absurd (omega arith);
}

search_loop-Splits :
    (fuel : ℕ) (f : ℕ → Bool) (i j : ℕ)
    → IsMonotone f
    → i ≤ j
    → j ≤ i + fuel
    → Splits f i j (search_loop fuel f i j)
search_loop-Splits zero f i j mono le enough =
    unfold search_loop in Splits-empty f i j le (omega arith)
search_loop-Splits (suc fuel) f i j mono le enough = elim (Bool-cases (ltb i j)) [
  | inl lt ↦ elim (Bool-cases (f ((i + j) / 2))) [
    | inl e ↦ rw (search_loop_left fuel f i j lt e) (
        Splits-left f i j ((i + j) / 2) (search_loop fuel f i ((i + j) / 2)) mono e (ground arith)
          (search_loop-Splits fuel f i ((i + j) / 2) mono (ground arith) (ground arith)))
    | inr e ↦ rw (search_loop_right fuel f i j lt e) (
        Splits-right f i j ((i + j) / 2) (search_loop fuel f ((i + j) / 2 + 1) j) mono e
          (ground arith)
          (search_loop-Splits fuel f ((i + j) / 2 + 1) j mono (ground arith) (ground arith)))
  ]
  | inr ge ↦ rw (search_loop_done (suc fuel) f i j ge) (Splits-empty f i j le (ground arith))
]

-- On a monotone test the binary search returns the least index at which the test holds, or n.
pub sort_search_lem : (n : ℕ) (f : ℕ → Bool) → IsMonotone f → Splits f 0 n (sort_search n f)
unfolding sort_search
sort_search_lem n f mono = search_loop-Splits n f 0 n mono (omega arith) (omega arith)
