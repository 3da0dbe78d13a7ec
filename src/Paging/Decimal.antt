-- ===== src/Paging/Decimal.antt =====
-- strconv.Itoa and strconv.Atoi on the numbers that are not negative, below 2^63.
use hades.Prelude.{
  Bool, Bool-cases, Bytes, Option, [], arith, false, if◌then◌else◌, inl, inr, leb, ltb, none, refl,
  some, suc, zero, ℕ, ◌%◌, ◌&&◌, ◌*◌, ◌+◌, ◌-◌, ◌/◌, ◌<◌, ◌==◌, ◌^◌, ◌∙◌, ◌∷◌, ◌≡◌, ◌≤◌, nat_eq,
  bytes_eq, string_eq,
}
use hades.Text.{is_empty}

abbrev pub max_int : ℕ
max_int = 2 ^ 63

-- The digits of n, before those of rest; n + 1 rounds are enough.
unfoldable pub digits : ℕ → ℕ → Bytes → Bytes
digits zero n rest = rest
digits (suc fuel) n rest =
    let more = digits fuel (n / 10) ((48 + n % 10) ∷ rest) in
    if ltb n 10 then (48 + n) ∷ rest else more

-- strconv.Itoa(n)
unfoldable pub itoa : ℕ → Bytes
itoa n = digits (suc n) n []

abbrev pub is_digit : ℕ → Bool
is_digit c = leb 48 c && leb c 57

-- The value of a run of digits, after a number that stands before it; `none` at another byte or
-- at a value that does not fit an int.
unfoldable pub read_digits : ℕ → Bytes → Option ℕ
read_digits n [] = some n
read_digits n (c ∷ s) =
    let rest = read_digits (n * 10 + (c - 48)) s in
    if is_digit c && ltb (n * 10 + (c - 48)) max_int then rest else none

-- strconv.Atoi(s) for a number that is at least 0; `none` for an error or a negative number
unfoldable pub atoi : Bytes → Option ℕ
atoi [] = none
atoi (c ∷ s) =
    if c == b'+' then (if is_empty s then none else read_digits 0 s) else read_digits 0 (c ∷ s)

read-step :
    (a d : ℕ) (s : Bytes)
    → d < 10
    → a * 10 + d < max_int
    → read_digits a ((48 + d) ∷ s) ≡ read_digits (a * 10 + d) s
unfolding read_digits
read-step a d s h k = let e : 48 + d - 48 ≡ d = omega arith in rw e (ground (arith, h, k))

read-digits :
    (fuel n : ℕ) (rest : Bytes)
    → n < fuel
    → n < max_int
    → read_digits 0 (digits fuel n rest) ≡ read_digits n rest
unfolding digits
read-digits zero n rest h k = ground (arith, h)
read-digits (suc fuel) n rest h k = elim (Bool-cases (ltb n 10)) [
  | inl e ↦
      let start : 0 * 10 + n ≡ n = omega arith in
      rw (e, read-step 0 n rest (ground (arith, e)) (rw start k), start) refl
  | inr e ↦
      let ten : 10 ≤ n = ground (arith, e) in
      let step : n / 10 * 10 + n % 10 ≡ n = omega arith in
      let ih =
        read-digits fuel (n / 10) ((48 + n % 10) ∷ rest) (omega (arith, ten, h))
          (omega (arith, k)) in
      rw (e, ih, read-step (n / 10) (n % 10) rest (omega arith) (rw step k), step) refl
]

digits-head :
    (fuel n : ℕ) (rest : Bytes)
    → n < fuel
    → (c : ℕ) × (s : Bytes) × (digits fuel n rest ≡ c ∷ s) × (48 ≤ c)
unfolding digits
digits-head zero n rest h = ground (arith, h)
digits-head (suc fuel) n rest h = elim (Bool-cases (ltb n 10)) [
  | inl e ↦ rw e (48 + n, rest, refl, omega arith)
  | inr e ↦
      let ten : 10 ≤ n = ground (arith, e) in
      rw e (digits-head fuel (n / 10) ((48 + n % 10) ∷ rest) (omega (arith, ten, h)))
]

-- No digit is a sign.
atoi-digits :
    (text : Bytes) (c : ℕ) (s : Bytes) → text ≡ c ∷ s → 48 ≤ c → atoi text ≡ read_digits 0 text
unfolding atoi
atoi-digits text c s e h = rw e (ground (arith, h))

-- A number that fits an int is read back from its digits.
pub atoi-itoa : (n : ℕ) → n < max_int → atoi (itoa n) ≡ some n
unfolding itoa read_digits
atoi-itoa n h =
    let (c, s, e, k) = digits-head (suc n) n [] (omega arith) in
    atoi-digits (digits (suc n) n []) c s e k ∙ read-digits (suc n) n [] (omega arith) h

pub itoa-filled : (n : ℕ) → is_empty (itoa n) ≡ false
unfolding itoa
itoa-filled n = let (c, s, e, k) = digits-head (suc n) n [] (omega arith) in rw e refl
