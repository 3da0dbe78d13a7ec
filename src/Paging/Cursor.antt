-- ===== src/Paging/Cursor.antt =====
-- A client that follows the page tokens of a list.
use hades.Prelude.{
  Bool-cases, Bytes, List, Option, [], ap, arith, drop, if◌then◌else◌, inl, inr, length,
  length-drop, length-take, ltb, min, none, refl, some, suc, sym, take, take-append-drop, zero, ℕ,
  ◌++◌, ◌+◌, ◌-◌, ◌<◌, ◌∙◌, ◌∷◌, ◌≡◌, ◌≤◌,
}
use hades.Prelude.Int.{negsuc, pos, ℤ}
use hades.Text.{is_empty}
use hades.Users.{page_of}
use hades.Paging.Decimal.{atoi, atoi-itoa, itoa, itoa-filled, max_int}
use hades.Paging.{max_page_size, next_page_token, page_limit, page_offset}

-- What the pages before and after make together, if the client finishes.
abbrev pub put_before {ℓ} : {A : Type ℓ} → List A → Option (List A) → Option (List A)
put_before got none = none
put_before got (some more) = some (got ++ more)

-- One request after another, each with the token of the reply before it, until a reply has no
-- token; `none` for a client that is not done after so many requests.
pub follow {ℓ} : {A : Type ℓ} → ℕ → ℤ → Bytes → List A → Option (List A)
follow zero size token rows = none
follow (suc requests) size token rows =
    let limit = page_limit size in
    let offset = page_offset token in
    let got = page_of limit offset rows in
    let token' = next_page_token (length got) limit offset in
    let more = follow requests size token' rows in
    if is_empty token' then some got else put_before got more

page_limit-bounds : (size : ℤ) → (1 ≤ page_limit size) × (page_limit size ≤ max_page_size)
unfolding page_limit
page_limit-bounds (negsuc n) = (ground arith, ground arith)
page_limit-bounds (pos zero) = (ground arith, ground arith)
page_limit-bounds (pos (suc n)) = (ground arith, ground arith)

page_offset-itoa : (n : ℕ) → n < max_int → page_offset (itoa n) ≡ n
unfolding page_offset
page_offset-itoa n h = rw (atoi-itoa n h) refl

drop-nil {ℓ} : {A : Type ℓ} (n : ℕ) → drop {A = A} n [] ≡ []
drop-nil zero = refl
drop-nil (suc n) = refl

drop-drop {ℓ} : {A : Type ℓ} (k n : ℕ) (xs : List A) → drop k (drop n xs) ≡ drop (n + k) xs
drop-drop k zero xs = ap (λ i. drop i xs) (omega arith)
drop-drop k (suc n) [] = drop-nil k ∙ sym (drop-nil (suc n + k))
drop-drop k (suc n) (x ∷ xs) = drop-drop k n xs ∙ ap (λ i. drop i (x ∷ xs)) suc_lem
  where
    suc_lem : suc (n + k) ≡ suc n + k
    suc_lem = omega arith

take_all {ℓ} : {A : Type ℓ} (k : ℕ) (xs : List A) → length xs ≤ k → take k xs ≡ xs
take_all zero [] h = refl
take_all zero (x ∷ xs) h = ground (arith, h)
take_all (suc k) [] h = refl
take_all (suc k) (x ∷ xs) h = ap (λ l. x ∷ l) (take_all k xs (omega (arith, h)))

-- A page and what is left after it.
page_of-drop {ℓ} :
    {A : Type ℓ} (limit n : ℕ) (rows : List A)
    → page_of limit n rows ++ drop (n + limit) rows ≡ drop n rows
page_of-drop limit n rows =
    ap (λ l. take limit (drop n rows) ++ l) (sym (drop-drop limit n rows))
    ∙ take-append-drop limit (drop n rows)

length-page_of {ℓ} :
    {A : Type ℓ} (limit n : ℕ) (rows : List A)
    → length (page_of limit n rows) ≡ min limit (length rows - n)
length-page_of limit n rows = omega (arith, length-take limit (drop n rows), length-drop n rows)

follow-rest {ℓ} :
    {A : Type ℓ} (requests : ℕ) (size : ℤ) (token : Bytes) (n : ℕ) (rows : List A)
    → page_offset token ≡ n
    → length rows < max_int
    → length rows - n < requests
    → follow requests size token rows ≡ some (drop n rows)
unfolding follow next_page_token
follow-rest zero size token n rows at bound h = ground (arith, h)
follow-rest (suc requests) size token n rows at bound h =
    let limit = page_limit size in
    let (low, high) = page_limit-bounds size in
    let got = length-page_of limit n rows in
    elim (Bool-cases (ltb (length (page_of limit n rows)) limit)) [
      | inl e ↦
          let last : length (drop n rows) ≤ limit = ground (arith, e, got, length-drop n rows) in
          rw (at, e) (ap some (take_all limit (drop n rows) last))
      | inr e ↦
          let full : n + limit ≤ length rows = ground (arith, e, got, low) in
          let next = page_offset-itoa (n + limit) (omega (arith, full, bound)) in
          let rest =
            follow-rest requests size (itoa (n + limit)) (n + limit) rows next bound
              (omega (arith, full, h, low)) in
          rw (at, e, itoa-filled (n + limit), rest) (ap some (page_of-drop limit n rows))
    ]

-- Whoever follows the page tokens from the first page, whatever page size is asked for, comes to a
-- reply without a token after at most one request more than there are rows, and has then got every
-- row exactly once and in order, for a list whose rows an int counts and that does not change
-- meanwhile.
pub follow_visits {ℓ} :
    {A : Type ℓ} (requests : ℕ) (size : ℤ) (rows : List A)
    → length rows < max_int
    → length rows < requests
    → follow requests size [] rows ≡ some rows
unfolding page_offset atoi
follow_visits requests size rows bound h =
    follow-rest requests size [] 0 rows refl bound (omega (arith, h))
