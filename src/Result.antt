-- ===== src/Result.antt =====
-- Errors of the handlers. An error is its Connect code: the messages are not modelled, and an
-- error that is no Connect error has the code `unknown`, as connect-go gives it.
use hades.Prelude.{inl, inr, refl, ◌≡◌, ◌⊎◌}

pub data Code : Type 0 where
  invalid_argument unauthenticated permission_denied not_found already_exists : Code
  failed_precondition resource_exhausted unavailable unimplemented internal aborted unknown
        canceled :
      Code
  deadline_exceeded : Code

pub data Result {ℓ} (A : Type ℓ) : Type ℓ where
  ok : A → Result A
  err : Code → Result A

-- The rest of a handler after a call that may return an error.
abbrev pub ◌>>=◌ {κ μ} : {A : Type κ} {B : Type μ} → Result A → (A → Result B) → Result B
err code >>= rest = err code
ok value >>= rest = rest value

infixl 5 ◌>>=◌
pub Result-cases {ℓ} :
    {A : Type ℓ} (r : Result A) → ((a : A) × (r ≡ ok a)) ⊎ ((c : Code) × (r ≡ err c))
Result-cases (ok a) = inl (a, refl)
Result-cases (err c) = inr (c, refl)

-- A call after another returned a value only if both did.
pub >>=-ok {ℓ κ} :
    {A : Type ℓ} {B : Type κ} (r : Result A) (f : A → Result B) {b : B}
    → (r >>= f) ≡ ok b
    → (a : A) × (r ≡ ok a) × (f a ≡ ok b)
>>=-ok (ok a) f h = (a, refl, h)
>>=-ok (err c) f h = cc

-- An error is no value.
pub err_not_ok {ℓ κ} : {A : Type ℓ} {B : Type κ} (c : Code) (a : A) → err c ≡ ok a → B
err_not_ok c a h = cc
