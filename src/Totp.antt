-- ===== src/Totp.antt =====
-- Time-based codes: utils/totp/totp.go (`ValidateCodeCounter`), and the counter that makes a code
-- single-use in internal/hades/storage/db/totpsecret/sqlite/sqlite.go (`ConsumeCounter`). The HOTP
-- generator is a library, and so a parameter: the code of a secret at a time, or an error.
pub mod SingleUse
mod Tests
use hades.Prelude.{
  Bool, Bytes, List, Option, [], false, if◌then◌else◌, ltb, none, some, true, ℕ, ◌&&◌, ◌*◌, ◌+◌,
  ◌-◌, ◌/◌, ◌==◌, ◌∷◌, nat_eq, bytes_eq, string_eq,
}
use hades.Result.{Result, err, ok, unknown}

abbrev pub period : ℕ
period = 30

abbrev pub Generator : Type 0
Generator = Bytes → ℕ → Option Bytes

-- The steps of the loop over -Skew .. Skew, a negative one left out.
abbrev pub steps_around : ℕ → List ℕ
steps_around base = if base == 0 then 0 ∷ 1 ∷ [] else (base - 1) ∷ base ∷ (base + 1) ∷ []

unfoldable pub try_steps : Generator → Bytes → Bytes → List ℕ → Result (Option ℕ)
try_steps generate secret code [] = ok none
try_steps generate secret code (step ∷ steps) =
    let rest = try_steps generate secret code steps in
    elim (generate secret (step * period)) [
      | none ↦ err unknown
      | some want ↦ if want == code then ok (some step) else rest
    ]

-- ValidateCodeCounter(secret, code, now); `ok none` for a code that is not valid
unfoldable pub validate_code_counter : Generator → Bytes → Bytes → ℕ → Result (Option ℕ)
validate_code_counter generate secret code now =
    try_steps generate secret code (steps_around (now / period))

-- The columns of totp_secrets that a verification reads and writes, the secret decrypted.
pub record TotpRow : Type 0 where
  pub user_id : Bytes
  pub secret : Bytes
  pub last_used_counter : Option ℕ

-- last_used_counter IS NULL OR last_used_counter < ?
abbrev pub is_before : Option ℕ → ℕ → Bool
is_before none counter = true
is_before (some l) counter = ltb l counter

-- ConsumeCounter(userID, counter): the table, and whether a row was affected; ErrCodeAlreadyUsed
-- is the answer false
unfoldable pub consume_counter : Bytes → ℕ → List TotpRow → List TotpRow × Bool
consume_counter user counter [] = ([], false)
consume_counter user counter (r ∷ rows) =
    let (rows', hit) = consume_counter user counter rows in
    if r.user_id == user && is_before r.last_used_counter counter
    then (record r { last_used_counter = some counter } ∷ rows', true)
    else (r ∷ rows', hit)

-- The first part of VerifyTOTP in internal/hades/server/auth/totp.go: the counter that a code is
-- accepted for, after the validation. What follows for a code that is not valid, the backup codes,
-- is left out.
unfoldable pub consume : Bytes → Result (Option ℕ) → List TotpRow → List TotpRow × Option ℕ
consume user (err code) rows = (rows, none)
consume user (ok none) rows = (rows, none)
consume user (ok (some counter)) rows =
    let (rows', hit) = consume_counter user counter rows in
    (rows', if hit then some counter else none)
