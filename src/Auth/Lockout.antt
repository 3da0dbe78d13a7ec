-- ===== src/Auth/Lockout.antt =====
-- Guessing a password: what a run of wrong logins can learn.
use hades.Effects.{World, ask, call, consult, found_or_none, replied}
use hades.Effects.Laws.{found_or_none-replied}
use hades.Result.{Result, err, ok, permission_denied, unauthenticated}
use hades.Prelude.{
  ==_refl, All, Bool, Bool-cases, Bytes, List, Option, [], ap, arith, false, if◌then◌else◌, inl,
  inr, leb, none, refl, some, some_injective, suc, true, zero, ℕ, ◌+◌, ◌<◌, ◌==◌, ◌∙◌, ◌∷◌, ◌≡◌,
  ◌≤◌, nat_eq, bytes_eq, string_eq,
}
use hades.Text.{to_lower}
use hades.Users.{
  UserRow, find_user, get_by_username, increment_failed_logins, lock_until, update_user_row,
}
use hades.Auth.Tables.{AuthTables}
use hades.Auth.Login.{
  LoginConfig, LoginResponse, Surroundings, attempts_allowed, check_password, cooldown,
  enforce_limit, is_locked, lock_if_exhausted, login, or_default, set_user, wrong_password,
}

abbrev pub is_unauthenticated : Result LoginResponse → Bool
is_unauthenticated (err unauthenticated) = true
is_unauthenticated r = false

-- Logins one after another, each at its time and with its password, where no statement fails; how
-- many of them are answered by "invalid credentials", which says that the password was compared.
unfoldable pub guesses : LoginConfig → Surroundings → Bytes → List (ℕ × Bytes) → AuthTables → ℕ
guesses c env username [] t = 0
guesses c env username ((now, password) ∷ attempts) t =
    let end = login c env now username password ([], t) in
    let rest = guesses c env username attempts end.1.1 in
    if is_unauthenticated end.0 then suc rest else rest

-- The first row of a name after an update of the row with its identifier.
find_user-update :
    (p : UserRow → Bool) (f : UserRow → UserRow) (us : List UserRow) (u : UserRow)
    → ((v : UserRow) → p (f v) ≡ p v)
    → find_user p us ≡ some u
    → find_user p (update_user_row u.id f us) ≡ some (f u)
unfolding find_user update_user_row
find_user-update p f [] u same h = cc
find_user-update p f (v ∷ us) u same h = elim (Bool-cases (p v)) [
  | inl e ↦
      let first : v ≡ u = some_injective v u (rw e at h) in
      rw (first, ==_refl u.id, same u, ← first, e) refl
  | inr e ↦ elim (Bool-cases (v.id == u.id)) [
    | inl i ↦ rw (i, same v, e) (find_user-update p f us u same (rw e at h))
    | inr i ↦ rw (i, e) (find_user-update p f us u same (rw e at h))
  ]
]

-- The account that a login reads.
abbrev pub IsAccount : Bytes → AuthTables → UserRow → Type 0
IsAccount username t u = get_by_username (to_lower username) t.users ≡ replied u

set_user-IsAccount :
    (username : Bytes) (t : AuthTables) (u : UserRow) (f : UserRow → UserRow)
    → ((v : UserRow) → (f v).username ≡ v.username)
    → IsAccount username t u
    → IsAccount username (set_user u.id f t) (f u)
unfolding get_by_username
set_user-IsAccount username t u f same h = ap found_or_none (
    find_user-update (λ v. v.username == to_lower username) f t.users u
      (λ v. ap (λ n. n == to_lower username) (same v)) (found_or_none-replied _ u h))

-- The rows that a wrong password leaves.
abbrev pub counted : UserRow → AuthTables → AuthTables
counted u t = set_user u.id increment_failed_logins t

abbrev pub locked : LoginConfig → ℕ → UserRow → AuthTables → AuthTables
locked c now u t = set_user u.id (lock_until (now + cooldown c)) (counted u t)

module _ (c : LoginConfig) (env : Surroundings) (username : Bytes) where
  enforce_limit-allowed :
      (answer : Option (Result Bool)) (w : World AuthTables)
      → answer ≡ some (ok true)
      → enforce_limit answer w ≡ (ok tt, w)
  unfolding enforce_limit consult
  enforce_limit-allowed answer w h = rw h refl

  -- A login is its check of the password, once the account is read.
  login-check_password :
      (now : ℕ) (password : Bytes) (t : AuthTables) (u : UserRow)
      → env.limiter ≡ some (ok true)
      → IsAccount username t u
      → login c env now username password ([], t) ≡ check_password c env now password u ([], t)
  unfolding login call ask
  login-check_password now password t u allowed h =
      rw (enforce_limit-allowed env.limiter ([], t) allowed, h) refl

  wrong-counted :
      (now : ℕ) (u : UserRow) (t : AuthTables)
      → leb (attempts_allowed c) (u.failed_login_count + 1) ≡ false
      → wrong_password c now u ([], t) ≡ (err unauthenticated, ([], counted u t))
  unfolding wrong_password lock_if_exhausted ask call
  wrong-counted now u t h = rw h refl

  wrong-locked :
      (now : ℕ) (u : UserRow) (t : AuthTables)
      → leb (attempts_allowed c) (u.failed_login_count + 1) ≡ true
      → wrong_password c now u ([], t) ≡ (err unauthenticated, ([], locked c now u t))
  unfolding wrong_password lock_if_exhausted ask call
  wrong-locked now u t h = rw h refl

  check_password-locked :
      (now : ℕ) (password : Bytes) (u : UserRow) (t : AuthTables)
      → is_locked now u.locked_until ≡ true
      → check_password c env now password u ([], t) ≡ (err permission_denied, ([], t))
  unfolding check_password
  check_password-locked now password u t h = rw h refl

  check_password-wrong :
      (now : ℕ) (password : Bytes) (u : UserRow) (t : AuthTables)
      → is_locked now u.locked_until ≡ false
      → env.compare_hash u.password password ≡ false
      → check_password c env now password u ([], t) ≡ wrong_password c now u ([], t)
  unfolding check_password
  check_password-wrong now password u t h k = rw (h, k) refl

  -- While an account is locked nothing is compared.
  guesses-locked :
      (attempts : List (ℕ × Bytes)) (t : AuthTables) (u : UserRow) (until : ℕ)
      → env.limiter ≡ some (ok true)
      → IsAccount username t u
      → u.locked_until ≡ some until
      → All (λ a. a.0 < until) attempts
      → guesses c env username attempts t ≡ 0
  unfolding guesses
  guesses-locked [] t u until allowed account locked_u early = refl
  guesses-locked ((now, password) ∷ attempts) t u until allowed account locked_u (h, early) =
      let held : is_locked now u.locked_until ≡ true = rw locked_u (ground (arith, h)) in
      let answer =
        login-check_password now password t u allowed account
        ∙ check_password-locked now password u t held in
      rw answer (guesses-locked attempts t u until allowed account locked_u early)

  -- Attempts with wrong passwords, less than a cooldown apart from the start on.
  abbrev pub Wrong : ℕ → Bytes → List (ℕ × Bytes) → Type 0
  Wrong start hash attempts =
      All (λ a. (start ≤ a.0) × (a.0 < start + cooldown c) × (env.compare_hash hash a.1 ≡ false))
        attempts

  early_enough :
      (start now : ℕ) (hash : Bytes) (attempts : List (ℕ × Bytes))
      → start ≤ now
      → Wrong start hash attempts
      → All (λ a. a.0 < now + cooldown c) attempts
  early_enough start now hash [] h wrong = tt
  early_enough start now hash (a ∷ attempts) h ((low, high, w), wrong) =
      (omega (arith, h, high), early_enough start now hash attempts h wrong)

  guesses-bounded :
      (attempts : List (ℕ × Bytes)) (start : ℕ) (t : AuthTables) (u : UserRow)
      → env.limiter ≡ some (ok true)
      → IsAccount username t u
      → u.locked_until ≡ none
      → u.failed_login_count < attempts_allowed c
      → Wrong start u.password attempts
      → guesses c env username attempts t + u.failed_login_count ≤ attempts_allowed c
  unfolding guesses
  guesses-bounded [] start t u allowed account free few wrong = omega (arith, few)
  guesses-bounded ((now, password) ∷ attempts) start t u allowed account free few
        ((low, high, w), wrong) =
      let unlocked : is_locked now u.locked_until ≡ false = rw free refl in
      let answer =
        login-check_password now password t u allowed account
        ∙ check_password-wrong now password u t unlocked w in
      let next = set_user-IsAccount username t u increment_failed_logins (λ v. refl) account in
      elim (Bool-cases (leb (attempts_allowed c) (u.failed_login_count + 1))) [
        | inl e ↦
            let after =
              set_user-IsAccount username (counted u t) (increment_failed_logins u)
                (lock_until (now + cooldown c)) (λ v. refl) next in
            let quiet =
              guesses-locked attempts (locked c now u t) _ (now + cooldown c) allowed after refl
                (early_enough start now u.password attempts low wrong) in
            rw (answer, wrong-locked now u t e, quiet) (omega (arith, few))
        | inr e ↦
            let more =
              guesses-bounded attempts start (counted u t) (increment_failed_logins u) allowed next
                free (ground (arith, e)) wrong in
            rw (answer, wrong-counted now u t e) (omega (arith, more))
      ]

or_default-positive : (n d : ℕ) → 1 ≤ d → 1 ≤ or_default n d
or_default-positive zero d h = h
or_default-positive (suc n) d h = omega arith

attempts_allowed-positive : (c : LoginConfig) → 1 ≤ attempts_allowed c
attempts_allowed-positive c = or_default-positive c.max_attempts 5 (omega arith)

-- An account that is not locked and has no failed login behind it: of any number of logins with
-- wrong passwords within one cooldown, at most the allowed number of attempts, five unless the
-- configuration says otherwise, is compared with the password, where the rate limiter lets all of
-- them pass and no statement fails.
pub guesses_bounded :
    (c : LoginConfig) (env : Surroundings) (username : Bytes) (attempts : List (ℕ × Bytes))
    (start : ℕ) (t : AuthTables) (u : UserRow)
    → env.limiter ≡ some (ok true)
    → IsAccount username t u
    → u.locked_until ≡ none
    → u.failed_login_count ≡ 0
    → Wrong c env username start u.password attempts
    → guesses c env username attempts t ≤ attempts_allowed c
guesses_bounded c env username attempts start t u allowed account free zero_failed wrong =
    let positive = attempts_allowed-positive c in
    omega (
      arith,
      guesses-bounded c env username attempts start t u allowed account free
          (omega (arith, zero_failed, positive)) wrong,
    )
