-- ===== src/Auth/Passwords.antt =====
-- internal/hades/server/auth/authn.go: `Register`, `VerifyEmail`, `ResendVerificationEmail`,
-- `RequestPasswordReset`, `ResetPassword`, `ChangePassword`. Mails are not modelled; whether there
-- is a sender is.
use hades.Effects.{
  Action, Reply, Statement, ask, call, consult, fail, failed, from_db, reads, refuse_if, replied,
  return, transaction, writes, ◌>>=◌,
}
use hades.Result.{
  Result, err, internal, invalid_argument, not_found, ok, unauthenticated, unavailable, unknown,
}
use hades.Prelude.{
  Bool, Bytes, Option, [], false, if◌then◌else◌, is_some, length, ltb, none, not, some, ℕ, ◌&&◌,
  ◌*◌, ◌+◌,
}
use hades.Text.{is_empty, to_lower, trim_space}
use hades.Users.{
  UserRow, get_by_email, get_by_username, insert_user, reset_failed_logins, set_email_verified,
  type_user, update_password,
}
use hades.Constants.Names.{validate_name}
use hades.Auth.Tables.{
  AuthTables, OneTimeRow, insert_row, invalidate_for_user, mark_used, on_resets, on_sessions,
  on_verifications, put_resets, put_users, put_verifications, revoke_all_for_user, row_by_hash,
}
use hades.Auth.Login.{enforce_limit, generated, or_default, second, set_user}
use hades.Interceptor.Stores.{User}

-- The settings, 0 for a number that is not set, and what the server is wired with.
pub record PasswordConfig : Type 0 where
  pub min_length : ℕ
  pub auto_verify : Bool
  pub verification_hours : ℕ
  pub reset_hours : ℕ
  pub has_resets : Bool
  pub has_verifications : Bool
  pub has_sender : Bool

-- What a handler finds outside the tables; `hash_password` is bcrypt, which may fail, and `bind`
-- is AddBasicRoles.
pub record Outside : Type 0 where
  pub limiter : Option (Result Bool)
  pub hash_token : Bytes → Bytes
  pub hash_password : Bytes → Option Bytes
  pub compare_hash : Bytes → Bytes → Bool
  pub generate_token : Option (Bytes × Bytes)
  pub new_id : Bytes
  pub bind : Bytes → Statement AuthTables (Unit {0})

abbrev pub is_short : PasswordConfig → Bytes → Bool
is_short c password = ltb (length password) (or_default c.min_length 12)

abbrev pub hashed : Option Bytes → Result Bytes
hashed none = err internal
hashed (some hash) = ok hash

abbrev pub new_user : Bytes → Bytes → Bytes → Bytes → Bytes → UserRow
new_user id username email password description = record {
  id = id;
  username = username;
  email = email;
  password = password;
  kind = type_user;
  description = description;
  url = [];
  email_verified_at = none;
  failed_login_count = 0;
  locked_until = none;
}

abbrev pub store_user : UserRow → Statement AuthTables (Unit {0})
store_user u t = put_users t (insert_user u t.users)

-- The transaction of Register.
unfoldable pub create_account : Outside → UserRow → Action AuthTables Bytes
create_account env u = transaction (do
  created ← call from_db (store_user u)
  stored ← call from_db (reads (λ (t : AuthTables). get_by_username u.username t.users))
  bound ← call (λ e. unknown) (env.bind u.username)
  return stored.id)

abbrev pub one_time : Bytes → Bytes → ℕ → OneTimeRow
one_time id user_id expires_at = record {
  id = id;
  user_id = user_id;
  expires_at = expires_at;
  used_at = none;
}

abbrev put_verification :
    PasswordConfig → ℕ → Bytes → Bytes → Bytes → Statement AuthTables (Unit {0})
put_verification c now id user_id hash t =
    let expires_at = now + or_default c.verification_hours 24 * (3600 * second) in
    put_verifications t (insert_row hash (one_time id user_id expires_at) t.verifications)

-- The token that a mail carries, whose failures are dropped.
unfoldable pub offer_verification :
    PasswordConfig → ℕ → Bytes → Bytes → Option (Bytes × Bytes) → Action AuthTables (Unit {0})
offer_verification c now id user_id none = return tt
offer_verification c now id user_id (some (raw, hash)) = do
  created ← ask (put_verification c now id user_id hash)
  return tt

unfoldable pub after_register : PasswordConfig → Outside → ℕ → Bytes → Action AuthTables Bytes
after_register c env now user_id =
    if c.auto_verify
    then (do
      verified ← call from_db (writes (set_user user_id (set_email_verified now)))
      return user_id)
    else if c.has_verifications && c.has_sender
    then (do
      offered ← offer_verification c now env.new_id user_id env.generate_token
      return user_id)
    else return user_id

-- Register(username, email, password, description)
unfoldable pub register :
    PasswordConfig → Outside → ℕ → Bytes → Bytes → Bytes → Bytes → Action AuthTables Bytes
register c env now raw_username raw_email password description =
    let username = to_lower (trim_space raw_username) in
    let email = to_lower (trim_space raw_email) in
    do
      named ← refuse_if (is_some (validate_name username)) invalid_argument
      addressed ← refuse_if (is_empty email) invalid_argument
      within_limit ← enforce_limit env.limiter
      long ← refuse_if (is_short c password) invalid_argument
      hash ← consult (λ t. hashed (env.hash_password password))
      user_id ← create_account env (new_user env.new_id username email hash description)
      after_register c env now user_id

-- The checks that VerifyEmail and ResetPassword make of a token's row.
unfoldable pub check_one_time : ℕ → OneTimeRow → Result OneTimeRow
check_one_time now r =
    if is_some r.used_at
    then err invalid_argument
    else if ltb r.expires_at now
    then err invalid_argument
    else ok r

-- VerifyEmail(token)
unfoldable pub verify_email : PasswordConfig → Outside → ℕ → Bytes → Action AuthTables (Unit {0})
verify_email c env now token = do
  configured ← refuse_if (not c.has_verifications) internal
  within_limit ← enforce_limit env.limiter
  found_row ←
      call (λ e. not_found)
        (reads (λ (t : AuthTables). row_by_hash (env.hash_token token) t.verifications))
  r ← consult (λ t. check_one_time now found_row)
  transaction (do
    used ← call from_db (writes (on_verifications (mark_used r.id now)))
    call from_db (writes (set_user r.user_id (set_email_verified now))))

abbrev is_verified : Reply UserRow → Bool
is_verified (failed e) = false
is_verified (replied u) = is_some u.email_verified_at

-- ResendVerificationEmail
unfoldable pub resend_verification_email :
    PasswordConfig → Outside → ℕ → Option User → Action AuthTables (Unit {0})
resend_verification_email c env now none = fail unauthenticated
resend_verification_email c env now (some caller) = do
  fields ← ask (reads (λ (t : AuthTables). get_by_username caller.username t.users))
  unverified ← refuse_if (is_verified fields) invalid_argument
  within_limit ← enforce_limit env.limiter
  (raw, hash) ← consult (λ t. generated env.generate_token)
  if c.has_verifications
      then offer_verification c now env.new_id caller.id (some (raw, hash))
      else return tt

abbrev put_reset : PasswordConfig → ℕ → Bytes → Bytes → Bytes → Statement AuthTables (Unit {0})
put_reset c now id user_id hash t =
    let expires_at = now + or_default c.reset_hours 1 * (3600 * second) in
    put_resets t (insert_row hash (one_time id user_id expires_at) t.resets)

unfoldable pub offer_reset :
    PasswordConfig
    → Outside
    → ℕ
    → Reply UserRow
    → Option (Bytes × Bytes)
    → Action AuthTables (Unit {0})
offer_reset c env now (failed e) pair = return tt
offer_reset c env now (replied u) none = return tt
offer_reset c env now (replied u) (some (raw, hash)) = do
  invalidated ← ask (writes (on_resets (invalidate_for_user u.id now)))
  created ← ask (put_reset c now env.new_id u.id hash)
  return tt

-- RequestPasswordReset(email), which answers the same for any address
unfoldable pub request_password_reset :
    PasswordConfig → Outside → ℕ → Bytes → Action AuthTables (Unit {0})
request_password_reset c env now email = do
  within_limit ← enforce_limit env.limiter
  reply ← ask (reads (λ (t : AuthTables). get_by_email (to_lower email) t.users))
  if c.has_resets && c.has_sender then offer_reset c env now reply env.generate_token else return tt

-- The transaction of ResetPassword.
unfoldable pub spend_reset : ℕ → OneTimeRow → Bytes → Action AuthTables (Unit {0})
spend_reset now r hash = transaction (do
  used ← call from_db (writes (on_resets (mark_used r.id now)))
  updated ← call from_db (writes (set_user r.user_id (update_password hash)))
  call from_db (writes (set_user r.user_id reset_failed_logins)))

-- RevokeAllForUser, whose failure is reported
abbrev pub revoke_all : ℕ → Bytes → Action AuthTables (Unit {0})
revoke_all now user_id =
    call (λ e. unavailable) (writes (on_sessions (revoke_all_for_user user_id now)))

-- ResetPassword(token, newPassword)
unfoldable pub reset_password :
    PasswordConfig → Outside → ℕ → Bytes → Bytes → Action AuthTables (Unit {0})
reset_password c env now token password = do
  within_limit ← enforce_limit env.limiter
  configured ← refuse_if (not c.has_resets) internal
  long ← refuse_if (is_short c password) invalid_argument
  found_row ←
      call (λ e. not_found)
        (reads (λ (t : AuthTables). row_by_hash (env.hash_token token) t.resets))
  r ← consult (λ t. check_one_time now found_row)
  hash ← consult (λ t. hashed (env.hash_password password))
  spent ← spend_reset now r hash
  revoke_all now r.user_id

-- ChangePassword(oldPassword, newPassword)
unfoldable pub change_password :
    PasswordConfig → Outside → ℕ → Option User → Bytes → Bytes → Action AuthTables (Unit {0})
change_password c env now none old_password password = fail unauthenticated
change_password c env now (some caller) old_password password = do
  u ← call from_db (reads (λ (t : AuthTables). get_by_username (to_lower caller.username) t.users))
  known ← refuse_if (not (env.compare_hash u.password old_password)) unauthenticated
  long ← refuse_if (is_short c password) invalid_argument
  hash ← consult (λ t. hashed (env.hash_password password))
  updated ← call from_db (writes (set_user caller.id (update_password hash)))
  revoke_all now caller.id
