-- ===== src/Auth/Login.antt =====
-- internal/hades/server/auth/authn.go: `Login`, `Logout`; ratelimit.go: `enforceLimit`. The rate
-- limiter's answer, bcrypt and the random generator are parameters.
use hades.Effects.{
  Action, Reply, Statement, ask, call, consult, fail, failed, from_db, reads, replied, return,
  writes, ◌>>=◌,
}
use hades.Result.{
  Result, err, internal, ok, permission_denied, resource_exhausted, unauthenticated, unavailable,
}
use hades.Prelude.{
  Bool, Bytes, Option, false, if◌then◌else◌, is_some, leb, ltb, none, not, some, suc, zero, ℕ, ◌*◌,
  ◌+◌,
}
use hades.Text.{is_empty, to_lower}
use hades.Users.{
  UserRow, get_by_username, increment_failed_logins, lock_until, reset_failed_logins,
  update_user_row,
}
use hades.Auth.Tables.{
  AuthTables, insert_row, on_sessions, on_users, put_sessions, revoke_by_id, row_by_hash,
}
use hades.Interceptor.Stores.{SessionRow, User}

abbrev limit_answer : Option (Result Bool) → Result (Unit {0})
limit_answer none = err unavailable
limit_answer (some (err c)) = err unavailable
limit_answer (some (ok allowed)) = if allowed then ok tt else err resource_exhausted

-- enforceLimit, given what the cache answers; `none` for no cache
unfoldable pub enforce_limit : Option (Result Bool) → Action AuthTables (Unit {0})
enforce_limit answer = consult (λ t. limit_answer answer)

-- The settings of a login, 0 for one that is not set.
pub record LoginConfig : Type 0 where
  pub max_attempts : ℕ
  pub cooldown_minutes : ℕ
  pub idle_timeout_days : ℕ
  pub absolute_timeout_days : ℕ

abbrev pub or_default : ℕ → ℕ → ℕ
or_default zero d = d
or_default (suc n) d = suc n

-- time.Second: times are nanoseconds
abbrev pub second : ℕ
second = 1000000000

abbrev pub attempts_allowed : LoginConfig → ℕ
attempts_allowed c = or_default c.max_attempts 5

abbrev pub cooldown : LoginConfig → ℕ
cooldown c = or_default c.cooldown_minutes 30 * (60 * second)

abbrev pub idle_timeout : LoginConfig → ℕ
idle_timeout c = or_default c.idle_timeout_days 7 * (86400 * second)

abbrev pub absolute_timeout : LoginConfig → ℕ
absolute_timeout c = or_default c.absolute_timeout_days 14 * (86400 * second)

-- What a login finds outside the tables: the limiter's answer, bcrypt's comparison of a hash with
-- a password, the token and its hash, if the generator gives one, whether the second factor of a
-- user is on, and the identifier of a new session.
pub record Surroundings : Type 0 where
  pub limiter : Option (Result Bool)
  pub compare_hash : Bytes → Bytes → Bool
  pub generate_token : Option (Bytes × Bytes)
  pub totp_required : Bytes → Bool
  pub new_id : Bytes

pub record LoginResponse : Type 0 where
  pub token : Bytes
  pub pending_totp : Bool

-- time.Now().Before(*lockedUntil)
abbrev pub is_locked : ℕ → Option ℕ → Bool
is_locked now none = false
is_locked now (some until) = ltb now until

abbrev pub generated : Option (Bytes × Bytes) → Result (Bytes × Bytes)
generated none = err internal
generated (some pair) = ok pair

abbrev pub set_user : Bytes → (UserRow → UserRow) → AuthTables → AuthTables
set_user id f t = on_users (update_user_row id f) t

-- The account is locked if this attempt is the last one allowed.
unfoldable pub lock_if_exhausted : LoginConfig → ℕ → UserRow → Action AuthTables (Unit {0})
lock_if_exhausted c now u =
    if leb (attempts_allowed c) (u.failed_login_count + 1)
    then call (λ e. unavailable) (writes (set_user u.id (lock_until (now + cooldown c))))
    else return tt

-- A wrong password: the error of the counter is dropped, that of the lock is not.
unfoldable pub wrong_password : LoginConfig → ℕ → UserRow → Action AuthTables LoginResponse
wrong_password c now u = do
  counted ← ask (writes (set_user u.id increment_failed_logins))
  locked ← lock_if_exhausted c now u
  fail unauthenticated

abbrev pub new_session : LoginConfig → ℕ → Bytes → UserRow → SessionRow
new_session c now id u = record {
  id = id;
  user_id = u.id;
  last_activity_at = now;
  absolute_expires_at = now + absolute_timeout c;
  idle_expires_at = now + idle_timeout c;
  revoked_at = none;
  totp_verified = false;
}

abbrev pub store_session : Bytes → SessionRow → Statement AuthTables (Unit {0})
store_session hash s t = put_sessions t (insert_row hash s t.sessions)

unfoldable pub open_session :
    LoginConfig → Surroundings → ℕ → UserRow → Action AuthTables LoginResponse
open_session c env now u = do
  reset ← ask (writes (set_user u.id reset_failed_logins))
  (token, hash) ← consult (λ t. generated env.generate_token)
  created ← call from_db (store_session hash (new_session c now env.new_id u))
  return (record { token = token; pending_totp = env.totp_required u.id })

unfoldable pub check_password :
    LoginConfig → Surroundings → ℕ → Bytes → UserRow → Action AuthTables LoginResponse
check_password c env now password u =
    if is_locked now u.locked_until
    then fail permission_denied
    else if not (env.compare_hash u.password password)
    then wrong_password c now u
    else if not (is_some u.email_verified_at)
    then fail permission_denied
    else open_session c env now u

-- Login(username, password)
unfoldable pub login :
    LoginConfig → Surroundings → ℕ → Bytes → Bytes → Action AuthTables LoginResponse
login c env now username password = do
  within_limit ← enforce_limit env.limiter
  u ←
      call (λ e. unauthenticated)
        (reads (λ (t : AuthTables). get_by_username (to_lower username) t.users))
  check_password c env now password u

abbrev revoke_found : ℕ → Reply SessionRow → Action AuthTables (Unit {0})
revoke_found now (failed e) = return tt
revoke_found now (replied s) = do
  revoked ← ask (writes (on_sessions (revoke_by_id s.id now)))
  return tt

-- Logout, for the bearer token of the request, empty for none
unfoldable pub logout : (Bytes → Bytes) → ℕ → Option User → Bytes → Action AuthTables (Unit {0})
logout hash_token now none raw_token = fail unauthenticated
logout hash_token now (some caller) raw_token = if is_empty raw_token then return tt else (do
  reply ← ask (reads (λ (t : AuthTables). row_by_hash (hash_token raw_token) t.sessions))
  revoke_found now reply)
