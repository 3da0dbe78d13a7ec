-- ===== src/Interceptor/Sessions.antt =====
-- Interactive sessions in internal/hades/server/authorization/middleware.go:
-- `validateSessionChecks`, `touchSession`, `resolveSession`. The clock is read once for a request.
use hades.Prelude.{
  Bytes, Option, String, contains, if◌then◌else◌, is_some, leb, ltb, min, none, not, some, ℕ, ◌&&◌,
  ◌+◌, ◌-◌, ◌||◌, nat_eq, bytes_eq, string_eq,
}
use hades.Result.{Result, err, ok, unauthenticated, unavailable, ◌>>=◌}
use hades.Interceptor.Procedures.{email_unverified_allowed, totp_pending_allowed}
use hades.Interceptor.Stores.{
  AuthFields, Lookup, SecretRow, SessionRow, Stores, User, check_user_state, failed, found, missing,
  or_refuse, query,
}

-- sessionTouchInterval, five minutes
abbrev pub session_touch_interval : ℕ
session_touch_interval = 300000000000

unfoldable pub second_factor_answer : Lookup SecretRow → Result (Unit {0})
second_factor_answer failed = err unavailable
second_factor_answer missing = ok tt
second_factor_answer (found row) = if row.enabled then err unauthenticated else ok tt

-- The last check: the user's second factor, for a session that has not passed it.
unfoldable pub check_second_factor : Option (Bytes → Lookup SecretRow) → Bytes → Result (Unit {0})
unfolding second_factor_answer
check_second_factor none user_id = err unavailable
check_second_factor (some get) user_id = second_factor_answer (get user_id)

-- The checks on the account, once its fields are read.
unfoldable pub check_account : Stores → SessionRow → String → AuthFields → Result (Unit {0})
check_account stores sess procedure af =
    if not (is_some af.email_verified_at) && not (contains email_unverified_allowed procedure)
    then err unauthenticated
    else if not sess.totp_verified && not (contains totp_pending_allowed procedure)
    then check_second_factor stores.totp_by_user sess.user_id
    else ok tt

-- Server.validateSessionChecks
unfoldable pub validate_session_checks : Stores → ℕ → SessionRow → String → Result (Unit {0})
validate_session_checks stores now sess procedure =
    if is_some sess.revoked_at
    then err unauthenticated
    else if ltb sess.idle_expires_at now || ltb sess.absolute_expires_at now
    then err unauthenticated
    else or_refuse (stores.auth_fields_by_id sess.user_id) >>= check_account stores sess procedure

-- Server.touchSession: the idle expiry that is written, if one is
unfoldable pub touch_session : ℕ → SessionRow → Option ℕ
touch_session now sess =
    let window = sess.idle_expires_at - sess.last_activity_at in
    if ltb (now - sess.last_activity_at) session_touch_interval
    then none
    else if leb sess.idle_expires_at sess.last_activity_at
    then none
    else some (min (now + window) sess.absolute_expires_at)

unfoldable pub resolve_session_row : Stores → ℕ → String → SessionRow → Result (User × SessionRow)
resolve_session_row stores now procedure sess = do
  checked ← validate_session_checks stores now sess procedure
  user ← or_refuse (stores.user_by_id sess.user_id)
  active ← check_user_state user
  ok (user, sess)

-- Server.resolveSession: the user, and the row that is then touched
unfoldable pub resolve_session : Stores → ℕ → Bytes → String → Result (User × SessionRow)
unfolding resolve_session_row
resolve_session stores now raw_token procedure =
    query stores.session_by_hash (stores.hash_token raw_token)
    >>= resolve_session_row stores now procedure
