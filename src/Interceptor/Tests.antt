-- ===== src/Interceptor/Tests.antt =====
-- Runs of the interceptor at concrete stores and requests.
use hades.Prelude.{
  Bytes, String, [], arith, bytes_beq, codes, false, none, refl, some, suc, true, ℕ, ◌∷◌, ◌≡◌, ◌⊎◌,
}
use hades.Text.{cut, has_prefix, split_n, to_lower, trim_space}
use hades.Result.{err, ok, permission_denied, unauthenticated}
use hades.Authz.Scopes.{unrestricted_scopes}
use hades.Interceptor.Procedures.{
  email_unverified_allowed, external_procedure, no_auth_procedures, optional_auth_procedures,
  pat_only_procedures, session_only_procedures, totp_pending_allowed,
}
use hades.Interceptor.Stores.{
  Lookup, SecretRow, SessionRow, Stores, User, check_user_state, found, state_active,
}
use hades.Interceptor.Sessions.{
  check_account, check_second_factor, resolve_session, resolve_session_row, second_factor_answer,
  touch_session, validate_session_checks,
}
use hades.Interceptor.Routing.{
  Limiter, World, authenticate_session, bearer_token, limit_bearer_attempts, limited, route,
  session_context, touch, user_from_token, with_bearer, wrap_unary,
}
use hades.Interceptor.Admission.{Outcome, wrap_unary-Outcome}
use hades.Interceptor.Service.{LiveSession-served}
use hades.Interceptor.Confined.{
  grant_of, granting, totp_pending_confined, user_from_token-wrap_unary,
}
use hades.Interceptor.Live.{LiveSession, exempt}

abbrev bob : User
bob = record { id = codes "u1"; username = codes "bob"; state = state_active }

-- A session of ten minutes idle time, last used at 0, without its second factor.
abbrev bob_session : SessionRow
bob_session = record {
  id = codes "s1";
  user_id = codes "u1";
  last_activity_at = 0;
  absolute_expires_at = 900000000000;
  idle_expires_at = 600000000000;
  revoked_at = none;
  totp_verified = false;
}

abbrev sessions : Bytes → Lookup SessionRow
sessions hash = found bob_session

abbrev secrets : Bytes → Lookup SecretRow
secrets user_id = found (record { enabled = true })

abbrev bob_stores : Stores
bob_stores = record {
  hash_token = λ token. token;
  session_by_hash = some sessions;
  token_by_hash = none;
  user_by_id = λ id. found bob;
  auth_fields_by_id = λ id. found (record { email_verified_at = some 1 });
  totp_by_user = some secrets;
}

abbrev idle_world : World ℕ
idle_world = record { cache = 0; touched = []; used = [] }

-- A limiter that counts, and allows everything.
abbrev counting : Limiter ℕ
counting = some (λ key limit window c. (suc c, ok true))

abbrev noon : ℕ
noon = 400000000000

abbrev header : Bytes
header = codes "Bearer hds_sess_1"

abbrev logout_procedure : String
logout_procedure = "/hades.api.auth.v1.AuthenticationService/Logout"

wrap_unary_tests :
    (wrap_unary bob_stores counting granting noon logout_procedure [] header idle_world ≡ (
      record { cache = 1; touched = (codes "s1", 900000000000) ∷ []; used = [] },
      ok (bob, unrestricted_scopes),
    ))
    × (wrap_unary bob_stores counting granting noon "/buf.registry.module.v1.UploadService/Upload"
          [] header idle_world
        ≡ (record { cache = 1; touched = []; used = [] }, err permission_denied))
    × (wrap_unary bob_stores counting granting noon "/other" [] header idle_world
        ≡ (record { cache = 1; touched = []; used = [] }, err unauthenticated))
    × (wrap_unary bob_stores counting granting noon "/other" [] [] idle_world
        ≡ (idle_world, err unauthenticated))
unfolding wrap_unary no_auth_procedures optional_auth_procedures with_bearer limited
    limit_bearer_attempts route pat_only_procedures session_only_procedures authenticate_session
    resolve_session resolve_session_row validate_session_checks check_account check_second_factor
    second_factor_answer check_user_state touch_session grant_of bearer_token split_n cut to_lower
    trim_space has_prefix bytes_beq email_unverified_allowed totp_pending_allowed touch
wrap_unary_tests = (refl, refl, refl, refl)

wrap_unary-Outcome_example :
    Outcome bob_stores counting granting noon logout_procedure header
      (wrap_unary bob_stores counting granting noon logout_procedure [] header idle_world)
wrap_unary-Outcome_example =
    wrap_unary-Outcome bob_stores counting granting noon logout_procedure [] header idle_world

totp_pending_confined_example :
    (logout_procedure ≡ "/hades.api.auth.v1.TOTPService/VerifyTOTP")
    ⊎ (logout_procedure ≡ "/hades.api.auth.v1.AuthenticationService/Logout")
unfolding resolve_session resolve_session_row validate_session_checks check_account check_user_state
    email_unverified_allowed totp_pending_allowed
totp_pending_confined_example =
    totp_pending_confined bob_stores noon (codes "hds_sess_1") logout_procedure bob bob_session
      secrets (record { enabled = true }) refl refl refl refl refl

user_from_token-wrap_unary_example :
    user_from_token bob_stores noon (codes "hds_sess_1") idle_world
    ≡ wrap_unary bob_stores none granting noon external_procedure [] header idle_world
unfolding bearer_token split_n cut to_lower trim_space bytes_beq
user_from_token-wrap_unary_example =
    user_from_token-wrap_unary bob_stores noon [] header (codes "hds_sess_1") idle_world refl

bob_session-LiveSession :
    LiveSession bob_stores noon logout_procedure (codes "hds_sess_1") bob bob_session
unfolding email_unverified_allowed totp_pending_allowed
bob_session-LiveSession = record {
  get = sessions;
  configured = refl;
  stored = refl;
  not_revoked = refl;
  not_idle = omega arith;
  not_expired = omega arith;
  fields = record { email_verified_at = some 1 };
  known = refl;
  email = refl;
  second_factor = exempt refl;
  owned = refl;
  active = λ e. cc;
}

LiveSession-served_example :
    wrap_unary bob_stores counting granting noon logout_procedure [] header idle_world
    ≡ granting (session_context bob (codes "hds_sess_1")) (
        touch
          (touch_session noon bob_session)
          bob_session.id
          (record idle_world { cache = (limit_bearer_attempts counting [] 0).0 }))
unfolding no_auth_procedures pat_only_procedures bearer_token split_n cut to_lower trim_space
    bytes_beq has_prefix limit_bearer_attempts
LiveSession-served_example =
    LiveSession-served bob_stores counting granting noon logout_procedure [] header
      (codes "hds_sess_1") bob bob_session idle_world refl refl refl refl refl
      bob_session-LiveSession
