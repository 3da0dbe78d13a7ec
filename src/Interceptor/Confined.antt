-- ===== src/Interceptor/Confined.antt =====
-- What follows for sessions without their second factor, for the Go proxy and for idle sessions.
use hades.Prelude.{
  ==_iff, Bool-cases, Bytes, Option, String, [], arith, bytes_beq_iff, contains, false, inl, inr,
  none, refl, some, true, ℕ, ◌+◌, ◌∙◌, ◌∷◌, ◌≡◌, ◌≢◌, ◌≤◌, ◌⊎◌, nat_eq, bytes_eq, string_eq,
}
use hades.Result.{Result, Result-cases, err, internal, ok}
use hades.Authz.Scopes.{Scopes}
use hades.Interceptor.Procedures.{
  external_procedure, no_auth_procedures, optional_auth_procedures, pat_only_procedures,
  session_only_procedures, totp_pending_allowed,
}
use hades.Interceptor.Stores.{Lookup, SecretRow, SessionRow, Stores, User, found}
use hades.Interceptor.Sessions.{resolve_session, session_touch_interval, touch_session}
use hades.Interceptor.Resolution.{resolve_session-live}
use hades.Interceptor.Live.{SecondFactor, exempt, not_enabled, not_enrolled, verified}
use hades.Interceptor.Routing.{
  Context, World, api_token_prefix, authenticate_api_token, authenticate_session, bearer_token,
  limit_bearer_attempts, limited, route, session_grant, session_token_prefix, token_grant,
  user_from_token, with_bearer, wrap_unary,
}
use hades.Text.{cut, has_prefix, split_n}
use hades.Interceptor.Tokens.{resolve_api_token}

pending-exempt :
    (stores : Stores) (row : SessionRow) (procedure : String) (get : Bytes → Lookup SecretRow)
    (secret : SecretRow)
    → SecondFactor stores row procedure
    → row.totp_verified ≡ false
    → stores.totp_by_user ≡ some get
    → get row.user_id ≡ found secret
    → secret.enabled ≡ true
    → contains totp_pending_allowed procedure ≡ true
pending-exempt stores row procedure get secret (verified v) p c f e = cc
pending-exempt stores row procedure get secret (exempt x) p c f e = x
pending-exempt stores row procedure get secret (not_enrolled get' c' f') p c f e = cc
pending-exempt stores row procedure get secret (not_enabled get' s' c' f' n) p c f e = cc

-- A session that has not passed the second factor of a user who has it enabled is resolved for two
-- procedures only: verifying the second factor and logging out.
pub totp_pending_confined :
    (stores : Stores) (now : ℕ) (token : Bytes) (procedure : String) (user : User)
    (row : SessionRow) (get : Bytes → Lookup SecretRow) (secret : SecretRow)
    → resolve_session stores now token procedure ≡ ok (user, row)
    → row.totp_verified ≡ false
    → stores.totp_by_user ≡ some get
    → get row.user_id ≡ found secret
    → secret.enabled ≡ true
    → (procedure ≡ "/hades.api.auth.v1.TOTPService/VerifyTOTP")
      ⊎ (procedure ≡ "/hades.api.auth.v1.AuthenticationService/Logout")
unfolding totp_pending_allowed
totp_pending_confined stores now token procedure user row get secret h p c f e =
    let live = resolve_session-live stores now token procedure user row h in
    let allowed = pending-exempt stores row procedure get secret live.second_factor p c f e in
    ground (
      arith,
      allowed,
      ==_iff "/hades.api.auth.v1.TOTPService/VerifyTOTP" procedure,
      ==_iff "/hades.api.auth.v1.AuthenticationService/Logout" procedure,
    )

-- A written idle expiry never passes the absolute expiry, never shortens the session unless to the
-- absolute expiry, and is written only when the interval since the last activity has passed.
pub touch_session_bounded :
    (now : ℕ) (row : SessionRow) (expires : ℕ)
    → touch_session now row ≡ some expires
    → (expires ≤ row.absolute_expires_at)
      × ((row.idle_expires_at ≤ expires) ⊎ (expires ≡ row.absolute_expires_at))
      × (row.last_activity_at + session_touch_interval ≤ now)
unfolding touch_session
touch_session_bounded now row expires h = ground (arith, h)

unfoldable pub grant_of : Option User → Option Scopes → Result (User × Scopes)
grant_of (some user) (some scopes) = ok (user, scopes)
grant_of (some user) none = err internal
grant_of none scopes = err internal

-- The handler that returns what the interceptor attached.
abbrev pub granting {ℓ} : {C : Type ℓ} → Context → World C → World C × Result (User × Scopes)
granting ctx w = (w, grant_of ctx.user ctx.token_scopes)

pub no_header-no_bearer : (header token : Bytes) → bearer_token header ≡ some token → header ≢ []
unfolding bearer_token split_n cut
no_header-no_bearer [] token h = cc
no_header-no_bearer (c ∷ header) token h = cc

route-user_from_token {ℓ} :
    {C : Type ℓ} (stores : Stores) (now : ℕ) (token : Bytes) (w : World C)
    → user_from_token stores now token w ≡ route stores none granting now external_procedure token w
unfolding user_from_token route pat_only_procedures session_only_procedures session_grant
    token_grant authenticate_session authenticate_api_token grant_of
route-user_from_token stores now token w =
    elim (Bool-cases (has_prefix token session_token_prefix)) [
      | inl s ↦ elim (Result-cases (resolve_session stores now token external_procedure)) [
        | inl ((user, row), e) ↦ rw (s, e) refl
        | inr (code, e) ↦ rw (s, e) refl
      ]
      | inr s ↦ elim (Bool-cases (has_prefix token api_token_prefix)) [
        | inl a ↦ elim (Result-cases (resolve_api_token stores now token)) [
          | inl ((user, row), e) ↦ rw (s, a, e) refl
          | inr (code, e) ↦ rw (s, a, e) refl
        ]
        | inr a ↦ rw (s, a) refl
      ]
    ]

-- `UserFromToken` applies the rules of the interceptor: it returns what the interceptor, without a
-- limiter, attaches for a header with this bearer token and the label of external callers.
pub user_from_token-wrap_unary {ℓ} :
    {C : Type ℓ} (stores : Stores) (now : ℕ) (peer header token : Bytes) (w : World C)
    → bearer_token header ≡ some token
    → user_from_token stores now token w
      ≡ wrap_unary stores none granting now external_procedure peer header w
unfolding wrap_unary no_auth_procedures optional_auth_procedures with_bearer limited
    limit_bearer_attempts
user_from_token-wrap_unary stores now peer header token w b =
    route-user_from_token stores now token w
    ∙ ground (arith, b, no_header-no_bearer header token b, bytes_beq_iff header [])
