-- ===== src/Interceptor/Routing.antt =====
-- The routing of a request in internal/hades/server/authorization/middleware.go: `wrapUnary`,
-- `limitBearerAttempts`, `authenticateSession`, `authenticateAPIToken`, `UserFromToken`. The
-- rate limiter, the writes and the handler behind the interceptor work on a state `World`.
use hades.Prelude.{
  Bool, Bytes, List, Option, String, [], codes, contains, if◌then◌else◌, none, some, ℕ, ◌&&◌, ◌++◌,
  ◌==◌, ◌∷◌, nat_eq, bytes_eq, string_eq,
}
use hades.Text.{has_prefix, split_n, to_lower, trim_space}
use hades.Result.{Result, err, ok, permission_denied, resource_exhausted, unauthenticated}
use hades.Authz.Scopes.{Scopes, scopes_from_values, unrestricted_scopes}
use hades.Interceptor.Procedures.{
  external_procedure, no_auth_procedures, optional_auth_procedures, pat_only_procedures,
  session_only_procedures,
}
use hades.Interceptor.Stores.{SessionRow, Stores, TokenRow, User}
use hades.Interceptor.Sessions.{resolve_session, touch_session}
use hades.Interceptor.Tokens.{resolve_api_token}

-- The prefixes of utils/crypto/token.go.
abbrev pub session_token_prefix : Bytes
session_token_prefix = codes "hds_sess_"

abbrev pub api_token_prefix : Bytes
api_token_prefix = codes "hades1_"

-- What the interceptor attaches to the context of a request.
pub record Context : Type 0 where
  pub user : Option User
  pub authorization : Bytes
  pub token_scopes : Option Scopes

abbrev pub anonymous : Context
anonymous = record { user = none; authorization = []; token_scopes = none }

-- The limiter's state, and the writes that were tried: idle expiries by session, uses by token.
pub record World {ℓ} (C : Type ℓ) : Type ℓ where
  pub cache : C
  pub touched : List (Bytes × ℕ)
  pub used : List Bytes

abbrev pub Limiter {ℓ} : Type ℓ → Type ℓ
Limiter C = Option (Bytes → ℕ → ℕ → C → C × Result Bool)

abbrev pub bearer_attempt_limit : ℕ
bearer_attempt_limit = 300

-- one minute
abbrev pub bearer_attempt_window : ℕ
bearer_attempt_window = 60000000000

-- The answer of the limiter, which fails open.
abbrev pub limiter_answer : Result Bool → Result (Unit {0})
limiter_answer (err code) = ok tt
limiter_answer (ok allowed) = if allowed then ok tt else err resource_exhausted

-- Server.limitBearerAttempts
unfoldable pub limit_bearer_attempts {ℓ} :
    {C : Type ℓ} → Limiter C → Bytes → C → C × Result (Unit {0})
limit_bearer_attempts none peer c = (c, ok tt)
limit_bearer_attempts (some allow) peer c =
    let (c', answer) =
      allow (codes "bearer:peer:" ++ peer) bearer_attempt_limit bearer_attempt_window c in
    (c', limiter_answer answer)

-- The parts of strings.SplitN(authHeader, " ", 2), of which the first must be "bearer".
abbrev pub bearer_parts : List Bytes → Option Bytes
bearer_parts [] = none
bearer_parts (scheme ∷ []) = none
bearer_parts (scheme ∷ (token ∷ rest)) =
    if to_lower scheme == codes "bearer" then some (trim_space token) else none

-- The raw token of an Authorization header; `none` for a header that is invalid
unfoldable pub bearer_token : Bytes → Option Bytes
bearer_token header = bearer_parts (split_n 2 header 32)

abbrev pub session_context : User → Bytes → Context
session_context user token = record {
  user = some user;
  authorization = token;
  token_scopes = some unrestricted_scopes;
}

abbrev pub token_context : User → Bytes → List Bytes → Context
token_context user token scopes = record {
  user = some user;
  authorization = token;
  token_scopes = some (scopes_from_values scopes);
}

unfoldable pub touch {ℓ} : {C : Type ℓ} → Option ℕ → Bytes → World C → World C
touch none id w = w
touch (some expires) id w = record w { touched = (id, expires) ∷ w.touched }

module _ {ℓ} {C : Type ℓ} {A : Type 0} (stores : Stores) (limiter : Limiter C)
    (next : Context → World C → World C × Result A) where
  -- Server.authenticateSession
  unfoldable pub authenticate_session :
      ℕ → Bytes → Result (User × SessionRow) → World C → World C × Result A
  unfolding touch
  authenticate_session now token (err code) w = (w, err code)
  authenticate_session now token (ok (user, row)) w =
      next (session_context user token) (touch (touch_session now row) row.id w)

  -- Server.authenticateAPIToken
  unfoldable pub authenticate_api_token :
      Bytes → Result (User × TokenRow) → World C → World C × Result A
  authenticate_api_token token (err code) w = (w, err code)
  authenticate_api_token token (ok (user, row)) w =
      next (token_context user token row.scopes) (record w { used = row.id ∷ w.used })

  -- The switch on the token's prefix.
  unfoldable pub route : ℕ → String → Bytes → World C → World C × Result A
  route now procedure token w =
      if has_prefix token session_token_prefix
      then (if contains pat_only_procedures procedure
          then (w, err permission_denied)
          else authenticate_session now token (resolve_session stores now token procedure) w)
      else if has_prefix token api_token_prefix
      then (if contains session_only_procedures procedure
          then (w, err permission_denied)
          else authenticate_api_token token (resolve_api_token stores now token) w)
      else (w, err unauthenticated)

  unfoldable pub limited : ℕ → String → Bytes → Result (Unit {0}) → World C → World C × Result A
  limited now procedure token (err code) w = (w, err code)
  limited now procedure token (ok u) w = route now procedure token w

  unfoldable pub with_bearer : ℕ → String → Bytes → Option Bytes → World C → World C × Result A
  unfolding limit_bearer_attempts
  with_bearer now procedure peer none w = (w, err unauthenticated)
  with_bearer now procedure peer (some token) w =
      let (cache', verdict) = limit_bearer_attempts limiter peer w.cache in
      limited now procedure token verdict (record w { cache = cache' })

  -- Server.wrapUnary
  unfoldable pub wrap_unary : ℕ → String → Bytes → Bytes → World C → World C × Result A
  wrap_unary now procedure peer header w =
      if contains no_auth_procedures procedure
      then next anonymous w
      else if contains optional_auth_procedures procedure && header == []
      then next anonymous w
      else if header == []
      then (w, err unauthenticated)
      else with_bearer now procedure peer (bearer_token header) w

module _ {ℓ} {C : Type ℓ} where
  unfoldable pub session_grant :
      ℕ → Result (User × SessionRow) → World C → World C × Result (User × Scopes)
  session_grant now (err code) w = (w, err code)
  session_grant now (ok (user, row)) w =
      (touch (touch_session now row) row.id w, ok (user, unrestricted_scopes))

  unfoldable pub token_grant : Result (User × TokenRow) → World C → World C × Result (User × Scopes)
  token_grant (err code) w = (w, err code)
  token_grant (ok (user, row)) w =
      (record w { used = row.id ∷ w.used }, ok (user, scopes_from_values row.scopes))

  -- Server.UserFromToken
  unfoldable pub user_from_token : Stores → ℕ → Bytes → World C → World C × Result (User × Scopes)
  unfolding session_grant token_grant
  user_from_token stores now raw_token w =
      if has_prefix raw_token session_token_prefix
      then session_grant now (resolve_session stores now raw_token external_procedure) w
      else if has_prefix raw_token api_token_prefix
      then token_grant (resolve_api_token stores now raw_token) w
      else (w, err unauthenticated)
