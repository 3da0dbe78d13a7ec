-- ===== src/Auth/ApiTokens.antt =====
-- internal/hades/server/auth/apitoken.go: `CreateAPIToken`, `ListAPITokens`, `RevokeAPIToken`, with
-- the statements of storage/db/apitoken (sqlite) that they make. Names and prefixes of tokens,
-- which are only shown, are left out; the newest row is the one inserted last.
use hades.Effects.{
  Action, Statement, call, consult, fail, from_db, reads, refuse_if, replied, return, ◌>>=◌,
}
use hades.Result.{Result, err, invalid_argument, not_found, ok, resource_exhausted, unauthenticated}
use hades.Prelude.{
  Bool, Bytes, List, Option, [], any, contains, count, false, if◌then◌else◌, is_some, keep, leb,
  length, ltb, map, none, not, reverse, some, suc, true, zero, ℕ, ◌&&◌, ◌*◌, ◌+◌, ◌==◌, ◌∷◌, nat_eq,
  bytes_eq, string_eq,
}
use hades.Prelude.Int.{ℤ}
use hades.Maps.{Assoc}
use hades.Users.{page_of}
use hades.Paging.{next_page_token, page}
use hades.Constants.Scope.{is_known_scope}
use hades.Interceptor.Stores.{TokenRow, User}
use hades.Interceptor.Tokens.{is_past}
use hades.Auth.Tables.{AuthTables, update_where}
use hades.Auth.Login.{generated, second}
use hades.Auth.Devices.{DeviceEnv, store_token}

abbrev pub max_api_tokens_per_user : ℕ
max_api_tokens_per_user = 50

abbrev pub max_api_token_lifetime : ℕ
max_api_token_lifetime = 365 * (24 * (3600 * second))

-- The loop of validateScopes, with the set `seen`.
unfoldable pub scan_scopes : List Bytes → List Bytes → Result (Unit {0})
scan_scopes seen [] = ok tt
scan_scopes seen (s ∷ ss) =
    let rest = scan_scopes (s ∷ seen) ss in
    if not (is_known_scope s)
    then err invalid_argument
    else if contains seen s
    then err invalid_argument
    else rest

-- validateScopes
unfoldable pub validate_scopes : List Bytes → Result (Unit {0})
validate_scopes [] = err invalid_argument
validate_scopes (s ∷ ss) = scan_scopes [] (s ∷ ss)

-- The checks of ExpiresAt
unfoldable pub token_expiry : ℕ → Option ℕ → Result (Option ℕ)
token_expiry now none = ok none
token_expiry now (some t) =
    if not (ltb now t)
    then err invalid_argument
    else if ltb (now + max_api_token_lifetime) t
    then err invalid_argument
    else ok (some t)

pub data TokenStatus : Type 0 where
  status_revoked status_expired status_active : TokenStatus

-- apiTokenStatus
abbrev pub api_token_status : TokenRow → ℕ → TokenStatus
api_token_status row now =
    if is_some row.revoked_at
    then status_revoked
    else if is_past row.expires_at now
    then status_expired
    else status_active

abbrev pub is_active : TokenStatus → Bool
is_active status_revoked = false
is_active status_expired = false
is_active status_active = true

abbrev pub list_limit : ℕ → ℕ
list_limit zero = 50
list_limit (suc n) = if ltb 100 (suc n) then 100 else suc n

-- ListByUserID
unfoldable pub list_by_user_id : Bytes → ℕ → ℕ → Assoc TokenRow → List TokenRow
list_by_user_id user_id limit offset tokens =
    page_of (list_limit limit) offset
      (reverse (keep (λ (row : TokenRow). row.user_id == user_id) (map (λ e. e.1) tokens)))

abbrev pub new_token : Bytes → Bytes → List Bytes → Option ℕ → TokenRow
new_token id user_id scopes expires_at = record {
  id = id;
  user_id = user_id;
  scopes = scopes;
  expires_at = expires_at;
  revoked_at = none;
}

abbrev pub count_active : ℕ → List TokenRow → ℕ
count_active now rows = count (λ row. is_active (api_token_status row now)) rows

unfoldable pub create_api_token_as :
    DeviceEnv → ℕ → User → List Bytes → Option ℕ → Action AuthTables Bytes
create_api_token_as env now user scopes expires = do
  valid ← consult (λ t. validate_scopes scopes)
  expires_at ← consult (λ t. token_expiry now expires)
  existing ← call from_db (
      reads (λ (t : AuthTables).
        replied (list_by_user_id user.id (max_api_tokens_per_user + 1) 0 t.tokens)))
  capped ← refuse_if (leb max_api_tokens_per_user (count_active now existing)) resource_exhausted
  (token, hash) ← consult (λ t. generated env.generate_token)
  stored ← call from_db (store_token hash (new_token env.new_id user.id scopes expires_at))
  return token

-- CreateAPIToken
unfoldable pub create_api_token :
    DeviceEnv → ℕ → Option User → List Bytes → Option ℕ → Action AuthTables Bytes
create_api_token env now none scopes expires = fail unauthenticated
create_api_token env now (some user) scopes expires =
    create_api_token_as env now user scopes expires

abbrev with_status : ℕ → TokenRow → TokenRow × TokenStatus
with_status now row = (row, api_token_status row now)

-- ListAPITokens
unfoldable pub list_api_tokens :
    ℕ → Option User → ℤ → Bytes → Action AuthTables (List (TokenRow × TokenStatus) × Bytes)
list_api_tokens now none size token = fail unauthenticated
list_api_tokens now (some user) size token = do
  let (limit, offset) = page size token
  rows ←
      call from_db
        (reads (λ (t : AuthTables). replied (list_by_user_id user.id limit offset t.tokens)))
  return (map (with_status now) rows, next_page_token (length rows) limit offset)

abbrev pub is_own_live : Bytes → Bytes → TokenRow → Bool
is_own_live id user_id row = row.id == id && row.user_id == user_id && not (is_some row.revoked_at)

abbrev pub revoke_token : ℕ → TokenRow → TokenRow
revoke_token now row = record row { revoked_at = some now }

-- RevokeByOwner, and whether a row was revoked
unfoldable pub revoke_by_owner : Bytes → Bytes → ℕ → Statement AuthTables Bool
revoke_by_owner id user_id now t = (
  replied (any (is_own_live id user_id) (map (λ e. e.1) t.tokens)),
  record t { tokens = update_where (is_own_live id user_id) (revoke_token now) t.tokens },
)

abbrev pub parsed : Option Bytes → Result Bytes
parsed none = err invalid_argument
parsed (some id) = ok id

-- RevokeAPIToken, given what uuid.Parse makes of a text
unfoldable pub revoke_api_token :
    (Bytes → Option Bytes) → ℕ → Option User → Bytes → Action AuthTables (Unit {0})
revoke_api_token parse now none text = fail unauthenticated
revoke_api_token parse now (some user) text = do
  id ← consult (λ t. parsed (parse text))
  revoked ← call from_db (revoke_by_owner id user.id now)
  refuse_if (not revoked) not_found
