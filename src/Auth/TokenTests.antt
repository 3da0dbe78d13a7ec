-- ===== src/Auth/TokenTests.antt =====
-- Runs of the handlers of API tokens.
use hades.Effects.{ask, call, consult, transaction, within}
use hades.Effects.Laws.{Ends}
use hades.Result.{err, invalid_argument, not_found, ok, unauthenticated}
use hades.Prelude.{Bytes, Option, [], bytes_beq, codes, if◌then◌else◌, none, refl, some, ◌∷◌, ◌≡◌}
use hades.Prelude.Int.{pos}
use hades.Maps.{Assoc, lookup}
use hades.Text.{cut, is_empty, split_n}
use hades.Paging.{next_page_token, page, page_limit, page_offset}
use hades.Paging.Decimal.{atoi}
use hades.Constants.Scope.{is_known_scope, known_scopes, parse_scope, scope}
use hades.Interceptor.Stores.{Stores, TokenRow, User, missing, state_active}
use hades.Interceptor.Tokens.{resolve_api_token}
use hades.Auth.Tables.{AuthTables, insert_row, update_where}
use hades.Auth.Sessions.{or_missing}
use hades.Auth.Devices.{DeviceEnv}
use hades.Auth.Grants.{IsBefore}
use hades.Auth.ApiTokens.{
  create_api_token, create_api_token_as, list_api_tokens, list_by_user_id, new_token,
  revoke_api_token, revoke_by_owner, scan_scopes, status_expired, token_expiry, validate_scopes,
}
use hades.Auth.TokenIssue.{Created, create_api_token_sound, revoke_api_token_effective}

abbrev token_env : DeviceEnv
token_env = record {
  limiter = none;
  generate_token = some (codes "pat", codes "pat-hash");
  draw = λ i. none;
  hash_token = λ token. token;
  new_id = codes "t";
  host = [];
}

abbrev erin : User
erin = record { id = codes "e"; username = codes "erin"; state = state_active }

abbrev with_tokens : Assoc TokenRow → AuthTables
with_tokens tokens = record {
  users = [];
  sessions = [];
  resets = [];
  verifications = [];
  tokens = tokens;
  grants = [];
}

abbrev erins_token : TokenRow
erins_token = new_token (codes "t") (codes "e") (codes "module:read" ∷ []) (some 100)

abbrev one_token : AuthTables
one_token = with_tokens ((codes "pat-hash", erins_token) ∷ [])

abbrev parse_id : Bytes → Option Bytes
parse_id text = if is_empty text then none else some text

-- A token is made for known scopes and a future expiry, and it is the owner who revokes it, once.
token_tests :
    (create_api_token token_env 7
        (some erin)
        (codes "module:read" ∷ [])
        (some 100)
        ([], with_tokens [])
      ≡ (ok (codes "pat"), ([], one_token)))
    × ((create_api_token token_env 7 (some erin) [] none ([], with_tokens [])).0
        ≡ err invalid_argument)
    × ((create_api_token token_env 7
          (some erin)
          (codes "module:fly" ∷ [])
          none
          ([], with_tokens [])).0
        ≡ err invalid_argument)
    × ((create_api_token token_env 7
          (some erin)
          (codes "module:read" ∷ codes "module:read" ∷ [])
          none
          ([], with_tokens [])).0
        ≡ err invalid_argument)
    × ((create_api_token token_env 7
          (some erin)
          (codes "module:read" ∷ [])
          (some 7)
          ([], with_tokens [])).0
        ≡ err invalid_argument)
    × ((list_api_tokens 101 (some erin) (pos 0) [] ([], one_token)).0
        ≡ ok ((erins_token, status_expired) ∷ [], []))
    × ((revoke_api_token parse_id 9 (some erin) (codes "t") ([], one_token)).0 ≡ ok tt)
    × ((revoke_api_token parse_id 9
          (some erin)
          (codes "t")
          (revoke_api_token parse_id 9 (some erin) (codes "t") ([], one_token)).1).0
        ≡ err not_found)
    × ((revoke_api_token parse_id 9
          (some (record erin { id = codes "x" }))
          (codes "t")
          ([], one_token)).0
        ≡ err not_found)
unfolding create_api_token create_api_token_as list_api_tokens revoke_api_token revoke_by_owner
    validate_scopes scan_scopes token_expiry list_by_user_id is_known_scope known_scopes insert_row
    update_where page page_limit page_offset next_page_token transaction within ask call consult
    lookup bytes_beq parse_scope split_n cut scope atoi
token_tests = (refl, refl, refl, refl, refl, refl, refl, refl, refl)

create_api_token_sound_example :
    Ends
      (IsBefore (with_tokens []))
      (Created (with_tokens []) token_env 7 erin (codes "module:read" ∷ []) (some 100))
      (create_api_token token_env 7
        (some erin)
        (codes "module:read" ∷ [])
        (some 100)
        ([], with_tokens []))
create_api_token_sound_example =
    create_api_token_sound token_env 7 erin (codes "module:read" ∷ []) (some 100)
      ([], with_tokens [])

abbrev token_stores : Stores
token_stores = record {
  hash_token = λ raw. raw;
  session_by_hash = none;
  token_by_hash = some (λ hash. or_missing (
      lookup hash
        (revoke_api_token parse_id 9 (some erin) (codes "t") ([], one_token)).1.1.tokens));
  user_by_id = λ id. missing;
  auth_fields_by_id = λ id. missing;
  totp_by_user = none;
}

revoke_api_token_effective_example :
    resolve_api_token token_stores 10 (codes "pat-hash") ≡ err unauthenticated
unfolding revoke_api_token revoke_by_owner ask call consult lookup bytes_beq
revoke_api_token_effective_example =
    revoke_api_token_effective parse_id 9 erin (codes "t") (codes "pat-hash") erins_token
      token_stores 10 ([], one_token) refl refl refl refl refl
