-- ===== src/Interceptor/Tokens.antt =====
-- API tokens in internal/hades/server/authorization/middleware.go: `resolveAPIToken`.
use hades.Prelude.{Bool, Bytes, Option, false, if◌then◌else◌, is_some, ltb, none, some, ℕ}
use hades.Result.{Result, err, ok, unauthenticated, ◌>>=◌}
use hades.Interceptor.Stores.{Stores, TokenRow, User, check_user_state, or_refuse, query}

-- The test on ExpiresAt, which may be nil.
abbrev pub is_past : Option ℕ → ℕ → Bool
is_past none now = false
is_past (some t) now = ltb t now

unfoldable pub resolve_token_row : Stores → ℕ → TokenRow → Result (User × TokenRow)
resolve_token_row stores now row =
    if is_some row.revoked_at
    then err unauthenticated
    else if is_past row.expires_at now
    then err unauthenticated
    else (do
      user ← or_refuse (stores.user_by_id row.user_id)
      active ← check_user_state user
      ok (user, row))

-- Server.resolveAPIToken: the user, and the row whose scopes the credential has and whose use is
-- then recorded
unfoldable pub resolve_api_token : Stores → ℕ → Bytes → Result (User × TokenRow)
unfolding resolve_token_row
resolve_api_token stores now raw_token =
    query stores.token_by_hash (stores.hash_token raw_token) >>= resolve_token_row stores now
