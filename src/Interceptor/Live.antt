-- ===== src/Interceptor/Live.antt =====
-- What a credential must be to be resolved: the checks of `resolveSession` and `resolveAPIToken`
-- as conditions on the rows, without their order.
use hades.Prelude.{
  Bytes, String, contains, false, is_some, none, some, true, ℕ, ◌||◌, ◌≡◌, ◌≢◌, ◌≤◌, nat_eq,
  bytes_eq, string_eq,
}
use hades.Interceptor.Procedures.{email_unverified_allowed, totp_pending_allowed}
use hades.Interceptor.Stores.{
  AuthFields, Lookup, SecretRow, SessionRow, Stores, TokenRow, User, found, missing,
  state_deactivated,
}
use hades.Interceptor.Tokens.{is_past}

-- The second factor is passed, not needed for the procedure, not enrolled or not enabled.
pub data SecondFactor (stores : Stores) (row : SessionRow) (procedure : String) : Type 0 where
  verified : row.totp_verified ≡ true → SecondFactor stores row procedure
  exempt : contains totp_pending_allowed procedure ≡ true → SecondFactor stores row procedure
  not_enrolled :
      (get : Bytes → Lookup SecretRow)
      → stores.totp_by_user ≡ some get
      → get row.user_id ≡ missing
      → SecondFactor stores row procedure
  not_enabled :
      (get : Bytes → Lookup SecretRow) (secret : SecretRow)
      → stores.totp_by_user ≡ some get
      → get row.user_id ≡ found secret
      → secret.enabled ≡ false
      → SecondFactor stores row procedure

pub record LiveSession (stores : Stores) (now : ℕ) (procedure : String) (token : Bytes)
    (user : User) (row : SessionRow) : Type 0 where
  pub get : Bytes → Lookup SessionRow
  pub configured : stores.session_by_hash ≡ some get
  pub stored : get (stores.hash_token token) ≡ found row
  pub not_revoked : row.revoked_at ≡ none
  pub not_idle : now ≤ row.idle_expires_at
  pub not_expired : now ≤ row.absolute_expires_at
  pub fields : AuthFields
  pub known : stores.auth_fields_by_id row.user_id ≡ found fields
  pub email :
      (is_some fields.email_verified_at || contains email_unverified_allowed procedure) ≡ true
  pub second_factor : SecondFactor stores row procedure
  pub owned : stores.user_by_id row.user_id ≡ found user
  pub active : user.state ≢ state_deactivated

pub record LiveToken (stores : Stores) (now : ℕ) (token : Bytes) (user : User) (row : TokenRow)
    : Type 0 where
  pub get : Bytes → Lookup TokenRow
  pub configured : stores.token_by_hash ≡ some get
  pub stored : get (stores.hash_token token) ≡ found row
  pub not_revoked : row.revoked_at ≡ none
  pub not_expired : is_past row.expires_at now ≡ false
  pub owned : stores.user_by_id row.user_id ≡ found user
  pub active : user.state ≢ state_deactivated
