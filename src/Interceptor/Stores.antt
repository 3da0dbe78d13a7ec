-- ===== src/Interceptor/Stores.antt =====
-- The rows that the interceptor reads and the stores that it asks: the databases are parameters.
-- Times are nanoseconds since the epoch, and a lookup tells a missing row from a failed query, as
-- `isNotFound` in internal/hades/server/authorization/middleware.go does.
use hades.Prelude.{Bool, Bytes, List, Option, arith, inl, inr, none, refl, some, ℕ, ◌≡◌, ◌⊎◌}
use hades.Result.{Result, err, ok, permission_denied, unauthenticated, unavailable}

pub data Lookup {ℓ} (A : Type ℓ) : Type ℓ where
  found : A → Lookup A
  missing failed : Lookup A

-- The test on the error of a lookup: unavailable for a failure, unauthenticated for a missing row.
abbrev pub or_refuse {ℓ} : {A : Type ℓ} → Lookup A → Result A
or_refuse (found a) = ok a
or_refuse missing = err unauthenticated
or_refuse failed = err unavailable

-- A query for the hash of a credential, refused where the store is not configured.
abbrev pub query {ℓ} : {A : Type ℓ} → Option (Bytes → Lookup A) → Bytes → Result A
query none hash = err unauthenticated
query (some get) hash = or_refuse (get hash)

-- identityv1.UserState
pub data UserState : Type 0 where
  state_unspecified state_active state_deactivated : UserState

-- The fields of identityv1.User that the checks read.
pub record User : Type 0 where
  pub id : Bytes
  pub username : Bytes
  pub state : UserState

-- sessiondb.SessionRow
pub record SessionRow : Type 0 where
  pub id : Bytes
  pub user_id : Bytes
  pub last_activity_at : ℕ
  pub absolute_expires_at : ℕ
  pub idle_expires_at : ℕ
  pub revoked_at : Option ℕ
  pub totp_verified : Bool

-- apitoken.Row
pub record TokenRow : Type 0 where
  pub id : Bytes
  pub user_id : Bytes
  pub scopes : List Bytes
  pub expires_at : Option ℕ
  pub revoked_at : Option ℕ

-- user.AuthFields
pub record AuthFields : Type 0 where
  pub email_verified_at : Option ℕ

-- totpsecret.Row
pub record SecretRow : Type 0 where
  pub enabled : Bool

-- The stores of Server, with `none` for one that is not configured, and utilscrypto.HashToken.
pub record Stores : Type 0 where
  pub hash_token : Bytes → Bytes
  pub session_by_hash : Option (Bytes → Lookup SessionRow)
  pub token_by_hash : Option (Bytes → Lookup TokenRow)
  pub user_by_id : Bytes → Lookup User
  pub auth_fields_by_id : Bytes → Lookup AuthFields
  pub totp_by_user : Option (Bytes → Lookup SecretRow)

-- Server.checkUserState
unfoldable pub check_user_state : User → Result (Unit {0})
check_user_state u = elim u.state [
  | state_unspecified ↦ ok tt
  | state_active ↦ ok tt
  | state_deactivated ↦ err permission_denied
]

pub Lookup-cases {ℓ} :
    {A : Type ℓ} (l : Lookup A) → ((a : A) × (l ≡ found a)) ⊎ ((l ≡ missing) ⊎ (l ≡ failed))
Lookup-cases (found a) = inl (a, refl)
Lookup-cases missing = inr (inl refl)
Lookup-cases failed = inr (inr refl)

pub or_refuse-ok {ℓ} : {A : Type ℓ} (l : Lookup A) {a : A} → or_refuse l ≡ ok a → l ≡ found a
or_refuse-ok (found a) h = ground (arith, h)
or_refuse-ok missing h = cc
or_refuse-ok failed h = cc

pub query-ok {ℓ} :
    {A : Type ℓ} (store : Option (Bytes → Lookup A)) (hash : Bytes) {a : A}
    → query store hash ≡ ok a
    → (get : Bytes → Lookup A) × (store ≡ some get) × (get hash ≡ found a)
query-ok none hash h = cc
query-ok (some get) hash h = (get, refl, or_refuse-ok (get hash) h)
