-- ===== src/Auth/Devices.antt =====
-- internal/hades/server/auth/device.go: `RequestDeviceCode`, `PollDeviceToken`,
-- `ApproveDeviceGrant`, with the statements of storage/db/devicegrant and apitoken (sqlite) that
-- they make. The random generator, the limiter's answer and the host are parameters.
use hades.Effects.{
  Action, Statement, World, call, consult, fail, failed, found_or_none, from_db, reads, refuse_if,
  replied, return, transaction, unique_violation, ◌>>=◌,
}
use hades.Result.{
  Code, Result, err, failed_precondition, internal, invalid_argument, not_found, ok,
  unauthenticated, unknown,
}
use hades.Prelude.{
  Bool, Bytes, List, Option, [], any, codes, if◌then◌else◌, is_some, ltb, map, none, not, some, suc,
  zero, ℕ, ◌&&◌, ◌*◌, ◌++◌, ◌+◌, ◌==◌, ◌||◌, ◌∷◌, nat_eq, bytes_eq, string_eq,
}
use hades.Text.{is_empty}
use hades.Constants.{action_push, action_read, resource_module}
use hades.Interceptor.Stores.{TokenRow, User}
use hades.Auth.Tables.{AuthTables, GrantRow, change, insert_row, put_tokens}
use hades.Auth.Login.{enforce_limit, generated, second}

abbrev pub device_code_expiry : ℕ
device_code_expiry = 15 * (60 * second)

-- verificationURL
abbrev pub verification_url : Bytes → Bytes
verification_url host =
    if is_empty host then codes "/device" else codes "https://" ++ host ++ codes "/device"

abbrev pub device_token_scopes : List Bytes
device_token_scopes =
    (resource_module ++ b':' ∷ action_read) ∷ (resource_module ++ b':' ∷ action_push) ∷ []

-- generateUserCode, given the letters drawn, and `none` for a draw that fails
abbrev with_dash : ℕ → Bytes → Bytes
with_dash i code = if i == 3 then code ++ codes "-" else code

unfoldable pub user_code_from : (ℕ → Option ℕ) → ℕ → ℕ → Bytes → Option Bytes
user_code_from draw i zero code = some code
user_code_from draw i (suc n) code = elim (draw i) [
  | none ↦ none
  | some letter ↦ user_code_from draw (i + 1) n (with_dash i (code ++ letter ∷ []))
]

abbrev pub generate_user_code : (ℕ → Option ℕ) → Option Bytes
generate_user_code draw = user_code_from draw 0 8 []

-- What the handlers find outside the tables: the limiter's answer, the generators' tokens with
-- their hashes, the letters of a user code, the hash of a code, and the identifier of a new row.
pub record DeviceEnv : Type 0 where
  pub limiter : Option (Result Bool)
  pub generate_token : Option (Bytes × Bytes)
  pub draw : ℕ → Option ℕ
  pub hash_token : Bytes → Bytes
  pub new_id : Bytes
  pub host : Bytes

pub record DeviceCode : Type 0 where
  pub device_code : Bytes
  pub user_code : Bytes
  pub url : Bytes

abbrev pub new_grant : Bytes → Bytes → Bytes → ℕ → GrantRow
new_grant id hash user_code expires_at = record {
  id = id;
  device_code_hash = hash;
  user_code = user_code;
  expires_at = expires_at;
  user_id = none;
  approved_at = none;
  api_token_id = none;
}

abbrev pub collides : GrantRow → GrantRow → Bool
collides g h = h.device_code_hash == g.device_code_hash || h.user_code == g.user_code

abbrev pub put_grants : List GrantRow → AuthTables → AuthTables
put_grants grants t = record t { grants = grants }

-- Create, where both codes are unique
unfoldable pub create_grant : GrantRow → Statement AuthTables (Unit {0})
create_grant g t =
    if any (collides g) t.grants
    then (failed unique_violation, t)
    else (replied tt, put_grants (t.grants ++ g ∷ []) t)

unfoldable pub grant_where : (GrantRow → Bool) → List GrantRow → Option GrantRow
grant_where p [] = none
grant_where p (g ∷ gs) = let rest = grant_where p gs in if p g then some g else rest

-- UPDATE ... WHERE, and whether it changed a row
unfoldable pub update_grants : (GrantRow → Bool) → (GrantRow → GrantRow) → Statement AuthTables Bool
update_grants p f t = (replied (any p t.grants), put_grants (map (change p f) t.grants) t)

-- Approve
abbrev pub approve : Bytes → Bytes → ℕ → Statement AuthTables Bool
approve id user_id now =
    update_grants (λ g. g.id == id && not (is_some g.approved_at))
      (λ g. record g { user_id = some user_id; approved_at = some now })

-- A grant of this identifier without a token.
abbrev pub is_unissued : Bytes → GrantRow → Bool
is_unissued id g = g.id == id && not (is_some g.api_token_id)

-- AttachToken
abbrev pub attach_token : Bytes → Bytes → Statement AuthTables Bool
attach_token id token_id =
    update_grants (is_unissued id) (λ g. record g { api_token_id = some token_id })

abbrev drawn : Option Bytes → Result Bytes
drawn none = err internal
drawn (some code) = ok code

-- RequestDeviceCode
unfoldable pub request_device_code : DeviceEnv → ℕ → Action AuthTables DeviceCode
request_device_code env now = do
  (device_code, hash) ← consult (λ t. generated env.generate_token)
  user_code ← consult (λ t. drawn (generate_user_code env.draw))
  created ←
      call from_db (create_grant (new_grant env.new_id hash user_code (now + device_code_expiry)))
  return
      (record { device_code = device_code; user_code = user_code; url = verification_url env.host })

-- FromDB of the error of a transaction: an error without a Connect code is Internal.
abbrev pub from_error : Code → Code
from_error unknown = internal
from_error c = c

abbrev pub recode {ℓ} : {A : Type ℓ} → Result A × World AuthTables → Result A × World AuthTables
recode (ok a, w) = (ok a, w)
recode (err c, w) = (err (from_error c), w)

abbrev pub device_token : Bytes → Bytes → TokenRow
device_token id user_id = record {
  id = id;
  user_id = user_id;
  scopes = device_token_scopes;
  expires_at = none;
  revoked_at = none;
}

abbrev pub store_token : Bytes → TokenRow → Statement AuthTables (Unit {0})
store_token hash row t = put_tokens t (insert_row hash row t.tokens)

-- The transaction of PollDeviceToken, for the grant that it read before.
unfoldable pub issue_token : DeviceEnv → GrantRow → Bytes → Bytes → Action AuthTables (Unit {0})
issue_token env g user_id hash = transaction (do
  stored ← call from_db (store_token hash (device_token env.new_id user_id))
  attached ← call from_db (attach_token g.id env.new_id)
  refuse_if (not attached) failed_precondition)

pub data PollReply : Type 0 where
  pending : PollReply
  issued : Bytes → PollReply

-- The part of PollDeviceToken after its checks of an approved grant.
unfoldable pub poll_approved : DeviceEnv → GrantRow → Bytes → Action AuthTables PollReply
poll_approved env g user_id = do
  unused ← refuse_if (is_some g.api_token_id) failed_precondition
  (token, hash) ← consult (λ t. generated env.generate_token)
  stored ← (λ w. recode (issue_token env g user_id hash w))
  return (issued token)

abbrev pub poll_grant : DeviceEnv → GrantRow → Option ℕ → Option Bytes → Action AuthTables PollReply
poll_grant env g none user = return pending
poll_grant env g (some at) none = return pending
poll_grant env g (some at) (some user_id) = poll_approved env g user_id

-- PollDeviceToken
unfoldable pub poll_device_token : DeviceEnv → ℕ → Bytes → Action AuthTables PollReply
poll_device_token env now device_code = do
  within_limit ← enforce_limit env.limiter
  g ←
      call (λ e. not_found)
        (reads (λ (t : AuthTables).
          found_or_none
            (grant_where (λ h. h.device_code_hash == env.hash_token device_code) t.grants)))
  live ← refuse_if (ltb g.expires_at now) invalid_argument
  poll_grant env g g.approved_at g.user_id

-- ApproveDeviceGrant
unfoldable pub approve_device_grant :
    DeviceEnv → ℕ → Option User → Bytes → Action AuthTables (Unit {0})
approve_device_grant env now none user_code = fail unauthenticated
approve_device_grant env now (some user) user_code = do
  within_limit ← enforce_limit env.limiter
  g ←
      call (λ e. not_found)
        (reads (λ (t : AuthTables).
          found_or_none (grant_where (λ h. h.user_code == user_code) t.grants)))
  live ← refuse_if (ltb g.expires_at now) invalid_argument
  fresh ← refuse_if (is_some g.approved_at) failed_precondition
  approved ← call from_db (approve g.id user.id now)
  refuse_if (not approved) failed_precondition
