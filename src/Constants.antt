-- ===== src/Constants.antt =====
-- internal/hades/constants/constants.go: the vocabulary of roles, actions and resources, and the
-- policy record that the engine and the handlers exchange. Every Go string is a `Bytes`.
pub mod Scope
pub mod Names
use hades.Prelude.{Bool, Bytes, Option, codes}

abbrev pub role_owner : Bytes
role_owner = codes "owner"

abbrev pub role_admin : Bytes
role_admin = codes "admin"

abbrev pub role_contributor : Bytes
role_contributor = codes "contributor"

abbrev pub role_reader : Bytes
role_reader = codes "reader"

abbrev pub resource_module : Bytes
resource_module = codes "module"

abbrev pub resource_org : Bytes
resource_org = codes "org"

abbrev pub action_create : Bytes
action_create = codes "create"

abbrev pub action_read : Bytes
action_read = codes "read"

abbrev pub action_list : Bytes
action_list = codes "list"

abbrev pub action_update : Bytes
action_update = codes "update"

abbrev pub action_push : Bytes
action_push = codes "push"

abbrev pub action_delete : Bytes
action_delete = codes "delete"

abbrev pub action_admin : Bytes
action_admin = codes "admin"

abbrev pub action_transfer : Bytes
action_transfer = codes "transfer"

abbrev pub action_publish : Bytes
action_publish = codes "publish"

abbrev pub visibility_public : Bytes
visibility_public = codes "public"

abbrev pub visibility_private : Bytes
visibility_private = codes "private"

pub record Policy : Type 0 where
  pub subject : Bytes
  pub domain : Bytes
  pub resource_type : Bytes
  pub action : Bytes
  pub visibility : Bytes

-- `policy` is the denied one, `none` for nil.
pub record CanResponse : Type 0 where
  pub allowed : Bool
  pub policy : Option Policy

pub record Role : Type 0 where
  pub user : Bytes
  pub role : Bytes
  pub domain : Bytes
