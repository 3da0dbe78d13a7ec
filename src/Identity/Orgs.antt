-- ===== src/Identity/Orgs.antt =====
-- internal/hades/server/identity/handler.go: the handlers that write organisations and their
-- members. The answer of the authorization server is a parameter: it reads the same tables. The
-- binding cache, whose entry each change of a binding deletes, is in Authz/Bindings; here its
-- deletion is a call that may fail.
use hades.Effects.{
  Action, Reply, Statement, call, consult, fail, from_db, reads, refuse_if, replied, return,
  transaction, writes, ◌>>=◌,
}
use hades.Result.{
  Result, err, failed_precondition, internal, invalid_argument, not_found, ok, permission_denied,
  unauthenticated, unavailable,
}
use hades.Prelude.{
  Bytes, List, Option, [], codes, if◌then◌else◌, is_some, leb, none, not, some, ℕ, ◌++◌, ◌+◌, ◌==◌,
  ◌∷◌, nat_eq, bytes_eq, string_eq,
}
use hades.Text.{is_empty, to_lower, trim_space}
use hades.Users.{
  UserRow, get_by_id, get_by_username, insert_user, type_organization, update_profile,
  update_user_row,
}
use hades.Identity.Tables.{
  Directory, OrgMember, RoleBinding, add_member, create_binding, delete_by_subject_domain,
  get_member_role, get_org_by_name, list_members, remove_member,
}
use hades.Interceptor.Stores.{User}
use hades.Constants.{
  CanResponse, Policy, action_admin, action_update, resource_org, role_contributor, role_owner,
}
use hades.Constants.Names.{validate_name}

-- authorization.Server.Can
abbrev pub Can : Type 0
Can = Directory → Policy → Result CanResponse

abbrev permission : Result CanResponse → Result (Unit {0})
permission (err c) = err unavailable
permission (ok answer) = if answer.allowed then ok tt else err permission_denied

abbrev pub org_domain : Bytes → Bytes
org_domain name = name ++ codes "/*"

abbrev pub org_policy : User → Bytes → Bytes → Policy
org_policy caller org_name action = record {
  subject = caller.username;
  domain = org_domain org_name;
  resource_type = resource_org;
  action = action;
  visibility = [];
}

-- requireOrgPermission(caller, orgName, action)
unfoldable pub require_org_permission : Can → User → Bytes → Bytes → Action Directory (Unit {0})
require_org_permission can caller org_name action =
    consult (λ d. permission (can d (org_policy caller org_name action)))

abbrev pub bind_in : RoleBinding → Directory → Directory
bind_in b d = record d { bindings = create_binding b d.bindings }

abbrev pub unbind_in : Bytes → Bytes → Directory → Directory
unbind_in subject domain d = record d {
  bindings = delete_by_subject_domain subject domain d.bindings;
}

-- Engine.AddBinding: the row, then the entry of the cache
unfoldable pub add_binding : Bytes → Bytes → Bytes → Action Directory (Unit {0})
add_binding subject role domain = do
  stored ←
      call (λ e. internal)
        (writes (bind_in (record { subject = subject; role = role; domain = domain })))
  call (λ e. internal) (writes (λ (d : Directory). d))

-- Engine.DeleteBinding
unfoldable pub delete_binding : Bytes → Bytes → Action Directory (Unit {0})
delete_binding subject domain = do
  deleted ← call (λ e. internal) (writes (unbind_in subject domain))
  call (λ e. internal) (writes (λ (d : Directory). d))

abbrev pub new_org : Bytes → Bytes → Bytes → Bytes → UserRow
new_org id name description url = record {
  id = id;
  username = name;
  email = [];
  password = [];
  kind = type_organization;
  description = description;
  url = url;
  email_verified_at = none;
  failed_login_count = 0;
  locked_until = none;
}

abbrev with_users : Directory → Reply (Unit {0}) × List UserRow → Reply (Unit {0}) × Directory
with_users d (reply, us) = (reply, record d { users = us })

abbrev pub insert_account : UserRow → Statement Directory (Unit {0})
insert_account u d = with_users d (insert_user u d.users)

-- orgStorage.Create, whose row has the identifier `id`
unfoldable pub store_org : UserRow → Bytes → Action Directory UserRow
store_org new creator_id = do
  inserted ← call from_db (insert_account new)
  org ← call from_db (reads (λ (d : Directory). get_by_username new.username d.users))
  joined ← call from_db (writes (add_member org.id creator_id (codes "admin")))
  return org

-- CreateOrg for a caller that the context names
unfoldable pub create_org_as : User → Bytes → Bytes → Bytes → Bytes → Action Directory UserRow
create_org_as caller raw_name description url id =
    let name = to_lower (trim_space raw_name) in
    do
      valid ← refuse_if (is_some (validate_name name)) invalid_argument
      transaction (do
        org ← store_org (new_org id name description url) caller.id
        bound ← add_binding caller.username role_owner (org_domain org.username)
        return org)

unfoldable pub create_org : Option User → Bytes → Bytes → Bytes → Bytes → Action Directory UserRow
unfolding create_org_as
create_org none name description url id = fail unauthenticated
create_org (some caller) name description url id = create_org_as caller name description url id

abbrev pub find_org : Bytes → Action Directory UserRow
find_org name = call (λ e. not_found) (reads (get_org_by_name name))

abbrev pub find_account : Bytes → Action Directory UserRow
find_account name = call (λ e. not_found) (reads (λ (d : Directory). get_by_username name d.users))

abbrev pub set_profile : Bytes → Bytes → Bytes → Directory → Directory
set_profile id description url d = record d {
  users = update_user_row id (update_profile description url) d.users;
}

-- UPDATE, and the SELECT of the row
unfoldable pub update_account : Bytes → Bytes → Bytes → Action Directory UserRow
update_account id description url = do
  updated ← call (λ e. internal) (writes (set_profile id description url))
  call (λ e. internal) (reads (λ (d : Directory). get_by_id id d.users))

unfoldable pub update_org_as : Can → User → Bytes → Bytes → Bytes → Action Directory UserRow
update_org_as can caller org_name description url = do
  org ← find_org org_name
  permitted ← require_org_permission can caller org.username action_update
  update_account org.id description url

-- UpdateOrg
unfoldable pub update_org : Can → Option User → Bytes → Bytes → Bytes → Action Directory UserRow
update_org can none org_name description url = fail unauthenticated
update_org can (some caller) org_name description url =
    update_org_as can caller org_name description url

abbrev pub member_role_of : Bytes → Bytes
member_role_of role = if is_empty role then codes "member" else role

-- The role of the binding that goes with a membership.
abbrev pub opa_role_of : Bytes → Bytes
opa_role_of role = if role == codes "member" then role_contributor else role

unfoldable pub join_org : UserRow → UserRow → Bytes → Action Directory (Unit {0})
join_org org target role = transaction (do
  joined ← call (λ e. internal) (writes (add_member org.id target.id role))
  add_binding target.username (opa_role_of role) (org_domain org.username))

unfoldable pub add_org_member_as : Can → User → Bytes → Bytes → Bytes → Action Directory (Unit {0})
add_org_member_as can caller org_name username role = do
  org ← find_org org_name
  permitted ← require_org_permission can caller org.username action_admin
  target ← find_account username
  join_org org target (member_role_of role)

-- AddOrgMember
unfoldable pub add_org_member :
    Can → Option User → Bytes → Bytes → Bytes → Action Directory (Unit {0})
add_org_member can none org_name username role = fail unauthenticated
add_org_member can (some caller) org_name username role =
    add_org_member_as can caller org_name username role

abbrev pub admin : Bytes
admin = codes "admin"

-- The loop that counts the administrators.
unfoldable pub count_admins : List OrgMember → ℕ
count_admins [] = 0
count_admins (m ∷ ms) = if m.role == admin then count_admins ms + 1 else count_admins ms

-- The members of the organisation are read for an administrator only.
unfoldable pub keep_last_admin : Bytes → Bytes → Action Directory (Unit {0})
keep_last_admin org_id role = if not (role == admin) then return tt else (do
  members ← call from_db (reads (λ (d : Directory). replied (list_members org_id d)))
  refuse_if (leb (count_admins members) 1) failed_precondition)

unfoldable pub leave_org : UserRow → UserRow → Action Directory (Unit {0})
leave_org org target = transaction (do
  left ← call (λ e. internal) (writes (remove_member org.id target.id))
  delete_binding target.username (org_domain org.username))

unfoldable pub may_remove : Can → User → UserRow → Bytes → Action Directory (Unit {0})
may_remove can caller org username =
    if caller.username == username
    then return tt
    else require_org_permission can caller org.username action_admin

unfoldable pub remove_org_member_as : Can → User → Bytes → Bytes → Action Directory (Unit {0})
remove_org_member_as can caller org_name username = do
  org ← find_org org_name
  permitted ← may_remove can caller org username
  target ← find_account username
  role ← call (λ e. not_found) (reads (get_member_role org.id target.id))
  spared ← keep_last_admin org.id role
  leave_org org target

-- RemoveOrgMember
unfoldable pub remove_org_member : Can → Option User → Bytes → Bytes → Action Directory (Unit {0})
remove_org_member can none org_name username = fail unauthenticated
remove_org_member can (some caller) org_name username =
    remove_org_member_as can caller org_name username
