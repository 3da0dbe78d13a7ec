-- ===== src/Identity/Profiles.antt =====
-- internal/hades/server/identity/handler.go: `redactEmails` and the handlers that read users and
-- organisations. The count of modules is a statement of another table, a parameter.
use hades.Effects.{
  Action, DbError, Statement, call, fail, from_db, reads, refuse_if, replied, return, ◌>>=◌,
}
use hades.Result.{Code, internal, not_found, unauthenticated}
use hades.Prelude.{
  Bool, Bytes, List, Option, [], if◌then◌else◌, length, map, none, not, some, ℕ, ◌&&◌, ◌==◌, nat_eq,
  bytes_eq, string_eq,
}
use hades.Prelude.Int.{ℤ}
use hades.Text.{is_empty}
use hades.Users.{UserRow, UserType, get_by_username, is_user, list_users}
use hades.Paging.{next_page_token, page}
use hades.Identity.Tables.{
  Directory, OrgMember, count_members, get_user_orgs_of, is_organization, list_members,
}
use hades.Identity.Orgs.{find_org, update_account}
use hades.Interceptor.Stores.{User, query}

-- identityv1.User as it is scanned, without the password hash
pub record IdentityUser : Type 0 where
  pub id : Bytes
  pub username : Bytes
  pub email : Bytes
  pub kind : UserType
  pub description : Bytes
  pub url : Bytes

abbrev pub scan_user : UserRow → IdentityUser
scan_user u = record {
  id = u.id;
  username = u.username;
  email = u.email;
  kind = u.kind;
  description = u.description;
  url = u.url;
}

-- callerID
abbrev pub caller_id : Option User → Bytes
caller_id none = []
caller_id (some caller) = caller.id

-- The body of the loop.
unfoldable pub redact_email : Option User → IdentityUser → IdentityUser
redact_email caller u =
    if not (is_empty (caller_id caller)) && u.id == caller_id caller
    then u
    else record u { email = [] }

-- redactEmails(caller, users...)
unfoldable pub redact_emails : Option User → List IdentityUser → List IdentityUser
unfolding redact_email
redact_emails caller us = map (redact_email caller) us

-- Rows scanned and redacted.
abbrev pub shown : Option User → List UserRow → List IdentityUser
shown caller us = redact_emails caller (map scan_user us)

-- CountByOwner
abbrev pub CountModules : Type 0
CountModules = Bytes → Statement Directory ℕ

pub record GetUserResponse : Type 0 where
  pub user : IdentityUser
  pub module_count : ℕ
  pub organizations : List IdentityUser

abbrev user_orgs : (DbError → Code) → Bytes → Action Directory (List UserRow)
user_orgs code id = call code (reads (λ (d : Directory). replied (get_user_orgs_of id d)))

-- GetUser
unfoldable pub get_user : CountModules → Option User → Bytes → Action Directory GetUserResponse
get_user modules caller username = do
  user ← call (λ e. not_found) (reads (λ (d : Directory). get_by_username username d.users))
  person ← refuse_if (is_organization user) not_found
  module_count ← call (λ e. internal) (modules user.id)
  orgs ← user_orgs (λ e. internal) user.id
  return (record {
    user = redact_email caller (scan_user user);
    module_count = module_count;
    organizations = shown caller orgs;
  })

-- The users of a page, and the token of the next one.
pub record UserPage : Type 0 where
  pub users : List IdentityUser
  pub next_page : Bytes

abbrev page_reply : Option User → ℕ × ℕ → List UserRow → UserPage
page_reply caller (limit, offset) us = record {
  users = shown caller us;
  next_page = next_page_token (length us) limit offset;
}

unfoldable pub list_page :
    (UserRow → Bool) → Option User → Bytes → ℤ → Bytes → Action Directory UserPage
list_page of_type caller query size token =
    let (limit, offset) = page size token in
    do
      users ←
          call (λ e. internal)
            (reads (λ (d : Directory). replied (list_users of_type query limit offset d.users)))
      return (page_reply caller (limit, offset) users)

-- ListUsers
unfoldable pub list_users_page : Option User → Bytes → ℤ → Bytes → Action Directory UserPage
list_users_page none query size token = fail unauthenticated
list_users_page (some caller) query size token =
    list_page (λ u. is_user u.kind) (some caller) query size token

-- ListOrganizations
unfoldable pub list_organizations : Option User → Bytes → ℤ → Bytes → Action Directory UserPage
list_organizations caller query size token = list_page is_organization caller query size token

-- GetUserOrgs
unfoldable pub get_user_orgs : Option User → Bytes → Action Directory (List IdentityUser)
get_user_orgs caller username = do
  user ← call (λ e. not_found) (reads (λ (d : Directory). get_by_username username d.users))
  orgs ← user_orgs (λ e. internal) user.id
  return (shown caller orgs)

abbrev pub member_shown : Option User → OrgMember → IdentityUser × Bytes
member_shown caller m = (redact_email caller (scan_user m.user), m.role)

-- ListOrgMembers
unfoldable pub list_org_members :
    Option User → Bytes → Action Directory (List (IdentityUser × Bytes))
list_org_members none org_name = fail unauthenticated
list_org_members (some caller) org_name = do
  org ← find_org org_name
  members ← call from_db (reads (λ (d : Directory). replied (list_members org.id d)))
  return (map (member_shown (some caller)) members)

pub record GetOrgResponse : Type 0 where
  pub org : IdentityUser
  pub module_count : ℕ
  pub member_count : ℕ

-- GetOrg
unfoldable pub get_org : CountModules → Bytes → Action Directory GetOrgResponse
get_org modules name = do
  org ← find_org name
  module_count ← call (λ e. internal) (modules org.id)
  member_count ← call (λ e. internal) (reads (λ (d : Directory). replied (count_members org.id d)))
  return (record { org = scan_user org; module_count = module_count; member_count = member_count })

-- UpdateUser
unfoldable pub update_user : Option User → Bytes → Bytes → Action Directory IdentityUser
update_user none description url = fail unauthenticated
update_user (some caller) description url = do
  updated ← update_account caller.id description url
  return (scan_user updated)
