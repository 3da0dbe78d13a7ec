-- ===== src/Identity/Tables.antt =====
-- internal/hades/storage/db/org/sqlite/sqlite.go and opabinding/sqlite/sqlite.go: one function per
-- statement on the tables org_memberships and opa_role_bindings.
use hades.Effects.{Reply, found_or_none}
use hades.Prelude.{
  Bool, Bytes, List, Option, [], any, codes, if◌then◌else◌, keep, length, none, not, some, take, ℕ,
  ◌&&◌, ◌++◌, ◌==◌, ◌∷◌, nat_eq, bytes_eq, string_eq,
}
use hades.Text.{is_empty}
use hades.Users.{UserRow, find_user, is_user, order_by}

-- A row of org_memberships.
pub record Membership : Type 0 where
  pub org_id : Bytes
  pub member_id : Bytes
  pub role : Bytes

-- opabinding.RoleBinding
pub record RoleBinding : Type 0 where
  pub subject : Bytes
  pub role : Bytes
  pub domain : Bytes

-- The tables that the handlers read and write.
pub record Directory : Type 0 where
  pub users : List UserRow
  pub memberships : List Membership
  pub bindings : List RoleBinding

abbrev pub is_organization : UserRow → Bool
is_organization u = not (is_user u.kind)

-- GetByName
unfoldable pub get_org_by_name : Bytes → Directory → Reply UserRow
get_org_by_name name d =
    found_or_none (find_user (λ u. u.username == name && is_organization u) d.users)

abbrev pub is_membership : Bytes → Bytes → Membership → Bool
is_membership org_id member_id m = m.org_id == org_id && m.member_id == member_id

-- ON CONFLICT(org_id, member_id) DO UPDATE SET role = excluded.role
unfoldable pub put_membership : Membership → List Membership → List Membership
put_membership new [] = new ∷ []
put_membership new (m ∷ ms) =
    let rest = put_membership new ms in
    if is_membership new.org_id new.member_id m then record m { role = new.role } ∷ ms else m ∷ rest

-- AddMember
abbrev pub add_member : Bytes → Bytes → Bytes → Directory → Directory
add_member org_id member_id role d = record d {
  memberships =
      put_membership
        (record {
          org_id = org_id;
          member_id = member_id;
          role = if is_empty role then codes "member" else role;
        })
        d.memberships;
}

-- DELETE FROM org_memberships WHERE org_id=? AND member_id=?
unfoldable pub delete_membership : Bytes → Bytes → List Membership → List Membership
delete_membership org_id member_id ms = keep (λ m. not (is_membership org_id member_id m)) ms

abbrev pub remove_member : Bytes → Bytes → Directory → Directory
remove_member org_id member_id d = record d {
  memberships = delete_membership org_id member_id d.memberships;
}

unfoldable pub find_role : Bytes → Bytes → List Membership → Option Bytes
find_role org_id member_id [] = none
find_role org_id member_id (m ∷ ms) =
    let rest = find_role org_id member_id ms in
    if is_membership org_id member_id m then some m.role else rest

-- GetMemberRole
abbrev pub get_member_role : Bytes → Bytes → Directory → Reply Bytes
get_member_role org_id member_id d = found_or_none (find_role org_id member_id d.memberships)

-- org.OrgMember
pub record OrgMember : Type 0 where
  pub user : UserRow
  pub role : Bytes

abbrev add_joined : Bytes → Option UserRow → List OrgMember → List OrgMember
add_joined role none members = members
add_joined role (some u) members = record { user = u; role = role } ∷ members

-- The join of users with the memberships of an organisation.
unfoldable pub join_members : Bytes → List UserRow → List Membership → List OrgMember
join_members org_id us [] = []
join_members org_id us (m ∷ ms) =
    let rest = join_members org_id us ms in
    if m.org_id == org_id
    then add_joined m.role (find_user (λ u. u.id == m.member_id) us) rest
    else rest

-- ListMembers
unfoldable pub list_members : Bytes → Directory → List OrgMember
list_members org_id d =
    take 1000
      (order_by (λ (m : OrgMember). m.user.username) (join_members org_id d.users d.memberships))

-- CountMembers
unfoldable pub count_members : Bytes → Directory → ℕ
count_members org_id d = length (keep (λ (m : Membership). m.org_id == org_id) d.memberships)

-- GetUserOrgs
unfoldable pub get_user_orgs_of : Bytes → Directory → List UserRow
get_user_orgs_of member_id d = take 1000 (
    order_by (λ (u : UserRow). u.username)
      (keep (λ u. any (is_membership u.id member_id) d.memberships) d.users))

abbrev pub is_binding : RoleBinding → RoleBinding → Bool
is_binding a b = a.subject == b.subject && (a.role == b.role && a.domain == b.domain)

-- INSERT OR IGNORE INTO opa_role_bindings
unfoldable pub create_binding : RoleBinding → List RoleBinding → List RoleBinding
create_binding b bs = if any (is_binding b) bs then bs else bs ++ b ∷ []

abbrev pub binds : Bytes → Bytes → RoleBinding → Bool
binds subject domain b = b.subject == subject && b.domain == domain

-- DELETE FROM opa_role_bindings WHERE subject = ? AND domain = ?
unfoldable pub delete_by_subject_domain : Bytes → Bytes → List RoleBinding → List RoleBinding
delete_by_subject_domain subject domain bs = keep (λ b. not (binds subject domain b)) bs

-- ListBySubject, in the order of created_at, which is that of the insertions
unfoldable pub list_by_subject : Bytes → List RoleBinding → List RoleBinding
list_by_subject subject bs = keep (λ b. b.subject == subject) bs
