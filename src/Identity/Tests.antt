-- ===== src/Identity/Tests.antt =====
-- Runs of the handlers on a small directory.
use hades.Effects.{ask, call, consult, other_failure, replied, transaction, within}
use hades.Effects.Laws.{Ends}
use hades.Result.{err, failed_precondition, ok, permission_denied, unknown}
use hades.Prelude.{
  All, Bytes, [], any, arith, bytes_beq, bytes_beq_iff, codes, count, false, if◌then◌else◌, length,
  map, none, refl, some, ◌&&◌, ◌++◌, ◌==◌, ◌∷◌, ◌≡◌, nat_eq, bytes_eq, string_eq,
}
use hades.Prelude.Int.{pos}
use hades.Text.{to_lower, trim_space}
use hades.Users.{
  UserRow, UserType, bytes_leb, conflicts, find_user, get_by_username, is_user, order_by, place,
  type_organization, type_user,
}
use hades.Constants.{role_owner}
use hades.Constants.Names.{validate_name}
use hades.Identity.Tables.{
  Directory, Membership, RoleBinding, create_binding, delete_by_subject_domain, delete_membership,
  find_role, get_org_by_name, join_members, list_members, put_membership,
}
use hades.Identity.Orgs.{
  Can, add_binding, add_org_member, add_org_member_as, count_admins, create_org, delete_binding,
  join_org, keep_last_admin, leave_org, may_remove, member_role_of, remove_org_member,
  remove_org_member_as, require_org_permission,
}
use hades.Identity.Profiles.{
  IdentityUser, get_user, get_user_orgs, list_org_members, list_organizations, list_users_page,
}
use hades.Identity.Admins.{HasAdmin, IsKeyed, is_admin_of, remove_org_member-HasAdmin}
use hades.Identity.Atomic.{
  Named, add_org_member_atomic, remove_org_member_atomic, with_member, without_member,
}
use hades.Identity.Creation.{create_org_atomic, requested, with_org}
use hades.Identity.Redaction.{IsOwnOrBare, emails_hidden, records}
use hades.Interceptor.Stores.{User, state_active}

abbrev row : Bytes → Bytes → UserType → UserRow
row id name kind = record {
  id = id;
  username = name;
  email = if is_user kind then name ++ codes "@x.org" else [];
  password = codes "hash";
  kind = kind;
  description = [];
  url = [];
  email_verified_at = some 1;
  failed_login_count = 0;
  locked_until = none;
}

abbrev member_of : Bytes → Bytes → Bytes → Membership
member_of org_id member_id role = record { org_id = org_id; member_id = member_id; role = role }

abbrev bound : Bytes → Bytes → RoleBinding
bound subject role = record { subject = subject; role = role; domain = codes "acme/*" }

abbrev acme : Directory
acme = record {
  users =
      row (codes "o") (codes "acme") type_organization
      ∷ row (codes "a") (codes "alice") type_user
      ∷ row (codes "b") (codes "bob") type_user
      ∷ [];
  memberships =
      member_of (codes "o") (codes "a") (codes "admin")
      ∷ member_of (codes "o") (codes "b") (codes "member")
      ∷ [];
  bindings = bound (codes "alice") (codes "owner") ∷ bound (codes "bob") (codes "contributor") ∷ [];
}

abbrev alice : User
alice = record { id = codes "a"; username = codes "alice"; state = state_active }

abbrev bob : User
bob = record { id = codes "b"; username = codes "bob"; state = state_active }

-- Owners may do everything.
abbrev owners_only : Can
owners_only d p = ok (record {
  allowed = any (λ b. b.subject == p.subject && b.role == role_owner) d.bindings;
  policy = none;
})

-- Alice removes Bob, cannot remove herself as the last administrator, and a failure of the last
-- statement of the transaction leaves everything as it was.
remove_tests :
    ((remove_org_member owners_only (some alice) (codes "acme") (codes "bob") ([], acme)).0 ≡ ok tt)
    × (length
          (remove_org_member owners_only
            (some alice)
            (codes "acme")
            (codes "bob")
            ([], acme)).1.1.memberships
        ≡ 1)
    × ((remove_org_member owners_only (some alice) (codes "acme") (codes "alice") ([], acme)).0
        ≡ err failed_precondition)
    × ((remove_org_member owners_only (some bob) (codes "acme") (codes "alice") ([], acme)).0
        ≡ err permission_denied)
    × (remove_org_member owners_only
          (some alice)
          (codes "acme")
          (codes "bob")
          (none ∷ none ∷ none ∷ none ∷ none ∷ none ∷ none ∷ some other_failure ∷ [], acme)
        ≡ (err unknown, ([], acme)))
unfolding remove_org_member remove_org_member_as may_remove require_org_permission call ask consult
    transaction within keep_last_admin leave_org delete_binding get_by_username find_user
    get_org_by_name find_role list_members join_members order_by place bytes_leb count_admins
    delete_membership delete_by_subject_domain bytes_beq
remove_tests = (refl, refl, refl, refl, refl)

-- AddOrgMember replaces the role of the last administrator, and leaves the old binding.
demotion_test :
    ((add_org_member owners_only (some alice) (codes "acme") (codes "alice") [] ([], acme)).0
      ≡ ok tt)
    × (count
          (is_admin_of (codes "o"))
          (add_org_member owners_only
            (some alice)
            (codes "acme")
            (codes "alice")
            []
            ([], acme)).1.1.memberships
        ≡ 0)
unfolding add_org_member add_org_member_as require_org_permission call ask consult transaction
    within join_org add_binding get_by_username find_user get_org_by_name put_membership
    create_binding bytes_beq
demotion_test = (refl, refl)

remove_org_member_atomic_example :
    Ends
      (λ d'. d' ≡ acme)
      (λ u d'.
        (org : UserRow) × (target : UserRow) × Named acme (codes "acme") (codes "bob") org target
        × (d' ≡ without_member acme org target))
      (remove_org_member owners_only (some alice) (codes "acme") (codes "bob") ([], acme))
remove_org_member_atomic_example =
    remove_org_member_atomic owners_only (some alice) (codes "acme") (codes "bob") [] acme

add_org_member_atomic_example :
    Ends
      (λ d'. d' ≡ acme)
      (λ u d'.
        (org : UserRow) × (target : UserRow) × Named acme (codes "acme") (codes "bob") org target
        × (d' ≡ with_member acme org target (member_role_of (codes "admin"))))
      (add_org_member owners_only
        (some alice)
        (codes "acme")
        (codes "bob")
        (codes "admin")
        ([], acme))
add_org_member_atomic_example =
    add_org_member_atomic owners_only (some alice) (codes "acme") (codes "bob") (codes "admin") []
      acme

create_org_atomic_example :
    Ends
      (λ d'. d' ≡ acme)
      (λ org d'.
        (user : User) × (some bob ≡ some user)
        × (validate_name (to_lower (trim_space (codes " Tools"))) ≡ none)
        × (org ≡ requested (codes " Tools") [] [] (codes "t"))
        × (any (conflicts (requested (codes " Tools") [] [] (codes "t"))) acme.users ≡ false)
        × (d' ≡ with_org acme (requested (codes " Tools") [] [] (codes "t")) user))
      (create_org (some bob) (codes " Tools") [] [] (codes "t") ([], acme))
create_org_atomic_example = create_org_atomic (some bob) (codes " Tools") [] [] (codes "t") [] acme

acme-HasAdmin : HasAdmin (codes "o") acme
unfolding HasAdmin IsKeyed bytes_beq
acme-HasAdmin =
    (λ o m. ground (arith, bytes_beq_iff (codes "a") m, bytes_beq_iff (codes "b") m), omega arith)

remove_org_member-HasAdmin_example :
    HasAdmin
      (codes "o")
      (remove_org_member owners_only (some alice) (codes "acme") (codes "bob") ([], acme)).1.1
remove_org_member-HasAdmin_example =
    remove_org_member-HasAdmin (codes "o") owners_only (some alice) (codes "acme") (codes "bob") []
      acme acme-HasAdmin

emails_hidden_example :
    All (IsOwnOrBare (some bob)) (
      records
        (λ r. r.user ∷ r.organizations)
        (get_user (λ id d. (replied 0, d)) (some bob) (codes "alice") ([], acme)))
    × All
        (IsOwnOrBare (some bob))
        (records (λ p. p.users) (list_users_page (some bob) [] (pos 0) [] ([], acme)))
    × All
        (IsOwnOrBare (some bob))
        (records (λ p. p.users) (list_organizations (some bob) [] (pos 0) [] ([], acme)))
    × All
        (IsOwnOrBare (some bob))
        (records (λ us. us) (get_user_orgs (some bob) (codes "alice") ([], acme)))
    × All (IsOwnOrBare (some bob)) (
        records
          (λ ms. map (λ (m : IdentityUser × Bytes). m.0) ms)
          (list_org_members (some bob) (codes "alice") ([], acme)))
emails_hidden_example =
    emails_hidden (λ id d. (replied 0, d)) (some bob) (codes "alice") [] (pos 0) [] ([], acme)
