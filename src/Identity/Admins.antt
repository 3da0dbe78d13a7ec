-- ===== src/Identity/Admins.antt =====
-- Every organisation keeps an administrator when members are removed.
use hades.Prelude.{
  Bool, Bool-cases, Bytes, List, Option, Option-cases, [], arith, bytes_beq_iff, count, count-&&,
  count-keep, count-split, count-take, false, inl, inr, leb, none, not, refl, some, take, ◌&&◌,
  ◌==◌, ◌∷◌, ◌≡◌, ◌≤◌, ◌⊎◌, nat_eq, bytes_eq, string_eq,
}
use hades.Users.{UserRow, count-order_by, find_user, order_by}
use hades.Identity.Tables.{
  Directory, Membership, OrgMember, delete_membership, find_role, get_member_role, is_membership,
  join_members, list_members, remove_member,
}
use hades.Identity.Permission.{may_remove-Preserves}
use hades.Identity.Orgs.{
  Can, admin, count_admins, delete_binding, keep_last_admin, leave_org, org_domain,
  remove_org_member, remove_org_member_as,
}
use hades.Effects.{DbError, replied}
use hades.Effects.Laws.{
  Preserves, Preserves-reads, Preserves-run, Triple, Triple->>=, Triple-call, Triple-fail,
  Triple-reads, Triple-refuse_if, Triple-return, Triple-transaction, Triple-weaken,
  found_or_none-replied, replied_injective,
}
use hades.Interceptor.Stores.{User}

abbrev pub is_admin_of : Bytes → Membership → Bool
is_admin_of org_id m = m.org_id == org_id && m.role == admin

-- PRIMARY KEY (org_id, member_id)
unfoldable pub IsKeyed : List Membership → Type 0
IsKeyed ms = (org_id member_id : Bytes) → count (is_membership org_id member_id) ms ≤ 1

-- The organisation has an administrator, in a table that satisfies its key.
unfoldable pub HasAdmin : Bytes → Directory → Type 0
unfolding IsKeyed
HasAdmin org_id d = IsKeyed d.memberships × (1 ≤ count (is_admin_of org_id) d.memberships)

count-join_members :
    (org_id : Bytes) (us : List UserRow) (ms : List Membership)
    → count (λ (m : OrgMember). m.role == admin) (join_members org_id us ms)
      ≤ count (is_admin_of org_id) ms
unfolding join_members
count-join_members org_id us [] = omega arith
count-join_members org_id us (m ∷ ms) =
    elim (Option-cases (find_user (λ u. u.id == m.member_id) us)) [
      | inl e ↦ rw e (ground (arith, count-join_members org_id us ms))
      | inr (u, e) ↦ rw e (ground (arith, count-join_members org_id us ms))
    ]

count_admins_lem : (ms : List OrgMember) → count_admins ms ≡ count (λ m. m.role == admin) ms
unfolding count_admins
count_admins_lem [] = refl
count_admins_lem (m ∷ ms) = ground (arith, count_admins_lem ms)

-- The listed administrators are administrators of the table.
list_members-count :
    (org_id : Bytes) (d : Directory)
    → count_admins (list_members org_id d) ≤ count (is_admin_of org_id) d.memberships
unfolding list_members
list_members-count org_id d =
    let joined = join_members org_id d.users d.memberships in
    let sorted = order_by (λ (m : OrgMember). m.user.username) joined in
    omega (
      arith,
      count_admins_lem (take 1000 sorted),
      count-take (λ (m : OrgMember). m.role == admin) 1000 sorted,
      count-order_by (λ (m : OrgMember). m.user.username) (λ m. m.role == admin) joined,
      count-join_members org_id d.users d.memberships,
    )

-- A member with another role has no row as an administrator.
find_role-no_admin :
    (org_id member_id role other : Bytes) (ms : List Membership)
    → count (is_membership org_id member_id) ms ≤ 1
    → find_role org_id member_id ms ≡ some role
    → (role == admin) ≡ false
    → count (λ m. is_membership org_id member_id m && is_admin_of other m) ms ≡ 0
unfolding find_role
find_role-no_admin org_id member_id role other [] one h k = refl
find_role-no_admin org_id member_id role other (m ∷ ms) one h k =
    elim (Bool-cases (is_membership org_id member_id m)) [
      | inl e ↦
          ground
            (arith, e, h, k, one, count-&& (is_admin_of other) (is_membership org_id member_id) ms)
      | inr e ↦ rw e (
          find_role-no_admin org_id member_id role other ms (ground (arith, e, one))
            (ground (arith, e, h)) k)
    ]

-- A membership of another organisation is no administrator's of this one.
other_org-no_admin :
    (org_id member_id other : Bytes) (ms : List Membership)
    → (org_id == other) ≡ false
    → count (λ m. is_membership org_id member_id m && is_admin_of other m) ms ≡ 0
other_org-no_admin org_id member_id other [] h = refl
other_org-no_admin org_id member_id other (m ∷ ms) h = ground (
  arith,
  bytes_beq_iff m.org_id org_id,
  bytes_beq_iff m.org_id other,
  bytes_beq_iff org_id other,
  other_org-no_admin org_id member_id other ms h,
)

two_admins :
    (org_id : Bytes) (d : Directory) (members : List OrgMember)
    → list_members org_id d ≡ members
    → leb (count_admins members) 1 ≡ false
    → 2 ≤ count (is_admin_of org_id) d.memberships
two_admins org_id d members e h =
    let several : 2 ≤ count_admins members = ground (arith, h) in
    let listed : 2 ≤ count_admins (list_members org_id d) = rw e several in
    omega (arith, listed, list_members-count org_id d)

-- What RemoveOrgMember makes sure of before it deletes a membership.
unfoldable pub Spared : Bytes → Bytes → List Membership → Type 0
Spared org_id member_id ms =
    ((role : Bytes) × (find_role org_id member_id ms ≡ some role) × ((role == admin) ≡ false))
    ⊎ (2 ≤ count (is_admin_of org_id) ms)

-- The administrators whom a deletion takes away.
deleted_admins :
    (org_id member_id other : Bytes) (ms : List Membership)
    → count (is_membership org_id member_id) ms ≤ 1
    → Spared org_id member_id ms
    → (count (λ m. is_membership org_id member_id m && is_admin_of other m) ms ≡ 0)
      ⊎ ((2 ≤ count (is_admin_of other) ms)
          × (count (λ m. is_membership org_id member_id m && is_admin_of other m) ms ≤ 1))
unfolding Spared
deleted_admins org_id member_id other ms one (inl (role, h, k)) =
    inl (find_role-no_admin org_id member_id role other ms one h k)
deleted_admins org_id member_id other ms one (inr h) = elim (Bool-cases (org_id == other)) [
  | inl e ↦
      let same : org_id ≡ other = ground (arith, e, bytes_beq_iff org_id other) in
      inr (
        rw (← same) h,
        omega (arith, one, count-&& (is_admin_of other) (is_membership org_id member_id) ms),
      )
  | inr e ↦ inl (other_org-no_admin org_id member_id other ms e)
]

remove_member-HasAdmin :
    (org_id member_id other : Bytes) (d : Directory)
    → HasAdmin other d
    → Spared org_id member_id d.memberships
    → HasAdmin other (remove_member org_id member_id d)
unfolding HasAdmin IsKeyed delete_membership
remove_member-HasAdmin org_id member_id other d (keyed, one) spared =
    let ms = d.memberships in
    let key = is_membership org_id member_id in
    let split = count-split (is_admin_of other) key ms in
    (
      λ o m. omega (arith, keyed o m, count-keep (is_membership o m) (λ x. not (key x)) ms),
      elim (deleted_admins org_id member_id other ms (keyed org_id member_id) spared) [
        | inl h ↦ omega (arith, one, split, h)
        | inr (two, h) ↦ omega (arith, two, split, h)
      ],
    )

module _ (other : Bytes) where
  delete_binding-HasAdmin :
      (subject domain : Bytes) → Preserves (HasAdmin other) (delete_binding subject domain)
  unfolding delete_binding HasAdmin
  delete_binding-HasAdmin subject domain =
      Triple->>= _ _ (λ u. HasAdmin other) _ _ _
        (Triple-call (HasAdmin other) _ _ _ _ (λ d h. h) (λ d h. h))
        (λ u. Triple-call (HasAdmin other) _ _ _ _ (λ d h. h) (λ d h. h))

  leave_org-HasAdmin :
      (org target : UserRow)
      → Triple
          (λ d. HasAdmin other d × Spared org.id target.id d.memberships)
          (leave_org org target)
          (HasAdmin other)
          (λ u. HasAdmin other)
  unfolding leave_org
  leave_org-HasAdmin org target =
      Triple-transaction _ (HasAdmin other) _ _ _ (λ d (h, s). h) (λ d (h, s). h) (λ u d h. h)
        (Triple->>= _ _ (λ u. HasAdmin other) _ _ _
          (Triple-call _ _ _ _ _ (λ d (h, s). remove_member-HasAdmin org.id target.id other d h s)
            (λ d (h, s). h))
          (λ u. delete_binding-HasAdmin target.username (org_domain org.username)))

  keep_last_admin-Spared :
      (org target : UserRow) (role : Bytes)
      → Triple
          (λ d. HasAdmin other d × (get_member_role org.id target.id d ≡ replied role))
          (keep_last_admin org.id role)
          (HasAdmin other)
          (λ u d. HasAdmin other d × Spared org.id target.id d.memberships)
  unfolding keep_last_admin Spared
  keep_last_admin-Spared org target role = elim (Bool-cases (role == admin)) [
    | inl e ↦ rw e (
        Triple->>= _ _
          (λ members d. HasAdmin other d × (replied (list_members org.id d) ≡ replied members)) _ _
          _ (Triple-weaken _ _ _ _ _ (λ d (h, r). h) (Triple-reads (HasAdmin other) _ _))
          (λ members.
            Triple-refuse_if _ _ _ _ _ (λ d (h, l) t. h)
              (λ d (h, l) f. (h, inr (two_admins org.id d members (replied_injective _ _ l) f)))))
    | inr e ↦
        rw e (Triple-return _ _ _ _ (λ d (h, r). (h, inl (role, found_or_none-replied _ _ r, e))))
  ]

  remove_org_member-Preserves :
      (can : Can) (caller : Option User) (org_name username : Bytes)
      → Preserves (HasAdmin other) (remove_org_member can caller org_name username)
  unfolding remove_org_member remove_org_member_as
  remove_org_member-Preserves can none org_name username = Triple-fail _ _ _ _ (λ d h. h)
  remove_org_member-Preserves can (some caller) org_name username =
      Triple->>= _ _ (λ org d. HasAdmin other d) _ _ _ (Preserves-reads _ _ _)
        (λ org.
          Triple->>= _ _ (λ u d. HasAdmin other d) _ _ _
            (may_remove-Preserves _ can caller org username)
            (λ u.
              Triple->>= _ _ (λ target d. HasAdmin other d) _ _ _ (Preserves-reads _ _ _)
                (λ target. Triple->>= _ _ _ _ _ _ (Triple-reads (HasAdmin other) _ _) (λ role.
                  Triple->>= _ _ _ _ _ _ (keep_last_admin-Spared org target role)
                    (λ u. leave_org-HasAdmin org target)))))

-- RemoveOrgMember, whoever calls it, whatever the authorization server answers and whichever
-- statements fail, leaves each organisation with an administrator if it had one, in a table whose
-- primary key holds before; the key holds after it too.
pub remove_org_member-HasAdmin :
    (org_id : Bytes) (can : Can) (caller : Option User) (org_name username : Bytes)
    (failures : List (Option DbError)) (d : Directory)
    → HasAdmin org_id d
    → HasAdmin org_id (remove_org_member can caller org_name username (failures, d)).1.1
remove_org_member-HasAdmin org_id can caller org_name username failures d =
    Preserves-run _ _ _ (remove_org_member-Preserves org_id can caller org_name username)
