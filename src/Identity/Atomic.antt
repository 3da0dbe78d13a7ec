-- ===== src/Identity/Atomic.antt =====
-- The handlers that write do all of their writes or none, whichever statements fail.
use hades.Effects.{DbError, replied}
use hades.Effects.Laws.{
  Ends, Preserves-reads, Triple, Triple->>=, Triple-call, Triple-conclude, Triple-fact, Triple-fail,
  Triple-reads_at, Triple-run, Triple-transaction,
}
use hades.Prelude.{Bytes, List, Option, ap, none, refl, some, ◌≡◌}
use hades.Users.{UserRow, get_by_username}
use hades.Constants.{action_admin}
use hades.Identity.Tables.{Directory, add_member, get_org_by_name, remove_member}
use hades.Identity.Permission.{
  keep_last_admin-Preserves, may_remove-Preserves, require_org_permission-Preserves,
}
use hades.Identity.Orgs.{
  Can, add_binding, add_org_member, add_org_member_as, bind_in, delete_binding, join_org, leave_org,
  member_role_of, opa_role_of, org_domain, remove_org_member, remove_org_member_as, unbind_in,
}
use hades.Interceptor.Stores.{User}

module _ (d0 : Directory) where
  abbrev IsStart : Directory → Type 0
  IsStart d = d ≡ d0

  -- What a successful removal makes of the tables.
  abbrev pub without_member : UserRow → UserRow → Directory
  without_member org target =
      unbind_in target.username (org_domain org.username) (remove_member org.id target.id d0)

  -- Found under its name, as the organisation and the user that a request names.
  abbrev pub Named : Bytes → Bytes → UserRow → UserRow → Type 0
  Named org_name username org target =
      (get_org_by_name org_name d0 ≡ replied org)
      × (get_by_username username d0.users ≡ replied target)

  leave_org-ends :
      (org target : UserRow)
      → Triple IsStart (leave_org org target) IsStart (λ u d. d ≡ without_member org target)
  unfolding leave_org delete_binding
  leave_org-ends org target =
      let subject = target.username in
      let domain = org_domain org.username in
      Triple-transaction IsStart (λ d. Unit) IsStart (λ u d. d ≡ without_member org target) _
        (λ d h. h) (λ d h. tt) (λ u d h. tt)
        (Triple->>= _ _ (λ u d. d ≡ remove_member org.id target.id d0) _ _ _
          (Triple-call _ _ _ _ _ (λ d h. ap (remove_member org.id target.id) h) (λ d h. tt))
          (λ u.
            Triple->>= _ _ (λ v d. d ≡ without_member org target) _ _ _
              (Triple-call _ _ _ _ _ (λ d h. ap (unbind_in subject domain) h) (λ d h. tt))
              (λ v. Triple-call _ _ _ _ _ (λ d h. h) (λ d h. tt))))

  remove_org_member-Triple :
      (can : Can) (caller : Option User) (org_name username : Bytes)
      → Triple IsStart (remove_org_member can caller org_name username) IsStart (λ u d.
        (org : UserRow) × (target : UserRow) × Named org_name username org target
        × (d ≡ without_member org target))
  unfolding remove_org_member remove_org_member_as
  remove_org_member-Triple can none org_name username = Triple-fail _ _ _ _ (λ d h. h)
  remove_org_member-Triple can (some caller) org_name username =
      Triple->>= _ _ _ _ _ _ (Triple-reads_at d0 _ _) (λ org. Triple-fact _ _ _ _ _ (λ o.
        Triple->>= _ _ (λ u. IsStart) _ _ _ (may_remove-Preserves _ can caller org username)
          (λ u. Triple->>= _ _ _ _ _ _ (Triple-reads_at d0 _ _) (λ target.
            Triple-fact _ _ _ _ _ (λ t.
              Triple->>= _ _ (λ role. IsStart) _ _ _ (Preserves-reads _ _ _)
                (λ role.
                  Triple->>= _ _ (λ v. IsStart) _ _ _ (keep_last_admin-Preserves _ org.id role)
                    (λ v.
                      Triple-conclude _ _ _ _ _ (λ x d h. (org, target, (o, t), h))
                        (leave_org-ends org target))))))))

  -- What a successful addition makes of the tables.
  abbrev pub with_member : UserRow → UserRow → Bytes → Directory
  with_member org target role =
      bind_in
        (record {
          subject = target.username;
          role = opa_role_of role;
          domain = org_domain org.username;
        })
        (add_member org.id target.id role d0)

  join_org-ends :
      (org target : UserRow) (role : Bytes)
      → Triple IsStart (join_org org target role) IsStart (λ u d. d ≡ with_member org target role)
  unfolding join_org add_binding
  join_org-ends org target role =
      Triple-transaction IsStart (λ d. Unit) IsStart (λ u d. d ≡ with_member org target role) _
        (λ d h. h) (λ d h. tt) (λ u d h. tt)
        (Triple->>= _ _ (λ u d. d ≡ add_member org.id target.id role d0) _ _ _
          (Triple-call _ _ _ _ _ (λ d h. ap (add_member org.id target.id role) h) (λ d h. tt))
          (λ u.
            Triple->>= _ _ (λ v d. d ≡ with_member org target role) _ _ _
              (Triple-call _ _ _ _ _ (λ d h. ap (bind_in _) h) (λ d h. tt))
              (λ v. Triple-call _ _ _ _ _ (λ d h. h) (λ d h. tt))))

  add_org_member-Triple :
      (can : Can) (caller : Option User) (org_name username role : Bytes)
      → Triple IsStart (add_org_member can caller org_name username role) IsStart (λ u d.
        (org : UserRow) × (target : UserRow) × Named org_name username org target
        × (d ≡ with_member org target (member_role_of role)))
  unfolding add_org_member add_org_member_as
  add_org_member-Triple can none org_name username role = Triple-fail _ _ _ _ (λ d h. h)
  add_org_member-Triple can (some caller) org_name username role =
      Triple->>= _ _ _ _ _ _ (Triple-reads_at d0 _ _) (λ org. Triple-fact _ _ _ _ _ (λ o.
        Triple->>= _ _ (λ u. IsStart) _ _ _
          (require_org_permission-Preserves _ can caller org.username action_admin)
          (λ u. Triple->>= _ _ _ _ _ _ (Triple-reads_at d0 _ _) (λ target.
            Triple-fact _ _ _ _ _ (λ t.
              Triple-conclude _ _ _ _ _ (λ x d h. (org, target, (o, t), h))
                (join_org-ends org target (member_role_of role)))))))

-- RemoveOrgMember, whichever statements fail: after an error every table is as it was, and
-- otherwise the request named an organisation and a user, whose membership and whose bindings
-- in the organisation's namespace are gone, with nothing else changed.
pub remove_org_member_atomic :
    (can : Can) (caller : Option User) (org_name username : Bytes)
    (failures : List (Option DbError)) (d : Directory)
    → Ends
        (λ d'. d' ≡ d)
        (λ u d'.
          (org : UserRow) × (target : UserRow) × Named d org_name username org target
          × (d' ≡ without_member d org target))
        (remove_org_member can caller org_name username (failures, d))
remove_org_member_atomic can caller org_name username failures d =
    Triple-run _ _ _ _ _ (remove_org_member-Triple d can caller org_name username) refl

-- AddOrgMember, whichever statements fail: after an error every table is as it was, and otherwise
-- the request named an organisation and a user, whose membership has the role asked for, "member"
-- for none, and who has the binding of that role in the organisation's namespace.
pub add_org_member_atomic :
    (can : Can) (caller : Option User) (org_name username role : Bytes)
    (failures : List (Option DbError)) (d : Directory)
    → Ends
        (λ d'. d' ≡ d)
        (λ u d'.
          (org : UserRow) × (target : UserRow) × Named d org_name username org target
          × (d' ≡ with_member d org target (member_role_of role)))
        (add_org_member can caller org_name username role (failures, d))
add_org_member_atomic can caller org_name username role failures d =
    Triple-run _ _ _ _ _ (add_org_member-Triple d can caller org_name username role) refl
