-- ===== src/Identity/Permission.antt =====
-- The checks of the handlers change nothing.
use hades.Effects.Laws.{
  Preserves, Preserves-consult, Preserves-reads, Triple->>=, Triple-refuse_if, Triple-return,
}
use hades.Prelude.{Bool-cases, Bytes, inl, inr, ◌==◌, nat_eq, bytes_eq, string_eq}
use hades.Users.{UserRow}
use hades.Constants.{action_admin}
use hades.Identity.Tables.{Directory}
use hades.Identity.Orgs.{Can, admin, keep_last_admin, may_remove, require_org_permission}
use hades.Interceptor.Stores.{User}

module _ {ν} (P : Directory → Type ν) where
  pub require_org_permission-Preserves :
      (can : Can) (caller : User) (org_name action : Bytes)
      → Preserves P (require_org_permission can caller org_name action)
  unfolding require_org_permission
  require_org_permission-Preserves can caller org_name action = Preserves-consult _ _

  pub may_remove-Preserves :
      (can : Can) (caller : User) (org : UserRow) (username : Bytes)
      → Preserves P (may_remove can caller org username)
  unfolding may_remove
  may_remove-Preserves can caller org username = elim (Bool-cases (caller.username == username)) [
    | inl e ↦ rw e (Triple-return _ _ _ _ (λ d h. h))
    | inr e ↦ rw e (require_org_permission-Preserves can caller org.username action_admin)
  ]

  pub keep_last_admin-Preserves : (org_id role : Bytes) → Preserves P (keep_last_admin org_id role)
  unfolding keep_last_admin
  keep_last_admin-Preserves org_id role = elim (Bool-cases (role == admin)) [
    | inl e ↦ rw e (
        Triple->>= _ _ (λ members. P) _ _ _ (Preserves-reads _ _ _)
          (λ members. Triple-refuse_if _ _ _ _ _ (λ d h t. h) (λ d h f. h)))
    | inr e ↦ rw e (Triple-return _ _ _ _ (λ d h. h))
  ]
