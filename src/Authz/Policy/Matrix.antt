-- ===== src/Authz/Policy/Matrix.antt =====
-- The roles are ordered, and what is allowed on a private resource is allowed by a binding.
use hades.Prelude.{
  &&-true, Bytes, List, Memᴰ, [], any_sound, arith, bytes_beq, contains, false, refl, true, ◌&&◌,
  ◌++◌, ◌==◌, ◌∷◌, ◌≡◌, nat_eq, bytes_eq, string_eq,
}
use hades.Constants.{
  Policy, action_list, action_push, action_read, action_transfer, resource_module, resource_org,
  role_admin, role_contributor, role_owner, role_reader, visibility_private, visibility_public,
}
use hades.Authz.Policy.{
  Binding, binding_allows, lookup, module_all, org_all, permits, policy_allow, rego_domain_matches,
}
use hades.Authz.Policy.Domains.{RegoCovers, rego_domain_matches_iff}

permits_reader :
    (r a : Bytes)
    → permits role_reader r a
      ≡ contains
          (lookup []
            ((resource_module, action_read ∷ action_list ∷ [])
              ∷ (resource_org, action_read ∷ [])
              ∷ [])
            r)
          a
unfolding permits bytes_beq
permits_reader r a = refl

permits_contributor :
    (r a : Bytes)
    → permits role_contributor r a
      ≡ contains
          (lookup []
            ((resource_module, action_read ∷ action_list ∷ action_push ∷ [])
              ∷ (resource_org, action_read ∷ [])
              ∷ [])
            r)
          a
unfolding permits bytes_beq
permits_contributor r a = refl

permits_admin :
    (r a : Bytes)
    → permits role_admin r a
      ≡ contains (lookup [] ((resource_module, module_all) ∷ (resource_org, org_all) ∷ []) r) a
unfolding permits bytes_beq
permits_admin r a = refl

permits_owner :
    (r a : Bytes)
    → permits role_owner r a
      ≡ contains
          (lookup []
            ((resource_module, module_all ++ action_transfer ∷ []) ∷ (resource_org, org_all) ∷ [])
            r)
          a
unfolding permits bytes_beq
permits_owner r a = refl

-- Each role includes the one below it, on every resource type and action: what reader permits
-- contributor permits, what contributor permits admin permits, and what admin permits owner does.
pub permits_hierarchy :
    (r a : Bytes)
    → ((permits role_reader r a && permits role_contributor r a) ≡ permits role_reader r a)
      × ((permits role_contributor r a && permits role_admin r a) ≡ permits role_contributor r a)
      × ((permits role_admin r a && permits role_owner r a) ≡ permits role_admin r a)
permits_hierarchy r a =
    rw (permits_reader r a, permits_contributor r a, permits_admin r a, permits_owner r a)
      (ground arith, ground arith, ground arith)

private_not_public : (visibility_private == visibility_public) ≡ false
unfolding bytes_beq
private_not_public = refl

-- What the policy allows on a private resource to a subject that is no superadmin, one of the
-- subject's bindings allows: its domain pattern covers the resource and its role permits the action.
pub policy_allow_private :
    (superadmins : List Bytes) (bindings : List Binding) (p : Policy)
    → contains superadmins p.subject ≡ false
    → p.visibility ≡ visibility_private
    → policy_allow superadmins bindings p ≡ true
    → (b : Binding) × Memᴰ b bindings
      × RegoCovers b.domain p.domain
      × (permits b.role p.resource_type p.action ≡ true)
unfolding policy_allow
policy_allow_private sa bs p ns priv h =
    let closed : (p.visibility == visibility_public) ≡ false = rw priv private_not_public in
    let (b, m, e) = any_sound (binding_allows p) bs (ground (arith, closed)) in
    let (covers, permitted) =
      &&-true (rego_domain_matches b.domain p.domain) (permits b.role p.resource_type p.action)
        (unfold binding_allows in e) in
    (b, m, (rego_domain_matches_iff b.domain p.domain).0 covers, permitted)
