-- ===== src/Authz/Policy.antt =====
-- internal/hades/authorization/hades/authz/authz.rego: what the policy decides for one policy
-- object, the data document being the superadmins and the bindings of the policy's subject.
pub mod Domains
pub mod Matrix
mod Tests
use hades.Prelude.{
  Bool, Bytes, List, [], any, codes, contains, if◌then◌else◌, ◌&&◌, ◌++◌, ◌==◌, ◌||◌, ◌∷◌, nat_eq,
  bytes_eq, string_eq,
}
use hades.Text.{has_prefix, has_suffix, trim_suffix}
use hades.Constants.{
  Policy, action_admin, action_create, action_delete, action_list, action_publish, action_push,
  action_read, action_transfer, action_update, resource_module, resource_org, role_admin,
  role_contributor, role_owner, role_reader, visibility_public,
}

-- One entry of data.role_bindings[subject].
pub record Binding : Type 0 where
  pub role : Bytes
  pub domain : Bytes

-- domain_matches of the policy; `trim_suffix`, `startswith`, `endswith` are the text functions.
unfoldable pub rego_domain_matches : Bytes → Bytes → Bool
rego_domain_matches pattern domain =
    pattern == domain
    || ((has_suffix pattern (codes "/*")
          && has_prefix domain (trim_suffix pattern (codes "/*") ++ codes "/"))
        || pattern == codes "*")

abbrev lookup {ℓ} : {V : Type ℓ} → V → List (Bytes × V) → Bytes → V
lookup d [] k = d
lookup d ((j, v) ∷ m) k = if j == k then v else lookup d m k

abbrev module_all : List Bytes
module_all =
    action_create ∷ action_read ∷ action_list ∷ action_update ∷ action_publish ∷ action_push
    ∷ action_delete ∷ action_admin ∷ []

abbrev org_all : List Bytes
org_all = action_read ∷ action_update ∷ action_admin ∷ []

-- The matrix `role_permissions`: role, resource type, actions.
abbrev pub role_permissions : List (Bytes × List (Bytes × List Bytes))
role_permissions =
    (
      role_owner,
      (resource_module, module_all ++ action_transfer ∷ []) ∷ (resource_org, org_all) ∷ [],
    )
    ∷ (role_admin, (resource_module, module_all) ∷ (resource_org, org_all) ∷ [])
    ∷ (
      role_contributor,
      (resource_module, action_read ∷ action_list ∷ action_push ∷ [])
          ∷ (resource_org, action_read ∷ [])
          ∷ [],
    )
    ∷ (
      role_reader,
      (resource_module, action_read ∷ action_list ∷ []) ∷ (resource_org, action_read ∷ []) ∷ [],
    )
    ∷ []

-- role_permissions[role][resource_type][action]: an undefined entry is not a member
unfoldable pub permits : Bytes → Bytes → Bytes → Bool
permits role resource action =
    contains (lookup [] (lookup [] role_permissions role) resource) action

-- The body of the role-binding rule for one binding.
unfoldable pub binding_allows : Policy → Binding → Bool
binding_allows p b =
    rego_domain_matches b.domain p.domain && permits b.role p.resource_type p.action

-- The three rules of policy_allow.
unfoldable pub policy_allow : List Bytes → List Binding → Policy → Bool
policy_allow superadmins bindings p =
    contains superadmins p.subject
    || (((p.action == action_read || p.action == action_list) && p.visibility == visibility_public)
        || any (binding_allows p) bindings)
