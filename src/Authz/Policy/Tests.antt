-- ===== src/Authz/Policy/Tests.antt =====
-- Runs of the policy at concrete inputs.
use hades.Prelude.{String, [], bytes_beq, codes, false, refl, true, ◌∷◌, ◌≡◌}
use hades.Text.{has_prefix, has_suffix, trim_suffix}
use hades.Constants.{Policy, resource_module, visibility_private}
use hades.Authz.Policy.{Binding, binding_allows, permits, policy_allow, rego_domain_matches}

abbrev ask : String → String → String → Policy
ask subject domain action = record {
  subject = codes subject;
  domain = codes domain;
  resource_type = resource_module;
  action = codes action;
  visibility = visibility_private;
}

abbrev bind : String → String → Binding
bind role domain = record { role = codes role; domain = codes domain }

policy_tests :
    (policy_allow [] (bind "owner" "alice/*" ∷ []) (ask "alice" "alice/petapis" "push") ≡ true)
    × (policy_allow [] (bind "reader" "bob/x" ∷ []) (ask "alice" "bob/x" "push") ≡ false)
    × (policy_allow [] (bind "contributor" "bob/x" ∷ []) (ask "alice" "bob/x" "push") ≡ true)
    × (policy_allow [] (bind "owner" "alice/*" ∷ []) (ask "alice" "alicex/petapis" "read") ≡ false)
    × (policy_allow (codes "root" ∷ []) [] (ask "root" "bob/x" "delete") ≡ true)
unfolding policy_allow binding_allows rego_domain_matches permits bytes_beq has_suffix has_prefix
    trim_suffix
policy_tests = (refl, refl, refl, refl, refl)
