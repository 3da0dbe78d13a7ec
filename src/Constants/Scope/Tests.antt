-- ===== src/Constants/Scope/Tests.antt =====
-- Runs of the scope grammar at concrete inputs.
use hades.Constants.Scope.RoundTrip.{IsScopePart, parse_scope_iff, print_scope}
use hades.Prelude.{bytes_beq, codes, false, none, refl, some, true, ◌↔◌, ◌≡◌}
use hades.Constants.Scope.{is_known_scope, is_valid_scope_domain, known_scopes, parse_scope, scope}
use hades.Text.{contains_any, contains_byte, cut, split_n}

parse_tests :
    (parse_scope (codes "module:push:alice/petapis")
      ≡ some (codes "module", codes "push", codes "alice/petapis"))
    × (parse_scope (codes "module:") ≡ none)
    × (parse_scope (codes "module:read:") ≡ none)
    × (is_known_scope (codes "module:*:alice/*") ≡ true)
    × (is_known_scope (codes "label:read") ≡ false)
    × (is_known_scope (codes "org:read:*/x") ≡ false)
unfolding parse_scope is_known_scope split_n cut bytes_beq is_valid_scope_domain contains_any
    contains_byte known_scopes scope
parse_tests = (refl, refl, refl, refl, refl, refl)

parse_scope_iff_example :
    (parse_scope (codes "module:push:alice/*")
      ≡ some (codes "module", codes "push", codes "alice/*"))
    ↔ (IsScopePart (codes "module")
        × IsScopePart (codes "push")
        × (codes "module:push:alice/*"
            ≡ print_scope (codes "module") (codes "push") (codes "alice/*")))
parse_scope_iff_example =
    parse_scope_iff (codes "module:push:alice/*") (codes "module") (codes "push") (codes "alice/*")
