-- ===== src/Constants/Names/Tests.antt =====
-- Runs of the name check at concrete inputs.
use hades.Prelude.{bytes_beq, codes, none, refl, some, true, ◌≡◌}
use hades.Text.{to_lower, trim_space}
use hades.Constants.Names.{
  is_reserved_name, name_bad_form, name_re, name_reserved, name_rest, validate_name,
}

name_tests :
    (validate_name (codes "petapis") ≡ none)
    × (validate_name (codes ".git") ≡ some name_bad_form)
    × (validate_name (codes "..") ≡ some name_bad_form)
    × (validate_name (codes "a/b") ≡ some name_bad_form)
    × (validate_name (codes "settings") ≡ some name_reserved)
    × (validate_name (codes "x-y.z") ≡ none)
    × (is_reserved_name (codes " Admin ") ≡ true)
unfolding validate_name name_re name_rest is_reserved_name to_lower trim_space bytes_beq
name_tests = (refl, refl, refl, refl, refl, refl, refl)
