-- ===== src/Paths/Tests.antt =====
-- Runs of the path checks at concrete inputs.
use hades.Text.Laws.{contains_byte-Lacks}
use hades.Paths.Safety.{IsSafePath, validate_path_iff}
use hades.Prelude.{List, [], arith, bytes_beq, codes, false, none, refl, some, ◌↔◌, ◌∷◌, ◌≡◌}
use hades.Text.{contains_byte, has_prefix, join, split}
use hades.Paths.{
  File, check_clean, clean, dot_segment, empty_segment, is_absolute, path_empty, scan_segments,
  validate_path,
}

clean_tests :
    (clean (codes "a/./b//../c") ≡ codes "a/c")
    × (clean (codes "../x/..") ≡ codes "..")
    × (clean (codes "/../a") ≡ codes "/a")
    × (clean [] ≡ codes ".")
    × (clean (codes "a/..") ≡ codes ".")
unfolding clean split join bytes_beq has_prefix
clean_tests = (refl, refl, refl, refl, refl)

path_tests :
    (validate_path (codes "acme/v1/x.proto") ≡ none)
    × (validate_path (codes "../../../etc/cron.d/x.proto") ≡ some dot_segment)
    × (validate_path (codes "/etc/passwd") ≡ some is_absolute)
    × (validate_path (codes "a//b") ≡ some empty_segment)
    × (validate_path [] ≡ some path_empty)
unfolding validate_path scan_segments check_clean clean split join bytes_beq has_prefix
    contains_byte
path_tests = (refl, refl, refl, refl, refl)

validate_path_iff_example :
    (validate_path (codes "a/x.proto") ≡ none)
    ↔ (IsSafePath (codes "a/x.proto") × (has_prefix (codes "a/x.proto") (codes "..") ≡ false))
validate_path_iff_example = validate_path_iff (codes "a/x.proto")

abbrev uploaded : List File
uploaded =
    record { path = codes "a/x.proto"; content = [] }
    ∷ record { path = codes "a/x.sh"; content = [] }
    ∷ []

dots-IsSafePath : IsSafePath (codes "..a/b.proto")
unfolding split contains_byte
dots-IsSafePath = record {
  short = omega arith;
  no_nul = contains_byte-Lacks 0 (codes "..a/b.proto") refl;
  no_backslash = contains_byte-Lacks 92 (codes "..a/b.proto") refl;
  plain = ((λ e. cc, λ e. cc, λ e. cc), ((λ e. cc, λ e. cc, λ e. cc), tt));
}
