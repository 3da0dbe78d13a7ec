-- ===== src/Upload/Checks.antt =====
-- internal/hades/server/content/upload.go: `lintPresetToRule`, `runProtoChecks`, `writeProtoFile`.
-- The temporary directories and the two external tools are parameters.
use hades.Prelude.{
  Bool, Bytes, List, Option, all, codes, false, if◌then◌else◌, is_some, length, ltb, none, not,
  some, true, ◌&&◌,
}
use hades.Result.{Result, err, internal, invalid_argument, ok, ◌>>=◌}
use hades.Paths.{File, clean, validate_path}
use hades.Upload.Registry.{
  LintPreset, UploadModule, preset_basic, preset_comments, preset_minimal, preset_unspecified,
}

-- lintPresetToRule
abbrev pub lint_preset_to_rule : LintPreset → Bytes
lint_preset_to_rule preset_basic = codes "BASIC"
lint_preset_to_rule preset_minimal = codes "MINIMAL"
lint_preset_to_rule preset_comments = codes "COMMENTS"
lint_preset_to_rule preset_unspecified = codes "DEFAULT"

-- The tools: whether a temporary directory can be made and written to, the linter with its rule
-- and whether buf.yaml names the breaking rules, and the breaking checker, `none` for one that is
-- not there.
pub record Tools : Type 0 where
  pub has_tmp : Bool
  pub lint : Option (List File → Bytes → Bool → Bool)
  pub lint_enabled : Bool
  pub breaking : Option (List File → List File → Bool)
  pub breaking_enabled : Bool

pub record CiResult : Type 0 where
  pub ran : Bool
  pub breaking_ran : Bool

-- The loop over writeProtoFile, which refuses every path that ValidatePath refuses.
unfoldable pub write_files : Tools → List File → Result (Unit {0})
write_files tools files =
    if tools.has_tmp && all (λ (f : File). not (is_some (validate_path f.path))) files
    then ok tt
    else err internal

abbrev passed : Bool → Result (Unit {0})
passed good = if good then ok tt else err invalid_argument

abbrev check_breaking :
    Tools → List File → List File → Option (List File → List File → Bool) → Bool → Result CiResult
check_breaking tools files previous none wanted = ok (record { ran = true; breaking_ran = false })
check_breaking tools files previous (some check) wanted =
    if wanted
    then (do
      written ← write_files tools previous
      compatible ← passed (check files previous)
      ok (record { ran = true; breaking_ran = true }))
    else ok (record { ran = true; breaking_ran = false })

-- runProtoChecks, with a linter
unfoldable pub run_proto_checks :
    Tools
    → (List File → Bytes → Bool → Bool)
    → UploadModule
    → List File
    → List File
    → Result CiResult
run_proto_checks tools lint m files previous = do
  written ← write_files tools files
  clean ← passed (lint files (lint_preset_to_rule m.lint_preset) m.breaking_enabled)
  check_breaking tools files previous tools.breaking
      (tools.breaking_enabled && (m.breaking_enabled && ltb 0 (length previous)))

abbrev pub not_run : CiResult
not_run = record { ran = false; breaking_ran = false }

-- The checks that Upload asks for.
unfoldable pub checks_of : Tools → UploadModule → List File → List File → Result CiResult
checks_of tools m files previous = elim tools.lint [
  | none ↦ ok not_run
  | some lint ↦
      if tools.lint_enabled then run_proto_checks tools lint m files previous else ok not_run
]
