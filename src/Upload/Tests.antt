-- ===== src/Upload/Tests.antt =====
-- Runs of an upload of two modules.
use hades.Effects.{ask, call, consult, other_failure, replied, transaction_over, within}
use hades.Effects.Laws.{Ends}
use hades.Prelude.{
  Bytes, List, [], all, bytes_beq, codes, false, length, ltb, none, refl, replicate, some, true,
  ◌++◌, ◌==◌, ◌↔◌, ◌∷◌, ◌≡◌, ◌≤◌, nat_eq, bytes_eq, string_eq,
}
use hades.Result.{aborted, err, ok, permission_denied, unauthenticated}
use hades.Maps.{insert, lookup}
use hades.Text.{contains_byte, has_prefix, has_suffix, join, split}
use hades.Constants.{Policy}
use hades.Paths.{File, check_clean, clean, get_path, scan_segments, validate, validate_path}
use hades.Interceptor.Stores.{User, state_active}
use hades.Upload.Limits.{check_upload_limits, check_upload_limits_iff, total_bytes, within_bytes}
use hades.Upload.Registry.{
  CommitRow, Registry, UploadModule, commit_by_digest, create_commit, find_module, head_of,
  latest_commit, preset_basic, put_files, rollback_commit,
}
use hades.Upload.Checks.{Tools, checks_of, run_proto_checks, write_files}
use hades.Upload.Request.{UploadContent, UploadEnv, check_contents}
use hades.Upload.Prepare.{
  authorize_push, by_path, checked_work, get_commit_by_ref, get_module_by_ref, prepare, prepare_all,
  previous_files, read_head,
}
use hades.Upload.Notify.{notify_commit_pushed, pick_targets, targets}
use hades.Upload.Told.{AreTold, notify_commit_pushed_exact, with_notices}
use hades.Upload.Write.{
  answer_put, call_or_rollback, check_commit_id, known_commits, land, land_all, put, queue_jobs,
  record_commit, record_run, rollback, upload, upload_as, work_items,
}
use hades.Upload.Pushes.{Pushed, Stopped, upload_all_or_some}

abbrev alice : User
alice = record { id = codes "a"; username = codes "alice"; state = state_active }

abbrev module_named : Bytes → Bytes → UploadModule
module_named id name = record {
  id = id;
  name = name;
  owner_id = codes "o";
  default_branch = codes "main";
  lint_preset = preset_basic;
  breaking_enabled = true;
}

abbrev empty_registry : Registry
empty_registry = record {
  tables = record {
    modules = module_named (codes "1") (codes "o/x") ∷ module_named (codes "2") (codes "o/y") ∷ [];
    commits = [];
    ci_runs = [];
    jobs = [];
    notices = [];
  };
  heads = [];
}

abbrev proto : Bytes → File
proto content = record { path = codes "v1/x.proto"; content = content }

abbrev content_for : Bytes → List File → UploadContent
content_for name files = record {
  module_ref = record { id = []; owner = codes "o"; name = name };
  files = files;
}

-- A linter that refuses empty files; nothing is compared with the files before.
abbrev tools : Tools
tools = record {
  has_tmp = true;
  lint = some (λ files rule breaking. all (λ (f : File). ltb 0 (length f.content)) files);
  lint_enabled = true;
  breaking = some (λ files previous. false);
  breaking_enabled = true;
}

abbrev all_content : List File → Bytes
all_content [] = []
all_content (f ∷ files) = f.content ++ all_content files

-- A hash of forty characters.
abbrev hash_of : UploadModule → List File → List Bytes → Bytes → Bytes
hash_of m files paths head =
    m.id ++ all_content files ++ codes "0123456789012345678901234567890123456789"

abbrev env : UploadEnv
env = record {
  batch_can = λ r ps.
      ok (record { allowed = all (λ (p : Policy). p.subject == codes "alice") ps; policy = none });
  max_files = 2;
  max_bytes = 8;
  digest = λ files. some (all_content files);
  blobs = λ repo hash. replied (proto (codes "old") ∷ []);
  tools = tools;
  commit_hash = hash_of;
  new_id = λ n. n ∷ [];
  records_runs = true;
  builds_sdks = true;
  members = some (λ owner. replied (codes "a" ∷ codes "b" ∷ codes "b" ∷ []));
  notifies = true;
}

abbrev both : List UploadContent
both =
    content_for (codes "x") (proto (codes "px") ∷ [])
    ∷ content_for (codes "y") (proto (codes "py") ∷ [])
    ∷ []

abbrev bob : User
bob = record { id = codes "b"; username = codes "bob"; state = state_active }

-- Two modules are pushed; Bob may push nothing; a path outside of the module is refused.
upload_tests :
    (length (upload env (some alice) both ([], empty_registry)).1.1.tables.commits ≡ 2)
    × (length (upload env (some alice) both ([], empty_registry)).1.1.tables.jobs ≡ 2)
    × (length (upload env (some alice) both ([], empty_registry)).1.1.tables.notices ≡ 2)
    × (upload env (some bob) both ([], empty_registry)
        ≡ (err permission_denied, ([], empty_registry)))
    × ((upload env none both ([], empty_registry)).0 ≡ err unauthenticated)
unfolding upload upload_as check_contents check_upload_limits within_bytes authorize_push
    prepare_all prepare get_module_by_ref find_module get_commit_by_ref latest_commit read_head
    previous_files by_path checked_work checks_of run_proto_checks write_files commit_by_digest
    known_commits work_items land_all land put answer_put put_files check_commit_id record_commit
    call_or_rollback create_commit record_run queue_jobs transaction_over within ask call consult
    notify_commit_pushed targets pick_targets rollback rollback_commit validate validate_path
    get_path scan_segments check_clean clean split join bytes_beq has_prefix has_suffix
    contains_byte lookup insert
upload_tests = (refl, refl, refl, refl, refl)

-- The insert of the second commit fails: the first one stays, the answer says so, and the branch
-- of the second stands on the commit that is in no table, since it had none before.
partial_test :
    ((upload env (some alice) both (replicate 20 none ++ some other_failure ∷ [], empty_registry)).0
      ≡ err aborted)
    × (length
          (upload env
            (some alice)
            both
            (replicate 20 none ++ some other_failure ∷ [], empty_registry)).1.1.tables.commits
        ≡ 1)
    × (length
          (upload env
            (some alice)
            both
            (replicate 20 none ++ some other_failure ∷ [], empty_registry)).1.1.tables.jobs
        ≡ 1)
    × (length (
          head_of
            (codes "o/y")
            (upload env
              (some alice)
              both
              (replicate 20 none ++ some other_failure ∷ [], empty_registry)).1.1)
        ≡ 43)
unfolding upload upload_as check_contents check_upload_limits within_bytes authorize_push
    prepare_all prepare get_module_by_ref find_module get_commit_by_ref latest_commit read_head
    previous_files by_path checked_work checks_of run_proto_checks write_files commit_by_digest
    known_commits work_items land_all land put answer_put put_files check_commit_id record_commit
    call_or_rollback create_commit record_run queue_jobs transaction_over within ask call consult
    notify_commit_pushed targets pick_targets rollback rollback_commit validate validate_path
    get_path scan_segments check_clean clean split join bytes_beq has_prefix has_suffix
    contains_byte lookup insert
partial_test = (refl, refl, refl, refl)

abbrev pushed_commit : CommitRow
pushed_commit = record {
  id = codes "k";
  commit_hash = codes "h";
  owner_id = codes "a";
  module_id = codes "1";
  digest = codes "d";
}

-- A push of the same files again answers with the commit that is there, and adds none.
again_test :
    (upload env (some alice) both (upload env (some alice) both ([], empty_registry)).1).0
    ≡ (upload env (some alice) both ([], empty_registry)).0
unfolding upload upload_as check_contents check_upload_limits within_bytes authorize_push
    prepare_all prepare get_module_by_ref find_module get_commit_by_ref latest_commit read_head
    previous_files by_path checked_work checks_of run_proto_checks write_files commit_by_digest
    known_commits work_items land_all land put answer_put put_files check_commit_id record_commit
    call_or_rollback create_commit record_run queue_jobs transaction_over within ask call consult
    notify_commit_pushed targets pick_targets rollback rollback_commit validate validate_path
    get_path scan_segments check_clean clean split join bytes_beq has_prefix has_suffix
    contains_byte lookup insert
again_test = refl

upload_all_or_some_example :
    Ends
      (Stopped env empty_registry (some alice) both)
      (Pushed env empty_registry (some alice) both)
      (upload env (some alice) both ([], empty_registry))
upload_all_or_some_example = upload_all_or_some env (some alice) both ([], empty_registry)

check_upload_limits_iff_example :
    (check_upload_limits 2 8 (proto (codes "px") ∷ []) ≡ ok tt)
    ↔ ((length (proto (codes "px") ∷ []) ≤ 2) × (total_bytes (proto (codes "px") ∷ []) ≤ 8))
check_upload_limits_iff_example = check_upload_limits_iff 2 8 (proto (codes "px") ∷ [])

notify_commit_pushed_exact_example :
    (users : List Bytes) × AreTold env (module_named (codes "1") (codes "o/x")) alice.id users
    × ((notify_commit_pushed env
          (module_named (codes "1") (codes "o/x"))
          pushed_commit
          alice
          ([], empty_registry)).0
        ≡ ok tt)
    × ((notify_commit_pushed env
          (module_named (codes "1") (codes "o/x"))
          pushed_commit
          alice
          ([], empty_registry)).1.1
        ≡ with_notices (codes "k") users empty_registry)
notify_commit_pushed_exact_example =
    notify_commit_pushed_exact env (module_named (codes "1") (codes "o/x")) pushed_commit alice []
      empty_registry
