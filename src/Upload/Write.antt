-- ===== src/Upload/Write.antt =====
-- internal/hades/server/content/upload.go: the part of `Upload` that writes, one work item after
-- another, and `partialUploadError`, `rollback`. The operation log, whose failures are dropped, is
-- not modelled.
use hades.Effects.{
  Action, Reply, Statement, World, ask, consult, fail, failed, from_db, replied, return,
  transaction_over, writes, ◌>>=◌,
}
use hades.Result.{Code, Result, aborted, err, internal, ok, unauthenticated}
use hades.Prelude.{
  Bytes, List, Option, [], if◌then◌else◌, length, ltb, none, some, ℕ, ◌&&◌, ◌++◌, ◌∷◌,
}
use hades.Interceptor.Stores.{User}
use hades.Upload.Registry.{
  CiRun, CommitRow, JobBatch, Registry, add_jobs, add_run, create_commit, on_tables, put_files,
  rollback_commit, undo_tables,
}
use hades.Upload.Request.{UploadContent, UploadEnv, WorkItem, check_contents}
use hades.Upload.Prepare.{Prepared, authorize_push, known, prepare_all, work}
use hades.Upload.Notify.{notify_commit_pushed}

-- partialUploadError, for the commits that landed before
abbrev pub partial_upload_error : Code → List CommitRow → Code
partial_upload_error cause [] = cause
partial_upload_error cause (c ∷ cs) = aborted

-- rollback, whose failure is dropped
unfoldable pub rollback : WorkItem → Bytes → Action Registry (Unit {0})
rollback w commit_id = do
  reply ← ask (writes (rollback_commit w.target.name commit_id w.previous_head))
  return tt

abbrev pub new_commit : UploadEnv → User → WorkItem → ℕ → Bytes → CommitRow
new_commit env user w n commit_id = record {
  id = env.new_id n;
  commit_hash = commit_id;
  owner_id = user.id;
  module_id = w.target.id;
  digest = w.digest;
}

-- A statement of the transaction; after its failure git is rolled back, and then the error comes.
abbrev pub rolled_back : WorkItem → Bytes → Reply (Unit {0}) → Action Registry (Unit {0})
rolled_back w commit_id (replied u) = return tt
rolled_back w commit_id (failed e) = do back ← rollback w commit_id; fail (from_db e)

unfoldable pub call_or_rollback :
    WorkItem → Bytes → Statement Registry (Unit {0}) → Action Registry (Unit {0})
call_or_rollback w commit_id statement = do reply ← ask statement; rolled_back w commit_id reply

abbrev pub run_of : WorkItem → Bytes → CiRun
run_of w commit_id = record {
  module_id = w.target.id;
  commit_hash = commit_id;
  breaking_passed = w.checks.breaking_ran;
  breaking_ran = w.checks.breaking_ran;
}

unfoldable pub record_run : UploadEnv → WorkItem → Bytes → Action Registry (Unit {0})
record_run env w commit_id =
    if env.records_runs && w.checks.ran
    then call_or_rollback w commit_id (writes (on_tables (add_run (run_of w commit_id))))
    else return tt

abbrev pub batch_of : CommitRow → JobBatch
batch_of c = record { commit_id = c.id; module_id = c.module_id }

unfoldable pub queue_jobs : UploadEnv → WorkItem → CommitRow → Action Registry (Unit {0})
queue_jobs env w c =
    if env.builds_sdks
    then call_or_rollback w c.commit_hash (writes (on_tables (add_jobs (batch_of c))))
    else return tt

-- The transaction of one work item.
unfoldable pub record_commit : UploadEnv → WorkItem → CommitRow → Action Registry CommitRow
record_commit env w c = transaction_over undo_tables (do
  created ← call_or_rollback w c.commit_hash (create_commit c)
  checked ← record_run env w c.commit_hash
  queued ← queue_jobs env w c
  return c)

abbrev pushed : Option Bytes → Result Bytes
pushed none = err aborted
pushed (some commit_id) = ok commit_id

abbrev refused : Code → List CommitRow → Reply (Option Bytes) → Result Bytes
refused cause landed (failed e) = err (partial_upload_error cause landed)
refused cause landed (replied answer) = pushed answer

unfoldable pub answer_put : WorkItem → Bytes → Statement Registry (Option Bytes)
answer_put w hash r =
    let (answer, r') = put_files w.target.name w.expected_head hash r in (replied answer, r')

-- PutFiles: ErrRefMoved is Aborted, another error may be a partial upload.
unfoldable pub put : UploadEnv → WorkItem → List CommitRow → Action Registry Bytes
put env w landed = do
  reply ← ask (answer_put w (env.commit_hash w.target w.files w.list_files w.expected_head))
  consult (λ r. refused internal landed reply)

-- A commit id of fewer than 32 characters.
unfoldable pub check_commit_id : WorkItem → Bytes → Action Registry (Unit {0})
check_commit_id w commit_id =
    if ltb (length commit_id) 32 then (do back ← rollback w commit_id; fail internal) else return tt

abbrev pub or_partial :
    List CommitRow → Result CommitRow × World Registry → Result CommitRow × World Registry
or_partial landed (ok c, v) = (ok c, v)
or_partial landed (err code, v) = (err (partial_upload_error code landed), v)

-- One round of the loop over the work items.
unfoldable pub land : UploadEnv → User → WorkItem → List CommitRow → Action Registry CommitRow
land env user w landed = do
  commit_id ← put env w landed
  long ← check_commit_id w commit_id
  let c = new_commit env user w (length landed) commit_id
  stored ← (λ v. or_partial landed (record_commit env w c v))
  told ← notify_commit_pushed env w.target c user
  return c

unfoldable pub land_all :
    UploadEnv → User → List WorkItem → List CommitRow → Action Registry (List CommitRow)
land_all env user [] landed = return landed
land_all env user (w ∷ ws) landed = do
  c ← land env user w landed
  land_all env user ws (landed ++ c ∷ [])

-- dedupCommits and workItems
unfoldable pub known_commits : List Prepared → List CommitRow
known_commits [] = []
known_commits (known c ∷ ps) = c ∷ known_commits ps
known_commits (work w ∷ ps) = known_commits ps

unfoldable pub work_items : List Prepared → List WorkItem
work_items [] = []
work_items (known c ∷ ps) = work_items ps
work_items (work w ∷ ps) = w ∷ work_items ps

unfoldable pub upload_as : UploadEnv → User → List UploadContent → Action Registry (List CommitRow)
upload_as env user contents = do
  checked ← consult (λ r. check_contents env contents)
  allowed ← authorize_push env user contents
  prepared ← prepare_all env contents
  landed ← land_all env user (work_items prepared) []
  return (known_commits prepared ++ landed)

-- Upload(contents)
unfoldable pub upload :
    UploadEnv → Option User → List UploadContent → Action Registry (List CommitRow)
upload env none contents = fail unauthenticated
upload env (some user) contents = upload_as env user contents
