-- ===== src/Jobs/Table.antt =====
-- internal/hades/storage/db/sdkjob/sqlite/sqlite.go: the table sdk_jobs, whose rows stand in the
-- order of created_at, and one function per statement. Identifiers are in the stored spelling, and
-- times are the seconds of datetime('now'). A statement that fails ends
-- its function, with the code that FromDB gives the error.
use hades.Effects.{Action, Statement, call, from_db, reads, replied, return, writes, ◌>>=◌}
use hades.Prelude.{
  Bool, Bytes, List, Option, [], false, if◌then◌else◌, keep, leb, ltb, map, none, reverse, some,
  take, true, ℕ, ◌&&◌, ◌++◌, ◌+◌, ◌-◌, ◌==◌, ◌∷◌, nat_eq, bytes_eq, string_eq,
}

pub data Status : Type 0 where
  pending running succeeded failed dead : Status

-- sdkjob.SDKJob
pub record SdkJob : Type 0 where
  pub id : Bytes
  pub commit_id : Bytes
  pub module_id : Bytes
  pub status : Status
  pub language : Bytes
  pub plugin : Bytes
  pub plugin_options : Bytes
  pub output_location : Bytes
  pub error_message : Bytes
  pub attempts : ℕ
  pub created_at : ℕ
  pub started_at : Option ℕ
  pub finished_at : Option ℕ

abbrev pub max_attempts : ℕ
max_attempts = 5

-- config.GeneratorConfig
pub record GeneratorConfig : Type 0 where
  pub language : Bytes
  pub plugin : Bytes
  pub options : Bytes

abbrev pub is_pending : Status → Bool
is_pending pending = true
is_pending s = false

abbrev pub is_running : Status → Bool
is_running running = true
is_running s = false

-- The row of an INSERT, with the defaults of the schema and the identifier that it draws.
abbrev pub new_job : Bytes → Bytes → ℕ → GeneratorConfig → Bytes → SdkJob
new_job commit_id module_id now g id = record {
  id = id;
  commit_id = commit_id;
  module_id = module_id;
  status = pending;
  language = g.language;
  plugin = g.plugin;
  plugin_options = g.options;
  output_location = [];
  error_message = [];
  attempts = 0;
  created_at = now;
  started_at = none;
  finished_at = none;
}

abbrev pub add_job : SdkJob → List SdkJob → List SdkJob
add_job j rows = rows ++ j ∷ []

-- CreateBatch(commitID, moduleID, generators), each generator with the identifier drawn for it; an
-- INSERT that fails ends it, with the rows before in the table
unfoldable pub create_batch :
    Bytes → Bytes → ℕ → List (GeneratorConfig × Bytes) → Action (List SdkJob) (Unit {0})
create_batch commit_id module_id now [] = return tt
create_batch commit_id module_id now ((g, id) ∷ gs) = do
  inserted ← call from_db (writes (add_job (new_job commit_id module_id now g id)))
  create_batch commit_id module_id now gs

-- SELECT id ... WHERE status = 'pending' AND attempts < ? ORDER BY created_at LIMIT ?
unfoldable pub select_pending : ℕ → List SdkJob → List Bytes
select_pending limit rows = take limit (
    map (λ (j : SdkJob). j.id)
      (keep (λ j. is_pending j.status && ltb j.attempts max_attempts) rows))

abbrev pub claimable : Bytes → SdkJob → Bool
claimable id j = j.id == id && is_pending j.status

abbrev pub claimed : ℕ → SdkJob → SdkJob
claimed now j = record j { status = running; started_at = some now; attempts = j.attempts + 1 }

-- UPDATE ... WHERE id = ? AND status = 'pending', with the first row that it changed: the number
-- of affected rows is 0 for `none`, and the SELECT that follows reads that row.
unfoldable pub claim_one : Bytes → ℕ → List SdkJob → List SdkJob × Option SdkJob
claim_one id now [] = ([], none)
claim_one id now (j ∷ rows) =
    let (rows', job) = claim_one id now rows in
    if claimable id j then (claimed now j ∷ rows', some (claimed now j)) else (j ∷ rows', job)

abbrev pub add_claim : Option SdkJob → List SdkJob → List SdkJob
add_claim none jobs = jobs
add_claim (some j) jobs = j ∷ jobs

abbrev pub claim_statement : Bytes → ℕ → Statement (List SdkJob) (Option SdkJob)
claim_statement id now rows = let (rows', job) = claim_one id now rows in (replied job, rows')

-- The SELECT of a row that the UPDATE changed, which may fail after it.
abbrev pub read_claim : Option SdkJob → Action (List SdkJob) (Option SdkJob)
read_claim none = return none
read_claim (some j) = call from_db (reads (λ (rows : List SdkJob). replied (some j)))

-- The loop over the selected identifiers; an error ends it, and the jobs claimed before stay
-- running in the table.
unfoldable pub claim_ids : List Bytes → ℕ → Action (List SdkJob) (List SdkJob)
claim_ids [] now = return []
claim_ids (id ∷ ids) now = do
  changed ← call from_db (claim_statement id now)
  job ← read_claim changed
  jobs ← claim_ids ids now
  return (add_claim job jobs)

-- ClaimPending(limit), with no other writer between its statements
unfoldable pub claim_pending : ℕ → ℕ → Action (List SdkJob) (List SdkJob)
claim_pending limit now = do
  ids ← call from_db (reads (λ (rows : List SdkJob). replied (select_pending limit rows)))
  claim_ids ids now

-- MarkSucceeded(jobID, outputLocation)
unfoldable pub mark_succeeded : Bytes → Bytes → ℕ → List SdkJob → List SdkJob
mark_succeeded id location now rows =
    map
      (λ (j : SdkJob).
        if j.id == id
        then record j { status = succeeded; output_location = location; finished_at = some now }
        else j)
      rows

abbrev pub failed_status : ℕ → Status
failed_status attempts = if leb max_attempts attempts then dead else failed

-- MarkFailed(jobID, errMsg, attempts)
unfoldable pub mark_failed : Bytes → Bytes → ℕ → ℕ → List SdkJob → List SdkJob
mark_failed id message attempts now rows =
    map
      (λ (j : SdkJob).
        if j.id == id
        then record j {
          status = failed_status attempts;
          error_message = message;
          finished_at = some now;
        }
        else j)
      rows

abbrev pub started_before : Option ℕ → ℕ → Bool
started_before none threshold = false
started_before (some t) threshold = ltb t threshold

abbrev pub is_stale : ℕ → SdkJob → Bool
is_stale threshold j =
    is_running j.status && (started_before j.started_at threshold && ltb j.attempts max_attempts)

-- RecoverStaleJobs(stalenessTimeout), with the number of affected rows
unfoldable pub recover_stale : ℕ → ℕ → List SdkJob → List SdkJob × ℕ
recover_stale timeout now [] = ([], 0)
recover_stale timeout now (j ∷ rows) =
    let (rows', n) = recover_stale timeout now rows in
    if is_stale (now - timeout) j
    then (record j { status = pending; started_at = none } ∷ rows', n + 1)
    else (j ∷ rows', n)

-- ListByModule(moduleID) and the two reads of successful jobs; newest first
unfoldable pub list_by_module : Bytes → List SdkJob → List SdkJob
list_by_module module_id rows =
    take 1000 (reverse (keep (λ (j : SdkJob). j.module_id == module_id) rows))

abbrev pub is_succeeded : Status → Bool
is_succeeded succeeded = true
is_succeeded s = false

unfoldable pub list_succeeded : Bytes → Bytes → List SdkJob → List SdkJob
list_succeeded module_id language rows = take 1000 (
    reverse (
      keep
        (λ (j : SdkJob).
          j.module_id == module_id && (j.language == language && is_succeeded j.status))
        rows))

abbrev first_job : List SdkJob → Option SdkJob
first_job [] = none
first_job (j ∷ rows) = some j

unfoldable pub get_by_commit : Bytes → Bytes → List SdkJob → Option SdkJob
get_by_commit commit_id language rows = first_job (
    reverse (
      keep
        (λ (j : SdkJob).
          j.commit_id == commit_id && (j.language == language && is_succeeded j.status))
        rows))
