-- ===== src/Jobs/Worker.antt =====
-- internal/sdk/worker/worker.go: what a worker does with a job, and how a poll shares out its slots.
-- Git, the file system, protoc and the object store are parameters; logs, traces and metrics are
-- left out, `%q` is two quotes, and a text that Go formats from an error is that error's text.
use hades.Prelude.{
  Bool, Bytes, List, Option, [], codes, false, if◌then◌else◌, length, ltb, none, not, some, suc,
  take, true, zero, ℕ, ◌++◌, ◌+◌, ◌-◌, ◌==◌, ◌∷◌, nat_eq, bytes_eq, string_eq,
}
use hades.Effects.{Action, World, ask, return, writes, ◌>>=◌}
use hades.Result.{Result, err, ok}
use hades.Jobs.Table.{SdkJob, claim_pending, mark_failed, mark_succeeded}

-- registryv1.Commit, as far as the worker reads it. The module's name is "" for a nil module.
pub record Commit : Type 0 where
  pub commit_hash : Bytes
  pub module_id : Bytes
  pub module_name : Bytes
  pub created_by_user_id : Bytes

-- The error's text, or the value.
pub data Attempt {ℓ} (A : Type ℓ) : Type ℓ where
  done : A → Attempt A
  broke : Bytes → Attempt A

-- What the worker calls: the commit table, a temporary directory, the blobs streamed into it, the
-- scan for .proto files, the generator of a plugin, and the upload of its output.
pub record Tools : Type 0 where
  pub get_commit : Bytes → Attempt Commit
  pub make_dir : Attempt Bytes
  pub stream_blobs : Bytes → Bytes → Bytes → Attempt (Unit {0})
  pub has_proto : Bytes → Bool
  pub generator : Bytes → Option (Bytes → Bytes → Attempt Bytes)
  pub upload : Bytes → Bytes → Attempt Bytes

pub record Notification : Type 0 where
  pub user_id : Bytes
  pub succeeded : Bool
  pub title : Bytes
  pub body : Bytes
  pub job_id : Bytes

-- The two texts of Module that step 1 leaves: the module's name, or else its identifier.
abbrev pub named_commit : Commit → Commit
named_commit c = if c.module_name == [] then record c { module_name = c.module_id } else c

-- shortHash(hash)
unfoldable pub short_hash : Bytes → Bytes
short_hash hash = if ltb 12 (length hash) then take 12 hash else hash

-- notifyJobOutcome(job, commitRecord, failure): what is created, with the notification store set
unfoldable pub notification : SdkJob → Commit → Bytes → List Notification
notification job c failure =
    let module_name = if c.module_name == [] then c.module_id else c.module_name in
    let hash = short_hash c.commit_hash in
    if c.created_by_user_id == []
    then []
    else if failure == []
    then record {
      user_id = c.created_by_user_id;
      succeeded = true;
      title = job.language ++ codes " SDK ready for " ++ module_name;
      body =
          codes "The "
          ++ job.language
          ++ codes " SDK for commit "
          ++ hash
          ++ codes " is available.";
      job_id = job.id;
    }
      ∷ []
    else record {
      user_id = c.created_by_user_id;
      succeeded = false;
      title = job.language ++ codes " SDK generation failed for " ++ module_name;
      body =
          codes "Generating the "
          ++ job.language
          ++ codes " SDK for commit "
          ++ hash
          ++ codes " failed: "
          ++ failure;
      job_id = job.id;
    }
      ∷ []

unfoldable pub notify_job_outcome : SdkJob → Option Commit → Bytes → List Notification
unfolding notification
notify_job_outcome job none failure = []
notify_job_outcome job (some c) failure = notification job c failure

-- How a job ends: the message that markFailed gets, or the location that is uploaded to.
pub data Ending : Type 0 where
  ends_broken : Bytes → Ending
  ends_uploaded : Bytes → Ending

-- The tables that a worker writes.
pub record JobTables : Type 0 where
  pub rows : List SdkJob
  pub notifications : List Notification

abbrev pub on_rows : (List SdkJob → List SdkJob) → JobTables → JobTables
on_rows f t = record t { rows = f t.rows }

abbrev pub add_notification : Notification → JobTables → JobTables
add_notification n t = record t { notifications = t.notifications ++ n ∷ [] }

-- The creation of the notification, whose error the worker ignores.
unfoldable pub tell : List Notification → Action JobTables (Unit {0})
tell [] = return tt
tell (n ∷ ns) = do sent ← ask (writes (add_notification n)); tell ns

module _ (tools : Tools) (job : SdkJob) where
  abbrev pub uploaded : Attempt Bytes → Ending
  uploaded (broke e) = ends_broken (codes "upload: " ++ e)
  uploaded (done loc) = ends_uploaded loc

  -- The output of a generator is uploaded under the module's name, the commit and the language.
  abbrev pub key_of : Commit → Bytes
  key_of c = c.module_name ++ codes "/" ++ c.commit_hash ++ codes "/" ++ job.language

  abbrev pub upload_output : Commit → Attempt Bytes → Ending
  upload_output c (broke e) = ends_broken (codes "generate: " ++ e)
  upload_output c (done out_dir) = uploaded (tools.upload (key_of c) out_dir)

  abbrev pub generate : Commit → Bytes → Option (Bytes → Bytes → Attempt Bytes) → Ending
  generate c dir none =
      ends_broken (codes "no generator registered for plugin " ++ 34 ∷ job.plugin ++ 34 ∷ [])
  generate c dir (some gen) = upload_output c (gen dir job.plugin_options)

  abbrev pub check_sources : Commit → Bytes → Attempt (Unit {0}) → Ending
  check_sources c dir (broke e) = ends_broken (codes "stream blobs: " ++ e)
  check_sources c dir (done u) =
      if not (tools.has_proto dir)
      then ends_broken (codes "no .proto files in commit")
      else generate c dir (tools.generator job.plugin)

  abbrev pub fetch_sources : Commit → Attempt Bytes → Ending
  fetch_sources c (broke e) = ends_broken (codes "mktemp proto: " ++ e)
  fetch_sources c (done dir) =
      check_sources c dir (tools.stream_blobs c.module_name c.commit_hash dir)

  -- Steps 1 to 6 of process, with the commit record if step 1 found one.
  unfoldable pub work : Attempt Commit → Option Commit × Ending
  work (broke e) = (none, ends_broken (codes "get commit: " ++ e))
  work (done c) = (some (named_commit c), fetch_sources (named_commit c) tools.make_dir)

  -- The writes that end the job; the worker ignores their errors.
  unfoldable pub finish : ℕ → Option Commit → Ending → Action JobTables (Unit {0})
  finish now c (ends_broken message) = do
    marked ← ask (writes (on_rows (mark_failed job.id message job.attempts now)))
    tell (notify_job_outcome job c message)
  finish now c (ends_uploaded loc) = do
    marked ← ask (writes (on_rows (mark_succeeded job.id loc now)))
    tell (notify_job_outcome job c [])

  -- Worker.process
  unfoldable pub process : ℕ → Action JobTables (Unit {0})
  process now =
      finish now (work (tools.get_commit job.commit_id)).0 (work (tools.get_commit job.commit_id)).1

-- acquireAvailable(sem, max) on a semaphore of this capacity with so many slots taken
unfoldable pub acquire_available : ℕ → ℕ → ℕ → ℕ
acquire_available zero taken capacity = zero
acquire_available (suc max) taken capacity =
    let more = acquire_available max (suc taken) capacity in
    if ltb taken capacity then suc more else zero

-- What a poll does with the reserved slots and the answer of ClaimPending: an error gives every
-- slot back, and else the slots go back that no job was claimed for.
abbrev pub start_jobs :
    ℕ → ℕ → Result (List SdkJob) × World (List SdkJob) → (ℕ × List SdkJob) × World (List SdkJob)
start_jobs taken slots (err c, w) = ((taken + slots - slots, []), w)
start_jobs taken slots (ok jobs, w) = ((taken + slots - (slots - length jobs), jobs), w)

-- One tick of the poll in Run: the slots taken afterwards and the jobs started.
unfoldable pub poll : ℕ → ℕ → ℕ → World (List SdkJob) → (ℕ × List SdkJob) × World (List SdkJob)
poll concurrency taken now w =
    let slots = acquire_available concurrency taken concurrency in
    let started = start_jobs taken slots (claim_pending slots now w) in
    if slots == 0 then ((taken, []), w) else started
