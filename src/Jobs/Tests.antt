-- ===== src/Jobs/Tests.antt =====
-- Runs of the job queue and of the worker at a concrete table.
use hades.Effects.{DbError, ask, call, other_failure}
use hades.Result.{err, internal, ok}
use hades.Prelude.{
  All, List, Option, [], arith, bytes_beq, codes, length, map, none, refl, some, true, ◌+◌, ◌∷◌,
  ◌≡◌, ◌≤◌,
}
use hades.Jobs.Table.{
  GeneratorConfig, SdkJob, claim_ids, claim_one, claim_pending, claimed, create_batch, failed,
  mark_failed, new_job, pending, recover_stale, running, select_pending,
}
use hades.Jobs.Attempts.{IsWithinAttempts, attempts_bounded, next, start}
use hades.Jobs.Claims.{claimed_once, stay}
use hades.Jobs.Worker.{
  Ending, JobTables, Notification, Tools, acquire_available, broke, done, finish, notification,
  notify_job_outcome, poll, process, short_hash, tell, work,
}
use hades.Jobs.Slots.{IsRunning, poll_bounded}
use hades.Jobs.Endings.{AreTold, AreWritten, is_uploaded, process_ends}
use hades.Jobs.Outcome.{IsOutcome}

-- The SELECT, one UPDATE and its SELECT work; the next UPDATE fails.
abbrev broken_claim : List (Option DbError)
broken_claim = none ∷ none ∷ none ∷ some other_failure ∷ []

abbrev go_plugin : GeneratorConfig
go_plugin = record { language = codes "go"; plugin = codes "protoc-gen-go"; options = [] }

abbrev one_job : List SdkJob
one_job = new_job (codes "c1") (codes "m1") 7 go_plugin (codes "j1") ∷ []

table_tests :
    (create_batch (codes "c1") (codes "m1") 7 ((go_plugin, codes "j1") ∷ []) ([], [])
      ≡ (ok tt, ([], one_job)))
    × (select_pending 3 one_job ≡ codes "j1" ∷ [])
    × ((recover_stale 300 400 ((claim_pending 3 8 ([], one_job)).1.1)).1 ≡ 1)
    × ((recover_stale 300 300 ((claim_pending 3 8 ([], one_job)).1.1)).1 ≡ 0)
unfolding create_batch select_pending claim_pending claim_ids claim_one recover_stale bytes_beq call
table_tests = (refl, refl, refl, refl)

abbrev two_jobs : List SdkJob
two_jobs =
    new_job (codes "c1") (codes "m1") 7 go_plugin (codes "j1")
    ∷ new_job (codes "c1") (codes "m1") 7 go_plugin (codes "j2")
    ∷ []

-- The second INSERT of a batch fails, or the second UPDATE of a claim: the rows before stay.
partial_tests :
    (create_batch
        (codes "c1")
        (codes "m1")
        7
        ((go_plugin, codes "j1") ∷ (go_plugin, codes "j2") ∷ [])
        (none ∷ some other_failure ∷ [], [])
      ≡ (err internal, ([], one_job)))
    × (map (λ (j : SdkJob). j.status) ((claim_pending 2 8 (broken_claim, two_jobs)).1.1)
        ≡ running ∷ pending ∷ [])
    × ((claim_pending 2 8 (broken_claim, two_jobs)).0 ≡ err internal)
    × ((poll 4 1 8 (broken_claim, two_jobs)).0 ≡ (1, []))
    × ((poll 4 1 8 ([], two_jobs)).0.0 ≡ 3)
unfolding create_batch select_pending claim_pending claim_ids claim_one bytes_beq poll
    acquire_available call ask
partial_tests = (refl, refl, refl, refl, refl)

abbrev made : List SdkJob
made = (create_batch (codes "c1") (codes "m1") 7 ((go_plugin, codes "j1") ∷ []) ([], [])).1.1

attempts_bounded_example : All IsWithinAttempts ((claim_one (codes "j1") 9 made).0)
attempts_bounded_example = attempts_bounded ((claim_one (codes "j1") 9 made).0) (
    next made ((claim_one (codes "j1") 9 made).0)
      (next [] made start (
        hades.Jobs.Attempts.Step.create (codes "c1") (codes "m1") 7 ((go_plugin, codes "j1") ∷ [])
          []))
      (hades.Jobs.Attempts.Step.claim (codes "j1") 9))

claimed_once_example : (claim_one (codes "j1") 10 ((claim_one (codes "j1") 9 one_job).0)).1 ≡ none
claimed_once_example =
    claimed_once (codes "j1") 9 10 one_job ((claim_one (codes "j1") 9 one_job).0) stay

abbrev timed_out : List SdkJob
timed_out = mark_failed (codes "j1") (codes "upload: timeout") 1 10 one_job

poll_bounded_example :
    let ((taken', jobs), w') = poll 4 1 9 (broken_claim, two_jobs) in
    (taken' ≡ 1 + length jobs) × (taken' ≤ 4) × All IsRunning jobs
poll_bounded_example = poll_bounded 4 1 9 (broken_claim, two_jobs) (omega arith)

-- Every step succeeds but the upload.
abbrev offline : Tools
offline = record {
  get_commit = λ id. done (record {
    commit_hash = codes "0123456789abcdef";
    module_id = codes "m1";
    module_name = codes "alice/petapis";
    created_by_user_id = codes "u1";
  });
  make_dir = done (codes "/tmp/1");
  stream_blobs = λ name hash dir. done tt;
  has_proto = λ dir. true;
  generator = λ plugin. some (λ dir options. done (codes "/tmp/2"));
  upload = λ key dir. broke (codes "timeout");
}

abbrev first : SdkJob
first = new_job (codes "c1") (codes "m1") 7 go_plugin (codes "j1")

abbrev claimed_job : JobTables
claimed_job = record { rows = claimed 8 first ∷ []; notifications = [] }

-- The job fails; where its mark is not written it stays running, and the notice is written still.
process_tests :
    (map
        (λ (n : Notification). n.body)
        ((process offline first 9 ([], claimed_job)).1.1.notifications)
      ≡ codes "Generating the go SDK for commit 0123456789ab failed: upload: timeout" ∷ [])
    × (map (λ (j : SdkJob). j.status) ((process offline first 9 ([], claimed_job)).1.1.rows)
        ≡ failed ∷ [])
    × (map
          (λ (j : SdkJob). j.status)
          ((process offline first 9 (some other_failure ∷ [], claimed_job)).1.1.rows)
        ≡ running ∷ [])
    × (length ((process offline first 9 (some other_failure ∷ [], claimed_job)).1.1.notifications)
        ≡ 1)
unfolding process work finish notify_job_outcome notification mark_failed bytes_beq short_hash tell
    ask
process_tests = (refl, refl, refl, refl)

process_ends_example :
    let (reply, (gs, t')) = process offline first 9 ([], claimed_job) in
    (reply ≡ ok tt)
    × ((ending : Ending) × IsOutcome offline first ending
        × AreWritten first ending [] claimed_job.rows t'.rows
        × AreTold first (is_uploaded ending) claimed_job t')
process_ends_example = process_ends offline first 9 [] claimed_job
