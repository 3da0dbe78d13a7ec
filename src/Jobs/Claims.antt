-- ===== src/Jobs/Claims.antt =====
-- Who gets a job: claims of one job by several workers, and jobs that have ended.
use hades.Effects.{DbError, from_db, writes}
use hades.Effects.Laws.{Preserves, Preserves-run, Triple->>=, Triple-call, Triple-return}
use hades.Prelude.{
  All, All-concat, Bool, Bool-cases, Bytes, List, Option, [], arith, false, inl, inr, none, refl,
  true, ℕ, ◌&&◌, ◌-◌, ◌==◌, ◌||◌, ◌∷◌, ◌≡◌, nat_eq, bytes_eq, string_eq,
}
use hades.Jobs.Table.{
  GeneratorConfig, SdkJob, add_job, claim_one, claimable, create_batch, is_pending, is_running,
  is_stale, mark_failed, mark_succeeded, new_job, recover_stale,
}

-- A statement of any worker. New jobs draw other identifiers than the one that is followed, and
-- the recovery of stale jobs takes part only if the flag says so.
pub data Move (id : Bytes) (recovers : Bool) (rows : List SdkJob) : List SdkJob → Type 0 where
  create :
      (commit_id module_id : Bytes) (now : ℕ) (gs : List (GeneratorConfig × Bytes))
      (failures : List (Option DbError))
      → All (λ g. (g.1 == id) ≡ false) gs
      → Move id recovers rows ((create_batch commit_id module_id now gs (failures, rows)).1.1)
  claim : (other : Bytes) (now : ℕ) → Move id recovers rows ((claim_one other now rows).0)
  succeed :
      (other location : Bytes) (now : ℕ)
      → Move id recovers rows (mark_succeeded other location now rows)
  fail :
      (other message : Bytes) (attempts now : ℕ)
      → Move id recovers rows (mark_failed other message attempts now rows)
  recover :
      (timeout now : ℕ)
      → recovers ≡ true
      → Move id recovers rows ((recover_stale timeout now rows).0)

pub data Trace (id : Bytes) (recovers : Bool) (rows : List SdkJob) : List SdkJob → Type 0 where
  stay : Trace id recovers rows rows
  move :
      (rows' rows'' : List SdkJob)
      → Trace id recovers rows rows'
      → Move id recovers rows' rows''
      → Trace id recovers rows rows''

-- No row of the job can be taken: none is pending, nor running if recoveries take part.
abbrev pub IsTaken : Bytes → Bool → SdkJob → Type 0
IsTaken id recovers j =
    (j.id == id && (is_pending j.status || (recovers && is_running j.status))) ≡ false

claim-none :
    (id : Bytes) (recovers : Bool) (now : ℕ) (rows : List SdkJob)
    → All (IsTaken id recovers) rows
    → (claim_one id now rows).1 ≡ none
unfolding claim_one
claim-none id recovers now [] h = refl
claim-none id recovers now (j ∷ rows) (h, hs) =
    ground (arith, h, claim-none id recovers now rows hs)

-- A claim leaves no pending row of its job.
claim-IsTaken :
    (id : Bytes) (now : ℕ) (rows : List SdkJob) → All (IsTaken id false) ((claim_one id now rows).0)
unfolding claim_one
claim-IsTaken id now [] = tt
claim-IsTaken id now (j ∷ rows) = elim (Bool-cases (claimable id j)) [
  | inl e ↦ rw e (ground arith, claim-IsTaken id now rows)
  | inr e ↦ rw e (ground (arith, e), claim-IsTaken id now rows)
]

claim_other-IsTaken :
    (id : Bytes) (recovers : Bool) (other : Bytes) (now : ℕ) (rows : List SdkJob)
    → All (IsTaken id recovers) rows
    → All (IsTaken id recovers) ((claim_one other now rows).0)
unfolding claim_one
claim_other-IsTaken id recovers other now [] h = tt
claim_other-IsTaken id recovers other now (j ∷ rows) (h, hs) =
    elim (Bool-cases (claimable other j)) [
      | inl e ↦ rw e (ground (arith, h, e), claim_other-IsTaken id recovers other now rows hs)
      | inr e ↦ rw e (h, claim_other-IsTaken id recovers other now rows hs)
    ]

recover-IsTaken :
    (id : Bytes) (timeout now : ℕ) (rows : List SdkJob)
    → All (IsTaken id true) rows
    → All (IsTaken id true) ((recover_stale timeout now rows).0)
unfolding recover_stale
recover-IsTaken id timeout now [] h = tt
recover-IsTaken id timeout now (j ∷ rows) (h, hs) = elim (Bool-cases (is_stale (now - timeout) j)) [
  | inl e ↦ rw e (ground (arith, h, e), recover-IsTaken id timeout now rows hs)
  | inr e ↦ rw e (h, recover-IsTaken id timeout now rows hs)
]

succeed-IsTaken :
    (id : Bytes) (recovers : Bool) (other location : Bytes) (now : ℕ) (rows : List SdkJob)
    → All (IsTaken id recovers) rows
    → All (IsTaken id recovers) (mark_succeeded other location now rows)
unfolding mark_succeeded
succeed-IsTaken id recovers other location now [] h = tt
succeed-IsTaken id recovers other location now (j ∷ rows) (h, hs) =
    (ground (arith, h), succeed-IsTaken id recovers other location now rows hs)

fail-IsTaken :
    (id : Bytes) (recovers : Bool) (other message : Bytes) (attempts now : ℕ) (rows : List SdkJob)
    → All (IsTaken id recovers) rows
    → All (IsTaken id recovers) (mark_failed other message attempts now rows)
unfolding mark_failed
fail-IsTaken id recovers other message attempts now [] h = tt
fail-IsTaken id recovers other message attempts now (j ∷ rows) (h, hs) =
    (ground (arith, h), fail-IsTaken id recovers other message attempts now rows hs)

create-IsTaken :
    (id : Bytes) (recovers : Bool) (c m : Bytes) (now : ℕ) (gs : List (GeneratorConfig × Bytes))
    → All (λ g. (g.1 == id) ≡ false) gs
    → Preserves (All (IsTaken id recovers)) (create_batch c m now gs)
unfolding create_batch
create-IsTaken id recovers c m now [] f = Triple-return _ _ _ _ (λ rows h. h)
create-IsTaken id recovers c m now ((g, drawn) ∷ gs) (f, fs) =
    Triple->>= _ _ (λ u. All (IsTaken id recovers)) _ _ _
      (Triple-call _ _ _ from_db (writes (add_job (new_job c m now g drawn)))
        (λ rows h. All-concat (IsTaken id recovers) rows (new_job c m now g drawn) h (rw f refl))
        (λ rows h. h))
      (λ u. create-IsTaken id recovers c m now gs fs)

Move-IsTaken :
    (id : Bytes) (recovers : Bool) (rows rows' : List SdkJob)
    → Move id recovers rows rows'
    → All (IsTaken id recovers) rows
    → All (IsTaken id recovers) rows'
Move-IsTaken id recovers rows rows' (create c m now gs fs f) h =
    Preserves-run _ _ (fs, rows) (create-IsTaken id recovers c m now gs f) h
Move-IsTaken id recovers rows rows' (claim o now) h = claim_other-IsTaken id recovers o now rows h
Move-IsTaken id recovers rows rows' (succeed o l now) h = succeed-IsTaken id recovers o l now rows h
Move-IsTaken id recovers rows rows' (fail o m n now) h = fail-IsTaken id recovers o m n now rows h
Move-IsTaken id true rows rows' (recover timeout now e) h = recover-IsTaken id timeout now rows h
Move-IsTaken id false rows rows' (recover timeout now e) h = cc

Trace-IsTaken :
    (id : Bytes) (recovers : Bool) (rows rows' : List SdkJob)
    → Trace id recovers rows rows'
    → All (IsTaken id recovers) rows
    → All (IsTaken id recovers) rows'
Trace-IsTaken id recovers rows rows' stay h = h
Trace-IsTaken id recovers rows rows' (move before after t m) h =
    Move-IsTaken id recovers before rows' m (Trace-IsTaken id recovers rows before t h)

-- Once a worker has claimed a job, no worker that selected the same identifier gets it, whatever
-- statements the workers run in between, as long as no recovery of stale jobs is among them.
pub claimed_once :
    (id : Bytes) (now now' : ℕ) (rows later : List SdkJob)
    → Trace id false ((claim_one id now rows).0) later
    → (claim_one id now' later).1 ≡ none
claimed_once id now now' rows later t =
    claim-none id false now' later
      (Trace-IsTaken id false ((claim_one id now rows).0) later t (claim-IsTaken id now rows))

pub marked-IsTaken :
    (id message : Bytes) (attempts now : ℕ) (rows : List SdkJob)
    → All (IsTaken id true) (mark_failed id message attempts now rows)
unfolding mark_failed
marked-IsTaken id message attempts now [] = tt
marked-IsTaken id message attempts now (j ∷ rows) =
    (ground arith, marked-IsTaken id message attempts now rows)

-- A job that was marked as failed is never claimed again, also not with attempts left and also
-- not by way of the recovery of stale jobs, whatever statements follow.
pub failed_never_claimed :
    (id message : Bytes) (attempts now now' : ℕ) (rows later : List SdkJob)
    → Trace id true (mark_failed id message attempts now rows) later
    → (claim_one id now' later).1 ≡ none
failed_never_claimed id message attempts now now' rows later t = claim-none id true now' later (
    Trace-IsTaken id true (mark_failed id message attempts now rows) later t
      (marked-IsTaken id message attempts now rows))
