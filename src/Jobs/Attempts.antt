-- ===== src/Jobs/Attempts.antt =====
-- What every sequence of statements on the table keeps: the attempts of each job are bounded, and
-- a finished job stays finished.
use hades.Effects.{DbError, from_db, writes}
use hades.Effects.Laws.{Preserves, Preserves-run, Triple->>=, Triple-call, Triple-return}
use hades.Prelude.{
  All, All-concat, Bool-cases, Bytes, List, Option, [], arith, false, inl, inr, true, ℕ, ◌-◌, ◌<◌,
  ◌==◌, ◌∷◌, ◌≡◌, ◌≤◌, nat_eq, bytes_eq, string_eq,
}
use hades.Jobs.Table.{
  GeneratorConfig, SdkJob, add_job, claim_one, claimable, create_batch, failed_status, is_pending,
  is_stale, mark_failed, mark_succeeded, max_attempts, new_job, recover_stale,
}

-- One statement of one of the workers, on whatever identifier it selected before.
pub data Step (rows : List SdkJob) : List SdkJob → Type 0 where
  create :
      (commit_id module_id : Bytes) (now : ℕ) (gs : List (GeneratorConfig × Bytes))
      (failures : List (Option DbError))
      → Step rows ((create_batch commit_id module_id now gs (failures, rows)).1.1)
  claim : (id : Bytes) (now : ℕ) → Step rows ((claim_one id now rows).0)
  succeed : (id location : Bytes) (now : ℕ) → Step rows (mark_succeeded id location now rows)
  fail :
      (id message : Bytes) (attempts now : ℕ) → Step rows (mark_failed id message attempts now rows)
  recover : (timeout now : ℕ) → Step rows ((recover_stale timeout now rows).0)

-- The tables that any interleaving of statements reaches from the empty one.
pub data Reachable : List SdkJob → Type 0 where
  start : Reachable []
  next : (rows rows' : List SdkJob) → Reachable rows → Step rows rows' → Reachable rows'

-- A job has at most five attempts, and one of them is left if it is pending.
abbrev pub IsWithinAttempts : SdkJob → Type 0
IsWithinAttempts j =
    (j.attempts ≤ max_attempts) × (is_pending j.status ≡ true → j.attempts < max_attempts)

claim-IsWithinAttempts :
    (id : Bytes) (now : ℕ) (rows : List SdkJob)
    → All IsWithinAttempts rows
    → All IsWithinAttempts ((claim_one id now rows).0)
unfolding claim_one
claim-IsWithinAttempts id now [] h = tt
claim-IsWithinAttempts id now (j ∷ rows) ((h, p), hs) = elim (Bool-cases (claimable id j)) [
  | inl e ↦
      rw e ((omega (arith, p (ground (arith, e))), λ x. cc), claim-IsWithinAttempts id now rows hs)
  | inr e ↦ rw e ((h, p), claim-IsWithinAttempts id now rows hs)
]

recover-IsWithinAttempts :
    (timeout now : ℕ) (rows : List SdkJob)
    → All IsWithinAttempts rows
    → All IsWithinAttempts ((recover_stale timeout now rows).0)
unfolding recover_stale
recover-IsWithinAttempts timeout now [] h = tt
recover-IsWithinAttempts timeout now (j ∷ rows) ((h, p), hs) =
    elim (Bool-cases (is_stale (now - timeout) j)) [
      | inl e ↦ rw e ((h, λ x. ground (arith, e)), recover-IsWithinAttempts timeout now rows hs)
      | inr e ↦ rw e ((h, p), recover-IsWithinAttempts timeout now rows hs)
    ]

succeed-IsWithinAttempts :
    (id location : Bytes) (now : ℕ) (rows : List SdkJob)
    → All IsWithinAttempts rows
    → All IsWithinAttempts (mark_succeeded id location now rows)
unfolding mark_succeeded
succeed-IsWithinAttempts id location now [] h = tt
succeed-IsWithinAttempts id location now (j ∷ rows) ((h, p), hs) = elim (Bool-cases (j.id == id)) [
  | inl e ↦ rw e ((h, λ x. cc), succeed-IsWithinAttempts id location now rows hs)
  | inr e ↦ rw e ((h, p), succeed-IsWithinAttempts id location now rows hs)
]

failed_status-done : (attempts : ℕ) → is_pending (failed_status attempts) ≡ false
failed_status-done attempts = ground arith

fail-IsWithinAttempts :
    (id message : Bytes) (attempts now : ℕ) (rows : List SdkJob)
    → All IsWithinAttempts rows
    → All IsWithinAttempts (mark_failed id message attempts now rows)
unfolding mark_failed
fail-IsWithinAttempts id message attempts now [] h = tt
fail-IsWithinAttempts id message attempts now (j ∷ rows) ((h, p), hs) =
    elim (Bool-cases (j.id == id)) [
      | inl e ↦ rw e (
        (h, λ x. absurd (cc (x, failed_status-done attempts))),
        fail-IsWithinAttempts id message attempts now rows hs,
      )
      | inr e ↦ rw e ((h, p), fail-IsWithinAttempts id message attempts now rows hs)
    ]

create-IsWithinAttempts :
    (commit_id module_id : Bytes) (now : ℕ) (gs : List (GeneratorConfig × Bytes))
    → Preserves (All IsWithinAttempts) (create_batch commit_id module_id now gs)
unfolding create_batch
create-IsWithinAttempts commit_id module_id now [] = Triple-return _ _ _ _ (λ rows h. h)
create-IsWithinAttempts commit_id module_id now ((g, id) ∷ gs) =
    Triple->>= _ _ (λ u. All IsWithinAttempts) _ _ _
      (Triple-call _ _ _ from_db (writes (add_job (new_job commit_id module_id now g id)))
        (λ rows h.
          All-concat IsWithinAttempts rows (new_job commit_id module_id now g id) h
            (omega arith, λ x. omega arith))
        (λ rows h. h))
      (λ u. create-IsWithinAttempts commit_id module_id now gs)

Step-IsWithinAttempts :
    (rows rows' : List SdkJob)
    → Step rows rows'
    → All IsWithinAttempts rows
    → All IsWithinAttempts rows'
Step-IsWithinAttempts rows rows' (create c m now gs fs) h =
    Preserves-run _ _ (fs, rows) (create-IsWithinAttempts c m now gs) h
Step-IsWithinAttempts rows rows' (claim id now) h = claim-IsWithinAttempts id now rows h
Step-IsWithinAttempts rows rows' (succeed id l now) h = succeed-IsWithinAttempts id l now rows h
Step-IsWithinAttempts rows rows' (fail id m n now) h = fail-IsWithinAttempts id m n now rows h
Step-IsWithinAttempts rows rows' (recover timeout now) h =
    recover-IsWithinAttempts timeout now rows h

-- Whatever statements the workers interleave, no job is ever attempted more than five times, and
-- a pending job always has an attempt left, so that it is never pending beyond reach of a claim.
pub attempts_bounded : (rows : List SdkJob) → Reachable rows → All IsWithinAttempts rows
attempts_bounded rows start = tt
attempts_bounded rows (next before rows' r s) =
    Step-IsWithinAttempts before rows' s (attempts_bounded before r)
