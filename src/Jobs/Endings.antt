-- ===== src/Jobs/Endings.antt =====
-- How a job ends.
use hades.Prelude.{
  All, Bool, Bool-cases, Bytes, List, Option, [], append_nil, arith, bytes_beq, bytes_beq_iff,
  false, inl, inr, leb, length, none, refl, some, true, ℕ, ◌++◌, ◌==◌, ◌∷◌, ◌≡◌, ◌≢◌, ◌<◌, ◌≤◌, ◌⊎◌,
  nat_eq, bytes_eq, string_eq,
}
use hades.Effects.{DbError, ask, writes, ◌>>=◌}
use hades.Effects.Laws.{next_works}
use hades.Result.{ok}
use hades.Jobs.Table.{
  SdkJob, dead, failed, failed_status, mark_failed, mark_succeeded, max_attempts, succeeded,
}
use hades.Jobs.Outcome.{IsOutcome, IsSaid, work-IsOutcome, work-IsSaid}
use hades.Jobs.Worker.{
  Commit, Ending, JobTables, Notification, Tools, ends_broken, ends_uploaded, finish, notification,
  notify_job_outcome, on_rows, process, tell, work,
}

-- What the end of a job writes into its rows; other rows are as before.
abbrev pub IsEnded : SdkJob → Ending → SdkJob → SdkJob → Type 0
IsEnded job (ends_broken message) j j' =
    ((j.id ≢ job.id) × (j' ≡ j))
    ⊎ ((j.id ≡ job.id)
        × (j'.error_message ≡ message)
        × (((job.attempts < max_attempts) × (j'.status ≡ failed))
            ⊎ ((max_attempts ≤ job.attempts) × (j'.status ≡ dead))))
IsEnded job (ends_uploaded loc) j j' =
    ((j.id ≢ job.id) × (j' ≡ j))
    ⊎ ((j.id ≡ job.id) × (j'.status ≡ succeeded) × (j'.output_location ≡ loc))

-- Row by row.
abbrev pub AreEnded : SdkJob → Ending → List SdkJob → List SdkJob → Type 0
AreEnded job ending [] [] = Unit
AreEnded job ending [] (j' ∷ rows') = ⊥
AreEnded job ending (j ∷ rows) [] = ⊥
AreEnded job ending (j ∷ rows) (j' ∷ rows') =
    IsEnded job ending j j' × AreEnded job ending rows rows'

other_id : (a b : Bytes) → (a == b) ≡ false → a ≢ b
other_id a b h e = cc (h, (bytes_beq_iff a b).1 e)

failed_status-cases :
    (n : ℕ)
    → ((n < max_attempts) × (failed_status n ≡ failed))
      ⊎ ((max_attempts ≤ n) × (failed_status n ≡ dead))
failed_status-cases n = elim (Bool-cases (leb max_attempts n)) [
  | inl e ↦ rw e (inr (ground (arith, e), refl))
  | inr e ↦ rw e (inl (ground (arith, e), refl))
]

mark_failed-AreEnded :
    (job : SdkJob) (message : Bytes) (now : ℕ) (rows : List SdkJob)
    → AreEnded job (ends_broken message) rows (mark_failed job.id message job.attempts now rows)
unfolding mark_failed
mark_failed-AreEnded job message now [] = tt
mark_failed-AreEnded job message now (j ∷ rows) = (
  elim (Bool-cases (j.id == job.id)) [
    | inl e ↦ rw e (inr ((bytes_beq_iff j.id job.id).0 e, refl, failed_status-cases job.attempts))
    | inr e ↦ rw e (inl (other_id j.id job.id e, refl))
  ],
  mark_failed-AreEnded job message now rows,
)

mark_succeeded-AreEnded :
    (job : SdkJob) (loc : Bytes) (now : ℕ) (rows : List SdkJob)
    → AreEnded job (ends_uploaded loc) rows (mark_succeeded job.id loc now rows)
unfolding mark_succeeded
mark_succeeded-AreEnded job loc now [] = tt
mark_succeeded-AreEnded job loc now (j ∷ rows) = (
  elim (Bool-cases (j.id == job.id)) [
    | inl e ↦ rw e (inr ((bytes_beq_iff j.id job.id).0 e, refl, refl))
    | inr e ↦ rw e (inl (other_id j.id job.id e, refl))
  ],
  mark_succeeded-AreEnded job loc now rows,
)

abbrev pub is_uploaded : Ending → Bool
is_uploaded (ends_broken message) = false
is_uploaded (ends_uploaded loc) = true

-- The notification is about the job, and says how it ended.
abbrev pub Concerns : SdkJob → Bool → Notification → Type 0
Concerns job success n = (n.job_id ≡ job.id) × (n.succeeded ≡ success)

notify-few :
    (job : SdkJob) (c : Option Commit) (message : Bytes)
    → (length (notify_job_outcome job c message) ≤ 1)
      × All (Concerns job (message == [])) (notify_job_outcome job c message)
unfolding notify_job_outcome notification
notify-few job none message = (omega arith, tt)
notify-few job (some c) message = elim (Bool-cases (c.created_by_user_id == [])) [
  | inl e ↦ rw e (omega arith, tt)
  | inr e ↦ elim (Bool-cases (message == [])) [
    | inl f ↦ rw (e, f) (omega arith, ((refl, refl), tt))
    | inr f ↦ rw (e, f) (omega arith, ((refl, refl), tt))
  ]
]

-- The notifications of the second tables are those of the first and at most one more, which is
-- about the job and says how it ended.
abbrev pub AreTold : SdkJob → Bool → JobTables → JobTables → Type 0
AreTold job success t t' =
    (sent : List Notification) × (t'.notifications ≡ t.notifications ++ sent)
    × (length sent ≤ 1)
    × All (Concerns job success) sent

tell_one :
    (job : SdkJob) (success : Bool) (ns : List Notification) (fs : List (Option DbError))
    (t : JobTables)
    → length ns ≤ 1
    → All (Concerns job success) ns
    → let (reply, (gs, t')) = tell ns (fs, t) in
      (reply ≡ ok tt) × (t'.rows ≡ t.rows) × AreTold job success t t'
unfolding tell ask
tell_one job success [] fs t h about =
    (refl, refl, ([], append_nil t.notifications, omega arith, tt))
tell_one job success (n ∷ []) [] t h (a, u) = (refl, refl, (n ∷ [], refl, omega arith, (a, tt)))
tell_one job success (n ∷ []) (none ∷ fs) t h (a, u) =
    (refl, refl, (n ∷ [], refl, omega arith, (a, tt)))
tell_one job success (n ∷ []) (some e ∷ fs) t h about =
    (refl, refl, ([], append_nil t.notifications, omega arith, tt))
tell_one job success (n ∷ m ∷ ns) fs t h about = absurd (omega (arith, h))

-- The rows after the write that ends the job, or the rows as they were where that write failed.
abbrev pub AreWritten : SdkJob → Ending → List (Option DbError) → List SdkJob → List SdkJob → Type 0
AreWritten job ending fs rows rows' =
    ((next_works fs ≡ true) × AreEnded job ending rows rows')
    ⊎ ((next_works fs ≡ false) × (rows' ≡ rows))

-- What a write that ends the job leaves, with the creation of the notifications after it.
write-ends :
    (job : SdkJob) (ending : Ending) (mark : List SdkJob → List SdkJob) (ns : List Notification)
    (fs : List (Option DbError)) (t : JobTables)
    → ((rows : List SdkJob) → AreEnded job ending rows (mark rows))
    → length ns ≤ 1
    → All (Concerns job (is_uploaded ending)) ns
    → let (reply, (gs, t')) = (ask (writes (on_rows mark)) >>= λ m. tell ns) (fs, t) in
      (reply ≡ ok tt)
      × AreWritten job ending fs t.rows t'.rows
      × AreTold job (is_uploaded ending) t t'
unfolding ask
write-ends job ending mark ns [] t h few about =
    let (ended, kept, told) = tell_one job _ ns [] (on_rows mark t) few about in
    (ended, inl (refl, rw kept (h t.rows)), told)
write-ends job ending mark ns (none ∷ fs) t h few about =
    let (ended, kept, told) = tell_one job _ ns fs (on_rows mark t) few about in
    (ended, inl (refl, rw kept (h t.rows)), told)
write-ends job ending mark ns (some e ∷ fs) t h few about =
    let (ended, kept, told) = tell_one job _ ns fs t few about in (ended, inr (refl, kept), told)

finish-ends :
    (tools : Tools) (job : SdkJob) (now : ℕ) (c : Option Commit) (ending : Ending)
    (fs : List (Option DbError)) (t : JobTables)
    → IsSaid ending
    → let (reply, (gs, t')) = finish tools job now c ending (fs, t) in
      (reply ≡ ok tt)
      × AreWritten job ending fs t.rows t'.rows
      × AreTold job (is_uploaded ending) t t'
unfolding finish bytes_beq
finish-ends tools job now c (ends_broken message) fs t said =
    let (few, about) = notify-few job c message in
    write-ends job (ends_broken message) (mark_failed job.id message job.attempts now)
      (notify_job_outcome job c message) fs t (λ rows. mark_failed-AreEnded job message now rows)
      few (rw said at about)
finish-ends tools job now c (ends_uploaded loc) fs t said =
    let (few, about) = notify-few job c [] in
    write-ends job (ends_uploaded loc) (mark_succeeded job.id loc now) (notify_job_outcome job c [])
      fs t (λ rows. mark_succeeded-AreEnded job loc now rows) few about

-- Wherever a step of the work fails, and whichever statement does, processing a job ends without an
-- error of its own. The job ends uploaded, with the location of the upload, exactly if every step
-- of the work went well. If the write of this end works, the rows of the job have the status
-- succeeded and this location, or else a message and the status failed, or dead where no attempts
-- are left, and other rows are as before; if that write fails, all rows are as before. At most one notification is added, which
-- is about this job and says whether it ended uploaded.
pub process_ends :
    (tools : Tools) (job : SdkJob) (now : ℕ) (fs : List (Option DbError)) (t : JobTables)
    → let (reply, (gs, t')) = process tools job now (fs, t) in
      (reply ≡ ok tt)
      × ((ending : Ending) × IsOutcome tools job ending
          × AreWritten job ending fs t.rows t'.rows
          × AreTold job (is_uploaded ending) t t')
unfolding process
process_ends tools job now fs t =
    let w = work tools job (tools.get_commit job.commit_id) in
    let said = work-IsSaid tools job (tools.get_commit job.commit_id) in
    let (ended, written, told) = finish-ends tools job now w.0 w.1 fs t said in
    (ended, (w.1, work-IsOutcome tools job, written, told))
