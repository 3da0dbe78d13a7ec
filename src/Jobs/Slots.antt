-- ===== src/Jobs/Slots.antt =====
-- How many jobs a worker has in flight: the slots of a poll.
use hades.Prelude.{
  All, Bool-cases, Bytes, List, Option, [], arith, inl, inr, keep, length, length-take, ltb, map,
  min, none, refl, some, suc, true, zero, ℕ, ◌&&◌, ◌+◌, ◌-◌, ◌==◌, ◌∷◌, ◌≡◌, ◌≤◌, nat_eq, bytes_eq,
  string_eq,
}
use hades.Effects.{Action, World, call, from_db, reads, replied}
use hades.Effects.Laws.{
  Ends, Triple, Triple->>=, Triple-call, Triple-conclude, Triple-return, Triple-run,
}
use hades.Result.{Result, err, ok}
use hades.Jobs.Table.{
  SdkJob, add_claim, claim_ids, claim_one, claim_pending, claim_statement, claimable, is_pending,
  is_running, max_attempts, read_claim, select_pending,
}
use hades.Jobs.Worker.{acquire_available, poll, start_jobs}

acquire_available_lem :
    (max taken capacity : ℕ) → acquire_available max taken capacity ≡ min max (capacity - taken)
unfolding acquire_available
acquire_available_lem zero taken capacity = omega arith
acquire_available_lem (suc max) taken capacity =
    ground (arith, acquire_available_lem max (suc taken) capacity)

abbrev pub IsRunning : SdkJob → Type 0
IsRunning j = is_running j.status ≡ true

abbrev IsClaim : Option SdkJob → Type 0
IsClaim none = Unit
IsClaim (some j) = IsRunning j

claim_one-IsClaim :
    (id : Bytes) (now : ℕ) (rows : List SdkJob) → IsClaim ((claim_one id now rows).1)
unfolding claim_one
claim_one-IsClaim id now [] = tt
claim_one-IsClaim id now (j ∷ rows) = elim (Bool-cases (claimable id j)) [
  | inl e ↦ rw e refl
  | inr e ↦ rw e (claim_one-IsClaim id now rows)
]

add_claim-IsRunning :
    (job : Option SdkJob) (jobs : List SdkJob)
    → IsClaim job
    → All IsRunning jobs
    → All IsRunning (add_claim job jobs) × (length (add_claim job jobs) ≤ length jobs + 1)
add_claim-IsRunning none jobs h hs = (hs, omega arith)
add_claim-IsRunning (some j) jobs h hs = ((h, hs), omega arith)

-- What a claim of so many identifiers answers.
abbrev AreClaimed : ℕ → List SdkJob → Type 0
AreClaimed n jobs = All IsRunning jobs × (length jobs ≤ n)

abbrev Anything : List SdkJob → Type 0
Anything rows = Unit

claim_statement-IsClaim :
    (id : Bytes) (now : ℕ)
    → Triple Anything (call from_db (claim_statement id now)) Anything (λ job rows. IsClaim job)
unfolding claim_one
claim_statement-IsClaim id now =
    Triple-call Anything Anything (λ job rows. IsClaim job) from_db (claim_statement id now)
      (λ rows h. claim_one-IsClaim id now rows) (λ rows h. tt)

read_claim-IsClaim :
    (job : Option SdkJob)
    → Triple (λ rows. IsClaim job) (read_claim job) Anything (λ found rows. IsClaim found)
read_claim-IsClaim none =
    Triple-return (λ rows. Unit) Anything (λ found rows. IsClaim found) none (λ rows h. tt)
read_claim-IsClaim (some j) =
    Triple-call (λ rows. IsClaim (some j)) Anything (λ found rows. IsClaim found) from_db
      (reads (λ (rows : List SdkJob). replied (some j))) (λ rows h. h) (λ rows h. tt)

-- A condition that does not speak of the rows can be used throughout.
given_fact :
    (X : Type 0) (action : Action (List SdkJob) (List SdkJob)) (Q : List SdkJob → Type 0)
    → (X → Triple Anything action Anything (λ jobs rows. Q jobs))
    → Triple (λ rows. X) action Anything (λ jobs rows. Q jobs)
unfolding Triple
given_fact X action Q h w x = h x w tt

claim_ids-AreClaimed :
    (ids : List Bytes) (now : ℕ)
    → Triple Anything (claim_ids ids now) Anything (λ jobs rows. AreClaimed (length ids) jobs)
unfolding claim_ids
claim_ids-AreClaimed [] now = Triple-return _ _ _ [] (λ rows h. (tt, omega arith))
claim_ids-AreClaimed (id ∷ ids) now =
    Triple->>= _ _ (λ job rows. IsClaim job) _ _ _ (claim_statement-IsClaim id now)
      (λ changed.
        Triple->>= _ _ (λ job rows. IsClaim job) _ _ _ (read_claim-IsClaim changed)
          (λ job. given_fact (IsClaim job) _ _ (λ claim.
            Triple->>= _ _ (λ jobs rows. AreClaimed (length ids) jobs) _ _ _
              (claim_ids-AreClaimed ids now)
              (λ jobs. Triple-return _ _ _ (add_claim job jobs) (λ rows h.
                let (all_running, fewer) = add_claim-IsRunning job jobs claim h.0 in
                (all_running, omega (arith, h.1, fewer)))))))

select_pending-length :
    (limit : ℕ) (rows : List SdkJob) → length (select_pending limit rows) ≤ limit
unfolding select_pending
select_pending-length limit rows = omega (
  arith,
  length-take limit (
      map (λ (j : SdkJob). j.id)
        (keep (λ j. is_pending j.status && ltb j.attempts max_attempts) rows)),
)

claim_pending-AreClaimed :
    (limit now : ℕ)
    → Triple Anything (claim_pending limit now) Anything (λ jobs rows. AreClaimed limit jobs)
unfolding claim_pending
claim_pending-AreClaimed limit now =
    Triple->>= _ _ (λ ids rows. length ids ≤ limit) _ _ _
      (Triple-call Anything Anything (λ ids rows. length ids ≤ limit) from_db
        (reads (λ (rows : List SdkJob). replied (select_pending limit rows)))
        (λ rows h. select_pending-length limit rows) (λ rows h. tt))
      (λ ids. given_fact (length ids ≤ limit) (claim_ids ids now) (AreClaimed limit) (λ few.
        Triple-conclude _ _ _ _ (claim_ids ids now) (λ jobs rows h. (h.0, omega (arith, h.1, few)))
          (claim_ids-AreClaimed ids now)))

-- What a poll must end in.
abbrev IsBounded : ℕ → ℕ → (ℕ × List SdkJob) × World (List SdkJob) → Type 0
IsBounded concurrency taken ((taken', jobs), w) =
    (taken' ≡ taken + length jobs) × (taken' ≤ concurrency) × All IsRunning jobs

start_jobs-IsBounded :
    (concurrency taken slots : ℕ) (r : Result (List SdkJob) × World (List SdkJob))
    → taken + slots ≤ concurrency
    → Ends Anything (λ jobs rows. AreClaimed slots jobs) r
    → IsBounded concurrency taken (start_jobs taken slots r)
start_jobs-IsBounded concurrency taken slots (err c, w) le h = (omega arith, omega (arith, le), tt)
start_jobs-IsBounded concurrency taken slots (ok jobs, w) le (claimed_ones, few) =
    (omega (arith, few), omega (arith, le, few), claimed_ones)

-- A poll of a worker within its concurrency, whichever statement of the claim fails, starts only
-- jobs that it has marked as running, at most as many as slots were free, and holds exactly one
-- more slot for each: never more jobs are in flight than the concurrency, and no slot is lost.
pub poll_bounded :
    (concurrency taken now : ℕ) (w : World (List SdkJob))
    → taken ≤ concurrency
    → let ((taken', jobs), w') = poll concurrency taken now w in
      (taken' ≡ taken + length jobs) × (taken' ≤ concurrency) × All IsRunning jobs
unfolding poll
poll_bounded concurrency taken now w le =
    let slots = acquire_available concurrency taken concurrency in
    let free = acquire_available_lem concurrency taken concurrency in
    let ends =
      Triple-run Anything Anything (λ jobs rows. AreClaimed slots jobs) (claim_pending slots now) w
        (claim_pending-AreClaimed slots now) tt in
    let bounded =
      start_jobs-IsBounded concurrency taken slots (claim_pending slots now w)
        (omega (arith, free, le)) ends in
    elim (Bool-cases (slots == 0)) [ inl e ↦ rw e (omega arith, le, tt) | inr e ↦ rw e bounded ]
