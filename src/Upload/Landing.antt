-- ===== src/Upload/Landing.antt =====
-- What the transaction of a commit leaves in the tables, whichever statements fail.
use hades.Effects.{Reply, Statement, failed, replied, return, writes}
use hades.Effects.Laws.{
  Triple, Triple->>=, Triple-ask_reply, Triple-fail, Triple-return, Triple-transaction_over,
  Triple-trivial,
}
use hades.Prelude.{
  Bool, Bool-cases, Bytes, List, [], any, ap, append_assoc, false, if◌then◌else◌, inl, inr, map,
  refl, sym, true, ◌&&◌, ◌++◌, ◌∙◌, ◌∷◌, ◌≡◌,
}
use hades.Upload.Registry.{
  CommitRow, JobBatch, Registry, add_jobs, create_commit, has_digest, on_tables, undo_tables,
}
use hades.Upload.Request.{UploadEnv, WorkItem}
use hades.Upload.Write.{
  batch_of, call_or_rollback, queue_jobs, record_commit, record_run, rollback, rolled_back,
}

abbrev pub batches : Bool → List CommitRow → List JobBatch
batches builds cs = if builds then map batch_of cs else []

-- The jobs that go with commits.
abbrev pub jobs_for : UploadEnv → List CommitRow → List JobBatch
jobs_for env cs = batches env.builds_sdks cs

map-append {ℓ κ} :
    {A : Type ℓ} {B : Type κ} (f : A → B) (xs ys : List A) → map f (xs ++ ys) ≡ map f xs ++ map f ys
map-append f [] ys = refl
map-append f (x ∷ xs) ys = ap (λ l. f x ∷ l) (map-append f xs ys)

batches-append :
    (before jobs : List JobBatch) (cs : List CommitRow) (c : CommitRow)
    → jobs ≡ before ++ map batch_of cs
    → jobs ++ batch_of c ∷ [] ≡ before ++ map batch_of (cs ++ c ∷ [])
batches-append before jobs cs c h =
    ap (λ l. l ++ batch_of c ∷ []) h
    ∙ append_assoc before (map batch_of cs) (batch_of c ∷ [])
    ∙ ap (λ l. before ++ l) (sym (map-append batch_of cs (c ∷ [])))

module _ (env : UploadEnv) (r0 : Registry) where
  -- The commits of the list, and nothing less, were added to the tables, each with its jobs.
  unfoldable pub Landed : List CommitRow → Registry → Type 0
  Landed cs r =
      (r.tables.commits ≡ r0.tables.commits ++ cs)
      × (r.tables.jobs ≡ r0.tables.jobs ++ jobs_for env cs)
      × (r.tables.modules ≡ r0.tables.modules)

  -- A commit is there, and not yet its jobs.
  unfoldable Entered : List CommitRow → CommitRow → Registry → Type 0
  Entered cs c r =
      (r.tables.commits ≡ r0.tables.commits ++ (cs ++ c ∷ []))
      × (r.tables.jobs ≡ r0.tables.jobs ++ jobs_for env cs)
      × (r.tables.modules ≡ r0.tables.modules)

  abbrev pub Anything : Registry → Type 0
  Anything r = Unit

  -- A statement that need not succeed, with git rolled back if it does not.
  Replied : (Registry → Type 0) → Reply (Unit {0}) → Registry → Type 0
  Replied Q (replied u) r = Q r
  Replied Q (failed e) r = Unit

  call_or_rollback-ends :
      (P Q : Registry → Type 0) (w : WorkItem) (commit_id : Bytes)
      (statement : Statement Registry (Unit {0}))
      → ((r : Registry) → P r → Replied Q (statement r).0 (statement r).1)
      → Triple P (call_or_rollback w commit_id statement) Anything (λ u. Q)
  unfolding call_or_rollback Replied
  call_or_rollback-ends P Q w commit_id statement h =
      Triple->>= _ _ (Replied Q) _ _ _
        (Triple-ask_reply _ _ (λ u. Q) (Replied Q) statement h (λ r e p. tt)) after
    where
      after :
          (reply : Reply (Unit {0}))
          → Triple (Replied Q reply) (rolled_back w commit_id reply) Anything (λ u. Q)
      after (replied u) = Triple-return _ _ _ _ (λ r p. p)
      after (failed e) =
          Triple->>= _ _ (λ u. Anything) _ _ _ (Triple-trivial (rollback w commit_id))
            (λ u. Triple-fail _ _ _ _ (λ r p. tt))

  create_commit-ends :
      (cs : List CommitRow) (c : CommitRow) (r : Registry)
      → Landed cs r
      → Replied (Entered cs c) (create_commit c r).0 (create_commit c r).1
  unfolding Replied create_commit Landed Entered
  create_commit-ends cs c r (commits, jobs, modules) =
      elim (Bool-cases (any (has_digest c.module_id c.digest) r.tables.commits)) [
        | inl e ↦ rw e tt
        | inr e ↦ rw e (
          ap (λ l. l ++ c ∷ []) commits ∙ append_assoc r0.tables.commits cs (c ∷ []),
          jobs,
          modules,
        )
      ]

  record_run-ends :
      (cs : List CommitRow) (c : CommitRow) (w : WorkItem) (commit_id : Bytes)
      → Triple (Entered cs c) (record_run env w commit_id) Anything (λ u. Entered cs c)
  unfolding record_run Entered Replied
  record_run-ends cs c w commit_id = elim (Bool-cases (env.records_runs && w.checks.ran)) [
    | inl e ↦ rw e (call_or_rollback-ends (Entered cs c) (Entered cs c) w commit_id _ (λ r p. p))
    | inr e ↦ rw e (Triple-return _ _ _ _ (λ r p. p))
  ]

  queue_jobs-ends :
      (cs : List CommitRow) (c : CommitRow) (w : WorkItem)
      → Triple (Entered cs c) (queue_jobs env w c) Anything (λ u. Landed (cs ++ c ∷ []))
  unfolding queue_jobs Entered Landed Replied
  queue_jobs-ends cs c w = queue env.builds_sdks
    where
      queue :
          (builds : Bool)
          → Triple
              (λ r.
                (r.tables.commits ≡ r0.tables.commits ++ (cs ++ c ∷ []))
                × (r.tables.jobs ≡ r0.tables.jobs ++ batches builds cs)
                × (r.tables.modules ≡ r0.tables.modules))
              (if builds
                then call_or_rollback w c.commit_hash (writes (on_tables (add_jobs (batch_of c))))
                else return tt)
              Anything
              (λ u r.
                (r.tables.commits ≡ r0.tables.commits ++ (cs ++ c ∷ []))
                × (r.tables.jobs ≡ r0.tables.jobs ++ batches builds (cs ++ c ∷ []))
                × (r.tables.modules ≡ r0.tables.modules))
      queue true = call_or_rollback-ends _ _ w c.commit_hash _ (λ r (commits, jobs, modules).
          (commits, batches-append r0.tables.jobs r.tables.jobs cs c jobs, modules))
      queue false = Triple-return _ _ _ _ (λ r p. p)

  undo_tables-Landed :
      (cs : List CommitRow) (s t : Registry) → Landed cs s → Landed cs (undo_tables s t)
  unfolding Landed
  undo_tables-Landed cs s t h = h

  -- The transaction enters the commit with its jobs, or the tables are as they were.
  pub record_commit-ends :
      (cs : List CommitRow) (w : WorkItem) (c : CommitRow)
      → Triple
          (Landed cs)
          (record_commit env w c)
          (Landed cs)
          (λ c' r. Landed (cs ++ c ∷ []) r × (c' ≡ c))
  unfolding record_commit
  record_commit-ends cs w c =
      Triple-transaction_over undo_tables (Landed cs) Anything (Landed cs) _ _
        (λ s t h u. undo_tables-Landed cs s t h) (λ s h. tt) (λ c' s h. tt)
        (Triple->>= _ _ (λ u. Entered cs c) _ _ _
          (call_or_rollback-ends _ _ w c.commit_hash _ (create_commit-ends cs c))
          (λ u.
            Triple->>= _ _ (λ v. Entered cs c) _ _ _ (record_run-ends cs c w c.commit_hash)
              (λ v.
                Triple->>= _ _ (λ x. Landed (cs ++ c ∷ [])) _ _ _ (queue_jobs-ends cs c w)
                  (λ x. Triple-return _ _ _ _ (λ r h. (h, refl))))))
