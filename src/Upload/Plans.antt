-- ===== src/Upload/Plans.antt =====
-- What `prepare` makes of the contents.
use hades.Effects.{Action, replied, return, ◌>>=◌}
use hades.Effects.Laws.{
  Preserves, Preserves-consult, Preserves-reads, Triple, Triple->>=, Triple-ask_reply,
  Triple-consult, Triple-fact, Triple-reads_at, Triple-return, replied_injective,
}
use hades.Prelude.{Bytes, List, Option, [], ap, none, some, ◌∙◌, ◌∷◌, ◌≡◌}
use hades.Result.{err_not_ok, ok}
use hades.Paths.{File}
use hades.Auth.Recovery.{ok_injective}
use hades.Upload.Registry.{CommitRow, Registry, UploadModule, commit_by_digest}
use hades.Upload.Request.{UploadContent, UploadEnv}
use hades.Upload.Prepare.{
  checked_work, digested, get_commit_by_ref, get_module_by_ref, prepare, prepare_all,
  previous_files, read_head, uploaded_files,
}
use hades.Upload.Accounts.{
  ArePlans, IsDigest, IsPlan, IsTarget, commit_by_digest-Holds, get_module_by_ref-IsTarget,
}

-- Before its first write an upload only reads.
module _ (P : Registry → Type 0) (env : UploadEnv) where
  keeping :
      {A B : Type 0} (first : Action Registry A) (rest : A → Action Registry B)
      → Preserves P first
      → ((a : A) → Preserves P (rest a))
      → Preserves P (first >>= rest)
  keeping first rest h k = Triple->>= P P (λ a. P) (λ b. P) first rest h k

  keeping_value : {A : Type 0} (a : A) → Preserves P (return a)
  keeping_value a = Triple-return P P (λ x. P) a (λ s p. p)

  pub read_head-Preserves : (m : UploadModule) → Preserves P (read_head m)
  unfolding read_head
  read_head-Preserves m =
      keeping _ _ (Triple-ask_reply P P (λ a. P) (λ a. P) _ (λ s p. p) (λ s e p. p))
        (λ reply. Preserves-consult P _)

  previous_files-Preserves :
      (m : UploadModule) (c : Option CommitRow) → Preserves P (previous_files env m c)
  unfolding previous_files
  previous_files-Preserves m none = keeping_value []
  previous_files-Preserves m (some c) =
      keeping _ _ (Preserves-reads P _ _) (λ blobs. keeping_value _)

module _ (env : UploadEnv) (r0 : Registry) where
  abbrev pub Untouched : Registry → Type 0
  Untouched r = r ≡ r0

  checked_work-IsPlan :
      (c : UploadContent) (m : UploadModule) (files previous : List File)
      (digest previous_head expected_head : Bytes) (same : Option CommitRow)
      → IsTarget env r0 c m
      → IsDigest env r0 c m digest
      → commit_by_digest m.id digest r0.tables.commits ≡ same
      → Triple Untouched
          (checked_work env m files previous digest previous_head expected_head same)
          Untouched
          (λ p r. Untouched r × IsPlan env r0 c p)
  unfolding checked_work
  checked_work-IsPlan c m files previous digest previous_head expected_head none target d h =
      Triple->>= _ _ (λ checks. Untouched) _ _ _ (Preserves-consult Untouched _)
        (λ checks. Triple-return _ _ _ _ (λ r u. (u, (target, d))))
  checked_work-IsPlan c m files previous digest previous_head expected_head (some k) target d h =
      let (there, named, same) = commit_by_digest-Holds env r0 m.id digest r0.tables.commits k h in
      Triple-return _ _ _ _ (λ r u. (u, (there, (m, target, named, rw same d))))

  digested-ok : (o : Option Bytes) (d : Bytes) → digested o ≡ ok d → o ≡ some d
  digested-ok none d h = absurd (err_not_ok _ _ h)
  digested-ok (some x) d h = ap some (ok_injective x d h)

  prepare-IsPlan :
      (c : UploadContent)
      → Triple Untouched (prepare env c) Untouched (λ p r. Untouched r × IsPlan env r0 c p)
  unfolding prepare
  prepare-IsPlan c =
      Triple->>= _ _ _ _ _ _ (Triple-reads_at r0 _ (get_module_by_ref c.module_ref)) (λ m.
        Triple-fact _ _ _ _ _ (λ found_it.
          Triple->>= _ _ _ _ _ _
            (Triple-reads_at r0 _ (λ r. replied (get_commit_by_ref c.module_ref m r)))
            (λ latest. Triple-fact _ _ _ _ _ (λ last.
              Triple->>= _ _ (λ x. Untouched) _ _ _ (read_head-Preserves Untouched env m)
                (λ expected_head.
                  Triple->>= _ _ (λ x. Untouched) _ _ _
                    (previous_files-Preserves Untouched env m latest)
                    (λ previous.
                      Triple->>= _ _ (λ x. Untouched) _ _ _ (Preserves-consult Untouched _)
                        (λ limited.
                          Triple->>= _ _ _ _ _ _
                            (Triple-consult Untouched
                              (λ r. digested (env.digest (uploaded_files latest c.files))))
                            (λ digest. Triple-fact _ _ _ _ _ (λ made.
                              Triple->>= _ _ _ _ _ _
                                (Triple-reads_at r0 _
                                  (λ r. replied (commit_by_digest m.id digest r.tables.commits)))
                                (λ same. Triple-fact _ _ _ _ _ (λ looked.
                                  checked_work-IsPlan c m _ previous digest _ expected_head same
                                    (get_module_by_ref-IsTarget env r0 c m found_it)
                                    (ap (λ x. env.digest (uploaded_files x c.files))
                                        (replied_injective _ _ last)
                                      ∙ digested-ok _ digest made)
                                    (replied_injective _ _ looked))))))))))))

  pub prepare_all-ArePlans :
      (cs : List UploadContent)
      → Triple Untouched
          (prepare_all env cs)
          Untouched
          (λ ps r. Untouched r × ArePlans env r0 cs ps)
  unfolding prepare_all
  prepare_all-ArePlans [] = Triple-return _ _ _ _ (λ r h. (h, tt))
  prepare_all-ArePlans (c ∷ cs) = Triple->>= _ _ _ _ _ _ (prepare-IsPlan c) (λ p.
      Triple-fact _ _ _ _ _ (λ plan.
        Triple->>= _ _ _ _ _ _ (prepare_all-ArePlans cs)
          (λ ps. Triple-return _ _ _ _ (λ r (u, plans). (u, (plan, plans))))))
