-- ===== src/Upload/Accounts.antt =====
-- Which commit answers which content of an upload.
use hades.Effects.{replied}
use hades.Effects.Laws.{found_or_none-replied}
use hades.Prelude.{
  All, Bool-cases, Bytes, List, [], ap, arith, bytes_beq_iff, inl, inr, refl, some, some_injective,
  ◌++◌, ◌==◌, ◌∷◌, ◌≡◌, ◌≢◌, ◌⊎◌, nat_eq, bytes_eq, string_eq,
}
use hades.Text.{is_empty, split}
use hades.Text.Laws.{is_empty_iff}
use hades.Upload.Registry.{
  CommitRow, Registry, UploadModule, commit_by_digest, find_module, has_digest,
}
use hades.Upload.Request.{UploadContent, UploadEnv, WorkItem}
use hades.Upload.Prepare.{
  Prepared, get_commit_by_ref, get_module_by_ref, known, module_by_id, uploaded_files, work,
}
use hades.Upload.Write.{known_commits, work_items}

-- The value is in the list.
abbrev pub Holds {ℓ} : {A : Type ℓ} → A → List A → Type ℓ
Holds {A = A} x xs = (before : List A) × (after : List A) × (xs ≡ before ++ x ∷ after)

Holds-later {ℓ} : {A : Type ℓ} (x y : A) (xs : List A) → Holds x xs → Holds x (y ∷ xs)
Holds-later x y xs (before, after, e) = (y ∷ before, after, ap (λ l. y ∷ l) e)

module _ (env : UploadEnv) (r0 : Registry) where
  -- The module that a content is for: the one of the name in the reference, for which the push was
  -- asked, or, for a reference with an identifier, the one of that identifier.
  abbrev pub IsTarget : UploadContent → UploadModule → Type 0
  IsTarget c m =
      Holds m r0.tables.modules
      × (((c.module_ref.id ≡ []) × (m.name ≡ c.module_ref.owner ++ b'/' ∷ c.module_ref.name))
          ⊎ ((c.module_ref.id ≢ []) × (m.id ≡ c.module_ref.id)))

  -- The digest of the files that the content leaves in the module.
  abbrev pub IsDigest : UploadContent → UploadModule → Bytes → Type 0
  IsDigest c m digest =
      env.digest (uploaded_files (get_commit_by_ref c.module_ref m r0) c.files) ≡ some digest

  -- A commit is of the module that the content is for, with the digest of its files.
  abbrev pub IsFor : UploadContent → CommitRow → Type 0
  IsFor c k = (m : UploadModule) × IsTarget c m × (k.module_id ≡ m.id) × IsDigest c m k.digest

  -- Every content is answered by one commit, in their order: by a commit that was there, or by one
  -- that landed.
  abbrev pub Answered : List UploadContent → List CommitRow → List CommitRow → Type 0
  Answered [] before landed = (before ≡ []) × (landed ≡ [])
  Answered (c ∷ cs) before landed =
      ((k : CommitRow) × (rest : List CommitRow) × (before ≡ k ∷ rest)
        × Holds k r0.tables.commits
        × IsFor c k
        × Answered cs rest landed)
      ⊎ ((k : CommitRow) × (rest : List CommitRow) × (landed ≡ k ∷ rest)
          × IsFor c k
          × Answered cs before rest)

  -- What prepare makes of a content.
  abbrev pub IsPlan : UploadContent → Prepared → Type 0
  IsPlan c (known k) = Holds k r0.tables.commits × IsFor c k
  IsPlan c (work w) = IsTarget c w.target × IsDigest c w.target w.digest

  abbrev pub ArePlans : List UploadContent → List Prepared → Type 0
  ArePlans [] [] = Unit
  ArePlans [] (p ∷ ps) = ⊥
  ArePlans (c ∷ cs) [] = ⊥
  ArePlans (c ∷ cs) (p ∷ ps) = IsPlan c p × ArePlans cs ps

  -- Commits of work items, in their order.
  abbrev pub AreOf : List WorkItem → List CommitRow → Type 0
  AreOf [] [] = Unit
  AreOf [] (k ∷ ks) = ⊥
  AreOf (w ∷ ws) [] = ⊥
  AreOf (w ∷ ws) (k ∷ ks) = (k.module_id ≡ w.target.id) × (k.digest ≡ w.digest) × AreOf ws ks

  pub plans-Answered :
      (cs : List UploadContent) (ps : List Prepared) (landed : List CommitRow)
      → ArePlans cs ps
      → AreOf (work_items ps) landed
      → Answered cs (known_commits ps) landed
  unfolding known_commits work_items
  plans-Answered [] [] [] p a = (refl, refl)
  plans-Answered [] [] (k ∷ ks) p a = absurd a
  plans-Answered [] (p ∷ ps) landed h a = absurd h
  plans-Answered (c ∷ cs) [] landed h a = absurd h
  plans-Answered (c ∷ cs) (known k ∷ ps) landed ((there, for), h) a =
      inl (k, known_commits ps, refl, there, for, plans-Answered cs ps landed h a)
  plans-Answered (c ∷ cs) (work w ∷ ps) [] h a = absurd a
  plans-Answered (c ∷ cs) (work w ∷ ps) (k ∷ ks) ((target, digest), h) (e, f, a) =
      inr (k, ks, refl, (w.target, target, e, rw f digest), plans-Answered cs ps ks h a)

  -- Somebody asked for it.
  abbrev pub IsAsked : List UploadContent → CommitRow → Type 0
  IsAsked contents k = (c : UploadContent) × Holds c contents × IsFor c k

  find_module-Holds :
      (name : Bytes) (ms : List UploadModule) (m : UploadModule)
      → find_module name ms ≡ some m
      → Holds m ms × (m.name ≡ name)
  unfolding find_module
  find_module-Holds name [] m h = cc
  find_module-Holds name (x ∷ ms) m h = elim (Bool-cases (x.name == name)) [
    | inl e ↦
        let same : x ≡ m = some_injective x m (rw e at h) in
        (([], ms, ap (λ y. y ∷ ms) same), rw (← same) ((bytes_beq_iff x.name name).0 e))
    | inr e ↦
        let (there, named) = find_module-Holds name ms m (rw e at h) in
        (Holds-later m x ms there, named)
  ]

  module_by_id-Holds :
      (id : Bytes) (ms : List UploadModule) (m : UploadModule)
      → module_by_id id ms ≡ some m
      → Holds m ms × (m.id ≡ id)
  unfolding module_by_id
  module_by_id-Holds id [] m h = cc
  module_by_id-Holds id (x ∷ ms) m h = elim (Bool-cases (x.id == id)) [
    | inl e ↦
        let same : x ≡ m = some_injective x m (rw e at h) in
        (([], ms, ap (λ y. y ∷ ms) same), rw (← same) ((bytes_beq_iff x.id id).0 e))
    | inr e ↦
        let (there, named) = module_by_id-Holds id ms m (rw e at h) in
        (Holds-later m x ms there, named)
  ]

  pub commit_by_digest-Holds :
      (id digest : Bytes) (ks : List CommitRow) (k : CommitRow)
      → commit_by_digest id digest ks ≡ some k
      → Holds k ks × (k.module_id ≡ id) × (k.digest ≡ digest)
  unfolding commit_by_digest
  commit_by_digest-Holds id digest [] k h = cc
  commit_by_digest-Holds id digest (x ∷ ks) k h = elim (Bool-cases (has_digest id digest x)) [
    | inl e ↦
        let same : x ≡ k = some_injective x k (rw e at h) in
        (
          ([], ks, ap (λ y. y ∷ ks) same),
          rw (← same)
              (ground (arith, e, bytes_beq_iff x.module_id id, bytes_beq_iff x.digest digest)),
          rw (← same)
              (ground (arith, e, bytes_beq_iff x.module_id id, bytes_beq_iff x.digest digest)),
        )
    | inr e ↦
        let (there, named, same) = commit_by_digest-Holds id digest ks k (rw e at h) in
        (Holds-later k x ks there, named, same)
  ]

  pub get_module_by_ref-IsTarget :
      (c : UploadContent) (m : UploadModule)
      → get_module_by_ref c.module_ref r0 ≡ replied m
      → IsTarget c m
  unfolding get_module_by_ref
  get_module_by_ref-IsTarget c m h = elim (Bool-cases (is_empty c.module_ref.id)) [
    | inl e ↦
        let (there, named) = find_module-Holds _ _ m (found_or_none-replied _ _ (rw e at h)) in
        (there, inl ((is_empty_iff c.module_ref.id).0 e, named))
    | inr e ↦
        let (there, named) = module_by_id-Holds _ _ m (found_or_none-replied _ _ (rw e at h)) in
        (there, inr (λ x. cc (e, (is_empty_iff c.module_ref.id).1 x), named))
  ]

  abbrev WorkAsked : List UploadContent → WorkItem → Type 0
  WorkAsked contents w =
      (c : UploadContent) × Holds c contents × IsTarget c w.target × IsDigest c w.target w.digest

  plans-WorkAsked :
      (contents cs : List UploadContent) (ps : List Prepared)
      → ((c : UploadContent) → Holds c cs → Holds c contents)
      → ArePlans cs ps
      → All (WorkAsked contents) (work_items ps)
  unfolding work_items
  plans-WorkAsked contents [] [] sub h = tt
  plans-WorkAsked contents [] (p ∷ ps) sub h = absurd h
  plans-WorkAsked contents (c ∷ cs) [] sub h = absurd h
  plans-WorkAsked contents (c ∷ cs) (known k ∷ ps) sub (x, h) =
      plans-WorkAsked contents cs ps (λ d there. sub d (Holds-later d c cs there)) h
  plans-WorkAsked contents (c ∷ cs) (work w ∷ ps) sub ((target, digest), h) = (
    (c, sub c ([], cs, refl), target, digest),
    plans-WorkAsked contents cs ps (λ d there. sub d (Holds-later d c cs there)) h,
  )

  commits-IsAsked :
      (contents : List UploadContent) (done rest : List WorkItem) (ks : List CommitRow)
      → All (WorkAsked contents) (done ++ rest)
      → AreOf done ks
      → All (IsAsked contents) ks
  commits-IsAsked contents [] rest [] h a = tt
  commits-IsAsked contents [] rest (k ∷ ks) h a = absurd a
  commits-IsAsked contents (w ∷ done) rest [] h a = absurd a
  commits-IsAsked contents (w ∷ done) rest (k ∷ ks) ((c, there, target, digest), h) (e, f, a) =
      ((c, there, (w.target, target, e, rw f digest)), commits-IsAsked contents done rest ks h a)

  -- The commits of some of the work are of contents of the upload.
  pub plans-IsAsked :
      (cs : List UploadContent) (ps : List Prepared) (done rest : List WorkItem)
      (ks : List CommitRow)
      → ArePlans cs ps
      → work_items ps ≡ done ++ rest
      → AreOf done ks
      → All (IsAsked cs) ks
  plans-IsAsked cs ps done rest ks plans split of =
      commits-IsAsked cs done rest ks (rw split at (plans-WorkAsked cs cs ps (λ c h. h) plans)) of
