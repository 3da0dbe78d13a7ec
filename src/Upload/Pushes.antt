-- ===== src/Upload/Pushes.antt =====
-- What an upload needs and what it leaves behind, from its first check to its last commit.
use hades.Effects.{World, return, ◌>>=◌}
use hades.Effects.Laws.{
  Ends, Triple, Triple->>=, Triple-conclude, Triple-consult, Triple-fact, Triple-fail,
  Triple-forget, Triple-return, Triple-run, Triple-weaken,
}
use hades.Prelude.{
  All, Bool, Bool-cases, List, Option, [], ap, append_nil, false, inl, inr, map, none, refl, some,
  true, ◌++◌, ◌∙◌, ◌∷◌, ◌≡◌, ◌⊎◌,
}
use hades.Result.{Result, err, err_not_ok, ok, permission_denied}
use hades.Constants.{CanResponse, Policy}
use hades.Interceptor.Stores.{User}
use hades.Upload.Registry.{CommitRow, Registry}
use hades.Upload.Request.{UploadContent, UploadEnv, check_contents, push_policy}
use hades.Upload.Prepare.{Prepared, allowed_push, authorize_push}
use hades.Upload.Landing.{Landed, batches}
use hades.Upload.Rounds.{land_all-ends}
use hades.Upload.Accounts.{Answered, ArePlans, IsAsked, plans-Answered, plans-IsAsked}
use hades.Upload.Plans.{Untouched, prepare_all-ArePlans}
use hades.Upload.Write.{known_commits, land_all, upload, upload_as, work_items}

module _ (env : UploadEnv) (r0 : Registry) where
  -- The push was allowed for every content: the authorization server said so.
  abbrev pub Granted : User → List UploadContent → Type 0
  Granted user [] = Unit
  Granted user (c ∷ cs) =
      (answer : CanResponse) × (env.batch_can r0 (map (push_policy user) (c ∷ cs)) ≡ ok answer)
      × (answer.allowed ≡ true)

  abbrev pub Permitted : Option User → List UploadContent → Type 0
  Permitted none contents = ⊥
  Permitted (some user) contents = (check_contents env contents ≡ ok tt) × Granted user contents

  -- How an upload ends that returns an error.
  abbrev pub Stopped : Option User → List UploadContent → Registry → Type 0
  Stopped user contents r =
      Untouched env r0 r
      ⊎ (Permitted user contents
          × ((landed : List CommitRow) × All (IsAsked env r0 contents) landed
              × Landed env r0 landed r))

  -- How an upload ends that returns commits.
  abbrev pub Pushed : Option User → List UploadContent → List CommitRow → Registry → Type 0
  Pushed user contents cs r =
      Permitted user contents
      × ((before : List CommitRow) × (landed : List CommitRow) × (cs ≡ before ++ landed)
          × Answered env r0 contents before landed
          × Landed env r0 landed r)

  allowed_push-ok :
      (ps : List Policy) (o : Result CanResponse)
      → allowed_push ps o ≡ ok tt
      → (answer : CanResponse) × (o ≡ ok answer) × (answer.allowed ≡ true)
  allowed_push-ok ps (err c) h = absurd (err_not_ok _ _ h)
  allowed_push-ok ps (ok answer) h = elim (Bool-cases answer.allowed) [
    | inl e ↦ (answer, refl, e)
    | inr e ↦ absurd (err_not_ok permission_denied tt (rw e at h))
  ]

  authorize_push-ends :
      (user : User) (contents : List UploadContent)
      → Triple
          (Untouched env r0)
          (authorize_push env user contents)
          (Untouched env r0)
          (λ u r. (Untouched env r0) r × Granted user contents)
  unfolding authorize_push
  authorize_push-ends user [] = Triple-return _ _ _ _ (λ r h. (h, tt))
  authorize_push-ends user (c ∷ cs) =
      Triple-conclude _ _ _ _ _
        (λ u r (same, h).
          (same, allowed_push-ok (map (push_policy user) (c ∷ cs)) _ (granted r same _ h)))
        (Triple-consult (Untouched env r0) (λ r.
          allowed_push (map (push_policy user) (c ∷ cs))
            (env.batch_can r (map (push_policy user) (c ∷ cs)))))
    where
      granted :
          (r : Registry) (same : (Untouched env r0) r) (u : Unit {0})
          → allowed_push
              (map (push_policy user) (c ∷ cs))
              (env.batch_can r (map (push_policy user) (c ∷ cs)))
            ≡ ok u
          → allowed_push
              (map (push_policy user) (c ∷ cs))
              (env.batch_can r0 (map (push_policy user) (c ∷ cs)))
            ≡ ok tt
      granted r same u h = rw (← same) h

  Landed-unchanged : (r : Registry) → Untouched env r0 r → Landed env r0 [] r
  unfolding Landed
  Landed-unchanged r h = (
    ap (λ x. x.tables.commits) h ∙ append_nil r0.tables.commits,
    ap (λ x. x.tables.jobs) h
        ∙ append_nil r0.tables.jobs
        ∙ ap (λ l. r0.tables.jobs ++ l) (none_for env.builds_sdks),
    ap (λ x. x.tables.modules) h,
  )
    where
      none_for : (b : Bool) → [] ≡ batches b []
      none_for true = refl
      none_for false = refl

  written_as-ends :
      (user : User) (contents : List UploadContent) (ps : List Prepared)
      → Permitted (some user) contents
      → ArePlans env r0 contents ps
      → Triple
          (Untouched env r0)
          (land_all env user (work_items ps) [] >>= (λ landed. return (known_commits ps ++ landed)))
          (Stopped (some user) contents)
          (Pushed (some user) contents)
  written_as-ends user contents ps permitted plans =
      Triple->>= _ _ _ _ _ _
        (Triple-weaken (Landed env r0 []) _ _ _ _ Landed-unchanged (
          Triple-forget _ _ _ _ _
            (λ r (done, rest, ks, split, of, h).
              inr
                (permitted, (ks, plans-IsAsked env r0 contents ps done rest ks plans split of, h)))
            (land_all-ends env r0 user (work_items ps) [])))
        (λ landed. Triple-return _ _ _ _ (λ r (ks, same, of, h). (
          permitted,
          (
            known_commits ps,
            ks,
            ap (λ l. known_commits ps ++ l) same,
            plans-Answered env r0 contents ps ks plans of,
            h,
          ),
        )))

  upload_as-ends :
      (user : User) (contents : List UploadContent)
      → Triple
          (Untouched env r0)
          (upload_as env user contents)
          (Stopped (some user) contents)
          (Pushed (some user) contents)
  unfolding upload_as
  upload_as-ends user contents =
      Triple->>= _ _ _ _ _ _
        (Triple-forget _ _ _ _ _ (λ r h. inl h)
          (Triple-consult (Untouched env r0) (λ r. check_contents env contents)))
        (λ u. Triple-fact (Untouched env r0) _ _ (check_contents env contents ≡ ok u) _ (λ valid.
          Triple->>= _ _ _ _ _ _
            (Triple-forget _ _ _ _ _ (λ r h. inl h) (authorize_push-ends user contents))
            (λ v. Triple-fact (Untouched env r0) _ _ (Granted user contents) _ (λ granted.
              Triple->>= _ _ _ _ _ _
                (Triple-forget _ _ _ _ _ (λ r h. inl h) (prepare_all-ArePlans env r0 contents))
                (λ ps.
                  Triple-fact (Untouched env r0) _ _ (ArePlans env r0 contents ps) _
                    (λ plans. written_as-ends user contents ps (valid, granted) plans))))))

  upload-ends :
      (user : Option User) (contents : List UploadContent)
      → Triple
          (Untouched env r0)
          (upload env user contents)
          (Stopped user contents)
          (Pushed user contents)
  unfolding upload
  upload-ends none contents = Triple-fail _ _ _ _ (λ r h. inl h)
  upload-ends (some user) contents = upload_as-ends user contents

-- Whichever statements fail, an upload that returns commits was permitted: somebody is signed in,
-- every content has valid paths and keeps the limits, and the authorization server allowed a push
-- under the owner and name of every reference. It answers every content with one commit: with one
-- that was in the table, or with one that it added; those that were there come first, and both in
-- the order of their contents. The commit is of the digest of the content's files, and of the
-- module of the name that was asked for, or, where the reference has an identifier, of the module
-- with that identifier. The table of commits has grown by exactly the added ones and the table of
-- jobs by the jobs of each, if SDKs are built. An upload that returns an error has changed nothing,
-- or it was permitted and has added commits of some of its contents in this way, each with its jobs.
pub upload_all_or_some :
    (env : UploadEnv) (user : Option User) (contents : List UploadContent) (w : World Registry)
    → Ends
        (Stopped env w.1 user contents)
        (Pushed env w.1 user contents)
        (upload env user contents w)
upload_all_or_some env user contents w =
    Triple-run _ _ _ (upload env user contents) w (upload-ends env w.1 user contents) refl
