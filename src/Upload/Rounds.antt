-- ===== src/Upload/Rounds.antt =====
-- The rounds of the loop over the work items: each adds its commit with its jobs, or none.
use hades.Effects.{Action, Statement, World, ask, return}
use hades.Effects.Laws.{
  Ends, Preserves, Preserves-consult, Triple, Triple->>=, Triple-ask_reply, Triple-conclude,
  Triple-fact, Triple-fail, Triple-forget, Triple-return,
}
use hades.Text.{is_empty, split}
use hades.Prelude.{
  Bool, Bool-cases, Bytes, List, [], ap, append_assoc, append_nil, false, if◌then◌else◌, inl, inr,
  length, ltb, refl, true, ◌++◌, ◌==◌, ◌||◌, ◌∙◌, ◌∷◌, ◌≡◌, nat_eq, bytes_eq, string_eq,
}
use hades.Result.{Result, err, ok}
use hades.Interceptor.Stores.{User}
use hades.Upload.Registry.{
  CommitRow, Registry, UploadModule, head_of, move_head, put_files, rollback_commit,
}
use hades.Upload.Request.{UploadEnv, WorkItem}
use hades.Upload.Notify.{notify_commit_pushed, send, targets}
use hades.Upload.Write.{
  answer_put, check_commit_id, land, land_all, new_commit, or_partial, put, rollback,
}
use hades.Upload.Accounts.{AreOf}
use hades.Upload.Landing.{Landed, record_commit-ends}

module _ (env : UploadEnv) (r0 : Registry) where
  -- Statements on git and the notifications leave the commits and jobs alone.
  ask-Landed :
      {A : Type 0} (cs : List CommitRow) (statement : Statement Registry A)
      → ((r : Registry) → Landed env r0 cs r → Landed env r0 cs (statement r).1)
      → Preserves (Landed env r0 cs) (ask statement)
  ask-Landed cs statement h =
      Triple-ask_reply _ _ (λ a. Landed env r0 cs) (λ a. Landed env r0 cs) statement h (λ r e p. p)

  rollback-Landed :
      (cs : List CommitRow) (w : WorkItem) (commit_id : Bytes)
      → Preserves (Landed env r0 cs) (rollback w commit_id)
  unfolding rollback rollback_commit Landed
  rollback-Landed cs w commit_id =
      Triple->>= _ _ (λ u. Landed env r0 cs) _ _ _
        (ask-Landed cs _ (λ r h.
          back r h (is_empty w.previous_head)
            (is_empty commit_id || head_of w.target.name r == commit_id)))
        (λ u. Triple-return _ _ _ _ (λ r h. h))
    where
      back :
          (r : Registry) (h : Landed env r0 cs r) (a b : Bool)
          → Landed env r0 cs
              (if a then r else if b then move_head w.target.name w.previous_head r else r)
      back r h true b = h
      back r h false true = h
      back r h false false = h

  answer_put-Landed :
      (cs : List CommitRow) (w : WorkItem) (hash : Bytes) (r : Registry)
      → Landed env r0 cs r
      → Landed env r0 cs (answer_put w hash r).1
  unfolding answer_put put_files Landed
  answer_put-Landed cs w hash r h = elim (Bool-cases (head_of w.target.name r == w.expected_head)) [
    | inl e ↦ rw e h
    | inr e ↦ rw e h
  ]

  put-Landed :
      (cs landed : List CommitRow) (w : WorkItem) → Preserves (Landed env r0 cs) (put env w landed)
  unfolding put
  put-Landed cs landed w =
      Triple->>= _ _ (λ a. Landed env r0 cs) _ _ _
        (ask-Landed cs _ (λ r h. answer_put-Landed cs w _ r h)) (λ a. Preserves-consult _ _)

  check_commit_id-Landed :
      (cs : List CommitRow) (w : WorkItem) (commit_id : Bytes)
      → Preserves (Landed env r0 cs) (check_commit_id w commit_id)
  unfolding check_commit_id
  check_commit_id-Landed cs w commit_id = elim (Bool-cases (ltb (length commit_id) 32)) [
    | inl e ↦ rw e (
        Triple->>= _ _ (λ u. Landed env r0 cs) _ _ _ (rollback-Landed cs w commit_id)
          (λ u. Triple-fail _ _ _ _ (λ r h. h)))
    | inr e ↦ rw e (Triple-return _ _ _ _ (λ r h. h))
  ]

  send-ends :
      (cs : List CommitRow) (E : Registry → Type 0) (commit_id : Bytes) (users : List Bytes)
      → Triple (Landed env r0 cs) (send commit_id users) E (λ u. Landed env r0 cs)
  unfolding Landed
  send-ends cs E commit_id [] = Triple-return _ _ _ _ (λ r h. h)
  send-ends cs E commit_id (u ∷ us) =
      Triple->>= _ _ (λ reply. Landed env r0 cs) _ _ _
        (Triple-ask_reply (Landed env r0 cs) E (λ a. Landed env r0 cs) (λ a. Landed env r0 cs) _
          (λ r h. h) (λ r e h. h))
        (λ reply. Triple-return _ _ _ _ (λ r h. h))

  -- A notification never fails a push.
  notify_commit_pushed-ends :
      (cs : List CommitRow) (E : Registry → Type 0) (m : UploadModule) (c : CommitRow) (user : User)
      → Triple (Landed env r0 cs) (notify_commit_pushed env m c user) E (λ u. Landed env r0 cs)
  unfolding notify_commit_pushed
  notify_commit_pushed-ends cs E m c user = tell env.notifies
    where
      tell :
          (b : Bool)
          → Triple
              (Landed env r0 cs)
              (if b then send c.id (targets env m user.id) else return tt)
              E
              (λ u. Landed env r0 cs)
      tell true = send-ends cs E c.id (targets env m user.id)
      tell false = Triple-return _ _ _ _ (λ r h. h)

  or_partial-Ends :
      (E : Registry → Type 0) (Q : CommitRow → Registry → Type 0) (landed : List CommitRow)
      (end : Result CommitRow × World Registry)
      → Ends E Q end
      → Ends E Q (or_partial landed end)
  or_partial-Ends E Q landed (ok c, v) h = h
  or_partial-Ends E Q landed (err code, v) h = h

  or_partial-Triple :
      (P E : Registry → Type 0) (Q : CommitRow → Registry → Type 0) (landed : List CommitRow)
      (action : Action Registry CommitRow)
      → Triple P action E Q
      → Triple P (λ v. or_partial landed (action v)) E Q
  unfolding Triple
  or_partial-Triple P E Q landed action h w p = or_partial-Ends E Q landed (action w) (h w p)

  -- The commit that a round makes of its work item.
  abbrev pub IsOf : WorkItem → CommitRow → Type 0
  IsOf w c = (c.module_id ≡ w.target.id) × (c.digest ≡ w.digest)

  -- One round adds its commit, or none.
  land-ends :
      (user : User) (w : WorkItem) (cs : List CommitRow)
      → Triple
          (Landed env r0 cs)
          (land env user w cs)
          (Landed env r0 cs)
          (λ c r. Landed env r0 (cs ++ c ∷ []) r × IsOf w c)
  unfolding land
  land-ends user w cs =
      Triple->>= _ _ (λ commit_id. Landed env r0 cs) _ _ _ (put-Landed cs cs w)
        (λ commit_id.
          Triple->>= _ _ (λ u. Landed env r0 cs) _ _ _ (check_commit_id-Landed cs w commit_id)
            (λ u.
              let c = new_commit env user w (length cs) commit_id in
              Triple->>= _ _ (λ c' r. Landed env r0 (cs ++ c ∷ []) r × (c' ≡ c)) _ _ _
                (or_partial-Triple _ _ _ cs _ (record_commit-ends env r0 cs w c))
                (λ c'. Triple-fact _ _ _ _ _ (λ same.
                  Triple->>= _ _ (λ v. Landed env r0 (cs ++ c ∷ [])) _ _ _
                    (notify_commit_pushed-ends (cs ++ c ∷ []) _ w.target c user)
                    (λ v. Triple-return _ _ _ _ (λ r h. (h, (refl, refl))))))))

  -- The rounds for some of the work items, the first ones, were done.
  abbrev pub SomeDone : List WorkItem → List CommitRow → Registry → Type 0
  SomeDone ws cs r =
      (done : List WorkItem) × (rest : List WorkItem) × (ks : List CommitRow) × (ws ≡ done ++ rest)
      × AreOf env r0 done ks
      × Landed env r0 (cs ++ ks) r

  abbrev pub AllDone : List WorkItem → List CommitRow → List CommitRow → Registry → Type 0
  AllDone ws cs out r =
      (ks : List CommitRow) × (out ≡ cs ++ ks) × AreOf env r0 ws ks × Landed env r0 (cs ++ ks) r

  Landed-same :
      (cs ds : List CommitRow) (r : Registry) → cs ≡ ds → Landed env r0 cs r → Landed env r0 ds r
  Landed-same cs ds r e h = rw (← e) h

  one_more :
      (cs : List CommitRow) (k : CommitRow) (ks : List CommitRow)
      → (cs ++ k ∷ []) ++ ks ≡ cs ++ k ∷ ks
  one_more cs k ks = append_assoc cs (k ∷ []) ks

  pub land_all-ends :
      (user : User) (ws : List WorkItem) (cs : List CommitRow)
      → Triple (Landed env r0 cs) (land_all env user ws cs) (SomeDone ws cs) (AllDone ws cs)
  unfolding land_all
  land_all-ends user [] cs =
      Triple-return _ _ _ _
        (λ r h. ([], append_nil cs, tt, Landed-same cs (cs ++ []) r (append_nil cs) h))
  land_all-ends user (w ∷ ws) cs =
      Triple->>= _ _ _ _ _ _
        (Triple-forget _ _ _ _ _
          (λ r h. ([], w ∷ ws, [], refl, tt, Landed-same cs (cs ++ []) r (append_nil cs) h))
          (land-ends user w cs))
        (λ c. Triple-fact _ _ _ _ _ (λ (e, f).
          Triple-forget _ _ _ _ _
            (λ r (done, rest, ks, split, of, h). (
              w ∷ done,
              rest,
              c ∷ ks,
              ap (λ l. w ∷ l) split,
              (e, f, of),
              Landed-same _ _ r (one_more cs c ks) h,
            ))
            (Triple-conclude _ _ _ _ _
              (λ out r (ks, same, of, h). (
                c ∷ ks,
                same ∙ one_more cs c ks,
                (e, f, of),
                Landed-same _ _ r (one_more cs c ks) h,
              ))
              (land_all-ends user ws (cs ++ c ∷ [])))))
