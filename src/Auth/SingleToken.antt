-- ===== src/Auth/SingleToken.antt =====
-- Runs of the device handlers in any order: the part of PollDeviceToken that writes may come any
-- time after the part that reads, with the row that was read then.
use hades.Effects.{World}
use hades.Effects.Laws.{
  Answers, Ends, Preserves, Preserves-consult, Preserves-reads, Preserves-run, Triple->>=,
  Triple-call, Triple-fail, Triple-refuse_if, Triple-return, Triple-run,
}
use hades.Result.{Result, err, failed_precondition, invalid_argument, ok}
use hades.Prelude.{
  All, Bool, Bool-cases, Bytes, List, Option, [], any, arith, false, inl, inr, is_some, ltb, none,
  not, refl, some, true, ℕ, ◌&&◌, ◌+◌, ◌==◌, ◌∙◌, ◌∷◌, ◌≡◌, ◌≤◌, nat_eq, bytes_eq, string_eq,
}
use hades.Interceptor.Stores.{User}
use hades.Auth.Tables.{AuthTables, GrantRow}
use hades.Auth.Login.{enforce_limit}
use hades.Auth.Devices.{
  DeviceEnv, approve, approve_device_grant, collides, create_grant, device_code_expiry, is_unissued,
  issue_token, new_grant, request_device_code, update_grants,
}
use hades.Auth.Grants.{
  IsBefore, Issued, any-append, any-update, attach_token-weight, issue_token-ends, unissued, weight,
}

pub data DeviceCall : Type 0 where
  requests : DeviceEnv → ℕ → DeviceCall
  approves : DeviceEnv → ℕ → Option User → Bytes → DeviceCall
  issues : DeviceEnv → GrantRow → Bytes → Bytes → DeviceCall

abbrev is_ok {ℓ} : {A : Type ℓ} → Result A → Bool
is_ok (ok a) = true
is_ok (err c) = false

-- A call, and whether it issued a token for the grant of the identifier.
unfoldable pub perform : Bytes → DeviceCall → World AuthTables → Bool × World AuthTables
perform id (requests env now) w = (false, (request_device_code env now w).1)
perform id (approves env now user code) w = (false, (approve_device_grant env now user code w).1)
perform id (issues env g user_id hash) w =
    let end = issue_token env g user_id hash w in (is_ok end.0 && g.id == id, end.1)

-- How many calls of a run issued a token for the grant.
unfoldable pub tokens_issued : Bytes → List DeviceCall → World AuthTables → ℕ
tokens_issued id [] w = 0
tokens_issued id (c ∷ cs) w =
    let (issued_one, w') = perform id c w in weight issued_one + tokens_issued id cs w'

-- A new grant has another identifier.
abbrev pub Fresh : Bytes → DeviceCall → Type 0
Fresh id (requests env now) = (env.new_id == id) ≡ false
Fresh id (approves env now user code) = Unit
Fresh id (issues env g user_id hash) = Unit

module _ (id : Bytes) (b : Bool) where
  abbrev Unissued : AuthTables → Type 0
  Unissued t = unissued id t ≡ b

  create_grant-Answers :
      (g : GrantRow) (t : AuthTables)
      → (g.id == id) ≡ false
      → Unissued t
      → Answers Unissued Unissued (λ u. Unissued) (create_grant g t).0 (create_grant g t).1
  unfolding create_grant
  create_grant-Answers g t h u = elim (Bool-cases (any (collides g) t.grants)) [
    | inl e ↦ rw e u
    | inr e ↦ rw e (any-append (is_unissued id) t.grants g (ground (arith, h)) ∙ u)
  ]

  request_device_code-Unissued :
      (env : DeviceEnv) (now : ℕ)
      → (env.new_id == id) ≡ false
      → Preserves Unissued (request_device_code env now)
  unfolding request_device_code
  request_device_code-Unissued env now h =
      Triple->>= _ _ (λ p. Unissued) _ _ _ (Preserves-consult _ _)
        (λ (device_code, hash).
          Triple->>= _ _ (λ c. Unissued) _ _ _ (Preserves-consult _ _)
            (λ code.
              Triple->>= _ _ (λ u. Unissued) _ _ _
                (Triple-call _ _ _ _ _
                  (λ t u.
                    create_grant-Answers (new_grant env.new_id hash code (now + device_code_expiry))
                      t h u)
                  (λ t u. u))
                (λ u. Triple-return _ _ _ _ (λ t p. p))))

  approve_device_grant-Unissued :
      (env : DeviceEnv) (now : ℕ) (user : Option User) (code : Bytes)
      → Preserves Unissued (approve_device_grant env now user code)
  unfolding approve_device_grant enforce_limit update_grants
  approve_device_grant-Unissued env now none code = Triple-fail _ _ _ _ (λ t u. u)
  approve_device_grant-Unissued env now (some user) code =
      Triple->>= _ _ (λ x. Unissued) _ _ _ (Preserves-consult _ _)
        (λ x.
          Triple->>= _ _ (λ g. Unissued) _ _ _ (Preserves-reads _ _ _)
            (λ g.
              Triple->>= _ _ (λ y. Unissued) _ _ _
                (Triple-refuse_if _ _ _ (ltb g.expires_at now) invalid_argument (λ t u e. u)
                  (λ t u e. u))
                (λ y.
                  Triple->>= _ _ (λ z. Unissued) _ _ _
                    (Triple-refuse_if _ _ _ (is_some g.approved_at) failed_precondition (λ t u e. u)
                      (λ t u e. u))
                    (λ z.
                      Triple->>= _ _ (λ done. Unissued) _ _ _
                        (Triple-call _ _ _ _ (approve g.id user.id now)
                          (λ t u. any-update (is_unissued id) _ _ t.grants (λ h e. refl) ∙ u)
                          (λ t u. u))
                        (λ done.
                          Triple-refuse_if _ _ _ (not done) failed_precondition (λ t u e. u)
                            (λ t u e. u))))))

Issued-weight :
    (t0 : AuthTables) (id : Bytes) (env : DeviceEnv) (g : GrantRow) (user_id hash : Bytes)
    (end : Result (Unit {0}) × World AuthTables)
    → Ends (IsBefore t0) (λ u. Issued t0 env g user_id hash) end
    → (weight (is_ok end.0 && g.id == id) + weight (unissued id end.1.1) ≤ weight (unissued id t0))
Issued-weight t0 id env g user_id hash (ok u, (fs, t)) (open_one, same) =
    rw same (attach_token-weight id g.id env.new_id t0.grants open_one)
Issued-weight t0 id env g user_id hash (err c, (fs, t)) same = rw same (omega arith)

-- What a call may use up.
perform-weight :
    (id : Bytes) (c : DeviceCall) (w : World AuthTables)
    → Fresh id c
    → (weight (perform id c w).0 + weight (unissued id (perform id c w).1.1)
        ≤ weight (unissued id w.1))
unfolding perform
perform-weight id (requests env now) w h =
    rw (Preserves-run _ _ w (request_device_code-Unissued id (unissued id w.1) env now h) refl)
      (omega arith)
perform-weight id (approves env now user code) w h =
    rw
      (Preserves-run _ _ w (approve_device_grant-Unissued id (unissued id w.1) env now user code)
        refl)
      (omega arith)
perform-weight id (issues env g user_id hash) w h = Issued-weight w.1 id env g user_id hash _ (
    Triple-run _ _ _ (issue_token env g user_id hash) w (issue_token-ends w.1 env g user_id hash)
      refl)

tokens_issued-weight :
    (id : Bytes) (cs : List DeviceCall) (w : World AuthTables)
    → All (Fresh id) cs
    → (tokens_issued id cs w ≤ weight (unissued id w.1))
unfolding tokens_issued
tokens_issued-weight id [] w h = omega arith
tokens_issued-weight id (c ∷ cs) w (fresh, h) =
    let now = perform-weight id c w fresh in
    let later = tokens_issued-weight id cs (perform id c w).1 h in omega (arith, now, later)

weight_bounded : (b : Bool) → weight b ≤ 1
weight_bounded true = omega arith
weight_bounded false = omega arith

-- A device code gives at most one token: in every run of requests, approvals and polls, in every
-- order and whichever statements fail, at most one call issues a token for the grant of an
-- identifier, if the requests of the run make grants with other identifiers. A poll may write with
-- a row that it read at any time before.
pub single_token :
    (id : Bytes) (cs : List DeviceCall) (w : World AuthTables)
    → All (Fresh id) cs
    → (tokens_issued id cs w ≤ 1)
single_token id cs w h =
    omega (arith, tokens_issued-weight id cs w h, weight_bounded (unissued id w.1))
