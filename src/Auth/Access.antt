-- ===== src/Auth/Access.antt =====
-- Which logins open a session.
use hades.Effects.{DbError, call, from_db}
use hades.Effects.Laws.{
  Answers, Ends, Preserves, Preserves-consult, Triple, Triple->>=, Triple-ask_reply, Triple-call,
  Triple-conclude, Triple-consult, Triple-fact, Triple-fail, Triple-forget, Triple-reads_at,
  Triple-return, Triple-run, Triple-weaken,
}
use hades.Prelude.{
  Bool-cases, Bytes, List, Option, [], ap, false, inl, inr, is_some, leb, none, refl, some, true, ℕ,
  ◌++◌, ◌+◌, ◌∷◌, ◌≡◌,
}
use hades.Maps.{Assoc, lookup}
use hades.Users.{UserRow, get_by_username}
use hades.Auth.Tables.{AuthTables, append_unless, insert_row, put_sessions}
use hades.Auth.Login.{
  LoginConfig, LoginResponse, Surroundings, attempts_allowed, check_password, enforce_limit,
  generated, is_locked, lock_if_exhausted, login, new_session, open_session, store_session,
  wrong_password,
}
use hades.Interceptor.Stores.{SessionRow}
use hades.Result.{ok, unauthenticated}
use hades.Text.{to_lower}
use hades.Auth.Lockout.{IsAccount}

module _ (c : LoginConfig) (env : Surroundings) (now : ℕ) (t0 : AuthTables) where
  abbrev IsStart : AuthTables → Type 0
  IsStart t = t ≡ t0

  -- No session was opened.
  abbrev pub SameSessions : AuthTables → Type 0
  SameSessions t = t.sessions ≡ t0.sessions

  -- One session of the account was opened, under the hash of the token that is returned.
  abbrev pub Opened : UserRow → LoginResponse → AuthTables → Type 0
  Opened u response t =
      (hash : Bytes) × (env.generate_token ≡ some (response.token, hash))
      × (lookup hash t0.sessions ≡ none)
      × (t.sessions ≡ t0.sessions ++ (hash, new_session c now env.new_id u) ∷ [])
      × (response.pending_totp ≡ env.totp_required u.id)

  store_session-ends :
      (hash : Bytes) (u : UserRow)
      → Triple SameSessions
          (call from_db (store_session hash (new_session c now env.new_id u)))
          SameSessions
          (λ v t.
            (t.sessions ≡ t0.sessions ++ (hash, new_session c now env.new_id u) ∷ [])
            × (lookup hash t0.sessions ≡ none))
  unfolding insert_row
  store_session-ends hash u =
      Triple-call SameSessions SameSessions _ _ _
        (λ t h. stored t t.sessions h (lookup hash t.sessions) refl) (λ t h. h)
    where
      s : SessionRow
      s = new_session c now env.new_id u

      stored :
          (t : AuthTables) (rows : Assoc SessionRow)
          → rows ≡ t0.sessions
          → (o : Option SessionRow) → lookup hash rows ≡ o
          → Answers SameSessions SameSessions
              (λ v t'.
                (t'.sessions ≡ t0.sessions ++ (hash, s) ∷ []) × (lookup hash t0.sessions ≡ none))
              (put_sessions t (append_unless o hash s rows)).0
              (put_sessions t (append_unless o hash s rows)).1
      stored t rows h none e = (ap (λ r. r ++ (hash, s) ∷ []) h, rw (← h) e)
      stored t rows h (some x) e = h

  generated-ok :
      (o : Option (Bytes × Bytes)) (pair : Bytes × Bytes) → generated o ≡ ok pair → o ≡ some pair
  generated-ok none pair h = cc
  generated-ok (some x) pair h = cc

  open_session-ends :
      (u : UserRow) → Triple SameSessions (open_session c env now u) SameSessions (Opened u)
  unfolding open_session
  open_session-ends u =
      Triple->>= _ _ (λ r. SameSessions) _ _ _
        (Triple-ask_reply _ _ (λ a. SameSessions) (λ r. SameSessions) _ (λ t h. h) (λ t e h. h))
        (λ r.
          Triple->>= _ _ _ _ _ _ (Triple-consult SameSessions (λ t. generated env.generate_token))
            (λ (token, hash). Triple-fact _ _ _ _ _ (λ made.
              Triple->>= _ _ _ _ _ _ (store_session-ends hash u) (λ v.
                Triple-return _ _ _ _ (λ t (h, free).
                  (hash, generated-ok env.generate_token (token, hash) made, free, h, refl))))))

  -- What a login that opened a session had found.
  abbrev pub Admitted : Bytes → Bytes → UserRow → Type 0
  Admitted username password u =
      IsAccount username t0 u
      × (is_locked now u.locked_until ≡ false)
      × (env.compare_hash u.password password ≡ true)
      × (is_some u.email_verified_at ≡ true)

  wrong_password-ends :
      (u : UserRow) (Q : LoginResponse → AuthTables → Type 0)
      → Triple SameSessions (wrong_password c now u) SameSessions Q
  unfolding wrong_password lock_if_exhausted
  wrong_password-ends u Q =
      Triple->>= _ _ (λ r. SameSessions) _ _ _
        (Triple-ask_reply _ _ (λ a. SameSessions) (λ r. SameSessions) _ (λ t h. h) (λ t e h. h))
        (λ r. Triple->>= _ _ (λ v. SameSessions) _ _ _ lock (λ v. Triple-fail _ _ _ _ (λ t h. h)))
    where
      lock : Preserves SameSessions (lock_if_exhausted c now u)
      lock = elim (Bool-cases (leb (attempts_allowed c) (u.failed_login_count + 1))) [
        | inl e ↦ rw e (Triple-call _ _ _ _ _ (λ t h. h) (λ t h. h))
        | inr e ↦ rw e (Triple-return _ _ _ _ (λ t h. h))
      ]

  check_password-ends :
      (username password : Bytes) (u : UserRow)
      → IsAccount username t0 u
      → Triple SameSessions
          (check_password c env now password u)
          SameSessions
          (λ response t. Admitted username password u × Opened u response t)
  unfolding check_password
  check_password-ends username password u account =
      elim (Bool-cases (is_locked now u.locked_until)) [
        | inl e ↦ rw e (Triple-fail _ _ _ _ (λ t h. h))
        | inr e ↦ elim (Bool-cases (env.compare_hash u.password password)) [
          | inr f ↦ rw (e, f) (wrong_password-ends u _)
          | inl f ↦ elim (Bool-cases (is_some u.email_verified_at)) [
            | inr g ↦ rw (e, f, g) (Triple-fail _ _ _ _ (λ t h. h))
            | inl g ↦
                rw (e, f, g)
                  (Triple-conclude _ _ _ _ _ (λ r t h. ((account, refl, refl, refl), h))
                    (open_session-ends u))
          ]
        ]
      ]

  login-Triple :
      (username password : Bytes)
      → Triple IsStart
          (login c env now username password)
          SameSessions
          (λ response t. (u : UserRow) × Admitted username password u × Opened u response t)
  unfolding login enforce_limit
  login-Triple username password =
      Triple->>= _ _ (λ v. IsStart) _ _ _
        (Triple-forget _ _ _ _ _ (λ t h. ap (λ (x : AuthTables). x.sessions) h)
          (Preserves-consult _ _))
        (λ v.
          Triple->>= _ _ _ _ _ _
            (Triple-forget _ _ _ _ _ (λ t h. ap (λ (x : AuthTables). x.sessions) h)
              (Triple-reads_at t0 (λ e. unauthenticated)
                (λ t. get_by_username (to_lower username) t.users)))
            (λ u. Triple-fact _ _ _ _ _ (λ account.
              Triple-conclude _ _ _ _ _ (λ r t (a, o). (u, a, o))
                (Triple-weaken _ _ _ _ _ (λ t h. ap (λ (x : AuthTables). x.sessions) h)
                  (check_password-ends username password u account)))))

-- Login, whichever statements fail. A login that answers with a token has found an account under
-- the name in lower case that is not locked, whose password hash matches and whose address is
-- verified, and has added exactly one session, of that account, not revoked, without a second
-- factor and with the configured life, under the hash of the token; it says whether a second
-- factor is due. Any other login leaves the sessions as they were.
pub login_sound :
    (c : LoginConfig) (env : Surroundings) (now : ℕ) (username password : Bytes)
    (failures : List (Option DbError)) (t : AuthTables)
    → Ends
        (SameSessions c env now t)
        (λ response t'.
          (u : UserRow) × Admitted c env now t username password u
          × Opened c env now t u response t')
        (login c env now username password (failures, t))
login_sound c env now username password failures t =
    Triple-run _ _ _ _ _ (login-Triple c env now t username password) refl
