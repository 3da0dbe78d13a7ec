-- ===== src/Auth/Recovery.antt =====
-- ResetPassword and ChangePassword: what they leave behind.
use hades.Effects.Laws.{
  Ends, Ends-ok, Preserves, Preserves-consult, Triple, Triple->>=, Triple-call, Triple-consult,
  Triple-fact, Triple-forget, Triple-reads_at, Triple-refuse_if, Triple-run, Triple-transaction,
  found_or_none-replied,
}
use hades.Result.{Code, Result, err, internal, invalid_argument, not_found, ok, unauthenticated}
use hades.Prelude.{
  ==_refl, Bool, Bytes, List, Option, String, ap, arith, false, if◌then◌else◌, inl, inr, is_none,
  is_some, ltb, none, not, refl, some, some_injective, sym, true, ℕ, ◌==◌, ◌∙◌, ◌≡◌, ◌≤◌, ◌⊎◌,
  nat_eq, bytes_eq, string_eq,
}
use hades.Maps.{Assoc, lookup}
use hades.Users.{reset_failed_logins, update_password}
use hades.Auth.Tables.{
  AuthTables, OneTimeRow, mark_used, on_resets, on_sessions, revoke_all_for_user, row_by_hash,
  spend,
}
use hades.Auth.Sessions.{
  NoSession, NoSession-refused, ReadsSessions, lookup-update_where, revoke_all_for_user-NoSession,
}
use hades.Auth.Login.{enforce_limit, set_user}
use hades.Auth.Passwords.{
  Outside, PasswordConfig, check_one_time, hashed, is_short, reset_password, revoke_all,
  spend_reset,
}
use hades.Effects.{DbError, reads}
use hades.Interceptor.Sessions.{resolve_session}
use hades.Interceptor.Stores.{SessionRow, Stores}

enforce_limit-Preserves {ν} :
    (P : AuthTables → Type ν) (answer : Option (Result Bool)) → Preserves P (enforce_limit answer)
unfolding enforce_limit
enforce_limit-Preserves P answer = Preserves-consult _ _

pub ok_injective {ℓ} : {A : Type ℓ} (a b : A) → ok a ≡ ok b → a ≡ b
ok_injective a b h = cc

two_guards {ℓ} :
    {A : Type ℓ} (used expired : Bool) (r r' : A) (c d : Code)
    → (if used then err c else if expired then err d else ok r) ≡ ok r'
    → (used ≡ false) × (expired ≡ false) × (r ≡ r')
two_guards true expired r r' c d h = cc
two_guards false true r r' c d h = cc
two_guards false false r r' c d h = (refl, refl, ok_injective r r' h)

check_one_time-ok :
    (now : ℕ) (r r' : OneTimeRow)
    → check_one_time now r ≡ ok r'
    → (r ≡ r') × (r.used_at ≡ none) × (now ≤ r.expires_at)
unfolding check_one_time
check_one_time-ok now r r' h =
    let (unused, live, same) = two_guards (is_some r.used_at) (ltb r.expires_at now) r r' _ _ h in
    (same, is_none r.used_at unused, ground (arith, live))

hashed-ok : (o : Option Bytes) (hash : Bytes) → hashed o ≡ ok hash → o ≡ some hash
hashed-ok none hash h = cc
hashed-ok (some x) hash h = cc

module _ (t0 : AuthTables) where
  abbrev IsStart : AuthTables → Type 0
  IsStart t = t ≡ t0

  -- The token spent, the password replaced and the lock lifted.
  abbrev pub recovered : ℕ → OneTimeRow → Bytes → AuthTables
  recovered now r hash =
      set_user r.user_id reset_failed_logins
        (set_user r.user_id (update_password hash) (on_resets (mark_used r.id now) t0))

  -- A row that may still be used, under the hash of the token.
  abbrev pub IsFresh : Outside → ℕ → Bytes → OneTimeRow → Type 0
  IsFresh env now token r =
      (lookup (env.hash_token token) t0.resets ≡ some r) × (r.used_at ≡ none) × (now ≤ r.expires_at)

  spend_reset-ends :
      (now : ℕ) (r : OneTimeRow) (hash : Bytes)
      → Triple IsStart (spend_reset now r hash) IsStart (λ u t. t ≡ recovered now r hash)
  unfolding spend_reset
  spend_reset-ends now r hash =
      let marked = on_resets (mark_used r.id now) in
      let replaced = set_user r.user_id (update_password hash) in
      Triple-transaction IsStart (λ t. Unit) IsStart _ _ (λ t h. h) (λ t h. tt) (λ u t h. tt)
        (Triple->>= _ _ (λ u t. t ≡ marked t0) _ _ _
          (Triple-call _ _ _ _ _ (λ t h. ap marked h) (λ t h. tt))
          (λ u.
            Triple->>= _ _ (λ v t. t ≡ replaced (marked t0)) _ _ _
              (Triple-call _ _ _ _ _ (λ t h. ap replaced h) (λ t h. tt))
              (λ v.
                Triple-call _ _ _ _ _ (λ t h. ap (set_user r.user_id reset_failed_logins) h)
                  (λ t h. tt))))

  abbrev IsRecovery : Outside → ℕ → Bytes → Bytes → OneTimeRow → Bytes → Type 0
  IsRecovery env now token password r hash =
      IsFresh env now token r × (env.hash_password password ≡ some hash)

  -- Unchanged, or all of the transaction and none of the revocation.
  abbrev pub Unrevoked : Outside → ℕ → Bytes → Bytes → AuthTables → Type 0
  Unrevoked env now token password t =
      (t ≡ t0)
      ⊎ ((r : OneTimeRow) × (hash : Bytes) × IsRecovery env now token password r hash
          × (t ≡ recovered now r hash))

  abbrev pub Recovered : Outside → ℕ → Bytes → Bytes → AuthTables → Type 0
  Recovered env now token password t =
      (r : OneTimeRow) × (hash : Bytes) × IsRecovery env now token password r hash
      × (t ≡ on_sessions (revoke_all_for_user r.user_id now) (recovered now r hash))

  usable_row :
      (env : Outside) (now : ℕ) (token : Bytes) (row r : OneTimeRow)
      → lookup (env.hash_token token) t0.resets ≡ some row
      → (row ≡ r) × (row.used_at ≡ none) × (now ≤ row.expires_at)
      → IsFresh env now token r
  usable_row env now token row r stored (same, fresh, live) = rw (← same) (stored, fresh, live)

  revoke_all-ends :
      (env : Outside) (now : ℕ) (token password : Bytes) (r : OneTimeRow) (hash : Bytes)
      → IsRecovery env now token password r hash
      → Triple
          (λ t. t ≡ recovered now r hash)
          (revoke_all now r.user_id)
          (Unrevoked env now token password)
          (λ u. Recovered env now token password)
  revoke_all-ends env now token password r hash is_recovery =
      Triple-call _ _ _ _ _
        (λ t h. (r, hash, is_recovery, ap (on_sessions (revoke_all_for_user r.user_id now)) h))
        (λ t h. inr (r, hash, is_recovery, h))

  reset_password-Triple :
      (c : PasswordConfig) (env : Outside) (now : ℕ) (token password : Bytes)
      → Triple IsStart
          (reset_password c env now token password)
          (Unrevoked env now token password)
          (λ u. Recovered env now token password)
  unfolding reset_password
  reset_password-Triple c env now token password =
      Triple->>= _ _ (λ u. IsStart) _ _ _
        (Triple-forget _ _ _ _ _ (λ t h. inl h) (enforce_limit-Preserves _ env.limiter))
        (λ u.
          Triple->>= _ _ (λ v. IsStart) _ _ _
            (Triple-refuse_if _ _ _ (not c.has_resets) internal (λ t h x. inl h) (λ t h x. h))
            (λ v.
              Triple->>= _ _ (λ x. IsStart) _ _ _
                (Triple-refuse_if _ _ _ (is_short c password) invalid_argument (λ t h x. inl h)
                  (λ t h x. h))
                (λ x.
                  Triple->>= _ _ _ _ _ _
                    (Triple-forget _ _ _ _ _ (λ t h. inl h)
                      (Triple-reads_at t0 (λ e. not_found)
                        (λ t. row_by_hash (env.hash_token token) t.resets)))
                    (λ row. Triple-fact _ _ _ _ _ (λ stored.
                      Triple->>= _ _ _ _ _ _
                        (Triple-forget _ _ _ _ _ (λ t h. inl h)
                          (Triple-consult _ (λ t. check_one_time now row)))
                        (λ r. Triple-fact _ _ _ _ _ (λ checked.
                          Triple->>= _ _ _ _ _ _
                            (Triple-forget _ _ _ _ _ (λ t h. inl h)
                              (Triple-consult _ (λ t. hashed (env.hash_password password))))
                            (λ hash. Triple-fact _ _ _ _ _ (λ made.
                              Triple->>= _ _ _ _ _ _
                                (Triple-forget _ _ _ _ _ (λ t h. inl h)
                                  (spend_reset-ends now r hash))
                                (λ y. revoke_all-ends env now token password r hash (
                                  usable_row env now token row r (found_or_none-replied _ _ stored)
                                      (check_one_time-ok now row r checked),
                                  hashed-ok _ hash made,
                                )))))))))))

-- ResetPassword, whichever statements fail. After success the token's row was unused and in time,
-- it is marked as used, the user's password hash is the one made of the new password, the failed
-- logins and the lock are cleared, and every session of the user that was open is revoked, in that
-- order and with nothing else changed. After an error either nothing changed, or all of that but
-- the revocation of the sessions.
pub reset_password_recovers :
    (c : PasswordConfig) (env : Outside) (now : ℕ) (token password : Bytes)
    (failures : List (Option DbError)) (t : AuthTables)
    → Ends
        (Unrevoked t env now token password)
        (λ u. Recovered t env now token password)
        (reset_password c env now token password (failures, t))
reset_password_recovers c env now token password failures t =
    Triple-run _ _ _ _ _ (reset_password-Triple t c env now token password) refl

mark_used-lookup :
    (key : Bytes) (now : ℕ) (rows : Assoc OneTimeRow) (r : OneTimeRow)
    → lookup key rows ≡ some r
    → (r' : OneTimeRow) × (lookup key (mark_used r.id now rows) ≡ some r')
      × (is_some r'.used_at ≡ true)
unfolding mark_used
mark_used-lookup key now rows r h =
    let marked = lookup-update_where key (λ (x : OneTimeRow). x.id == r.id) (spend now) rows in
    (spend now r, rw (marked, h, ==_refl r.id) refl, refl)

-- A recovery spends its token.
Recovered-used :
    (t t' : AuthTables) (env : Outside) (now : ℕ) (token password : Bytes)
    → Recovered t env now token password t'
    → (r : OneTimeRow) × (lookup (env.hash_token token) t'.resets ≡ some r)
      × (is_some r.used_at ≡ true)
Recovered-used t t' env now token password (r, hash, ((stored, fresh, live), made), e) =
    rw e (mark_used-lookup (env.hash_token token) now t.resets r stored)

Recovered-sessions :
    (t t' : AuthTables) (env : Outside) (now : ℕ) (token password : Bytes) (row : OneTimeRow)
    → lookup (env.hash_token token) t.resets ≡ some row
    → Recovered t env now token password t'
    → NoSession row.user_id t'.sessions
Recovered-sessions t t' env now token password row mine
      (r, hash, ((stored, fresh, live), made), e) =
    let same : r ≡ row = some_injective r row (sym stored ∙ mine) in
    rw (e, same) (revoke_all_for_user-NoSession row.user_id now t.sessions)

used_not_fresh :
    (o : Option OneTimeRow) (r r' : OneTimeRow)
    → o ≡ some r
    → o ≡ some r'
    → is_some r.used_at ≡ true
    → ¬ (r'.used_at ≡ none)
used_not_fresh o r r' stored stored' used fresh =
    let same : r ≡ r' = some_injective r r' (sym stored ∙ stored') in
    let unused : is_some r.used_at ≡ false = rw (same, fresh) refl in ground (arith, used, unused)

-- Once ResetPassword has succeeded with a token, no later call with the token succeeds on the
-- tables that it left, whenever it is and whatever fails.
pub reset_password_once :
    (c c' : PasswordConfig) (env : Outside) (now now' : ℕ) (token password password' : Bytes)
    (failures failures' : List (Option DbError)) (t : AuthTables)
    → (reset_password c env now token password (failures, t)).0 ≡ ok tt
    → ¬ (
        (reset_password c' env now' token password'
          (failures', (reset_password c env now token password (failures, t)).1.1)).0
        ≡ ok tt)
reset_password_once c c' env now now' token password password' failures failures' t first second' =
    let t' = (reset_password c env now token password (failures, t)).1.1 in
    let done =
      Ends-ok _ _ _ _ (reset_password_recovers c env now token password failures t) first in
    let (r, stored, used) = Recovered-used t t' env now token password done in
    let (r', hash, ((stored', fresh, live), made), e) =
      Ends-ok _ _ _ _ (reset_password_recovers c' env now' token password' failures' t') second' in
    used_not_fresh _ r r' stored stored' used fresh

-- After ResetPassword has succeeded, the interceptor, if it reads the sessions of the table, lets
-- no token of a session of that user pass.
pub reset_password_ends_sessions :
    (c : PasswordConfig) (env : Outside) (now : ℕ) (token password : Bytes)
    (failures : List (Option DbError)) (t : AuthTables) (row : OneTimeRow) (stores : Stores)
    (later : ℕ) (raw_token : Bytes) (procedure : String) (s : SessionRow)
    → (reset_password c env now token password (failures, t)).0 ≡ ok tt
    → lookup (env.hash_token token) t.resets ≡ some row
    → ReadsSessions stores (reset_password c env now token password (failures, t)).1.1.sessions
    → lookup
        (stores.hash_token raw_token)
        (reset_password c env now token password (failures, t)).1.1.sessions
      ≡ some s
    → (s.user_id == row.user_id) ≡ true
    → resolve_session stores later raw_token procedure ≡ err unauthenticated
reset_password_ends_sessions c env now token password failures t row stores later raw_token
      procedure s done mine reads stored same =
    let t' = (reset_password c env now token password (failures, t)).1.1 in
    NoSession-refused stores t'.sessions row.user_id later raw_token procedure s reads
      (Recovered-sessions t t' env now token password row mine
        (Ends-ok _ _ _ _ (reset_password_recovers c env now token password failures t) done))
      stored same
