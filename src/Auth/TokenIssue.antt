-- ===== src/Auth/TokenIssue.antt =====
-- CreateAPIToken and RevokeAPIToken: what a token that was made is, and that a revoked one is
-- refused by the interceptor.
use hades.Result.{
  err, err_not_ok, invalid_argument, not_found, ok, resource_exhausted, unauthenticated,
}
use hades.Prelude.{
  ==_refl, Bool-cases, Bytes, List, Option, [], ap, arith, contains, false, inl, inr, is_some, leb,
  length, ltb, none, not, refl, some, true, ℕ, ◌++◌, ◌+◌, ◌∙◌, ◌∷◌, ◌≡◌, ◌≤◌, nat_eq, bytes_eq,
  string_eq,
}
use hades.Constants.Scope.{is_known_scope}
use hades.Interceptor.Stores.{Stores, TokenRow, User}
use hades.Auth.Tables.{AuthTables, append_unless, change, insert_row, put_tokens, update_where}
use hades.Auth.Recovery.{ok_injective}
use hades.Auth.Polls.{generated-ok}
use hades.Auth.Devices.{DeviceEnv, store_token}
use hades.Auth.ApiTokens.{
  count_active, create_api_token, create_api_token_as, is_own_live, list_by_user_id,
  max_api_token_lifetime, max_api_tokens_per_user, new_token, parsed, revoke_api_token,
  revoke_by_owner, revoke_token, scan_scopes, token_expiry, validate_scopes,
}
use hades.Effects.{World, call, from_db}
use hades.Effects.Laws.{
  Answers, Ends, Ends-ok, Triple, Triple->>=, Triple-call, Triple-consult, Triple-fact,
  Triple-forget, Triple-reads_at, Triple-refuse_if, Triple-return, Triple-run, replied_injective,
}
use hades.Maps.{Assoc, lookup}
use hades.Auth.Login.{generated}
use hades.Auth.Grants.{IsBefore}
use hades.Auth.Sessions.{lookup-update_where, or_missing, query_found}
use hades.Interceptor.Tokens.{resolve_api_token, resolve_token_row}

-- Scopes that may be given to a token, none of them in a list.
abbrev pub AreNewScopes : List Bytes → List Bytes → Type 0
AreNewScopes seen [] = Unit
AreNewScopes seen (s ∷ ss) =
    (is_known_scope s ≡ true) × (contains seen s ≡ false) × AreNewScopes (s ∷ seen) ss

scan_scopes-ok :
    (seen ss : List Bytes) (u : Unit {0}) → scan_scopes seen ss ≡ ok u → AreNewScopes seen ss
unfolding scan_scopes
scan_scopes-ok seen [] u h = tt
scan_scopes-ok seen (s ∷ ss) u h = elim (Bool-cases (is_known_scope s)) [
  | inl e ↦ elim (Bool-cases (contains seen s)) [
    | inl f ↦ absurd (err_not_ok invalid_argument u (rw (e, f) at h))
    | inr f ↦ (e, f, scan_scopes-ok (s ∷ seen) ss u (rw (e, f) at h))
  ]
  | inr e ↦ absurd (err_not_ok invalid_argument u (rw e at h))
]

-- At least one scope, each known and none twice.
abbrev pub AreGrantable : List Bytes → Type 0
AreGrantable scopes = (1 ≤ length scopes) × AreNewScopes [] scopes

validate_scopes-ok : (ss : List Bytes) (u : Unit {0}) → validate_scopes ss ≡ ok u → AreGrantable ss
unfolding validate_scopes
validate_scopes-ok [] u h = absurd (err_not_ok _ _ h)
validate_scopes-ok (s ∷ ss) u h = (omega arith, scan_scopes-ok [] (s ∷ ss) u h)

-- An expiry after now and within a year.
abbrev pub IsTimely : ℕ → Option ℕ → Type 0
IsTimely now none = Unit
IsTimely now (some t) = (now + 1 ≤ t) × (t ≤ now + max_api_token_lifetime)

token_expiry-ok : (now : ℕ) (o x : Option ℕ) → token_expiry now o ≡ ok x → (o ≡ x) × IsTimely now o
unfolding token_expiry
token_expiry-ok now none x h = (ok_injective none x h, tt)
token_expiry-ok now (some t) x h = elim (Bool-cases (ltb now t)) [
  | inl e ↦ elim (Bool-cases (ltb (now + max_api_token_lifetime) t)) [
    | inl f ↦ absurd (err_not_ok invalid_argument x (rw (e, f) at h))
    | inr f ↦ (ok_injective (some t) x (rw (e, f) at h), (ground (arith, e), ground (arith, f)))
  ]
  | inr e ↦ absurd (err_not_ok invalid_argument x (rw e at h))
]

module _ (t0 : AuthTables) where
  abbrev pub Created : DeviceEnv → ℕ → User → List Bytes → Option ℕ → Bytes → AuthTables → Type 0
  Created env now user scopes expires token t =
      (hash : Bytes) × (env.generate_token ≡ some (token, hash))
      × AreGrantable scopes
      × IsTimely now expires
      × (count_active now (list_by_user_id user.id (max_api_tokens_per_user + 1) 0 t0.tokens) + 1
          ≤ max_api_tokens_per_user)
      × (t ≡ record t0 {
        tokens = t0.tokens ++ (hash, new_token env.new_id user.id scopes expires) ∷ [];
      })

  store_token-ends :
      (hash : Bytes) (row : TokenRow)
      → Triple
          (IsBefore t0)
          (call from_db (store_token hash row))
          (IsBefore t0)
          (λ u t. t ≡ record t0 { tokens = t0.tokens ++ (hash, row) ∷ [] })
  unfolding insert_row
  store_token-ends hash row =
      Triple-call _ _ _ from_db (store_token hash row) (λ t h. go t h (lookup hash t.tokens))
        (λ t h. h)
    where
      go :
          (t : AuthTables) (h : IsBefore t0 t) (o : Option TokenRow)
          → Answers
              (IsBefore t0)
              (IsBefore t0)
              (λ u t'. t' ≡ record t0 { tokens = t0.tokens ++ (hash, row) ∷ [] })
              (put_tokens t (append_unless o hash row t.tokens)).0
              (put_tokens t (append_unless o hash row t.tokens)).1
      go t h none =
          ap {A = AuthTables} {B = AuthTables}
            (λ x. record x { tokens = x.tokens ++ (hash, row) ∷ [] }) h
      go t h (some b) = h

  create_api_token_as-ends :
      (env : DeviceEnv) (now : ℕ) (user : User) (scopes : List Bytes) (expires : Option ℕ)
      → Triple
          (IsBefore t0)
          (create_api_token_as env now user scopes expires)
          (IsBefore t0)
          (Created env now user scopes expires)
  unfolding create_api_token_as
  create_api_token_as-ends env now user scopes expires =
      Triple->>= _ _ _ _ _ _ (Triple-consult (IsBefore t0) (λ t. validate_scopes scopes)) (λ u.
        Triple-fact _ _ _ _ _ (λ valid.
          Triple->>= _ _ _ _ _ _ (Triple-consult (IsBefore t0) (λ t. token_expiry now expires))
            (λ at. Triple-fact _ _ _ _ _ (λ timely.
              Triple->>= _ _ _ _ _ _ (Triple-reads_at t0 _ _) (λ existing.
                Triple-fact _ _ _ _ _ (λ listed.
                  Triple->>= _ _
                    (λ v t.
                      IsBefore t0 t × (count_active now existing + 1 ≤ max_api_tokens_per_user))
                    _ _ _
                    (Triple-refuse_if _ _ _
                      (leb max_api_tokens_per_user (count_active now existing)) resource_exhausted
                      (λ s p e. p) (λ s p e. (p, ground (arith, e))))
                    (λ v. Triple-fact _ _ _ _ _ (λ few.
                      Triple->>= _ _ _ _ _ _
                        (Triple-consult (IsBefore t0) (λ t. generated env.generate_token))
                        (λ (token, hash). Triple-fact _ _ _ _ _ (λ drawn.
                          Triple->>= _ _ _ _ _ _
                            (store_token-ends hash (new_token env.new_id user.id scopes at))
                            (λ y. Triple-return _ _ _ _ (λ t same.
                              let (unchanged, in_time) = token_expiry-ok now expires at timely in
                              (
                                hash,
                                generated-ok t0 _ _ drawn,
                                validate_scopes-ok scopes u valid,
                                in_time,
                                rw (replied_injective _ _ listed) few,
                                rw unchanged same,
                              )))))))))))))

  create_api_token-ends :
      (env : DeviceEnv) (now : ℕ) (user : User) (scopes : List Bytes) (expires : Option ℕ)
      → Triple
          (IsBefore t0)
          (create_api_token env now (some user) scopes expires)
          (IsBefore t0)
          (Created env now user scopes expires)
  unfolding create_api_token
  create_api_token-ends env now user scopes expires =
      create_api_token_as-ends env now user scopes expires

-- CreateAPIToken of a signed-in user, whichever statements fail: after an error the tables are as
-- before; otherwise the tables differ by one API token of that user under the hash that belongs to
-- the answered token, not revoked, with the scopes and the expiry asked for. The scopes are at
-- least one, each known and none named twice; an expiry lies after now and within a year; and of
-- the 51 newest tokens of the user fewer than 50 were active.
pub create_api_token_sound :
    (env : DeviceEnv) (now : ℕ) (user : User) (scopes : List Bytes) (expires : Option ℕ)
    (w : World AuthTables)
    → Ends
        (IsBefore w.1)
        (Created w.1 env now user scopes expires)
        (create_api_token env now (some user) scopes expires w)
create_api_token_sound env now user scopes expires w =
    Triple-run _ _ _ (create_api_token env now (some user) scopes expires) w
      (create_api_token-ends w.1 env now user scopes expires) refl

-- The interceptor's tokens are those of the table.
abbrev pub ReadsTokens : Stores → Assoc TokenRow → Type 0
ReadsTokens stores tokens = stores.token_by_hash ≡ some (λ hash. or_missing (lookup hash tokens))

abbrev revoked_tokens : Bytes → Bytes → ℕ → Assoc TokenRow → Assoc TokenRow
revoked_tokens id user_id now tokens =
    update_where (is_own_live id user_id) (revoke_token now) tokens

revoke_api_token-ends :
    (t0 : AuthTables) (parse : Bytes → Option Bytes) (now : ℕ) (user : User) (text id : Bytes)
    → parse text ≡ some id
    → Triple
        (IsBefore t0)
        (revoke_api_token parse now (some user) text)
        (λ t. Unit {0})
        (λ u t. t.tokens ≡ revoked_tokens id user.id now t0.tokens)
unfolding revoke_api_token revoke_by_owner
revoke_api_token-ends t0 parse now user text id h =
    Triple->>= _ _ (λ x t. IsBefore t0 t × (parsed (parse text) ≡ ok x)) _ _ _
      (Triple-forget _ _ _ _ _ (λ t p. tt)
        (Triple-consult (IsBefore t0) (λ t. parsed (parse text))))
      (λ x. Triple-fact _ _ _ _ _ (λ e.
        let same : id ≡ x = ok_injective id x (rw h at e) in
        Triple->>= _ _ (λ b t. t.tokens ≡ revoked_tokens id user.id now t0.tokens) _ _ _
          (Triple-call _ _ _ from_db (revoke_by_owner x user.id now) (λ t p. rw (same, ← p) refl)
            (λ t p. tt))
          (λ b. Triple-refuse_if _ _ _ (not b) not_found (λ t p e. tt) (λ t p e. p))))

own_revoked :
    (row : TokenRow) (id user_id : Bytes) (now : ℕ)
    → row.id ≡ id
    → row.user_id ≡ user_id
    → is_some (change (is_own_live id user_id) (revoke_token now) row).revoked_at ≡ true
own_revoked row id user_id now h k = elim (Bool-cases (is_some row.revoked_at)) [
  | inl e ↦ rw (h, k, ==_refl id, ==_refl user_id, e) e
  | inr e ↦ rw (h, k, ==_refl id, ==_refl user_id, e) refl
]

revoked_token_refused :
    (stores : Stores) (later : ℕ) (row : TokenRow)
    → is_some row.revoked_at ≡ true
    → resolve_token_row stores later row ≡ err unauthenticated
unfolding resolve_token_row
revoked_token_refused stores later row h = rw h refl

-- After RevokeAPIToken went well for one of the caller's tokens, the interceptor refuses that
-- token at every later time, as long as the table of tokens is as it was left.
pub revoke_api_token_effective :
    (parse : Bytes → Option Bytes) (now : ℕ) (user : User) (text raw_token : Bytes) (row : TokenRow)
    (stores : Stores) (later : ℕ) (w : World AuthTables)
    → lookup (stores.hash_token raw_token) w.1.tokens ≡ some row
    → row.user_id ≡ user.id
    → parse text ≡ some row.id
    → (revoke_api_token parse now (some user) text w).0 ≡ ok tt
    → ReadsTokens stores (revoke_api_token parse now (some user) text w).1.1.tokens
    → resolve_api_token stores later raw_token ≡ err unauthenticated
unfolding resolve_api_token
revoke_api_token_effective parse now user text raw_token row stores later w stored own named done
      mirrored =
    let end =
      Triple-run _ _ _ (revoke_api_token parse now (some user) text) w
        (revoke_api_token-ends w.1 parse now user text row.id named) refl in
    let left = Ends-ok _ _ _ tt end done in
    let gone : TokenRow = change (is_own_live row.id user.id) (revoke_token now) row in
    let there : lookup (stores.hash_token raw_token)
          (revoke_api_token parse now (some user) text w).1.1.tokens
        ≡ some gone =
      ap (lookup (stores.hash_token raw_token)) left
      ∙ lookup-update_where (stores.hash_token raw_token) (is_own_live row.id user.id)
          (revoke_token now) w.1.tokens
      ∙ (rw stored refl) in
    rw (query_found _ _ (stores.hash_token raw_token) gone mirrored (ap or_missing there))
      (revoked_token_refused stores later gone (own_revoked row row.id user.id now refl own))
