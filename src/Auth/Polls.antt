-- ===== src/Auth/Polls.antt =====
-- PollDeviceToken: what it found and what it leaves behind.
use hades.Effects.{Action, World}
use hades.Effects.Laws.{
  Ends, Preserves-consult, Triple, Triple->>=, Triple-consult, Triple-fact, Triple-reads_at,
  Triple-refuse_if, Triple-return, Triple-run, found_or_none-replied,
}
use hades.Result.{Result, err, failed_precondition, invalid_argument, ok}
use hades.Prelude.{
  Bytes, Option, arith, is_none, is_some, ltb, none, refl, some, ℕ, ◌==◌, ◌≡◌, ◌≤◌, nat_eq,
  bytes_eq, string_eq,
}
use hades.Auth.Tables.{AuthTables, GrantRow}
use hades.Auth.Login.{enforce_limit, generated}
use hades.Auth.Devices.{
  DeviceEnv, PollReply, grant_where, issued, pending, poll_approved, poll_device_token, poll_grant,
  recode,
}
use hades.Auth.Grants.{IsBefore, Issued, issue_token-ends}

module _ (t0 : AuthTables) where
  -- What PollDeviceToken found, if it issued a token.
  abbrev pub Approved : DeviceEnv → ℕ → Bytes → GrantRow → Bytes → Type 0
  Approved env now device_code g user_id =
      (grant_where (λ h. h.device_code_hash == env.hash_token device_code) t0.grants ≡ some g)
      × (now ≤ g.expires_at)
      × ((at : ℕ) × (g.approved_at ≡ some at))
      × (g.user_id ≡ some user_id)
      × (g.api_token_id ≡ none)

  abbrev pub Polled : DeviceEnv → ℕ → Bytes → PollReply → AuthTables → Type 0
  Polled env now device_code pending t = IsBefore t0 t
  Polled env now device_code (issued token) t =
      (g : GrantRow) × (user_id : Bytes) × (hash : Bytes) × (env.generate_token
        ≡ some (token, hash))
      × Approved env now device_code g user_id
      × Issued t0 env g user_id hash t

  recode-Ends :
      (E : AuthTables → Type 0) (Q : Unit {0} → AuthTables → Type 0)
      (end : Result (Unit {0}) × World AuthTables)
      → Ends E Q end
      → Ends E Q (recode end)
  recode-Ends E Q (ok a, w) h = h
  recode-Ends E Q (err c, w) h = h

  recode-Triple :
      (P E : AuthTables → Type 0) (Q : Unit {0} → AuthTables → Type 0)
      (action : Action AuthTables (Unit {0}))
      → Triple P action E Q
      → Triple P (λ w. recode (action w)) E Q
  unfolding Triple
  recode-Triple P E Q action h w p = recode-Ends E Q (action w) (h w p)

  pub generated-ok :
      (o : Option (Bytes × Bytes)) (pair : Bytes × Bytes) → generated o ≡ ok pair → o ≡ some pair
  generated-ok none pair h = cc
  generated-ok (some x) pair h = cc

  poll_approved-ends :
      (env : DeviceEnv) (now : ℕ) (device_code : Bytes) (g : GrantRow) (user_id : Bytes)
      → (g.api_token_id ≡ none → Approved env now device_code g user_id)
      → Triple
          (IsBefore t0)
          (poll_approved env g user_id)
          (IsBefore t0)
          (Polled env now device_code)
  unfolding poll_approved
  poll_approved-ends env now device_code g user_id h =
      Triple->>= _ _ (λ u t. IsBefore t0 t × (g.api_token_id ≡ none)) _ _ _
        (Triple-refuse_if _ _ _ (is_some g.api_token_id) failed_precondition (λ s p e. p)
          (λ s p e. (p, is_none g.api_token_id e)))
        (λ u. Triple-fact _ _ _ _ _ (λ unused.
          Triple->>= _ _ _ _ _ _ (Triple-consult (IsBefore t0) (λ t. generated env.generate_token))
            (λ (token, hash). Triple-fact _ _ _ _ _ (λ drawn.
              Triple->>= _ _ (λ v. Issued t0 env g user_id hash) _ _ _
                (recode-Triple _ _ _ _ (issue_token-ends t0 env g user_id hash))
                (λ v.
                  Triple-return _ _ _ _
                    (λ t i. (g, user_id, hash, generated-ok _ _ drawn, h unused, i)))))))

  poll_grant-ends :
      (env : DeviceEnv) (now : ℕ) (device_code : Bytes) (g : GrantRow) (at : Option ℕ)
      (user : Option Bytes)
      → grant_where (λ h. h.device_code_hash == env.hash_token device_code) t0.grants ≡ some g
      → (now ≤ g.expires_at)
      → g.approved_at ≡ at
      → g.user_id ≡ user
      → Triple (IsBefore t0) (poll_grant env g at user) (IsBefore t0) (Polled env now device_code)
  poll_grant-ends env now device_code g none user f l a u = Triple-return _ _ _ _ (λ t h. h)
  poll_grant-ends env now device_code g (some at) none f l a u = Triple-return _ _ _ _ (λ t h. h)
  poll_grant-ends env now device_code g (some at) (some user_id) f l a u =
      poll_approved-ends env now device_code g user_id (λ unused. (f, l, (at, a), u, unused))

  poll_device_token-ends :
      (env : DeviceEnv) (now : ℕ) (device_code : Bytes)
      → Triple
          (IsBefore t0)
          (poll_device_token env now device_code)
          (IsBefore t0)
          (Polled env now device_code)
  unfolding poll_device_token enforce_limit
  poll_device_token-ends env now device_code =
      Triple->>= _ _ (λ u. (IsBefore t0)) _ _ _ (Preserves-consult _ _)
        (λ u. Triple->>= _ _ _ _ _ _ (Triple-reads_at t0 _ _) (λ g. Triple-fact _ _ _ _ _ (λ seen.
          Triple->>= _ _ (λ v t. IsBefore t0 t × (now ≤ g.expires_at)) _ _ _
            (Triple-refuse_if _ _ _ (ltb g.expires_at now) invalid_argument (λ s p e. p)
              (λ s p e. (p, ground (arith, e))))
            (λ v. Triple-fact _ _ _ _ _ (λ live.
              poll_grant-ends env now device_code g g.approved_at g.user_id
                (found_or_none-replied _ _ seen) live refl refl)))))

-- PollDeviceToken, whichever statements fail: after an error, and while the approval is pending,
-- the tables are as before. It answers with a token only if the generator gave it with a hash, the
-- code belongs to a grant that has not expired, was approved by a user and has no token yet; then
-- the tables differ by one API token under that hash, of that user and with the scopes of the
-- device flow, and by its identifier in the grant.
pub poll_device_token_sound :
    (env : DeviceEnv) (now : ℕ) (device_code : Bytes) (w : World AuthTables)
    → Ends (IsBefore w.1) (Polled w.1 env now device_code) (poll_device_token env now device_code w)
poll_device_token_sound env now device_code w =
    Triple-run _ _ _ (poll_device_token env now device_code) w
      (poll_device_token-ends w.1 env now device_code) refl
