-- ===== src/Interceptor/Resolution.antt =====
-- `resolveSession` and `resolveAPIToken` resolve only credentials that are live.
use hades.Prelude.{
  Bool-cases, Bytes, Option-cases, String, ap, arith, contains, false, if◌then◌else◌, inl, inr,
  is_some, ltb, none, not, refl, true, ℕ, ◌&&◌, ◌||◌, ◌∙◌, ◌≡◌, ◌≢◌, ◌≤◌, nat_eq, bytes_eq,
  string_eq,
}
use hades.Result.{>>=-ok, Result, ok, ◌>>=◌}
use hades.Interceptor.Procedures.{email_unverified_allowed, totp_pending_allowed}
use hades.Interceptor.Stores.{
  AuthFields, Lookup-cases, SessionRow, Stores, TokenRow, User, check_user_state, found, or_refuse,
  or_refuse-ok, query, query-ok, state_deactivated,
}
use hades.Interceptor.Sessions.{
  check_account, check_second_factor, resolve_session, resolve_session_row, second_factor_answer,
  validate_session_checks,
}
use hades.Interceptor.Tokens.{is_past, resolve_api_token, resolve_token_row}
use hades.Interceptor.Live.{
  LiveSession, LiveToken, SecondFactor, exempt, not_enabled, not_enrolled, verified,
}

check_user_state-ok : (u : User) → check_user_state u ≡ ok tt → u.state ≢ state_deactivated
unfolding check_user_state
check_user_state-ok u h e = cc (rw e at h)

pub check_user_state-active : (u : User) → u.state ≢ state_deactivated → check_user_state u ≡ ok tt
unfolding check_user_state
check_user_state-active u n = ground arith

unit_ok : (r : Result (Unit {0})) {a : Unit {0}} → r ≡ ok a → r ≡ ok tt
unit_ok r h = h

asked-SecondFactor :
    (stores : Stores) (row : SessionRow) (procedure : String)
    → check_second_factor stores.totp_by_user row.user_id ≡ ok tt
    → SecondFactor stores row procedure
unfolding check_second_factor second_factor_answer
asked-SecondFactor stores row procedure h = elim (Option-cases stores.totp_by_user) [
  | inl e ↦ cc (rw e at h)
  | inr (get, e) ↦
      let asked = rw e at h in
      elim (Lookup-cases (get row.user_id)) [
        | inl (secret, f) ↦ not_enabled get secret e f (ground (arith, rw f at asked))
        | inr (inl f) ↦ not_enrolled get e f
        | inr (inr f) ↦ cc (rw f at asked)
      ]
]

asked_only-SecondFactor :
    (stores : Stores) (row : SessionRow) (procedure : String)
    → (if not row.totp_verified && not (contains totp_pending_allowed procedure)
        then check_second_factor stores.totp_by_user row.user_id
        else ok tt)
      ≡ ok tt
    → SecondFactor stores row procedure
asked_only-SecondFactor stores row procedure h = elim (Bool-cases row.totp_verified) [
  | inl v ↦ verified v
  | inr v ↦ elim (Bool-cases (contains totp_pending_allowed procedure)) [
    | inl x ↦ exempt x
    | inr x ↦ asked-SecondFactor stores row procedure (rw (v, x) at h)
  ]
]

pub SecondFactor-passes :
    (stores : Stores) (row : SessionRow) (procedure : String)
    → SecondFactor stores row procedure
    → (if not row.totp_verified && not (contains totp_pending_allowed procedure)
        then check_second_factor stores.totp_by_user row.user_id
        else ok tt)
      ≡ ok tt
unfolding check_second_factor second_factor_answer
SecondFactor-passes stores row procedure (verified v) = rw v refl
SecondFactor-passes stores row procedure (exempt x) = ground (arith, x)
SecondFactor-passes stores row procedure (not_enrolled get e f) = rw e (rw f (ground arith))
SecondFactor-passes stores row procedure (not_enabled get secret e f n) =
    rw e (rw f (rw n (ground arith)))

account-live :
    (stores : Stores) (row : SessionRow) (procedure : String) (fields : AuthFields)
    → check_account stores row procedure fields ≡ ok tt
    → ((is_some fields.email_verified_at || contains email_unverified_allowed procedure) ≡ true)
      × SecondFactor stores row procedure
unfolding check_account
account-live stores row procedure fields h =
    elim (Bool-cases
      (is_some fields.email_verified_at || contains email_unverified_allowed procedure)) [
        | inl e ↦ (e, asked_only-SecondFactor stores row procedure (ground (arith, h, e)))
        | inr e ↦ absurd (ground (arith, h, e))
      ]

-- The checks that a session passes are those of `LiveSession` on its row.
checks-live :
    (stores : Stores) (now : ℕ) (row : SessionRow) (procedure : String)
    → validate_session_checks stores now row procedure ≡ ok tt
    → (row.revoked_at ≡ none)
      × (now ≤ row.idle_expires_at)
      × (now ≤ row.absolute_expires_at)
      × (or_refuse (stores.auth_fields_by_id row.user_id) >>= check_account stores row procedure
          ≡ ok tt)
unfolding validate_session_checks check_account
checks-live stores now row procedure h = elim (Option-cases row.revoked_at) [
  | inr (t, e) ↦ cc (rw e at h)
  | inl e ↦ elim (Bool-cases (ltb row.idle_expires_at now || ltb row.absolute_expires_at now)) [
    | inl x ↦ cc (rw (e, x) at h)
    | inr x ↦ (e, ground (arith, x), ground (arith, x), rw (e, x) at h)
  ]
]

row-live :
    (stores : Stores) (now : ℕ) (procedure : String) (sess : SessionRow) (user : User)
    (row : SessionRow)
    → resolve_session_row stores now procedure sess ≡ ok (user, row)
    → (sess ≡ row)
      × (validate_session_checks stores now row procedure ≡ ok tt)
      × (stores.user_by_id row.user_id ≡ found user)
      × (user.state ≢ state_deactivated)
unfolding resolve_session_row
row-live stores now procedure sess user row h =
    let (checked, a, h1) = >>=-ok (validate_session_checks stores now sess procedure) _ h in
    let (u, b, h2) = >>=-ok (or_refuse (stores.user_by_id sess.user_id)) _ h1 in
    let (active, c, h3) = >>=-ok (check_user_state u) _ h2 in
    let same : sess ≡ row = ground (arith, h3) in
    let same' : u ≡ user = ground (arith, h3) in
    (
      same,
      rw same at a,
      rw same' at (rw same at (or_refuse-ok (stores.user_by_id sess.user_id) b)),
      check_user_state-ok user (rw same' at c),
    )

pub resolve_session-live :
    (stores : Stores) (now : ℕ) (token : Bytes) (procedure : String) (user : User)
    (row : SessionRow)
    → resolve_session stores now token procedure ≡ ok (user, row)
    → LiveSession stores now procedure token user row
unfolding resolve_session
resolve_session-live stores now token procedure user row h =
    let (sess, a, h1) = >>=-ok (query stores.session_by_hash (stores.hash_token token)) _ h in
    let (get, configured, stored) = query-ok stores.session_by_hash (stores.hash_token token) a in
    let (same, checks, owned, active) = row-live stores now procedure sess user row h1 in
    let (revoked, idle, absolute, account) = checks-live stores now row procedure checks in
    let (fields, b, h2) = >>=-ok (or_refuse (stores.auth_fields_by_id row.user_id)) _ account in
    let (email, second) = account-live stores row procedure fields h2 in
    record {
      get = get;
      configured = configured;
      stored = stored ∙ ap found same;
      not_revoked = revoked;
      not_idle = idle;
      not_expired = absolute;
      fields = fields;
      known = or_refuse-ok (stores.auth_fields_by_id row.user_id) b;
      email = email;
      second_factor = second;
      owned = owned;
      active = active;
    }

token_row-live :
    (stores : Stores) (now : ℕ) (r : TokenRow) (user : User) (row : TokenRow)
    → resolve_token_row stores now r ≡ ok (user, row)
    → (r ≡ row)
      × (row.revoked_at ≡ none)
      × (is_past row.expires_at now ≡ false)
      × (stores.user_by_id row.user_id ≡ found user)
      × (user.state ≢ state_deactivated)
unfolding resolve_token_row
token_row-live stores now r user row h = elim (Option-cases r.revoked_at) [
  | inr (t, e) ↦ cc (rw e at h)
  | inl e ↦ elim (Bool-cases (is_past r.expires_at now)) [
    | inl x ↦ cc (rw (e, x) at h)
    | inr x ↦
        let (u, b, h2) = >>=-ok (or_refuse (stores.user_by_id r.user_id)) _ (rw (e, x) at h) in
        let (active, c, h3) = >>=-ok (check_user_state u) _ h2 in
        let same : r ≡ row = ground (arith, h3) in
        let same' : u ≡ user = ground (arith, h3) in
        (
          same,
          rw same at e,
          rw same at x,
          rw same' at (rw same at (or_refuse-ok (stores.user_by_id r.user_id) b)),
          check_user_state-ok user (rw same' at c),
        )
  ]
]

pub resolve_api_token-live :
    (stores : Stores) (now : ℕ) (token : Bytes) (user : User) (row : TokenRow)
    → resolve_api_token stores now token ≡ ok (user, row)
    → LiveToken stores now token user row
unfolding resolve_api_token
resolve_api_token-live stores now token user row h =
    let (r, a, h1) = >>=-ok (query stores.token_by_hash (stores.hash_token token)) _ h in
    let (get, configured, stored) = query-ok stores.token_by_hash (stores.hash_token token) a in
    let (same, revoked, expired, owned, active) = token_row-live stores now r user row h1 in
    record {
      get = get;
      configured = configured;
      stored = stored ∙ ap found same;
      not_revoked = revoked;
      not_expired = expired;
      owned = owned;
      active = active;
    }
