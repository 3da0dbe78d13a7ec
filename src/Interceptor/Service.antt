-- ===== src/Interceptor/Service.antt =====
-- A live session is served: the converse of admission for interactive sessions.
use hades.Prelude.{
  Bool-cases, Bytes, String, [], ap, arith, bytes_beq_iff, contains, false, inl, inr, is_some, refl,
  some, true, ℕ, ◌==◌, ◌||◌, ◌∙◌, ◌≡◌, nat_eq, bytes_eq, string_eq,
}
use hades.Text.{has_prefix}
use hades.Result.{Result, ok, ◌>>=◌}
use hades.Interceptor.Procedures.{
  email_unverified_allowed, no_auth_procedures, optional_auth_procedures, pat_only_procedures,
}
use hades.Interceptor.Stores.{AuthFields, SessionRow, Stores, User, or_refuse, query}
use hades.Interceptor.Sessions.{
  check_account, resolve_session, resolve_session_row, touch_session, validate_session_checks,
}
use hades.Interceptor.Live.{LiveSession, SecondFactor}
use hades.Interceptor.Resolution.{SecondFactor-passes, check_user_state-active}
use hades.Interceptor.Confined.{no_header-no_bearer}
use hades.Interceptor.Routing.{
  Context, Limiter, World, authenticate_session, bearer_token, limit_bearer_attempts, limited,
  route, session_context, session_token_prefix, touch, with_bearer, wrap_unary,
}

account-passes :
    (stores : Stores) (row : SessionRow) (procedure : String) (fields : AuthFields)
    → (is_some fields.email_verified_at || contains email_unverified_allowed procedure) ≡ true
    → SecondFactor stores row procedure
    → check_account stores row procedure fields ≡ ok tt
unfolding check_account
account-passes stores row procedure fields e s =
    ground (arith, e, SecondFactor-passes stores row procedure s)

checks-pass :
    (stores : Stores) (now : ℕ) (token : Bytes) (procedure : String) (user : User)
    (row : SessionRow)
    → LiveSession stores now procedure token user row
    → validate_session_checks stores now row procedure ≡ ok tt
unfolding validate_session_checks
checks-pass stores now token procedure user row l =
    let account : or_refuse (stores.auth_fields_by_id row.user_id)
          >>= check_account stores row procedure
        ≡ ok tt =
      rw l.known (account-passes stores row procedure l.fields l.email l.second_factor) in
    ground (arith, account, l.not_revoked, l.not_idle, l.not_expired)

row-resolves :
    (stores : Stores) (now : ℕ) (token : Bytes) (procedure : String) (user : User)
    (row : SessionRow)
    → LiveSession stores now procedure token user row
    → resolve_session_row stores now procedure row ≡ ok (user, row)
unfolding resolve_session_row
row-resolves stores now token procedure user row l =
    rw
      (
        checks-pass stores now token procedure user row l,
        l.owned,
        check_user_state-active user l.active,
      )
      refl

resolve_session_complete :
    (stores : Stores) (now : ℕ) (token : Bytes) (procedure : String) (user : User)
    (row : SessionRow)
    → LiveSession stores now procedure token user row
    → resolve_session stores now token procedure ≡ ok (user, row)
unfolding resolve_session
resolve_session_complete stores now token procedure user row l =
    let asked : query stores.session_by_hash (stores.hash_token token) ≡ ok row =
      ap (λ o. query o (stores.hash_token token)) l.configured ∙ ap or_refuse l.stored in
    ap (λ r. r >>= resolve_session_row stores now procedure) asked
    ∙ row-resolves stores now token procedure user row l

-- A request with the bearer token of a live session, for a procedure that takes sessions and is not
-- an open one, reaches the handler with the session's user and no restriction of scopes, if the
-- limiter lets it through; the session is touched first.
pub LiveSession-served {ℓ} :
    {C : Type ℓ} {A : Type 0} (stores : Stores) (limiter : Limiter C)
    (next : Context → World C → World C × Result A) (now : ℕ) (procedure : String)
    (peer header token : Bytes) (user : User) (row : SessionRow) (w : World C)
    → contains no_auth_procedures procedure ≡ false
    → contains pat_only_procedures procedure ≡ false
    → bearer_token header ≡ some token
    → has_prefix token session_token_prefix ≡ true
    → (limit_bearer_attempts limiter peer w.cache).1 ≡ ok tt
    → LiveSession stores now procedure token user row
    → wrap_unary stores limiter next now procedure peer header w
      ≡ next (session_context user token) (
          touch
            (touch_session now row)
            row.id
            (record w { cache = (limit_bearer_attempts limiter peer w.cache).0 }))
unfolding wrap_unary with_bearer limited route authenticate_session
LiveSession-served stores limiter next now procedure peer header token user row w n p b s v l =
    elim (Bool-cases (header == [])) [
      | inl e ↦ absurd (no_header-no_bearer header token b ((bytes_beq_iff header []).0 e))
      | inr e ↦ elim (Bool-cases (contains optional_auth_procedures procedure)) [
        | inl o ↦
            rw (n, o, e, b, v, s, p, resolve_session_complete stores now token procedure user row l)
              refl
        | inr o ↦
            rw (n, o, e, b, v, s, p, resolve_session_complete stores now token procedure user row l)
              refl
      ]
    ]
