-- ===== src/Interceptor/Admission.antt =====
-- Who gets through: every request ends in an error or in the handler with an admitted context.
use hades.Prelude.{
  Bool-cases, Bytes, Option, String, [], bytes_beq_iff, contains, false, inl, inr, none, refl, some,
  true, ℕ, ◌==◌, ◌∷◌, ◌≡◌, ◌⊎◌, nat_eq, bytes_eq, string_eq,
}
use hades.Text.{has_prefix}
use hades.Result.{Code, Result, Result-cases, err, ok, permission_denied, unauthenticated}
use hades.Interceptor.Procedures.{
  no_auth_procedures, optional_auth_procedures, pat_only_procedures, session_only_procedures,
}
use hades.Interceptor.Stores.{SessionRow, Stores, TokenRow, User}
use hades.Interceptor.Sessions.{resolve_session, touch_session}
use hades.Interceptor.Resolution.{resolve_api_token-live, resolve_session-live}
use hades.Interceptor.Live.{LiveSession, LiveToken}
use hades.Interceptor.Routing.{
  Context, Limiter, World, anonymous, api_token_prefix, authenticate_api_token,
  authenticate_session, bearer_token, limit_bearer_attempts, limited, route, session_context,
  session_token_prefix, token_context, touch, with_bearer, wrap_unary,
}
use hades.Interceptor.Tokens.{resolve_api_token}

-- The contexts with which a procedure may be served for an Authorization header.
pub data Admitted (stores : Stores) (now : ℕ) (procedure : String) (header : Bytes) (ctx : Context)
    : Type 0 where
  open_procedure :
      contains no_auth_procedures procedure ≡ true
      → ctx ≡ anonymous
      → Admitted stores now procedure header ctx
  no_credential :
      contains optional_auth_procedures procedure ≡ true
      → header ≡ []
      → ctx ≡ anonymous
      → Admitted stores now procedure header ctx
  interactive :
      (token : Bytes) (user : User) (row : SessionRow)
      → bearer_token header ≡ some token
      → has_prefix token session_token_prefix ≡ true
      → contains pat_only_procedures procedure ≡ false
      → LiveSession stores now procedure token user row
      → ctx ≡ session_context user token
      → Admitted stores now procedure header ctx
  personal_token :
      (token : Bytes) (user : User) (row : TokenRow)
      → bearer_token header ≡ some token
      → has_prefix token api_token_prefix ≡ true
      → contains session_only_procedures procedure ≡ false
      → LiveToken stores now token user row
      → ctx ≡ token_context user token row.scopes
      → Admitted stores now procedure header ctx

module _ {ℓ} {C : Type ℓ} {A : Type 0} (stores : Stores) (limiter : Limiter C)
    (next : Context → World C → World C × Result A) where
  -- Either the handler is called, with an admitted context, or it is not and there is an error.
  abbrev pub Outcome : ℕ → String → Bytes → World C × Result A → Type ℓ
  Outcome now procedure header r =
      ((ctx : Context) × (w : World C) × Admitted stores now procedure header ctx
        × (r ≡ next ctx w))
      ⊎ ((code : Code) × (w : World C) × (r ≡ (w, err code)))

  session-Outcome :
      (now : ℕ) (procedure : String) (header token : Bytes) (w : World C)
      → bearer_token header ≡ some token
      → has_prefix token session_token_prefix ≡ true
      → contains pat_only_procedures procedure ≡ false
      → Outcome now procedure header (
          authenticate_session stores limiter next now token
            (resolve_session stores now token procedure)
            w)
  unfolding authenticate_session
  session-Outcome now procedure header token w b p n =
      elim (Result-cases (resolve_session stores now token procedure)) [
        | inr (code, e) ↦ inr (code, w, rw e refl)
        | inl ((user, row), e) ↦ inl (
          session_context user token,
          touch (touch_session now row) row.id w,
          interactive token user row b p n
              (resolve_session-live stores now token procedure user row e) refl,
          rw e refl,
        )
      ]

  token-Outcome :
      (now : ℕ) (procedure : String) (header token : Bytes) (w : World C)
      → bearer_token header ≡ some token
      → has_prefix token api_token_prefix ≡ true
      → contains session_only_procedures procedure ≡ false
      → Outcome now procedure header
          (authenticate_api_token stores limiter next token (resolve_api_token stores now token) w)
  unfolding authenticate_api_token
  token-Outcome now procedure header token w b p n =
      elim (Result-cases (resolve_api_token stores now token)) [
        | inr (code, e) ↦ inr (code, w, rw e refl)
        | inl ((user, row), e) ↦ inl (
          token_context user token row.scopes,
          record w { used = row.id ∷ w.used },
          personal_token token user row b p n (resolve_api_token-live stores now token user row e)
              refl,
          rw e refl,
        )
      ]

  route-Outcome :
      (now : ℕ) (procedure : String) (header token : Bytes) (w : World C)
      → bearer_token header ≡ some token
      → Outcome now procedure header (route stores limiter next now procedure token w)
  unfolding route
  route-Outcome now procedure header token w b =
      elim (Bool-cases (has_prefix token session_token_prefix)) [
        | inl s ↦ elim (Bool-cases (contains pat_only_procedures procedure)) [
          | inl p ↦ inr (permission_denied, w, rw (s, p) refl)
          | inr p ↦ rw (s, p) (session-Outcome now procedure header token w b s p)
        ]
        | inr s ↦ elim (Bool-cases (has_prefix token api_token_prefix)) [
          | inr a ↦ inr (unauthenticated, w, rw (s, a) refl)
          | inl a ↦ elim (Bool-cases (contains session_only_procedures procedure)) [
            | inl p ↦ inr (permission_denied, w, rw (s, a, p) refl)
            | inr p ↦ rw (s, a, p) (token-Outcome now procedure header token w b a p)
          ]
        ]
      ]

  limited-Outcome :
      (now : ℕ) (procedure : String) (header token : Bytes) (verdict : Result (Unit {0}))
      (w : World C)
      → bearer_token header ≡ some token
      → Outcome now procedure header (limited stores limiter next now procedure token verdict w)
  unfolding limited
  limited-Outcome now procedure header token (err code) w b = inr (code, w, refl)
  limited-Outcome now procedure header token (ok u) w b =
      route-Outcome now procedure header token w b

  with_bearer-Outcome :
      (now : ℕ) (procedure : String) (peer header : Bytes) (o : Option Bytes) (w : World C)
      → bearer_token header ≡ o
      → Outcome now procedure header (with_bearer stores limiter next now procedure peer o w)
  unfolding with_bearer
  with_bearer-Outcome now procedure peer header none w b = inr (unauthenticated, w, refl)
  with_bearer-Outcome now procedure peer header (some token) w b =
      let r = limit_bearer_attempts limiter peer w.cache in
      limited-Outcome now procedure header token r.1 (record w { cache = r.0 }) b

  -- Every request ends in one of two ways: in an error without the handler being called, or in the
  -- handler, called with a context that the specification admits: anonymous for an open procedure,
  -- or for an optional one without a header, and otherwise the user of a live session or API token
  -- of the kind that the procedure takes.
  pub wrap_unary-Outcome :
      (now : ℕ) (procedure : String) (peer header : Bytes) (w : World C)
      → Outcome now procedure header (wrap_unary stores limiter next now procedure peer header w)
  unfolding wrap_unary
  wrap_unary-Outcome now procedure peer header w =
      elim (Bool-cases (contains no_auth_procedures procedure)) [
        | inl n ↦ inl (anonymous, w, open_procedure n refl, rw n refl)
        | inr n ↦ elim (Bool-cases (header == [])) [
          | inl h ↦ elim (Bool-cases (contains optional_auth_procedures procedure)) [
            | inl o ↦ inl (
              anonymous,
              w,
              no_credential o ((bytes_beq_iff header []).0 h) refl,
              rw (n, o, h) refl,
            )
            | inr o ↦ inr (unauthenticated, w, rw (n, o, h) refl)
          ]
          | inr h ↦
              let bearer =
                with_bearer-Outcome now procedure peer header (bearer_token header) w refl in
              elim (Bool-cases (contains optional_auth_procedures procedure)) [
                | inl o ↦ rw (n, o, h) bearer
                | inr o ↦ rw (n, o, h) bearer
              ]
        ]
      ]
