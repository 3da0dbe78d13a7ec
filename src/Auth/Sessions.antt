-- ===== src/Auth/Sessions.antt =====
-- The rows of the auth tables as the authentication interceptor reads them.
use hades.Prelude.{
  Bool, Bool-cases, Bytes, Option, String, [], ap, arith, inl, inr, is_some, none, refl, some,
  some_injective, sym, true, ℕ, ◌==◌, ◌∙◌, ◌∷◌, ◌≡◌, nat_eq, bytes_eq, string_eq,
}
use hades.Result.{err, ok, unauthenticated}
use hades.Maps.{Assoc, lookup}
use hades.Auth.Tables.{change, is_open, revoke_all_for_user, revoke_session, update_where}
use hades.Interceptor.Stores.{Lookup, SessionRow, Stores, found, missing, query}
use hades.Interceptor.Sessions.{resolve_session, resolve_session_row, validate_session_checks}

abbrev pub or_missing {ℓ} : {A : Type ℓ} → Option A → Lookup A
or_missing none = missing
or_missing (some a) = found a

-- The interceptor's sessions are those of the table.
abbrev pub ReadsSessions : Stores → Assoc SessionRow → Type 0
ReadsSessions stores sessions =
    stores.session_by_hash ≡ some (λ hash. or_missing (lookup hash sessions))

abbrev changed {ℓ} : {A : Type ℓ} → (A → Bool) → (A → A) → Option A → Option A
changed p f none = none
changed p f (some a) = some (change p f a)

pub lookup-update_where {ℓ} :
    {A : Type ℓ} (key : Bytes) (p : A → Bool) (f : A → A) (rows : Assoc A)
    → lookup key (update_where p f rows) ≡ changed p f (lookup key rows)
unfolding lookup update_where
lookup-update_where key p f [] = refl
lookup-update_where key p f ((name, a) ∷ rows) = elim (Bool-cases (name == key)) [
  | inl e ↦ rw e refl
  | inr e ↦ rw e (lookup-update_where key p f rows)
]

-- A revoked session is refused.
pub revoked_refused :
    (stores : Stores) (now : ℕ) (s : SessionRow) (procedure : String)
    → is_some s.revoked_at ≡ true
    → resolve_session_row stores now procedure s ≡ err unauthenticated
unfolding resolve_session_row validate_session_checks
revoked_refused stores now s procedure h = rw h refl

-- No token leads to a session of this user.
unfoldable pub NoSession : Bytes → Assoc SessionRow → Type 0
NoSession user_id sessions =
    (hash : Bytes) (s : SessionRow)
    → lookup hash sessions ≡ some s
    → (s.user_id == user_id) ≡ true
    → is_some s.revoked_at ≡ true

revoke_change :
    (user_id : Bytes) (now : ℕ) (s : SessionRow)
    → ((change (is_open user_id) (revoke_session now) s).user_id == user_id) ≡ true
    → is_some (change (is_open user_id) (revoke_session now) s).revoked_at ≡ true
revoke_change user_id now s h = elim (Bool-cases (is_open user_id s)) [
  | inl e ↦ rw e refl
  | inr e ↦ let same : (s.user_id == user_id) ≡ true = rw e at h in rw e (ground (arith, e, same))
]

changed-some {ℓ} :
    {A : Type ℓ} (p : A → Bool) (f : A → A) (o : Option A) (b : A)
    → changed p f o ≡ some b
    → (a : A) × (o ≡ some a) × (change p f a ≡ b)
changed-some p f none b h = cc
changed-some p f (some a) b h = (a, refl, some_injective _ b h)

pub query_found {ℓ} :
    {A : Type ℓ} (store : Option (Bytes → Lookup A)) (get : Bytes → Lookup A) (hash : Bytes) (a : A)
    → store ≡ some get
    → get hash ≡ found a
    → query store hash ≡ ok a
query_found store get hash a e f = rw (e, f) refl

pub revoke_all_for_user-NoSession :
    (user_id : Bytes) (now : ℕ) (sessions : Assoc SessionRow)
    → NoSession user_id (revoke_all_for_user user_id now sessions)
unfolding NoSession revoke_all_for_user
revoke_all_for_user-NoSession user_id now sessions hash s stored same =
    let (a, e, c) =
      changed-some (is_open user_id) (revoke_session now) (lookup hash sessions) s
        (sym (lookup-update_where hash (is_open user_id) (revoke_session now) sessions) ∙ stored) in
    rw (← c) (revoke_change user_id now a (rw c same))

-- Where no session of a user is left, the interceptor refuses every session token that leads to a
-- session of that user.
pub NoSession-refused :
    (stores : Stores) (sessions : Assoc SessionRow) (user_id : Bytes) (now : ℕ) (raw_token : Bytes)
    (procedure : String) (s : SessionRow)
    → ReadsSessions stores sessions
    → NoSession user_id sessions
    → lookup (stores.hash_token raw_token) sessions ≡ some s
    → (s.user_id == user_id) ≡ true
    → resolve_session stores now raw_token procedure ≡ err unauthenticated
unfolding resolve_session NoSession
NoSession-refused stores sessions user_id now raw_token procedure s reads none_left stored same =
    rw (query_found _ _ (stores.hash_token raw_token) s reads (ap or_missing stored)) (
      revoked_refused stores now s procedure
        (none_left (stores.hash_token raw_token) s stored same))
