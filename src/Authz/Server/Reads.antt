-- ===== src/Authz/Server/Reads.antt =====
-- Who may read: `CheckReadAccess` against a specification that names no order and no batch.
use hades.Prelude.{
  All, Bool, Bytes, List, Option, [], all, ap, arith, false, inl, inr, map, none, not, refl, some,
  true, ◌&&◌, ◌||◌, ◌↔◌, ◌∙◌, ◌∷◌, ◌≡◌, ◌⊎◌,
}
use hades.Result.{Code, Result, Result-cases, err, not_found, ok, ◌>>=◌}
use hades.Constants.{Policy}
use hades.Authz.Server.{
  Engine, Module, all_allowed, ask_engine, check_read_access, is_private, may_read_scope, pending,
  read_policy,
}
use hades.Authz.Scopes.{Scopes}

-- An engine that gives one decision for each policy, alone or in a batch.
pub record Decided (decide : Policy → Bool) (engine : Engine) : Type 0 where
  pub single : (p : Policy) → engine.allow p ≡ ok (decide p)
  pub batch : (ps : List Policy) → engine.batch_allow ps ≡ ok (map decide ps)

abbrev user_may_read : (Policy → Bool) → Option Bytes → Module → Bool
user_may_read decide none m = false
user_may_read decide (some u) m = decide (read_policy u m)

-- The credential's scopes cover the module, and it is public or the named caller may read it.
abbrev pub is_readable : (Policy → Bool) → Option Scopes → Option Bytes → Module → Bool
is_readable decide ctx user m =
    may_read_scope ctx m && (not (is_private m.visibility) || user_may_read decide user m)

abbrev read_run : (Policy → Bool) → Option Scopes → Option Bytes → List Module → Result (Unit {0})
read_run decide ctx user ms = pending ctx user ms >>= λ qs. all_allowed (map decide qs)

read_run-all :
    (decide : Policy → Bool) (ctx : Option Scopes) (user : Option Bytes) (ms : List Module)
    → (read_run decide ctx user ms ≡ ok tt) ↔ (all (is_readable decide ctx user) ms ≡ true)
unfolding pending all_allowed
read_run-all decide ctx user [] = ground arith
read_run-all decide ctx none (m ∷ ms) = ground (arith, read_run-all decide ctx none ms)
read_run-all decide ctx (some u) (m ∷ ms) = ground (arith, read_run-all decide ctx (some u) ms)

ask_engine-all_allowed :
    (decide : Policy → Bool) (engine : Engine) (ctx : Option Scopes) (qs : List Policy)
    → Decided decide engine
    → ask_engine engine ctx qs ≡ all_allowed (map decide qs)
unfolding ask_engine all_allowed
ask_engine-all_allowed decide engine ctx [] d = refl
ask_engine-all_allowed decide engine ctx (q ∷ qs) d = rw (d.batch (q ∷ qs)) refl

check_read_access-run :
    (decide : Policy → Bool) (engine : Engine) (ctx : Option Scopes) (user : Option Bytes)
    (ms : List Module)
    → Decided decide engine
    → check_read_access engine ctx user ms ≡ read_run decide ctx user ms
unfolding check_read_access
check_read_access-run decide engine ctx user ms d = elim (Result-cases (pending ctx user ms)) [
  | inl (qs, e) ↦ rw e (ask_engine-all_allowed decide engine ctx qs d)
  | inr (c, e) ↦ rw e refl
]

-- With an engine that decides every policy, `CheckReadAccess` lets a list of modules through
-- exactly when for each of them the credential's scopes cover module:read on its name, and it is
-- not private or a named caller's read policy for it is allowed.
pub check_read_access_iff :
    (decide : Policy → Bool) (engine : Engine) (ctx : Option Scopes) (user : Option Bytes)
    (ms : List Module)
    → Decided decide engine
    → (check_read_access engine ctx user ms ≡ ok tt) ↔ (all (is_readable decide ctx user) ms ≡ true)
check_read_access_iff decide engine ctx user ms d =
    rw (check_read_access-run decide engine ctx user ms d) (read_run-all decide ctx user ms)

abbrev pub IsPrivate : Module → Type 0
IsPrivate m = is_private m.visibility ≡ true

pending-private :
    (ctx : Option Scopes) (user : Option Bytes) (ms : List Module) {c : Code}
    → All IsPrivate ms
    → pending ctx user ms ≡ err c
    → c ≡ not_found
unfolding pending
pending-private ctx user [] h e = cc
pending-private ctx none (m ∷ ms) (h, hs) e = ground arith
pending-private ctx (some u) (m ∷ ms) {c} (h, hs) e =
    ground (arith, λ (f : pending ctx (some u) ms ≡ err c). pending-private ctx (some u) ms hs f)

all_allowed-error : (bs : List Bool) {c : Code} → all_allowed bs ≡ err c → c ≡ not_found
unfolding all_allowed
all_allowed-error [] e = cc
all_allowed-error (true ∷ bs) e = all_allowed-error bs e
all_allowed-error (false ∷ bs) e = cc

ask_engine-error :
    (engine : Engine) (ctx : Option Scopes) (qs : List Policy) {c : Code}
    → ask_engine engine ctx qs ≡ err c
    → (c ≡ not_found) ⊎ (engine.batch_allow qs ≡ err c)
unfolding ask_engine
ask_engine-error engine ctx [] e = cc
ask_engine-error engine ctx (q ∷ qs) e = elim (Result-cases (engine.batch_allow (q ∷ qs))) [
  | inl (bs, f) ↦ inl (all_allowed-error bs (rw f at e))
  | inr (c', f) ↦ inr (f ∙ ground (arith, f))
]

-- Whoever asks, with whatever credential and engine, a refusal of private modules is NotFound,
-- unless it is an error of the engine itself: it never tells that a module exists.
pub private_refusal_hides :
    (engine : Engine) (ctx : Option Scopes) (user : Option Bytes) (ms : List Module) {c : Code}
    → All IsPrivate ms
    → check_read_access engine ctx user ms ≡ err c
    → (c ≡ not_found) ⊎ ((qs : List Policy) × (engine.batch_allow qs ≡ err c))
unfolding check_read_access
private_refusal_hides engine ctx user ms {c} h e = elim (Result-cases (pending ctx user ms)) [
  | inl (qs, f) ↦ elim (ask_engine-error engine ctx qs (rw f at e)) [
    | inl n ↦ inl n
    | inr g ↦ inr (qs, g)
  ]
  | inr (c', f) ↦
      let same : c' ≡ c = ground (arith, f) in inl (pending-private ctx user ms h (f ∙ ap err same))
]
