-- ===== src/Effects.antt =====
-- Handlers that write: actions on the state that the statements of a database change. Each
-- statement may fail, as a schedule of failures says, so that every error branch of a handler is
-- reached by some schedule. utils/connerr/pgx.go: `FromDB`;
-- internal/hades/storage/db/uow.go: `Do`.
pub mod Laws
use hades.Prelude.{Bool, List, Option, [], if◌then◌else◌, none, some, ◌∷◌}
use hades.Result.{
  Code, Result, already_exists, canceled, deadline_exceeded, err, failed_precondition, internal,
  not_found, ok, unknown,
}

-- The errors that FromDB tells apart.
pub data DbError : Type 0 where
  no_rows unique_violation foreign_key_violation context_canceled context_expired : DbError
  other_failure : DbError

-- connerr.FromDB
abbrev pub from_db : DbError → Code
from_db no_rows = not_found
from_db unique_violation = already_exists
from_db foreign_key_violation = failed_precondition
from_db context_canceled = canceled
from_db context_expired = deadline_exceeded
from_db other_failure = internal

pub data Reply {ℓ} (A : Type ℓ) : Type ℓ where
  replied : A → Reply A
  failed : DbError → Reply A

-- A statement on the state S of a store: its reply, and the state after it.
abbrev pub Statement {ℓ κ} : Type ℓ → Type κ → Type (ℓ ⊔ κ)
Statement S A = S → Reply A × S

-- The failures to come, one for each statement, and the state.
abbrev pub World {ℓ} : Type ℓ → Type ℓ
World S = List (Option DbError) × S

abbrev pub Action {ℓ κ} : Type ℓ → Type κ → Type (ℓ ⊔ κ)
Action S A = World S → Result A × World S

module _ {ℓ κ} {S : Type ℓ} {A : Type κ} where
  abbrev pub return : A → Action S A
  return a w = (ok a, w)

  abbrev pub fail : Code → Action S A
  fail code w = (err code, w)

  abbrev reply_in : List (Option DbError) → Reply A × S → Result (Reply A) × World S
  reply_in fs (reply, s) = (ok reply, (fs, s))

  -- A statement whose error the code inspects itself. A failed statement changes nothing.
  unfoldable pub ask : Statement S A → Action S (Reply A)
  ask statement ([], s) = reply_in [] (statement s)
  ask statement (none ∷ fs, s) = reply_in fs (statement s)
  ask statement (some e ∷ fs, s) = (ok (failed e), (fs, s))

  abbrev pub or_code : (DbError → Code) → Result (Reply A) × World S → Result A × World S
  or_code code (ok (replied a), w) = (ok a, w)
  or_code code (ok (failed e), w) = (err (code e), w)
  or_code code (err c, w) = (err c, w)

  -- A statement whose error ends the handler with a code.
  unfoldable pub call : (DbError → Code) → Statement S A → Action S A
  unfolding ask
  call code statement w = or_code code (ask statement w)

  abbrev pub restore : S → Result A × World S → Result A × World S
  restore s (ok a, w) = (ok a, w)
  restore s (err c, (fs, t)) = (err c, (fs, s))

module _ {ℓ κ μ} {S : Type ℓ} {A : Type κ} {B : Type μ} where
  abbrev pub resume : (A → Action S B) → Result A × World S → Result B × World S
  resume rest (ok a, w) = rest a w
  resume rest (err c, w) = (err c, w)

  abbrev pub ◌>>=◌ : Action S A → (A → Action S B) → Action S B
  ◌>>=◌ first rest w = resume rest (first w)

infixl 5 ◌>>=◌
-- A call that may refuse and changes nothing.
unfoldable pub consult {ℓ κ} : {S : Type ℓ} {A : Type κ} → (S → Result A) → Action S A
consult f w = (f w.1, w)

-- A statement that reads only.
abbrev pub reads {ℓ κ} : {S : Type ℓ} {A : Type κ} → (S → Reply A) → Statement S A
reads f s = (f s, s)

-- A statement that writes only.
abbrev pub writes {ℓ} : {S : Type ℓ} → (S → S) → Statement S (Unit {0})
writes f s = (replied tt, f s)

-- if condition { return code }
abbrev pub refuse_if {ℓ} : {S : Type ℓ} → Bool → Code → Action S (Unit {0})
refuse_if condition code w = (if condition then err code else ok tt, w)

abbrev pub found_or_none {ℓ} : {A : Type ℓ} → Option A → Reply A
found_or_none none = failed no_rows
found_or_none (some a) = replied a

-- UnitOfWork.Do: BEGIN and COMMIT are statements that may fail with an error that is no Connect
-- error, and any error undoes every write.
module _ {ℓ κ} {S : Type ℓ} {A : Type κ} where
  unfoldable pub within : Action S A → Action S A
  unfolding call
  within body = do
    begun ← call (λ e. unknown) (writes (λ (t : S). t))
    a ← body
    committed ← call (λ e. unknown) (writes (λ (t : S). t))
    return a

  unfoldable pub transaction : Action S A → Action S A
  unfolding within
  transaction body (fs, s) = restore s (within body (fs, s))

-- UnitOfWork.Do where the state has a part that is not of the database: `undo` puts the tables
-- of the first state into the second.
module _ {ℓ κ} {S : Type ℓ} {A : Type κ} (undo : S → S → S) where
  abbrev pub undone : S → Result A × World S → Result A × World S
  undone s (ok a, w) = (ok a, w)
  undone s (err c, (fs, t)) = (err c, (fs, undo s t))

  unfoldable pub transaction_over : Action S A → Action S A
  unfolding within
  transaction_over body (fs, s) = undone s (within body (fs, s))
