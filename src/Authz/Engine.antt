-- ===== src/Authz/Engine.antt =====
-- internal/hades/authorization/engine.go: `Allow`, `BatchAllow` and `toInt` over the answers of
-- the policy evaluator, which is a library: its two prepared queries are parameters.
pub mod FailClosed
pub mod Agreement
mod Tests
use hades.Prelude.{
  Bool, List, Option, [], false, if◌then◌else◌, length, ltb, none, replicate, set, some, true, ℕ,
  ◌∷◌,
}
use hades.Prelude.Int.{negsuc, pos, ℤ}
use hades.Result.{Result, err, ok, unknown, ◌>>=◌}
use hades.Constants.{Policy}

-- An element of the set of indices: `json.Number` with what its Int64() returns, `float64` with
-- its conversion to int, or a value of another type.
pub data Item : Type 0 where
  json_number : Option ℤ → Item
  float64 : ℤ → Item
  other_item : Item

pub data Value : Type 0 where
  boolean : Bool → Value
  items : List Item → Value
  other_value : Value

-- rego.ResultSet: the expression values of each result.
abbrev pub ResultSet : Type 0
ResultSet = List (List Value)

-- rs[0].Expressions[0].Value, where there is one
abbrev pub first_value : ResultSet → Option Value
first_value [] = none
first_value ([] ∷ rs) = none
first_value ((v ∷ vs) ∷ rs) = some v

abbrev pub decision : Option Value → Bool
decision none = false
decision (some (boolean b)) = b
decision (some v) = false

-- toInt(v); `none` for ok = false
abbrev pub to_int : Item → Option ℤ
to_int (json_number n) = n
to_int (float64 n) = some n
to_int other_item = none

-- The slice with one index marked as denied; `none` for an error.
abbrev pub mark_index : Option ℤ → List Bool → Option (List Bool)
mark_index none results = none
mark_index (some (negsuc i)) results = none
mark_index (some (pos i)) results =
    if ltb i (length results) then some (set results i false) else none

-- The loop over `denied`.
pub mark : List Item → List Bool → Result (List Bool)
mark [] results = ok results
mark (d ∷ ds) results = elim (mark_index (to_int d) results) [
  | none ↦ err unknown
  | some results' ↦ mark ds results'
]

batch_decision : ℕ → Option Value → Result (List Bool)
batch_decision n none = err unknown
batch_decision n (some (items ds)) = mark ds (replicate n true)
batch_decision n (some (boolean b)) = err unknown
batch_decision n (some other_value) = err unknown

-- Engine.Allow(input) after `e.query.Eval`
unfoldable pub allow : (Policy → Result ResultSet) → Policy → Result Bool
allow eval input = do rs ← eval input; ok (decision (first_value rs))

-- Engine.BatchAllow(inputs) after `e.batchQuery.Eval`
unfoldable pub batch_allow : (List Policy → Result ResultSet) → List Policy → Result (List Bool)
unfolding batch_decision
batch_allow eval_batch [] = ok []
batch_allow eval_batch (p ∷ ps) = do
  rs ← eval_batch (p ∷ ps)
  batch_decision (length (p ∷ ps)) (first_value rs)
