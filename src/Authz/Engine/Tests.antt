-- ===== src/Authz/Engine/Tests.antt =====
-- Runs of the batch evaluation at concrete answers.
use hades.Authz.Engine.Agreement.{Decides, batch_allow-agrees, index_item}
use hades.Authz.Engine.FailClosed.{InRange, batch_allow-fail_closed, denies}
use hades.Prelude.{
  All, Bool, Bool-cases, List, [], any, arith, contains, false, get_elem?, if◌then◌else◌, inl, inr,
  length, map, not, refl, some, suc, true, zero, ℕ, ◌<◌, ◌==◌, ◌∙◌, ◌∷◌, ◌≡◌, nat_eq, bytes_eq,
  string_eq,
}
use hades.Prelude.Int.{pos}
use hades.Result.{Result, err, ok, unknown}
use hades.Constants.{Policy, action_read}
use hades.Authz.Engine.{
  Item, ResultSet, Value, allow, batch_allow, boolean, first_value, items, json_number, mark,
  other_value,
}

abbrev blank : Policy
blank = record { subject = []; domain = []; resource_type = []; action = []; visibility = [] }

abbrev answers : Value → List Policy → Result ResultSet
answers v ps = ok ((v ∷ []) ∷ [])

engine_tests :
    (batch_allow (answers (items (json_number (some (pos 1)) ∷ []))) (blank ∷ blank ∷ [])
      ≡ ok (true ∷ false ∷ []))
    × (batch_allow (answers (items (json_number (some (pos 2)) ∷ []))) (blank ∷ blank ∷ [])
        ≡ err unknown)
    × (batch_allow (answers other_value) (blank ∷ []) ≡ err unknown)
    × (allow (λ p. ok []) blank ≡ ok false)
unfolding batch_allow mark allow
engine_tests = (refl, refl, refl, refl)

abbrev one_denied : List Policy → Result ResultSet
one_denied = answers (items (json_number (some (pos 1)) ∷ []))

batch_allow-fail_closed_example :
    (rs : ResultSet) × (ds : List Item) × (one_denied (blank ∷ blank ∷ []) ≡ ok rs)
    × (first_value rs ≡ some (items ds))
    × All (InRange 2) ds
    × (length (true ∷ false ∷ []) ≡ length (blank ∷ blank ∷ []))
    × ((i : ℕ) → i < 2 → get_elem? (true ∷ false ∷ []) i ≡ some (not (any (denies i) ds)))
unfolding batch_allow mark
batch_allow-fail_closed_example =
    batch_allow-fail_closed one_denied (blank ∷ blank ∷ []) (true ∷ false ∷ []) (λ e. cc) refl

abbrev reads_only : Policy → Bool
reads_only p = p.action == action_read

-- The positions of the policies that do not read.
abbrev not_reading : List Policy → List ℕ
not_reading [] = []
not_reading (p ∷ ps) =
    if reads_only p then map suc (not_reading ps) else zero ∷ map suc (not_reading ps)

contains-suc : (i : ℕ) (is : List ℕ) → contains (map suc is) (suc i) ≡ contains is i
contains-suc i [] = refl
contains-suc i (j ∷ is) = ground (arith, contains-suc i is)

contains-zero : (is : List ℕ) → contains (map suc is) zero ≡ false
contains-zero [] = refl
contains-zero (j ∷ is) = ground (arith, contains-zero is)

All-suc : (n : ℕ) (is : List ℕ) → All (λ i. i < n) is → All (λ i. i < suc n) (map suc is)
All-suc n [] h = tt
All-suc n (i ∷ is) (h, hs) = (omega arith, All-suc n is hs)

not_reading-positions : (ps : List Policy) → All (λ i. i < length ps) (not_reading ps)
not_reading-positions [] = tt
not_reading-positions (p ∷ ps) = elim (Bool-cases (reads_only p)) [
  | inl e ↦ rw e (All-suc (length ps) (not_reading ps) (not_reading-positions ps))
  | inr e ↦ rw e (omega arith, All-suc (length ps) (not_reading ps) (not_reading-positions ps))
]

not_reading-member :
    (ps : List Policy) (i : ℕ) (p : Policy)
    → get_elem? ps i ≡ some p
    → contains (not_reading ps) i ≡ not (reads_only p)
not_reading-member [] i p h = cc
not_reading-member (q ∷ ps) zero p h = elim (Bool-cases (reads_only q)) [
  | inl e ↦ rw e (contains-zero (not_reading ps) ∙ ground (arith, h, e))
  | inr e ↦ rw e (ground (arith, h, e))
]
not_reading-member (q ∷ ps) (suc i) p h = elim (Bool-cases (reads_only q)) [
  | inl e ↦ rw e (contains-suc i (not_reading ps) ∙ not_reading-member ps i p h)
  | inr e ↦ rw (e, contains-suc i (not_reading ps)) (ground (arith, not_reading-member ps i p h))
]

reads_only-Decides :
    Decides reads_only
      (λ p. ok ((boolean (reads_only p) ∷ []) ∷ []))
      (λ ps. ok ((items (map index_item (not_reading ps)) ∷ []) ∷ []))
reads_only-Decides = record {
  single = λ p. refl;
  denied = not_reading;
  batch = λ ps. refl;
  positions = not_reading-positions;
  member = not_reading-member;
}

batch_allow-agrees_example :
    (batch_allow (λ ps. ok ((items (map index_item (not_reading ps)) ∷ []) ∷ [])) (blank ∷ [])
      ≡ ok (map reads_only (blank ∷ [])))
    × (allow (λ p. ok ((boolean (reads_only p) ∷ []) ∷ [])) blank ≡ ok (reads_only blank))
batch_allow-agrees_example =
    batch_allow-agrees reads_only (λ p. ok ((boolean (reads_only p) ∷ []) ∷ []))
      (λ ps. ok ((items (map index_item (not_reading ps)) ∷ []) ∷ [])) reads_only-Decides
      (blank ∷ []) blank
