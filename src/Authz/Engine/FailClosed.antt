-- ===== src/Authz/Engine/FailClosed.antt =====
-- A batch answer that is not a set of valid indices grants nothing.
use hades.Prelude.{
  All, Bool, List, Option, Option-cases, [], any, arith, false, get_elem?, get_elem?-replicate,
  get_elem?-set, if◌then◌else◌, inl, inr, length, length-replicate, length-set, nat_beq, none, not,
  refl, replicate, set, some, true, ℕ, ◌<◌, ◌∙◌, ◌∷◌, ◌≡◌, ◌≢◌,
}
use hades.Prelude.Int.{negsuc, pos, ℤ}
use hades.Result.{Result, Result-cases, ok}
use hades.Authz.Engine.{
  Item, ResultSet, Value, batch_allow, batch_decision, boolean, first_value, items, mark,
  mark_index, other_value, to_int,
}
use hades.Constants.{Policy}

-- The item denies the index.
abbrev pub denies : ℕ → Item → Bool
denies i d = elim (to_int d) [ none ↦ false | some (pos j) ↦ nat_beq j i | some (negsuc j) ↦ false ]

-- The item is an index of a list of n policies.
abbrev pub InRange : ℕ → Item → Type 0
InRange n d = (j : ℕ) × (to_int d ≡ some (pos j)) × (j < n)

-- One round of the loop.
mark_index_lem :
    (o : Option ℤ) (rs rs' : List Bool)
    → mark_index o rs ≡ some rs'
    → (j : ℕ) × (o ≡ some (pos j)) × (j < length rs) × (rs' ≡ set rs j false)
mark_index_lem none rs rs' h = cc
mark_index_lem (some (negsuc j)) rs rs' h = cc
mark_index_lem (some (pos j)) rs rs' h = (j, refl, ground arith, ground arith)

pub record Marked (ds : List Item) (rs out : List Bool) : Type 0 where
  pub same_length : length out ≡ length rs
  pub in_range : All (InRange (length rs)) ds
  pub entry :
      (i : ℕ)
      → i < length rs
      → get_elem? out i ≡ (if any (denies i) ds then some false else get_elem? rs i)

All-map {ℓ κ μ} :
    {A : Type ℓ} {P : A → Type κ} {Q : A → Type μ} (xs : List A)
    → ((x : A) → P x → Q x)
    → All P xs
    → All Q xs
All-map [] f h = tt
All-map (x ∷ xs) f (h, hs) = (f x h, All-map xs f hs)

denies-pos : (i : ℕ) (d : Item) (j : ℕ) → to_int d ≡ some (pos j) → denies i d ≡ nat_beq j i
denies-pos i d j e = rw (e, denies) refl

mark-Marked_step :
    (d : Item) (ds : List Item) (rs out : List Bool) (j : ℕ)
    → to_int d ≡ some (pos j)
    → j < length rs
    → Marked ds (set rs j false) out
    → Marked (d ∷ ds) rs out
mark-Marked_step d ds rs out j e lt m =
    let same : length (set rs j false) ≡ length rs = length-set rs j false in
    record {
      same_length = m.same_length ∙ same;
      in_range = ((j, e, lt), rw same at m.in_range);
      entry = λ i k. ground (
        arith,
        m.entry i (omega (arith, same)),
        get_elem?-set rs j i false k,
        denies-pos i d j e,
      );
    }

pub mark-Marked : (ds : List Item) (rs out : List Bool) → mark ds rs ≡ ok out → Marked ds rs out
unfolding mark
mark-Marked [] rs out h =
    let e : rs ≡ out = cc in
    rw (← e) (record { same_length = refl; in_range = tt; entry = λ i k. refl })
mark-Marked (d ∷ ds) rs out h = elim (Option-cases (mark_index (to_int d) rs)) [
  | inl n ↦ absurd (ground (arith, n))
  | inr (rs', f) ↦
      let (j, ed, lt, es) = mark_index_lem (to_int d) rs rs' f in
      let rest : mark ds rs' ≡ ok out = ground (arith, f) in
      mark-Marked_step d ds rs out j ed lt (rw es at (mark-Marked ds rs' out rest))
]

batch_decision_lem :
    (n : ℕ) (o : Option Value) (out : List Bool)
    → batch_decision n o ≡ ok out
    → (ds : List Item) × (o ≡ some (items ds)) × (mark ds (replicate n true) ≡ ok out)
unfolding batch_decision
batch_decision_lem n none out h = cc
batch_decision_lem n (some (items ds)) out h = (ds, refl, h)
batch_decision_lem n (some (boolean b)) out h = cc
batch_decision_lem n (some other_value) out h = cc

pub Marked-entry :
    (n : ℕ) (ds : List Item) (out : List Bool) (i : ℕ)
    → Marked ds (replicate n true) out
    → i < n
    → get_elem? out i ≡ some (not (any (denies i) ds))
Marked-entry n ds out i m k =
    ground
      (arith, m.entry i (omega (arith, length-replicate n true)), get_elem?-replicate n true i k)

-- Where `BatchAllow` returns decisions for a list of policies that is not empty, the evaluator
-- answered with a set of indices that are all in range, there is one entry for each policy, and an
-- entry is true exactly if no index names it: on a missing, malformed or out-of-range answer there
-- are no decisions.
pub batch_allow-fail_closed :
    (eval_batch : List Policy → Result ResultSet) (ps : List Policy) (out : List Bool)
    → ps ≢ []
    → batch_allow eval_batch ps ≡ ok out
    → (rs : ResultSet) × (ds : List Item) × (eval_batch ps ≡ ok rs)
      × (first_value rs ≡ some (items ds))
      × All (InRange (length ps)) ds
      × (length out ≡ length ps)
      × ((i : ℕ) → i < length ps → get_elem? out i ≡ some (not (any (denies i) ds)))
unfolding batch_allow
batch_allow-fail_closed eval_batch [] out n h = absurd (n refl)
batch_allow-fail_closed eval_batch (p ∷ ps) out n h = elim (Result-cases (eval_batch (p ∷ ps))) [
  | inl (rs, f) ↦
      let (ds, v, k) =
        batch_decision_lem (length (p ∷ ps)) (first_value rs) out (ground (arith, f)) in
      let m : Marked ds (replicate (length (p ∷ ps)) true) out =
        mark-Marked ds (replicate (length (p ∷ ps)) true) out k in
      let size : length (replicate (length (p ∷ ps)) true) ≡ length (p ∷ ps) =
        length-replicate (length (p ∷ ps)) true in
      (
        rs,
        ds,
        f,
        v,
        rw size at m.in_range,
        m.same_length ∙ size,
        λ i j. Marked-entry (length (p ∷ ps)) ds out i m j,
      )
  | inr (c, f) ↦ absurd (ground (arith, f))
]
