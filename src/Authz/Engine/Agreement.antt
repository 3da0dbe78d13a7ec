-- ===== src/Authz/Engine/Agreement.antt =====
-- With an evaluator that decides policies, the batch path and the single path agree.
use hades.Prelude.{
  All, Bool, List, [], any, ap, arith, contains, false, get_elem?, get_elem?-ext, get_elem?-lt,
  get_elem?-map, length, length-map, length-replicate, length-set, map, not, refl, replicate, set,
  some, sym, true, ℕ, ◌<◌, ◌∙◌, ◌∷◌, ◌≡◌, nat_eq, bytes_eq, string_eq,
}
use hades.Prelude.Int.{pos}
use hades.Result.{Result, ok}
use hades.Constants.{Policy}
use hades.Authz.Engine.{Item, ResultSet, allow, batch_allow, boolean, items, json_number, mark}
use hades.Authz.Engine.FailClosed.{Marked, Marked-entry, denies, mark-Marked}

abbrev pub index_item : ℕ → Item
index_item i = json_number (some (pos i))

-- What the engine relies on: the query `allow` yields one Boolean, and the query `denied_indices`
-- yields a set of numbers, which are the positions of the policies that are not allowed.
pub record Decides (decide : Policy → Bool) (eval : Policy → Result ResultSet)
    (eval_batch : List Policy → Result ResultSet) : Type 0 where
  pub single : (p : Policy) → eval p ≡ ok ((boolean (decide p) ∷ []) ∷ [])
  pub denied : List Policy → List ℕ
  pub batch :
      (ps : List Policy) → eval_batch ps ≡ ok ((items (map index_item (denied ps)) ∷ []) ∷ [])
  pub positions : (ps : List Policy) → All (λ i. i < length ps) (denied ps)
  pub member :
      (ps : List Policy) (i : ℕ) (p : Policy)
      → get_elem? ps i ≡ some p
      → contains (denied ps) i ≡ not (decide p)

mark-total :
    (is : List ℕ) (rs : List Bool)
    → All (λ i. i < length rs) is
    → (out : List Bool) × (mark (map index_item is) rs ≡ ok out)
unfolding mark
mark-total [] rs h = (rs, refl)
mark-total (i ∷ is) rs (h, hs) =
    let (out, e) = mark-total is (set rs i false) (rw (length-set rs i false) hs) in
    (out, ground (arith, e))

any-denies : (i : ℕ) (is : List ℕ) → any (denies i) (map index_item is) ≡ contains is i
any-denies i [] = refl
any-denies i (j ∷ is) = ground (arith, any-denies i is)

module _ (decide : Policy → Bool) (eval : Policy → Result ResultSet)
    (eval_batch : List Policy → Result ResultSet) (d : Decides decide eval eval_batch) where
  Marked-map :
      (ps : List Policy) (out : List Bool)
      → Marked (map index_item (d.denied ps)) (replicate (length ps) true) out
      → out ≡ map decide ps
  Marked-map ps out m =
      get_elem?-ext out (map decide ps)
        (m.same_length ∙ length-replicate (length ps) true ∙ sym (length-map decide ps))
        λ i k.
          let lt : i < length ps =
            omega (arith, m.same_length, length-replicate (length ps) true) in
          let (p, e) = get_elem?-lt ps i lt in
          ground (
            arith,
            Marked-entry (length ps) (map index_item (d.denied ps)) out i m lt,
            any-denies i (d.denied ps),
            d.member ps i p e,
            get_elem?-map decide ps i e,
          )

  batch_allow-map : (ps : List Policy) → batch_allow eval_batch ps ≡ ok (map decide ps)
  unfolding batch_allow
  batch_allow-map [] = refl
  batch_allow-map (p ∷ ps) =
      let (out, e) =
        mark-total (d.denied (p ∷ ps)) (replicate (length (p ∷ ps)) true)
          (rw (length-replicate (length (p ∷ ps)) true) (d.positions (p ∷ ps))) in
      let same : out ≡ map decide (p ∷ ps) = Marked-map (p ∷ ps) out (mark-Marked _ _ out e) in
      rw (d.batch (p ∷ ps)) (e ∙ ap ok same)

-- With an evaluator that decides every policy object, `BatchAllow` returns the decisions of its
-- policies in order, and each is what `Allow` returns for that policy alone.
pub batch_allow-agrees :
    (decide : Policy → Bool) (eval : Policy → Result ResultSet)
    (eval_batch : List Policy → Result ResultSet)
    → Decides decide eval eval_batch
    → (ps : List Policy) (p : Policy)
    → (batch_allow eval_batch ps ≡ ok (map decide ps)) × (allow eval p ≡ ok (decide p))
unfolding allow
batch_allow-agrees decide eval eval_batch d ps p =
    (batch_allow-map decide eval eval_batch d ps, rw (d.single p) refl)
