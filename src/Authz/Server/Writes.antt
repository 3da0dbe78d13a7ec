-- ===== src/Authz/Server/Writes.antt =====
-- `BatchCan` against `Can` on each policy.
use hades.Prelude.{
  All, Bool, Bool-cases, List, Memᴰ, Option, Option-cases, [], arith, false, if◌then◌else◌, inl,
  inr, map, none, refl, some, sym, true, ◌&&◌, ◌∷◌, ◌≡◌, ◌⊎◌,
}
use hades.Result.{Result, ok}
use hades.Constants.{CanResponse, Policy}
use hades.Authz.Scopes.{Scopes}
use hades.Authz.Server.{
  Engine, as_private, batch_can, can, denied, first_denied, first_out_of_scope, granted, in_scope,
}
use hades.Authz.Server.Reads.{Decided}

module _ (decide : Policy → Bool) (engine : Engine) (ctx : Option Scopes)
    (d : Decided decide engine) where
  -- `Can` as one test.
  abbrev can_test : Policy → Bool
  can_test p = in_scope ctx p && decide (as_private p)

  can-test : (p : Policy) → can engine ctx p ≡ ok (if can_test p then granted else denied p)
  unfolding can
  can-test p = ground (arith, d.single (as_private p))

  abbrev Outcome : Result CanResponse → List Policy → Type 0
  Outcome r ps =
      ((r ≡ ok granted) × All (λ p. can engine ctx p ≡ ok granted) ps)
      ⊎ ((p : Policy) × Memᴰ p ps × (r ≡ ok (denied p)) × (can engine ctx p ≡ ok (denied p)))

  out_of_scope-Outcome :
      (ps : List Policy) (p : Policy)
      → first_out_of_scope ctx ps ≡ some p
      → Memᴰ p ps × (in_scope ctx p ≡ false)
  unfolding first_out_of_scope
  out_of_scope-Outcome [] p h = cc
  out_of_scope-Outcome (q ∷ ps) p h = elim (Bool-cases (in_scope ctx q)) [
    | inl e ↦ let (m, f) = out_of_scope-Outcome ps p (ground (arith, e)) in (Memᴰ.tail m, f)
    | inr e ↦ let same : q ≡ p = ground (arith, e) in (Memᴰ.head (sym same), rw (← same) e)
  ]

  in_scope-All :
      (ps : List Policy) → first_out_of_scope ctx ps ≡ none → All (λ p. in_scope ctx p ≡ true) ps
  unfolding first_out_of_scope
  in_scope-All [] h = tt
  in_scope-All (p ∷ ps) h = elim (Bool-cases (in_scope ctx p)) [
    | inl e ↦ (e, in_scope-All ps (ground (arith, e)))
    | inr e ↦ absurd (ground (arith, e))
  ]

  first_denied-Outcome :
      (ps : List Policy)
      → All (λ p. in_scope ctx p ≡ true) ps
      → Outcome (first_denied (map decide (map as_private ps)) ps) ps
  unfolding first_denied
  first_denied-Outcome [] h = inl (refl, tt)
  first_denied-Outcome (p ∷ ps) (h, hs) = elim (Bool-cases (decide (as_private p))) [
    | inl e ↦ elim (first_denied-Outcome ps hs) [
      | inl (f, k) ↦ inl (rw e f, (ground (arith, can-test p), k))
      | inr (q, m, f, k) ↦ inr (q, Memᴰ.tail m, rw e f, k)
    ]
    | inr e ↦ inr (p, Memᴰ.head refl, rw e refl, ground (arith, can-test p))
  ]

  batch_can-Outcome : (ps : List Policy) → Outcome (batch_can engine ctx ps) ps
  unfolding batch_can
  batch_can-Outcome [] = inl (refl, tt)
  batch_can-Outcome (p ∷ ps) = elim (Option-cases (first_out_of_scope ctx (p ∷ ps))) [
    | inl n ↦
        rw (n, d.batch (map as_private (p ∷ ps)))
          (first_denied-Outcome (p ∷ ps) (in_scope-All (p ∷ ps) n))
    | inr (q, e) ↦
        let (m, f) = out_of_scope-Outcome (p ∷ ps) q e in
        rw e (inr (q, m, refl, ground (arith, can-test q)))
  ]

-- With an engine that decides every policy, `BatchCan` always answers: it grants, and then `Can`
-- grants each of the policies alone, or it names a policy of the batch that `Can` denies.
pub batch_can-agrees :
    (decide : Policy → Bool) (engine : Engine) (ctx : Option Scopes) (ps : List Policy)
    → Decided decide engine
    → ((batch_can engine ctx ps ≡ ok granted) × All (λ p. can engine ctx p ≡ ok granted) ps)
      ⊎ ((p : Policy) × Memᴰ p ps
          × (batch_can engine ctx ps ≡ ok (denied p))
          × (can engine ctx p ≡ ok (denied p)))
batch_can-agrees decide engine ctx ps d = batch_can-Outcome decide engine ctx d ps
