-- ===== src/Effects/Laws.antt =====
-- The laws of actions: which state a statement, a sequence and a transaction leave behind.
use mathlib.Core.Path.{subst}
use hades.Prelude.{Bool, List, Option, [], false, none, refl, some, true, ◌∷◌, ◌≡◌}
use hades.Effects.{
  Action, DbError, Reply, Statement, World, ask, call, consult, fail, failed, found_or_none,
  or_code, reads, refuse_if, replied, restore, resume, return, transaction, transaction_over,
  undone, within, ◌>>=◌,
}
use hades.Result.{Code, Result, err, ok}

module _ {ℓ κ} {S : Type ℓ} {A : Type κ} where
  pub restore-err :
      (s : S) (r : Result A × World S) (c : Code) → (restore s r).0 ≡ err c → (restore s r).1.1 ≡ s
  restore-err s (ok a, w) c h = cc
  restore-err s (err d, (fs, t)) c h = refl

  -- A transaction that fails leaves the state as it was.
  pub transaction-err :
      (body : Action S A) (w : World S) (c : Code)
      → (transaction body w).0 ≡ err c
      → (transaction body w).1.1 ≡ w.1
  unfolding transaction
  transaction-err body (fs, s) c h = restore-err s _ c h

-- What holds of the end of an action: Q of the value and the state, or E of the state after an
-- error.
module _ {ℓ κ ν} {S : Type ℓ} {A : Type κ} where
  abbrev pub Ends : (S → Type ν) → (A → S → Type ν) → Result A × World S → Type ν
  Ends E Q (ok a, w) = Q a w.1
  Ends E Q (err c, w) = E w.1

  -- From every state in P, whatever fails, the action ends as said.
  unfoldable pub Triple : (S → Type ν) → Action S A → (S → Type ν) → (A → S → Type ν) → Type (ℓ ⊔ ν)
  Triple P action E Q = (w : World S) → P w.1 → Ends E Q (action w)

  -- The action keeps P, whether it fails or not.
  abbrev pub Preserves : (S → Type ν) → Action S A → Type (ℓ ⊔ ν)
  Preserves P action = Triple P action P (λ a. P)

module _ {ℓ κ ν} {S : Type ℓ} {A : Type κ} (P E : S → Type ν) (Q : A → S → Type ν) where
  pub Triple-ask_reply :
      (Q' : Reply A → S → Type ν) (statement : Statement S A)
      → ((s : S) → P s → Q' (statement s).0 (statement s).1)
      → ((s : S) (e : DbError) → P s → Q' (failed e) s)
      → Triple P (ask statement) E Q'
  unfolding ask Triple
  Triple-ask_reply Q' statement h k ([], s) p = h s p
  Triple-ask_reply Q' statement h k (none ∷ fs, s) p = h s p
  Triple-ask_reply Q' statement h k (some e ∷ fs, s) p = k s e p

  -- What a reply of a statement must satisfy.
  abbrev pub Answers : Reply A → S → Type ν
  Answers (replied a) s = Q a s
  Answers (failed e) s = E s

  or_code-Ends :
      (code : DbError → Code) (r : Result (Reply A) × World S)
      → Ends E Answers r
      → Ends E Q (or_code code r)
  or_code-Ends code (ok (replied a), w) h = h
  or_code-Ends code (ok (failed e), w) h = h
  or_code-Ends code (err c, w) h = h

  pub Triple-call :
      (code : DbError → Code) (statement : Statement S A)
      → ((s : S) → P s → Answers (statement s).0 (statement s).1)
      → ((s : S) → P s → E s)
      → Triple P (call code statement) E Q
  unfolding call Triple
  Triple-call code statement h k w p =
      or_code-Ends code _ (Triple-ask_reply Answers statement h (λ s e. k s) w p)

module _ {ℓ κ} {S : Type ℓ} {A : Type κ} where
  answer-Answers :
      (P : S → Type (ℓ ⊔ κ)) (f : S → Reply A) (s : S) (r : Reply A)
      → f s ≡ r
      → P s
      → Answers P P (λ a t. P t × (f t ≡ replied a)) r s
  answer-Answers P f s (replied a) e p = (p, e)
  answer-Answers P f s (failed d) e p = p

  -- A statement that reads only tells what it found.
  pub Triple-reads :
      (P : S → Type (ℓ ⊔ κ)) (code : DbError → Code) (f : S → Reply A)
      → Triple P (call code (reads f)) P (λ a s. P s × (f s ≡ replied a))
  Triple-reads P code f =
      Triple-call P P _ code (reads f) (λ s p. answer-Answers P f s (f s) refl p) (λ s p. p)

module _ {ℓ κ ν} {S : Type ℓ} {A : Type κ} where
  pub Preserves-reads :
      (P : S → Type ν) (code : DbError → Code) (f : S → Reply A) → Preserves P (call code (reads f))
  Preserves-reads P code f =
      Triple-call P P (λ a. P) code (reads f) (λ s p. kept s (f s) p) (λ s p. p)
    where
      kept : (s : S) (r : Reply A) → P s → Answers P P (λ a. P) r s
      kept s (replied a) p = p
      kept s (failed e) p = p

  consult-Ends : (P : S → Type ν) (r : Result A) (w : World S) → P w.1 → Ends P (λ a. P) (r, w)
  consult-Ends P (ok a) w p = p
  consult-Ends P (err c) w p = p

  pub Preserves-consult : (P : S → Type ν) (f : S → Result A) → Preserves P (consult f)
  unfolding Triple consult
  Preserves-consult P f w p = consult-Ends P (f w.1) w p

  pub Triple-weaken :
      (P P' E : S → Type ν) (Q : A → S → Type ν) (action : Action S A)
      → ((s : S) → P' s → P s)
      → Triple P action E Q
      → Triple P' action E Q
  unfolding Triple
  Triple-weaken P P' E Q action h t w p = t w (h w.1 p)

module _ {ℓ κ ν} {S : Type ℓ} {A : Type κ} where
  pub Triple-forget :
      (P E E' : S → Type ν) (Q : A → S → Type ν) (action : Action S A)
      → ((s : S) → E s → E' s)
      → Triple P action E Q
      → Triple P action E' Q
  unfolding Triple
  Triple-forget P E E' Q action h t w p = go (action w) (t w p)
    where
      go : (r : Result A × World S) → Ends E Q r → Ends E' Q r
      go (ok a, v) e = e
      go (err c, v) e = h v.1 e

  pub Triple-conclude :
      (P E : S → Type ν) (Q Q' : A → S → Type ν) (action : Action S A)
      → ((a : A) (s : S) → Q a s → Q' a s)
      → Triple P action E Q
      → Triple P action E Q'
  unfolding Triple
  Triple-conclude P E Q Q' action h t w p = go (action w) (t w p)
    where
      go : (r : Result A × World S) → Ends E Q r → Ends E Q' r
      go (ok a, v) e = h a v.1 e
      go (err c, v) e = e

pub Triple-refuse_if {ℓ ν} :
    {S : Type ℓ} (P E Q : S → Type ν) (condition : Bool) (code : Code)
    → ((s : S) → P s → condition ≡ true → E s)
    → ((s : S) → P s → condition ≡ false → Q s)
    → Triple P (refuse_if condition code) E (λ u. Q)
unfolding Triple
Triple-refuse_if P E Q true code h k w p = h w.1 p refl
Triple-refuse_if P E Q false code h k w p = k w.1 p refl

module _ {ℓ κ μ ν} {S : Type ℓ} {A : Type κ} {B : Type μ} where
  resume-Ends :
      (E : S → Type ν) (Q : A → S → Type ν) (R : B → S → Type ν) (rest : A → Action S B)
      (r : Result A × World S)
      → Ends E Q r
      → ((a : A) → Triple (Q a) (rest a) E R)
      → Ends E R (resume rest r)
  unfolding Triple
  resume-Ends E Q R rest (ok a, w) h k = k a w h
  resume-Ends E Q R rest (err c, w) h k = h

  pub Triple->>= :
      (P E : S → Type ν) (Q : A → S → Type ν) (R : B → S → Type ν) (first : Action S A)
      (rest : A → Action S B)
      → Triple P first E Q
      → ((a : A) → Triple (Q a) (rest a) E R)
      → Triple P (first >>= rest) E R
  unfolding Triple
  Triple->>= P E Q R first rest h k w p = resume-Ends E Q R rest (first w) (h w p) k

module _ {ℓ κ ν} {S : Type ℓ} {A : Type κ} where
  restore-Ends :
      (E F : S → Type ν) (Q : A → S → Type ν) (s : S) (r : Result A × World S)
      → F s
      → Ends E Q r
      → Ends F Q (restore s r)
  restore-Ends E F Q s (ok a, w) f h = h
  restore-Ends E F Q s (err c, w) f h = f

  pub Triple-return :
      (P E : S → Type ν) (Q : A → S → Type ν) (a : A)
      → ((s : S) → P s → Q a s)
      → Triple P (return a) E Q
  unfolding Triple
  Triple-return P E Q a h w p = h w.1 p

  pub Triple-fail :
      (P E : S → Type ν) (Q : A → S → Type ν) (c : Code)
      → ((s : S) → P s → E s)
      → Triple P (fail {S = S} {A = A} c) E Q
  unfolding Triple
  Triple-fail P E Q c h w p = h w.1 p

  Triple-within :
      (P E : S → Type ν) (Q : A → S → Type ν) (body : Action S A)
      → ((s : S) → P s → E s)
      → ((a : A) (s : S) → Q a s → E s)
      → Triple P body E Q
      → Triple P (within body) E Q
  unfolding within
  Triple-within P E Q body e q h =
      Triple->>= _ _ (λ u. P) _ _ _ (Triple-call P E (λ u. P) _ _ (λ t p. p) e)
        (λ u. Triple->>= _ _ Q _ _ _ h (λ a.
          Triple->>= _ _ (λ u. Q a) _ _ _ (Triple-call (Q a) E (λ u. Q a) _ _ (λ t p. p) (q a))
            (λ u. Triple-return (Q a) E Q a (λ t p. p))))

  undone-Ends :
      (undo : S → S → S) (E F : S → Type ν) (Q : A → S → Type ν) (s : S) (r : Result A × World S)
      → ((t : S) → E t → F (undo s t))
      → Ends E Q r
      → Ends F Q (undone undo s r)
  undone-Ends undo E F Q s (ok a, w) f h = h
  undone-Ends undo E F Q s (err c, w) f h = f w.1 h

  pub Triple-transaction_over :
      (undo : S → S → S) (P E F : S → Type ν) (Q : A → S → Type ν) (body : Action S A)
      → ((s t : S) → P s → E t → F (undo s t))
      → ((s : S) → P s → E s)
      → ((a : A) (s : S) → Q a s → E s)
      → Triple P body E Q
      → Triple P (transaction_over undo body) F Q
  unfolding transaction_over Triple
  Triple-transaction_over undo P E F Q body f e q h (fs, s) p =
      undone-Ends undo E F Q s _ (λ t. f s t p) (Triple-within P E Q body e q h (fs, s) p)

  -- A transaction ends as its body does, or with the state that it began with.
  pub Triple-transaction :
      (P E F : S → Type ν) (Q : A → S → Type ν) (body : Action S A)
      → ((s : S) → P s → F s)
      → ((s : S) → P s → E s)
      → ((a : A) (s : S) → Q a s → E s)
      → Triple P body E Q
      → Triple P (transaction body) F Q
  unfolding transaction Triple
  Triple-transaction P E F Q body f e q h (fs, s) p =
      restore-Ends E F Q s _ (f s p) (Triple-within P E Q body e q h (fs, s) p)

pub found_or_none-replied {ℓ} :
    {A : Type ℓ} (o : Option A) (a : A) → found_or_none o ≡ replied a → o ≡ some a
found_or_none-replied none a h = cc
found_or_none-replied (some b) a h = cc

pub replied_injective {ℓ} : {A : Type ℓ} (a b : A) → replied a ≡ replied b → a ≡ b
replied_injective a b h = cc

module _ {ℓ κ} {S : Type ℓ} {A : Type κ} where
  -- A fact that does not speak of the state can be used throughout.
  pub Triple-fact :
      (P E : S → Type ℓ) (Q : A → S → Type ℓ) (X : Type ℓ) (action : Action S A)
      → (X → Triple P action E Q)
      → Triple (λ s. P s × X) action E Q
  unfolding Triple
  Triple-fact P E Q X action h w (p, x) = h x w p

module _ {ℓ} {S : Type ℓ} {A : Type ℓ} (s0 : S) where
  -- A statement that reads a known state.
  pub Triple-reads_at :
      (code : DbError → Code) (f : S → Reply A)
      → Triple
          (λ s. s ≡ s0)
          (call code (reads f))
          (λ s. s ≡ s0)
          (λ a s. (s ≡ s0) × (f s0 ≡ replied a))
  Triple-reads_at code f =
      Triple-call (λ s. s ≡ s0) (λ s. s ≡ s0) _ code (reads f) (λ s p. at s p (f s) refl) (λ s p. p)
    where
      at :
          (s : S) (p : s ≡ s0) (r : Reply A)
          → f s ≡ r
          → Answers (λ t. t ≡ s0) (λ t. t ≡ s0) (λ a t. (t ≡ s0) × (f s0 ≡ replied a)) r s
      at s p (replied a) e = (p, rw (← p) e)
      at s p (failed d) e = p

module _ {ℓ κ ν} {S : Type ℓ} {A : Type κ} where
  -- An action run at a state that satisfies its condition.
  pub Triple-run :
      (P E : S → Type ν) (Q : A → S → Type ν) (action : Action S A) (w : World S)
      → Triple P action E Q
      → P w.1
      → Ends E Q (action w)
  unfolding Triple
  Triple-run P E Q action w t p = t w p

  pub Preserves-run :
      (P : S → Type ν) (action : Action S A) (w : World S)
      → Preserves P action
      → P w.1
      → P (action w).1.1
  Preserves-run P action w t p = go (action w) (Triple-run P P (λ a. P) action w t p)
    where
      go : (r : Result A × World S) → Ends P (λ a. P) r → P r.1.1
      go (ok a, v) e = e
      go (err c, v) e = e

module _ {ℓ κ} {S : Type ℓ} {A : Type κ} where
  -- Nothing is said of nothing known.
  pub Triple-trivial :
      (action : Action S A) → Triple (λ s. Unit {0}) action (λ s. Unit {0}) (λ a s. Unit {0})
  unfolding Triple
  Triple-trivial action w u = go (action w)
    where
      go : (r : Result A × World S) → Ends (λ s. Unit {0}) (λ a s. Unit {0}) r
      go (ok a, v) = tt
      go (err c, v) = tt

module _ {ℓ κ} {S : Type ℓ} {A : Type κ} where
  -- A call that went well tells what it answered.
  pub Triple-consult :
      (P : S → Type (ℓ ⊔ κ)) (f : S → Result A) → Triple P (consult f) P (λ a s. P s × (f s ≡ ok a))
  unfolding Triple consult
  Triple-consult P f w p = go (f w.1) refl
    where
      go : (r : Result A) → f w.1 ≡ r → Ends P (λ a s. P s × (f s ≡ ok a)) (r, w)
      go (ok a) e = (p, e)
      go (err c) e = p

module _ {ℓ κ ν} {S : Type ℓ} {A : Type κ} where
  -- What holds of an end that went well.
  pub Ends-ok :
      (E : S → Type ν) (Q : A → S → Type ν) (r : Result A × World S) (a : A)
      → Ends E Q r
      → r.0 ≡ ok a
      → Q a r.1.1
  Ends-ok E Q (ok b, w) a h e = subst (λ x. Q x w.1) (same b a e) h
    where
      same : (x y : A) → ok x ≡ ok y → x ≡ y
      same x y e = cc
  Ends-ok E Q (err c, w) a h e = cc

-- The next statement does not fail.
abbrev pub next_works : List (Option DbError) → Bool
next_works [] = true
next_works (none ∷ fs) = true
next_works (some e ∷ fs) = false
