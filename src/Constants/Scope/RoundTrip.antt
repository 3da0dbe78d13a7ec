-- ===== src/Constants/Scope/RoundTrip.antt =====
-- Printing and parsing of scopes.
use hades.Prelude.{
  Bytes, List, Option-cases, [], ap, append_assoc, arith, inl, inr, none, refl, some, suc, sym, ℕ,
  ◌++◌, ◌↔◌, ◌∙◌, ◌∷◌, ◌≡◌, ◌≢◌,
}
use hades.Text.{cut, split_n}
use hades.Text.Laws.{Lacks, cut-append, cut-none, cut-none-Lacks, cut_sound, is_empty_iff}
use hades.Constants.Scope.{parse_parts, parse_scope, scope, scope_on}

-- How the two forms are printed: an empty domain is the two-part form.
abbrev pub print_scope : Bytes → Bytes → Bytes → Bytes
print_scope r a [] = scope r a
print_scope r a (c ∷ d) = scope_on r a (c ∷ d)

-- A resource or an action of a scope: not empty, and with no colon.
abbrev pub IsScopePart : Bytes → Type 0
IsScopePart s = (s ≢ []) × Lacks b':' s

split_two :
    (r a : Bytes) → Lacks b':' r → Lacks b':' a → split_n 3 (r ++ b':' ∷ a) b':' ≡ r ∷ a ∷ []
unfolding split_n
split_two r a h k = rw (cut-append r b':' a h, split_n) (rw (cut-none a b':' k, split_n) refl)

split_three :
    (r a d : Bytes)
    → Lacks b':' r
    → Lacks b':' a
    → split_n 3 (r ++ b':' ∷ (a ++ b':' ∷ d)) b':' ≡ r ∷ a ∷ d ∷ []
unfolding split_n
split_three r a d h k =
    rw (cut-append r b':' (a ++ b':' ∷ d) h, split_n) (rw (cut-append a b':' d k, split_n) refl)

parse_print :
    (r a d : Bytes)
    → IsScopePart r
    → IsScopePart a
    → parse_scope (print_scope r a d) ≡ some (r, a, d)
unfolding parse_scope scope_on
parse_print r a [] h k = rw (split_two r a h.1 k.1) (ground (arith, is_empty_iff r, is_empty_iff a))
parse_print r a (c ∷ d) h k =
    rw (append_assoc r (b':' ∷ a) (b':' ∷ (c ∷ d)), split_three r a (c ∷ d) h.1 k.1)
      (ground (arith, is_empty_iff r, is_empty_iff a))

-- The parts that SplitN may return, with what they spell.
abbrev Spells : Bytes → List Bytes → Type 0
Spells s [] = ⊥
Spells s (r ∷ []) = s ≡ r
Spells s (r ∷ (a ∷ [])) = (s ≡ r ++ b':' ∷ a) × Lacks b':' r × Lacks b':' a
Spells s (r ∷ (a ∷ (d ∷ []))) = (s ≡ r ++ b':' ∷ (a ++ b':' ∷ d)) × Lacks b':' r × Lacks b':' a
Spells s (r ∷ (a ∷ (d ∷ (e ∷ rest)))) = ⊥

split_n-none : (n : ℕ) (s : Bytes) → cut s b':' ≡ none → split_n (suc (suc n)) s b':' ≡ s ∷ []
unfolding split_n
split_n-none n s e = rw (e, split_n) refl

split_n-some :
    (n : ℕ) (s a b : Bytes)
    → cut s b':' ≡ some (a, b)
    → split_n (suc (suc n)) s b':' ≡ a ∷ split_n (suc n) b b':'
unfolding split_n
split_n-some n s a b e = rw (e, split_n) refl

split_n_one : (s : Bytes) → split_n 1 s b':' ≡ s ∷ []
unfolding split_n
split_n_one s = refl

split_n-Spells : (s : Bytes) → Spells s (split_n 3 s b':')
split_n-Spells s = elim (Option-cases (cut s b':')) [
  | inl n ↦ rw (split_n-none 1 s n) refl
  | inr ((r, b), f) ↦ elim (Option-cases (cut b b':')) [
    | inl n ↦
        let (e, l) = cut_sound s b':' r b f in
        rw (split_n-some 1 s r b f, split_n-none 0 b n) (e, l, cut-none-Lacks b b':' n)
    | inr ((a, d), g) ↦
        let (e, l) = cut_sound s b':' r b f in
        let (e', l') = cut_sound b b':' a d g in
        rw (split_n-some 1 s r b f, split_n-some 0 b a d g, split_n_one d)
          (e ∙ ap (λ (t : Bytes). r ++ b':' ∷ t) e', l, l')
  ]
]

parts_sound :
    (s : Bytes) (ps : List Bytes) (r a d : Bytes)
    → Spells s ps
    → parse_parts ps ≡ some (r, a, d)
    → IsScopePart r × IsScopePart a × (s ≡ print_scope r a d)
unfolding parse_parts
parts_sound s [] r a d h e = absurd h
parts_sound s (x ∷ []) r a d h e = cc
parts_sound s ([] ∷ (y ∷ [])) r a d h e = cc
parts_sound s ((b ∷ x) ∷ ([] ∷ [])) r a d h e = cc
parts_sound s ((b ∷ x) ∷ ((c ∷ y) ∷ [])) r a d (h, l, k) e =
    let er : b ∷ x ≡ r = cc in
    let ea : c ∷ y ≡ a = cc in
    let ed : [] ≡ d = cc in rw (← er, ← ea, ← ed) (((cc), l), ((cc), k), unfold scope in h)
parts_sound s ([] ∷ (y ∷ (z ∷ []))) r a d h e = cc
parts_sound s ((b ∷ x) ∷ ([] ∷ (z ∷ []))) r a d h e = cc
parts_sound s ((b ∷ x) ∷ ((c ∷ y) ∷ ([] ∷ []))) r a d h e = cc
parts_sound s ((b ∷ x) ∷ ((c ∷ y) ∷ ((f ∷ z) ∷ []))) r a d (h, l, k) e =
    let er : b ∷ x ≡ r = cc in
    let ea : c ∷ y ≡ a = cc in
    let ed : f ∷ z ≡ d = cc in
    rw (← er, ← ea, ← ed)
      (
        ((cc), l),
        ((cc), k),
        h ∙ sym (unfold scope_on in append_assoc (b ∷ x) (b':' ∷ (c ∷ y)) (b':' ∷ (f ∷ z))),
      )
parts_sound s (x ∷ (y ∷ (z ∷ (w ∷ rest)))) r a d h e = absurd h

parse_sound :
    (s r a d : Bytes)
    → parse_scope s ≡ some (r, a, d)
    → IsScopePart r × IsScopePart a × (s ≡ print_scope r a d)
unfolding parse_scope
parse_sound s r a d h = parts_sound s (split_n 3 s b':') r a d (split_n-Spells s) h

-- A scope string parses to (r, a, d) exactly when r and a are not empty, hold no colon, and the
-- string is what `Scope` (for an empty d) or `ScopeOn` (for any other d) prints for them.
pub parse_scope_iff :
    (s r a d : Bytes)
    → (parse_scope s ≡ some (r, a, d)) ↔ (IsScopePart r × IsScopePart a × (s ≡ print_scope r a d))
parse_scope_iff s r a d = (parse_sound s r a d, λ (h, k, e). rw e (parse_print r a d h k))
