-- ===== src/Text/Ends.antt =====
-- Laws of prefixes and suffixes.
use hades.Prelude.{
  &&-true, ==_refl, Bool-cases, Bytes, List, [], ap, arith, bytes_beq_iff, drop, false, inl, inr,
  length, length-append, nat_beq_iff, refl, some, sym, take, take-append-drop, true, ℕ, ◌++◌, ◌-◌,
  ◌==◌, ◌↔◌, ◌∙◌, ◌∷◌, ◌≡◌, nat_eq, bytes_eq, string_eq,
}
use hades.Text.{cut_suffix, has_prefix, has_suffix, is_empty}

pub take-append {ℓ} : {A : Type ℓ} (xs ys : List A) → take (length xs) (xs ++ ys) ≡ xs
take-append [] [] = refl
take-append [] (y ∷ ys) = refl
take-append (x ∷ xs) ys = ap (λ l. x ∷ l) (take-append xs ys)

pub drop-append {ℓ} : {A : Type ℓ} (xs ys : List A) → drop (length xs) (xs ++ ys) ≡ ys
drop-append [] [] = refl
drop-append [] (y ∷ ys) = refl
drop-append (x ∷ xs) ys = drop-append xs ys

pub has_prefix-append : (p s : Bytes) → has_prefix (p ++ s) p ≡ true
unfolding has_prefix
has_prefix-append [] [] = refl
has_prefix-append [] (c ∷ s) = refl
has_prefix-append (d ∷ p) s = ground (arith, has_prefix-append p s)

pub has_prefix_sound : (s p : Bytes) → has_prefix s p ≡ true → (t : Bytes) × (s ≡ p ++ t)
unfolding has_prefix
has_prefix_sound [] [] h = ([], refl)
has_prefix_sound (c ∷ s) [] h = (c ∷ s, refl)
has_prefix_sound [] (d ∷ p) h = cc
has_prefix_sound (c ∷ s) (d ∷ p) h =
    let (hc, hs) = &&-true (c == d) (has_prefix s p) h in
    let (t, e) = has_prefix_sound s p hs in (t, cc ((nat_beq_iff c d).0 hc, e))

pub length-append_sub : (s p : Bytes) → length (s ++ p) - length p ≡ length s
length-append_sub s p = omega (arith, length-append s p)

pub has_suffix-append : (s p : Bytes) → has_suffix (s ++ p) p ≡ true
unfolding has_suffix
has_suffix-append s p =
    rw (length-append_sub s p, drop-append s p) (ground (arith, length-append s p, ==_refl p))

pub cut_suffix-append : (s p : Bytes) → cut_suffix (s ++ p) p ≡ some s
unfolding cut_suffix
cut_suffix-append s p = rw (has_suffix-append s p, length-append_sub s p, take-append s p) refl

pub has_suffix_sound : (s p : Bytes) → has_suffix s p ≡ true → s ≡ take (length s - length p) s ++ p
unfolding has_suffix
has_suffix_sound s p h =
    sym (take-append-drop (length s - length p) s)
    ∙ ap (λ (t : Bytes). take (length s - length p) s ++ t)
        ((bytes_beq_iff _ p).0 ((&&-true _ _ h).1))

-- A suffix is cut exactly when the text ends with it.
pub cut_suffix_sound : (s p t : Bytes) → cut_suffix s p ≡ some t → s ≡ t ++ p
unfolding cut_suffix
cut_suffix_sound s p t h = elim (Bool-cases (has_suffix s p)) [
  | inl e ↦
      let same : take (length s - length p) s ≡ t = ground (arith, e) in
      rw same at (has_suffix_sound s p e)
  | inr e ↦ absurd (ground (arith, e))
]

pub cut_suffix_iff : (s p t : Bytes) → (cut_suffix s p ≡ some t) ↔ (s ≡ t ++ p)
cut_suffix_iff s p t = (cut_suffix_sound s p t, λ e. rw e (cut_suffix-append t p))

pub is_empty-append : (s : Bytes) (c : ℕ) (t : Bytes) → is_empty (s ++ c ∷ t) ≡ false
is_empty-append [] c t = refl
is_empty-append (b ∷ s) c t = refl
