-- ===== src/Text/Laws.antt =====
-- Laws of cutting, splitting and joining at a one-byte separator.
use hades.Prelude.{
  All, Bool-cases, Bytes, List, Option-cases, [], arith, false, inl, inr, nat_beq_iff, none, refl,
  some, true, ℕ, ◌++◌, ◌==◌, ◌↔◌, ◌∷◌, ◌≡◌, ◌≢◌, nat_eq, bytes_eq, string_eq,
}
use hades.Text.{contains_byte, cut, grow_head, is_empty, join, split}

-- No byte of the text is `c`.
abbrev pub Lacks : ℕ → Bytes → Type 0
Lacks c s = All (λ b. b ≢ c) s

pub contains_byte-Lacks : (c : ℕ) (s : Bytes) → contains_byte s c ≡ false → Lacks c s
unfolding contains_byte
contains_byte-Lacks c [] h = tt
contains_byte-Lacks c (b ∷ s) h = (ground arith, contains_byte-Lacks c s (ground arith))

pub Lacks-contains_byte : (c : ℕ) (s : Bytes) → Lacks c s → contains_byte s c ≡ false
unfolding contains_byte
Lacks-contains_byte c [] h = refl
Lacks-contains_byte c (b ∷ s) (n, h) = ground (arith, Lacks-contains_byte c s h)

-- One step of `cut` past a byte that is not the separator.
cut-sound_step :
    (c : ℕ) (s : Bytes) (sep : ℕ) (a b a' b' : Bytes)
    → cut (c ∷ s) sep ≡ some (a, b)
    → (c == sep) ≡ false
    → cut s sep ≡ some (a', b')
    → (s ≡ a' ++ sep ∷ b') × Lacks sep a'
    → (c ∷ s ≡ a ++ sep ∷ b) × Lacks sep a
unfolding cut
cut-sound_step c s sep [] b a' b' h e f ih = ground arith
cut-sound_step c s sep (x ∷ a) b a' b' h e f ih =
    let same : a' ≡ a = ground arith in (ground arith, (ground arith, rw same at ih.1))

-- What `cut` returns spells the text, and the first part lacks the separator.
pub cut_sound :
    (s : Bytes) (sep : ℕ) (a b : Bytes) → cut s sep ≡ some (a, b) → (s ≡ a ++ sep ∷ b) × Lacks sep a
unfolding cut
cut_sound [] sep a b h = cc
cut_sound (c ∷ s) sep a b h = elim (Bool-cases (c == sep)) [
  | inl e ↦ let ea : [] ≡ a = ground arith in rw (← ea) (ground arith, tt)
  | inr e ↦ elim (Option-cases (cut s sep)) [
    | inl n ↦ absurd (ground arith)
    | inr ((a', b'), f) ↦ cut-sound_step c s sep a b a' b' h e f (cut_sound s sep a' b' f)
  ]
]

-- A text cut where the first part lacks the separator.
pub cut-append :
    (a : Bytes) (sep : ℕ) (b : Bytes) → Lacks sep a → cut (a ++ sep ∷ b) sep ≡ some (a, b)
unfolding cut
cut-append [] sep b h = ground arith
cut-append (c ∷ a) sep b (n, h) = ground (arith, cut-append a sep b h)

-- There is nothing to cut exactly when the separator does not occur.
pub cut-none : (s : Bytes) (sep : ℕ) → Lacks sep s → cut s sep ≡ none
unfolding cut
cut-none [] sep h = refl
cut-none (c ∷ s) sep (n, h) = ground (arith, cut-none s sep h)

pub cut-none-Lacks : (s : Bytes) (sep : ℕ) → cut s sep ≡ none → Lacks sep s
unfolding cut
cut-none-Lacks [] sep h = tt
cut-none-Lacks (c ∷ s) sep h = elim (Option-cases (cut s sep)) [
  | inl n ↦ (ground arith, cut-none-Lacks s sep n)
  | inr (p, f) ↦ absurd (ground arith)
]

pub Lacks-append : (c : ℕ) (s t : Bytes) → Lacks c s → Lacks c t → Lacks c (s ++ t)
Lacks-append c [] t h k = k
Lacks-append c (b ∷ s) t (n, h) k = (n, Lacks-append c s t h k)

-- Splitting: the parts are never empty, none holds the separator, and they spell the text.
pub split-ne-nil : (s : Bytes) (sep : ℕ) → split s sep ≢ []
unfolding split
split-ne-nil [] sep = cc
split-ne-nil (c ∷ s) sep = ground (arith, split-ne-nil s sep)

grow_head-Lacks :
    (sep c : ℕ) (ps : List Bytes) → c ≢ sep → All (Lacks sep) ps → All (Lacks sep) (grow_head c ps)
grow_head-Lacks sep c [] n h = ((n, tt), tt)
grow_head-Lacks sep c (p ∷ ps) n (h, hs) = ((n, h), hs)

pub split-Lacks : (s : Bytes) (sep : ℕ) → All (Lacks sep) (split s sep)
unfolding split
split-Lacks [] sep = (tt, tt)
split-Lacks (c ∷ s) sep = elim (Bool-cases (c == sep)) [
  | inl e ↦ rw e (tt, split-Lacks s sep)
  | inr e ↦ rw e (grow_head-Lacks sep c (split s sep) (ground arith) (split-Lacks s sep))
]

join-grow_head :
    (sep c : ℕ) (ps : List Bytes) → ps ≢ [] → join (grow_head c ps) sep ≡ c ∷ join ps sep
unfolding join
join-grow_head sep c [] h = absurd (h refl)
join-grow_head sep c (p ∷ []) h = refl
join-grow_head sep c (p ∷ (q ∷ ps)) h = refl

join-nil_head : (sep : ℕ) (ps : List Bytes) → ps ≢ [] → join ([] ∷ ps) sep ≡ sep ∷ join ps sep
unfolding join
join-nil_head sep [] h = absurd (h refl)
join-nil_head sep (p ∷ ps) h = refl

pub join-split : (s : Bytes) (sep : ℕ) → join (split s sep) sep ≡ s
unfolding split
join-split [] sep = unfold join in refl
join-split (c ∷ s) sep = elim (Bool-cases (c == sep)) [
  | inl e ↦ rw e (
      cc (
        join-nil_head sep (split s sep) (split-ne-nil s sep),
        join-split s sep,
        (nat_beq_iff c sep).0 e,
      ))
  | inr e ↦ rw e (cc (join-grow_head sep c (split s sep) (split-ne-nil s sep), join-split s sep))
]

pub is_empty_iff : (s : Bytes) → (is_empty s ≡ true) ↔ (s ≡ [])
is_empty_iff [] = ground arith
is_empty_iff (c ∷ s) = ground arith
