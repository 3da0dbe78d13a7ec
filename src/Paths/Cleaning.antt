-- ===== src/Paths/Cleaning.antt =====
-- `path.Clean` leaves a path of plain segments alone.
use hades.Prelude.{
  All, Bool, Bool-cases, Bytes, List, [], append-nil, append_assoc, arith, bytes_beq_iff, codes,
  false, inl, inr, refl, reverse, sym, true, ℕ, ◌++◌, ◌==◌, ◌∙◌, ◌∷◌, ◌≡◌, ◌≢◌, nat_eq, bytes_eq,
  string_eq,
}
use hades.Text.{has_prefix, split}
use hades.Text.Laws.{join-split}
use hades.Paths.{clean, clean_segments, clean_step, is_abs}
use mathlib.Core.List.{reverse-cons, reverse-reverse}

-- A segment that names an entry of its directory: not empty, not "." and not "..".
abbrev pub IsPlain : Bytes → Type 0
IsPlain seg = (seg ≢ []) × (seg ≢ codes ".") × (seg ≢ codes "..")

clean_step-plain :
    (rooted : Bool) (stack : List Bytes) (seg : Bytes)
    → IsPlain seg
    → clean_step rooted stack seg ≡ seg ∷ stack
unfolding clean_step
clean_step-plain rooted stack seg (a, b, c) =
    ground
      (arith, bytes_beq_iff seg [], bytes_beq_iff seg (codes "."), bytes_beq_iff seg (codes ".."))

-- Plain segments are only pushed: below any directory they never climb out of it.
pub clean_segments-plain :
    (rooted : Bool) (stack segs : List Bytes)
    → All IsPlain segs
    → clean_segments rooted stack segs ≡ reverse segs ++ stack
unfolding clean_segments
clean_segments-plain rooted stack [] h = refl
clean_segments-plain rooted stack (seg ∷ segs) (h, hs) =
    rw (clean_step-plain rooted stack seg h, reverse-cons)
      (clean_segments-plain rooted (seg ∷ stack) segs hs
        ∙ sym (append_assoc (reverse segs) (seg ∷ []) stack))

slash_first : (c : ℕ) (p : Bytes) → (c == b'/') ≡ true → All IsPlain (split (c ∷ p) b'/') → ⊥
unfolding split
slash_first c p e h = let k : All IsPlain ([] ∷ split p b'/') = rw e at h in k.0.0 refl

pub is_abs-split : (p : Bytes) → All IsPlain (split p b'/') → is_abs p ≡ false
unfolding split has_prefix
is_abs-split [] h = refl
is_abs-split (c ∷ p) h = elim (Bool-cases (c == b'/')) [
  | inl e ↦ absurd (slash_first c p e h)
  | inr e ↦ rw e refl
]

pub clean-plain : (p : Bytes) → p ≢ [] → All IsPlain (split p b'/') → clean p ≡ p
unfolding clean
clean-plain p n h =
    rw
      (
        is_abs-split p h,
        clean_segments-plain false [] (split p b'/') h,
        append-nil,
        reverse-reverse,
        join-split,
      )
      (ground (arith, n))
