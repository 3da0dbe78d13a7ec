-- ===== src/Constants/Names/Safety.antt =====
-- Accepted names are safe path segments.
use hades.Prelude.{
  &&-true, All, Bool, Bytes, [], ap, arith, false, length, none, refl, true, ℕ, ◌∷◌, ◌≡◌, ◌≤◌,
}
use hades.Text.Laws.{Lacks}
use hades.Constants.Names.{
  is_name_end, is_name_inner, is_reserved_name, max_name_length, name_re, name_rest, validate_name,
}
use hades.Text.{is_empty}

-- The characters that an accepted name is made of.
abbrev pub InNames : ℕ → Type 0
InNames c = is_name_inner c ≡ true

name_rest-InNames : (s : Bytes) → name_rest s ≡ true → All InNames s
unfolding name_rest
name_rest-InNames [] h = tt
name_rest-InNames (c ∷ []) h = (ground arith, tt)
name_rest-InNames (c ∷ (d ∷ s)) h =
    let (hc, hs) = &&-true (is_name_inner c) (name_rest (d ∷ s)) h in
    (hc, name_rest-InNames (d ∷ s) hs)

name_re-InNames : (s : Bytes) → name_re s ≡ true → All InNames s
unfolding name_re
name_re-InNames [] h = tt
name_re-InNames (c ∷ []) h = (ground arith, tt)
name_re-InNames (c ∷ (d ∷ s)) h =
    let (hc, hs) = &&-true (is_name_end c) (name_rest (d ∷ s)) h in
    (ground arith, name_rest-InNames (d ∷ s) hs)

-- A byte outside the class occurs in no accepted name.
pub InNames-Lacks : (c : ℕ) (s : Bytes) → is_name_inner c ≡ false → All InNames s → Lacks c s
InNames-Lacks c [] h k = tt
InNames-Lacks c (b ∷ s) h (hb, hs) = ((λ e. cc (ap is_name_inner e)), InNames-Lacks c s h hs)

abbrev pub head_is_end : Bytes → Bool
head_is_end [] = false
head_is_end (c ∷ s) = is_name_end c

name_re-head : (s : Bytes) → name_re s ≡ true → head_is_end s ≡ true
unfolding name_re
name_re-head [] h = h
name_re-head (c ∷ []) h = h
name_re-head (c ∷ (d ∷ s)) h = (&&-true (is_name_end c) (name_rest (d ∷ s)) h).0

length_pos : (s : Bytes) → is_empty s ≡ false → 1 ≤ length s
length_pos [] h = cc
length_pos (c ∷ s) h = omega arith

-- What the callers rely on before a name becomes a path segment.
pub record IsSafeName (name : Bytes) : Type 0 where
  pub bounded : (1 ≤ length name) × (length name ≤ max_name_length)
  pub first : head_is_end name ≡ true
  pub no_slash : Lacks b'/' name
  pub no_backslash : Lacks 92 name
  pub no_nul : Lacks 0 name
  pub no_colon : Lacks b':' name
  pub not_reserved : is_reserved_name name ≡ false

-- A name that `ValidateName` accepts has 1 to 32 bytes, begins with a lowercase letter or a digit
-- (so it is not ".", "..", ".git" or an option), holds no slash, backslash, NUL or colon, and is
-- not reserved.
pub validate_name-IsSafeName : (name : Bytes) → validate_name name ≡ none → IsSafeName name
unfolding validate_name
validate_name-IsSafeName name h =
    let re : name_re name ≡ true = ground arith in
    let inner : All InNames name = name_re-InNames name re in
    record {
      bounded = (length_pos name (ground arith), ground arith);
      first = name_re-head name re;
      no_slash = InNames-Lacks b'/' name refl inner;
      no_backslash = InNames-Lacks 92 name refl inner;
      no_nul = InNames-Lacks 0 name refl inner;
      no_colon = InNames-Lacks b':' name refl inner;
      not_reserved = ground arith;
    }
