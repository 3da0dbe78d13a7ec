-- ===== src/Text.antt =====
-- The functions of Go's package `strings` that the program calls, on byte strings. Texts are
-- ASCII: `to_lower` and `trim_space` leave out the Unicode cases of the originals.
pub mod Laws
pub mod Ends
use hades.Prelude.{
  Bool, Bytes, List, Option, [], any, drop, false, if◌then◌else◌, leb, length, map, none, some, suc,
  take, true, zero, ℕ, ◌&&◌, ◌++◌, ◌+◌, ◌-◌, ◌==◌, ◌||◌, ◌∷◌, nat_eq, bytes_eq, string_eq,
}

-- s == ""
abbrev pub is_empty : Bytes → Bool
is_empty [] = true
is_empty (c ∷ s) = false

-- strings.HasPrefix(s, p)
unfoldable pub has_prefix : Bytes → Bytes → Bool
has_prefix s [] = true
has_prefix [] (d ∷ p) = false
has_prefix (c ∷ s) (d ∷ p) = c == d && has_prefix s p

-- strings.HasSuffix(s, p)
unfoldable pub has_suffix : Bytes → Bytes → Bool
has_suffix s p = leb (length p) (length s) && drop (length s - length p) s == p

-- strings.CutSuffix(s, p); `none` for found = false
unfoldable pub cut_suffix : Bytes → Bytes → Option Bytes
unfolding has_suffix
cut_suffix s p = if has_suffix s p then some (take (length s - length p) s) else none

-- strings.TrimSuffix(s, p)
unfoldable pub trim_suffix : Bytes → Bytes → Bytes
unfolding has_suffix
trim_suffix s p = if has_suffix s p then take (length s - length p) s else s

-- strings.TrimPrefix(s, p)
unfoldable pub trim_prefix : Bytes → Bytes → Bytes
unfolding has_prefix
trim_prefix s p = if has_prefix s p then drop (length p) s else s

-- strings.ContainsRune(s, c) at an ASCII rune, strings.ContainsAny(s, chars)
unfoldable pub contains_byte : Bytes → ℕ → Bool
contains_byte [] c = false
contains_byte (b ∷ s) c = b == c || contains_byte s c

unfoldable pub contains_any : Bytes → Bytes → Bool
unfolding contains_byte
contains_any s chars = any (contains_byte chars) s

abbrev pub push_first : ℕ → Option (Bytes × Bytes) → Option (Bytes × Bytes)
push_first c none = none
push_first c (some (a, b)) = some (c ∷ a, b)

-- strings.Cut(s, sep) at a one-byte separator; `none` for found = false
unfoldable pub cut : Bytes → ℕ → Option (Bytes × Bytes)
cut [] sep = none
cut (c ∷ s) sep = let rest = push_first c (cut s sep) in if c == sep then some ([], s) else rest

-- strings.SplitN(s, sep, n) at a one-byte separator and n > 0
unfoldable pub split_n : ℕ → Bytes → ℕ → List Bytes
split_n zero s sep = []
split_n (suc zero) s sep = s ∷ []
split_n (suc (suc n)) s sep = elim (cut s sep) [
  | none ↦ s ∷ []
  | some (a, b) ↦ a ∷ split_n (suc n) b sep
]

abbrev pub grow_head : ℕ → List Bytes → List Bytes
grow_head c [] = (c ∷ []) ∷ []
grow_head c (p ∷ ps) = (c ∷ p) ∷ ps

-- strings.Split(s, sep) at a one-byte separator
unfoldable pub split : Bytes → ℕ → List Bytes
split [] sep = [] ∷ []
split (c ∷ s) sep = let rest = split s sep in if c == sep then [] ∷ rest else grow_head c rest

-- strings.Join(parts, sep) at a one-byte separator
unfoldable pub join : List Bytes → ℕ → Bytes
join [] sep = []
join (p ∷ []) sep = p
join (p ∷ (q ∷ ps)) sep = p ++ sep ∷ join (q ∷ ps) sep

abbrev pub lower_byte : ℕ → ℕ
lower_byte c = if leb b'A' c && leb c b'Z' then c + 32 else c

-- strings.ToLower
unfoldable pub to_lower : Bytes → Bytes
to_lower s = map lower_byte s

abbrev pub is_space : ℕ → Bool
is_space c = c == b' ' || (leb 9 c && leb c 13)

pub trim_left : Bytes → Bytes
trim_left [] = []
trim_left (c ∷ s) = let rest = trim_left s in if is_space c then rest else c ∷ s

-- A trailing run of spaces goes when nothing follows it.
abbrev push_unless_space : ℕ → Bytes → Bytes
push_unless_space c [] = if is_space c then [] else c ∷ []
push_unless_space c (d ∷ s) = c ∷ d ∷ s

pub trim_right : Bytes → Bytes
trim_right [] = []
trim_right (c ∷ s) = push_unless_space c (trim_right s)

-- strings.TrimSpace
unfoldable pub trim_space : Bytes → Bytes
unfolding trim_left trim_right
trim_space s = trim_right (trim_left s)
