-- ===== src/GoProxy/Escaping.antt =====
-- The case encoding of module paths in internal/goproxy/handler.go: `unescapeModulePath` against
-- the encoding that the Go command applies.
use hades.Prelude.{
  Bool, Bool-cases, Bytes, Option, [], ap, arith, codes, false, if◌then◌else◌, inl, inr, leb, none,
  not, refl, some, sym, true, ℕ, ◌&&◌, ◌+◌, ◌-◌, ◌==◌, ◌↔◌, ◌∙◌, ◌∷◌, ◌≡◌, ◌≢◌, nat_eq, bytes_eq,
  string_eq,
}
use hades.Text.{contains_any, contains_byte}
use hades.Text.Laws.{Lacks}

abbrev pub is_upper : ℕ → Bool
is_upper c = leb b'A' c && leb c b'Z'

abbrev pub is_lower : ℕ → Bool
is_lower c = leb b'a' c && leb c b'z'

abbrev pub prepend : ℕ → Option Bytes → Option Bytes
prepend c none = none
prepend c (some s) = some (c ∷ s)

-- The loop, with whether the byte before was the escape character.
unfoldable pub decode : Bool → Bytes → Option Bytes
decode false [] = some []
decode true [] = none
decode true (c ∷ s) =
    let rest = decode false s in if is_lower c then prepend (c - 32) rest else none
decode false (c ∷ s) = elim (c == b'!') [
  | true ↦ decode true s
  | false ↦ elim (is_upper c) [ true ↦ none | false ↦ prepend c (decode false s) ]
]

-- unescapeModulePath(escaped); `none` for an error
unfoldable pub unescape_module_path : Bytes → Option Bytes
unescape_module_path escaped =
    let decoded = decode false escaped in
    if not (contains_any escaped (codes "!ABCDEFGHIJKLMNOPQRSTUVWXYZ"))
    then some escaped
    else decoded

-- What a conforming client sends: "!" and the lowercase letter for each uppercase letter.
unfoldable pub escape : Bytes → Bytes
escape [] = []
escape (c ∷ s) = let rest = escape s in if is_upper c then b'!' ∷ (c + 32) ∷ rest else c ∷ rest

decode-escape : (s : Bytes) → Lacks b'!' s → decode false (escape s) ≡ some s
unfolding decode escape
decode-escape [] h = refl
decode-escape (c ∷ s) (n, h) = elim (Bool-cases (is_upper c)) [
  | inl u ↦ rw u (ground (arith, decode-escape s h, u))
  | inr u ↦ rw u (ground (arith, decode-escape s h, u, n))
]

abbrev marked : Bool → Bytes → Bytes
marked true s = b'!' ∷ s
marked false s = s

prepend-some :
    (c : ℕ) (o : Option Bytes) (s : Bytes)
    → prepend c o ≡ some s
    → (t : Bytes) × (o ≡ some t) × (s ≡ c ∷ t)
prepend-some c none s h = cc
prepend-some c (some t) s h = (t, refl, ground (arith, h))

decode_sound :
    (b : Bool) (e s : Bytes) → decode b e ≡ some s → (marked b e ≡ escape s) × Lacks b'!' s
unfolding decode escape
decode_sound false [] s h = let same : s ≡ [] = ground (arith, h) in rw same (refl, tt)
decode_sound true [] s h = cc
decode_sound true (c ∷ e) s h = elim (Bool-cases (is_lower c)) [
  | inr l ↦ cc (rw l at h)
  | inl l ↦
      let (t, o, same) = prepend-some (c - 32) (decode false e) s (rw l at h) in
      let (ih, lacks) = decode_sound false e t o in
      rw same (ground (arith, ih, l), (ground (arith, l), lacks))
]
decode_sound false (c ∷ e) s h = elim (Bool-cases (c == b'!')) [
  | inl x ↦
      let (ih, lacks) = decode_sound true e s (rw (x, decode) at h) in
      (ground (arith, ih, x), lacks)
  | inr x ↦ elim (Bool-cases (is_upper c)) [
    | inl u ↦ cc (rw (x, u, decode) at h)
    | inr u ↦
        let (t, o, same) = prepend-some c (decode false e) s (rw (x, u, decode) at h) in
        let (ih, lacks) = decode_sound false e t o in
        rw same (ground (arith, ih, u), (ground (arith, x), lacks))
  ]
]

plain_byte :
    (c : ℕ)
    → contains_byte (codes "!ABCDEFGHIJKLMNOPQRSTUVWXYZ") c ≡ false
    → (is_upper c ≡ false) × (c ≢ b'!')
unfolding contains_byte
plain_byte c h = (ground (arith, h), λ e. ground (arith, h, e))

decode-plain :
    (e : Bytes)
    → contains_any e (codes "!ABCDEFGHIJKLMNOPQRSTUVWXYZ") ≡ false
    → decode false e ≡ some e
unfolding decode contains_any
decode-plain [] h = refl
decode-plain (c ∷ e) h =
    let (u, n) = plain_byte c (ground (arith, h)) in
    ground (arith, decode-plain e (ground (arith, h)), u, n)

unescape-decode : (e : Bytes) → unescape_module_path e ≡ decode false e
unfolding unescape_module_path
unescape-decode e = elim (Bool-cases (contains_any e (codes "!ABCDEFGHIJKLMNOPQRSTUVWXYZ"))) [
  | inl x ↦ rw x refl
  | inr x ↦ rw x (sym (decode-plain e x))
]

-- A path segment decodes to a name exactly when the name holds no "!" and the segment is the
-- encoding of the name: each name has one spelling, and nothing else is accepted.
pub unescape_module_path_iff :
    (e s : Bytes) → (unescape_module_path e ≡ some s) ↔ (Lacks b'!' s × (e ≡ escape s))
unescape_module_path_iff e s = (
  λ h. let (same, lacks) = decode_sound false e s (sym (unescape-decode e) ∙ h) in (lacks, same),
  λ (lacks, same). unescape-decode e ∙ ap (decode false) same ∙ decode-escape s lacks,
)
