-- ===== src/GoProxy/Spelling.antt =====
-- How a request names a module: the path before the first "/@v/", or before "/@latest".
use hades.Prelude.{
  Bool-cases, Bytes, List, Option, [], ap, arith, bytes_beq, codes, drop, false, inl, inr, length,
  none, refl, some, sym, true, ℕ, ◌++◌, ◌∙◌, ◌∷◌, ◌≡◌, ◌≢◌, ◌≤◌, ◌⊎◌,
}
use hades.Text.{has_prefix, has_suffix, push_first, split, trim_prefix, trim_suffix}
use hades.Text.Ends.{has_prefix-append, has_prefix_sound, has_suffix_sound}
use hades.GoProxy.Handler.{Query, cut_version, latest, or_latest, parse_query, v_mark}

-- No "/@v/" inside.
abbrev pub IsUnmarked : Bytes → Type 0
IsUnmarked s = (a b : Bytes) → s ≢ a ++ v_mark ++ b

-- A "/@v/" after a text, and none that begins earlier.
abbrev pub IsFirstMark : Bytes → Bytes → Bytes → Type 0
IsFirstMark s before rest =
    (s ≡ before ++ v_mark ++ rest)
    × ((a b : Bytes) → s ≡ a ++ v_mark ++ b → length before ≤ length a)

-- The text after the mount prefix names the module path and the query.
abbrev pub Names : Bytes → Bytes → Query → Type 0
Names stripped module_path q =
    ((rest : Bytes) × IsFirstMark stripped module_path rest × (q ≡ parse_query rest))
    ⊎ ((stripped ≡ module_path ++ codes "/@latest") × IsUnmarked stripped × (q ≡ latest))

-- The path of the request does, with the mount prefix "/go/" or without it.
abbrev pub AsksFor : Bytes → Bytes → Query → Type 0
AsksFor path module_path q =
    (stripped : Bytes) × ((path ≡ codes "/go/" ++ stripped) ⊎ (path ≡ stripped))
    × Names stripped module_path q

parts :
    (a a' b b' : Bytes)
    → ◌≡◌ {A = Option (Bytes × Bytes)} (some (a, b)) (some (a', b'))
    → (a ≡ a') × (b ≡ b')
parts a a' b b' h = (ground (arith, h), ground (arith, h))

push_first-some :
    (c : ℕ) (o : Option (Bytes × Bytes)) (a b : Bytes)
    → push_first c o ≡ some (a, b)
    → (a' : Bytes) × (o ≡ some (a', b)) × (a ≡ c ∷ a')
push_first-some c none a b h = cc
push_first-some c (some (x, y)) a b h = (x, ground (arith, h), ground (arith, h))

push_first-none : (c : ℕ) (o : Option (Bytes × Bytes)) → push_first c o ≡ none → o ≡ none
push_first-none c none h = refl
push_first-none c (some (x, y)) h = cc

mark_at_once : (c : ℕ) (s b : Bytes) → c ∷ s ≡ v_mark ++ b → has_prefix (c ∷ s) v_mark ≡ true
mark_at_once c s b h = rw h (has_prefix-append v_mark b)

tails : {A : Type 0} (c d : A) (s t : List A) → c ∷ s ≡ d ∷ t → s ≡ t
tails c d s t h = cc

no_text : {A : Type 0} (a b : Bytes) → [] ≡ a ++ v_mark ++ b → A
no_text [] b h = cc
no_text (x ∷ a) b h = cc

cut_version-IsFirstMark : (s a b : Bytes) → cut_version s ≡ some (a, b) → IsFirstMark s a b
unfolding cut_version
cut_version-IsFirstMark [] a b h = cc
cut_version-IsFirstMark (c ∷ s) a b h = elim (Bool-cases (has_prefix (c ∷ s) v_mark)) [
  | inl e ↦
      let (t, same) = has_prefix_sound (c ∷ s) v_mark e in
      let (start, left) = parts [] a (drop 4 (c ∷ s)) b (rw e at h) in
      rw (← start, ← left)
        (same ∙ ap (λ u. v_mark ++ u) (sym (ap (drop 4) same)), λ x y g. omega arith)
  | inr e ↦
      let (a', cut_later, split) = push_first-some c (cut_version s) a b (rw e at h) in
      let (whole, first) = cut_version-IsFirstMark s a' b cut_later in
      rw split (ap (λ t. c ∷ t) whole, later c s a' e first)
]
  where
    later :
        (c : ℕ) (s a' : Bytes)
        → has_prefix (c ∷ s) v_mark ≡ false
        → ((x y : Bytes) → s ≡ x ++ v_mark ++ y → length a' ≤ length x)
        → (x y : Bytes) → c ∷ s ≡ x ++ v_mark ++ y
        → length (c ∷ a') ≤ length x
    later c s a' e first [] y g = absurd (cc (e, mark_at_once c s y g))
    later c s a' e first (d ∷ x) y g = omega (arith, first x y (tails c d s _ g))

cut_version-IsUnmarked : (s : Bytes) → cut_version s ≡ none → IsUnmarked s
unfolding cut_version
cut_version-IsUnmarked [] h a b g = no_text a b g
cut_version-IsUnmarked (c ∷ s) h a b g = elim (Bool-cases (has_prefix (c ∷ s) v_mark)) [
  | inl e ↦ cc (rw e at h)
  | inr e ↦ nowhere a e (cut_version-IsUnmarked s (push_first-none c (cut_version s) (rw e at h))) g
]
  where
    nowhere :
        (x : Bytes)
        → has_prefix (c ∷ s) v_mark ≡ false
        → IsUnmarked s
        → c ∷ s ≡ x ++ v_mark ++ b
        → ⊥
    nowhere [] e later g = cc (e, mark_at_once c s b g)
    nowhere (d ∷ x) e later g = later x b (tails c d s _ g)

latest_query : parse_query (codes "@latest") ≡ latest
unfolding bytes_beq
latest_query = refl

latest_suffix :
    (s : Bytes)
    → has_suffix s (codes "/@latest") ≡ true
    → s ≡ trim_suffix s (codes "/@latest") ++ codes "/@latest"
unfolding trim_suffix
latest_suffix s h = rw h (has_suffix_sound s (codes "/@latest") h)

-- What ServeHTTP cuts the path into.
pub or_latest-Names :
    (stripped module_path rest : Bytes)
    → or_latest stripped (cut_version stripped) ≡ some (module_path, rest)
    → Names stripped module_path (parse_query rest)
unfolding or_latest
or_latest-Names stripped module_path rest h = go (cut_version stripped) refl h
  where
    go :
        (o : Option (Bytes × Bytes))
        → cut_version stripped ≡ o
        → or_latest stripped o ≡ some (module_path, rest)
        → Names stripped module_path (parse_query rest)
    go (some (a, b)) e g =
        let (start, left) = parts a module_path b rest g in
        inl (rest, rw (← start, ← left) (cut_version-IsFirstMark stripped a b e), refl)
    go none e g = elim (Bool-cases (has_suffix stripped (codes "/@latest"))) [
      | inl f ↦
          let (start, left) = parts _ module_path _ rest (rw f at g) in
          inr (
            rw (← start) (latest_suffix stripped f),
            cut_version-IsUnmarked stripped e,
            rw (← left) latest_query,
          )
      | inr f ↦ cc (rw f at g)
    ]

pub trim_prefix-mount :
    (path : Bytes)
    → (path ≡ codes "/go/" ++ trim_prefix path (codes "/go/"))
      ⊎ (path ≡ trim_prefix path (codes "/go/"))
unfolding trim_prefix
trim_prefix-mount path = elim (Bool-cases (has_prefix path (codes "/go/"))) [
  | inr e ↦ rw e (inr refl)
  | inl e ↦
      let (t, same) = has_prefix_sound path (codes "/go/") e in
      rw e (inl (same ∙ ap (λ u. codes "/go/" ++ u) (sym (ap (drop 4) same))))
]
