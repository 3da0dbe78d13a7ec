-- ===== src/Paths/Names.antt =====
-- A repository path that is built from accepted names is an accepted path.
use hades.Prelude.{
  Bytes, List, [], ap, arith, codes, false, length-append, none, refl, true, ℕ, ◌++◌, ◌∙◌, ◌∷◌, ◌≡◌,
}
use hades.Text.{has_prefix, split}
use hades.Text.Laws.{Lacks, Lacks-append}
use hades.Constants.Names.{is_name_end, validate_name}
use hades.Constants.Names.Safety.{IsSafeName, head_is_end, validate_name-IsSafeName}
use hades.Paths.{validate_path}
use hades.Paths.Cleaning.{IsPlain}
use hades.Paths.Safety.{validate_path_iff}

join-split-Lacks : (s : Bytes) (sep : ℕ) → Lacks sep s → split s sep ≡ s ∷ []
unfolding split
join-split-Lacks [] sep h = refl
join-split-Lacks (c ∷ s) sep (n, h) = ground (arith, join-split-Lacks s sep h)

split-append :
    (a : Bytes) (sep : ℕ) (b : Bytes) → Lacks sep a → split (a ++ sep ∷ b) sep ≡ a ∷ split b sep
unfolding split
split-append [] sep b h = ground arith
split-append (c ∷ a) sep b (n, h) = ground (arith, split-append a sep b h)

name-IsPlain : (name : Bytes) → head_is_end name ≡ true → IsPlain name
name-IsPlain [] h = cc
name-IsPlain (c ∷ s) h = ((cc), (λ e. ground arith), (λ e. ground arith))

leading_dots : (c : ℕ) (s : Bytes) → is_name_end c ≡ true → has_prefix (c ∷ s) (codes "..") ≡ false
unfolding has_prefix
leading_dots c s h = ground arith

has_prefix-name :
    (name rest : Bytes) → head_is_end name ≡ true → has_prefix (name ++ rest) (codes "..") ≡ false
has_prefix-name [] rest h = cc
has_prefix-name (c ∷ s) rest h = leading_dots c (s ++ rest) h

-- A repository path "owner/name" of two names that `ValidateName` accepts is accepted by
-- `ValidatePath`, and has exactly these two segments.
pub validate_path-names :
    (owner name : Bytes)
    → validate_name owner ≡ none
    → validate_name name ≡ none
    → (validate_path (owner ++ b'/' ∷ name) ≡ none)
      × (split (owner ++ b'/' ∷ name) b'/' ≡ owner ∷ name ∷ [])
validate_path-names owner name h k =
    let o : IsSafeName owner = validate_name-IsSafeName owner h in
    let n : IsSafeName name = validate_name-IsSafeName name k in
    let parts : split (owner ++ b'/' ∷ name) b'/' ≡ owner ∷ name ∷ [] =
      split-append owner b'/' name o.no_slash
      ∙ ap (λ (l : List Bytes). owner ∷ l) (join-split-Lacks name b'/' n.no_slash) in
    (
      (validate_path_iff (owner ++ b'/' ∷ name)).1 (
        record {
          short = omega (arith, length-append owner (b'/' ∷ name), o.bounded, n.bounded);
          no_nul = Lacks-append 0 owner (b'/' ∷ name) o.no_nul ((λ e. omega arith), n.no_nul);
          no_backslash =
              Lacks-append 92 owner (b'/' ∷ name) o.no_backslash
                ((λ e. omega arith), n.no_backslash);
          plain = rw parts (name-IsPlain owner o.first, (name-IsPlain name n.first, tt));
        },
        has_prefix-name owner (b'/' ∷ name) o.first,
      ),
      parts,
    )
