-- ===== src/Paths/Safety.antt =====
-- What `ValidatePath`, `GetPath` and `Validate` guarantee.
use hades.Prelude.{
  ==_refl, All, Bool, Bool-cases, Bytes, List, Option-cases, [], arith, bytes_beq_iff, codes,
  contains, false, if◌then◌else◌, inl, inr, keep, length, none, refl, reverse, some, true, ◌++◌,
  ◌||◌, ◌↔◌, ◌∷◌, ◌≡◌, ◌≢◌, ◌≤◌, nat_eq, bytes_eq, string_eq,
}
use hades.Text.{has_prefix, has_suffix, split}
use hades.Text.Laws.{Lacks, Lacks-contains_byte, contains_byte-Lacks}
use hades.Paths.{
  File, allowed_files, check_clean, clean, clean_segments, get_path, max_path_length,
  not_normalised, scan_segments, validate, validate_path,
}
use hades.Paths.Cleaning.{IsPlain, clean-plain, clean_segments-plain, is_abs-split}

-- The meaning of a safe module-relative path, without the checks' order.
pub record IsSafePath (p : Bytes) : Type 0 where
  pub short : length p ≤ max_path_length
  pub no_nul : Lacks 0 p
  pub no_backslash : Lacks 92 p
  pub plain : All IsPlain (split p b'/')

scan_segments_iff : (segs : List Bytes) → (scan_segments segs ≡ none) ↔ All IsPlain segs
unfolding scan_segments
scan_segments_iff [] = ground arith
scan_segments_iff (seg ∷ segs) = ground (
  arith,
  scan_segments_iff segs,
  bytes_beq_iff seg [],
  bytes_beq_iff seg (codes "."),
  bytes_beq_iff seg (codes ".."),
)

plain-ne-nil : (p : Bytes) → All IsPlain (split p b'/') → p ≢ []
unfolding split
plain-ne-nil [] h = absurd (h.0.0 refl)
plain-ne-nil (c ∷ p) h = cc

-- For plain segments the test on `path.Clean` comes down to the two leading dots.
check_clean-plain :
    (p : Bytes)
    → All IsPlain (split p b'/')
    → check_clean p ≡ (if has_prefix p (codes "..") then some not_normalised else none)
unfolding check_clean
check_clean-plain p h =
    rw (clean-plain p (plain-ne-nil p h) h, is_abs-split p h) (ground (arith, ==_refl p))

accepts_safe :
    (p : Bytes) → IsSafePath p → has_prefix p (codes "..") ≡ false → validate_path p ≡ none
unfolding validate_path
accepts_safe p s h = ground (
  arith,
  (scan_segments_iff (split p b'/')).1 s.plain,
  Lacks-contains_byte 0 p s.no_nul,
  Lacks-contains_byte 92 p s.no_backslash,
  is_abs-split p s.plain,
  check_clean-plain p s.plain,
  bytes_beq_iff p [],
  plain-ne-nil p s.plain,
  s.short,
)

accepted-IsPlain : (p : Bytes) → validate_path p ≡ none → All IsPlain (split p b'/')
unfolding validate_path
accepted-IsPlain p h = (scan_segments_iff (split p b'/')).0 (ground arith)

accepted_safe :
    (p : Bytes) → validate_path p ≡ none → IsSafePath p × (has_prefix p (codes "..") ≡ false)
unfolding validate_path
accepted_safe p h =
    let plain : All IsPlain (split p b'/') = accepted-IsPlain p h in
    (
      record {
        short = ground arith;
        no_nul = contains_byte-Lacks 0 p (ground arith);
        no_backslash = contains_byte-Lacks 92 p (ground arith);
        plain = plain;
      },
      ground (arith, check_clean-plain p plain),
    )

-- `ValidatePath` accepts a path exactly when it has at most 4096 bytes, holds no NUL and no
-- backslash, has only plain segments (none empty, "." or ".."), and does not begin with "..".
pub validate_path_iff :
    (p : Bytes) → (validate_path p ≡ none) ↔ (IsSafePath p × (has_prefix p (codes "..") ≡ false))
validate_path_iff p = (accepted_safe p, λ (s, h). accepts_safe p s h)

-- An accepted path never climbs: resolved from any directory, rooted or not, it only pushes its
-- own segments, in order, above what was there; and `path.Clean` returns it unchanged.
pub validate_path_contained :
    (p : Bytes) (rooted : Bool) (stack : List Bytes)
    → validate_path p ≡ none
    → (clean_segments rooted stack (split p b'/') ≡ reverse (split p b'/') ++ stack) × (clean p ≡ p)
validate_path_contained p rooted stack h =
    let plain : All IsPlain (split p b'/') = accepted-IsPlain p h in
    (
      clean_segments-plain rooted stack (split p b'/') plain,
      clean-plain p (plain-ne-nil p plain) plain,
    )

-- A path of plain segments that begins with "..", such as "..a/b.proto", is refused as not
-- normalised, although it is what `path.Clean` returns for it.
pub leading_dots_refused :
    (p : Bytes)
    → IsSafePath p
    → has_prefix p (codes "..") ≡ true
    → (validate_path p ≡ some not_normalised) × (clean p ≡ p)
unfolding validate_path
leading_dots_refused p s h = (
  ground (
    arith,
    (scan_segments_iff (split p b'/')).1 s.plain,
    Lacks-contains_byte 0 p s.no_nul,
    Lacks-contains_byte 92 p s.no_backslash,
    is_abs-split p s.plain,
    check_clean-plain p s.plain,
    bytes_beq_iff p [],
    plain-ne-nil p s.plain,
    s.short,
  ),
  clean-plain p (plain-ne-nil p s.plain) s.plain,
)

abbrev pub HasSafePath : File → Type 0
HasSafePath f = validate_path f.path ≡ none

validate-All : (files : List File) → (validate files ≡ none) ↔ All HasSafePath files
unfolding validate
validate-All [] = ground arith
validate-All (f ∷ files) = ground (arith, validate-All files)

-- The files that belong in a module.
abbrev pub is_module_file : File → Bool
is_module_file f = has_suffix f.path (codes ".proto") || contains allowed_files f.path

get_path-HasSafePath : (files : List File) → All HasSafePath (get_path files)
unfolding get_path
get_path-HasSafePath [] = tt
get_path-HasSafePath (f ∷ files) = elim (Option-cases (validate_path f.path)) [
  | inl n ↦ elim (Bool-cases (is_module_file f)) [
    | inl m ↦ rw (n, m) (n, get_path-HasSafePath files)
    | inr m ↦ rw (n, m) (get_path-HasSafePath files)
  ]
  | inr (e, n) ↦ rw n (get_path-HasSafePath files)
]

get_path-keep :
    (files : List File) → All HasSafePath files → get_path files ≡ keep is_module_file files
unfolding get_path
get_path-keep [] h = refl
get_path-keep (f ∷ files) (h, hs) = ground (arith, get_path-keep files hs)

-- Where `Validate` accepts the upload, `GetPath` drops only files that do not belong in a module,
-- keeps the others in order, and returns accepted paths only.
pub get_path-validate :
    (files : List File)
    → validate files ≡ none
    → (get_path files ≡ keep is_module_file files) × All HasSafePath (get_path files)
get_path-validate files h =
    (get_path-keep files ((validate-All files).0 h), get_path-HasSafePath files)
