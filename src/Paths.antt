-- ===== src/Paths.antt =====
-- utils/paths/paths.go: the paths that an upload may write, and Go's `path.Clean`.
pub mod Cleaning
pub mod Safety
pub mod Names
mod Tests
use hades.Prelude.{
  Bool, Bytes, List, Option, [], codes, contains, if◌then◌else◌, is_some, length, ltb, map, none,
  not, reverse, some, ℕ, ◌==◌, ◌||◌, ◌∷◌, nat_eq, bytes_eq, string_eq,
}
use hades.Text.{contains_byte, has_prefix, has_suffix, is_empty, join, split}

-- registryv1.File
pub record File : Type 0 where
  pub path : Bytes
  pub content : Bytes

abbrev allowed_files : List Bytes
allowed_files = map codes ("buf.md" ∷ "README.md" ∷ "README.markdown" ∷ "LICENSE" ∷ [])

abbrev pub max_path_length : ℕ
max_path_length = 4096

-- One error for each `fmt.Errorf` of `ValidatePath`.
pub data PathError : Type 0 where
  path_empty path_too_long has_nul has_backslash is_absolute : PathError
  empty_segment dot_segment not_normalised : PathError

-- path.Clean works on segments: "" and "." go, ".." takes the segment before it if there is one
-- to take, and otherwise stays in a relative path and goes in a rooted one. The stack has the
-- last segment at its head.
climb : Bool → List Bytes → List Bytes
climb rooted [] = if rooted then [] else codes ".." ∷ []
climb rooted (top ∷ stack) = if top == codes ".." then codes ".." ∷ top ∷ stack else stack

clean_step : Bool → List Bytes → Bytes → List Bytes
unfolding climb
clean_step rooted stack seg =
    if seg == [] || seg == codes "."
    then stack
    else if seg == codes ".."
    then climb rooted stack
    else seg ∷ stack

pub clean_segments : Bool → List Bytes → List Bytes → List Bytes
clean_segments rooted stack [] = stack
clean_segments rooted stack (seg ∷ segs) = clean_segments rooted (clean_step rooted stack seg) segs

abbrev or_dot : Bytes → Bytes
or_dot s = if is_empty s then codes "." else s

-- path.IsAbs(p), which is also whether path.Clean takes the path for rooted
abbrev pub is_abs : Bytes → Bool
is_abs p = has_prefix p (codes "/")

-- path.Clean(p)
unfoldable pub clean : Bytes → Bytes
unfolding clean_segments clean_step
clean p =
    let kept = join (reverse (clean_segments (is_abs p) [] (split p b'/'))) b'/' in
    if is_abs p then b'/' ∷ kept else or_dot kept

-- The loop over strings.Split(p, "/").
unfoldable pub scan_segments : List Bytes → Option PathError
scan_segments [] = none
scan_segments (seg ∷ segs) =
    let rest = scan_segments segs in
    if seg == []
    then some empty_segment
    else if seg == codes "." || seg == codes ".."
    then some dot_segment
    else rest

-- The test on `path.Clean` that follows the loop.
unfoldable pub check_clean : Bytes → Option PathError
check_clean p =
    if not (clean p == p) || (has_prefix (clean p) (codes "..") || is_abs (clean p))
    then some not_normalised
    else none

or_else : Option PathError → Option PathError → Option PathError
or_else none later = later
or_else (some e) later = some e

-- ValidatePath(p); `none` for nil
unfoldable pub validate_path : Bytes → Option PathError
unfolding or_else
validate_path p =
    if p == []
    then some path_empty
    else if ltb max_path_length (length p)
    then some path_too_long
    else if contains_byte p 0
    then some has_nul
    else if contains_byte p 92
    then some has_backslash
    else if has_prefix p (codes "/")
    then some is_absolute
    else or_else (scan_segments (split p b'/')) (check_clean p)

-- GetPath(files)
unfoldable pub get_path : List File → List File
get_path [] = []
get_path (f ∷ files) =
    let rest = get_path files in
    if is_some (validate_path f.path)
    then rest
    else if has_suffix f.path (codes ".proto") || contains allowed_files f.path
    then f ∷ rest
    else rest

-- Validate(files)
unfoldable pub validate : List File → Option PathError
unfolding or_else
validate [] = none
validate (f ∷ files) = or_else (validate_path f.path) (validate files)
