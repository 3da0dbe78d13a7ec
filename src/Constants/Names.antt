-- ===== src/Constants/Names.antt =====
-- Namespace and module names in internal/hades/constants/constants.go: `IsReservedName`,
-- `nameRe`, `ValidateName`.
pub mod Safety
mod Tests
use hades.Prelude.{
  Bool, Bytes, List, Option, [], codes, contains, false, if◌then◌else◌, leb, length, ltb, map, none,
  not, some, ℕ, ◌&&◌, ◌==◌, ◌||◌, ◌∷◌, nat_eq, bytes_eq, string_eq,
}
use hades.Text.{is_empty, to_lower, trim_space}

abbrev reserved_names : List Bytes
reserved_names = map codes (
    "settings" ∷ "login" ∷ "signup" ∷ "search" ∷ "verify-email" ∷ "api" ∷ "app" ∷ "go" ∷ "gen"
    ∷ "oauth2" ∷ "buf" ∷ "hades" ∷ "admin" ∷ "administrator" ∷ "root" ∷ "system" ∷ "help"
    ∷ "support" ∷ "about" ∷ "pricing" ∷ "terms" ∷ "privacy" ∷ "security" ∷ "status" ∷ "user"
    ∷ "users" ∷ "org" ∷ "orgs" ∷ "team" ∷ "teams" ∷ "me" ∷ "null" ∷ "undefined" ∷ "new" ∷ "home"
    ∷ [])

-- IsReservedName(name)
unfoldable pub is_reserved_name : Bytes → Bool
is_reserved_name name = contains reserved_names (to_lower (trim_space name))

-- The character classes [a-z0-9] and [a-z0-9._-] of nameRe.
abbrev pub is_name_end : ℕ → Bool
is_name_end c = (leb b'a' c && leb c b'z') || (leb b'0' c && leb c b'9')

abbrev pub is_name_inner : ℕ → Bool
is_name_inner c = is_name_end c || (c == b'.' || (c == b'_' || c == b'-'))

-- [a-z0-9._-]*[a-z0-9] against a whole text
unfoldable pub name_rest : Bytes → Bool
name_rest [] = false
name_rest (c ∷ []) = is_name_end c
name_rest (c ∷ (d ∷ s)) = is_name_inner c && name_rest (d ∷ s)

-- nameRe.MatchString(name)
unfoldable pub name_re : Bytes → Bool
unfolding name_rest
name_re [] = false
name_re (c ∷ []) = is_name_end c
name_re (c ∷ (d ∷ s)) = is_name_end c && name_rest (d ∷ s)

abbrev pub max_name_length : ℕ
max_name_length = 32

pub data NameError : Type 0 where
  name_required name_too_long name_bad_form name_reserved : NameError

-- ValidateName(name); `none` for nil
unfoldable pub validate_name : Bytes → Option NameError
validate_name name =
    if is_empty name
    then some name_required
    else if ltb max_name_length (length name)
    then some name_too_long
    else if not (name_re name)
    then some name_bad_form
    else if is_reserved_name name
    then some name_reserved
    else none
