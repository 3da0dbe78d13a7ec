-- ===== src/Constants/Scope.antt =====
-- The grammar of API token scopes in internal/hades/constants/constants.go: `Scope`, `ScopeOn`,
-- `ParseScope`, `DomainMatches`, `IsKnownScope`.
pub mod RoundTrip
pub mod Domains
pub mod Known
mod Tests
use hades.Prelude.{
  Bool, Bytes, List, Option, [], codes, contains, false, if◌then◌else◌, map, none, not, some, true,
  ◌++◌, ◌==◌, ◌||◌, ◌∷◌, nat_eq, bytes_eq, string_eq,
}
use hades.Constants.{
  action_admin, action_create, action_delete, action_list, action_publish, action_push, action_read,
  action_transfer, action_update, resource_module, resource_org,
}
use hades.Text.{contains_any, cut, cut_suffix, is_empty, split_n}

abbrev actions : List Bytes
actions =
    action_create ∷ action_read ∷ action_list ∷ action_update ∷ action_push ∷ action_delete
    ∷ action_admin ∷ action_transfer ∷ action_publish ∷ []

abbrev scoped_resources : List Bytes
scoped_resources = resource_module ∷ resource_org ∷ []

-- Scope(resource, action) and ScopeOn(resource, action, domain)
unfoldable pub scope : Bytes → Bytes → Bytes
scope resource action = resource ++ b':' ∷ action

unfoldable pub scope_on : Bytes → Bytes → Bytes → Bytes
unfolding scope
scope_on resource action domain = scope resource action ++ b':' ∷ domain

-- The tests on `parts`, which SplitN made of at most three pieces.
parse_parts : List Bytes → Option (Bytes × Bytes × Bytes)
parse_parts [] = none
parse_parts (r ∷ []) = none
parse_parts (r ∷ (a ∷ [])) = if is_empty r || is_empty a then none else some (r, a, [])
parse_parts (r ∷ (a ∷ (d ∷ rest))) =
    if is_empty r || is_empty a then none else if is_empty d then none else some (r, a, d)

-- ParseScope(scope); `none` for ok = false
unfoldable pub parse_scope : Bytes → Option (Bytes × Bytes × Bytes)
unfolding parse_parts
parse_scope s = parse_parts (split_n 3 s b':')

-- The owner before the first slash is the namespace.
owner_is : Bytes → Option (Bytes × Bytes) → Bool
owner_is ns none = false
owner_is ns (some (owner, name)) = owner == ns

namespace_covers : Option Bytes → Bytes → Bool
namespace_covers none domain = false
namespace_covers (some ns) domain = owner_is ns (cut domain b'/')

-- DomainMatches(pattern, domain)
unfoldable pub domain_matches : Bytes → Bytes → Bool
unfolding owner_is namespace_covers
domain_matches pattern domain =
    if is_empty pattern
    then true
    else if is_empty domain
    then false
    else if pattern == domain
    then true
    else namespace_covers (cut_suffix pattern (codes "/*")) domain

domain_parts_ok : Option (Bytes × Bytes) → Bool
domain_parts_ok none = false
domain_parts_ok (some (owner, name)) =
    if is_empty owner || is_empty name
    then false
    else if contains_any owner (codes "*/")
    then false
    else name == codes "*" || not (contains_any name (codes "*/"))

-- isValidScopeDomain(domain)
unfoldable pub is_valid_scope_domain : Bytes → Bool
unfolding domain_parts_ok
is_valid_scope_domain domain = domain_parts_ok (cut domain b'/')

-- knownScopes as a test on its keys, which are "r:*" and "r:a" for the lists above
unfoldable pub known_scopes : List Bytes → List Bytes
known_scopes [] = []
known_scopes (r ∷ rs) = (r ++ codes ":*") ∷ (map (scope r) actions ++ known_scopes rs)

known_domain : Option (Bytes × Bytes × Bytes) → Bool
known_domain none = false
known_domain (some (r, a, d)) =
    if contains (known_scopes scoped_resources) (r ++ codes ":" ++ a)
    then (if is_empty d then true else is_valid_scope_domain d)
    else false

-- IsKnownScope(scope)
unfoldable pub is_known_scope : Bytes → Bool
unfolding known_domain
is_known_scope s = known_domain (parse_scope s)
