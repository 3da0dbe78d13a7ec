-- ===== src/Authz/Scopes.antt =====
-- internal/hades/server/authorization/authorization.go: `Scopes`, what a credential may do.
use hades.Prelude.{
  Bool, Bytes, List, Option, [], codes, false, if◌then◌else◌, none, not, some, true, ◌&&◌, ◌==◌,
  ◌∷◌, nat_eq, bytes_eq, string_eq,
}
use hades.Constants.Scope.{domain_matches, parse_scope}

pub record Scopes : Type 0 where
  pub unrestricted : Bool
  pub values : List Bytes

-- UnrestrictedScopes()
abbrev pub unrestricted_scopes : Scopes
unrestricted_scopes = record { unrestricted = true; values = [] }

-- ScopesFromValues(values)
unfoldable pub scopes_from_values : List Bytes → Scopes
scopes_from_values [] = record { unrestricted = true; values = [] }
scopes_from_values (v ∷ vs) = record { unrestricted = false; values = v ∷ vs }

-- One round of the loop of scopeCovers, for a parsed entry.
unfoldable pub entry_covers : Option (Bytes × Bytes × Bytes) → Bytes → Bytes → Bytes → Bool
entry_covers none resource_type action domain = false
entry_covers (some (r, a, d)) resource_type action domain =
    if not (r == resource_type)
    then false
    else if not (a == action) && not (a == codes "*")
    then false
    else domain_matches d domain

-- scopeCovers(scopes, resourceType, action, domain)
unfoldable pub scope_covers : List Bytes → Bytes → Bytes → Bytes → Bool
scope_covers [] resource_type action domain = false
scope_covers (s ∷ scopes) resource_type action domain =
    let rest = scope_covers scopes resource_type action domain in
    if entry_covers (parse_scope s) resource_type action domain then true else rest

-- Scopes.Allow
unfoldable pub scopes_allow : Scopes → Bytes → Bytes → Bytes → Bool
scopes_allow s resource_type action domain =
    if s.unrestricted then true else scope_covers s.values resource_type action domain

-- Scopes.Restricted
unfoldable pub restricted : Scopes → Bool
restricted s = not s.unrestricted

-- scopesFromContext, where the context carries no value for an anonymous request
unfoldable pub scopes_from_context : Option Scopes → Scopes
scopes_from_context none = unrestricted_scopes
scopes_from_context (some s) = s
