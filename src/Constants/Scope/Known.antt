-- ===== src/Constants/Scope/Known.antt =====
-- What `IsKnownScope` guarantees of a scope that a token may carry.
use hades.Prelude.{Bytes, Option-cases, [], arith, codes, inl, inr, refl, some, true, ◌≡◌, ◌≢◌, ◌⊎◌}
use hades.Text.{cut}
use hades.Text.Laws.{cut-append, is_empty_iff}
use hades.Constants.Scope.{domain_matches, is_known_scope, is_valid_scope_domain, parse_scope}
use hades.Constants.Scope.Domains.{domain_matches_iff, everything, exact, namespace}

known_domain-valid :
    (s r a d : Bytes)
    → is_known_scope s ≡ true
    → parse_scope s ≡ some (r, a, d)
    → d ≢ []
    → is_valid_scope_domain d ≡ true
unfolding is_known_scope
known_domain-valid s r a d h e n = ground (arith, is_empty_iff d)

-- A valid domain has an owner segment; what it covers lies under the same owner, and is the domain
-- itself unless the name is the wildcard.
pub valid_domain_confined :
    (d dom : Bytes)
    → is_valid_scope_domain d ≡ true
    → domain_matches d dom ≡ true
    → (owner name name' : Bytes) × (cut d b'/' ≡ some (owner, name))
      × (cut dom b'/' ≡ some (owner, name'))
      × ((name ≡ codes "*") ⊎ (d ≡ dom))
valid_domain_confined d dom v m = elim (Option-cases (cut d b'/')) [
  | inl n ↦ absurd (unfold is_valid_scope_domain in ground (arith, n))
  | inr ((o, name), f) ↦ elim ((domain_matches_iff d dom).0 m) [
    | everything e ↦ absurd (unfold cut in ground (arith, f, e))
    | exact n e ↦ (o, name, name, f, rw (← e) f, inr e)
    | namespace o' name' ep ed l ↦ (
      o',
      codes "*",
      name',
      rw ep (cut-append o' b'/' (codes "*") l),
      rw ed (cut-append o' b'/' name' l),
      inl refl,
    )
  ]
]

-- A domain-restricted scope that `IsKnownScope` accepts never reaches outside its owner's
-- namespace: a domain that it matches has the same first segment, and is the scope's own domain
-- unless the scope ends in the wildcard.
pub known_scope_confined :
    (s r a d dom : Bytes)
    → is_known_scope s ≡ true
    → parse_scope s ≡ some (r, a, d)
    → d ≢ []
    → domain_matches d dom ≡ true
    → (owner name name' : Bytes) × (cut d b'/' ≡ some (owner, name))
      × (cut dom b'/' ≡ some (owner, name'))
      × ((name ≡ codes "*") ⊎ (d ≡ dom))
known_scope_confined s r a d dom h e n m =
    valid_domain_confined d dom (known_domain-valid s r a d h e n) m
