-- ===== src/Authz/Server/Tokens.antt =====
-- What a scoped API token can reach, whatever its owner may do.
use hades.Prelude.{
  All, Bool-cases, Bytes, List, [], arith, bytes_beq_iff, codes, inl, inr, refl, some, true, ◌∷◌,
  ◌≡◌, ◌≢◌, ◌⊎◌,
}
use hades.Result.{ok}
use hades.Text.{cut}
use hades.Constants.{Policy}
use hades.Constants.Scope.{domain_matches, is_known_scope, parse_scope}
use hades.Constants.Scope.Known.{known_scope_confined}
use hades.Authz.Scopes.{
  entry_covers, scope_covers, scopes_allow, scopes_from_context, scopes_from_values,
}
use hades.Authz.Server.{Engine, can, granted, in_scope}

-- A scope of `IsKnownScope` whose domain part lies in the owner's namespace.
pub record ConfinedTo (owner s : Bytes) : Type 0 where
  pub known : is_known_scope s ≡ true
  pub resource : Bytes
  pub action : Bytes
  pub domain : Bytes
  pub name : Bytes
  pub parsed : parse_scope s ≡ some (resource, action, domain)
  pub named : domain ≢ []
  pub owned : cut domain b'/' ≡ some (owner, name)

entry_covers-domain :
    (r a d rt act dom : Bytes)
    → entry_covers (some (r, a, d)) rt act dom ≡ true
    → (r ≡ rt) × ((a ≡ act) ⊎ (a ≡ codes "*")) × (domain_matches d dom ≡ true)
unfolding entry_covers
entry_covers-domain r a d rt act dom h =
    ground (arith, bytes_beq_iff r rt, bytes_beq_iff a act, bytes_beq_iff a (codes "*"))

confined_entry :
    (owner s rt act dom : Bytes)
    → ConfinedTo owner s
    → entry_covers (parse_scope s) rt act dom ≡ true
    → (name : Bytes) × (cut dom b'/' ≡ some (owner, name))
confined_entry owner s rt act dom c h =
    let (r, a, m) =
      entry_covers-domain c.resource c.action c.domain rt act dom (rw c.parsed at h) in
    let (o, n, n', e, f, g) =
      known_scope_confined s c.resource c.action c.domain dom c.known c.parsed c.named m in
    let same : o ≡ owner = cc (e, c.owned) in (n', rw same at f)

scope_covers-confined :
    (owner : Bytes) (ss : List Bytes) (rt act dom : Bytes)
    → All (ConfinedTo owner) ss
    → scope_covers ss rt act dom ≡ true
    → (name : Bytes) × (cut dom b'/' ≡ some (owner, name))
unfolding scope_covers
scope_covers-confined owner [] rt act dom h k = cc
scope_covers-confined owner (s ∷ ss) rt act dom (h, hs) k =
    elim (Bool-cases (entry_covers (parse_scope s) rt act dom)) [
      | inl e ↦ confined_entry owner s rt act dom h e
      | inr e ↦ scope_covers-confined owner ss rt act dom hs (ground (arith, e))
    ]

scoped-covers :
    (vs : List Bytes) (p : Policy)
    → vs ≢ []
    → in_scope (some (scopes_from_values vs)) p ≡ true
    → scope_covers vs p.resource_type p.action p.domain ≡ true
unfolding scopes_allow scopes_from_context scopes_from_values
scoped-covers [] p n h = absurd (n refl)
scoped-covers (v ∷ vs) p n h = h

-- A token whose scopes are all accepted by `IsKnownScope` and restricted to one owner's namespace
-- is granted nothing by `Can` outside that namespace, whatever the engine allows its user.
pub scoped_token_confined :
    (engine : Engine) (owner : Bytes) (vs : List Bytes) (p : Policy)
    → vs ≢ []
    → All (ConfinedTo owner) vs
    → can engine (some (scopes_from_values vs)) p ≡ ok granted
    → (name : Bytes) × (cut p.domain b'/' ≡ some (owner, name))
unfolding can
scoped_token_confined engine owner vs p n h k =
    scope_covers-confined owner vs p.resource_type p.action p.domain h
      (scoped-covers vs p n (ground arith))
