-- ===== src/Authz/Server/Tests.antt =====
-- Runs of the server's checks at concrete inputs.
use hades.Authz.Server.Tokens.{ConfinedTo, scoped_token_confined}
use hades.Authz.Server.Writes.{batch_can-agrees}
use hades.Authz.Server.Reads.{Decided, check_read_access_iff, is_readable}
use hades.Text.{contains_any, contains_byte, cut, cut_suffix, split_n}
use hades.Prelude.{
  All, Bool, Bytes, List, Memᴰ, [], all, bytes_beq, codes, map, none, refl, some, true, ◌==◌, ◌↔◌,
  ◌∷◌, ◌≡◌, ◌⊎◌, nat_eq, bytes_eq, string_eq,
}
use hades.Result.{err, not_found, ok}
use hades.Constants.{Policy, action_delete, action_read}
use hades.Constants.Scope.{
  domain_matches, is_known_scope, is_valid_scope_domain, known_scopes, parse_scope, scope,
}
use hades.Authz.Scopes.{
  entry_covers, scope_covers, scopes_allow, scopes_from_context, scopes_from_values,
}
use hades.Authz.Server.{
  Engine, Module, all_allowed, batch_can, can, check_read_access, denied, granted, module_private,
  pending, read_policy,
}

-- An engine that allows reading, and nothing else.
abbrev reading : Policy → Bool
reading p = p.action == action_read

abbrev reader_engine : Engine
reader_engine = record { allow = λ p. ok (reading p); batch_allow = λ ps. ok (map reading ps) }

abbrev secret : Module
secret = record { id = []; name = codes "alice/secret"; visibility = module_private }

read_tests :
    (check_read_access reader_engine none (some (codes "bob")) (secret ∷ []) ≡ ok tt)
    × (check_read_access reader_engine none none (secret ∷ []) ≡ err not_found)
    × (check_read_access reader_engine
          (some (scopes_from_values (codes "module:push" ∷ [])))
          (some (codes "bob"))
          (secret ∷ [])
        ≡ err not_found)
unfolding check_read_access pending all_allowed scopes_from_context scopes_allow scopes_from_values
    scope_covers entry_covers parse_scope split_n cut bytes_beq
read_tests = (refl, refl, refl)

reader-Decided : Decided reading reader_engine
reader-Decided = record { single = λ p. refl; batch = λ ps. refl }

check_read_access_iff_example :
    (check_read_access reader_engine none (some (codes "bob")) (secret ∷ []) ≡ ok tt)
    ↔ (all (is_readable reading none (some (codes "bob"))) (secret ∷ []) ≡ true)
check_read_access_iff_example =
    check_read_access_iff reading reader_engine none (some (codes "bob")) (secret ∷ [])
      reader-Decided

abbrev deleting : Policy
deleting = record (read_policy (codes "bob") secret) { action = action_delete }

abbrev read_then_delete : List Policy
read_then_delete = read_policy (codes "bob") secret ∷ deleting ∷ []

batch_can-agrees_example :
    ((batch_can reader_engine none read_then_delete ≡ ok granted)
      × All (λ p. can reader_engine none p ≡ ok granted) read_then_delete)
    ⊎ ((p : Policy) × Memᴰ p read_then_delete
        × (batch_can reader_engine none read_then_delete ≡ ok (denied p))
        × (can reader_engine none p ≡ ok (denied p)))
batch_can-agrees_example =
    batch_can-agrees reading reader_engine none read_then_delete reader-Decided

abbrev alice_read : Bytes
alice_read = codes "module:read:alice/*"

alice_read-ConfinedTo : ConfinedTo (codes "alice") alice_read
unfolding parse_scope is_known_scope split_n cut bytes_beq is_valid_scope_domain contains_any
    contains_byte known_scopes scope
alice_read-ConfinedTo = record {
  known = refl;
  resource = codes "module";
  action = codes "read";
  domain = codes "alice/*";
  name = codes "*";
  parsed = refl;
  named = λ e. cc;
  owned = refl;
}

scoped_token_confined_example :
    (name : Bytes) × (cut (codes "alice/secret") b'/' ≡ some (codes "alice", name))
unfolding can scopes_from_context scopes_allow scopes_from_values scope_covers entry_covers
    parse_scope split_n cut bytes_beq domain_matches cut_suffix
scoped_token_confined_example =
    scoped_token_confined reader_engine (codes "alice") (alice_read ∷ [])
      (read_policy (codes "bob") secret) (λ e. cc) (alice_read-ConfinedTo, tt) refl
