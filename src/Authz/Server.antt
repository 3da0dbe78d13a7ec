-- ===== src/Authz/Server.antt =====
-- internal/hades/server/authorization/authorization.go: `Can`, `BatchCan`, `CheckReadAccess`
-- over the engine. The context is the scopes that the interceptor attached.
pub mod Reads
pub mod Writes
pub mod Tokens
mod Tests
use hades.Prelude.{
  Bool, Bytes, List, Option, [], false, if◌then◌else◌, map, none, not, some, true, ◌∷◌,
}
use hades.Result.{Result, err, internal, not_found, ok, permission_denied, ◌>>=◌}
use hades.Constants.{CanResponse, Policy, action_read, resource_module, visibility_private}
use hades.Authz.Scopes.{Scopes, scopes_allow, scopes_from_context}

-- The engine as the server sees it.
pub record Engine : Type 0 where
  pub allow : Policy → Result Bool
  pub batch_allow : List Policy → Result (List Bool)

-- registryv1.ModuleVisibility
pub data ModuleVisibility : Type 0 where
  visibility_unspecified module_public module_private : ModuleVisibility

abbrev pub is_private : ModuleVisibility → Bool
is_private module_private = true
is_private v = false

-- The fields of registryv1.Module and identityv1.User that the checks read.
pub record Module : Type 0 where
  pub id : Bytes
  pub name : Bytes
  pub visibility : ModuleVisibility

abbrev pub granted : CanResponse
granted = record { allowed = true; policy = none }

abbrev pub denied : Policy → CanResponse
denied p = record { allowed = false; policy = some p }

abbrev pub as_private : Policy → Policy
as_private p = record p { visibility = visibility_private }

abbrev pub in_scope : Option Scopes → Policy → Bool
in_scope ctx p = scopes_allow (scopes_from_context ctx) p.resource_type p.action p.domain

-- The loop over `results`, which indexes `policies` at a denial; past its end Go panics, and the
-- handler answers an internal error.
pub first_denied : List Bool → List Policy → Result CanResponse
first_denied [] ps = ok granted
first_denied (true ∷ rs) [] = first_denied rs []
first_denied (true ∷ rs) (p ∷ ps) = first_denied rs ps
first_denied (false ∷ rs) [] = err internal
first_denied (false ∷ rs) (p ∷ ps) = ok (denied p)

-- The loop over `policies` that checks the scopes.
pub first_out_of_scope : Option Scopes → List Policy → Option Policy
first_out_of_scope ctx [] = none
first_out_of_scope ctx (p ∷ ps) =
    let rest = first_out_of_scope ctx ps in if not (in_scope ctx p) then some p else rest

abbrev pub read_policy : Bytes → Module → Policy
read_policy username m = record {
  subject = username;
  domain = m.name;
  resource_type = resource_module;
  action = action_read;
  visibility = visibility_private;
}

abbrev pub may_read_scope : Option Scopes → Module → Bool
may_read_scope ctx m = scopes_allow (scopes_from_context ctx) resource_module action_read m.name

-- The first pass of CheckReadAccess: the policies that are left for the engine. The user is the
-- username, `none` for an anonymous caller.
pub pending : Option Scopes → Option Bytes → List Module → Result (List Policy)
pending ctx user [] = ok []
pending ctx user (m ∷ ms) =
    let rest = pending ctx user ms in
    if not (may_read_scope ctx m)
    then (if is_private m.visibility then err not_found else err permission_denied)
    else if not (is_private m.visibility)
    then rest
    else (elim user [
      | none ↦ err not_found
      | some username ↦ do qs ← rest; ok (read_policy username m ∷ qs)
    ])

pub all_allowed : List Bool → Result (Unit {0})
all_allowed [] = ok tt
all_allowed (b ∷ bs) = let rest = all_allowed bs in if b then rest else err not_found

module _ (engine : Engine) (ctx : Option Scopes) where
  -- Server.Can
  unfoldable pub can : Policy → Result CanResponse
  can p =
      if not (in_scope ctx p)
      then ok (denied p)
      else (do allowed ← engine.allow (as_private p); ok (if allowed then granted else denied p))

  batch_in_scope : Option Policy → List Policy → Result CanResponse
  batch_in_scope (some p) ps = ok (denied p)
  batch_in_scope none ps = do
    results ← engine.batch_allow (map as_private ps)
    first_denied results ps

  -- Server.BatchCan
  unfoldable pub batch_can : List Policy → Result CanResponse
  unfolding batch_in_scope
  batch_can [] = ok granted
  batch_can (p ∷ ps) = batch_in_scope (first_out_of_scope ctx (p ∷ ps)) (p ∷ ps)

  ask_engine : List Policy → Result (Unit {0})
  ask_engine [] = ok tt
  ask_engine (q ∷ qs) = do results ← engine.batch_allow (q ∷ qs); all_allowed results

  -- Server.CheckReadAccess
  unfoldable pub check_read_access : Option Bytes → List Module → Result (Unit {0})
  unfolding ask_engine
  check_read_access user modules = do qs ← pending ctx user modules; ask_engine qs
