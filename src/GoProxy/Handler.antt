-- ===== src/GoProxy/Handler.antt =====
-- internal/goproxy/handler.go: from the request to the module that is served. The module and commit
-- tables and the authorizer are parameters, as they are interfaces of the source; bodies are left
-- out, so that a reply is a status or the content that is then written.
use hades.Prelude.{
  Bool, Bytes, List, Option, [], codes, drop, if◌then◌else◌, none, not, some, ℕ, ◌++◌, ◌==◌, ◌||◌,
  ◌∷◌, nat_eq, bytes_eq, string_eq,
}
use hades.Text.{
  has_prefix, has_suffix, push_first, split, split_n, to_lower, trim_prefix, trim_space,
  trim_suffix,
}
use hades.Result.{Result, err, not_found, ok}
use hades.Constants.{action_read, resource_module}
use hades.Authz.Scopes.{Scopes, scopes_allow, unrestricted_scopes}
use hades.Authz.Server.{Module}
use hades.GoProxy.Escaping.{unescape_module_path}

-- The error of parseModulePath: errNotServed, or a plain one.
pub data PathResult : Type 0 where
  parsed : Bytes → Bytes → PathResult
  not_served malformed : PathResult

unfoldable pub decoded : Option Bytes → Option Bytes → PathResult
decoded none name = malformed
decoded (some owner) none = malformed
decoded (some owner) (some name) = parsed owner name

unfoldable pub parse_segments : List Bytes → PathResult
unfolding decoded
parse_segments [] = not_served
parse_segments (owner ∷ []) = not_served
parse_segments (owner ∷ (name ∷ rest)) =
    if owner == [] || name == []
    then not_served
    else decoded (unescape_module_path owner) (unescape_module_path name)

-- parseModulePath(modulePath), for the host of the registry
unfoldable pub parse_module_path : Bytes → Bytes → PathResult
parse_module_path host module_path =
    let inner = trim_prefix module_path (host ++ codes "/gen/go/") in
    if inner == module_path then not_served else parse_segments (split_n 2 inner b'/')

-- hashFromVersion(ver); `none` for ok = false
unfoldable pub version_hash : List Bytes → Option Bytes
version_hash [] = none
version_hash (v ∷ []) = none
version_hash (v ∷ (ts ∷ [])) = none
version_hash (v ∷ (ts ∷ (hash ∷ []))) = if has_prefix v (codes "v") then some hash else none
version_hash (v ∷ (ts ∷ (hash ∷ (w ∷ ws)))) = none

unfoldable pub hash_from_version : Bytes → Option Bytes
hash_from_version ver = version_hash (split ver b'-')

-- The request: its method and path, the password of its Basic credentials and its header.
pub record Request : Type 0 where
  pub is_read : Bool
  pub path : Bytes
  pub basic_password : Option Bytes
  pub authorization : Bytes

unfoldable pub bearer : List Bytes → Bytes
bearer [] = []
bearer (scheme ∷ []) = []
bearer (scheme ∷ (token ∷ rest)) =
    if to_lower scheme == codes "bearer" then trim_space token else []

unfoldable pub basic_or_bearer : Option Bytes → Bytes → Bytes
unfolding bearer
basic_or_bearer none header = bearer (split_n 2 header 32)
basic_or_bearer (some password) header =
    if password == [] then bearer (split_n 2 header 32) else trim_space password

-- credentialFromRequest(r); empty for an anonymous request
unfoldable pub credential_from_request : Request → Bytes
unfolding basic_or_bearer
credential_from_request r = basic_or_bearer r.basic_password r.authorization

-- registryv1.Commit, as far as the proxy's gate reads it
pub record ModuleCommit : Type 0 where
  pub module_id : Bytes
  pub commit_hash : Bytes

-- The authorizer and the two tables of Handler; a user is the name that CheckReadAccess reads.
pub record Deps : Type 0 where
  pub registry_host : Bytes
  pub configured : Bool
  pub user_from_token : Bytes → Result (Bytes × Scopes)
  pub check_read : Option Bytes → List Module → Result (Unit {0})
  pub module_by_name : Bytes → Bytes → Option Module
  pub commit_by_hash : Bytes → Result ModuleCommit

-- A value or the HTTP status to send.
pub data Reply {ℓ} (A : Type ℓ) : Type ℓ where
  serve : A → Reply A
  status : ℕ → Reply A

unfoldable pub allowed_read : Result (Unit {0}) → Module → Reply Module
allowed_read (ok u) m = serve m
allowed_read (err code) m = status 404

unfoldable pub scoped_read : Deps → Option Bytes → Scopes → Option Module → Reply Module
unfolding allowed_read
scoped_read deps user scopes none = status 404
scoped_read deps user scopes (some m) =
    if not (scopes_allow scopes resource_module action_read m.name)
    then status 403
    else allowed_read (deps.check_read user (m ∷ [])) m

unfoldable pub with_credential : Deps → Result (Bytes × Scopes) → Option Module → Reply Module
unfolding scoped_read
with_credential deps (err code) m = status 401
with_credential deps (ok (user, scopes)) m = scoped_read deps (some user) scopes m

-- Handler.authorize
unfoldable pub authorize : Deps → Request → Bytes → Bytes → Reply Module
unfolding with_credential scoped_read
authorize deps r owner name =
    if not deps.configured
    then status 503
    else if credential_from_request r == []
    then scoped_read deps none unrestricted_scopes (deps.module_by_name owner name)
    else with_credential deps (deps.user_from_token (credential_from_request r))
        (deps.module_by_name owner name)

unfoldable pub commit_reply : Result ModuleCommit → Module → Reply ModuleCommit
commit_reply (ok c) m = if c.module_id == m.id then serve c else status 404
commit_reply (err not_found) m = status 404
commit_reply (err code) m = status 500

unfoldable pub hash_reply : Deps → Module → Option Bytes → Reply ModuleCommit
unfolding commit_reply
hash_reply deps m none = status 400
hash_reply deps m (some hash) = commit_reply (deps.commit_by_hash hash) m

-- Handler.resolveCommit
unfoldable pub resolve_commit : Deps → Module → Bytes → Reply ModuleCommit
unfolding hash_reply
resolve_commit deps m ver = hash_reply deps m (hash_from_version ver)

-- What follows the module path: after "/@v/", or "@latest".
pub data Query : Type 0 where
  list_versions latest no_query : Query
  info mod_file zip : Bytes → Query

abbrev pub v_mark : Bytes
v_mark = codes "/@v/"

-- strings.Index(s, "/@v/"), with the text before and after
unfoldable pub cut_version : Bytes → Option (Bytes × Bytes)
cut_version [] = none
cut_version (c ∷ s) =
    let rest = cut_version s in
    if has_prefix (c ∷ s) v_mark then some ([], drop 4 (c ∷ s)) else push_first c rest

abbrev pub parse_query : Bytes → Query
parse_query q =
    if q == codes "list"
    then list_versions
    else if q == codes "@latest"
    then latest
    else if has_suffix q (codes ".info")
    then info (trim_suffix q (codes ".info"))
    else if has_suffix q (codes ".mod")
    then mod_file (trim_suffix q (codes ".mod"))
    else if has_suffix q (codes ".zip")
    then zip (trim_suffix q (codes ".zip"))
    else no_query

unfoldable pub or_latest : Bytes → Option (Bytes × Bytes) → Option (Bytes × Bytes)
or_latest stripped (some parts) = some parts
or_latest stripped none =
    if has_suffix stripped (codes "/@latest")
    then some (trim_suffix stripped (codes "/@latest"), codes "@latest")
    else none

unfoldable pub answer : Query → Reply Module → Reply (Module × Query)
answer q (status n) = status n
answer no_query (serve m) = status 404
answer q (serve m) = serve (m, q)

unfoldable pub gate : Deps → Request → Query → PathResult → Reply (Module × Query)
unfolding answer
gate deps r q not_served = status 404
gate deps r q malformed = status 400
gate deps r q (parsed owner name) = answer q (authorize deps r owner name)

unfoldable pub route : Deps → Request → Option (Bytes × Bytes) → Reply (Module × Query)
route deps r none = status 404
route deps r (some (module_path, q)) =
    gate deps r (parse_query q) (parse_module_path deps.registry_host module_path)

-- Handler.ServeHTTP up to the handlers of the five queries
unfoldable pub serve_http : Deps → Request → Reply (Module × Query)
unfolding route or_latest cut_version
serve_http deps r =
    let stripped = trim_prefix r.path (codes "/go/") in
    if not r.is_read then status 405 else route deps r (or_latest stripped (cut_version stripped))
