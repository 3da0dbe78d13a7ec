-- ===== src/GoProxy/Tests.antt =====
-- Runs of the module proxy at concrete requests.
use hades.Prelude.{
  Bytes, List, Option, [], bytes_beq, codes, false, if◌then◌else◌, none, refl, some, true, ◌==◌,
  ◌↔◌, ◌≡◌, nat_eq, bytes_eq, string_eq,
}
use hades.Text.{
  contains_any, contains_byte, cut, has_prefix, has_suffix, split, split_n, to_lower, trim_prefix,
  trim_space, trim_suffix,
}
use hades.Text.Laws.{Lacks}
use hades.Result.{Result, err, not_found, ok, unauthenticated}
use hades.Authz.Scopes.{scopes_allow, unrestricted_scopes}
use hades.Authz.Server.{Module, module_private}
use hades.GoProxy.Escaping.{decode, escape, unescape_module_path, unescape_module_path_iff}
use hades.GoProxy.Handler.{
  Deps, ModuleCommit, Request, allowed_read, answer, authorize, basic_or_bearer, bearer,
  commit_reply, credential_from_request, cut_version, decoded, gate, hash_from_version, hash_reply,
  list_versions, or_latest, parse_module_path, parse_segments, parsed, resolve_commit, route,
  scoped_read, serve, serve_http, status, version_hash, with_credential,
}
use hades.GoProxy.Spelling.{AsksFor}
use hades.GoProxy.Gate.{resolve_commit-pinned, serve_http-authorised}

unescape_tests :
    (unescape_module_path (codes "!alice") ≡ some (codes "Alice"))
    × (unescape_module_path (codes "my!mod") ≡ some (codes "myMod"))
    × (unescape_module_path (codes "Alice") ≡ none)
    × (unescape_module_path (codes "alice!") ≡ none)
    × (unescape_module_path (codes "a!1") ≡ none)
unfolding unescape_module_path decode contains_any contains_byte
unescape_tests = (refl, refl, refl, refl, refl)

unescape_module_path_iff_example :
    (unescape_module_path (codes "!alice") ≡ some (codes "Alice"))
    ↔ (Lacks b'!' (codes "Alice") × (codes "!alice" ≡ escape (codes "Alice")))
unescape_module_path_iff_example = unescape_module_path_iff (codes "!alice") (codes "Alice")

abbrev petapis : Module
petapis = record { id = codes "m1"; name = codes "alice/petapis"; visibility = module_private }

abbrev commit : ModuleCommit
commit = record { module_id = codes "m1"; commit_hash = codes "0123456789ab" }

-- Only bob may read the module, with the token "t".
abbrev reads : Option Bytes → List Module → Result (Unit {0})
reads none ms = err not_found
reads (some user) ms = if user == codes "bob" then ok tt else err not_found

abbrev deps : Deps
deps = record {
  registry_host = codes "h";
  configured = true;
  user_from_token = λ token.
      if token == codes "t" then ok (codes "bob", unrestricted_scopes) else err unauthenticated;
  check_read = reads;
  module_by_name = λ owner name. some petapis;
  commit_by_hash = λ hash. ok commit;
}

abbrev listing : Bytes → Request
listing header = record {
  is_read = true;
  path = codes "/go/h/gen/go/alice/petapis/@v/list";
  basic_password = none;
  authorization = header;
}

serve_tests :
    (serve_http deps (listing (codes "Bearer t")) ≡ serve (petapis, list_versions))
    × (serve_http deps (listing []) ≡ status 404)
    × (serve_http deps (listing (codes "Bearer u")) ≡ status 401)
    × (resolve_commit deps petapis (codes "v0.0.0-20260101000000-0123456789ab") ≡ serve commit)
    × (resolve_commit deps petapis (codes "v1.0.0") ≡ status 400)
unfolding serve_http route gate answer authorize with_credential scoped_read allowed_read
    credential_from_request basic_or_bearer bearer scopes_allow parse_module_path parse_segments
    decoded unescape_module_path or_latest cut_version resolve_commit hash_reply commit_reply
    hash_from_version version_hash split split_n cut trim_prefix trim_suffix has_suffix has_prefix
    to_lower trim_space contains_any contains_byte bytes_beq
serve_tests = (refl, refl, refl, refl, refl)

resolve_commit-pinned_example :
    (codes "m1" ≡ petapis.id)
    × ((hash : Bytes) × (hash_from_version (codes "v0.0.0-1-0123456789ab") ≡ some hash)
        × (deps.commit_by_hash hash ≡ ok commit))
unfolding resolve_commit hash_reply commit_reply hash_from_version version_hash split has_prefix
    bytes_beq
resolve_commit-pinned_example =
    resolve_commit-pinned deps petapis (codes "v0.0.0-1-0123456789ab") commit refl

abbrev closed : Deps
closed = record deps {
  user_from_token = λ token. ok (codes "eve", unrestricted_scopes);
  check_read = λ user ms. err not_found;
}

serve_http-authorised_example :
    ((listing (codes "Bearer t")).is_read ≡ true)
    × ((path owner name : Bytes) × AsksFor
          (codes "/go/h/gen/go/alice/petapis/@v/list")
          path
          list_versions
        × (parse_module_path (codes "h") path ≡ parsed owner name)
        × (authorize deps (listing (codes "Bearer t")) owner name ≡ serve petapis))
unfolding serve_http route gate answer authorize with_credential scoped_read allowed_read
    credential_from_request basic_or_bearer bearer scopes_allow parse_module_path parse_segments
    decoded unescape_module_path or_latest cut_version split_n cut trim_prefix trim_suffix
    has_suffix has_prefix to_lower trim_space contains_any contains_byte bytes_beq
serve_http-authorised_example =
    serve_http-authorised deps (listing (codes "Bearer t")) petapis list_versions refl

-- A token for another module.
abbrev scoped : Deps
scoped = record deps {
  user_from_token = λ token. ok (codes "eve", record { unrestricted = false; values = [] });
}
