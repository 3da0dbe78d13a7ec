-- ===== src/GoProxy/Gate.antt =====
-- What the proxy's gate lets through, and what it tells of modules that it does not.
use hades.Prelude.{
  Bool, Bool-cases, Bytes, Option, Option-cases, [], ap, arith, bytes_beq_iff, codes, false,
  if◌then◌else◌, inl, inr, none, not, refl, some, sym, true, ◌==◌, ◌∙◌, ◌∷◌, ◌≡◌, ◌≢◌, nat_eq,
  bytes_eq, string_eq,
}
use hades.Result.{Code, Result-cases, err, ok}
use hades.Authz.Scopes.{Scopes, scopes_allow}
use hades.Authz.Server.{Module}
use hades.GoProxy.Handler.{
  Deps, ModuleCommit, PathResult, Query, Reply, Request, allowed_read, answer, authorize,
  commit_reply, credential_from_request, cut_version, gate, hash_from_version, hash_reply, info,
  latest, list_versions, malformed, mod_file, no_query, not_served, or_latest, parse_module_path,
  parse_query, parsed, resolve_commit, route, scoped_read, serve, serve_http, status,
  with_credential, zip,
}
use hades.Text.{cut, trim_prefix}
use hades.GoProxy.Spelling.{AsksFor, or_latest-Names, trim_prefix-mount}
use hades.Constants.{action_read, resource_module}

reply_of_commit :
    (d : ModuleCommit) (m : Module) (c : ModuleCommit)
    → commit_reply (ok d) m ≡ serve c
    → (d ≡ c) × (c.module_id ≡ m.id)
unfolding commit_reply
reply_of_commit d m c h = elim (Bool-cases (d.module_id == m.id)) [
  | inr e ↦ cc (rw e at h)
  | inl e ↦
      let same : d ≡ c = ground (arith, rw e at h) in
      (
        same,
        sym (ap (λ (x : ModuleCommit). x.module_id) same) ∙ (bytes_beq_iff d.module_id m.id).0 e,
      )
]

reply_of_error : (code : Code) (m : Module) (c : ModuleCommit) → commit_reply (err code) m ≢ serve c
unfolding commit_reply
reply_of_error code m c h = ground (arith, h)

-- A commit is served only for the module that the caller was authorised for, and it is the one
-- that the version's hash names.
pub resolve_commit-pinned :
    (deps : Deps) (m : Module) (ver : Bytes) (c : ModuleCommit)
    → resolve_commit deps m ver ≡ serve c
    → (c.module_id ≡ m.id)
      × ((hash : Bytes) × (hash_from_version ver ≡ some hash) × (deps.commit_by_hash hash ≡ ok c))
unfolding resolve_commit hash_reply commit_reply
resolve_commit-pinned deps m ver c h = elim (Option-cases (hash_from_version ver)) [
  | inl e ↦ cc (rw e at h)
  | inr (hash, e) ↦ elim (Result-cases (deps.commit_by_hash hash)) [
    | inr (code, f) ↦ absurd (reply_of_error code m c (rw f at (rw e at h)))
    | inl (d, f) ↦
        let (same, pinned) = reply_of_commit d m c (rw f at (rw e at h)) in
        (pinned, (hash, e, f ∙ ap ok same))
  ]
]

-- Whoever may read nothing of a private module gets the reply for a module that does not exist: the
-- status for the module is the status with the module taken out of the table, for an anonymous
-- caller and for a credential without a restriction of its scopes.
pub unreadable_hidden :
    (deps : Deps) (r : Request) (owner name : Bytes) (m : Module) (code : Code)
    → deps.module_by_name owner name ≡ some m
    → ((user : Option Bytes) → deps.check_read user (m ∷ []) ≡ err code)
    → ((token user : Bytes) (scopes : Scopes)
        → deps.user_from_token token ≡ ok (user, scopes)
        → scopes.unrestricted ≡ true)
    → authorize deps r owner name
      ≡ authorize (record deps { module_by_name = λ o n. none }) r owner name
unfolding authorize with_credential scoped_read allowed_read scopes_allow
unreadable_hidden deps r owner name m code found_it refused free =
    elim (Bool-cases deps.configured) [
      | inr e ↦ rw e refl
      | inl e ↦ elim (Bool-cases (credential_from_request r == [])) [
        | inl x ↦ rw (e, x, found_it, refused none) refl
        | inr x ↦ elim (Result-cases (deps.user_from_token (credential_from_request r))) [
          | inr (c, f) ↦ rw (e, x, f) refl
          | inl ((user, scopes), f) ↦
              let open_scopes = free (credential_from_request r) user scopes f in
              rw (e, x, f, found_it, open_scopes, refused (some user)) refl
        ]
      ]
    ]

served_pair :
    (m m' : Module) (q q' : Query)
    → ◌≡◌ {A = Reply (Module × Query)} (serve (m, q)) (serve (m', q'))
    → (q ≡ q') × (serve m ≡ serve m')
served_pair m m' q q' h = (ground (arith, h), ground (arith, h))

answer-serve :
    (q q' : Query) (r : Reply Module) (m : Module)
    → answer q r ≡ serve (m, q')
    → (q ≡ q') × (r ≡ serve m)
unfolding answer
answer-serve q q' (status n) m h = cc
answer-serve no_query q' (serve m') m h = cc
answer-serve list_versions q' (serve m') m h = served_pair m' m list_versions q' h
answer-serve latest q' (serve m') m h = served_pair m' m latest q' h
answer-serve (info v) q' (serve m') m h = served_pair m' m (info v) q' h
answer-serve (mod_file v) q' (serve m') m h = served_pair m' m (mod_file v) q' h
answer-serve (zip v) q' (serve m') m h = served_pair m' m (zip v) q' h

gate-authorised :
    (deps : Deps) (r : Request) (q q' : Query) (o : PathResult) (m : Module)
    → gate deps r q o ≡ serve (m, q')
    → (owner name : Bytes) × (o ≡ parsed owner name)
      × (q ≡ q')
      × (authorize deps r owner name ≡ serve m)
unfolding gate
gate-authorised deps r q q' (parsed owner name) m h =
    let (same, allowed) = answer-serve q q' (authorize deps r owner name) m h in
    (owner, name, refl, same, allowed)
gate-authorised deps r q q' not_served m h = cc
gate-authorised deps r q q' malformed m h = cc

route-authorised :
    (deps : Deps) (r : Request) (o : Option (Bytes × Bytes)) (m : Module) (q : Query)
    → route deps r o ≡ serve (m, q)
    → (path rest owner name : Bytes) × (o ≡ some (path, rest))
      × (parse_query rest ≡ q)
      × (parse_module_path deps.registry_host path ≡ parsed owner name)
      × (authorize deps r owner name ≡ serve m)
unfolding route
route-authorised deps r none m q h = cc
route-authorised deps r (some (path, rest)) m q h =
    let (owner, name, spelled, asked, allowed) =
      gate-authorised deps r (parse_query rest) q (parse_module_path deps.registry_host path) m h in
    (path, rest, owner, name, refl, asked, spelled, allowed)

unless_refused :
    (b : Bool) (reply : Reply (Module × Query)) (a : Module × Query)
    → (if not b then status 405 else reply) ≡ serve a
    → (b ≡ true) × (reply ≡ serve a)
unless_refused true reply a h = (refl, h)
unless_refused false reply a h = cc

-- Whatever is served was asked for by a GET or HEAD, and the URL's path names it: after the mount
-- prefix "/go/" (or without it) come a module path and, from the first "/@v/" on, the query that is
-- served, or, where no "/@v/" is, a module path and "/@latest". This module path spells an owner
-- and a name, and `authorize` gave the module that is served for them.
pub serve_http-authorised :
    (deps : Deps) (r : Request) (m : Module) (q : Query)
    → serve_http deps r ≡ serve (m, q)
    → (r.is_read ≡ true)
      × ((path owner name : Bytes) × AsksFor r.path path q
          × (parse_module_path deps.registry_host path ≡ parsed owner name)
          × (authorize deps r owner name ≡ serve m))
unfolding serve_http
serve_http-authorised deps r m q h =
    let stripped = trim_prefix r.path (codes "/go/") in
    let o = or_latest stripped (cut_version stripped) in
    let (read, routed) = unless_refused r.is_read (route deps r o) (m, q) h in
    let (path, rest, owner, name, cut, asked, spelled, allowed) =
      route-authorised deps r o m q routed in
    let named = or_latest-Names stripped path rest cut in
    (
      read,
      (
        path,
        owner,
        name,
        (stripped, trim_prefix-mount r.path, rw asked at named),
        spelled,
        allowed,
      ),
    )

-- A credential whose scopes do not cover the module, private or not, gets the status 403 if the
-- module exists and 404 if it does not.
pub scoped_refusal_reveals :
    (deps : Deps) (r : Request) (owner name user : Bytes) (scopes : Scopes) (m : Module)
    → deps.configured ≡ true
    → (credential_from_request r == []) ≡ false
    → deps.user_from_token (credential_from_request r) ≡ ok (user, scopes)
    → deps.module_by_name owner name ≡ some m
    → scopes_allow scopes resource_module action_read m.name ≡ false
    → (authorize deps r owner name ≡ status 403)
      × (authorize (record deps { module_by_name = λ o n. none }) r owner name ≡ status 404)
unfolding authorize with_credential scoped_read
scoped_refusal_reveals deps r owner name user scopes m c n u f s =
    (rw (c, n, u, f, s) refl, rw (c, n, u) refl)
