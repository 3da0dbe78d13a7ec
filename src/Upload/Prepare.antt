-- ===== src/Upload/Prepare.antt =====
-- internal/hades/server/content/upload.go: the part of `Upload` before its first write.
use hades.Effects.{
  Action, Reply, ask, call, consult, failed, found_or_none, from_db, no_rows, reads, replied,
  return, ◌>>=◌,
}
use hades.Result.{Result, err, internal, ok, permission_denied}
use hades.Prelude.{
  Bool, Bytes, List, Option, [], codes, if◌then◌else◌, keep, map, none, not, some, ◌==◌, ◌∷◌,
  nat_eq, bytes_eq, string_eq,
}
use hades.Maps.{Assoc, insert}
use hades.Text.{is_empty}
use hades.Paths.{File, get_path}
use hades.Constants.{CanResponse, Policy}
use hades.Interceptor.Stores.{User}
use hades.Upload.Limits.{check_upload_limits}
use hades.Upload.Registry.{
  CommitRow, Registry, UploadModule, commit_by_digest, commit_by_id, find_module, head_of,
  latest_commit,
}
use hades.Upload.Checks.{CiResult, checks_of}
use hades.Upload.Request.{ModuleRef, UploadContent, UploadEnv, WorkItem, full_name, push_policy}

unfoldable pub module_by_id : Bytes → List UploadModule → Option UploadModule
module_by_id id [] = none
module_by_id id (m ∷ ms) = let rest = module_by_id id ms in if m.id == id then some m else rest

-- GetModulesByRefs of one reference: by its identifier, if it has one, and else by name
unfoldable pub get_module_by_ref : ModuleRef → Registry → Reply UploadModule
get_module_by_ref ref r =
    if is_empty ref.id
    then found_or_none (find_module (full_name ref) r.tables.modules)
    else found_or_none (module_by_id ref.id r.tables.modules)

-- The latest commit of the reference, which by an identifier is looked up among the commits
unfoldable pub get_commit_by_ref : ModuleRef → UploadModule → Registry → Option CommitRow
get_commit_by_ref ref m r =
    if is_empty ref.id
    then latest_commit m.id r.tables.commits
    else commit_by_id ref.id r.tables.commits

abbrev expected_of : Reply Bytes → Result Bytes
expected_of (replied head) = ok head
expected_of (failed no_rows) = ok []
expected_of (failed e) = err internal

-- The head of the branch, which a push is to replace; a repository without commits has none.
unfoldable pub read_head : UploadModule → Action Registry Bytes
read_head m = do
  reply ← ask (reads (λ r. replied (head_of m.name r)))
  consult (λ r. expected_of reply)

abbrev is_buf_yaml : File → Bool
is_buf_yaml f = f.path == codes "buf.yaml"

-- The user's buf.yaml goes: the registry's settings stand in its place.
abbrev pub without_buf_yaml : List File → List File
without_buf_yaml files = keep (λ f. not (is_buf_yaml f)) files

-- The map by path, in which a later file of a path takes the place of an earlier one.
unfoldable pub by_path : Assoc File → List File → Assoc File
by_path files [] = files
by_path files (f ∷ fs) = by_path (insert f.path f files) fs

abbrev pub values {ℓ} : {A : Type ℓ} → Assoc A → List A
values m = map (λ e. e.1) m

-- The files of the commit before, none for the first commit.
unfoldable pub previous_files :
    UploadEnv → UploadModule → Option CommitRow → Action Registry (List File)
previous_files env m none = return []
previous_files env m (some c) = do
  blobs ← call (λ e. internal) (reads (λ r. env.blobs m.name c.commit_hash))
  return (without_buf_yaml blobs)

abbrev pub uploaded_files : Option CommitRow → List File → List File
uploaded_files none files = get_path (without_buf_yaml files)
uploaded_files (some c) files = get_path (values (by_path [] (without_buf_yaml files)))

abbrev pub previous_head_of : Option CommitRow → Bytes
previous_head_of none = []
previous_head_of (some c) = c.commit_hash

abbrev pub digested : Option Bytes → Result Bytes
digested none = err internal
digested (some d) = ok d

-- A commit that is there already, or the work for a new one.
pub data Prepared : Type 0 where
  known : CommitRow → Prepared
  work : WorkItem → Prepared

abbrev make_work :
    UploadModule → List File → List File → Bytes → Bytes → Bytes → CiResult → Prepared
make_work m files previous digest previous_head expected_head checks = work (record {
  target = m;
  files = files;
  list_files = map (λ (f : File). f.path) previous;
  digest = digest;
  previous_head = previous_head;
  expected_head = expected_head;
  checks = checks;
})

unfoldable pub checked_work :
    UploadEnv
    → UploadModule
    → List File
    → List File
    → Bytes
    → Bytes
    → Bytes
    → Option CommitRow
    → Action Registry Prepared
checked_work env m files previous digest previous_head expected_head (some c) = return (known c)
checked_work env m files previous digest previous_head expected_head none = do
  checks ← consult (λ r. checks_of env.tools m files previous)
  return (make_work m files previous digest previous_head expected_head checks)

-- One round of the loop over the contents.
unfoldable pub prepare : UploadEnv → UploadContent → Action Registry Prepared
prepare env c = do
  m ← call from_db (reads (get_module_by_ref c.module_ref))
  latest ← call from_db (reads (λ r. replied (get_commit_by_ref c.module_ref m r)))
  expected_head ← read_head m
  previous ← previous_files env m latest
  let files = uploaded_files latest c.files
  limited ← consult (λ r. check_upload_limits env.max_files env.max_bytes files)
  digest ← consult (λ r. digested (env.digest files))
  same ← call from_db (reads (λ r. replied (commit_by_digest m.id digest r.tables.commits)))
  checked_work env m files previous digest (previous_head_of latest) expected_head same

unfoldable pub prepare_all : UploadEnv → List UploadContent → Action Registry (List Prepared)
prepare_all env [] = return []
prepare_all env (c ∷ cs) = do p ← prepare env c; ps ← prepare_all env cs; return (p ∷ ps)

abbrev pub allowed_push : List Policy → Result CanResponse → Result (Unit {0})
allowed_push ps (err c) = err c
allowed_push ps (ok answer) = if answer.allowed then ok tt else err permission_denied

-- The question to the authorization server, which no contents leave out.
unfoldable pub authorize_push : UploadEnv → User → List UploadContent → Action Registry (Unit {0})
authorize_push env user [] = return tt
authorize_push env user (c ∷ cs) =
    let policies = map (push_policy user) (c ∷ cs) in
    consult (λ r. allowed_push policies (env.batch_can r policies))
