-- ===== src/Upload/Request.antt =====
-- internal/hades/server/content/upload.go: what `Upload` is asked and wired with. The answer
-- of the authorization server, the digest, the blobs of a commit and the tools are parameters; so
-- is the length of a configured limit, 0 for none.
use hades.Result.{Result, err, invalid_argument, ok, ◌>>=◌}
use hades.Effects.{Reply}
use hades.Prelude.{Bool, Bytes, List, Option, [], none, some, ℕ, ◌++◌, ◌∷◌}
use hades.Paths.{File, PathError, validate}
use hades.Constants.{CanResponse, Policy, action_push, resource_module}
use hades.Interceptor.Stores.{User}
use hades.Upload.Limits.{check_upload_limits}
use hades.Upload.Registry.{Registry, UploadModule}
use hades.Upload.Checks.{CiResult, Tools}

-- registryv1.ModuleRef and registryv1.UploadRequestContent
pub record ModuleRef : Type 0 where
  pub id : Bytes
  pub owner : Bytes
  pub name : Bytes

pub record UploadContent : Type 0 where
  pub module_ref : ModuleRef
  pub files : List File

-- What the handler is wired with. `new_id` gives the identifier of the n-th commit of a request,
-- `commit_hash` is git's hash of the commit with these files on this head.
pub record UploadEnv : Type 0 where
  pub batch_can : Registry → List Policy → Result CanResponse
  pub max_files : ℕ
  pub max_bytes : ℕ
  pub digest : List File → Option Bytes
  pub blobs : Bytes → Bytes → Reply (List File)
  pub tools : Tools
  pub commit_hash : UploadModule → List File → List Bytes → Bytes → Bytes
  pub new_id : ℕ → Bytes
  pub records_runs : Bool
  pub builds_sdks : Bool
  pub members : Option (Bytes → Reply (List Bytes))
  pub notifies : Bool

-- uploadWorkItem
pub record WorkItem : Type 0 where
  pub target : UploadModule
  pub files : List File
  pub list_files : List Bytes
  pub digest : Bytes
  pub previous_head : Bytes
  pub expected_head : Bytes
  pub checks : CiResult

abbrev pub full_name : ModuleRef → Bytes
full_name ref = ref.owner ++ b'/' ∷ ref.name

abbrev pub push_policy : User → UploadContent → Policy
push_policy user c = record {
  subject = user.username;
  domain = full_name c.module_ref;
  resource_type = resource_module;
  action = action_push;
  visibility = [];
}

abbrev valid_or_refused : Option PathError → Result (Unit {0})
valid_or_refused none = ok tt
valid_or_refused (some e) = err invalid_argument

-- The loop over the paths and the sizes.
unfoldable pub check_contents : UploadEnv → List UploadContent → Result (Unit {0})
check_contents env [] = ok tt
check_contents env (c ∷ cs) =
    let rest = check_contents env cs in
    valid_or_refused (validate c.files)
    >>= (λ u. check_upload_limits env.max_files env.max_bytes c.files)
    >>= (λ u. rest)
