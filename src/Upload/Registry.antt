-- ===== src/Upload/Registry.antt =====
-- The state that an upload reads and writes: the tables modules, commits, ci_runs and sdk_jobs,
-- the branch heads of the repositories, and the notifications. A git repository is its branch's
-- head; its objects and the hashing of git are parameters of the handler.
use hades.Effects.{Statement, failed, replied, unique_violation}
use hades.Prelude.{
  Bool, Bytes, List, Option, [], any, if◌then◌else◌, none, some, ◌&&◌, ◌++◌, ◌==◌, ◌||◌, ◌∷◌,
  nat_eq, bytes_eq, string_eq,
}
use hades.Maps.{Assoc, insert, lookup}
use hades.Text.{is_empty}

-- registryv1.LintPreset
pub data LintPreset : Type 0 where
  preset_unspecified preset_basic preset_minimal preset_comments : LintPreset

-- registryv1.Module; `name` is "owner/module", which is also the path of the repository
pub record UploadModule : Type 0 where
  pub id : Bytes
  pub name : Bytes
  pub owner_id : Bytes
  pub default_branch : Bytes
  pub lint_preset : LintPreset
  pub breaking_enabled : Bool

-- A row of commits, which is also the registryv1.Commit made of it.
pub record CommitRow : Type 0 where
  pub id : Bytes
  pub commit_hash : Bytes
  pub owner_id : Bytes
  pub module_id : Bytes
  pub digest : Bytes

-- cirun.CreateParams; lint_passed is always true
pub record CiRun : Type 0 where
  pub module_id : Bytes
  pub commit_hash : Bytes
  pub breaking_passed : Bool
  pub breaking_ran : Bool

-- The jobs that CreateBatch inserts for one commit.
pub record JobBatch : Type 0 where
  pub commit_id : Bytes
  pub module_id : Bytes

pub record Notice : Type 0 where
  pub user_id : Bytes
  pub resource_id : Bytes

-- The tables, which a transaction restores.
pub record Tables : Type 0 where
  pub modules : List UploadModule
  pub commits : List CommitRow
  pub ci_runs : List CiRun
  pub jobs : List JobBatch
  pub notices : List Notice

pub record Registry : Type 0 where
  pub tables : Tables
  pub heads : Assoc Bytes

-- What a transaction undoes: the tables, and not the repositories.
abbrev pub undo_tables : Registry → Registry → Registry
undo_tables before after = record after { tables = before.tables }

unfoldable pub find_module : Bytes → List UploadModule → Option UploadModule
find_module name [] = none
find_module name (m ∷ ms) =
    let rest = find_module name ms in if m.name == name then some m else rest

-- GetCommitByOwnerModule, the row of the module that was inserted last
unfoldable pub latest_commit : Bytes → List CommitRow → Option CommitRow
latest_commit module_id [] = none
latest_commit module_id (c ∷ cs) = elim (latest_commit module_id cs) [
  | some later ↦ some later
  | none ↦ if c.module_id == module_id then some c else none
]

unfoldable pub commit_by_id : Bytes → List CommitRow → Option CommitRow
commit_by_id id [] = none
commit_by_id id (c ∷ cs) = let rest = commit_by_id id cs in if c.id == id then some c else rest

abbrev pub has_digest : Bytes → Bytes → CommitRow → Bool
has_digest module_id digest c = c.module_id == module_id && c.digest == digest

-- GetCommitByDigest
unfoldable pub commit_by_digest : Bytes → Bytes → List CommitRow → Option CommitRow
commit_by_digest module_id digest [] = none
commit_by_digest module_id digest (c ∷ cs) =
    let rest = commit_by_digest module_id digest cs in
    if has_digest module_id digest c then some c else rest

abbrev pub on_tables : (Tables → Tables) → Registry → Registry
on_tables f r = record r { tables = f r.tables }

abbrev pub add_commit : CommitRow → Tables → Tables
add_commit c t = record t { commits = t.commits ++ c ∷ [] }

-- commitDB.Create, where a module has one commit for a digest
unfoldable pub create_commit : CommitRow → Statement Registry (Unit {0})
create_commit c r =
    if any (has_digest c.module_id c.digest) r.tables.commits
    then (failed unique_violation, r)
    else (replied tt, on_tables (add_commit c) r)

abbrev pub add_run : CiRun → Tables → Tables
add_run run t = record t { ci_runs = t.ci_runs ++ run ∷ [] }

abbrev pub add_jobs : JobBatch → Tables → Tables
add_jobs batch t = record t { jobs = t.jobs ++ batch ∷ [] }

abbrev pub add_notices : List Notice → Tables → Tables
add_notices notices t = record t { notices = t.notices ++ notices }

-- PutFiles with its compare-and-swap; `none` for ErrRefMoved
abbrev pub head_of : Bytes → Registry → Bytes
head_of repo r = elim (lookup repo r.heads) [ none ↦ [] | some head ↦ head ]

abbrev pub move_head : Bytes → Bytes → Registry → Registry
move_head repo hash r = record r { heads = insert repo hash r.heads }

unfoldable pub put_files : Bytes → Bytes → Bytes → Registry → Option Bytes × Registry
put_files repo expected hash r =
    if head_of repo r == expected then (some hash, move_head repo hash r) else (none, r)

-- RollbackCommit, which leaves the first commit of a branch and a branch that has moved on
unfoldable pub rollback_commit : Bytes → Bytes → Bytes → Registry → Registry
rollback_commit repo current previous r =
    if is_empty previous
    then r
    else if is_empty current || head_of repo r == current
    then move_head repo previous r
    else r
