-- ===== src/Upload/Notify.antt =====
-- internal/hades/server/content/upload.go: `notifyCommitPushed`.
use hades.Effects.{Action, Reply, ask, failed, replied, return, writes, ◌>>=◌}
use hades.Prelude.{
  Bytes, List, Option, [], contains, if◌then◌else◌, map, none, some, ◌==◌, ◌||◌, ◌∷◌, nat_eq,
  bytes_eq, string_eq,
}
use hades.Text.{is_empty}
use hades.Interceptor.Stores.{User}
use hades.Upload.Registry.{CommitRow, Notice, Registry, UploadModule, add_notices, on_tables}
use hades.Upload.Request.{UploadEnv}

-- The members of the owner, if it is an organisation that has any, and else the owner.
abbrev pub or_owner : Bytes → List Bytes → List Bytes
or_owner owner_id [] = owner_id ∷ []
or_owner owner_id (m ∷ ms) = m ∷ ms

abbrev pub listed : Bytes → Option (Reply (List Bytes)) → List Bytes
listed owner_id none = owner_id ∷ []
listed owner_id (some (failed e)) = owner_id ∷ []
listed owner_id (some (replied members)) = or_owner owner_id members

abbrev pub asked : Option (Bytes → Reply (List Bytes)) → Bytes → Option (Reply (List Bytes))
asked none owner_id = none
asked (some members) owner_id = some (members owner_id)

abbrev pub recipients : UploadEnv → UploadModule → List Bytes
recipients env m = listed m.owner_id (asked env.members m.owner_id)

-- The loop over the recipients, with the set `seen`.
unfoldable pub pick_targets : Bytes → List Bytes → List Bytes → List Bytes
pick_targets pusher seen [] = []
pick_targets pusher seen (u ∷ us) =
    let skipped = pick_targets pusher seen us in
    let taken = u ∷ pick_targets pusher (u ∷ seen) us in
    if is_empty u || u == pusher then skipped else if contains seen u then skipped else taken

-- The users who are told of a push to the module.
unfoldable pub targets : UploadEnv → UploadModule → Bytes → List Bytes
targets env m pusher = pick_targets pusher [] (recipients env m)

abbrev pub notice : Bytes → Bytes → Notice
notice commit_id user_id = record { user_id = user_id; resource_id = commit_id }

abbrev pub send : Bytes → List Bytes → Action Registry (Unit {0})
send commit_id [] = return tt
send commit_id (u ∷ us) = do
  reply ← ask (writes (on_tables (add_notices (map (notice commit_id) (u ∷ us)))))
  return tt

-- notifyCommitPushed, whose failures are dropped
unfoldable pub notify_commit_pushed :
    UploadEnv → UploadModule → CommitRow → User → Action Registry (Unit {0})
notify_commit_pushed env m c pusher =
    if env.notifies then send c.id (targets env m pusher.id) else return tt
