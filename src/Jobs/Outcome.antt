-- ===== src/Jobs/Outcome.antt =====
-- internal/sdk/worker/worker.go: which jobs `process` takes for done.
use hades.Prelude.{
  Bool-cases, Bytes, Option, [], bytes_beq, false, inl, inr, none, refl, some, true, ◌==◌, ◌≡◌,
  nat_eq, bytes_eq, string_eq,
}
use hades.Jobs.Table.{SdkJob}
use hades.Jobs.Worker.{
  Attempt, Commit, Ending, Tools, broke, check_sources, done, ends_broken, ends_uploaded,
  fetch_sources, generate, key_of, named_commit, upload_output, uploaded, work,
}

-- The message of a failure is not empty, so that it is not taken for a success.
abbrev pub IsSaid : Ending → Type 0
IsSaid (ends_broken message) = (message == []) ≡ false
IsSaid (ends_uploaded loc) = Unit

module _ (tools : Tools) (job : SdkJob) where
  abbrev Uploads : Commit → Bytes → Attempt Bytes → Type 0
  Uploads c loc output =
      (out : Bytes) × (output ≡ done out) × (tools.upload (key_of tools job c) out ≡ done loc)

  abbrev Generates : Commit → Bytes → Bytes → Type 0
  Generates c dir loc =
      (gen : Bytes → Bytes → Attempt Bytes) × (tools.generator job.plugin ≡ some gen)
      × Uploads c loc (gen dir job.plugin_options)

  abbrev Fetches : Commit → Bytes → Type 0
  Fetches c loc =
      (dir : Bytes) × (tools.make_dir ≡ done dir)
      × (tools.stream_blobs c.module_name c.commit_hash dir ≡ done tt)
      × (tools.has_proto dir ≡ true)
      × Generates c dir loc

  -- Every step of the work went well: the commit was found, its files were fetched and have a .proto
  -- file among them, the plugin's generator made the output, and this was uploaded to the location.
  abbrev pub AllWent : Bytes → Type 0
  AllWent loc =
      (c : Commit) × (tools.get_commit job.commit_id ≡ done c) × Fetches (named_commit c) loc

  -- A job ends uploaded exactly if every step went well.
  abbrev pub IsOutcome : Ending → Type 0
  IsOutcome (ends_uploaded loc) = AllWent loc
  IsOutcome (ends_broken message) = ¬ ((loc : Bytes) × AllWent loc)

  uploaded-done :
      (a : Attempt Bytes) (loc : Bytes) → uploaded tools job a ≡ ends_uploaded loc → a ≡ done loc
  uploaded-done (broke e) loc h = cc
  uploaded-done (done l) loc h = cc

  upload_output-Uploads :
      (c : Commit) (a : Attempt Bytes) (loc : Bytes)
      → upload_output tools job c a ≡ ends_uploaded loc
      → Uploads c loc a
  upload_output-Uploads c (broke e) loc h = cc
  upload_output-Uploads c (done out) loc h = (out, refl, uploaded-done _ loc h)

  generate-Generates :
      (c : Commit) (dir : Bytes) (g : Option (Bytes → Bytes → Attempt Bytes)) (loc : Bytes)
      → generate tools job c dir g ≡ ends_uploaded loc
      → (gen : Bytes → Bytes → Attempt Bytes) × (g ≡ some gen)
        × Uploads c loc (gen dir job.plugin_options)
  generate-Generates c dir none loc h = cc
  generate-Generates c dir (some gen) loc h = (gen, refl, upload_output-Uploads c _ loc h)

  check_sources-Generates :
      (c : Commit) (dir : Bytes) (a : Attempt (Unit {0})) (loc : Bytes)
      → check_sources tools job c dir a ≡ ends_uploaded loc
      → (a ≡ done tt) × (tools.has_proto dir ≡ true) × Generates c dir loc
  check_sources-Generates c dir (broke e) loc h = cc
  check_sources-Generates c dir (done u) loc h = elim (Bool-cases (tools.has_proto dir)) [
    | inl e ↦ (refl, e, generate-Generates c dir _ loc (rw e at h))
    | inr e ↦ cc (rw e at h)
  ]

  fetch_sources-Fetches :
      (c : Commit) (a : Attempt Bytes) (loc : Bytes)
      → fetch_sources tools job c a ≡ ends_uploaded loc
      → (dir : Bytes) × (a ≡ done dir)
        × (tools.stream_blobs c.module_name c.commit_hash dir ≡ done tt)
        × (tools.has_proto dir ≡ true)
        × Generates c dir loc
  fetch_sources-Fetches c (broke e) loc h = cc
  fetch_sources-Fetches c (done dir) loc h =
      let (streamed, has, made) = check_sources-Generates c dir _ loc h in
      (dir, refl, streamed, has, made)

  work-AllWent :
      (a : Attempt Commit) (loc : Bytes)
      → (work tools job a).1 ≡ ends_uploaded loc
      → (c : Commit) × (a ≡ done c) × Fetches (named_commit c) loc
  unfolding work
  work-AllWent (broke e) loc h = cc
  work-AllWent (done c) loc h = (c, refl, fetch_sources-Fetches (named_commit c) _ loc h)

  AllWent-work :
      (loc : Bytes)
      → AllWent loc
      → (work tools job (tools.get_commit job.commit_id)).1 ≡ ends_uploaded loc
  unfolding work
  AllWent-work loc (c, found, (dir, made, streamed, has, (gen, registered, (out, ran, stored)))) =
      rw (found, made, streamed, has, registered, ran, stored) refl

  outcome :
      (ending : Ending)
      → (work tools job (tools.get_commit job.commit_id)).1 ≡ ending
      → IsOutcome ending
  outcome (ends_uploaded loc) h = work-AllWent _ loc h
  outcome (ends_broken message) h = λ (loc, went). cc (h, AllWent-work loc went)

  pub work-IsOutcome : IsOutcome ((work tools job (tools.get_commit job.commit_id)).1)
  work-IsOutcome = outcome _ refl

  uploaded-IsSaid : (a : Attempt Bytes) → IsSaid (uploaded tools job a)
  unfolding bytes_beq
  uploaded-IsSaid (broke e) = refl
  uploaded-IsSaid (done l) = tt

  upload_output-IsSaid : (c : Commit) (a : Attempt Bytes) → IsSaid (upload_output tools job c a)
  unfolding bytes_beq
  upload_output-IsSaid c (broke e) = refl
  upload_output-IsSaid c (done out) = uploaded-IsSaid _

  generate-IsSaid :
      (c : Commit) (dir : Bytes) (g : Option (Bytes → Bytes → Attempt Bytes))
      → IsSaid (generate tools job c dir g)
  unfolding bytes_beq
  generate-IsSaid c dir none = refl
  generate-IsSaid c dir (some gen) = upload_output-IsSaid c _

  check_sources-IsSaid :
      (c : Commit) (dir : Bytes) (a : Attempt (Unit {0})) → IsSaid (check_sources tools job c dir a)
  unfolding bytes_beq
  check_sources-IsSaid c dir (broke e) = refl
  check_sources-IsSaid c dir (done u) = elim (Bool-cases (tools.has_proto dir)) [
    | inl e ↦ rw e (generate-IsSaid c dir (tools.generator job.plugin))
    | inr e ↦ rw e refl
  ]

  fetch_sources-IsSaid : (c : Commit) (a : Attempt Bytes) → IsSaid (fetch_sources tools job c a)
  unfolding bytes_beq
  fetch_sources-IsSaid c (broke e) = refl
  fetch_sources-IsSaid c (done dir) = check_sources-IsSaid c dir _

  pub work-IsSaid : (a : Attempt Commit) → IsSaid ((work tools job a).1)
  unfolding work bytes_beq
  work-IsSaid (broke e) = refl
  work-IsSaid (done c) = fetch_sources-IsSaid (named_commit c) _
