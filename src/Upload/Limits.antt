-- ===== src/Upload/Limits.antt =====
-- internal/hades/server/content/upload.go: `checkUploadLimits`, and the rules of the checks. A
-- limit that is not set, or negative, is 0.
use hades.Prelude.{
  Bool, Bool-cases, List, [], arith, false, if◌then◌else◌, inl, inr, length, ltb, refl, suc, true,
  zero, ℕ, ◌+◌, ◌↔◌, ◌∷◌, ◌≡◌, ◌≤◌,
}
use hades.Result.{Result, err, err_not_ok, ok, resource_exhausted}
use hades.Paths.{File}

abbrev pub default_max_upload_files : ℕ
default_max_upload_files = 10000

-- 256 MiB
abbrev pub default_max_upload_bytes : ℕ
default_max_upload_bytes = 268435456

abbrev pub limit_or : ℕ → ℕ → ℕ
limit_or zero d = d
limit_or (suc n) d = suc n

-- The loop that adds up the sizes, up to the limit.
unfoldable pub within_bytes : ℕ → ℕ → List File → Bool
within_bytes max_bytes total [] = true
within_bytes max_bytes total (f ∷ files) =
    let rest = within_bytes max_bytes (total + length f.content) files in
    if ltb max_bytes (total + length f.content) then false else rest

-- checkUploadLimits, for the limits of the configuration
unfoldable pub check_upload_limits : ℕ → ℕ → List File → Result (Unit {0})
check_upload_limits max_files max_bytes files =
    if ltb (limit_or max_files default_max_upload_files) (length files)
    then err resource_exhausted
    else if within_bytes (limit_or max_bytes default_max_upload_bytes) 0 files
    then ok tt
    else err resource_exhausted

-- The size of an upload.
abbrev pub total_bytes : List File → ℕ
total_bytes [] = 0
total_bytes (f ∷ files) = length f.content + total_bytes files

within_bytes_lem :
    (max_bytes total : ℕ) (files : List File)
    → (total ≤ max_bytes)
    → (within_bytes max_bytes total files ≡ true) ↔ (total + total_bytes files ≤ max_bytes)
unfolding within_bytes
within_bytes_lem max_bytes total [] h = ((λ e. omega (arith, h)), (λ e. refl))
within_bytes_lem max_bytes total (f ∷ files) h =
    elim (Bool-cases (ltb max_bytes (total + length f.content))) [
      | inl e ↦ rw e ((λ x. ground (arith, x)), (λ x. ground (arith, e, x)))
      | inr e ↦
          let fits : total + length f.content ≤ max_bytes = ground (arith, e) in
          let (to, from) = within_bytes_lem max_bytes (total + length f.content) files fits in
          rw e ((λ x. omega (arith, to x)), (λ x. from (omega (arith, x))))
    ]

-- The limits let an upload pass exactly when it has no more files than the limit on files and no
-- more bytes in all than the limit on bytes, the defaults standing for limits that are not set.
pub check_upload_limits_iff :
    (max_files max_bytes : ℕ) (files : List File)
    → (check_upload_limits max_files max_bytes files ≡ ok tt) ↔ (
        (length files ≤ limit_or max_files default_max_upload_files)
        × (total_bytes files ≤ limit_or max_bytes default_max_upload_bytes))
unfolding check_upload_limits
check_upload_limits_iff max_files max_bytes files =
    let (to, from) =
      within_bytes_lem (limit_or max_bytes default_max_upload_bytes) 0 files (omega arith) in
    elim (Bool-cases (ltb (limit_or max_files default_max_upload_files) (length files))) [
      | inl e ↦ rw e ((λ x. err_not_ok _ _ x), (λ (h, k). ground (arith, e, h)))
      | inr e ↦
          elim (Bool-cases (within_bytes (limit_or max_bytes default_max_upload_bytes) 0 files)) [
            | inl f ↦ rw (e, f) ((λ x. (ground (arith, e), omega (arith, to f))), (λ x. refl))
            | inr f ↦
                rw (e, f)
                  ((λ x. err_not_ok _ _ x), (λ (h, k). ground (arith, f, from (omega (arith, k)))))
          ]
    ]
