-- ===== src/Options.antt =====
-- objstore.go: the option structures of Iter, DownloadDir and UploadDir.
use objstore.Prelude.{Bool, true, false, List, [], ◌∷◌}
use objstore.Prelude.Int.{ℤ, pos}
use objstore.Text.{Str}

pub record IterParams : Type 0 where
  pub recursive : Bool

abbrev pub IterOption : Type 0
IterOption = IterParams → IterParams

unfoldable pub with_recursive_iter : IterOption
with_recursive_iter params = record params { recursive = true }

-- the loop over the options, from the value that it starts with
abbrev apply_all : {P : Type 0} → List (P → P) → P → P
apply_all [] out = out
apply_all (opt ∷ options) out = apply_all options (opt out)

unfoldable pub apply_iter_options : List IterOption → IterParams
apply_iter_options options = apply_all options (record { recursive = false })

pub record DownloadParams : Type 0 where
  pub concurrency : ℤ
  pub ignored_paths : List Str

abbrev pub DownloadOption : Type 0
DownloadOption = DownloadParams → DownloadParams

unfoldable pub with_download_ignored_paths : List Str → DownloadOption
with_download_ignored_paths ignored params = record params { ignored_paths = ignored }

unfoldable pub with_fetch_concurrency : ℤ → DownloadOption
with_fetch_concurrency n params = record params { concurrency = n }

unfoldable pub apply_download_options : List DownloadOption → DownloadParams
apply_download_options options =
    apply_all options (record { concurrency = pos 1; ignored_paths = [] })

pub record UploadParams : Type 0 where
  pub concurrency : ℤ

abbrev pub UploadOption : Type 0
UploadOption = UploadParams → UploadParams

unfoldable pub with_upload_concurrency : ℤ → UploadOption
with_upload_concurrency n params = record params { concurrency = n }

unfoldable pub apply_upload_options : List UploadOption → UploadParams
apply_upload_options options = apply_all options (record { concurrency = pos 1 })
