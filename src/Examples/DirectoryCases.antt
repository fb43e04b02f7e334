-- ===== src/Examples/DirectoryCases.antt =====
-- The theorems on directories with a small tree of files and a bucket that keeps uploads.
use objstore.Prelude.{
  ◌≡◌, refl, sym, true, false, Option, none, some, List, [], ◌∷◌, ◌++◌, codes, ap,
}
use mathlib.Core.List.{Memᴰ}
use objstore.Text.{Str}
use objstore.Errors.{Error, foreign}
use objstore.Go.{Ctx, returns, returns_injective}
use objstore.Reader.{Reader, plain, read_all}
use objstore.Bucket.{Bucket, zero_attributes}
use objstore.Options.{apply_upload_options}
use objstore.Files.{file, dir, Entries, no_entries, entry, FilePath, ok, stat}
use objstore.Files.Paths.{join_path}
use objstore.Files.Laws.{at}
use objstore.Filesystem.{Disk}
use objstore.Directory.Upload.{upload_dir, rel_string}
use objstore.Directory.Uploaded.{Keeps, upload_dir-Keeps}
use objstore.Directory.Download.{download_file}
use objstore.Directory.Downloaded.{SaveResult, download_file_lem}

pub record World : Type 0 where
  pub files : Entries
  pub sent : List (Str × Str)

abbrev disk : Disk World
disk = record {
  read = λ w. w.files;
  write = λ es w. record w { files = es };
  read_write = λ es w. refl;
  dir_size = λ es. 4096;
  mod_time = λ p w. 0;
}

-- a reader that fails behind two bytes
abbrev broken : Reader
broken = plain (record { bytes = codes "he"; read_err = some (foreign "reset") })

abbrev bucket : Bucket World Reader
bucket = record {
  iter = λ ctx name f options. f (codes "team/x");
  get = λ ctx name w. returns ((some broken, none), w);
  get_range = λ ctx name off len w. returns ((some broken, none), w);
  has_object = λ ctx name w. returns ((true, none), w);
  is_obj_not_found_err = λ e. false;
  is_customer_managed_key_error = λ e. false;
  attributes = λ ctx name w. returns ((zero_attributes, none), w);
  upload =
      λ ctx name r w. returns (none, record w { sent = w.sent ++ (name, (read_all r).0) ∷ [] });
  delete = λ ctx name w. returns (none, w);
  name = λ w. returns (codes "b", w);
  close = λ w. returns (none, w);
}

abbrev live : Ctx World
live = record { err = λ w. none; value = λ k. none }

abbrev tree : Entries
tree = entry (codes "src") (dir (entry (codes "x") (file (codes "hello")) no_entries)) no_entries

abbrev start : World
start = record { files = tree; sent = [] }

bucket-Keeps : Keeps disk bucket (λ w. w.sent)
bucket-Keeps ctx name r w w' h =
    let e = returns_injective h in (ap (λ x. x.1.sent) (sym e), ap (λ x. x.1.files) (sym e))

abbrev after_upload : World
after_upload = record start { sent = (codes "up/x", codes "hello") ∷ [] }

upload_dir-Keeps_example :
    (es : Entries) × (stat (codes "src" ∷ []) tree ≡ ok (dir es))
    × ((p : FilePath) (body : Str)
        → at ((codes "src" ∷ []) ++ p) tree ≡ some body
        → Memᴰ (join_path (codes "up") (rel_string p), body) after_upload.sent)
unfolding upload_dir read_all apply_upload_options
upload_dir-Keeps_example =
    upload_dir-Keeps disk bucket (λ w. w.sent) (λ ps. ps) live (codes "src" ∷ []) (codes "up") []
      start after_upload bucket-Keeps (λ p ps m. m) refl

download_file_lem_example :
    (es' : Entries) × (err : Option Error) × (download_file disk bucket live
        (codes "team/x")
        (codes "src" ∷ [])
        start
      ≡ returns (err, record start { files = es' }))
    × SaveResult
        (codes "src" ∷ codes "x" ∷ [])
        (read_all broken).0
        (read_all broken).1
        tree
        (es', err)
unfolding download_file
download_file_lem_example =
    download_file_lem disk bucket live (codes "team/x") (codes "src" ∷ [])
      (codes "src" ∷ codes "x" ∷ []) broken start start refl refl
