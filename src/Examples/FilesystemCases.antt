-- ===== src/Examples/FilesystemCases.antt =====
-- The theorems on the filesystem bucket on a small tree of files.
use objstore.Prelude.{◌≡◌, refl, none, some, [], ◌∷◌, codes, Option, ◌⊎◌}
use objstore.Prelude.Int.{pos}
use objstore.Text.{Str}
use objstore.Errors.{Error, foreign}
use objstore.Go.{returns, Ctx}
use objstore.Reader.{Reader, bytes_reader, plain, read_all, try_to_get_size}
use objstore.Files.{file, dir, Entries, no_entries, entry}
use objstore.Files.Paths.{join_abs}
use objstore.Files.Laws.{at, is_under}
use objstore.Filesystem.{Disk, FilesystemBucket, delete, upload, get}
use objstore.Filesystem.Deletes.{Deleted, delete-Deleted, delete_found}
use objstore.Filesystem.Uploads.{Uploaded, UploadResult, upload_every_branch, get-upload}

abbrev disk : Disk Entries
disk = record {
  read = λ w. w;
  write = λ es w. es;
  read_write = λ es w. refl;
  dir_size = λ es. 4096;
  mod_time = λ p w. 0;
}

abbrev bucket : FilesystemBucket
bucket = record { root_dir = codes "data" ∷ [] }

abbrev live : Ctx Entries
live = record { err = λ w. none; value = λ k. none }

-- the object `a/b`, alone in its directory, and a file beside the bucket
abbrev tree : Entries
tree =
    entry (codes "data")
      (dir
        (entry (codes "a") (dir (entry (codes "b") (file (codes "hello")) no_entries)) no_entries))
      (entry (codes "secret") (file (codes "s")) no_entries)

abbrev Deleting : Str → Type 0
Deleting name =
    (w' : Entries) × (err : Option Error) × (delete disk bucket live name tree ≡ returns (err, w'))
    × Deleted bucket.root_dir (join_abs bucket.root_dir name) tree w'

delete-Deleted_example : Deleting (codes "a")
unfolding join_abs is_under
delete-Deleted_example = delete-Deleted disk bucket live (codes "a") tree refl refl

delete_found_example :
    (w' : Entries) × (delete disk bucket live (codes "a/b") tree ≡ returns (none, w'))
    × Deleted bucket.root_dir (join_abs bucket.root_dir (codes "a/b")) tree w'
unfolding join_abs at is_under
delete_found_example =
    delete_found disk bucket live (codes "a/b") tree (codes "hello") refl refl refl

abbrev broken : Reader
broken = plain (record { bytes = codes "he"; read_err = some (foreign "reset") })

upload_every_branch_example :
    (es' : Entries) × (err : Option Error) × (upload disk bucket live (codes "a/c") broken tree
      ≡ returns (err, es'))
    × UploadResult
        (join_abs bucket.root_dir (codes "a/c"))
        (read_all broken).0
        (read_all broken).1
        tree
        (es', err)
    × ((live.err tree ≡ none) ⊎ (es' ≡ tree) × (err ≡ live.err tree))
upload_every_branch_example = upload_every_branch disk bucket live (codes "a/c") broken tree

abbrev uploaded : Entries
uploaded =
    entry (codes "data")
      (dir (entry (codes "a") (dir (entry (codes "b") (file (codes "bye")) no_entries)) no_entries))
      (entry (codes "secret") (file (codes "s")) no_entries)

get-upload_example :
    (reader : Reader) × (get disk bucket live (codes "a/b") uploaded
      ≡ returns ((some reader, none), uploaded))
    × (read_all reader ≡ ((read_all (bytes_reader (codes "bye"))).0, none))
    × (try_to_get_size reader ≡ (pos 3, none))
    × Uploaded (join_abs bucket.root_dir (codes "a/b")) (codes "bye") tree uploaded
unfolding upload read_all
get-upload_example =
    get-upload disk bucket live (codes "a/b") (bytes_reader (codes "bye")) tree live uploaded refl
      refl refl refl
