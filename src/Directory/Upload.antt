-- ===== src/Directory/Upload.antt =====
-- objstore.go: UploadDir and UploadFile.
use objstore.Prelude.{Option, none, some, List, [], ◌∷◌, ◌++◌, if◌then◌else◌, codes, map, length}
use objstore.Prelude.Int.{ℤ, pos}
use objstore.Text.{Str, str_less}
use objstore.Errors.{Error, errorf, wrapped}
use objstore.Go.{Go, Ctx, pure, ◌>>=◌}
use objstore.Reader.{Reader, os_file}
use objstore.Bucket.{Bucket}
use objstore.Options.{UploadOption, apply_upload_options}
use objstore.Files.{
  Node, file, dir, Entries, no_entries, entry, FilePath, Result, ok, fails, is_dir, stat,
}
use objstore.Files.Paths.{join_path, path_string}
use objstore.Filesystem.{Disk}
use objstore.Directory.Group.{run_group, limited}

-- the files below an entry, with its name in front
abbrev pub under_name : Str → List FilePath → List FilePath
under_name c ps = map (λ p. c ∷ p) ps

-- the files of an entry in front of those whose names are greater
unfoldable pub insert_walk :
    Str → List FilePath → List (Str × List FilePath) → List (Str × List FilePath)
unfolding str_less
insert_walk c ps [] = (c, ps) ∷ []
insert_walk c ps ((k, qs) ∷ l) =
    if str_less k c then (k, qs) ∷ insert_walk c ps l else (c, ps) ∷ (k, qs) ∷ l

unfoldable pub join_walks : List (Str × List FilePath) → List FilePath
join_walks [] = []
join_walks ((c, ps) ∷ l) = under_name c ps ++ join_walks l

-- filepath.WalkDir: the files, by their paths from the directory on, in lexical order
unfoldable mutual
  unfolding insert_walk join_walks

  pub walk : Node → List FilePath
  walk (file body) = [] ∷ []
  walk (dir es) = join_walks (walk_entries es)

  pub walk_entries : Entries → List (Str × List FilePath)
  walk_entries no_entries = []
  walk_entries (entry c n es) = insert_walk c (walk n) (walk_entries es)

-- the components of a relative path with delimiters between them
unfoldable pub rel_string : FilePath → Str
rel_string [] = codes "."
rel_string (c ∷ []) = c
rel_string (c ∷ d ∷ p) = c ++ codes "/" ++ rel_string (d ∷ p)

module _ {W R : Type 0} (disk : Disk W) (bkt : Bucket W R) where
  -- the reader of an open file
  abbrev pub file_reader : Node → Reader
  file_reader (file body) =
      os_file (pos (length body), none) (record { bytes = body; read_err = none })
  file_reader (dir es) =
      os_file (pos (disk.dir_size es), none) (record { bytes = []; read_err = some is_dir })

  abbrev pub uploaded : Option Error → Option Error
  uploaded none = none
  uploaded (some e) = some (wrapped "upload file" e)

  abbrev pub upload_opened : Ctx W → Str → Result Node → Go W (Option Error)
  upload_opened ctx dst (fails e) = pure (some (wrapped "open file" e))
  upload_opened ctx dst (ok n) = bkt.upload ctx dst (file_reader n) >>= λ e. pure (uploaded e)

  -- UploadFile
  unfoldable pub upload_file : Ctx W → FilePath → Str → Go W (Option Error)
  unfolding stat
  upload_file ctx src dst w = upload_opened ctx dst (stat src (disk.read w)) w

  -- the function of the group for a file of the walk
  abbrev pub upload_task : FilePath → Str → FilePath → Ctx W → Go W (Option Error)
  upload_task srcdir dstdir rel ctx =
      upload_file ctx (srcdir ++ rel) (join_path dstdir (rel_string rel))

  -- the function for a directory, of which the walk meets the first one itself
  abbrev pub dir_task : Ctx W → Go W (Option Error)
  dir_task ctx = pure none

  abbrev pub upload_found :
      ℤ
      → (List FilePath → List FilePath)
      → Ctx W
      → FilePath
      → Str
      → Result Node
      → Go W (Option Error)
  upload_found limit order ctx srcdir dstdir (fails e) = pure (some (wrapped "stat dir" e))
  upload_found limit order ctx srcdir dstdir (ok (file body)) =
      pure (some (errorf "%s is not a directory" (path_string srcdir)))
  upload_found limit order ctx srcdir dstdir (ok (dir es)) =
      limited limit ctx (dir_task ∷ map (upload_task srcdir dstdir) (order (walk (dir es))))

  -- UploadDir, whose group runs the functions for the files in the order that `order` makes of the
  -- walk's
  unfoldable pub upload_dir :
      (List FilePath → List FilePath)
      → Ctx W
      → FilePath
      → Str
      → List UploadOption
      → Go W (Option Error)
  unfolding upload_file run_group walk stat join_path rel_string path_string
  upload_dir order ctx srcdir dstdir options w =
      upload_found (apply_upload_options options).concurrency order ctx srcdir dstdir
        (stat srcdir (disk.read w)) w
