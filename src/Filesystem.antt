-- ===== src/Filesystem.antt =====
-- providers/filesystem/filesystem.go: Bucket over the local files.
pub mod Uploads
pub mod Deletes
use objstore.Prelude.{
  ℕ, zero, suc, ◌≡◌, Bool, true, false, not, Option, none, some, List, [], ◌∷◌, ◌++◌, if◌then◌else◌,
  codes, length, take, drop, ltb, ◌&&◌,
}
use objstore.Prelude.Int.{ℤ, pos, negsuc, ltb_ℤ, eqb_ℤ, pos_part}
use objstore.Text.{Str, str_eq, slash, dir_delim}
use objstore.Errors.{Error, new_error, wrapped, eof, ErrorsPkg}
use objstore.Go.{Outcome, returns, panics, Go, Ctx, Fallible, pure}
use objstore.Reader.{Reader, Stream, os_file, plain, read_all}
use objstore.Options.{IterOption, apply_iter_options}
use objstore.Bucket.{Bucket, Callback, ObjectAttributes, zero_attributes}
use objstore.Inmem.Iter.{unless_error}
use objstore.Files.{
  Node, file, dir, Entries, no_entries, entry, FilePath, Result, ok, fails, not_dir, is_dir,
  is_not_exist, stat, mkdir_all, write_file, paths_eq, remove_all, read_dir,
}
use objstore.Files.Paths.{parent, join_abs, join_path, path_string}

-- Where the files are in the program's world, and what the system says of a node besides.
pub record Disk (W : Type 0) : Type 0 where
  pub read : W → Entries
  pub write : Entries → W → W
  pub read_write : (es : Entries) (w : W) → read (write es w) ≡ es
  pub dir_size : Entries → ℕ
  pub mod_time : FilePath → W → ℕ

-- Bucket
pub record FilesystemBucket : Type 0 where
  pub root_dir : FilePath

-- NewBucket, of the path that filepath.Abs gives
unfoldable pub new_bucket : Fallible FilePath → Fallible (Option FilesystemBucket)
new_bucket (abs_dir, none) = (some (record { root_dir = abs_dir }), none)
new_bucket (abs_dir, some err) = (none, some err)

-- NewBucketFromConfig, of the directory that the configuration unmarshals to
unfoldable pub new_bucket_from_config :
    (Str → Fallible FilePath) → Fallible Str → Fallible (Option FilesystemBucket)
unfolding str_eq new_bucket
new_bucket_from_config abs (directory, some err) = (none, some err)
new_bucket_from_config abs (directory, none) =
    if str_eq directory []
    then (none, some (new_error "missing directory for filesystem bucket"))
    else new_bucket (abs directory)

abbrev pub is_empty_node : Node → Result Bool
is_empty_node (file body) = fails not_dir
is_empty_node (dir no_entries) = ok true
is_empty_node (dir (entry c n es)) = ok false

-- isDirEmpty
unfoldable pub is_dir_empty : FilePath → Entries → Result Bool
unfolding stat is_not_exist
is_dir_empty p es = elim (stat p es) [
  | fails e ↦ if is_not_exist e then ok true else fails e
  | ok n ↦ is_empty_node n
]

-- a round of Delete behind RemoveAll of `p`, with the rounds that follow
abbrev pub removed :
    FilePath
    → Entries × Option Error
    → Option (Entries × Option Error)
    → Option (Entries × Option Error)
removed p (es, some e) rest = some (es, some (wrapped "rm" e))
removed p (es, none) rest = elim (is_dir_empty (parent p) es) [
  | fails e ↦ some (es, some e)
  | ok false ↦ some (es, none)
  | ok true ↦ rest
]

-- The loop of Delete; `none` where `fuel` rounds do not end it.
unfoldable pub delete_loop : ℕ → FilePath → FilePath → Entries → Option (Entries × Option Error)
unfolding paths_eq remove_all is_dir_empty parent
delete_loop zero root p es = none
delete_loop (suc fuel) root p es =
    let r = remove_all p es in
    let rest = delete_loop fuel root (parent p) r.0 in
    if paths_eq p root then some (es, none) else removed p r rest

-- the bytes that a node's file reads as, from the offset on; to read a directory is an error
abbrev pub stream_of : ℤ → Node → Stream
stream_of off (file body) = record { bytes = drop (pos_part off) body; read_err = none }
stream_of off (dir es) = record { bytes = []; read_err = some is_dir }

-- io.LimitReader
abbrev pub limited : ℤ → Stream → Stream
limited (negsuc n) s = record { bytes = []; read_err = none }
limited (pos n) s = record {
  bytes = take n s.bytes;
  read_err = if ltb (length s.bytes) n then s.read_err else none;
}

abbrev pub exists_of : Result Node → Fallible Bool
exists_of (fails e) = if is_not_exist e then (false, none) else (false, some (wrapped "stat" e))
exists_of (ok (file body)) = (true, none)
exists_of (ok (dir es)) = (false, none)

-- the error of io.Copy
abbrev pub copied : Option Error → Option Error
copied none = none
copied (some e) = some (wrapped "copy to" e)

-- the files after os.Create and io.Copy, which leaves the bytes that it read before an error
abbrev pub created : Entries → Option Error → Result Entries → Entries × Option Error
created es read_err (fails e) = (es, some e)
created es read_err (ok es') = (es', copied read_err)

abbrev pub in_parent :
    FilePath → Str × Option Error → Entries → Result Entries → Entries × Option Error
in_parent p (body, read_err) es (fails e) = (es, some e)
in_parent p (body, read_err) es (ok es') = created es' read_err (write_file p body es')

-- Upload, on the files
unfoldable pub store : FilePath → Reader → Entries → Entries × Option Error
unfolding mkdir_all write_file parent read_all
store p r es = in_parent p (read_all r) es (mkdir_all (parent p) es)

-- IsObjNotFoundErr
unfoldable pub is_obj_not_found_err : ErrorsPkg → Error → Bool
unfolding is_not_exist
is_obj_not_found_err pkg err = is_not_exist (pkg.cause err)

-- IsCustomerManagedKeyError
abbrev pub is_customer_managed_key_error : Error → Bool
is_customer_managed_key_error err = false

module _ {W : Type 0} (disk : Disk W) (b : FilesystemBucket) where
  abbrev pub size_of_node : Node → ℤ
  size_of_node (file body) = pos (length body)
  size_of_node (dir es) = pos (disk.dir_size es)

  -- the rest of a method behind its test of the context's error
  abbrev pub unless_done : {A : Type 0} → Ctx W → (Error → A) → Go W A → Go W A
  unless_done ctx failed rest w = elim (ctx.err w) [
    | some e ↦ returns (failed e, w)
    | none ↦ rest w
  ]

  -- the reader of GetRange
  abbrev pub reader_from : ℤ → ℤ → Node → Reader
  reader_from off len n =
      if eqb_ℤ len (negsuc 0)
      then os_file (size_of_node n, none) (stream_of off n)
      else plain (limited len (stream_of off n))

  abbrev pub opened : ℤ → ℤ → Result Node → Fallible (Option Reader)
  opened off len (fails e) = (none, some (wrapped "stat" e))
  opened off len (ok n) = (some (reader_from off len n), none)

  unfoldable pub get_range : Ctx W → Str → ℤ → ℤ → Go W (Fallible (Option Reader))
  unfolding stat join_abs str_eq
  get_range ctx name off len =
      unless_done ctx (λ e. (none, some e))
        (if str_eq name [] then pure (none, some (new_error "object name is empty")) else λ w.
          returns (opened off len (stat (join_abs b.root_dir name) (disk.read w)), w))

  unfoldable pub get : Ctx W → Str → Go W (Fallible (Option Reader))
  unfolding get_range
  get ctx name = get_range ctx name (pos 0) (negsuc 0)

  abbrev pub attributes_of : FilePath → W → Result Node → Fallible ObjectAttributes
  attributes_of p w (fails e) = (zero_attributes, some (wrapped "stat" e))
  attributes_of p w (ok n) =
      (record { size = size_of_node n; last_modified = disk.mod_time p w }, none)

  unfoldable pub attributes : Ctx W → Str → Go W (Fallible ObjectAttributes)
  unfolding stat join_abs
  attributes ctx name =
      unless_done ctx (λ e. (zero_attributes, some e))
        (λ w.
          let p = join_abs b.root_dir name in returns (attributes_of p w (stat p (disk.read w)), w))

  unfoldable pub has_object : Ctx W → Str → Go W (Fallible Bool)
  unfolding stat join_abs is_not_exist
  has_object ctx name =
      unless_done ctx (λ e. (false, some e))
        (λ w. returns (exists_of (stat (join_abs b.root_dir name) (disk.read w)), w))

  abbrev pub written : W → Entries × Option Error → Outcome (Option Error × W)
  written w (es, e) = returns (e, disk.write es w)

  unfoldable pub upload : Ctx W → Str → Reader → Go W (Option Error)
  unfolding store join_abs
  upload ctx name r =
      unless_done ctx some (λ w. written w (store (join_abs b.root_dir name) r (disk.read w)))

  -- Delete; a loop that does not end has no outcome, for which `panics` stands
  abbrev pub deleted : W → Option (Entries × Option Error) → Outcome (Option Error × W)
  deleted w none = panics
  deleted w (some r) = written w r

  unfoldable pub delete : Ctx W → Str → Go W (Option Error)
  unfolding delete_loop join_abs
  delete ctx name = unless_done ctx some (λ w.
      let p = join_abs b.root_dir name in
      deleted w (delete_loop (suc (length p)) b.root_dir p (disk.read w)))

  -- the loop of Iter over the entries of the directory `dir_name`, at `abs_dir`; `self` is Iter
  unfoldable pub visit :
      (Str → Go W (Option Error))
      → Bool
      → Callback W
      → Str
      → FilePath
      → List (Str × Node)
      → Go W (Option Error)
  unfolding unless_error is_dir_empty join_abs join_path
  visit self recursive f dir_name abs_dir [] w = returns (none, w)
  visit self recursive f dir_name abs_dir ((c, file body) ∷ files) w =
      unless_error (f (join_path dir_name c) w) (visit self recursive f dir_name abs_dir files)
  visit self recursive f dir_name abs_dir ((c, dir es) ∷ files) w =
      let rest = visit self recursive f dir_name abs_dir files in
      let name = join_path dir_name c ++ dir_delim in
      elim (is_dir_empty (join_abs abs_dir c) (disk.read w)) [
        | fails e ↦ returns (some e, w)
        | ok true ↦ rest w
        | ok false ↦ unless_error ((if recursive then self name else f name) w) rest
      ]

  abbrev pub listed :
      (List (Str × Node) → Go W (Option Error)) → Result (List (Str × Node)) → Go W (Option Error)
  listed loop (fails e) w = returns (some e, w)
  listed loop (ok files) w = loop files w

  -- Iter behind os.Stat
  abbrev pub entered :
      (List (Str × Node) → Go W (Option Error)) → FilePath → Result Node → Go W (Option Error)
  entered loop p (fails e) w = returns (if is_not_exist e then none else some (wrapped "stat" e), w)
  entered loop p (ok (file body)) w = returns (none, w)
  entered loop p (ok (dir es)) w = listed loop (read_dir p (disk.read w)) w

  -- Iter, down to `fuel` directories below each other; deeper ones have no outcome
  unfoldable pub iter_within : ℕ → Ctx W → Callback W → List IterOption → Str → Go W (Option Error)
  unfolding visit stat read_dir is_not_exist join_abs
  iter_within zero ctx f options dir_name w = panics
  iter_within (suc fuel) ctx f options dir_name w =
      let p = join_abs b.root_dir dir_name in
      let loop =
        visit (iter_within fuel ctx f options) (apply_iter_options options).recursive f dir_name
          p in
      unless_done ctx some (λ v. entered loop p (stat p (disk.read v)) v) w

  -- Close
  abbrev pub close : Go W (Option Error)
  close = pure none

  -- Name
  unfoldable pub name_of : Str
  unfolding path_string
  name_of = codes "fs: " ++ path_string b.root_dir

  -- the Bucket of a program
  unfoldable pub filesystem_bucket : ErrorsPkg → ℕ → Bucket W Reader
  unfolding iter_within get get_range has_object attributes upload delete name_of
  filesystem_bucket pkg fuel = record {
    iter = λ ctx dir_name f options. iter_within fuel ctx f options dir_name;
    get = get;
    get_range = get_range;
    has_object = has_object;
    is_obj_not_found_err = is_obj_not_found_err pkg;
    is_customer_managed_key_error = is_customer_managed_key_error;
    attributes = attributes;
    upload = upload;
    delete = delete;
    name = pure name_of;
    close = close;
  }
