-- ===== src/Files.antt =====
-- Package os on a tree of files, without links, permissions and failures of the device: the calls
-- of the repository, on absolute paths that package filepath has cleaned.
pub mod Paths
pub mod Laws
pub mod Writes
pub mod Stats
pub mod Removal
use objstore.Prelude.{
  ℕ, ◌≡◌, Bool, true, false, ◌&&◌, not, Option, none, some, List, [], ◌∷◌, ◌++◌, if◌then◌else◌,
}
use objstore.Text.{Str, str_eq, str_less}
use objstore.Errors.{Error, foreign, not_exist}

-- A file has its content, and a directory its entries, each name once.
mutual
  pub data Node : Type 0 where
    file : Str → Node
    dir : Entries → Node

  pub data Entries : Type 0 where
    no_entries : Entries
    entry : Str → Node → Entries → Entries

-- The components below the root directory.
abbrev pub FilePath : Type 0
FilePath = List Str

pub data Result (A : Type 0) : Type 0 where
  ok : A → Result A
  fails : Error → Result A

-- ENOTDIR and EISDIR
abbrev pub not_dir : Error
not_dir = foreign "not a directory"

abbrev pub is_dir : Error
is_dir = foreign "is a directory"

-- os.IsNotExist
unfoldable pub is_not_exist : Error → Bool
is_not_exist not_exist = true
is_not_exist _ = false

unfoldable pub find : Str → Entries → Option Node
unfolding str_eq
find c no_entries = none
find c (entry k n es) = if str_eq k c then some n else find c es

-- the entry of a name, added or replaced, and removed
unfoldable pub set : Str → Node → Entries → Entries
unfolding str_eq
set c n no_entries = entry c n no_entries
set c n (entry k m es) = if str_eq k c then entry c n es else entry k m (set c n es)

unfoldable pub unset : Str → Entries → Entries
unfolding str_eq
unset c no_entries = no_entries
unset c (entry k m es) = let rest = unset c es in if str_eq k c then rest else entry k m rest

-- os.Stat, with the node in place of what is known of it
unfoldable pub stat : FilePath → Entries → Result Node
unfolding find
stat [] es = ok (dir es)
stat (c ∷ p) es = elim (find c es) [
  | none ↦ fails not_exist
  | some (dir sub) ↦ stat p sub
  | some (file body) ↦ elim p [ [] ↦ ok (file body) | d ∷ q ↦ fails not_dir ]
]

-- the tree with the node of one name changed by a call below it
abbrev pub within : Str → Entries → Result Entries → Result Entries
within c es (ok sub) = ok (set c (dir sub) es)
within c es (fails e) = fails e

-- os.MkdirAll
unfoldable pub mkdir_all : FilePath → Entries → Result Entries
unfolding find set
mkdir_all [] es = ok es
mkdir_all (c ∷ p) es = elim (find c es) [
  | none ↦ within c es (mkdir_all p no_entries)
  | some (dir sub) ↦ within c es (mkdir_all p sub)
  | some (file body) ↦ fails not_dir
]

-- os.Create and the bytes that are written before the file is closed: `body` is the content that
-- the file is left with
unfoldable pub write_file : FilePath → Str → Entries → Result Entries
unfolding find set
write_file [] body es = fails is_dir
write_file (c ∷ []) body es = elim (find c es) [
  | none ↦ ok (set c (file body) es)
  | some (file old) ↦ ok (set c (file body) es)
  | some (dir sub) ↦ fails is_dir
]
write_file (c ∷ d ∷ p) body es = elim (find c es) [
  | none ↦ fails not_exist
  | some (dir sub) ↦ within c es (write_file (d ∷ p) body sub)
  | some (file old) ↦ fails not_dir
]

-- os.RemoveAll; the root directory itself is busy, but loses its entries
unfoldable pub remove_all : FilePath → Entries → Entries × Option Error
unfolding find set unset
remove_all [] es = (no_entries, some (foreign "device or resource busy"))
remove_all (c ∷ []) es = (unset c es, none)
remove_all (c ∷ d ∷ p) es = elim (find c es) [
  | none ↦ (es, none)
  | some (dir sub) ↦ let (sub', e) = remove_all (d ∷ p) sub in (set c (dir sub') es, e)
  | some (file old) ↦ (es, some not_dir)
]

-- os.Remove
abbrev pub not_empty : Error
not_empty = foreign "directory not empty"

abbrev pub removable : Result Node → Option Error
removable (fails e) = some e
removable (ok (file body)) = none
removable (ok (dir no_entries)) = none
removable (ok (dir (entry c n es))) = some not_empty

unfoldable pub remove : FilePath → Entries → Entries × Option Error
unfolding stat remove_all
remove p es =
    let r = remove_all p es in elim (removable (stat p es)) [ some e ↦ (es, some e) | none ↦ r ]

-- whether two paths are the same string
unfoldable pub paths_eq : FilePath → FilePath → Bool
unfolding str_eq
paths_eq [] [] = true
paths_eq (c ∷ p) (d ∷ q) = str_eq c d && paths_eq p q
paths_eq _ _ = false

-- os.ReadDir sorts the entries by name
unfoldable pub insert_entry : Str → Node → List (Str × Node) → List (Str × Node)
unfolding str_less
insert_entry c n [] = (c, n) ∷ []
insert_entry c n ((k, m) ∷ l) =
    if str_less k c then (k, m) ∷ insert_entry c n l else (c, n) ∷ (k, m) ∷ l

unfoldable pub sorted_entries : Entries → List (Str × Node)
unfolding insert_entry
sorted_entries no_entries = []
sorted_entries (entry c n es) = insert_entry c n (sorted_entries es)

abbrev pub entries_of : Node → Result (List (Str × Node))
entries_of (dir es) = ok (sorted_entries es)
entries_of (file body) = fails not_dir

unfoldable pub read_dir : FilePath → Entries → Result (List (Str × Node))
unfolding stat sorted_entries
read_dir p es = elim (stat p es) [ ok n ↦ entries_of n | fails e ↦ fails e ]
