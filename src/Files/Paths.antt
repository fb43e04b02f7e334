-- ===== src/Files/Paths.antt =====
-- Package filepath on Unix: Clean, Join, Dir and Base.
use objstore.Prelude.{ℕ, Bool, true, false, ◌||◌, List, [], ◌∷◌, ◌++◌, ◌==◌, if◌then◌else◌, codes}
use objstore.Text.{Str, slash, dir_delim, str_eq, has_prefix}
use objstore.Files.{FilePath}

-- the parts between delimiters
unfoldable pub add_byte : ℕ → List Str → List Str
add_byte a [] = (a ∷ []) ∷ []
add_byte a (p ∷ ps) = (a ∷ p) ∷ ps

unfoldable pub split : Str → List Str
unfolding add_byte
split [] = [] ∷ []
split (a ∷ s) = let rest = split s in if a == slash then [] ∷ rest else add_byte a rest

abbrev pub dot : Str
dot = codes "."

abbrev pub dot_dot : Str
dot_dot = codes ".."

-- filepath.Dir of a cleaned absolute path; that of the root is the root
unfoldable pub parent : FilePath → FilePath
parent [] = []
parent (c ∷ []) = []
parent (c ∷ d ∷ p) = c ∷ parent (d ∷ p)

-- The parts of a path after the cleaned absolute path `p`.
unfoldable pub resolve : FilePath → List Str → FilePath
unfolding str_eq parent
resolve p [] = p
resolve p (c ∷ cs) =
    let next =
      if str_eq c [] || str_eq c dot
      then p
      else if str_eq c dot_dot
      then parent p
      else p ++ c ∷ [] in
    resolve next cs

-- filepath.Join of a cleaned absolute path and a name
unfoldable pub join_abs : FilePath → Str → FilePath
unfolding split resolve
join_abs p name = resolve p (split name)

-- `..` after the parts `stack`, the last one first
unfoldable pub up : Bool → List Str → List Str
unfolding str_eq
up true [] = []
up false [] = dot_dot ∷ []
up rooted (c ∷ stack) = if str_eq c dot_dot then dot_dot ∷ c ∷ stack else stack

-- The parts of a path that is cleaned, the last one first. A relative path keeps the `..` at its
-- front.
unfoldable pub clean_parts : Bool → List Str → List Str → List Str
unfolding str_eq up
clean_parts rooted [] stack = stack
clean_parts rooted (c ∷ cs) stack =
    let next =
      if str_eq c [] || str_eq c dot
      then stack
      else if str_eq c dot_dot
      then up rooted stack
      else c ∷ stack in
    clean_parts rooted cs next

-- the parts, the last one first, with delimiters between them, in front of `tail`
unfoldable pub with_slashes : List Str → Str → Str
with_slashes [] tail = tail
with_slashes (c ∷ []) tail = c ++ tail
with_slashes (c ∷ d ∷ stack) tail = with_slashes (d ∷ stack) (slash ∷ c ++ tail)

-- filepath.Clean
unfoldable pub clean : Str → Str
unfolding has_prefix split clean_parts with_slashes str_eq
clean s =
    let rooted = has_prefix s dir_delim in
    let body = with_slashes (clean_parts rooted (split s) []) [] in
    if rooted then slash ∷ body else if str_eq body [] then dot else body

-- filepath.Join of two elements
unfoldable pub join_path : Str → Str → Str
unfolding str_eq clean
join_path a b =
    if str_eq a []
    then (if str_eq b [] then [] else clean b)
    else if str_eq b []
    then clean a
    else clean (a ++ slash ∷ b)

-- a cleaned absolute path as a string
abbrev pub below_root : FilePath → Str
below_root [] = []
below_root (c ∷ p) = slash ∷ c ++ below_root p

unfoldable pub path_string : FilePath → Str
path_string [] = dir_delim
path_string (c ∷ p) = below_root (c ∷ p)

-- the last part that is not empty
abbrev pub last_part : Str → List Str → Str
last_part found [] = found
last_part found ([] ∷ ps) = last_part found ps
last_part found ((a ∷ p) ∷ ps) = last_part (a ∷ p) ps

-- filepath.Base
unfoldable pub base : Str → Str
unfolding split
base [] = dot
base (a ∷ s) = last_part dir_delim (split (a ∷ s))
