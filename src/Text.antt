-- ===== src/Text.antt =====
-- Go strings as byte sequences, and the functions of package `strings` that the repository calls.
pub mod Laws
pub mod Order
pub mod Decimal
pub mod Split
pub mod Trim
use objstore.Prelude.{
  ℕ, suc, ◌+◌, ◌-◌, Bool, true, false, ◌&&◌, ◌||◌, not, List, [], ◌∷◌, ◌++◌, ltb, leb, ◌==◌,
  if◌then◌else◌, length, drop, take,
}
use mathlib.Core.List.{reverse}

-- A string is the list of its bytes.
abbrev pub Str : Type 0
Str = List ℕ

-- objstore.DirDelim, "/".
abbrev pub slash : ℕ
slash = b'/'

abbrev pub dir_delim : Str
dir_delim = slash ∷ []

-- `s == t`
unfoldable pub str_eq : Str → Str → Bool
str_eq [] [] = true
str_eq (a ∷ s) (b ∷ t) = a == b && str_eq s t
str_eq _ _ = false

-- strings.HasPrefix
unfoldable pub has_prefix : Str → Str → Bool
has_prefix s [] = true
has_prefix [] (b ∷ p) = false
has_prefix (a ∷ s) (b ∷ p) = a == b && has_prefix s p

-- strings.HasSuffix
unfoldable pub has_suffix : Str → Str → Bool
unfolding str_eq
has_suffix [] suffix = str_eq [] suffix
has_suffix (a ∷ s) suffix = str_eq (a ∷ s) suffix || has_suffix s suffix

-- strings.TrimPrefix
unfoldable pub trim_prefix : Str → Str → Str
unfolding has_prefix
trim_prefix s p = if has_prefix s p then drop (length p) s else s

-- strings.TrimLeft for a cut set of one byte
unfoldable pub trim_left : Str → ℕ → Str
trim_left [] c = []
trim_left (a ∷ s) c = let rest = trim_left s c in if a == c then rest else a ∷ s

-- strings.Trim for a cut set of one byte
unfoldable pub trim : Str → ℕ → Str
unfolding trim_left
trim s c = reverse (trim_left (reverse (trim_left s c)) c)

-- strings.Replace with an empty replacement and no limit, for a pattern of one byte
unfoldable pub remove_byte : Str → ℕ → Str
remove_byte [] c = []
remove_byte (a ∷ s) c = let rest = remove_byte s c in if a == c then rest else a ∷ rest

-- strings.TrimSuffix
unfoldable pub trim_suffix : Str → Str → Str
unfolding has_suffix
trim_suffix s p = if has_suffix s p then take (length s - length p) s else s

-- a byte in front of the first of the parts
unfoldable pub cons_head : ℕ → List Str → List Str
cons_head a [] = (a ∷ []) ∷ []
cons_head a (p ∷ ps) = (a ∷ p) ∷ ps

-- strings.SplitAfter with the separator DirDelim: each part keeps its separator
unfoldable pub split_after : Str → List Str
unfolding cons_head
split_after [] = [] ∷ []
split_after (a ∷ s) = if a == slash then (a ∷ []) ∷ split_after s else cons_head a (split_after s)

-- strings.Join with an empty separator
unfoldable pub join : List Str → Str
join [] = []
join (p ∷ ps) = p ++ join ps

-- strings.Compare(s, t) < 0
unfoldable pub str_less : Str → Str → Bool
str_less s [] = false
str_less [] (b ∷ t) = true
str_less (a ∷ s) (b ∷ t) = ltb a b || (a == b && str_less s t)
