-- ===== src/Obs/Spaces.antt =====
-- Names that package strings trims to nothing.
use objstore.Prelude.{
  ℕ, Bool, true, false, ◌&&◌, ◌||◌, Option, none, some, [], ◌∷◌, if◌then◌else◌, leb, ◌==◌,
}
use objstore.Text.{Str}

-- what is read of the encoding of a white space, in hexadecimal
pub data Pending : Type 0 where
  start : Pending
  c2 : Pending
  e1 : Pending
  e1_9a : Pending
  e2 : Pending
  e2_80 : Pending
  e2_81 : Pending
  e3 : Pending
  e3_80 : Pending

-- a byte that ends a white space
abbrev pub ending : Bool → Option Pending
ending true = some start
ending false = none

-- the next byte of white spaces: those of unicode.IsSpace, in UTF-8
abbrev pub next_byte : Pending → ℕ → Option Pending
next_byte start b =
    if (leb 9 b && leb b 13) || b == 32
    then some start
    else if b == 194
    then some c2
    else if b == 225
    then some e1
    else if b == 226
    then some e2
    else if b == 227
    then some e3
    else none
next_byte c2 b = ending (b == 133 || b == 160)
next_byte e1 b = if b == 154 then some e1_9a else none
next_byte e1_9a b = ending (b == 128)
next_byte e2 b = if b == 128 then some e2_80 else if b == 129 then some e2_81 else none
next_byte e2_80 b = ending ((leb 128 b && leb b 138) || b == 168 || b == 169 || b == 175)
next_byte e2_81 b = ending (b == 159)
next_byte e3 b = if b == 128 then some e3_80 else none
next_byte e3_80 b = ending (b == 128)

abbrev pub at_start : Pending → Bool
at_start start = true
at_start p = false

-- `strings.TrimSpace(s) == ""`, from what is read of a white space on
unfoldable pub is_blank : Option Pending → Str → Bool
is_blank none s = false
is_blank (some p) [] = at_start p
is_blank (some p) (b ∷ s) = is_blank (next_byte p b) s
