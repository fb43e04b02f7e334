-- ===== src/Cos/Ranges.antt =====
-- The range of getRange of the COS bucket, as a header.
use objstore.Prelude.{
  sym, ℕ, ◌+◌, ◌-◌, ◌≡◌, refl, ◌<◌, true, false, ◌&&◌, not, Option, none, some, [], ◌++◌, zero, suc,
  ap, ◌∙◌, ◌≤◌, if◌then◌else◌, codes, arith, ◌==◌,
}
use objstore.Prelude.Int.{
  ℤ, pos, negsuc, eqb_ℤ, ltb_ℤ, leb_ℤ, add64, sub64, add64_exact, sub64_exact, int64_bound,
}
use objstore.Text.{Str}
use objstore.Text.Decimal.{decimal}
use objstore.Errors.{new_error}
use objstore.Go.{Fallible}

-- `%d` of package fmt
abbrev pub print_int : ℤ → Str
print_int (pos n) = decimal n
print_int (negsuc n) = codes "-" ++ decimal (n + 1)

-- setRange
unfoldable pub set_range : ℤ → ℤ → Fallible Str
unfolding decimal
set_range start end =
    if eqb_ℤ start (pos 0) && ltb_ℤ end (pos 0)
    then (codes "bytes=" ++ print_int end, none)
    else if ltb_ℤ (pos 0) start && eqb_ℤ end (pos 0)
    then (codes "bytes=" ++ print_int start ++ codes "-", none)
    else if leb_ℤ (pos 0) start && leb_ℤ start end
    then (codes "bytes=" ++ print_int start ++ codes "-" ++ print_int end, none)
    else ([], some (new_error "Invalid range specified"))

-- the Range option of getRange, if it sets one
unfoldable pub range_header : ℤ → ℤ → Option (Fallible Str)
unfolding set_range add64 sub64
range_header off len =
    if not (eqb_ℤ len (negsuc 0))
    then some (set_range off (sub64 (add64 off len) (pos 1)))
    else if ltb_ℤ (pos 0) off
    then some (set_range off (pos 0))
    else none

-- What a range that is not negative asks for: `n` bytes from the offset `o` on. For no bytes it is
-- another range: the last byte of the object from 0 on, all bytes from 1 on, and else none.
unfoldable pub header_of : ℕ → ℕ → Fallible Str
unfolding decimal
header_of o n =
    if n == 0
    then if o == 0
      then (codes "bytes=-1", none)
      else if o == 1
      then (codes "bytes=1-", none)
      else ([], some (new_error "Invalid range specified"))
    else (codes "bytes=" ++ decimal o ++ codes "-" ++ decimal (o + n - 1), none)

-- the cases of setRange
set_inside :
    (start end : ℕ)
    → start ≤ end
    → 0 < end
    → set_range (pos start) (pos end)
      ≡ (codes "bytes=" ++ decimal start ++ codes "-" ++ decimal end, none)
unfolding set_range
set_inside start end h p =
    let c1 : (eqb_ℤ (pos start) (pos 0) && ltb_ℤ (pos end) (pos 0)) ≡ false = ground arith in
    let c2 : (ltb_ℤ (pos 0) (pos start) && eqb_ℤ (pos end) (pos 0)) ≡ false = ground arith in
    let c3 : (leb_ℤ (pos 0) (pos start) && leb_ℤ (pos start) (pos end)) ≡ true = ground arith in
    rw (c1, c2, c3) refl

set_outside :
    (start end : ℕ)
    → end < start
    → 0 < end
    → set_range (pos start) (pos end) ≡ ([], some (new_error "Invalid range specified"))
unfolding set_range
set_outside start end h p =
    let c1 : (eqb_ℤ (pos start) (pos 0) && ltb_ℤ (pos end) (pos 0)) ≡ false = ground arith in
    let c2 : (ltb_ℤ (pos 0) (pos start) && eqb_ℤ (pos end) (pos 0)) ≡ false = ground arith in
    let c3 : (leb_ℤ (pos 0) (pos start) && leb_ℤ (pos start) (pos end)) ≡ false = ground arith in
    rw (c1, c2, c3) refl

set_first :
    set_range (pos 0) (pos 0) ≡ (codes "bytes=" ++ decimal 0 ++ codes "-" ++ decimal 0, none)
unfolding set_range decimal
set_first = refl

-- the range that getRange asks setRange for
asked :
    (o n : ℕ)
    → o + n < int64_bound
    → 0 < o + n
    → range_header (pos o) (pos n) ≡ some (set_range (pos o) (pos (o + n - 1)))
unfolding range_header
asked o n h p =
    let c : eqb_ℤ (pos n) (negsuc 0) ≡ false = ground arith in
    rw (c, add64_exact o n h, sub64_exact (o + n) 1 p h) refl

set_case :
    (o n : ℕ)
    → 0 < n
    → set_range (pos o) (pos (o + n - 1))
      ≡ (codes "bytes=" ++ decimal o ++ codes "-" ++ decimal (o + n - 1), none)
set_case zero (suc zero) h = set_first
set_case zero (suc (suc n)) h = set_inside 0 (0 + suc (suc n) - 1) (omega arith) (omega arith)
set_case (suc o) (suc n) h = set_inside (suc o) (suc o + suc n - 1) (omega arith) (omega arith)
set_case o zero h = absurd (omega (arith, h))

nothing_at_zero : range_header (pos 0) (pos 0) ≡ some (header_of 0 0)
unfolding range_header set_range header_of add64 sub64 decimal
nothing_at_zero = refl

nothing_at_one : range_header (pos 1) (pos 0) ≡ some (header_of 1 0)
unfolding range_header set_range header_of add64 sub64 decimal
nothing_at_one = refl

header_outside : (o : ℕ) → 1 < o → header_of o 0 ≡ ([], some (new_error "Invalid range specified"))
unfolding header_of
header_outside o h =
    let c0 : (o == 0) ≡ false = ground arith in
    let c1 : (o == 1) ≡ false = ground arith in rw (c0, c1) refl

header_inside :
    (o n : ℕ)
    → 0 < n
    → header_of o n ≡ (codes "bytes=" ++ decimal o ++ codes "-" ++ decimal (o + n - 1), none)
unfolding header_of
header_inside o n h = let c : (n == 0) ≡ false = ground arith in rw c refl

-- A range from an offset and of a length that are not negative, with a sum that is an int64, asks
-- for the bytes from the offset on, as many as the length says, except that for the length 0 the
-- header asks for the last byte at the offset 0 and for all bytes from 1 on at the offset 1, and
-- there is an error at the others.
pub range_header_lem :
    (o n : ℕ) → o + n < int64_bound → range_header (pos o) (pos n) ≡ some (header_of o n)
range_header_lem zero zero h = nothing_at_zero
range_header_lem (suc zero) zero h = nothing_at_one
range_header_lem (suc (suc o)) zero h =
    asked (suc (suc o)) 0 h (omega arith)
    ∙ ap some (
        set_outside (suc (suc o)) (suc (suc o) + 0 - 1) (omega arith) (omega arith)
        ∙ sym (header_outside (suc (suc o)) (omega arith)))
range_header_lem o (suc n) h =
    asked o (suc n) h (omega arith)
    ∙ ap some (set_case o (suc n) (omega arith) ∙ sym (header_inside o (suc n) (omega arith)))
