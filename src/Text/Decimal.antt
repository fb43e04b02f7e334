-- ===== src/Text/Decimal.antt =====
-- The part of package strconv that the repository uses: ParseInt with base 10 and 64 bits.
use objstore.Prelude.{
  ℕ, zero, suc, ◌+◌, ◌-◌, ◌*◌, ◌/◌, ◌%◌, ap, ◌<◌, ◌≤◌, ◌≡◌, ◌≢◌, refl, Bool, true, false, ◌&&◌, not,
  none, some, [], ◌∷◌, arith, ltb, ◌==◌, leb, if◌then◌else◌, Bool-cases, inl, inr,
}
use objstore.Prelude.Int.{ℤ, pos, negsuc, int64_bound}
use objstore.Text.{Str}
use objstore.Errors.{Error, foreign}
use objstore.Go.{Fallible}

-- strconv.ErrSyntax and strconv.ErrRange, in the error of ParseInt
abbrev pub err_syntax : Error
err_syntax = foreign "strconv.ParseInt: invalid syntax"

abbrev pub err_range : Error
err_range = foreign "strconv.ParseInt: value out of range"

pub data Unsigned : Type 0 where
  value : ℕ → Unsigned
  syntax_error range_error : Unsigned

abbrev is_digit : ℕ → Bool
is_digit c = leb 48 c && leb c 57

-- math.MaxUint64
abbrev max_uint64 : ℕ
max_uint64 = 18446744073709551615

-- the loop of ParseUint, on `n` and the bytes that are left
unfoldable scan : ℕ → Str → Unsigned
scan n [] = value n
scan n (c ∷ s) =
    let rest = scan (n * 10 + (c - 48)) s in
    if not (is_digit c)
    then syntax_error
    else if leb 1844674407370955162 n
    then range_error
    else if ltb max_uint64 (n * 10 + (c - 48))
    then range_error
    else rest

unfoldable parse_uint : Str → Unsigned
unfolding scan
parse_uint [] = syntax_error
parse_uint s = scan 0 s

abbrev negated : ℕ → ℤ
negated n = if ltb 0 n then negsuc (n - 1) else pos 0

-- the part of ParseInt behind the sign
unfoldable signed : Bool → Unsigned → Fallible ℤ
signed neg syntax_error = (pos 0, some err_syntax)
signed false range_error = (pos (int64_bound - 1), some err_range)
signed true range_error = (negsuc (int64_bound - 1), some err_range)
signed false (value n) =
    if leb int64_bound n then (pos (int64_bound - 1), some err_range) else (pos n, none)
signed true (value n) =
    if ltb int64_bound n then (negsuc (int64_bound - 1), some err_range) else (negated n, none)

-- ParseInt(s, 10, 64)
unfoldable pub parse_int : Str → Fallible ℤ
unfolding signed parse_uint
parse_int [] = (pos 0, some err_syntax)
parse_int (c ∷ s) =
    if c == b'+'
    then signed false (parse_uint s)
    else if c == b'-'
    then signed true (parse_uint s)
    else signed false (parse_uint (c ∷ s))

-- the number that digits stand for, in front of which `n` was read
unfoldable pub number_from : ℕ → Str → ℕ
number_from n [] = n
number_from n (c ∷ s) = number_from (n * 10 + (c - 48)) s

unfoldable pub all_digits : Str → Bool
all_digits [] = true
all_digits (c ∷ s) = is_digit c && all_digits s

number_from_le : (n : ℕ) (s : Str) → n ≤ number_from n s
unfolding number_from
number_from_le n [] = omega arith
number_from_le n (c ∷ s) = omega (arith, number_from_le (n * 10 + (c - 48)) s)

abbrev bounded : ℕ → Unsigned
bounded n = if leb n max_uint64 then value n else range_error

scan_lem :
    (n : ℕ) (s : Str) → n ≤ max_uint64 → all_digits s ≡ true → scan n s ≡ bounded (number_from n s)
unfolding scan all_digits number_from
scan_lem n [] h d = ground arith
scan_lem n (c ∷ s) h d =
    let k = n * 10 + (c - 48) in
    let digit : is_digit c ≡ true = ground arith in
    let digits : all_digits s ≡ true = ground arith in
    elim (Bool-cases (leb 1844674407370955162 n)) [
      | inl big ↦ ground (arith, number_from_le k s)
      | inr small ↦ elim (Bool-cases (ltb max_uint64 k)) [
        | inl over ↦ ground (arith, number_from_le k s)
        | inr fits ↦ rw (digit, small, fits) (scan_lem k s (ground arith) digits)
      ]
    ]

scan_digits : (s : Str) → s ≢ [] → all_digits s ≡ true → parse_uint s ≡ bounded (number_from 0 s)
unfolding parse_uint
scan_digits [] h d = absurd (h refl)
scan_digits (c ∷ s) h d = scan_lem 0 (c ∷ s) (omega arith) d

signed_lem :
    (n : ℕ)
    → signed false (bounded n)
      ≡ (if ltb n int64_bound then (pos n, none) else (pos (int64_bound - 1), some err_range))
unfolding signed
signed_lem n = elim (Bool-cases (leb n max_uint64)) [
  | inl x ↦ rw (x, signed) (ground arith)
  | inr x ↦ rw (x, signed) (ground arith)
]

signed_minus_lem :
    (n : ℕ)
    → signed true (bounded n) ≡ (
        if leb n int64_bound then (negated n, none) else (negsuc (int64_bound - 1), some err_range))
unfolding signed
signed_minus_lem n = elim (Bool-cases (leb n max_uint64)) [
  | inl x ↦ rw (x, signed) (ground arith)
  | inr x ↦ rw (x, signed) (ground arith)
]

-- ParseInt of decimal digits is the number that they stand for if that is an int64, however many
-- digits there are, and else the range error.
pub parse_int_digits :
    (s : Str)
    → s ≢ []
    → all_digits s ≡ true
    → parse_int s ≡ (
        if ltb (number_from 0 s) int64_bound
        then (pos (number_from 0 s), none)
        else (pos (int64_bound - 1), some err_range))
unfolding parse_int
parse_int_digits [] h d = absurd (h refl)
parse_int_digits (c ∷ s) h d =
    let plus : (c == b'+') ≡ false = unfold all_digits in ground arith in
    let minus : (c == b'-') ≡ false = unfold all_digits in ground arith in
    rw (plus, minus, scan_digits (c ∷ s) h d) (signed_lem (number_from 0 (c ∷ s)))

-- ParseInt of a minus sign and decimal digits is the negated number if that is an int64, and else
-- the range error.
pub parse_int_minus :
    (s : Str)
    → s ≢ []
    → all_digits s ≡ true
    → parse_int (b'-' ∷ s) ≡ (
        if leb (number_from 0 s) int64_bound
        then (negated (number_from 0 s), none)
        else (negsuc (int64_bound - 1), some err_range))
unfolding parse_int
parse_int_minus s h d = rw (scan_digits s h d) (signed_minus_lem (number_from 0 s))

-- the decimal digits of `n` in front of `acc`, on enough fuel
unfoldable pub to_digits : ℕ → ℕ → Str → Str
to_digits zero n acc = acc
to_digits (suc fuel) n acc =
    let rest = to_digits fuel (n / 10) ((48 + n % 10) ∷ acc) in
    if ltb n 10 then (48 + n) ∷ acc else rest

-- `%d` of package fmt
unfoldable pub decimal : ℕ → Str
unfolding to_digits
decimal n = to_digits (suc n) n []

number_from-to_digits :
    (fuel n : ℕ) (acc : Str) → n < fuel → number_from 0 (to_digits fuel n acc) ≡ number_from n acc
unfolding to_digits
number_from-to_digits zero n acc h = omega arith
number_from-to_digits (suc fuel) n acc h = elim (Bool-cases (ltb n 10)) [
  | inl x ↦ rw x (unfold number_from in ap (λ k. number_from k acc) (omega arith))
  | inr x ↦
      rw (x, number_from-to_digits fuel (n / 10) ((48 + n % 10) ∷ acc) (ground arith))
        (unfold number_from in ap (λ k. number_from k acc) (omega arith))
]

all_digits-to_digits :
    (fuel n : ℕ) (acc : Str)
    → n < fuel
    → all_digits acc ≡ true
    → all_digits (to_digits fuel n acc) ≡ true
unfolding to_digits
all_digits-to_digits zero n acc h d = ground arith
all_digits-to_digits (suc fuel) n acc h d = elim (Bool-cases (ltb n 10)) [
  | inl x ↦ rw x (unfold all_digits in ground arith)
  | inr x ↦ rw x (
      all_digits-to_digits fuel (n / 10) ((48 + n % 10) ∷ acc) (ground arith)
        (unfold all_digits in ground arith))
]

to_digits-ne : (fuel n : ℕ) (acc : Str) → n < fuel → to_digits fuel n acc ≢ []
unfolding to_digits
to_digits-ne zero n acc h = λ e. omega arith
to_digits-ne (suc fuel) n acc h = elim (Bool-cases (ltb n 10)) [
  | inl x ↦ rw x (λ e. cc)
  | inr x ↦ rw x (to_digits-ne fuel (n / 10) ((48 + n % 10) ∷ acc) (ground arith))
]

-- ParseInt reads the digits of every int64 that is not negative as the number that fmt printed.
pub parse_int-decimal : (n : ℕ) → n < int64_bound → parse_int (decimal n) ≡ (pos n, none)
unfolding decimal
parse_int-decimal n h =
    rw
      (
        parse_int_digits (to_digits (suc n) n []) (to_digits-ne (suc n) n [] (omega arith))
            (all_digits-to_digits (suc n) n [] (omega arith) (unfold all_digits in refl)),
        number_from-to_digits (suc n) n [] (omega arith),
      )
      (unfold number_from in ground arith)
