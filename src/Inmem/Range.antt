-- ===== src/Inmem/Range.antt =====
-- InMemBucket.GetRange: the bytes that it returns, and where it panics.
use objstore.Prelude.{
  ℕ, zero, suc, ◌+◌, ◌-◌, ◌≤◌, ◌<◌, ◌≡◌, refl, none, some, [], ◌∷◌, arith, length, take, drop,
  take_all, length-drop, ◌∙◌, ◌*◌,
}
use native.Mathlib.Decide.{dec_lt}
use objstore.Prelude.Int.{ℤ, pos, negsuc, int64_bound, add64_exact, add64_wraps, sub64_exact}
use objstore.Text.{Str}
use objstore.Go.{returns, panics}
use objstore.Inmem.{range_of, slice_bytes, reader_of}

slice_bytes_exact :
    (file : Str) (lo hi : ℕ)
    → lo ≤ hi
    → hi ≤ length file
    → slice_bytes file (pos lo) (pos hi) ≡ returns (take (hi - lo) (drop lo file))
unfolding slice_bytes
slice_bytes_exact file lo hi h k = ground arith

slice_bytes_negative : (file : Str) (lo : ℤ) (n : ℕ) → slice_bytes file lo (negsuc n) ≡ panics
unfolding slice_bytes
slice_bytes_negative file (pos lo) n = refl
slice_bytes_negative file (negsuc lo) n = refl

drop_all : (n : ℕ) (file : Str) → length file ≤ n → drop n file ≡ []
drop_all zero [] h = refl
drop_all zero (x ∷ file) h = absurd (omega arith)
drop_all (suc n) [] h = refl
drop_all (suc n) (x ∷ file) h = drop_all n file (omega arith)

take_nil : (n : ℕ) → take {A = ℕ} n [] ≡ []
take_nil zero = refl
take_nil (suc n) = refl

-- The bytes of a file from `off` on, `len` of them at most.
unfoldable pub sub_bytes : Str → ℕ → ℕ → Str
sub_bytes file off len = take len (drop off file)

module _ (file : Str) (off n : ℕ) (in_file : length file < int64_bound) where
  range_of_within :
      off + suc n < int64_bound
      → off + suc n < length file
      → range_of file (pos off) (pos (suc n))
        ≡ returns (some (reader_of (sub_bytes file off (suc n))), none)
  unfolding range_of sub_bytes
  range_of_within fits inside =
      ground (arith, add64_exact off (suc n), slice_bytes_exact file off (off + suc n))

  range_of_past :
      off + suc n < int64_bound
      → length file ≤ off + suc n
      → off ≤ length file
      → range_of file (pos off) (pos (suc n)) ≡ returns (some (reader_of (drop off file)), none)
  unfolding range_of
  range_of_past fits beyond inside = ground (
    arith,
    add64_exact off (suc n),
    sub64_exact (length file) off,
    add64_exact off (length file - off),
    slice_bytes_exact file off (length file),
    take_all (length file - off) (drop off file),
    length-drop off file,
  )

  range_of_beyond :
      length file < off
      → range_of file (pos off) (pos (suc n)) ≡ returns (some (reader_of []), none)
  unfolding range_of
  range_of_beyond past = ground arith

  pub range_of_overflow :
      off ≤ length file
      → off < int64_bound
      → suc n < int64_bound
      → int64_bound ≤ off + suc n
      → range_of file (pos off) (pos (suc n)) ≡ panics
  unfolding range_of
  range_of_overflow inside o l over = ground (
    arith,
    add64_wraps off (suc n),
    slice_bytes_negative file (pos off) (2 * int64_bound - (off + suc n) - 1),
  )

  -- For an offset and a positive length whose sum is an `int64`, GetRange gives the bytes from the
  -- offset on, as many as the length asks for and the file has; past the end it gives none.
  pub range_of_lem :
      off + suc n < int64_bound
      → range_of file (pos off) (pos (suc n))
        ≡ returns (some (reader_of (sub_bytes file off (suc n))), none)
  unfolding sub_bytes
  range_of_lem fits = elim (dec_lt (length file) off) [
    | yes past ↦ range_of_beyond past ∙ rw (drop_all off file (omega arith), take_nil (suc n)) refl
    | no inside ↦ elim (dec_lt (off + suc n) (length file)) [
      | yes h ↦ range_of_within fits h
      | no h ↦
          range_of_past fits (omega arith) (omega arith)
          ∙ rw (take_all (suc n) (drop off file) (omega (arith, length-drop off file))) refl
    ]
  ]
