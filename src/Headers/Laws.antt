-- ===== src/Headers/Laws.antt =====
-- What the two copies of ParseContentLength and ParseLastModified return.
use objstore.Prelude.{
  ◌<◌, ℕ, ◌≡◌, ◌≢◌, refl, true, Option, none, some, List, [], ◌∷◌, codes, ltb, if◌then◌else◌,
  Bool-cases, inl, inr,
}
use objstore.Prelude.Int.{ℤ, pos, int64_bound}
use objstore.Text.{Str, str_eq}
use objstore.Text.Decimal.{
  parse_int, parse_int_digits, parse_int-decimal, decimal, number_from, all_digits, err_range,
}
use objstore.Dict.{lookup}
use objstore.Errors.{wrapped}
use objstore.Go.{Fallible}
use objstore.Headers.{Header, TimeParse, rfc3339}
use objstore.Headers.Clientutil
use objstore.Headers.Exthttp

-- ParseContentLength of a header whose first value is made of decimal digits is the number that
-- they stand for if that is an int64, however many leading zeros it has. If it is none, the length
-- is 0 beside the range error of ParseInt, wrapped.
pub content_length_digits :
    (m : Header) (v : Str) (vs : List Str)
    → lookup (codes "Content-Length") m ≡ some (v ∷ vs)
    → v ≢ []
    → all_digits v ≡ true
    → Clientutil.parse_content_length m ≡ (
        if ltb (number_from 0 v) int64_bound
        then (pos (number_from 0 v), none)
        else (pos 0, some (wrapped "convert Content-Length" err_range)))
unfolding Clientutil.parse_content_length
content_length_digits m v vs h ne d = elim (Bool-cases (ltb (number_from 0 v) int64_bound)) [
  | inl x ↦ rw (h, Clientutil.parse_content_length) (rw (parse_int_digits v ne d, x) refl)
  | inr x ↦ rw (h, Clientutil.parse_content_length) (rw (parse_int_digits v ne d, x) refl)
]

-- ParseContentLength of the digits that fmt prints for an int64 that is not negative is that number.
pub content_length-decimal :
    (m : Header) (n : ℕ) (vs : List Str)
    → lookup (codes "Content-Length") m ≡ some (decimal n ∷ vs)
    → n < int64_bound
    → Clientutil.parse_content_length m ≡ (pos n, none)
unfolding Clientutil.parse_content_length
content_length-decimal m n vs h small =
    rw (h, Clientutil.parse_content_length) (rw (parse_int-decimal n small) refl)

converted_alike : (r : Fallible ℤ) → Clientutil.converted r ≡ Exthttp.converted r
converted_alike (ret, none) = refl
converted_alike (ret, some e) = refl

parsed_alike : (r : Fallible ℕ) → Clientutil.parsed r ≡ Exthttp.parsed r
parsed_alike (time, none) = refl
parsed_alike (time, some e) = refl

length_alike :
    (m : Header) (values : Option (List Str))
    → lookup (codes "Content-Length") m ≡ values
    → Clientutil.parse_content_length m ≡ Exthttp.parse_content_length m
unfolding Clientutil.parse_content_length Exthttp.parse_content_length
length_alike m none h = rw (h, Clientutil.parse_content_length, Exthttp.parse_content_length) refl
length_alike m (some []) h =
    rw (h, Clientutil.parse_content_length, Exthttp.parse_content_length) refl
length_alike m (some (v ∷ vs)) h =
    rw (h, Clientutil.parse_content_length, Exthttp.parse_content_length)
      (converted_alike (parse_int v))

modified_alike :
    (parse : TimeParse) (m : Header) (f : Str) (values : Option (List Str))
    → lookup (codes "Last-Modified") m ≡ values
    → Clientutil.parse_last_modified parse m f ≡ Exthttp.parse_last_modified parse m f
unfolding Clientutil.parse_last_modified Exthttp.parse_last_modified
modified_alike parse m f none h =
    rw (h, Clientutil.parse_last_modified, Exthttp.parse_last_modified) refl
modified_alike parse m f (some []) h =
    rw (h, Clientutil.parse_last_modified, Exthttp.parse_last_modified) refl
modified_alike parse m f (some (v ∷ vs)) h =
    rw (h, Clientutil.parse_last_modified, Exthttp.parse_last_modified)
      (parsed_alike (parse (if str_eq f [] then rfc3339 else f) v))

-- Packages clientutil and exthttp parse both headers of every response alike, errors included,
-- whatever time.Parse does.
pub copies_agree :
    (parse : TimeParse) (m : Header) (format : Str)
    → (Clientutil.parse_content_length m ≡ Exthttp.parse_content_length m)
      × (Clientutil.parse_last_modified parse m format ≡ Exthttp.parse_last_modified parse m format)
copies_agree parse m format = (
  length_alike m (lookup (codes "Content-Length") m) refl,
  modified_alike parse m format (lookup (codes "Last-Modified") m) refl,
)
