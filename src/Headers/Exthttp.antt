-- ===== src/Headers/Exthttp.antt =====
-- exthttp/parse.go: ParseContentLength and ParseLastModified.
use objstore.Prelude.{ℕ, none, some, [], ◌∷◌, codes, if◌then◌else◌}
use objstore.Prelude.Int.{ℤ, pos}
use objstore.Text.{Str, str_eq}
use objstore.Text.Decimal.{parse_int}
use objstore.Dict.{lookup}
use objstore.Errors.{errorf, wrapped}
use objstore.Go.{Fallible}
use objstore.Headers.{Header, TimeParse, rfc3339}

-- ContentLengthHeader and LastModifiedHeader
abbrev pub content_length_header : Str
content_length_header = codes "Content-Length"

abbrev pub last_modified_header : Str
last_modified_header = codes "Last-Modified"

-- the end of ParseContentLength
abbrev pub converted : Fallible ℤ → Fallible ℤ
converted (ret, none) = (ret, none)
converted (ret, some e) = (pos 0, some (wrapped "convert Content-Length" e))

unfoldable pub parse_content_length : Header → Fallible ℤ
unfolding lookup parse_int
parse_content_length m = elim (lookup content_length_header m) [
  | none ↦ (pos 0, some (errorf "%s header not found" content_length_header))
  | some [] ↦ (pos 0, some (errorf "%s header has no values" content_length_header))
  | some (v ∷ vs) ↦ converted (parse_int v)
]

-- the end of ParseLastModified; the time 0 stands for time.Time{}
abbrev pub parsed : Fallible ℕ → Fallible ℕ
parsed (time, none) = (time, none)
parsed (time, some e) = (0, some (wrapped "parse Last-Modified" e))

unfoldable pub parse_last_modified : TimeParse → Header → Str → Fallible ℕ
unfolding lookup str_eq
parse_last_modified parse m f = elim (lookup last_modified_header m) [
  | none ↦ (0, some (errorf "%s header not found" last_modified_header))
  | some [] ↦ (0, some (errorf "%s header has no values" last_modified_header))
  | some (v ∷ vs) ↦ parsed (parse (if str_eq f [] then rfc3339 else f) v)
]
