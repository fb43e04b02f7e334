-- ===== src/Headers/Clientutil.antt =====
-- clientutil/parse.go: ParseContentLength and ParseLastModified.
use objstore.Prelude.{ℕ, none, some, [], ◌∷◌, codes, if◌then◌else◌}
use objstore.Prelude.Int.{ℤ, pos}
use objstore.Text.{Str, str_eq}
use objstore.Text.Decimal.{parse_int}
use objstore.Dict.{lookup}
use objstore.Errors.{errorf, wrapped}
use objstore.Go.{Fallible}
use objstore.Headers.{Header, TimeParse, rfc3339}

-- the end of ParseContentLength
abbrev pub converted : Fallible ℤ → Fallible ℤ
converted (ret, none) = (ret, none)
converted (ret, some e) = (pos 0, some (wrapped "convert Content-Length" e))

unfoldable pub parse_content_length : Header → Fallible ℤ
unfolding lookup parse_int
parse_content_length m = elim (lookup (codes "Content-Length") m) [
  | none ↦ (pos 0, some (errorf "%s header not found" (codes "Content-Length")))
  | some [] ↦ (pos 0, some (errorf "%s header has no values" (codes "Content-Length")))
  | some (v ∷ vs) ↦ converted (parse_int v)
]

-- the end of ParseLastModified; the time 0 stands for time.Time{}
abbrev pub parsed : Fallible ℕ → Fallible ℕ
parsed (time, none) = (time, none)
parsed (time, some e) = (0, some (wrapped "parse Last-Modified" e))

unfoldable pub parse_last_modified : TimeParse → Header → Str → Fallible ℕ
unfolding lookup str_eq
parse_last_modified parse m f = elim (lookup (codes "Last-Modified") m) [
  | none ↦ (0, some (errorf "%s header not found" (codes "Last-Modified")))
  | some [] ↦ (0, some (errorf "%s header has no values" (codes "Last-Modified")))
  | some (v ∷ vs) ↦ parsed (parse (if str_eq f [] then rfc3339 else f) v)
]
