-- ===== src/Headers.antt =====
-- clientutil/parse.go and exthttp/parse.go: the two copies of the functions that parse the headers
-- of a response.
pub mod Clientutil
pub mod Exthttp
pub mod Laws
use objstore.Prelude.{ℕ, List, codes}
use objstore.Text.{Str}
use objstore.Go.{Fallible}
use objstore.Dict.{Dict}

-- http.Header
abbrev pub Header : Type 0
Header = Dict (List Str)

-- time.Parse, from a layout and a text to a time or an error, is a parameter.
abbrev pub TimeParse : Type 0
TimeParse = Str → Str → Fallible ℕ

-- time.RFC3339
abbrev pub rfc3339 : Str
rfc3339 = codes "2006-01-02T15:04:05Z07:00"
