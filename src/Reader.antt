-- ===== src/Reader.antt =====
-- objstore.go: TryToGetSize and NopCloserWithSize, over the dynamic types of an io.Reader.
use objstore.Prelude.{ℕ, Option, none, some, length}
use objstore.Prelude.Int.{ℤ, pos}
use objstore.Text.{Str}
use objstore.Errors.{Error, new_error, wrapped}
use objstore.Go.{Fallible}

-- What reading yields: the bytes, then the end of the stream (`none`) or an error.
pub record Stream : Type 0 where
  pub bytes : Str
  pub read_err : Option Error

-- The dynamic types that TryToGetSize tells apart.
pub data Reader : Type 0 where
  -- *os.File with the result of its Stat
  os_file : Fallible ℤ → Stream → Reader
  -- *bytes.Buffer and *bytes.Reader, with the unread bytes
  bytes_buffer bytes_reader : Str → Reader
  -- *strings.Reader, with its whole size and the unread bytes
  strings_reader : ℕ → Str → Reader
  -- any other type with a method ObjectSize
  object_sizer : Fallible ℤ → Stream → Reader
  -- nopCloserWithObjectSize
  nop_closer_with_size : Reader → Reader
  -- the value that io.NopCloser returns, which has no method ObjectSize
  nop_closer : Reader → Reader
  -- any other reader
  plain : Stream → Reader

unfoldable pub try_to_get_size : Reader → Fallible ℤ
try_to_get_size (os_file (size, none) s) = (size, none)
try_to_get_size (os_file (size, some e) s) = (pos 0, some (wrapped "os.File.Stat()" e))
try_to_get_size (bytes_buffer unread) = (pos (length unread), none)
try_to_get_size (bytes_reader unread) = (pos (length unread), none)
try_to_get_size (strings_reader size unread) = (pos size, none)
try_to_get_size (object_sizer result s) = result
try_to_get_size (nop_closer_with_size r) = try_to_get_size r
try_to_get_size (nop_closer r) = (pos 0, some (new_error "unsupported type of io.Reader"))
try_to_get_size (plain s) = (pos 0, some (new_error "unsupported type of io.Reader"))

-- io.ReadAll
unfoldable pub read_all : Reader → Str × Option Error
read_all (os_file _ s) = (s.bytes, s.read_err)
read_all (bytes_buffer unread) = (unread, none)
read_all (bytes_reader unread) = (unread, none)
read_all (strings_reader _ unread) = (unread, none)
read_all (object_sizer _ s) = (s.bytes, s.read_err)
read_all (nop_closer_with_size r) = read_all r
read_all (nop_closer r) = read_all r
read_all (plain s) = (s.bytes, s.read_err)

-- NopCloserWithSize
unfoldable pub nop_closer_with_object_size : Reader → Reader
nop_closer_with_object_size r = nop_closer_with_size r
