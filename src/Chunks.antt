-- ===== src/Chunks.antt =====
-- The multi-part uploads of the providers cos, bos and oss: full parts in a loop, the rest behind it,
-- and the end of the upload, over what one part and the end are.
pub mod Pieces
pub mod Sending
use objstore.Prelude.{
  ℕ, zero, suc, ◌+◌, ◌/◌, ◌%◌, drop, ◌≡◌, Bool, true, false, Option, none, some, List, [], ◌∷◌,
  ◌++◌, if◌then◌else◌,
}
use objstore.Prelude.Int.{ℤ, pos, negsuc, eqb_ℤ, add64}
use objstore.Text.{Str}
use objstore.Errors.{Error}
use objstore.Go.{Go, Fallible, pure, ◌>>=◌}
use objstore.Reader.{Stream}

-- `int(math.Floor(float64(size) / partSize))`, which is exact below 2 ^ 53
abbrev pub part_nums : ℕ → ℤ → ℤ
part_nums size (pos n) = pos (n / size)
part_nums size (negsuc n) = negsuc (n / size)

-- `size % partSize`, with the sign of the size
abbrev pub negative : ℕ → ℤ
negative zero = pos 0
negative (suc n) = negsuc n

abbrev pub last_slice : ℕ → ℤ → ℤ
last_slice size (pos n) = pos (n % size)
last_slice size (negsuc n) = negative ((n + 1) % size)

-- the reader once `n` of its bytes are read
abbrev pub after : ℕ → Stream → Stream
after n s = record { bytes = drop n s.bytes; read_err = s.read_err }

-- the reader below the parts of an upload
abbrev pub stream_of : Str × Option Error → Stream
stream_of (bytes, err) = record { bytes = bytes; read_err = err }

-- One part of a size and with a number, which leaves the rest of the reader; the end of the upload;
-- and what the errors of the parts are wrapped in.
pub record Calls (W P : Type 0) : Type 0 where
  pub send : ℤ → ℤ → Stream → Go W (Fallible P × Stream)
  pub complete : List P → Go W (Option Error)
  pub part_error : Error → Error
  pub last_error : Error → Error

module _ {W P : Type 0} (calls : Calls W P) where
  abbrev pub appended :
      (Error → Error)
      → List P
      → (Stream → List P → Go W (Option Error))
      → Fallible P × Stream
      → Go W (Option Error)
  appended wrap parts rest ((p, some e), r) = pure (some (wrap e))
  appended wrap parts rest ((p, none), r) = rest r (parts ++ p ∷ [])

  -- the part behind the loop
  unfoldable pub send_last : ℤ → ℤ → Stream → List P → Go W (Option Error)
  send_last last nums r parts =
      if eqb_ℤ last (pos 0)
      then calls.complete parts
      else calls.send last (add64 nums (pos 1)) r
        >>= appended calls.last_error parts (λ r'. calls.complete)

  -- the loop over the parts, of which `n` are left, from the number `part` on
  unfoldable pub send_parts : ℕ → ℕ → ℕ → ℤ → ℤ → Stream → List P → Go W (Option Error)
  unfolding send_last
  send_parts full zero part last nums r parts = send_last last nums r parts
  send_parts full (suc n) part last nums r parts =
      calls.send (pos full) (pos part) r
      >>= appended calls.part_error parts (send_parts full n (part + 1) last nums)
