-- ===== src/ReadCloser.antt =====
-- objstore.go: the readers that Get and GetRange return, as wrappers around them use them.
use objstore.Prelude.{ℕ, Option, none, some}
use objstore.Prelude.Int.{ℤ, pos}
use objstore.Errors.{Error, new_error}
use objstore.Go.{Go, Fallible}

-- The interface io.ReadCloser of a type `R`, with what TryToGetSize finds out about its values. A
-- method returns the changed value.
pub record ReadClosers (W R : Type 0) : Type 0 where
  pub size : R → Fallible ℤ
  pub read : ℕ → R → Go W (ℕ × Option Error × R)
  pub close : R → Go W (Option Error × R)

-- TryToGetSize of a nil reader finds no type that it supports
unfoldable pub size_of : {W R : Type 0} → ReadClosers W R → Option R → Fallible ℤ
size_of rcs none = (pos 0, some (new_error "unsupported type of io.Reader"))
size_of rcs (some rc) = rcs.size rc

-- One use of a reader by its owner.
pub data Use : Type 0 where
  reads : ℕ → Use
  closes : Use
