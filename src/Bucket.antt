-- ===== src/Bucket.antt =====
-- objstore.go: the interface Bucket (with BucketReader), over the world `W` of the program and the
-- type `R` of the readers that Get returns.
pub mod Request
use objstore.Prelude.{ℕ, Bool, Option, List}
use objstore.Prelude.Int.{ℤ}
use objstore.Text.{Str}
use objstore.Errors.{Error}
use objstore.Go.{Go, Ctx, Fallible}
use objstore.Reader.{Reader}
use objstore.Options.{IterOption}

pub record ObjectAttributes : Type 0 where
  pub size : ℤ
  pub last_modified : ℕ

-- ObjectAttributes{}
abbrev pub zero_attributes : ObjectAttributes
zero_attributes = record { size = ℤ.pos 0; last_modified = 0 }

-- The callback of Iter.
abbrev pub Callback : Type 0 → Type 0
Callback W = Str → Go W (Option Error)

pub record Bucket (W R : Type 0) : Type 0 where
  pub iter : Ctx W → Str → Callback W → List IterOption → Go W (Option Error)
  pub get : Ctx W → Str → Go W (Fallible (Option R))
  pub get_range : Ctx W → Str → ℤ → ℤ → Go W (Fallible (Option R))
  pub has_object : Ctx W → Str → Go W (Fallible Bool)
  pub is_obj_not_found_err : Error → Bool
  pub is_customer_managed_key_error : Error → Bool
  pub attributes : Ctx W → Str → Go W (Fallible ObjectAttributes)
  pub upload : Ctx W → Str → Reader → Go W (Option Error)
  pub delete : Ctx W → Str → Go W (Option Error)
  pub name : Go W Str
  pub close : Go W (Option Error)
