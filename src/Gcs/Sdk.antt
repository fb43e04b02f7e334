-- ===== src/Gcs/Sdk.antt =====
-- The handle of a bucket of Google's storage as the bucket uses it, and the bucket's state.
use objstore.Prelude.{ℕ, Bool, Option}
use objstore.Prelude.Int.{ℤ}
use objstore.Text.{Str}
use objstore.Errors.{Error}
use objstore.Go.{Go, Ctx, Fallible}
use objstore.Reader.{Reader}

-- Config
pub record Config : Type 0 where
  pub bucket : Str
  pub service_account : Str

-- what the code reads of storage.ObjectAttrs
pub record ObjectAttrs : Type 0 where
  pub prefix : Str
  pub name : Str
  pub size : ℤ
  pub updated : ℕ

-- storage.BucketHandle, with the bodies `R`, the iterators `I` of listings and the writers `V` of
-- objects. An iterator and a writer change with a call. `copy` is io.Copy to a writer.
pub record BucketHandle (W R I V : Type 0) : Type 0 where
  pub objects : Ctx W → Str → Str → I
  pub next : I → Go W (Fallible ObjectAttrs × I)
  pub new_reader : Ctx W → Str → Go W (Fallible (Option R))
  pub new_range_reader : Ctx W → Str → ℤ → ℤ → Go W (Fallible (Option R))
  pub attrs : Ctx W → Str → Go W (Fallible ObjectAttrs)
  pub new_writer : Ctx W → Str → V
  pub copy : V → Reader → Go W (Option Error × V)
  pub close_writer : V → Go W (Option Error)
  pub delete : Ctx W → Str → Go W (Option Error)
  -- comparisons with iterator.Done and storage.ErrObjectNotExist, and errors.Is of the latter
  pub is_done : Error → Bool
  pub equals_not_exist : Error → Bool
  pub is_not_exist : Error → Bool

-- Bucket, without the logger
pub record GcsBucket (W R I V : Type 0) : Type 0 where
  pub bkt : BucketHandle W R I V
  pub name : Str
  pub close_client : Go W (Option Error)
