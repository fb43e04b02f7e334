-- ===== src/Bos/Sdk.antt =====
-- The BOS client as the bucket uses it, and the bucket's state.
use objstore.Prelude.{ℕ, Option, List}
use objstore.Prelude.Int.{ℤ}
use objstore.Text.{Str}
use objstore.Errors.{Error}
use objstore.Go.{Go, Fallible}
use objstore.Reader.{Stream}
use objstore.Cos.Sdk.{Page, ListOptions}

-- what the code reads of a GetObjectMetaResult
pub record ObjectMeta : Type 0 where
  pub content_length : ℤ
  pub last_modified : Str

-- The client, with the bodies `R` of responses and `B` of requests. A body is made from a reader and
-- a size, which reads a number of bytes. Pages of a listing have their keys and prefixes.
pub record Client (W R B : Type 0) : Type 0 where
  pub new_body_from_sized_reader : Stream → ℤ → Fallible B × ℕ
  pub put_object : Str → Str → B → Go W (Option Error)
  pub initiate_multipart_upload : Str → Str → Go W (Fallible Str)
  pub upload_part : Str → Str → Str → ℤ → B → Go W (Fallible Str)
  pub abort_multipart_upload : Str → Str → Str → Go W (Option Error)
  pub complete_multipart_upload : Str → Str → Str → List (ℤ × Str) → Go W (Option Error)
  pub delete_object : Str → Str → Go W (Option Error)
  pub list_objects : Str → ListOptions → Go W (Fallible Page)
  pub get_object : Str → Str → List ℤ → Go W (Fallible (Option R))
  pub get_object_meta : Str → Str → Go W (Fallible ObjectMeta)
  -- the type switch to *bce.BceServiceError: its status and its code
  pub error_response : Error → Option (ℕ × Str)

-- Bucket, without the logger
pub record BosBucket (W R B : Type 0) : Type 0 where
  pub client : Client W R B
  pub name : Str
