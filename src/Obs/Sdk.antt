-- ===== src/Obs/Sdk.antt =====
-- The client of Huawei's object store as the bucket uses it, and the bucket's state.
use objstore.Prelude.{ℕ, Option, List}
use objstore.Prelude.Int.{ℤ}
use objstore.Text.{Str}
use objstore.Errors.{Error}
use objstore.Go.{Go, Fallible}
use objstore.Reader.{Reader, Stream}
use objstore.Cos.Sdk.{Page, ListOptions}

-- UploadPartInput, with the reader below the body
pub record UploadPartInput : Type 0 where
  pub upload_id : Str
  pub body : Stream
  pub part_number : ℤ
  pub part_size : ℤ
  pub offset : ℤ

-- Part
pub record Part : Type 0 where
  pub part_number : ℤ
  pub etag : Str

-- The client, with the bodies `R` of responses. Its requests name the bucket and a key; UploadPart
-- reads a number of bytes of the body; the metadata are a length and a time.
pub record Client (W R : Type 0) : Type 0 where
  pub delete_object : Str → Str → Go W (Option Error)
  pub put_object : Str → Str → Reader → Go W (Option Error)
  pub initiate_multipart_upload : Str → Str → Go W (Fallible Str)
  pub upload_part : Str → Str → UploadPartInput → Go W (Fallible Part × ℕ)
  pub abort_multipart_upload : Str → Str → Str → Go W (Option Error)
  pub complete_multipart_upload : Str → Str → Str → List Part → Go W (Option Error)
  pub list_objects : Str → ListOptions → Go W (Fallible Page)
  pub get_object : Str → Str → ℤ → ℤ → Go W (Fallible (Option R))
  pub get_object_metadata : Str → Str → Go W (Fallible (ℤ × ℕ))
  -- the assertion to obs.ObsError: its status
  pub error_status : Error → Option Str

-- Bucket, without the logger
pub record ObsBucket (W R : Type 0) : Type 0 where
  pub client : Client W R
  pub name : Str
