-- ===== src/Oss/Sdk.antt =====
-- The client of Aliyun's object store as the bucket uses it, and the bucket's state.
use objstore.Prelude.{ℕ, Bool, Option, List}
use objstore.Prelude.Int.{ℤ}
use objstore.Text.{Str}
use objstore.Errors.{Error}
use objstore.Go.{Go, Fallible}
use objstore.Reader.{Reader, Stream}
use objstore.Headers.{Header}
use objstore.Cos.Sdk.{Page}

-- Config
pub record Config : Type 0 where
  pub endpoint : Str
  pub bucket : Str
  pub access_key_id : Str
  pub access_key_secret : Str

-- the options of a ListObjects; no delimiter stands for nil
pub record ListOptions : Type 0 where
  pub prefix : Str
  pub delimiter : Option Str
  pub marker : Str

-- alioss.Bucket, with the bodies `R` of responses, the uploads `I` that are initiated and the
-- entries `P` of parts. UploadPart takes the reader, a size and a number, and reads a number of
-- bytes. GetObject takes the range, if there is one.
pub record Client (W R I P : Type 0) : Type 0 where
  pub put_object : Str → Reader → Go W (Option Error)
  pub initiate_multipart_upload : Str → Go W (Fallible I)
  pub upload_part : I → Stream → ℤ → ℤ → Go W (Fallible P × ℕ)
  pub abort_multipart_upload : I → Go W (Option Error)
  pub complete_multipart_upload : I → List P → Go W (Option Error)
  pub delete_object : Str → Go W (Option Error)
  pub get_object_meta : Str → Go W (Fallible Header)
  pub list_objects : ListOptions → Go W (Fallible Page)
  pub get_object : Str → Option (ℤ × ℤ) → Go W (Fallible (Option R))
  pub is_object_exist : Str → Go W (Fallible Bool)
  -- the type switch to alioss.ServiceError: its status
  pub error_status : Error → Option ℕ

-- Bucket, without the logger and the client, which only the helpers of tests use
pub record OssBucket (W R I P : Type 0) : Type 0 where
  pub name : Str
  pub config : Config
  pub bucket : Client W R I P
