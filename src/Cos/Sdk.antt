-- ===== src/Cos/Sdk.antt =====
-- The COS client as the bucket uses it, and the bucket's state.
use objstore.Prelude.{ℕ, Bool, Option, List}
use objstore.Prelude.Int.{ℤ}
use objstore.Text.{Str}
use objstore.Errors.{Error}
use objstore.Go.{Go, Ctx, Fallible}
use objstore.Reader.{Reader, Stream}
use objstore.Headers.{Header}

-- cos.BucketGetOptions
pub record ListOptions : Type 0 where
  pub prefix : Str
  pub max_keys : ℕ
  pub marker : Str
  pub delimiter : Str

-- cos.BucketGetResult: the keys of Contents, and what else the code reads
pub record Page : Type 0 where
  pub contents : List Str
  pub common_prefixes : List Str
  pub is_truncated : Bool
  pub next_marker : Str

-- fixedLengthReader: what io.LimitReader leaves of the reader below it, and the size
pub record FixedLengthReader : Type 0 where
  pub limited : Stream
  pub size : ℤ

-- an entry of CompleteMultipartUploadOptions
pub record Part : Type 0 where
  pub number : ℤ
  pub etag : Str

-- The client, with the bodies `R` of responses. UploadPart also says how many bytes it reads. While
-- a listing lasts, the service answers a request for a page with the same page.
pub record Client (W R : Type 0) : Type 0 where
  pub head : Ctx W → Str → Go W (Fallible Header)
  pub put : Ctx W → Str → Reader → Go W (Option Error)
  pub initiate_multipart_upload : Ctx W → Str → Go W (Fallible Str)
  pub upload_part : Ctx W → Str → Str → ℤ → FixedLengthReader → ℤ → Go W (Fallible Str × ℕ)
  pub abort_multipart_upload : Ctx W → Str → Str → Go W (Option Error)
  pub complete_multipart_upload : Ctx W → Str → Str → List Part → Go W (Option Error)
  pub delete : Ctx W → Str → Go W (Option Error)
  -- Get of an object with a Range header, with the body and the length of its content
  pub get : Ctx W → Str → Option Str → Go W (Fallible (Option (R × ℤ)))
  pub list : Ctx W → ListOptions → Fallible Page
  -- how many objects the goroutine of a listing sends before it finds the context done, if it does
  pub sends_until_done : Ctx W → Option ℕ
  -- the type switch to *cos.ErrorResponse: its code, and the status of a response that it has
  pub error_response : Error → Option (Str × Option ℕ)

-- Bucket, without the logger
pub record CosBucket (W R : Type 0) : Type 0 where
  pub client : Client W R
  pub name : Str
