-- ===== src/S3/Minio.antt =====
-- The minio client as the S3 bucket uses it, the bucket's state, and constants of the package.
use objstore.Prelude.{ℕ, Bool, Option, List, codes}
use objstore.Prelude.Int.{ℤ}
use objstore.Text.{Str}
use objstore.Errors.{Error}
use objstore.Go.{Go, Ctx, Fallible}
use objstore.Reader.{Reader}
use objstore.Bucket.{ObjectAttributes}

-- minio.ObjectInfo of a listing
pub record ObjectInfo : Type 0 where
  pub key : Str
  pub err : Option Error

-- minio.ListObjectsOptions
pub record ListOptions : Type 0 where
  pub prefix : Str
  pub recursive : Bool
  pub use_v1 : Bool

-- minio.GetObjectOptions, with the range header, and minio.PutObjectOptions
pub record GetOptions (S : Type 0) : Type 0 where
  pub server_side_encryption : Option S
  pub range : Option Str

pub record PutOptions (S : Type 0) : Type 0 where
  pub part_size : ℕ
  pub server_side_encryption : Option S
  pub user_metadata : List (Str × Str)
  pub storage_class : Str
  pub num_threads : ℕ

-- The minio client with encryptions of a type `S`. ListObjects sends all objects of its listing; the
-- code of an error is that of ToErrorResponse.
pub record Client (W R S : Type 0) : Type 0 where
  pub list_objects : Ctx W → Str → ListOptions → W → List ObjectInfo
  pub set_range : ℤ → ℤ → Fallible Str
  pub get_object : Ctx W → Str → Str → GetOptions S → Go W (Fallible (Option R))
  pub stat_object : Ctx W → Str → Str → Go W (Fallible ObjectAttributes)
  pub put_object : Ctx W → Str → Str → Reader → ℤ → PutOptions S → Go W (Option Error)
  pub remove_object : Ctx W → Str → Str → Go W (Option Error)
  pub error_code : Error → Str
  pub error_message : Error → Str
  -- the type assertion of a value of a context to encrypt.ServerSide
  pub as_server_side : ℕ → Option S

-- Bucket, without the logger
pub record S3Bucket (W R S : Type 0) : Type 0 where
  pub name : Str
  pub client : Client W R S
  pub default_sse : Option S
  pub put_user_metadata : List (Str × Str)
  pub storage_class : Str
  pub part_size : ℕ
  pub list_objects_v1 : Bool

-- ctxKey(0)
abbrev pub sse_config_key : ℕ
sse_config_key = 0

abbrev pub amz_kms_key_access_denied_error_message : Str
amz_kms_key_access_denied_error_message =
    codes
      "The ciphertext refers to a customer master key that does not exist, does not exist in this region, or you are not allowed to access."
