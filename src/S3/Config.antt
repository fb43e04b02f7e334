-- ===== src/S3/Config.antt =====
-- The configuration of the S3 bucket and its checks.
use objstore.Prelude.{
  ℕ, ◌≡◌, Bool, true, ◌&&◌, ◌||◌, not, Option, none, some, List, [], if◌then◌else◌, codes, ◌↔◌,
  arith,
}
use objstore.Text.{Str, str_eq}
use objstore.Errors.{Error, new_error}

-- SSEConfig
pub record SseConfig : Type 0 where
  pub sse_type : Str
  pub kms_key_id : Str
  pub kms_encryption_context : List (Str × Str)
  pub encryption_key : Str

-- BucketLookupType
pub data BucketLookupType : Type 0 where
  auto_lookup virtual_host_lookup path_lookup : BucketLookupType

-- Config, with a type `H` of exthttp.HTTPConfig; TraceConfig has the one field `enable`.
pub record Config (H : Type 0) : Type 0 where
  pub bucket : Str
  pub endpoint : Str
  pub region : Str
  pub aws_sdk_auth : Bool
  pub access_key : Str
  pub insecure : Bool
  pub signature_v2 : Bool
  pub secret_key : Str
  pub session_token : Str
  pub put_user_metadata : List (Str × Str)
  pub http_config : H
  pub trace_enable : Bool
  pub list_objects_version : Str
  pub bucket_lookup_type : BucketLookupType
  pub part_size : ℕ
  pub sse_config : SseConfig
  pub sts_endpoint : Str

abbrev sse_kms : Str
sse_kms = codes "SSE-KMS"

abbrev sse_c : Str
sse_c = codes "SSE-C"

abbrev pub is_empty : Str → Bool
is_empty s = str_eq s []

unfoldable pub validate : {H : Type 0} → Config H → Option Error
unfolding str_eq
validate conf =
    if is_empty conf.endpoint
    then some (new_error "no s3 endpoint in config file")
    else if conf.aws_sdk_auth && not (is_empty conf.access_key)
    then some (new_error "aws_sdk_auth and access_key are mutually exclusive configurations")
    else if is_empty conf.access_key && not (is_empty conf.secret_key)
    then some (
        new_error
          "no s3 access_key specified while secret_key is present in config file; either both should be present in config or envvars/IAM should be used.")
    else if not (is_empty conf.access_key) && is_empty conf.secret_key
    then some (
        new_error
          "no s3 secret_key specified while access_key is present in config file; either both should be present in config or envvars/IAM should be used.")
    else if str_eq conf.sse_config.sse_type sse_c && is_empty conf.sse_config.encryption_key
    then some (new_error "encryption_key must be set if sse_config.type is set to 'SSE-C'")
    else if str_eq conf.sse_config.sse_type sse_kms && is_empty conf.sse_config.kms_key_id
    then some (new_error "kms_key_id must be set if sse_config.type is set to 'SSE-KMS'")
    else none

-- ValidateForTests
unfoldable pub validate_for_tests : {H : Type 0} → Config H → Option Error
unfolding str_eq
validate_for_tests conf =
    if is_empty conf.endpoint || is_empty conf.access_key || is_empty conf.secret_key
    then some (new_error "insufficient s3 test configuration information")
    else none

-- The configurations that the checks mean to accept: there is an endpoint, both keys or none are
-- set, none if the AWS SDK finds the credentials, and an encryption has the key that it needs.
unfoldable pub is_usable : {H : Type 0} → Config H → Bool
is_usable conf =
    not (is_empty conf.endpoint)
    && not (conf.aws_sdk_auth && not (is_empty conf.access_key))
    && ((is_empty conf.access_key && is_empty conf.secret_key)
        || (not (is_empty conf.access_key) && not (is_empty conf.secret_key)))
    && (not (str_eq conf.sse_config.sse_type sse_c)
        || not (is_empty conf.sse_config.encryption_key))
    && (not (str_eq conf.sse_config.sse_type sse_kms) || not (is_empty conf.sse_config.kms_key_id))

-- The checks pass exactly for the usable configurations. Those for tests pass exactly if there are
-- an endpoint and both keys.
pub validate_usable :
    {H : Type 0} (conf : Config H)
    → ((validate conf ≡ none) ↔ (is_usable conf ≡ true))
      × ((validate_for_tests conf ≡ none) ↔ (
          (not (is_empty conf.endpoint)
            && not (is_empty conf.access_key)
            && not (is_empty conf.secret_key))
          ≡ true))
unfolding validate is_usable validate_for_tests
validate_usable conf =
    ((λ h. ground arith, λ h. ground arith), (λ h. ground arith, λ h. ground arith))
