-- ===== src/Examples/FactoryCases.antt =====
-- The theorem on the factory with the bucket in memory.
use objstore.Prelude.{◌≡◌, ◌↔◌, none, some, codes}
use objstore.Text.{Str}
use objstore.Errors.{new_error}
use objstore.Go.{Fallible}
use objstore.Reader.{Reader}
use objstore.Bucket.{Bucket}
use objstore.Inmem.Instance.{in_mem_bucket}
use objstore.Prefixed.{new_prefixed_bucket}
use objstore.Factory.{BucketConfig, Constructors, new_bucket}
use objstore.Factory.Names.{Made, new_bucket-Made}
use objstore.Examples.World.{World, errors_pkg, place}

abbrev base : Bucket World Reader
base = in_mem_bucket place errors_pkg

-- the provider S3 makes the bucket in memory, the others fail
abbrev fails : Str → Fallible (Bucket World Reader)
fails config = (base, some (new_error "no client"))

abbrev packages : Constructors World Reader
packages = record {
  gcs_new_bucket = fails;
  s3_new_bucket = λ config. (base, none);
  azure_new_bucket = fails;
  swift_new_container = fails;
  cos_new_bucket = fails;
  oss_new_bucket = fails;
  filesystem_new_bucket_from_config = fails;
  bos_new_bucket = fails;
  oci_new_bucket = fails;
  obs_new_bucket = fails;
}

abbrev conf : BucketConfig Str
conf = record { provider = codes "s3"; config = codes "endpoint: x"; prefix = codes "team" }

abbrev marshal : Str → Fallible Str
marshal config = (config, none)

abbrev prefixed : Bucket World Reader
prefixed = new_prefixed_bucket base (codes "team")

new_bucket-Made_example :
    (new_bucket packages marshal (conf, none) ≡ (some prefixed, none))
    ↔ Made packages marshal (conf, none) prefixed
new_bucket-Made_example = new_bucket-Made packages marshal (conf, none) prefixed
