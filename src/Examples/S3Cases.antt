-- ===== src/Examples/S3Cases.antt =====
-- The theorems on the S3 bucket with a small client.
use objstore.Prelude.{ℕ, ◌+◌, ◌≡◌, refl, false, none, some, List, [], ◌∷◌, codes, arith}
use objstore.Prelude.Int.{pos}
use objstore.Errors.{foreign}
use objstore.Go.{returns}
use objstore.Reader.{Reader, bytes_reader, try_to_get_size}
use objstore.Bucket.{Callback, zero_attributes}
use objstore.Inmem.Iter.{unless_error, each}
use objstore.S3.{ObjectInfo, Client, S3Bucket, iter, list_prefix, upload, context_with_sse_config}
use objstore.S3.Config.{Config, auto_lookup}
use objstore.S3.Listing.{keys_of, end_of, iter_sent}
use objstore.S3.Uploads.{plan, put_planned, upload_planned}
use objstore.Examples.World.{World, errors_pkg, background, world, finished}

abbrev listing : List ObjectInfo
listing =
    record { key = codes "team/"; err = none }
    ∷ record { key = codes "team/b"; err = none }
    ∷ record { key = []; err = some (foreign "reset") }
    ∷ []

abbrev client : Client World Reader ℕ
client = record {
  list_objects = λ ctx bucket opts w. listing;
  set_range = λ start end. (codes "bytes=", none);
  get_object = λ ctx bucket name opts w. returns ((some (bytes_reader name), none), w);
  stat_object = λ ctx bucket name w. returns ((zero_attributes, none), w);
  put_object = λ ctx bucket name r size opts w.
      returns (none, record w { clock = w.clock + opts.part_size });
  remove_object = λ ctx bucket name w. returns (none, w);
  error_code = λ e. codes "NoSuchKey";
  error_message = λ e. [];
  as_server_side = λ value. some value;
}

abbrev bucket : S3Bucket World Reader ℕ
bucket = record {
  name = codes "data";
  client = client;
  default_sse = none;
  put_user_metadata = [];
  storage_class = [];
  part_size = 4;
  list_objects_v1 = false;
}

abbrev ticking : Callback World
ticking key w = returns (none, record w { clock = w.clock + 1 })

iter_sent_example :
    iter errors_pkg finished bucket background (codes "team") ticking [] world
    ≡ unless_error
        (each ticking (keys_of (list_prefix (codes "team")) listing) world)
        (λ v. returns (end_of background listing v, v))
iter_sent_example = iter_sent errors_pkg finished bucket background (codes "team") ticking [] world

upload_planned_example :
    upload errors_pkg finished bucket
      (context_with_sse_config background 9)
      (codes "x")
      (bytes_reader (codes "hello"))
      world
    ≡ put_planned errors_pkg finished bucket
        (context_with_sse_config background 9)
        (codes "x")
        (bytes_reader (codes "hello"))
        (some 9)
        (pos 5, 4)
        world
unfolding plan try_to_get_size
upload_planned_example =
    upload_planned errors_pkg finished bucket background (codes "x") (bytes_reader (codes "hello"))
      9 9 world (omega arith) refl

abbrev conf : Config ℕ
conf = record {
  bucket = codes "data";
  endpoint = codes "s3.example.com";
  region = [];
  aws_sdk_auth = false;
  access_key = codes "id";
  insecure = false;
  signature_v2 = false;
  secret_key = codes "key";
  session_token = [];
  put_user_metadata = [];
  http_config = 0;
  trace_enable = false;
  list_objects_version = [];
  bucket_lookup_type = auto_lookup;
  part_size = 67108864;
  sse_config = record {
    sse_type = codes "SSE-S3";
    kms_key_id = [];
    kms_encryption_context = [];
    encryption_key = [];
  };
  sts_endpoint = [];
}
