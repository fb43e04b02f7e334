-- ===== src/Oss/Config.antt =====
-- The configuration of the OSS bucket: its checks, and the bucket made from it.
use objstore.Prelude.{Bool, ◌||◌, Option, none, some, [], if◌then◌else◌}
use objstore.Text.{Str, str_eq}
use objstore.Errors.{Error, new_error, wrapped}
use objstore.Go.{Fallible}
use objstore.Oss.Sdk.{Config, Client, OssBucket}

abbrev pub is_empty : Str → Bool
is_empty s = str_eq s []

unfoldable pub validate : Config → Option Error
unfolding str_eq
validate config =
    if is_empty config.endpoint || is_empty config.bucket
    then some (new_error "aliyun oss endpoint or bucket is not present in config file")
    else if is_empty config.access_key_id || is_empty config.access_key_secret
    then some
        (new_error "aliyun oss access_key_id or access_key_secret is not present in config file")
    else none

-- alioss.New of an endpoint and keys, and the bucket that a client has under a name
pub record Constructors (W R I P C : Type 0) : Type 0 where
  pub new : Str → Str → Str → Fallible C
  pub bucket : C → Str → Fallible (Client W R I P)

module _ {W R I P C : Type 0} (sdk : Constructors W R I P C) where
  abbrev pub used : Config → Fallible (Client W R I P) → Fallible (Option (OssBucket W R I P))
  used config (bk, some e) = (none, some (wrapped "use aliyun oss bucket failed" e))
  used config (bk, none) =
      (some (record { name = config.bucket; config = config; bucket = bk }), none)

  abbrev pub created : Config → Fallible C → Fallible (Option (OssBucket W R I P))
  created config (client, some e) = (none, some (wrapped "create aliyun oss client failed" e))
  created config (client, none) = used config (sdk.bucket client config.bucket)

  abbrev pub validated : Config → Option Error → Fallible (Option (OssBucket W R I P))
  validated config (some e) = (none, some e)
  validated config none =
      created config (sdk.new config.endpoint config.access_key_id config.access_key_secret)

  -- NewBucketWithConfig
  unfoldable pub new_bucket_with_config : Config → Fallible (Option (OssBucket W R I P))
  unfolding validate
  new_bucket_with_config config = validated config (validate config)

  -- NewBucket, over what yaml.Unmarshal makes of the text
  unfoldable pub new_bucket : Fallible Config → Fallible (Option (OssBucket W R I P))
  unfolding new_bucket_with_config
  new_bucket (config, some e) = (none, some (wrapped "parse aliyun oss config file failed" e))
  new_bucket (config, none) = new_bucket_with_config config
