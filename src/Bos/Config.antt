-- ===== src/Bos/Config.antt =====
-- The configuration of the BOS bucket: its checks, and the bucket made from it.
use objstore.Prelude.{Bool, ◌||◌, Option, none, some, [], ◌++◌, if◌then◌else◌, codes}
use objstore.Text.{Str, str_eq}
use objstore.Errors.{Error, new_error, wrapped}
use objstore.Go.{Fallible}
use objstore.Bos.Sdk.{Client, BosBucket}

-- Config
pub record Config : Type 0 where
  pub bucket : Str
  pub endpoint : Str
  pub access_key : Str
  pub secret_key : Str

abbrev pub is_empty : Str → Bool
is_empty s = str_eq s []

unfoldable pub validate : Config → Option Error
unfolding str_eq
validate conf =
    if is_empty conf.bucket
      || is_empty conf.endpoint
      || is_empty conf.access_key
      || is_empty conf.secret_key
    then some (new_error "insufficient BOS configuration information")
    else none

abbrev pub parsed : Fallible Config → Fallible (Option Config)
parsed (config, some e) = (none, some e)
parsed (config, none) = (some config, none)

-- parseConfig, over what yaml.Unmarshal makes of Config{}; no configuration stands for Config{}
unfoldable pub parse_config : (Config → Fallible Config) → Fallible (Option Config)
parse_config unmarshal =
    parsed (unmarshal (record { bucket = []; endpoint = []; access_key = []; secret_key = [] }))

-- bos.NewClient, for keys and an endpoint, and the agent that is set in its configuration
abbrev pub NewClient : Type 0 → Type 0 → Type 0 → Type 0
NewClient W R B = Str → Str → Str → Str → Fallible (Client W R B)

module _ {W R B : Type 0} (new_client : NewClient W R B) where
  abbrev pub made : Config → Fallible (Client W R B) → Fallible (Option (BosBucket W R B))
  made config (client, some e) = (none, some (wrapped "creating BOS client" e))
  made config (client, none) = (some (record { client = client; name = config.bucket }), none)

  abbrev pub validated : Config → Str → Option Error → Fallible (Option (BosBucket W R B))
  validated config component (some e) = (none, some (wrapped "validating BOS configuration" e))
  validated config component none = made config (
      new_client config.access_key config.secret_key config.endpoint (codes "thanos-" ++ component))

  -- NewBucketWithConfig
  unfoldable pub new_bucket_with_config : Config → Str → Fallible (Option (BosBucket W R B))
  unfolding validate
  new_bucket_with_config config component = validated config component (validate config)

  abbrev pub with_parsed : Str → Fallible (Option Config) → Fallible (Option (BosBucket W R B))
  with_parsed component (config, some e) = (none, some (wrapped "parsing BOS configuration" e))
  with_parsed component (none, none) = (none, none)
  with_parsed component (some config, none) = new_bucket_with_config config component

  -- NewBucket
  unfoldable pub new_bucket : (Config → Fallible Config) → Str → Fallible (Option (BosBucket W R B))
  unfolding new_bucket_with_config parse_config
  new_bucket unmarshal component = with_parsed component (parse_config unmarshal)
