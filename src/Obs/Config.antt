-- ===== src/Obs/Config.antt =====
-- The configuration of the OBS bucket: its checks, and the bucket made from it.
use objstore.Prelude.{Bool, false, ◌&&◌, not, Option, none, some, [], if◌then◌else◌}
use objstore.Prelude.Int.{pos}
use objstore.Text.{Str, str_eq}
use objstore.Errors.{Error, new_error, wrapped}
use objstore.Go.{Fallible}
use objstore.Tls.{TlsFiles}
use objstore.Transport.{HttpConfig, HttpTransport, seconds, default_transport}
use objstore.Obs.Sdk.{Client, ObsBucket}

-- Config
pub record Config (T : Type 0) : Type 0 where
  pub bucket : Str
  pub endpoint : Str
  pub access_key : Str
  pub secret_key : Str
  pub http_config : HttpConfig T

-- DefaultConfig
abbrev pub default_config : {T : Type 0} → Config T
default_config = record {
  bucket = [];
  endpoint = [];
  access_key = [];
  secret_key = [];
  http_config = record {
    idle_conn_timeout = seconds 90;
    response_header_timeout = seconds 120;
    insecure_skip_verify = false;
    tls_handshake_timeout = seconds 10;
    expect_continue_timeout = seconds 1;
    max_idle_conns = pos 100;
    max_idle_conns_per_host = pos 100;
    max_conns_per_host = pos 0;
    transport = none;
    tls_config = record {
      ca_file = [];
      cert_file = [];
      key_file = [];
      server_name = [];
      insecure_skip_verify = false;
    };
    disable_compression = false;
  };
}

abbrev pub is_empty : Str → Bool
is_empty s = str_eq s []

unfoldable pub validate : {T : Type 0} → Config T → Option Error
unfolding str_eq
validate conf =
    if is_empty conf.endpoint
    then some (new_error "no obs endpoint in config file")
    else if is_empty conf.access_key && not (is_empty conf.secret_key)
    then some (new_error "no obs access_key specified")
    else if not (is_empty conf.access_key) && is_empty conf.secret_key
    then some (new_error "no obs secret_key specified")
    else if is_empty conf.access_key && is_empty conf.secret_key
    then some (new_error "no obs secret_key and access_key specified")
    else none

abbrev pub parsed : {T : Type 0} → Fallible (Config T) → Fallible (Option (Config T))
parsed (config, some e) = (none, some e)
parsed (config, none) = (some config, none)

-- parseConfig, over what yaml.UnmarshalStrict makes of the defaults
unfoldable pub parse_config :
    {T : Type 0} → (Config T → Fallible (Config T)) → Fallible (Option (Config T))
parse_config unmarshal = parsed (unmarshal default_config)

-- obs.New, of keys, an endpoint and a transport
abbrev pub NewClient : Type 0 → Type 0 → Type 0 → Type 0
NewClient W R Pool = Str → Str → Str → Option (HttpTransport Pool) → Fallible (Client W R)

module _ {T W R Pool Cert : Type 0} (new : NewClient W R Pool) (files : TlsFiles Pool Cert) where
  abbrev pub made : Config T → Fallible (Client W R) → Fallible (Option (ObsBucket W R))
  made config (client, some e) = (none, some (wrapped "initialize obs client err" e))
  made config (client, none) = (some (record { client = client; name = config.bucket }), none)

  abbrev pub transported :
      Config T → Option (HttpTransport Pool) × Option Error → Fallible (Option (ObsBucket W R))
  transported config (rt, some e) = (none, some (wrapped "get http transport err" e))
  transported config (rt, none) =
      made config (new config.access_key config.secret_key config.endpoint rt)

  abbrev pub validated : Config T → Option Error → Fallible (Option (ObsBucket W R))
  unfolding default_transport
  validated config (some e) = (none, some (wrapped "validate obs config err" e))
  validated config none = transported config (default_transport files config.http_config)

  -- NewBucketWithConfig
  unfoldable pub new_bucket_with_config : Config T → Fallible (Option (ObsBucket W R))
  unfolding validate
  new_bucket_with_config config = validated config (validate config)

  abbrev pub with_parsed : Fallible (Option (Config T)) → Fallible (Option (ObsBucket W R))
  with_parsed (config, some e) = (none, some (wrapped "parsing cos configuration" e))
  with_parsed (none, none) = (none, none)
  with_parsed (some config, none) = new_bucket_with_config config

  -- NewBucket
  unfoldable pub new_bucket : (Config T → Fallible (Config T)) → Fallible (Option (ObsBucket W R))
  unfolding new_bucket_with_config parse_config
  new_bucket unmarshal = with_parsed (parse_config unmarshal)
