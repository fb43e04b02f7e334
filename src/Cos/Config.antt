-- ===== src/Cos/Config.antt =====
-- The configuration of the COS bucket: its checks, and the bucket made from it.
use objstore.Prelude.{
  ◌≡◌, refl, Bool, true, false, ◌&&◌, ◌||◌, not, Option, none, some, String, ◌∙◌, [], ◌++◌,
  if◌then◌else◌, codes, arith,
}
use objstore.Prelude.Int.{pos}
use objstore.Text.{Str, str_eq}
use objstore.Errors.{Error, new_error, wrapped}
use objstore.Go.{Fallible}
use objstore.Tls.{TlsFiles}
use objstore.Transport.{HttpConfig, HttpTransport, seconds, default_transport}
use objstore.Cos.Sdk.{Client, CosBucket}

abbrev pub is_empty : Str → Bool
is_empty s = str_eq s []

-- Config
pub record Config (T : Type 0) : Type 0 where
  pub bucket : Str
  pub region : Str
  pub app_id : Str
  pub endpoint : Str
  pub secret_key : Str
  pub secret_id : Str
  pub http_config : HttpConfig T

-- DefaultConfig
abbrev pub default_config : {T : Type 0} → Config T
default_config = record {
  bucket = [];
  region = [];
  app_id = [];
  endpoint = [];
  secret_key = [];
  secret_id = [];
  http_config = record {
    idle_conn_timeout = seconds 90;
    response_header_timeout = seconds 120;
    insecure_skip_verify = false;
    tls_handshake_timeout = seconds 10;
    expect_continue_timeout = seconds 1;
    max_idle_conns = pos 100;
    max_idle_conns_per_host = pos 100;
    max_conns_per_host = pos 0;
    transport = none;
    tls_config = record {
      ca_file = [];
      cert_file = [];
      key_file = [];
      server_name = [];
      insecure_skip_verify = false;
    };
    disable_compression = false;
  };
}

-- the part of the checks for a configuration with an endpoint
abbrev pub endpoint_checked : {T : Type 0} → Config T → Option Error → Option Error
endpoint_checked conf (some e) = some (wrapped "parse endpoint" e)
endpoint_checked conf none =
    if is_empty conf.secret_id || is_empty conf.secret_key
    then some (new_error "secret_id or secret_key is empty")
    else none

-- validate, over the error of url.Parse
unfoldable pub validate : {T : Type 0} → (Str → Option Error) → Config T → Option Error
unfolding str_eq
validate parse_error conf =
    if not (is_empty conf.endpoint)
    then endpoint_checked conf (parse_error conf.endpoint)
    else if is_empty conf.bucket
        || is_empty conf.app_id
        || is_empty conf.region
        || is_empty conf.secret_id
        || is_empty conf.secret_key
    then some (new_error "insufficient cos configuration information")
    else none

-- validateForTest
unfoldable pub validate_for_test : {T : Type 0} → (Str → Option Error) → Config T → Option Error
unfolding str_eq
validate_for_test parse_error conf =
    if not (is_empty conf.endpoint)
    then endpoint_checked conf (parse_error conf.endpoint)
    else if is_empty conf.app_id
        || is_empty conf.region
        || is_empty conf.secret_id
        || is_empty conf.secret_key
    then some (new_error "insufficient cos configuration information")
    else none

abbrev pub parsed : {T : Type 0} → Fallible (Config T) → Fallible (Option (Config T))
parsed (config, some e) = (none, some e)
parsed (config, none) = (some config, none)

-- parseConfig, over what yaml.Unmarshal makes of the defaults; no configuration stands for Config{}
unfoldable pub parse_config :
    {T : Type 0} → (Config T → Fallible (Config T)) → Fallible (Option (Config T))
parse_config unmarshal = parsed (unmarshal default_config)

-- url.Parse and the constructors of the client, for a type `U` of URLs
pub record Constructors (W R U Pool : Type 0) : Type 0 where
  pub parse_url : Str → Fallible U
  pub new_bucket_url : Str → Str → Bool → Fallible U
  pub new_client : U → Option (HttpTransport Pool) → Str → Str → Client W R

-- the error of url.Parse
abbrev pub parse_error : {W R U Pool : Type 0} → Constructors W R U Pool → Str → Option Error
parse_error new s = (new.parse_url s).1

abbrev pub is_none : Option Error → Bool
is_none none = true
is_none (some e) = false

module _ {W R U T Pool Cert : Type 0} (new : Constructors W R U Pool)
    (files : TlsFiles Pool Cert) where
  -- the end of NewBucketWithConfig, which drops the error of DefaultTransport
  abbrev pub made : Config T → String → Fallible U → Fallible (Option (CosBucket W R))
  made config what (url, some e) = (none, some (wrapped what e))
  made config what (url, none) =
      let client =
        new.new_client url (default_transport files config.http_config).0 config.secret_id
          config.secret_key in
      (some (record { client = client; name = config.bucket }), none)

  abbrev pub bucket_url : Config T → Fallible U
  bucket_url config =
      new.new_bucket_url (config.bucket ++ codes "-" ++ config.app_id) config.region true

  abbrev pub validated : Config T → Option Error → Fallible (Option (CosBucket W R))
  validated config (some e) = (none, some (wrapped "validate cos configuration" e))
  validated config none =
      if not (is_empty config.endpoint)
      then made config "parse endpoint" (new.parse_url config.endpoint)
      else made config "create bucket" (bucket_url config)

  -- NewBucketWithConfig
  unfoldable pub new_bucket_with_config : Config T → Fallible (Option (CosBucket W R))
  unfolding validate default_transport
  new_bucket_with_config config = validated config (validate (parse_error new) config)

  abbrev pub with_parsed : Fallible (Option (Config T)) → Fallible (Option (CosBucket W R))
  with_parsed (config, some e) = (none, some (wrapped "parsing cos configuration" e))
  with_parsed (none, none) = (none, none)
  with_parsed (some config, none) = new_bucket_with_config config

  -- NewBucket
  unfoldable pub new_bucket : (Config T → Fallible (Config T)) → Fallible (Option (CosBucket W R))
  unfolding new_bucket_with_config parse_config
  new_bucket unmarshal = with_parsed (parse_config unmarshal)

  -- The configurations that a bucket is made from: with an endpoint that is a URL and both secrets,
  -- or with a bucket, an application and a region that make a URL, and both secrets.
  unfoldable pub is_usable : Config T → Bool
  is_usable config =
      not (is_empty config.secret_id)
      && not (is_empty config.secret_key)
      && (if is_empty config.endpoint
          then not (is_empty config.bucket)
            && not (is_empty config.app_id)
            && not (is_empty config.region)
            && is_none (bucket_url config).1
          else is_none (parse_error new config.endpoint))

  made_lem :
      (config : Config T) (what : String) (u : Fallible U)
      → is_none (made config what u).1 ≡ is_none u.1
  made_lem config what (url, none) = refl
  made_lem config what (url, some e) = refl

  endpoint_lem :
      (config : Config T) (what : String) (u : Fallible U)
      → is_none (endpoint_checked config u.1)
        ≡ (not (is_empty config.secret_id) && not (is_empty config.secret_key) && is_none u.1)
  endpoint_lem config what (url, none) = ground arith
  endpoint_lem config what (url, some e) = ground arith

  validated_lem :
      (config : Config T) (e : Option Error)
      → is_none (validated config e).1 ≡ (
          is_none e
          && (if is_empty config.endpoint
              then is_none (bucket_url config).1
              else is_none (parse_error new config.endpoint)))
  validated_lem config (some e) = refl
  validated_lem config none = ground (
    arith,
    made_lem config "parse endpoint" (new.parse_url config.endpoint),
    made_lem config "create bucket" (bucket_url config),
  )

  -- NewBucketWithConfig returns no error exactly for the usable configurations, whatever their TLS
  -- options are.
  pub new_bucket_usable :
      (config : Config T) → is_none (new_bucket_with_config config).1 ≡ is_usable config
  unfolding new_bucket_with_config is_usable validate
  new_bucket_usable config =
      validated_lem config (validate (parse_error new) config)
      ∙ ground (arith, endpoint_lem config "parse endpoint" (new.parse_url config.endpoint))
