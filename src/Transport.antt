-- ===== src/Transport.antt =====
-- exthttp/transport.go: HTTPConfig and DefaultTransport.
pub mod Checks
use objstore.Prelude.{ℕ, ◌*◌, Bool, true, false, Option, none, some, []}
use objstore.Prelude.Int.{ℤ, pos}
use objstore.Errors.{Error}
use objstore.Tls.{TlsOptions, TlsConfig, TlsFiles}
use objstore.Tls.Exthttp.{new_tls_config}

-- time.Second in nanoseconds
abbrev pub seconds : ℕ → ℤ
seconds n = pos (n * 1000000000)

-- HTTPConfig, with durations in nanoseconds and a type `T` of http.RoundTripper
pub record HttpConfig (T : Type 0) : Type 0 where
  pub idle_conn_timeout : ℤ
  pub response_header_timeout : ℤ
  pub insecure_skip_verify : Bool
  pub tls_handshake_timeout : ℤ
  pub expect_continue_timeout : ℤ
  pub max_idle_conns : ℤ
  pub max_idle_conns_per_host : ℤ
  pub max_conns_per_host : ℤ
  pub transport : Option T
  pub tls_config : TlsOptions
  pub disable_compression : Bool

-- net.Dialer, as far as it is set
pub record Dialer : Type 0 where
  pub timeout : ℤ
  pub keep_alive : ℤ
  pub dual_stack : Bool

-- http.Transport, as far as it is set, and DisableCompression, which the code leaves unset
pub record HttpTransport (Pool : Type 0) : Type 0 where
  pub proxy_from_environment : Bool
  pub dialer : Dialer
  pub max_idle_conns : ℤ
  pub max_idle_conns_per_host : ℤ
  pub idle_conn_timeout : ℤ
  pub max_conns_per_host : ℤ
  pub tls_handshake_timeout : ℤ
  pub expect_continue_timeout : ℤ
  pub response_header_timeout : ℤ
  pub tls_client_config : TlsConfig Pool
  pub disable_compression : Bool

-- the transport of DefaultTransport, over the TLS configuration
abbrev pub transport_of : {T Pool : Type 0} → HttpConfig T → TlsConfig Pool → HttpTransport Pool
transport_of config tls_config = record {
  proxy_from_environment = true;
  dialer = record { timeout = seconds 30; keep_alive = seconds 30; dual_stack = true };
  max_idle_conns = config.max_idle_conns;
  max_idle_conns_per_host = config.max_idle_conns_per_host;
  idle_conn_timeout = config.idle_conn_timeout;
  max_conns_per_host = config.max_conns_per_host;
  tls_handshake_timeout = config.tls_handshake_timeout;
  expect_continue_timeout = config.expect_continue_timeout;
  response_header_timeout = config.response_header_timeout;
  tls_client_config = record tls_config { insecure_skip_verify = config.insecure_skip_verify };
  disable_compression = false;
}

-- the rest of DefaultTransport; NewTLSConfig returns no nil beside no error
abbrev pub with_tls :
    {T Pool : Type 0}
    → HttpConfig T
    → Option (TlsConfig Pool) × Option Error
    → Option (HttpTransport Pool) × Option Error
with_tls config (tls, some err) = (none, some err)
with_tls config (none, none) = (none, none)
with_tls config (some tls, none) = (some (transport_of config tls), none)

-- DefaultTransport
unfoldable pub default_transport :
    {T Pool Cert : Type 0}
    → TlsFiles Pool Cert
    → HttpConfig T
    → Option (HttpTransport Pool) × Option Error
unfolding new_tls_config
default_transport files config = with_tls config (new_tls_config files config.tls_config)
