-- ===== src/Transport/Checks.antt =====
-- When DefaultTransport gives a transport.
use objstore.Prelude.{
  ◌≡◌, refl, sym, Bool, true, false, not, Option, none, some, if◌then◌else◌, ap, ◌∙◌, inl, inr, ◌⊎◌,
}
use objstore.Prelude.Int.{pos}
use objstore.Errors.{Error}
use objstore.Tls.{TlsConfig, TlsFiles}
use objstore.Tls.Exthttp.{new_tls_config}
use objstore.Tls.Checks.{is_some, is_acceptable, meant, new_tls_config_lem}
use objstore.Tls.Copies.{tls_copies_agree}
use objstore.Transport.{HttpConfig, HttpTransport, transport_of, with_tls, default_transport}

-- What a transport has of an HTTP configuration and of the TLS configuration that its options stand
-- for, field by field; durations are in nanoseconds.
abbrev pub Settings :
    {T Pool : Type 0} → HttpConfig T → TlsConfig Pool → HttpTransport Pool → Type 0
Settings config tls t =
    (t.max_idle_conns ≡ config.max_idle_conns)
    × (t.max_idle_conns_per_host ≡ config.max_idle_conns_per_host)
    × (t.max_conns_per_host ≡ config.max_conns_per_host)
    × (t.idle_conn_timeout ≡ config.idle_conn_timeout)
    × (t.tls_handshake_timeout ≡ config.tls_handshake_timeout)
    × (t.expect_continue_timeout ≡ config.expect_continue_timeout)
    × (t.response_header_timeout ≡ config.response_header_timeout)
    × (t.dialer.timeout ≡ pos 30000000000)
    × (t.dialer.keep_alive ≡ pos 30000000000)
    × (t.tls_client_config.insecure_skip_verify ≡ config.insecure_skip_verify)
    × (t.tls_client_config.root_cas ≡ tls.root_cas)
    × (t.tls_client_config.server_name ≡ tls.server_name)
    × (t.tls_client_config.client_certificate ≡ tls.client_certificate)
    × (t.disable_compression ≡ false)

transport_of-Settings :
    {T Pool : Type 0} (config : HttpConfig T) (tls : TlsConfig Pool)
    → Settings config tls (transport_of config tls)
transport_of-Settings config tls =
    (refl, refl, refl, refl, refl, refl, refl, refl, refl, refl, refl, refl, refl, refl)

-- a transport with its settings and no error, or an error and no transport
abbrev pub Answer :
    {T Pool : Type 0}
    → HttpConfig T
    → TlsConfig Pool
    → Bool
    → Option (HttpTransport Pool) × Option Error
    → Type 0
Answer {T} {Pool} config tls fine r =
    (fine ≡ true) × ((t : HttpTransport Pool) × (r ≡ (some t, none)) × Settings config tls t)
    ⊎ (fine ≡ false) × ((e : Error) × (r ≡ (none, some e)))

from_tls :
    {T Pool : Type 0} (config : HttpConfig T) (r : Option (TlsConfig Pool) × Option Error)
    (fine : Bool) (tls : TlsConfig Pool)
    → is_some r.1 ≡ not fine
    → r.0 ≡ (if fine then some tls else none)
    → Answer config tls fine (with_tls config r)
from_tls config (o, some e) true tls h k = cc
from_tls config (o, some e) false tls h k = inr (refl, (e, refl))
from_tls config (o, none) false tls h k = cc
from_tls config (some t, none) true tls h k =
    let e : t ≡ tls = cc k in
    inl (
      refl,
      (
        transport_of config tls,
        ap (λ x. (some (transport_of config x), none)) e,
        transport_of-Settings config tls,
      ),
    )
from_tls config (none, none) true tls h k = cc

-- If the TLS options are acceptable, DefaultTransport returns no error and a transport that has the
-- limits and timeouts of the configuration each in its place, the CAs, the server name and the
-- client's certificate that the options stand for, and of InsecureSkipVerify the value of the HTTP
-- configuration, whatever the TLS options say. Else it returns an error and no transport.
pub default_transport_lem :
    {T Pool Cert : Type 0} (files : TlsFiles Pool Cert) (config : HttpConfig T)
    → Answer config
        (meant files config.tls_config)
        (is_acceptable files config.tls_config)
        (default_transport files config)
unfolding default_transport
default_transport_lem files config =
    let same = tls_copies_agree files config.tls_config in
    let (e, v) = new_tls_config_lem files config.tls_config in
    from_tls config (new_tls_config files config.tls_config) (is_acceptable files config.tls_config)
      (meant files config.tls_config) (ap (λ r. is_some r.1) (sym same) ∙ e)
      (ap (λ r. r.0) (sym same) ∙ v)
