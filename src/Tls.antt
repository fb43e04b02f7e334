-- ===== src/Tls.antt =====
-- tlsconfig.go and exthttp/tlsconfig.go: the two copies of NewTLSConfig. The files and the packages
-- that read certificates are parameters.
pub mod Root
pub mod Exthttp
pub mod Checks
pub mod Copies
use objstore.Prelude.{Bool, Option}
use objstore.Text.{Str}
use objstore.Errors.{Error}
use objstore.Go.{Fallible}

-- TLSConfig
pub record TlsOptions : Type 0 where
  pub ca_file : Str
  pub cert_file : Str
  pub key_file : Str
  pub server_name : Str
  pub insecure_skip_verify : Bool

-- tls.Config, as far as it is set; GetClientCertificate is the method of the options that it holds
pub record TlsConfig (Pool : Type 0) : Type 0 where
  pub insecure_skip_verify : Bool
  pub root_cas : Option Pool
  pub server_name : Str
  pub client_certificate : Option TlsOptions

-- os.ReadFile, CertPool.AppendCertsFromPEM on a new pool, and tls.LoadX509KeyPair
pub record TlsFiles (Pool Cert : Type 0) : Type 0 where
  pub read_file : Str → Fallible Str
  pub certs_from_pem : Str → Option Pool
  pub load_x509_key_pair : Str → Str → Fallible Cert
