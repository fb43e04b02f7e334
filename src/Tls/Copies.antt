-- ===== src/Tls/Copies.antt =====
-- The two copies of NewTLSConfig agree.
use objstore.Prelude.{◌≡◌, refl}
use objstore.Tls.{TlsOptions, TlsFiles}
use objstore.Tls.Root
use objstore.Tls.Exthttp

-- The packages objstore and exthttp make the same of every TLS options and files, errors included.
pub tls_copies_agree :
    {Pool Cert : Type 0} (files : TlsFiles Pool Cert) (cfg : TlsOptions)
    → Root.new_tls_config files cfg ≡ Exthttp.new_tls_config files cfg
unfolding Root.new_tls_config Root.with_ca Root.with_client Root.with_server_name Root.read_ca_file
    Root.update_root_ca Root.get_client_certificate Exthttp.new_tls_config Exthttp.with_ca
    Exthttp.with_client Exthttp.with_server_name Exthttp.read_ca_file Exthttp.update_root_ca
    Exthttp.get_client_certificate
tls_copies_agree files cfg = refl
