-- ===== src/Examples/TlsCases.antt =====
-- The theorems on NewTLSConfig with files of a small world.
use objstore.Prelude.{ℕ, ◌≡◌, false, not, none, some, [], codes, if◌then◌else◌}
use objstore.Text.{str_eq}
use objstore.Errors.{foreign}
use objstore.Tls.{TlsOptions, TlsFiles}
use objstore.Tls.Root
use objstore.Tls.Checks.{is_some, is_acceptable, meant, new_tls_config_lem}

-- one CA file with one certificate, and no pair that loads
abbrev pub files : TlsFiles ℕ ℕ
files = record {
  read_file = λ f.
      if str_eq f (codes "ca.pem")
      then (codes "cert", none)
      else ([], some (foreign "no such file"));
  certs_from_pem = λ b. some 1;
  load_x509_key_pair = λ c k. (0, some (foreign "no such file"));
}

abbrev options : TlsOptions
options = record {
  ca_file = codes "ca.pem";
  cert_file = codes "client.pem";
  key_file = codes "client.key";
  server_name = [];
  insecure_skip_verify = false;
}

new_tls_config_lem_example :
    (is_some (Root.new_tls_config files options).1 ≡ not (is_acceptable files options))
    × ((Root.new_tls_config files options).0
        ≡ (if is_acceptable files options then some (meant files options) else none))
new_tls_config_lem_example = new_tls_config_lem files options
