-- ===== src/Tls/Root.antt =====
-- tlsconfig.go: NewTLSConfig. The messages of its errors leave out the texts of their causes.
use objstore.Prelude.{Bool, not, ◌&&◌, Option, none, some, [], if◌then◌else◌}
use objstore.Text.{Str, str_eq}
use objstore.Errors.{Error, errorf}
use objstore.Go.{Fallible}
use objstore.Tls.{TlsOptions, TlsConfig, TlsFiles}

-- `len(s) > 0`
abbrev pub is_set : Str → Bool
is_set s = not (str_eq s [])

module _ {Pool Cert : Type 0} (files : TlsFiles Pool Cert) where
  abbrev pub loaded : Str → Fallible Str → Fallible Str
  loaded f (data_read, none) = (data_read, none)
  loaded f (data_read, some err) = ([], some (errorf "unable to load specified CA cert %s: %s" f))

  -- readCAFile
  unfoldable pub read_ca_file : Str → Fallible Str
  read_ca_file f = loaded f (files.read_file f)

  -- updateRootCA; none is its result false
  unfoldable pub update_root_ca : TlsConfig Pool → Str → Option (TlsConfig Pool)
  update_root_ca cfg b = elim (files.certs_from_pem b) [
    | none ↦ none
    | some pool ↦ some (record cfg { root_cas = some pool })
  ]

  abbrev pub certified : TlsOptions → Fallible Cert → Option Error
  certified c (cert, none) = none
  certified c (cert, some err) =
      some (errorf "unable to use specified client cert (%s) & key (%s): %s" c.cert_file)

  -- the error of getClientCertificate
  unfoldable pub get_client_certificate : TlsOptions → Option Error
  get_client_certificate c = certified c (files.load_x509_key_pair c.cert_file c.key_file)

  abbrev pub updated : TlsOptions → Option (TlsConfig Pool) → Option (TlsConfig Pool) × Option Error
  updated cfg none = (none, some (errorf "unable to use specified CA cert %s" cfg.ca_file))
  updated cfg (some tls) = (some tls, none)

  abbrev pub with_ca_bytes :
      TlsOptions → TlsConfig Pool → Fallible Str → Option (TlsConfig Pool) × Option Error
  with_ca_bytes cfg tls (b, some err) = (none, some err)
  with_ca_bytes cfg tls (b, none) = updated cfg (update_root_ca tls b)

  -- the CA certificate
  unfoldable pub with_ca : TlsOptions → TlsConfig Pool → Option (TlsConfig Pool) × Option Error
  unfolding read_ca_file update_root_ca str_eq
  with_ca cfg tls =
      if is_set cfg.ca_file
      then with_ca_bytes cfg tls (read_ca_file cfg.ca_file)
      else (some tls, none)

  abbrev pub with_pair :
      TlsOptions → TlsConfig Pool → Option Error → Option (TlsConfig Pool) × Option Error
  with_pair cfg tls (some err) = (none, some err)
  with_pair cfg tls none = (some (record tls { client_certificate = some cfg }), none)

  -- the client's certificate and key
  unfoldable pub with_client : TlsOptions → TlsConfig Pool → Option (TlsConfig Pool) × Option Error
  unfolding get_client_certificate str_eq
  with_client cfg tls =
      if is_set cfg.cert_file && not (is_set cfg.key_file)
      then (
        none,
        some (errorf "client cert file %q specified without client key file" cfg.cert_file),
      )
      else if is_set cfg.key_file && not (is_set cfg.cert_file)
      then (
        none,
        some (errorf "client key file %q specified without client cert file" cfg.key_file),
      )
      else if is_set cfg.cert_file && is_set cfg.key_file
      then with_pair cfg tls (get_client_certificate cfg)
      else (some tls, none)

  unfoldable pub with_server_name : TlsOptions → TlsConfig Pool → TlsConfig Pool
  unfolding str_eq
  with_server_name cfg tls =
      if is_set cfg.server_name then record tls { server_name = cfg.server_name } else tls

  abbrev pub after_ca :
      TlsOptions → Option (TlsConfig Pool) × Option Error → Option (TlsConfig Pool) × Option Error
  after_ca cfg (none, err) = (none, err)
  after_ca cfg (some tls, err) = with_client cfg (with_server_name cfg tls)

  -- NewTLSConfig
  unfoldable pub new_tls_config : TlsOptions → Option (TlsConfig Pool) × Option Error
  unfolding with_ca with_client with_server_name
  new_tls_config cfg = after_ca cfg (
      with_ca cfg (record {
        insecure_skip_verify = cfg.insecure_skip_verify;
        root_cas = none;
        server_name = [];
        client_certificate = none;
      }))
