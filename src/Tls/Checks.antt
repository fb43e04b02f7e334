-- ===== src/Tls/Checks.antt =====
-- Which TLS options NewTLSConfig accepts, and what it makes of them.
use objstore.Prelude.{
  ◌≡◌, refl, sym, ap, Bool, true, false, not, ◌&&◌, Option, none, some, [], if◌then◌else◌,
  Bool-cases, inl, inr, ◌∙◌, subst,
}
use objstore.Text.{Str, str_eq}
use objstore.Text.Laws.{str_eq_sound}
use objstore.Errors.{Error}
use objstore.Go.{Fallible}
use objstore.Tls.{TlsOptions, TlsConfig, TlsFiles}
use objstore.Tls.Root.{
  is_set, with_ca, with_client, with_server_name, read_ca_file, update_root_ca,
  get_client_certificate, new_tls_config, with_pair, certified, with_ca_bytes, loaded, after_ca,
}

abbrev pub is_some : {A : Type 0} → Option A → Bool
is_some none = false
is_some (some a) = true

module _ {Pool Cert : Type 0} (files : TlsFiles Pool Cert) (cfg : TlsOptions) where
  -- the certificates of a CA file, if it can be read and has some
  abbrev pool_of : Fallible Str → Option Pool
  pool_of (b, none) = files.certs_from_pem b
  pool_of (b, some err) = none

  abbrev is_loaded : Fallible Cert → Bool
  is_loaded (cert, none) = true
  is_loaded (cert, some err) = false

  unfoldable pub ca_pool : Option Pool
  ca_pool = pool_of (files.read_file cfg.ca_file)

  unfoldable pub has_pair : Bool
  has_pair = is_loaded (files.load_x509_key_pair cfg.cert_file cfg.key_file)

  -- The options that can be used: the CA file has certificates if one is named, and a certificate
  -- and a key of the client are both named and load, or neither is.
  unfoldable pub is_acceptable : Bool
  is_acceptable =
      (if is_set cfg.ca_file then is_some ca_pool else true)
      && (if is_set cfg.cert_file
          then is_set cfg.key_file && has_pair
          else not (is_set cfg.key_file))

  -- the configuration that they stand for
  unfoldable pub meant : TlsConfig Pool
  meant = record {
    insecure_skip_verify = cfg.insecure_skip_verify;
    root_cas = if is_set cfg.ca_file then ca_pool else none;
    server_name = cfg.server_name;
    client_certificate = if is_set cfg.cert_file then some cfg else none;
  }

  abbrev start : TlsConfig Pool
  start = record {
    insecure_skip_verify = cfg.insecure_skip_verify;
    root_cas = none;
    server_name = [];
    client_certificate = none;
  }

  -- what a step leaves: a configuration and no error, or an error
  abbrev Result : Bool → TlsConfig Pool → Option (TlsConfig Pool) × Option Error → Type 0
  Result ok tls (out, err) = (is_some err ≡ not ok) × (out ≡ (if ok then some tls else none))

  server_named :
      (tls : TlsConfig Pool)
      → tls.server_name ≡ []
      → with_server_name files cfg tls ≡ record tls { server_name = cfg.server_name }
  unfolding with_server_name
  server_named tls h = elim (Bool-cases (str_eq cfg.server_name [])) [
    | inr x ↦ rw x refl
    | inl x ↦
        rw x (λ i. record tls { server_name = (h ∙ sym (str_eq_sound cfg.server_name [] x)) i })
  ]

  pair_lem :
      (tls : TlsConfig Pool) (x : Fallible Cert)
      → Result
          (is_loaded x)
          (record tls { client_certificate = some cfg })
          (with_pair files cfg tls (certified files cfg x))
  pair_lem tls (cert, none) = (refl, refl)
  pair_lem tls (cert, some err) = (refl, refl)

  abbrev client_ok : Bool
  client_ok =
      if is_set cfg.cert_file then is_set cfg.key_file && has_pair else not (is_set cfg.key_file)

  client_lem :
      (tls : TlsConfig Pool)
      → tls.client_certificate ≡ none
      → Result client_ok
          (record tls { client_certificate = if is_set cfg.cert_file then some cfg else none })
          (with_client files cfg tls)
  unfolding with_client get_client_certificate has_pair
  client_lem tls h = elim (Bool-cases (str_eq cfg.cert_file [])) [
    | inl c ↦ elim (Bool-cases (str_eq cfg.key_file [])) [
      | inl k ↦ rw (c, k) (refl, ap some (λ i. record tls { client_certificate = h i }))
      | inr k ↦ rw (c, k) (refl, refl)
    ]
    | inr c ↦ elim (Bool-cases (str_eq cfg.key_file [])) [
      | inl k ↦ rw (c, k) (refl, refl)
      | inr k ↦ rw (c, k) (pair_lem tls (files.load_x509_key_pair cfg.cert_file cfg.key_file))
    ]
  ]

  bytes_lem :
      (b : Str) (o : Option Pool)
      → files.certs_from_pem b ≡ o
      → Result (is_some o) (record start { root_cas = o }) (with_ca_bytes files cfg start (b, none))
  unfolding update_root_ca
  bytes_lem b none h = rw (h, update_root_ca) (refl, refl)
  bytes_lem b (some pool) h = rw (h, update_root_ca) (refl, refl)

  read_lem :
      (x : Fallible Str)
      → Result
          (is_some (pool_of x))
          (record start { root_cas = pool_of x })
          (with_ca_bytes files cfg start (loaded files cfg.ca_file x))
  read_lem (b, some err) = (refl, refl)
  read_lem (b, none) = bytes_lem b (files.certs_from_pem b) refl

  abbrev ca_ok : Bool
  ca_ok = if is_set cfg.ca_file then is_some ca_pool else true

  abbrev ca_set : TlsConfig Pool
  ca_set = record start { root_cas = if is_set cfg.ca_file then ca_pool else none }

  ca_lem : Result ca_ok ca_set (with_ca files cfg start)
  unfolding with_ca read_ca_file ca_pool
  ca_lem = elim (Bool-cases (str_eq cfg.ca_file [])) [
    | inl c ↦ rw c (refl, refl)
    | inr c ↦ rw c (read_lem (files.read_file cfg.ca_file))
  ]

  after_failure :
      (x : Option (TlsConfig Pool) × Option Error) (tls : TlsConfig Pool)
      → Result false tls x
      → (is_some (after_ca files cfg x).1 ≡ true) × ((after_ca files cfg x).0 ≡ none)
  after_failure (none, some e) tls (p, q) = (refl, refl)
  after_failure (none, none) tls (p, q) = cc
  after_failure (some t, e) tls (p, q) = cc

  after_success :
      (x : Option (TlsConfig Pool) × Option Error) (tls : TlsConfig Pool)
      → Result true tls x
      → after_ca files cfg x ≡ with_client files cfg (with_server_name files cfg tls)
  after_success (none, e) tls (p, q) = cc
  after_success (some t, e) tls (p, q) = cc

  -- NewTLSConfig returns an error exactly for the options that are not acceptable. Else it returns
  -- the configuration that they stand for, and none beside an error.
  pub new_tls_config_lem :
      (is_some (new_tls_config files cfg).1 ≡ not is_acceptable)
      × ((new_tls_config files cfg).0 ≡ (if is_acceptable then some meant else none))
  unfolding new_tls_config is_acceptable meant
  new_tls_config_lem = elim (Bool-cases ca_ok) [
    | inr x ↦ rw x (
        after_failure (with_ca files cfg start) ca_set
          (subst (λ k. Result k ca_set (with_ca files cfg start)) x ca_lem))
    | inl x ↦
        let done =
          after_success (with_ca files cfg start) ca_set
            (subst (λ k. Result k ca_set (with_ca files cfg start)) x ca_lem) in
        rw (x, done, server_named ca_set refl)
          (client_lem (record ca_set { server_name = cfg.server_name }) refl)
  ]
