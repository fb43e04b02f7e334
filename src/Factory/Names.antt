-- ===== src/Factory/Names.antt =====
-- The switch of NewBucket: which type of a configuration makes which provider's bucket.
use objstore.Prelude.{
  ◌≡◌, refl, sym, ◌∙◌, ◌↔◌, Option, none, some, ap, subst, codes, if◌then◌else◌, inl, inr, ◌⊎◌,
  Bool-cases,
}
use objstore.Text.{Str, str_eq}
use objstore.Text.Laws.{str_eq_sound}
use objstore.Errors.{errorf}
use objstore.Go.{Fallible}
use objstore.Bucket.{Bucket}
use objstore.Prefixed.{new_prefixed_bucket}
use objstore.Factory.{BucketConfig, Constructors, created, chosen, marshalled, new_bucket, to_upper}

-- The providers, with the type that a configuration has for each and the constructor that it calls.
pub data Provider : Type 0 where
  google : Provider
  amazon : Provider
  microsoft : Provider
  openstack : Provider
  tencent : Provider
  alibaba : Provider
  local : Provider
  baidu : Provider
  oracle : Provider
  huawei : Provider

abbrev pub spelled : Provider → Str
spelled google = codes "GCS"
spelled amazon = codes "S3"
spelled microsoft = codes "AZURE"
spelled openstack = codes "SWIFT"
spelled tencent = codes "COS"
spelled alibaba = codes "ALIYUNOSS"
spelled local = codes "FILESYSTEM"
spelled baidu = codes "BOS"
spelled oracle = codes "OCI"
spelled huawei = codes "OBS"

abbrev pub constructor_of :
    {W R : Type 0} → Constructors W R → Provider → Str → Fallible (Bucket W R)
constructor_of packages google = packages.gcs_new_bucket
constructor_of packages amazon = packages.s3_new_bucket
constructor_of packages microsoft = packages.azure_new_bucket
constructor_of packages openstack = packages.swift_new_container
constructor_of packages tencent = packages.cos_new_bucket
constructor_of packages alibaba = packages.oss_new_bucket
constructor_of packages local = packages.filesystem_new_bucket_from_config
constructor_of packages baidu = packages.bos_new_bucket
constructor_of packages oracle = packages.oci_new_bucket
constructor_of packages huawei = packages.obs_new_bucket

module _ {W R C : Type 0} (packages : Constructors W R) where
  chosen-spelled :
      (conf : BucketConfig C) (config : Str) (k : Provider)
      → chosen packages conf config (spelled k)
        ≡ created packages conf (constructor_of packages k config)
  unfolding chosen str_eq
  chosen-spelled conf config google = refl
  chosen-spelled conf config amazon = refl
  chosen-spelled conf config microsoft = refl
  chosen-spelled conf config openstack = refl
  chosen-spelled conf config tencent = refl
  chosen-spelled conf config alibaba = refl
  chosen-spelled conf config local = refl
  chosen-spelled conf config baidu = refl
  chosen-spelled conf config oracle = refl
  chosen-spelled conf config huawei = refl

  -- What an arm or the default of the switch does.
  abbrev Arm : BucketConfig C → Str → Str → Fallible (Option (Bucket W R)) → Type 0
  Arm conf config t result =
      ((k : Provider) × (t ≡ spelled k)
        × (result ≡ created packages conf (constructor_of packages k config)))
      ⊎ (result ≡ (none, some (errorf "bucket with type %s is not supported" conf.provider)))

  arm :
      (conf : BucketConfig C) (config t : Str) (k : Provider)
      (rest : Fallible (Option (Bucket W R)))
      → Arm conf config t rest
      → Arm conf config t (
          if str_eq t (spelled k)
          then created packages conf (constructor_of packages k config)
          else rest)
  arm conf config t k rest next = elim (Bool-cases (str_eq t (spelled k))) [
    | inl x ↦ inl (k, str_eq_sound t (spelled k) x, rw x refl)
    | inr x ↦
        let skipped : (if str_eq t (spelled k)
              then created packages conf (constructor_of packages k config)
              else rest)
            ≡ rest =
          rw x refl in
        subst (Arm conf config t) (sym skipped) next
  ]

  chosen-Arm :
      (conf : BucketConfig C) (config t : Str) → Arm conf config t (chosen packages conf config t)
  unfolding chosen
  chosen-Arm conf config t = arm conf config t google _ (
      arm conf config t amazon _ (
        arm conf config t microsoft _ (
          arm conf config t openstack _ (
            arm conf config t tencent _ (
              arm conf config t alibaba _ (
                arm conf config t local _ (
                  arm conf config t baidu _
                    (arm conf config t oracle _ (arm conf config t huawei _ (inr refl))))))))))

  -- a bucket that NewBucket makes
  abbrev pub Made : (C → Fallible Str) → Fallible (BucketConfig C) → Bucket W R → Type 0
  Made marshal x b =
      (conf : BucketConfig C) × (config : Str) × (k : Provider) × (bucket : Bucket W R) × (x
        ≡ (conf, none))
      × (marshal conf.config ≡ (config, none))
      × (to_upper conf.provider ≡ spelled k)
      × (constructor_of packages k config ≡ (bucket, none))
      × (b ≡ new_prefixed_bucket bucket conf.prefix)

  created_inv :
      (conf : BucketConfig C) (x : Fallible (Bucket W R)) (b : Bucket W R)
      → created packages conf x ≡ (some b, none)
      → (bucket : Bucket W R) × (x ≡ (bucket, none)) × (b ≡ new_prefixed_bucket bucket conf.prefix)
  created_inv conf (bucket, some e) b h = cc
  created_inv conf (bucket, none) b h = (bucket, refl, cc)

  switched_inv :
      (conf : BucketConfig C) (config t : Str) (result : Fallible (Option (Bucket W R)))
      (b : Bucket W R)
      → Arm conf config t result
      → result ≡ (some b, none)
      → (k : Provider) × (bucket : Bucket W R) × (t ≡ spelled k)
        × (constructor_of packages k config ≡ (bucket, none))
        × (b ≡ new_prefixed_bucket bucket conf.prefix)
  switched_inv conf config t result b (inr e) h = cc
  switched_inv conf config t result b (inl (k, named, e)) h =
      let (bucket, made, prefixed) =
        created_inv conf (constructor_of packages k config) b (sym e ∙ h) in
      (k, bucket, named, made, prefixed)

  marshalled_inv :
      (conf : BucketConfig C) (x : Fallible Str) (b : Bucket W R)
      → marshalled packages conf x ≡ (some b, none)
      → (config : Str) × (x ≡ (config, none))
        × (chosen packages conf config (to_upper conf.provider) ≡ (some b, none))
  unfolding marshalled
  marshalled_inv conf (config, some e) b h = cc
  marshalled_inv conf (config, none) b h = (config, refl, h)

  new_bucket_inv :
      (marshal : C → Fallible Str) (x : Fallible (BucketConfig C)) (b : Bucket W R)
      → new_bucket packages marshal x ≡ (some b, none)
      → Made marshal x b
  unfolding new_bucket
  new_bucket_inv marshal (conf, some e) b h = cc
  new_bucket_inv marshal (conf, none) b h =
      let (config, text, switched) = marshalled_inv conf (marshal conf.config) b h in
      let t = to_upper conf.provider in
      let (k, bucket, named, made, prefixed) =
        switched_inv conf config t (chosen packages conf config t) b (chosen-Arm conf config t)
          switched in
      (conf, config, k, bucket, refl, text, named, made, prefixed)

  makes :
      (marshal : C → Fallible Str) (x : Fallible (BucketConfig C)) (b : Bucket W R)
      → Made marshal x b
      → new_bucket packages marshal x ≡ (some b, none)
  unfolding new_bucket marshalled
  makes marshal x b (conf, config, k, bucket, read, text, named, made, prefixed) =
      ap (new_bucket packages marshal) read
      ∙ (ap (marshalled packages conf) text
          ∙ (ap (chosen packages conf config) named
              ∙ (chosen-spelled conf config k
                  ∙ (ap (created packages conf) made ∙ ap (λ y. (some y, none)) (sym prefixed)))))

  -- NewBucket returns a bucket and no error exactly if the text of the configuration is read, the
  -- value below config is written, the type in capitals is that of one of the ten providers (GCS, S3,
  -- AZURE, SWIFT, COS, ALIYUNOSS, FILESYSTEM, BOS, OCI, OBS), and the constructor of that provider's
  -- package makes a bucket from the value; and it is this bucket within the prefix.
  pub new_bucket-Made :
      (marshal : C → Fallible Str) (x : Fallible (BucketConfig C)) (b : Bucket W R)
      → (new_bucket packages marshal x ≡ (some b, none)) ↔ Made marshal x b
  new_bucket-Made marshal x b = (new_bucket_inv marshal x b, makes marshal x b)
