-- ===== src/Factory.antt =====
-- client/factory.go: the choice of a provider and the bucket that is made from a configuration.
pub mod Names
use objstore.Prelude.{
  ℕ, ◌-◌, Bool, true, false, ◌&&◌, Option, none, some, List, [], ◌∷◌, if◌then◌else◌, codes, leb,
  ◌==◌,
}
use objstore.Text.{Str, str_eq}
use objstore.Errors.{Error, errorf, wrapped}
use objstore.Go.{Fallible}
use objstore.Bucket.{Bucket}
use objstore.Prefixed.{new_prefixed_bucket}

-- ObjProvider, and its values
abbrev pub ObjProvider : Type 0
ObjProvider = Str

abbrev pub filesystem : ObjProvider
filesystem = codes "FILESYSTEM"

abbrev pub gcs : ObjProvider
gcs = codes "GCS"

abbrev pub s3 : ObjProvider
s3 = codes "S3"

abbrev pub azure : ObjProvider
azure = codes "AZURE"

abbrev pub swift : ObjProvider
swift = codes "SWIFT"

abbrev pub cos : ObjProvider
cos = codes "COS"

abbrev pub aliyunoss : ObjProvider
aliyunoss = codes "ALIYUNOSS"

abbrev pub bos : ObjProvider
bos = codes "BOS"

abbrev pub oci : ObjProvider
oci = codes "OCI"

abbrev pub obs : ObjProvider
obs = codes "OBS"

-- BucketConfig, with the value `C` below config
pub record BucketConfig (C : Type 0) : Type 0 where
  pub provider : Str
  pub config : C
  pub prefix : Str

abbrev pub upper_byte : ℕ → ℕ
upper_byte c = if leb 97 c && leb c 122 then c - 32 else c

-- strings.ToUpper, as far as it matters in a comparison with a text of ASCII: of the letters outside
-- ASCII only U+0131 and U+017F have a capital in it, I and S
unfoldable pub to_upper : Str → Str
to_upper [] = []
to_upper (c ∷ []) = upper_byte c ∷ []
to_upper (c ∷ d ∷ s) = elim (c == 196 && d == 177) [
  | true ↦ b'I' ∷ to_upper s
  | false ↦ elim (c == 197 && d == 191) [
    | true ↦ b'S' ∷ to_upper s
    | false ↦ upper_byte c ∷ to_upper (d ∷ s)
  ]
]

-- the constructors of the providers' packages, from the text of a configuration
pub record Constructors (W R : Type 0) : Type 0 where
  pub gcs_new_bucket : Str → Fallible (Bucket W R)
  pub s3_new_bucket : Str → Fallible (Bucket W R)
  pub azure_new_bucket : Str → Fallible (Bucket W R)
  pub swift_new_container : Str → Fallible (Bucket W R)
  pub cos_new_bucket : Str → Fallible (Bucket W R)
  pub oss_new_bucket : Str → Fallible (Bucket W R)
  pub filesystem_new_bucket_from_config : Str → Fallible (Bucket W R)
  pub bos_new_bucket : Str → Fallible (Bucket W R)
  pub oci_new_bucket : Str → Fallible (Bucket W R)
  pub obs_new_bucket : Str → Fallible (Bucket W R)

module _ {W R C : Type 0} (packages : Constructors W R) where
  -- the end of NewBucket, behind the switch
  abbrev pub created : BucketConfig C → Fallible (Bucket W R) → Fallible (Option (Bucket W R))
  created conf (bucket, some e) = (none, some (wrapped "create client" e))
  created conf (bucket, none) = (some (new_prefixed_bucket bucket conf.prefix), none)

  -- the switch, on the type in capitals
  unfoldable pub chosen : BucketConfig C → Str → Str → Fallible (Option (Bucket W R))
  unfolding str_eq
  chosen conf config t =
      if str_eq t gcs
      then created conf (packages.gcs_new_bucket config)
      else if str_eq t s3
      then created conf (packages.s3_new_bucket config)
      else if str_eq t azure
      then created conf (packages.azure_new_bucket config)
      else if str_eq t swift
      then created conf (packages.swift_new_container config)
      else if str_eq t cos
      then created conf (packages.cos_new_bucket config)
      else if str_eq t aliyunoss
      then created conf (packages.oss_new_bucket config)
      else if str_eq t filesystem
      then created conf (packages.filesystem_new_bucket_from_config config)
      else if str_eq t bos
      then created conf (packages.bos_new_bucket config)
      else if str_eq t oci
      then created conf (packages.oci_new_bucket config)
      else if str_eq t obs
      then created conf (packages.obs_new_bucket config)
      else (none, some (errorf "bucket with type %s is not supported" conf.provider))

  unfoldable pub marshalled : BucketConfig C → Fallible Str → Fallible (Option (Bucket W R))
  unfolding chosen to_upper
  marshalled conf (config, some e) =
      (none, some (wrapped "marshal content of bucket configuration" e))
  marshalled conf (config, none) = chosen conf config (to_upper conf.provider)

  -- NewBucket, over the constructors of the providers, what yaml.UnmarshalStrict makes of the text,
  -- and yaml.Marshal
  unfoldable pub new_bucket :
      (C → Fallible Str) → Fallible (BucketConfig C) → Fallible (Option (Bucket W R))
  unfolding marshalled
  new_bucket marshal (conf, some e) = (none, some (wrapped "parsing config YAML file" e))
  new_bucket marshal (conf, none) = marshalled conf (marshal conf.config)
