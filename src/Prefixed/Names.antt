-- ===== src/Prefixed/Names.antt =====
-- NewPrefixedBucket: when it wraps, and which prefix it keeps.
use objstore.Prelude.{◌≡◌, ◌≢◌, refl, true, false, [], ◌∷◌, ltb, length}
use objstore.Text.{Str, slash, dir_delim, has_prefix, has_suffix, trim, remove_byte}
use objstore.Text.Trim.{trim_ends, trim-eq-nil}
use objstore.Bucket.{Bucket}
use objstore.Prefixed.{new_prefixed_bucket, valid_prefix, as_bucket}

length-ne-nil : (s : Str) → ltb 0 (length s) ≡ true → s ≢ []
length-ne-nil [] h e = cc
length-ne-nil (a ∷ s) h e = cc

module _ {W R : Type 0} (bkt : Bucket W R) (prefix : Str) where
  -- A prefix with a byte that is no delimiter gives a PrefixedBucket whose prefix is not empty and
  -- neither begins nor ends with the delimiter.
  pub new_prefixed_bucket_wraps :
      valid_prefix prefix ≡ true
      → (kept : Str) × (new_prefixed_bucket bkt prefix
          ≡ as_bucket (record { bkt = bkt; prefix = kept }))
        × (kept ≢ [])
        × (has_prefix kept dir_delim ≡ false)
        × (has_suffix kept dir_delim ≡ false)
  new_prefixed_bucket_wraps h = (
    trim prefix slash,
    unfold new_prefixed_bucket in rw (h, valid_prefix) refl,
    λ e. length-ne-nil (remove_byte prefix slash) (unfold valid_prefix in h) (trim-eq-nil prefix e),
    (trim_ends prefix).0,
    (trim_ends prefix).1,
  )
