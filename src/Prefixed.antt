-- ===== src/Prefixed.antt =====
-- prefixed_bucket.go: PrefixedBucket over any bucket.
pub mod View
pub mod Keys
pub mod Listing
pub mod Refines
pub mod Reads
pub mod Writes
pub mod Names
use objstore.Prelude.{
  ℕ, zero, suc, Bool, true, false, Option, none, some, List, [], ◌∷◌, ◌++◌, if◌then◌else◌, ltb,
  length,
}
use objstore.Prelude.Int.{ℤ}
use objstore.Text.{Str, slash, dir_delim, trim, trim_prefix, remove_byte}
use objstore.Errors.{Error}
use objstore.Go.{Go, Ctx, Fallible}
use objstore.Reader.{Reader}
use objstore.Options.{IterOption}
use objstore.Bucket.{Bucket, Callback, ObjectAttributes}

-- validPrefix
unfoldable pub valid_prefix : Str → Bool
unfolding remove_byte
valid_prefix prefix = ltb 0 (length (remove_byte prefix slash))

-- withPrefix
unfoldable pub with_prefix : Str → Str → Str
with_prefix prefix name = prefix ++ dir_delim ++ name

-- conditionalPrefix
unfoldable pub conditional_prefix : Str → Str → Str
unfolding with_prefix
conditional_prefix prefix name = if ltb 0 (length name) then with_prefix prefix name else name

pub record PrefixedBucket (W R : Type 0) : Type 0 where
  pub bkt : Bucket W R
  pub prefix : Str

module _ {W R : Type 0} (p : PrefixedBucket W R) where
  unfoldable pub iter : Ctx W → Str → Callback W → List IterOption → Go W (Option Error)
  unfolding with_prefix
  iter ctx dir f options =
      p.bkt.iter ctx (with_prefix p.prefix dir) (λ s. f (trim_prefix s (p.prefix ++ dir_delim)))
        options

  unfoldable pub get : Ctx W → Str → Go W (Fallible (Option R))
  get ctx name = p.bkt.get ctx (conditional_prefix p.prefix name)

  unfoldable pub get_range : Ctx W → Str → ℤ → ℤ → Go W (Fallible (Option R))
  get_range ctx name off len = p.bkt.get_range ctx (conditional_prefix p.prefix name) off len

  unfoldable pub has_object : Ctx W → Str → Go W (Fallible Bool)
  has_object ctx name = p.bkt.has_object ctx (conditional_prefix p.prefix name)

  unfoldable pub attributes : Ctx W → Str → Go W (Fallible ObjectAttributes)
  attributes ctx name = p.bkt.attributes ctx (conditional_prefix p.prefix name)

  unfoldable pub upload : Ctx W → Str → Reader → Go W (Option Error)
  upload ctx name r = p.bkt.upload ctx (conditional_prefix p.prefix name) r

  unfoldable pub delete : Ctx W → Str → Go W (Option Error)
  delete ctx name = p.bkt.delete ctx (conditional_prefix p.prefix name)

  -- PrefixedBucket as a Bucket; Close, Name and the error tests are those of the wrapped bucket.
  unfoldable pub as_bucket : Bucket W R
  unfolding iter get get_range has_object attributes upload delete
  as_bucket = record {
    iter = iter;
    get = get;
    get_range = get_range;
    has_object = has_object;
    is_obj_not_found_err = p.bkt.is_obj_not_found_err;
    is_customer_managed_key_error = p.bkt.is_customer_managed_key_error;
    attributes = attributes;
    upload = upload;
    delete = delete;
    name = p.bkt.name;
    close = p.bkt.close;
  }

-- NewPrefixedBucket
unfoldable pub new_prefixed_bucket : {W R : Type 0} → Bucket W R → Str → Bucket W R
unfolding valid_prefix trim as_bucket
new_prefixed_bucket bkt prefix =
    if valid_prefix prefix
    then as_bucket (record { bkt = bkt; prefix = trim prefix slash })
    else bkt
