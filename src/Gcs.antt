-- ===== src/Gcs.antt =====
-- providers/gcs/gcs.go: the bucket of Google's storage, over its handle as a parameter.
pub mod Sdk
use objstore.Prelude.{
  ℕ, zero, suc, Bool, true, false, Option, none, some, List, [], ◌++◌, if◌then◌else◌,
}
use objstore.Prelude.Int.{ℤ}
use objstore.Text.{Str, str_eq, dir_delim, trim_suffix}
use objstore.Errors.{Error, new_error, wrapped}
use objstore.Go.{Outcome, returns, panics, Go, Ctx, Fallible, pure, ◌>>=◌}
use objstore.Reader.{Reader}
use objstore.Options.{IterOption, apply_iter_options}
use objstore.Bucket.{Bucket, Callback, ObjectAttributes, zero_attributes}
use objstore.Gcs.Sdk.{Config, ObjectAttrs, BucketHandle, GcsBucket}

abbrev pub dir_prefix : Str → Str
dir_prefix dir = if str_eq dir [] then dir else trim_suffix dir dir_delim ++ dir_delim

abbrev pub attributes_of : Fallible ObjectAttrs → Fallible ObjectAttributes
attributes_of (attrs, some e) = (zero_attributes, some e)
attributes_of (attrs, none) = (record { size = attrs.size; last_modified = attrs.updated }, none)

module _ {W R I V : Type 0} (b : GcsBucket W R I V) where
  -- what follows a call of `f`
  abbrev pub called : Go W (Option Error) → Option Error → Go W (Option Error)
  called rest none = rest
  called rest (some e) = pure (some e)

  -- a round of Iter with what the iterator has returned
  abbrev pub visit :
      Callback W → (I → Go W (Option Error)) → Fallible ObjectAttrs × I → Go W (Option Error)
  visit f rest ((attrs, some e), it) = pure (if b.bkt.is_done e then none else some e)
  visit f rest ((attrs, none), it) = f (attrs.prefix ++ attrs.name) >>= called (rest it)

  -- the loop of Iter, over at most `fuel` entries; a longer listing has no outcome
  unfoldable pub iter_loop : ℕ → Ctx W → Callback W → I → Go W (Option Error)
  iter_loop zero ctx f it w = panics
  iter_loop (suc fuel) ctx f it w =
      let rest = iter_loop fuel ctx f in
      let visited = (b.bkt.next it >>= visit f rest) w in
      elim (ctx.err w) [ some e ↦ returns (some e, w) | none ↦ visited ]

  unfoldable pub iter_within : ℕ → Ctx W → Str → Callback W → List IterOption → Go W (Option Error)
  unfolding iter_loop str_eq
  iter_within fuel ctx dir f options =
      let delimiter = if (apply_iter_options options).recursive then [] else dir_delim in
      iter_loop fuel ctx f (b.bkt.objects ctx (dir_prefix dir) delimiter)

  unfoldable pub get : Ctx W → Str → Go W (Fallible (Option R))
  get ctx name = b.bkt.new_reader ctx name

  unfoldable pub get_range : Ctx W → Str → ℤ → ℤ → Go W (Fallible (Option R))
  get_range ctx name off len = b.bkt.new_range_reader ctx name off len

  unfoldable pub attributes : Ctx W → Str → Go W (Fallible ObjectAttributes)
  attributes ctx name = do attrs ← b.bkt.attrs ctx name; pure (attributes_of attrs)

  -- the end of Exists
  abbrev pub exists_of : Fallible ObjectAttrs → Fallible Bool
  exists_of (attrs, none) = (true, none)
  exists_of (attrs, some e) = if b.bkt.equals_not_exist e then (false, none) else (false, some e)

  unfoldable pub has_object : Ctx W → Str → Go W (Fallible Bool)
  has_object ctx name = do attrs ← b.bkt.attrs ctx name; pure (exists_of attrs)

  abbrev pub copied : Option Error × V → Go W (Option Error)
  copied (some e, writer) = pure (some e)
  copied (none, writer) = b.bkt.close_writer writer

  unfoldable pub upload : Ctx W → Str → Reader → Go W (Option Error)
  upload ctx name r = b.bkt.copy (b.bkt.new_writer ctx name) r >>= copied

  unfoldable pub delete : Ctx W → Str → Go W (Option Error)
  delete ctx name = b.bkt.delete ctx name

  unfoldable pub is_obj_not_found_err : Error → Bool
  is_obj_not_found_err err = b.bkt.is_not_exist err

  abbrev pub is_customer_managed_key_error : Error → Bool
  is_customer_managed_key_error err = false

  -- the Bucket of a program
  unfoldable pub gcs_bucket : ℕ → Bucket W R
  unfolding iter_within get get_range has_object is_obj_not_found_err attributes upload delete
  gcs_bucket fuel = record {
    iter = λ ctx dir f options. iter_within fuel ctx dir f options;
    get = get;
    get_range = get_range;
    has_object = has_object;
    is_obj_not_found_err = is_obj_not_found_err;
    is_customer_managed_key_error = is_customer_managed_key_error;
    attributes = attributes;
    upload = upload;
    delete = delete;
    name = pure b.name;
    close = b.close_client;
  }

-- The constructors: google.CredentialsFromJSON, storage.NewClient with the credentials if there are
-- any, and the bucket that a client has under a name, with the Close of the client.
pub record Constructors (W R I V C K : Type 0) : Type 0 where
  pub credentials_from_json : Str → Fallible K
  pub new_client : Option K → Fallible C
  pub bucket : C → Str → BucketHandle W R I V
  pub close : C → Go W (Option Error)

module _ {W R I V C K : Type 0} (sdk : Constructors W R I V C K) where
  abbrev pub made : Config → Fallible C → Fallible (Option (GcsBucket W R I V))
  made gc (client, some e) = (none, some e)
  made gc (client, none) = (
    some (record {
      bkt = sdk.bucket client gc.bucket;
      name = gc.bucket;
      close_client = sdk.close client;
    }),
    none,
  )

  abbrev pub with_credentials : Config → Fallible K → Fallible (Option (GcsBucket W R I V))
  with_credentials gc (credentials, some e) =
      (none, some (wrapped "failed to create credentials from JSON" e))
  with_credentials gc (credentials, none) = made gc (sdk.new_client (some credentials))

  -- NewBucketWithConfig
  unfoldable pub new_bucket_with_config : Config → Fallible (Option (GcsBucket W R I V))
  unfolding str_eq
  new_bucket_with_config gc =
      if str_eq gc.bucket []
      then (none, some (new_error "missing Google Cloud Storage bucket name for stored blocks"))
      else if str_eq gc.service_account []
      then made gc (sdk.new_client none)
      else with_credentials gc (sdk.credentials_from_json gc.service_account)

  -- NewBucket, over what yaml.Unmarshal makes of the text
  unfoldable pub new_bucket : Fallible Config → Fallible (Option (GcsBucket W R I V))
  unfolding new_bucket_with_config
  new_bucket (gc, some e) = (none, some e)
  new_bucket (gc, none) = new_bucket_with_config gc
