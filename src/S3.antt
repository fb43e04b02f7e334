-- ===== src/S3.antt =====
-- providers/s3/s3.go: the configuration's checks, and the methods of Bucket over a minio client. The
-- client and the values of package encrypt are parameters.
mod Minio
pub mod Config
pub mod Listing
pub mod Uploads
pub use Minio.*
use objstore.Prelude.{
  ℕ, ◌+◌, Bool, true, false, ◌&&◌, not, Option, none, some, List, [], ◌∷◌, ◌++◌, if◌then◌else◌,
  codes, leb, ◌==◌,
}
use objstore.Prelude.Int.{ℤ, pos, negsuc, ltb_ℤ, eqb_ℤ, add64, sub64, int64_bound, sub_ℕ}
use objstore.Text.{Str, str_eq, dir_delim, has_suffix, trim_suffix}
use objstore.Errors.{Error, new_error, wrapped, ErrorsPkg}
use objstore.Go.{returns, panics, Go, Ctx, Fallible, pure, ◌>>=◌, ◌>>◌}
use objstore.Reader.{Reader, try_to_get_size}
use objstore.ReadCloser.{ReadClosers}
use objstore.Options.{IterOption, apply_iter_options}
use objstore.Bucket.{Bucket, Callback, ObjectAttributes, zero_attributes}
use objstore.Inmem.Iter.{unless_error}

-- `int64(n)` of a uint64
abbrev pub to_int64 : ℕ → ℤ
to_int64 n = if leb int64_bound n then sub_ℕ n (int64_bound + int64_bound) else pos n

-- the prefix that Iter asks for
unfoldable pub list_prefix : Str → Str
unfolding str_eq
list_prefix dir = if str_eq dir [] then dir else trim_suffix dir dir_delim ++ dir_delim

-- the loop of Iter over the objects
unfoldable pub visit :
    {W : Type 0} → Ctx W → Str → Callback W → List ObjectInfo → Go W (Option Error)
unfolding unless_error str_eq
visit ctx dir f [] w = returns (ctx.err w, w)
visit ctx dir f (object ∷ objects) w =
    let rest = visit ctx dir f objects in
    elim object.err [
      | some e ↦ returns (some e, w)
      | none ↦
          if str_eq object.key []
          then rest w
          else if str_eq object.key dir
          then rest w
          else unless_error (f object.key w) rest
    ]

module _ {W R S : Type 0} (p : ErrorsPkg) (rcs : ReadClosers W R) (b : S3Bucket W R S) where
  unfoldable pub iter : Ctx W → Str → Callback W → List IterOption → Go W (Option Error)
  unfolding visit list_prefix
  iter ctx dir f options w =
      let opts : ListOptions = record {
        prefix = list_prefix dir;
        recursive = (apply_iter_options options).recursive;
        use_v1 = b.list_objects_v1;
      } in
      visit ctx (list_prefix dir) f (b.client.list_objects ctx b.name opts w) w

  -- getServerSideEncryption
  unfoldable pub get_server_side_encryption : Ctx W → Fallible (Option S)
  get_server_side_encryption ctx = elim (ctx.value sse_config_key) [
    | none ↦ (b.default_sse, none)
    | some value ↦ elim (b.client.as_server_side value) [
      | some sse ↦ (some sse, none)
      | none ↦ (none, some (new_error "invalid SSE config override provided in the context"))
    ]
  ]

  -- the range header of getRange, if it sets one
  unfoldable pub range_header : ℤ → ℤ → Option (Fallible Str)
  unfolding add64 sub64
  range_header off len =
      if not (eqb_ℤ len (negsuc 0))
      then some (b.client.set_range off (sub64 (add64 off len) (pos 1)))
      else if ltb_ℤ (pos 0) off
      then some (b.client.set_range off (pos 0))
      else none

  -- the end of getRange on the error of the first Read, of no bytes: an object that is not there
  -- shows only then, and is closed, with the error of Close logged
  unfoldable pub first_read : R → Option Error → Go W (Fallible (Option R))
  first_read r none = pure (some r, none)
  first_read r (some err) = do (close_err, r') ← rcs.close r; pure (none, some err)

  unfoldable pub prefetched : Fallible (Option R) → Go W (Fallible (Option R))
  unfolding first_read
  prefetched (r, some err) = pure (none, some err)
  prefetched (none, none) = λ w. panics
  prefetched (some r, none) = do (n, err, r') ← rcs.read 0 r; first_read r' err

  -- getRange behind the range header
  unfoldable pub fetch : Ctx W → Str → Option S → Option Str → Go W (Fallible (Option R))
  unfolding prefetched
  fetch ctx name sse range = do
    r ← b.client.get_object ctx b.name name (record { server_side_encryption = sse; range = range })
    prefetched r

  unfoldable pub with_header :
      Ctx W → Str → Option S → Option (Fallible Str) → Go W (Fallible (Option R))
  unfolding fetch
  with_header ctx name sse none = fetch ctx name sse none
  with_header ctx name sse (some (header, none)) = fetch ctx name sse (some header)
  with_header ctx name sse (some (header, some err)) = pure (none, some err)

  unfoldable pub with_encryption :
      Ctx W → Str → Option (Fallible Str) → Fallible (Option S) → Go W (Fallible (Option R))
  unfolding with_header
  with_encryption ctx name header (sse, none) = with_header ctx name sse header
  with_encryption ctx name header (sse, some err) = pure (none, some err)

  -- getRange and GetRange
  unfoldable pub get_range : Ctx W → Str → ℤ → ℤ → Go W (Fallible (Option R))
  unfolding with_encryption get_server_side_encryption range_header
  get_range ctx name off len =
      with_encryption ctx name (range_header off len) (get_server_side_encryption ctx)

  unfoldable pub get : Ctx W → Str → Go W (Fallible (Option R))
  unfolding get_range
  get ctx name = get_range ctx name (pos 0) (negsuc 0)

  unfoldable pub is_obj_not_found_err : Error → Bool
  unfolding str_eq
  is_obj_not_found_err err = str_eq (b.client.error_code (p.cause err)) (codes "NoSuchKey")

  unfoldable pub is_customer_managed_key_error : Error → Bool
  unfolding str_eq
  is_customer_managed_key_error err =
      str_eq (b.client.error_code (p.cause err)) (codes "AccessDenied")
      && str_eq (b.client.error_message (p.cause err)) amz_kms_key_access_denied_error_message

  -- the end of Exists
  unfoldable pub exists_of : Fallible ObjectAttributes → Fallible Bool
  unfolding is_obj_not_found_err
  exists_of (attrs, none) = (true, none)
  exists_of (attrs, some err) =
      if is_obj_not_found_err err
      then (false, none)
      else (false, some (wrapped "stat s3 object" err))

  unfoldable pub has_object : Ctx W → Str → Go W (Fallible Bool)
  unfolding exists_of
  has_object ctx name = do r ← b.client.stat_object ctx b.name name; pure (exists_of r)

  -- the size and the part size that Upload passes on
  unfoldable pub upload_size : Fallible ℤ → ℤ
  upload_size (size, none) = size
  upload_size (size, some err) = negsuc 0

  unfoldable pub part_size_of : ℤ → ℕ
  part_size_of size = if ltb_ℤ size (to_int64 b.part_size) then 0 else b.part_size

  abbrev pub wrapped_upload : Option Error → Option Error
  wrapped_upload none = none
  wrapped_upload (some err) = some (wrapped "upload s3 object" err)

  unfoldable pub put : Ctx W → Str → Reader → Fallible (Option S) → Go W (Option Error)
  unfolding upload_size part_size_of try_to_get_size
  put ctx name r (sse, some err) = pure (some err)
  put ctx name r (sse, none) = do
    let size = upload_size (try_to_get_size r)
    err ← b.client.put_object ctx b.name name r size (record {
      part_size = part_size_of size;
      server_side_encryption = sse;
      user_metadata = b.put_user_metadata;
      storage_class = b.storage_class;
      num_threads = 4;
    })
    pure (wrapped_upload err)

  unfoldable pub upload : Ctx W → Str → Reader → Go W (Option Error)
  unfolding put get_server_side_encryption
  upload ctx name r = put ctx name r (get_server_side_encryption ctx)

  abbrev attributes_of : Fallible ObjectAttributes → Fallible ObjectAttributes
  attributes_of (attrs, none) = (attrs, none)
  attributes_of (attrs, some err) = (zero_attributes, some err)

  unfoldable pub attributes : Ctx W → Str → Go W (Fallible ObjectAttributes)
  attributes ctx name = do r ← b.client.stat_object ctx b.name name; pure (attributes_of r)

  unfoldable pub delete : Ctx W → Str → Go W (Option Error)
  delete ctx name = b.client.remove_object ctx b.name name

  unfoldable pub as_bucket : Bucket W R
  unfolding iter get get_range has_object is_obj_not_found_err is_customer_managed_key_error
      attributes upload delete
  as_bucket = record {
    iter = iter;
    get = get;
    get_range = get_range;
    has_object = has_object;
    is_obj_not_found_err = is_obj_not_found_err;
    is_customer_managed_key_error = is_customer_managed_key_error;
    attributes = attributes;
    upload = upload;
    delete = delete;
    name = pure b.name;
    close = pure none;
  }

-- ContextWithSSEConfig, with an encryption by its number; context.WithValue shadows the key alone
unfoldable pub context_with_sse_config : {W : Type 0} → Ctx W → ℕ → Ctx W
context_with_sse_config ctx value = record ctx {
  value = λ k. if k == sse_config_key then some value else ctx.value k;
}
