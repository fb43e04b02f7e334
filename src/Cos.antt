-- ===== src/Cos.antt =====
-- providers/cos/cos.go: the bucket of Tencent's object store, over its client as a parameter.
pub mod Sdk
pub mod Config
pub mod Multipart
pub mod Sending
pub mod Ranges
pub mod Pages
pub mod Listing
use objstore.Prelude.{
  ℕ, zero, suc, Bool, true, false, ◌&&◌, ◌||◌, not, Option, none, some, List, [], ◌∷◌, ◌++◌,
  if◌then◌else◌, codes, ◌==◌,
}
use objstore.Prelude.Int.{ℤ, pos, negsuc}
use objstore.Text.{Str, str_eq, dir_delim, trim_suffix}
use objstore.Errors.{Error, new_error, wrapped, ErrorsPkg}
use objstore.Go.{returns, panics, Go, Ctx, Fallible, pure, ◌>>=◌, ◌>>◌}
use objstore.Reader.{Reader}
use objstore.ReadCloser.{ReadClosers}
use objstore.Options.{IterOption, apply_iter_options}
use objstore.Bucket.{Bucket, Callback, ObjectAttributes, zero_attributes}
use objstore.Headers.{Header, TimeParse}
use objstore.Headers.Clientutil.{parse_content_length, parse_last_modified}
use objstore.Inmem.Iter.{unless_error}
use objstore.Cos.Sdk.{Client, CosBucket}
use objstore.Cos.Multipart.{upload}
use objstore.Cos.Pages.{ObjectInfo, list_objects, visit}
use objstore.Cos.Ranges.{range_header}

-- time.RFC1123
abbrev pub rfc1123 : Str
rfc1123 = codes "Mon, 02 Jan 2006 15:04:05 MST"

-- objectSizerReadCloser
pub record ObjectSizerReadCloser (R : Type 0) : Type 0 where
  pub body : R
  pub size : ℤ

-- ObjectSize
abbrev pub object_size : {R : Type 0} → ObjectSizerReadCloser R → Fallible ℤ
object_size o = (o.size, none)

-- the directory that Iter lists
unfoldable pub dir_prefix : Str → Str
unfolding str_eq
dir_prefix dir = if str_eq dir [] then dir else trim_suffix dir dir_delim ++ dir_delim

-- IsObjNotFoundErr, of what the type switch finds
abbrev pub not_found_response : Option (Str × Option ℕ) → Bool
not_found_response none = false
not_found_response (some (code, none)) = str_eq code (codes "NoSuchKey")
not_found_response (some (code, some status)) = str_eq code (codes "NoSuchKey") || status == 404

abbrev pub modified : ℤ → Fallible ℕ → Fallible ObjectAttributes
modified size (mod_time, some e) = (zero_attributes, some e)
modified size (mod_time, none) = (record { size = size; last_modified = mod_time }, none)

abbrev pub sized : TimeParse → Header → Fallible ℤ → Fallible ObjectAttributes
sized parse h (size, some e) = (zero_attributes, some e)
sized parse h (size, none) = modified size (parse_last_modified parse h rfc1123)

abbrev pub attributes_of : TimeParse → Fallible Header → Fallible ObjectAttributes
attributes_of parse (h, some e) = (zero_attributes, some e)
attributes_of parse (h, none) = sized parse h (parse_content_length h)

abbrev pub delete_error : Option Error → Option Error
delete_error none = none
delete_error (some e) = some (wrapped "delete cos object" e)

module _ {W R : Type 0} (p : ErrorsPkg) (rcs : ReadClosers W R) (b : CosBucket W R) where
  unfoldable pub attributes : TimeParse → Ctx W → Str → Go W (Fallible ObjectAttributes)
  unfolding parse_content_length parse_last_modified
  attributes parse ctx name = do resp ← b.client.head ctx name; pure (attributes_of parse resp)

  unfoldable pub delete : Ctx W → Str → Go W (Option Error)
  delete ctx name = do err ← b.client.delete ctx name; pure (delete_error err)

  unfoldable pub is_obj_not_found_err : Error → Bool
  unfolding str_eq
  is_obj_not_found_err err = not_found_response (b.client.error_response (p.cause err))

  -- the end of Exists
  unfoldable pub exists_of : Fallible Header → Fallible Bool
  unfolding is_obj_not_found_err
  exists_of (h, none) = (true, none)
  exists_of (h, some err) =
      if is_obj_not_found_err err
      then (false, none)
      else (false, some (wrapped "head cos object" err))

  unfoldable pub has_object : Ctx W → Str → Go W (Fallible Bool)
  unfolding exists_of
  has_object ctx name = do resp ← b.client.head ctx name; pure (exists_of resp)

  abbrev pub is_customer_managed_key_error : Error → Bool
  is_customer_managed_key_error err = false

  -- the end of getRange on the error of the first Read, of no bytes; a body that cannot be read is
  -- closed, with the error of Close logged
  unfoldable pub first_read :
      R → ℤ → Option Error → Go W (Fallible (Option (ObjectSizerReadCloser R)))
  first_read r size none = pure (some (record { body = r; size = size }), none)
  first_read r size (some err) = do (close_err, r') ← rcs.close r; pure (none, some err)

  unfoldable pub responded :
      Fallible (Option (R × ℤ)) → Go W (Fallible (Option (ObjectSizerReadCloser R)))
  unfolding first_read
  responded (resp, some err) = pure (none, some err)
  responded (none, none) = λ w. panics
  responded (some (r, size), none) = do (n, err, r') ← rcs.read 0 r; first_read r' size err

  -- Get of the object with the header that setRange makes
  unfoldable pub with_header :
      Ctx W → Str → Option (Fallible Str) → Go W (Fallible (Option (ObjectSizerReadCloser R)))
  unfolding responded
  with_header ctx name none = b.client.get ctx name none >>= responded
  with_header ctx name (some (header, none)) = b.client.get ctx name (some header) >>= responded
  with_header ctx name (some (header, some err)) = pure (none, some err)

  -- getRange and GetRange
  unfoldable pub get_range :
      Ctx W → Str → ℤ → ℤ → Go W (Fallible (Option (ObjectSizerReadCloser R)))
  unfolding with_header range_header str_eq
  get_range ctx name off len =
      if str_eq name []
      then pure (none, some (new_error "given object name should not empty"))
      else with_header ctx name (range_header off len)

  unfoldable pub get : Ctx W → Str → Go W (Fallible (Option (ObjectSizerReadCloser R)))
  unfolding get_range
  get ctx name = get_range ctx name (pos 0) (negsuc 0)

  -- the loop of Iter over what listObjects sends
  abbrev pub received : Callback W → Option (List ObjectInfo) → Go W (Option Error)
  received f none = λ w. panics
  received f (some objects) = visit f objects

  -- Iter, over at most `fuel` pages; a longer listing has no outcome
  unfoldable pub iter_within : ℕ → Ctx W → Str → Callback W → List IterOption → Go W (Option Error)
  unfolding visit list_objects dir_prefix
  iter_within fuel ctx dir f options =
      received f
        (list_objects b.client fuel ctx (dir_prefix dir) (apply_iter_options options).recursive)

  -- the Bucket of a program
  unfoldable pub cos_bucket : TimeParse → ℕ → Bucket W (ObjectSizerReadCloser R)
  unfolding iter_within get get_range has_object is_obj_not_found_err attributes upload delete
  cos_bucket parse fuel = record {
    iter = λ ctx dir f options. iter_within fuel ctx dir f options;
    get = get;
    get_range = get_range;
    has_object = has_object;
    is_obj_not_found_err = is_obj_not_found_err;
    is_customer_managed_key_error = is_customer_managed_key_error;
    attributes = attributes parse;
    upload = upload b;
    delete = delete;
    name = pure b.name;
    close = pure none;
  }
