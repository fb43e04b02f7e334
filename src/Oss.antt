-- ===== src/Oss.antt =====
-- providers/oss/oss.go: the bucket of Aliyun's object store, over its client as a parameter.
pub mod Sdk
pub mod Config
pub mod Ranges
use objstore.Prelude.{
  ℕ, Bool, true, false, ◌&&◌, Option, none, some, List, [], ◌∷◌, ◌++◌, if◌then◌else◌, codes, ◌==◌,
}
use objstore.Prelude.Int.{ℤ, pos, negsuc, pos_part, eqb_ℤ, leb_ℤ, ltb_ℤ, add64, sub64}
use objstore.Text.{Str, str_eq, dir_delim, trim_suffix}
use objstore.Text.Decimal.{parse_int}
use objstore.Dict.{lookup}
use objstore.Errors.{Error, new_error, wrapped, ErrorsPkg}
use objstore.Go.{panics, Go, Ctx, Fallible, pure, ◌>>=◌}
use objstore.Reader.{Reader, Stream, try_to_get_size, read_all}
use objstore.Options.{IterOption, apply_iter_options}
use objstore.Bucket.{Bucket, Callback, ObjectAttributes, zero_attributes}
use objstore.Headers.{Header, TimeParse}
use objstore.Headers.Clientutil.{parse_content_length, parse_last_modified}
use objstore.Cos.{rfc1123}
use objstore.Cos.Multipart.{wrapped_in}
use objstore.Paging.{Wrapping, page_loop}
use objstore.Chunks.{part_nums, last_slice, after, stream_of, Calls, send_parts}
use objstore.Oss.Sdk.{Client, OssBucket}

-- PartSize, 128 MB
abbrev pub part_size : ℕ
part_size = 134217728

-- what Iter wraps errors in; that of a call also says which object or directory it was for
abbrev pub iter_errors : Wrapping
iter_errors = record {
  closed = λ e. wrapped "context closed while iterating bucket" e;
  failed = λ e. wrapped "listing aliyun oss bucket failed" e;
  called = λ e. wrapped "callback func invoke" e;
}

abbrev pub dir_prefix : Str → Str
dir_prefix dir = if str_eq dir [] then dir else trim_suffix dir dir_delim ++ dir_delim

abbrev pub modified : ℤ → Fallible ℕ → Fallible ObjectAttributes
modified size (time, some e) = (zero_attributes, some e)
modified size (time, none) = (record { size = size; last_modified = time }, none)

abbrev pub sized : TimeParse → Header → Fallible ℤ → Fallible ObjectAttributes
sized parse m (size, some e) = (zero_attributes, some e)
sized parse m (size, none) = modified size (parse_last_modified parse m rfc1123)

abbrev pub attributes_of : TimeParse → Fallible Header → Fallible ObjectAttributes
attributes_of parse (m, some e) = (zero_attributes, some e)
attributes_of parse (m, none) = sized parse m (parse_content_length m)

abbrev pub not_found_status : Option ℕ → Bool
not_found_status none = false
not_found_status (some status) = status == 404

-- what uploadEveryPart wraps its errors in, after the attempt to abort the upload
abbrev pub abort_error : Error → Option Error → Error
abort_error e none = wrapped "failed to upload multi-part chunk" e
abort_error e (some abort_err) = wrapped "failed to abort multi-part upload" abort_err

-- the range that setRange makes for an object of a size
abbrev pub clamped : ℤ → ℤ → Fallible ℤ → Fallible (Option (ℤ × ℤ))
clamped start end (size, some e) = (none, some e)
clamped start end (size, none) =
    (some (start, if ltb_ℤ size end then sub64 size (pos 1) else end), none)

-- `header["Content-Length"][0]`, which is an index out of range for a header without a value
abbrev pub with_value : {W : Type 0} → ℤ → ℤ → Option (List Str) → Go W (Fallible (Option (ℤ × ℤ)))
with_value start end none = λ w. panics
with_value start end (some []) = λ w. panics
with_value start end (some (v ∷ vs)) = pure (clamped start end (parse_int v))

abbrev pub ranged : {W : Type 0} → ℤ → ℤ → Fallible Header → Go W (Fallible (Option (ℤ × ℤ)))
ranged start end (h, some e) = pure (none, some e)
ranged start end (h, none) = with_value start end (lookup (codes "Content-Length") h)

module _ {W R I P : Type 0} (p : ErrorsPkg) (b : OssBucket W R I P) where
  unfoldable pub delete : Ctx W → Str → Go W (Option Error)
  delete ctx name = do err ← b.bucket.delete_object name; pure (wrapped_in "delete oss object" err)

  unfoldable pub attributes : TimeParse → Ctx W → Str → Go W (Fallible ObjectAttributes)
  unfolding parse_content_length parse_last_modified
  attributes parse ctx name = do m ← b.bucket.get_object_meta name; pure (attributes_of parse m)

  abbrev pub aborted : P → Stream → Error → Option Error → Go W (Fallible P × Stream)
  aborted prt r e abort_err = pure ((prt, some (abort_error e abort_err)), r)

  -- the end of uploadEveryPart, with the reader that it leaves
  abbrev pub sent : I → Stream → Fallible P × ℕ → Go W (Fallible P × Stream)
  sent init r ((prt, none), n) = pure ((prt, none), after n r)
  sent init r ((prt, some e), n) =
      b.bucket.abort_multipart_upload init >>= aborted prt (after n r) e

  unfoldable pub upload_every_part : I → ℤ → ℤ → Stream → Go W (Fallible P × Stream)
  upload_every_part init size part r = b.bucket.upload_part init r size part >>= sent init r

  unfoldable pub complete : I → List P → Go W (Option Error)
  complete init parts = do
    err ← b.bucket.complete_multipart_upload init parts
    pure (wrapped_in "failed to set multi-part upload completive" err)

  abbrev pub calls : I → Calls W P
  calls init = record {
    send = upload_every_part init;
    complete = complete init;
    part_error = λ e. wrapped "failed to upload every part" e;
    last_error = λ e. wrapped "failed to upload the last chunk" e;
  }

  unfoldable pub put_whole : Str → Reader → Go W (Option Error)
  put_whole name r = do
    err ← b.bucket.put_object name r
    pure (wrapped_in "failed to upload oss object" err)

  -- Upload with parts of `full` bytes, once the upload is initiated
  unfoldable pub initiated : ℕ → ℤ → Reader → Fallible I → Go W (Option Error)
  unfolding send_parts upload_every_part complete read_all
  initiated full size r (init, some e) =
      pure (some (wrapped "failed to initiate multi-part upload" e))
  initiated full size r (init, none) =
      send_parts (calls init) full (pos_part (part_nums full size)) 1 (last_slice full size)
        (part_nums full size) (stream_of (read_all r)) []

  unfoldable pub upload_sized : ℕ → Str → Reader → Fallible ℤ → Go W (Option Error)
  unfolding initiated put_whole
  upload_sized full name r (size, some e) =
      pure (some (wrapped "failed to get size apriori to upload" e))
  upload_sized full name r (size, none) =
      if eqb_ℤ (part_nums full size) (pos 0)
      then put_whole name r
      else b.bucket.initiate_multipart_upload name >>= initiated full size r

  unfoldable pub upload_with : ℕ → Str → Reader → Go W (Option Error)
  unfolding upload_sized try_to_get_size
  upload_with full name r = upload_sized full name r (try_to_get_size r)

  unfoldable pub upload : Ctx W → Str → Reader → Go W (Option Error)
  unfolding upload_with
  upload ctx name r = upload_with part_size name r

  -- Iter, over at most `fuel` pages; a longer listing has no outcome
  unfoldable pub iter_within : ℕ → Ctx W → Str → Callback W → List IterOption → Go W (Option Error)
  unfolding page_loop str_eq
  iter_within fuel ctx dir f options =
      let delimiter = if (apply_iter_options options).recursive then none else some dir_delim in
      page_loop iter_errors f ctx
        (λ marker.
          b.bucket.list_objects
            (record { prefix = dir_prefix dir; delimiter = delimiter; marker = marker }))
        fuel []

  unfoldable pub set_range : ℤ → ℤ → Str → Go W (Fallible (Option (ℤ × ℤ)))
  unfolding lookup parse_int sub64
  set_range start end name =
      if leb_ℤ (pos 0) start && leb_ℤ start end
      then b.bucket.get_object_meta name >>= ranged start end
      else pure (none, some (new_error "Invalid range specified"))

  -- the end of getRange, once the options are there
  unfoldable pub opened : Str → Fallible (Option (ℤ × ℤ)) → Go W (Fallible (Option R))
  opened name (opt, some e) = pure (none, some e)
  opened name (opt, none) =
      b.bucket.get_object name opt >>= λ r. pure (elim r.1 [ none ↦ r | some e ↦ (none, some e) ])

  -- getRange and GetRange
  unfoldable pub get_range : Ctx W → Str → ℤ → ℤ → Go W (Fallible (Option R))
  unfolding set_range opened add64 sub64
  get_range ctx name off len =
      if str_eq name []
      then pure (none, some (new_error "given object name should not empty"))
      else if eqb_ℤ len (negsuc 0)
      then opened name (none, none)
      else set_range off (sub64 (add64 off len) (pos 1)) name >>= opened name

  unfoldable pub get : Ctx W → Str → Go W (Fallible (Option R))
  unfolding get_range
  get ctx name = get_range ctx name (pos 0) (negsuc 0)

  unfoldable pub is_obj_not_found_err : Error → Bool
  is_obj_not_found_err err = not_found_status (b.bucket.error_status (p.cause err))

  abbrev pub is_customer_managed_key_error : Error → Bool
  is_customer_managed_key_error err = false

  -- the end of Exists
  unfoldable pub exists_of : Fallible Bool → Fallible Bool
  unfolding is_obj_not_found_err
  exists_of (found, none) = (found, none)
  exists_of (found, some err) =
      if is_obj_not_found_err err
      then (false, none)
      else (false, some (wrapped "cloud not check if object exists" err))

  unfoldable pub has_object : Ctx W → Str → Go W (Fallible Bool)
  unfolding exists_of
  has_object ctx name = do found ← b.bucket.is_object_exist name; pure (exists_of found)

  -- the Bucket of a program
  unfoldable pub oss_bucket : TimeParse → ℕ → Bucket W R
  unfolding iter_within get get_range has_object is_obj_not_found_err attributes upload delete
  oss_bucket parse fuel = record {
    iter = λ ctx dir f options. iter_within fuel ctx dir f options;
    get = get;
    get_range = get_range;
    has_object = has_object;
    is_obj_not_found_err = is_obj_not_found_err;
    is_customer_managed_key_error = is_customer_managed_key_error;
    attributes = attributes parse;
    upload = upload;
    delete = delete;
    name = pure b.name;
    close = pure none;
  }
