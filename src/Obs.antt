-- ===== src/Obs.antt =====
-- providers/obs/obs.go: the bucket of Huawei's object store, over its client as a parameter.
pub mod Sdk
pub mod Config
pub mod Spaces
pub mod Sizes
pub mod Uploads
pub mod Aborts
use objstore.Prelude.{
  ℕ, zero, suc, ◌+◌, ◌-◌, ◌*◌, ◌/◌, ◌%◌, Bool, true, false, Option, none, some, List, [], ◌∷◌, ◌++◌,
  if◌then◌else◌, codes, ◌==◌, leb,
}
use objstore.Prelude.Int.{ℤ, pos, negsuc, eqb_ℤ, leb_ℤ, ltb_ℤ, add64, sub64, int64_bound}
use objstore.Text.{Str, str_eq, dir_delim, trim_suffix}
use objstore.Errors.{Error, new_error, wrapped, ErrorsPkg}
use objstore.Go.{Go, Ctx, Fallible, pure, ◌>>=◌}
use objstore.Reader.{Reader, Stream, try_to_get_size, read_all}
use objstore.Options.{IterOption, apply_iter_options}
use objstore.Bucket.{Bucket, Callback, ObjectAttributes, zero_attributes}
use objstore.Cos.Multipart.{wrapped_in}
use objstore.Paging.{Wrapping, page_loop}
use objstore.Chunks.{after, stream_of}
use objstore.Obs.Sdk.{UploadPartInput, Part, Client, ObsBucket}
use objstore.Obs.Spaces.{start, is_blank}

-- MinMultipartUploadSize and PartSize, 100 MB
abbrev pub part_size : ℕ
part_size = 104857600

-- what Iter wraps errors in; that of a call also says which object or directory it was for
abbrev pub iter_errors : Wrapping
iter_errors = record {
  closed = λ e. e;
  failed = λ e. wrapped "failed to list object" e;
  called = λ e. wrapped "failed to call iter function" e;
}

-- Iter does not look at its context.
abbrev pub background : {W : Type 0} → Ctx W
background = record { err = λ w. none; value = λ k. none }

abbrev pub dir_prefix : Str → Str
dir_prefix dir = if str_eq dir [] then dir else trim_suffix dir dir_delim ++ dir_delim

abbrev pub attributes_of : Fallible (ℤ × ℕ) → Fallible ObjectAttributes
attributes_of (output, some e) = (zero_attributes, some (wrapped "failed to get object metadata" e))
attributes_of ((size, time), none) = (record { size = size; last_modified = time }, none)

abbrev pub not_found_status : Option Str → Bool
not_found_status none = false
not_found_status (some status) = str_eq status (codes "404 Not Found")

-- `int(math.Ceil(float64(size) / float64(PartSize)))`
abbrev pub part_sum : ℕ → ℕ → ℕ
part_sum full size = if size % full == 0 then size / full else size / full + 1

-- the size of the part `i` of multipartUpload
abbrev pub size_of_part : ℕ → ℕ → ℕ → ℕ
size_of_part full size i = if i == part_sum full size then size % full else full

module _ {W R : Type 0} (p : ErrorsPkg) (b : ObsBucket W R) where
  unfoldable pub delete : Ctx W → Str → Go W (Option Error)
  delete ctx name = b.client.delete_object b.name name

  unfoldable pub put_object_single : Str → Reader → Go W (Option Error)
  put_object_single key body = do
    err ← b.client.put_object b.name key body
    pure (wrapped_in "failed to upload object" err)

  abbrev pub part_sent :
      Stream
      → List Part
      → (Stream → List Part → Go W (Fallible (List Part)))
      → Fallible Part × ℕ
      → Go W (Fallible (List Part))
  part_sent body parts rest ((output, some e), n) =
      pure ([], some (wrapped "failed to multipart upload" e))
  part_sent body parts rest ((output, none), n) = rest (after n body) (parts ++ output ∷ [])

  -- the loop of multipartUpload, of which `n` rounds are left, from the part `i` on
  unfoldable pub upload_parts :
      ℕ → ℕ → Str → Str → ℕ → ℕ → Stream → List Part → Go W (Fallible (List Part))
  upload_parts full size key id zero i body parts = pure (parts, none)
  upload_parts full size key id (suc n) i body parts =
      b.client.upload_part b.name key (record {
        upload_id = id;
        body = body;
        part_number = pos i;
        part_size = pos (size_of_part full size i);
        offset = pos ((i - 1) * full);
      })
      >>= part_sent body parts (upload_parts full size key id n (i + 1))

  -- multipartUpload
  unfoldable pub multipart_upload : ℕ → ℕ → Str → Str → Stream → Go W (Fallible (List Part))
  unfolding upload_parts
  multipart_upload full size key id body =
      upload_parts full size key id (part_sum full size) 1 body []

  -- the deferred function of Upload, on the variable err of the function
  abbrev pub deferred : Str → Str → Option Error → Go W (Option Error)
  deferred name id none = pure none
  deferred name id (some e) = do
    err ← b.client.abort_multipart_upload b.name name id
    pure (wrapped_in "failed to abort multipart upload" err)

  -- The end of Upload with a result. What follows initiateMultipartUpload declares another err, so
  -- the one that the deferred function sees is nil, as initiateMultipartUpload has left it; and it
  -- is no result of the function.
  abbrev pub finished : Str → Str → Option Error → Go W (Option Error)
  finished name id result = deferred name id none >>= λ _. pure result

  abbrev pub end_of : Str → Str → Option Error → Go W (Option Error)
  end_of name id err = finished name id (wrapped_in "failed to complete multipart upload" err)

  abbrev pub completed : Str → Str → Fallible (List Part) → Go W (Option Error)
  completed name id (parts, some e) = finished name id (some e)
  completed name id (parts, none) =
      b.client.complete_multipart_upload b.name name id parts >>= end_of name id

  -- Upload with parts of `full` bytes, once the upload is initiated
  unfoldable pub initiated : ℕ → ℕ → Str → Reader → Fallible Str → Go W (Option Error)
  unfolding multipart_upload read_all
  initiated full size name r (id, some e) =
      pure (some (wrapped "failed to init multipart upload job" e))
  initiated full size name r (id, none) =
      multipart_upload full size name id (stream_of (read_all r)) >>= completed name id

  unfoldable pub upload_sized : ℕ → Str → Reader → Fallible ℤ → Go W (Option Error)
  unfolding initiated put_object_single
  upload_sized full name r (size, some e) =
      pure (some (wrapped "failed to get size apriori to upload" e))
  upload_sized full name r (negsuc n, none) = pure (some (new_error "object size must be provided"))
  upload_sized full name r (pos n, none) =
      if n == 0
      then pure (some (new_error "object size must be provided"))
      else if leb n full
      then put_object_single name r
      else b.client.initiate_multipart_upload b.name name >>= initiated full n name r

  unfoldable pub upload_with : ℕ → Str → Reader → Go W (Option Error)
  unfolding upload_sized try_to_get_size
  upload_with full name r = upload_sized full name r (try_to_get_size r)

  unfoldable pub upload : Ctx W → Str → Reader → Go W (Option Error)
  unfolding upload_with
  upload ctx name r = upload_with part_size name r

  -- Iter, over at most `fuel` pages; a longer listing has no outcome
  unfoldable pub iter_within : ℕ → Ctx W → Str → Callback W → List IterOption → Go W (Option Error)
  unfolding page_loop str_eq
  iter_within fuel ctx dir f options =
      let delimiter = if (apply_iter_options options).recursive then [] else dir_delim in
      page_loop iter_errors f background
        (λ marker. b.client.list_objects b.name (record {
          prefix = dir_prefix dir;
          max_keys = 0;
          marker = marker;
          delimiter = delimiter;
        }))
        fuel []

  -- the last byte that getRange asks for
  unfoldable pub range_end : ℤ → ℤ → ℤ
  unfolding add64 sub64
  range_end off len =
      if eqb_ℤ len (negsuc 0) then pos (int64_bound - 1) else sub64 (add64 off len) (pos 1)

  abbrev pub opened : Fallible (Option R) → Fallible (Option R)
  opened (output, some e) = (none, some (wrapped "failed to get object" e))
  opened (output, none) = (output, none)

  -- getRange and GetRange
  unfoldable pub get_range : Ctx W → Str → ℤ → ℤ → Go W (Fallible (Option R))
  unfolding range_end is_blank
  get_range ctx name off len =
      if is_blank (some start) name
      then pure (none, some (new_error "object name cannot be empty"))
      else if ltb_ℤ off (pos 0)
      then pure (none, some (new_error "incorrect offset"))
      else b.client.get_object b.name name off (range_end off len) >>= λ r. pure (opened r)

  unfoldable pub get : Ctx W → Str → Go W (Fallible (Option R))
  unfolding get_range
  get ctx name = get_range ctx name (pos 0) (negsuc 0)

  unfoldable pub is_obj_not_found_err : Error → Bool
  unfolding str_eq
  is_obj_not_found_err err = not_found_status (b.client.error_status (p.cause err))

  abbrev pub is_customer_managed_key_error : Error → Bool
  is_customer_managed_key_error err = false

  -- the end of Exists
  unfoldable pub exists_of : Fallible (ℤ × ℕ) → Fallible Bool
  unfolding is_obj_not_found_err
  exists_of (output, none) = (true, none)
  exists_of (output, some err) =
      if is_obj_not_found_err err
      then (false, none)
      else (false, some (wrapped "failed to get object metadata" err))

  unfoldable pub has_object : Ctx W → Str → Go W (Fallible Bool)
  unfolding exists_of
  has_object ctx name = do
    output ← b.client.get_object_metadata b.name name
    pure (exists_of output)

  unfoldable pub attributes : Ctx W → Str → Go W (Fallible ObjectAttributes)
  attributes ctx name = do
    output ← b.client.get_object_metadata b.name name
    pure (attributes_of output)

  -- the Bucket of a program
  unfoldable pub obs_bucket : ℕ → Bucket W R
  unfolding iter_within get get_range has_object is_obj_not_found_err attributes upload delete
  obs_bucket fuel = record {
    iter = λ ctx dir f options. iter_within fuel ctx dir f options;
    get = get;
    get_range = get_range;
    has_object = has_object;
    is_obj_not_found_err = is_obj_not_found_err;
    is_customer_managed_key_error = is_customer_managed_key_error;
    attributes = attributes;
    upload = upload;
    delete = delete;
    name = pure b.name;
    close = pure none;
  }
