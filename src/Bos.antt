-- ===== src/Bos.antt =====
-- providers/bos/bos.go: the bucket of Baidu's object store, over its client as a parameter.
pub mod Sdk
pub mod Config
pub mod Uploads
use objstore.Prelude.{
  ℕ, ◌+◌, ◌-◌, ◌*◌, ◌≡◌, Bool, true, false, ◌||◌, Option, none, some, List, [], ◌∷◌, ◌++◌,
  if◌then◌else◌, codes, ◌==◌,
}
use objstore.Prelude.Int.{ℤ, pos, negsuc, pos_part, eqb_ℤ, add64, sub64, int64_bound}
use objstore.Text.{Str, str_eq, dir_delim, trim_suffix}
use objstore.Errors.{Error, new_error, wrapped, ErrorsPkg}
use objstore.Go.{returns, Go, Ctx, Fallible, pure, ◌>>=◌}
use objstore.Reader.{Reader, Stream, try_to_get_size, read_all}
use objstore.Options.{IterOption, apply_iter_options}
use objstore.Bucket.{Bucket, Callback, ObjectAttributes, zero_attributes}
use objstore.Headers.{TimeParse}
use objstore.Cos.{rfc1123}
use objstore.Cos.Sdk.{Page, ListOptions}
use objstore.Cos.Multipart.{abort_error, wrapped_in}
use objstore.Paging.{Wrapping, page_loop}
use objstore.Chunks.{part_nums, last_slice, after, stream_of, Calls, send_parts}
use objstore.Bos.Sdk.{ObjectMeta, Client, BosBucket}

-- the constant partSize, 128 MB
abbrev pub part_size : ℕ
part_size = 134217728

-- the errors of the loop of Iter, which are handed on as they are
abbrev pub bare : Wrapping
bare = record { closed = λ e. e; failed = λ e. e; called = λ e. e }

abbrev pub dir_prefix : Str → Str
dir_prefix dir = if str_eq dir [] then dir else trim_suffix dir dir_delim ++ dir_delim

abbrev pub not_found_response : Option (ℕ × Str) → Bool
not_found_response none = false
not_found_response (some (status, code)) = status == 404 || str_eq code (codes "NoSuchKey")

abbrev pub modified : ℤ → Fallible ℕ → Fallible ObjectAttributes
modified size (time, some e) = (zero_attributes, some e)
modified size (time, none) = (record { size = size; last_modified = time }, none)

abbrev pub attributes_of : TimeParse → Fallible ObjectMeta → Fallible ObjectAttributes
attributes_of parse (meta, some e) = (zero_attributes, some (wrapped "gettting objectmeta" e))
attributes_of parse (meta, none) = modified meta.content_length (parse rfc1123 meta.last_modified)

-- `uint64(n)` of an int64
abbrev pub to_uint64 : ℤ → ℕ
to_uint64 (pos n) = n
to_uint64 (negsuc n) = 2 * int64_bound - (n + 1)

abbrev pub size_of : Fallible ObjectMeta → Fallible ℕ
size_of (meta, some e) = (0, some e)
size_of (meta, none) = (to_uint64 meta.content_length, none)

-- a body that is made, and the upload that follows
abbrev pub with_body : {W B A : Type 0} → (Error → A) → (B → Go W A) → Fallible B → Go W A
with_body failed next (body, some e) = pure (failed e)
with_body failed next (body, none) = next body

module _ {W R B : Type 0} (p : ErrorsPkg) (b : BosBucket W R B) where
  unfoldable pub delete : Ctx W → Str → Go W (Option Error)
  delete ctx name = b.client.delete_object b.name name

  abbrev pub aborted : ℤ → Str → Error → Option Error → Go W (Fallible (ℤ × Str))
  aborted part etag e abort_err = pure ((part, etag), some (abort_error e abort_err))

  abbrev pub part_of : Str → Str → ℤ → Fallible Str → Go W (Fallible (ℤ × Str))
  part_of name id part (etag, none) = pure ((part, etag), none)
  part_of name id part (etag, some e) =
      b.client.abort_multipart_upload b.name name id >>= aborted part etag e

  abbrev pub with_rest : Stream → Fallible (ℤ × Str) → Go W (Fallible (ℤ × Str) × Stream)
  with_rest r result = pure (result, r)

  -- uploadEveryPart, with the reader that it leaves
  unfoldable pub upload_every_part : Str → Str → ℤ → ℤ → Stream → Go W (Fallible (ℤ × Str) × Stream)
  upload_every_part name id size part r =
      let (body, n) = b.client.new_body_from_sized_reader r size in
      with_body (λ e. ((part, []), some e))
        (λ x. b.client.upload_part b.name name id part x >>= part_of name id part) body
      >>= with_rest (after n r)

  -- CompleteMultipartUploadFromStruct
  unfoldable pub complete : Str → Str → List (ℤ × Str) → Go W (Option Error)
  complete name id parts = do
    err ← b.client.complete_multipart_upload b.name name id parts
    pure (wrapped_in "failed to set upload completed" err)

  abbrev pub calls : Str → Str → Calls W (ℤ × Str)
  calls name id = record {
    send = upload_every_part name id;
    complete = complete name id;
    part_error = λ e. wrapped "failed to upload part" e;
    last_error = λ e. wrapped "failed to upload the last part" e;
  }

  unfoldable pub put_whole : Str → ℤ → Reader → Go W (Option Error)
  put_whole name size r =
      with_body (λ e. some (wrapped "failed to create SizedReader" e))
        (λ x. b.client.put_object b.name name x >>= λ err. pure (wrapped_in "failed to upload" err))
        (b.client.new_body_from_sized_reader (stream_of (read_all r)) size).0

  -- Upload with parts of `full` bytes, once the upload is initiated
  unfoldable pub initiated : ℕ → Str → ℤ → Reader → Fallible Str → Go W (Option Error)
  unfolding send_parts upload_every_part complete read_all
  initiated full name size r (id, some e) =
      pure (some (wrapped "failed to initiate MultipartUpload" e))
  initiated full name size r (id, none) =
      send_parts (calls name id) full (pos_part (part_nums full size)) 1 (last_slice full size)
        (part_nums full size) (stream_of (read_all r)) []

  unfoldable pub upload_sized : ℕ → Str → Reader → Fallible ℤ → Go W (Option Error)
  unfolding initiated put_whole
  upload_sized full name r (size, some e) = pure (some (wrapped "getting size" e))
  upload_sized full name r (size, none) =
      if eqb_ℤ (part_nums full size) (pos 0)
      then put_whole name (last_slice full size) r
      else b.client.initiate_multipart_upload b.name name >>= initiated full name size r

  unfoldable pub upload_with : ℕ → Str → Reader → Go W (Option Error)
  unfolding upload_sized try_to_get_size
  upload_with full name r = upload_sized full name r (try_to_get_size r)

  unfoldable pub upload : Ctx W → Str → Reader → Go W (Option Error)
  unfolding upload_with
  upload ctx name r = upload_with part_size name r

  -- Iter, over at most `fuel` pages; a longer listing has no outcome
  unfoldable pub iter_within : ℕ → Ctx W → Str → Callback W → List IterOption → Go W (Option Error)
  unfolding page_loop str_eq
  iter_within fuel ctx dir f options =
      let delimiter = if (apply_iter_options options).recursive then [] else dir_delim in
      page_loop bare f ctx
        (λ marker. b.client.list_objects b.name (record {
          prefix = dir_prefix dir;
          max_keys = 1000;
          marker = marker;
          delimiter = delimiter;
        }))
        fuel []

  -- the ranges of getRange
  unfoldable pub ranges : ℤ → ℤ → List ℤ
  unfolding add64 sub64
  ranges off len =
      if eqb_ℤ len (negsuc 0) then off ∷ [] else off ∷ sub64 (add64 off len) (pos 1) ∷ []

  -- getRange and GetRange
  unfoldable pub get_range : Ctx W → Str → ℤ → ℤ → Go W (Fallible (Option R))
  unfolding ranges
  get_range ctx name off len =
      if str_eq name []
      then pure (none, some (new_error "given object name should not empty"))
      else b.client.get_object b.name name (ranges off len) >>= λ r.
          pure (elim r.1 [ none ↦ r | some e ↦ (none, some e) ])

  unfoldable pub get : Ctx W → Str → Go W (Fallible (Option R))
  unfolding get_range
  get ctx name = get_range ctx name (pos 0) (negsuc 0)

  unfoldable pub is_obj_not_found_err : Error → Bool
  unfolding str_eq
  is_obj_not_found_err err = not_found_response (b.client.error_response (p.cause err))

  abbrev pub is_customer_managed_key_error : Error → Bool
  is_customer_managed_key_error err = false

  -- the end of Exists
  unfoldable pub exists_of : Fallible ObjectMeta → Fallible Bool
  unfolding is_obj_not_found_err
  exists_of (meta, none) = (true, none)
  exists_of (meta, some err) =
      if is_obj_not_found_err err
      then (false, none)
      else (false, some (wrapped "getting object metadata" err))

  unfoldable pub has_object : Ctx W → Str → Go W (Fallible Bool)
  unfolding exists_of
  has_object ctx name = do meta ← b.client.get_object_meta b.name name; pure (exists_of meta)

  unfoldable pub attributes : TimeParse → Ctx W → Str → Go W (Fallible ObjectAttributes)
  attributes parse ctx name = do
    meta ← b.client.get_object_meta b.name name
    pure (attributes_of parse meta)

  -- ObjectSize, with the conversion of its length to a uint64
  unfoldable pub object_size : Ctx W → Str → Go W (Fallible ℕ)
  object_size ctx name = do meta ← b.client.get_object_meta b.name name; pure (size_of meta)

  -- the Bucket of a program
  unfoldable pub bos_bucket : TimeParse → ℕ → Bucket W R
  unfolding iter_within get get_range has_object is_obj_not_found_err attributes upload delete
  bos_bucket parse fuel = record {
    iter = λ ctx dir f options. iter_within fuel ctx dir f options;
    get = get;
    get_range = get_range;
    has_object = has_object;
    is_obj_not_found_err = is_obj_not_found_err;
    is_customer_managed_key_error = is_customer_managed_key_error;
    attributes = attributes parse;
    upload = upload;
    delete = delete;
    name = pure b.name;
    close = pure none;
  }
