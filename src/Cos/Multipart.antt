-- ===== src/Cos/Multipart.antt =====
-- Upload of the COS bucket.
use objstore.Prelude.{ℕ, String, Option, none, some, List, [], if◌then◌else◌, ltb, take, length}
use objstore.Prelude.Int.{ℤ, pos, negsuc, eqb_ℤ, pos_part}
use objstore.Text.{Str}
use objstore.Errors.{Error, wrapped}
use objstore.Go.{Go, Ctx, Fallible, pure, ◌>>=◌}
use objstore.Reader.{Reader, Stream, try_to_get_size, read_all}
use objstore.Chunks.{part_nums, last_slice, after, stream_of, Calls, send_parts}
use objstore.Cos.Sdk.{FixedLengthReader, Part, CosBucket}

-- the constant partSize, 128 MB
abbrev pub part_size : ℕ
part_size = 134217728

-- io.LimitReader
abbrev pub limit : Stream → ℤ → Stream
limit s (negsuc n) = record { bytes = []; read_err = none }
limit s (pos n) = record {
  bytes = take n s.bytes;
  read_err = if ltb (length s.bytes) n then s.read_err else none;
}

-- newFixedLengthReader
abbrev pub new_fixed_length_reader : Stream → ℤ → FixedLengthReader
new_fixed_length_reader r size = record { limited = limit r size; size = size }

-- the errors of Upload's calls, with what they are wrapped in
abbrev pub wrapped_in : String → Option Error → Option Error
wrapped_in m none = none
wrapped_in m (some e) = some (wrapped m e)

-- the end of uploadEveryPart: an upload that failed is aborted, and the error of AbortMultipartUpload
-- takes the place of the first one
abbrev pub abort_error : Error → Option Error → Error
abort_error e none = e
abort_error e (some abort_err) = abort_err

module _ {W R : Type 0} (b : CosBucket W R) (ctx : Ctx W) (name : Str) where
  abbrev pub aborted_part : ℤ → Stream → Error → Option Error → Go W (Fallible Part × Stream)
  aborted_part part r e abort_err =
      pure ((record { number = part; etag = [] }, some (abort_error e abort_err)), r)

  -- the end of uploadEveryPart, with the entry of the part and the reader that it leaves
  abbrev pub sent : Str → ℤ → Stream → Fallible Str × ℕ → Go W (Fallible Part × Stream)
  sent upload_id part r ((etag, none), n) =
      pure ((record { number = part; etag = etag }, none), after n r)
  sent upload_id part r ((etag, some e), n) =
      b.client.abort_multipart_upload ctx name upload_id >>= aborted_part part (after n r) e

  -- uploadEveryPart
  unfoldable pub upload_every_part : Str → ℤ → ℤ → Stream → Go W (Fallible Part × Stream)
  upload_every_part upload_id size part r =
      b.client.upload_part ctx name upload_id part (new_fixed_length_reader r size) size
      >>= sent upload_id part r

  -- CompleteMultipartUpload
  unfoldable pub complete : Str → List Part → Go W (Option Error)
  complete upload_id parts = do
    err ← b.client.complete_multipart_upload ctx name upload_id parts
    pure (wrapped_in "CompleteMultipartUpload" err)

  abbrev pub calls : Str → Calls W Part
  calls upload_id = record {
    send = upload_every_part upload_id;
    complete = complete upload_id;
    part_error = λ e. wrapped "uploadPart" e;
    last_error = λ e. wrapped "uploadPart" e;
  }

  unfoldable pub put_whole : Reader → Go W (Option Error)
  put_whole r = do err ← b.client.put ctx name r; pure (wrapped_in "Put object" err)

  -- Upload with parts of `full` bytes, once the upload is initiated
  unfoldable pub initiated : ℕ → ℤ → Reader → Fallible Str → Go W (Option Error)
  unfolding send_parts upload_every_part complete read_all
  initiated full size r (upload_id, some e) = pure (some (wrapped "InitiateMultipartUpload" e))
  initiated full size r (upload_id, none) =
      send_parts (calls upload_id) full (pos_part (part_nums full size)) 1 (last_slice full size)
        (part_nums full size) (stream_of (read_all r)) []

  unfoldable pub upload_sized : ℕ → Reader → Fallible ℤ → Go W (Option Error)
  unfolding initiated put_whole
  upload_sized full r (size, some e) = pure (some (wrapped "getting size" e))
  upload_sized full r (size, none) =
      if eqb_ℤ (part_nums full size) (pos 0)
      then put_whole r
      else b.client.initiate_multipart_upload ctx name >>= initiated full size r

  unfoldable pub upload_with : ℕ → Reader → Go W (Option Error)
  unfolding upload_sized try_to_get_size
  upload_with full r = upload_sized full r (try_to_get_size r)

-- Upload
unfoldable pub upload : {W R : Type 0} → CosBucket W R → Ctx W → Str → Reader → Go W (Option Error)
unfolding upload_with
upload b ctx name r = upload_with b ctx name part_size r
