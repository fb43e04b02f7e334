-- ===== src/S3/Uploads.antt =====
-- What Upload of the S3 bucket passes to the client.
use objstore.Prelude.{
  ℕ, ◌≡◌, refl, ◌<◌, false, Option, none, some, ltb, if◌then◌else◌, arith, ap, leb,
}
use objstore.Prelude.Int.{ℤ, pos, negsuc, int64_bound}
use objstore.Text.{Str}
use objstore.Errors.{Error, ErrorsPkg}
use objstore.Go.{Go, Ctx, Fallible, pure, ◌>>=◌}
use objstore.Reader.{Reader, try_to_get_size}
use objstore.ReadCloser.{ReadClosers}
use objstore.S3.{
  S3Bucket, upload, put, upload_size, part_size_of, get_server_side_encryption, wrapped_upload,
  context_with_sse_config,
}

-- The size, -1 if it is not known, and the size of the parts, 0 if the client may choose: for an
-- object that is known to be as large as a part, the configured one.
unfoldable pub plan : ℕ → Fallible ℤ → ℤ × ℕ
plan part_size (pos n, none) = (pos n, if ltb n part_size then 0 else part_size)
plan part_size (negsuc n, none) = (negsuc n, 0)
plan part_size (size, some e) = (negsuc 0, 0)

module _ {W R S : Type 0} (p : ErrorsPkg) (rcs : ReadClosers W R) (b : S3Bucket W R S) where
  encryption :
      (ctx : Ctx W) (value : ℕ) (sse : S)
      → b.client.as_server_side value ≡ some sse
      → get_server_side_encryption p rcs b (context_with_sse_config ctx value) ≡ (some sse, none)
  unfolding get_server_side_encryption context_with_sse_config
  encryption ctx value sse s = rw s refl

  part_known :
      (n : ℕ)
      → b.part_size < int64_bound
      → part_size_of p rcs b (pos n) ≡ (if ltb n b.part_size then 0 else b.part_size)
  unfolding part_size_of
  part_known n h =
      let small : leb int64_bound b.part_size ≡ false = ground arith in
      rw (small, part_size_of) (ground arith)

  part_negative : (n : ℕ) → b.part_size < int64_bound → part_size_of p rcs b (negsuc n) ≡ 0
  unfolding part_size_of
  part_negative n h =
      let small : leb int64_bound b.part_size ≡ false = ground arith in
      rw (small, part_size_of) (ground arith)

  plan_lem :
      (size : Fallible ℤ)
      → b.part_size < int64_bound
      → (upload_size p rcs b size, part_size_of p rcs b (upload_size p rcs b size))
        ≡ plan b.part_size size
  unfolding upload_size plan
  plan_lem (pos n, none) h = ap (λ k. (pos n, k)) (part_known n h)
  plan_lem (negsuc n, none) h = ap (λ k. (negsuc n, k)) (part_negative n h)
  plan_lem (pos n, some e) h = ap (λ k. (negsuc 0, k)) (part_negative 0 h)
  plan_lem (negsuc n, some e) h = ap (λ k. (negsuc 0, k)) (part_negative 0 h)

  -- PutObject with a size and a part size, its error wrapped
  abbrev pub put_planned : Ctx W → Str → Reader → Option S → ℤ × ℕ → Go W (Option Error)
  put_planned ctx name r sse (size, part) =
      b.client.put_object ctx b.name name r size (record {
        part_size = part;
        server_side_encryption = sse;
        user_metadata = b.put_user_metadata;
        storage_class = b.storage_class;
        num_threads = 4;
      })
      >>= λ err. pure (wrapped_upload p rcs b err)

  put-plan :
      (ctx : Ctx W) (name : Str) (r : Reader) (sse : Option S) (w : W)
      → b.part_size < int64_bound
      → put p rcs b ctx name r (sse, none) w
        ≡ put_planned ctx name r sse (plan b.part_size (try_to_get_size r)) w
  unfolding put
  put-plan ctx name r sse w h =
      ap (λ x. put_planned ctx name r sse x w) (plan_lem (try_to_get_size r) h)

  -- With a part size that is an int64, and an encryption that an override in the context sets,
  -- Upload passes that encryption on, the size that TryToGetSize finds or -1, and a part size: the
  -- configured one for an object whose size is known and is that part size or more, else 0.
  pub upload_planned :
      (ctx : Ctx W) (name : Str) (r : Reader) (value : ℕ) (sse : S) (w : W)
      → b.part_size < int64_bound
      → b.client.as_server_side value ≡ some sse
      → upload p rcs b (context_with_sse_config ctx value) name r w
        ≡ put_planned
            (context_with_sse_config ctx value)
            name
            r
            (some sse)
            (plan b.part_size (try_to_get_size r))
            w
  unfolding upload
  upload_planned ctx name r value sse w h s =
      rw (encryption ctx value sse s)
        (put-plan (context_with_sse_config ctx value) name r (some sse) w h)
