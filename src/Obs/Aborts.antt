-- ===== src/Obs/Aborts.antt =====
-- The part that AbortMultipartUpload has in Upload of the OBS bucket.
use objstore.Prelude.{
  ℕ, zero, suc, ◌+◌, ◌-◌, ◌*◌, ◌≡◌, refl, none, some, List, [], ◌∷◌, ◌++◌, ap, ◌∙◌, fun_ext, Option,
  ◌==◌, leb, if◌then◌else◌,
}
use objstore.Prelude.Int.{ℤ, pos, negsuc}
use objstore.Text.{Str}
use objstore.Errors.{Error, new_error, ErrorsPkg}
use objstore.Go.{Go, pure, Fallible, ◌>>=◌}
use objstore.Reader.{Reader, Stream, try_to_get_size, read_all}
use objstore.Chunks.{after, stream_of}
use objstore.Obs.Sdk.{Part, ObsBucket}
use objstore.Obs.{
  part_sum, size_of_part, part_sent, upload_parts, multipart_upload, completed, initiated,
  put_object_single, upload_sized, upload_with,
}

module _ {W R : Type 0} (p : ErrorsPkg) (b : ObsBucket W R)
    (abort : Str → Str → Str → Go W (Option Error)) where
  -- the bucket with another call to abort an upload
  abbrev pub with_abort : ObsBucket W R
  with_abort = record b { client = record b.client { abort_multipart_upload = abort } }

  sent_same :
      (body : Stream) (parts : List Part) (f g : Stream → List Part → Go W (Fallible (List Part)))
      → ((s : Stream) (ps : List Part) → f s ps ≡ g s ps)
      → (x : Fallible Part × ℕ)
      → part_sent p with_abort body parts f x ≡ part_sent p b body parts g x
  sent_same body parts f g same ((output, some e), n) = refl
  sent_same body parts f g same ((output, none), n) = same (after n body) (parts ++ output ∷ [])

  parts_same :
      (full size : ℕ) (key id : Str) (n i : ℕ) (body : Stream) (parts : List Part)
      → upload_parts p with_abort full size key id n i body parts
        ≡ upload_parts p b full size key id n i body parts
  unfolding upload_parts
  parts_same full size key id zero i body parts = refl
  parts_same full size key id (suc n) i body parts =
      ap
        (λ k.
          b.client.upload_part b.name key (record {
            upload_id = id;
            body = body;
            part_number = pos i;
            part_size = pos (size_of_part full size i);
            offset = pos ((i - 1) * full);
          })
          >>= k)
        (fun_ext (
          sent_same body parts (upload_parts p with_abort full size key id n (i + 1))
            (upload_parts p b full size key id n (i + 1)) (parts_same full size key id n (i + 1))))

  completed_same :
      (name id : Str) (x : Fallible (List Part))
      → completed p with_abort name id x ≡ completed p b name id x
  completed_same name id (ps, some e) = refl
  completed_same name id (ps, none) = refl

  initiated_same :
      (full n : ℕ) (name : Str) (r : Reader) (x : Fallible Str)
      → initiated p with_abort full n name r x ≡ initiated p b full n name r x
  unfolding initiated multipart_upload
  initiated_same full n name r (id, some e) = refl
  initiated_same full n name r (id, none) =
      ap (λ m. m >>= completed p with_abort name id)
        (parts_same full n name id (part_sum full n) 1 (stream_of (read_all r)) [])
      ∙ ap
          (λ k.
            upload_parts p b full n name id (part_sum full n) 1 (stream_of (read_all r)) [] >>= k)
          (fun_ext (completed_same name id))

  sized_same :
      (full : ℕ) (name : Str) (r : Reader) (x : Fallible ℤ)
      → upload_sized p with_abort full name r x ≡ upload_sized p b full name r x
  unfolding upload_sized put_object_single
  sized_same full name r (size, some e) = refl
  sized_same full name r (negsuc n, none) = refl
  sized_same full name r (pos n, none) =
      ap
        (λ k.
          if n == 0
          then pure (some (new_error "object size must be provided"))
          else if leb n full
          then put_object_single p b name r
          else b.client.initiate_multipart_upload b.name name >>= k)
        (fun_ext (initiated_same full n name r))

  -- An upload is the same whatever the client does to abort it: the multi-part upload is aborted on
  -- no branch.
  pub upload_same :
      (full : ℕ) (name : Str) (r : Reader)
      → upload_with p with_abort full name r ≡ upload_with p b full name r
  unfolding upload_with
  upload_same full name r = sized_same full name r (try_to_get_size r)
