-- ===== src/Obs/Uploads.antt =====
-- What Upload of the OBS bucket asks the service for.
use objstore.Prelude.{
  ℕ, zero, suc, ◌+◌, ◌-◌, ◌*◌, ◌%◌, ◌≡◌, refl, sym, ◌<◌, false, Option, none, some, List, [], ◌∷◌,
  ◌++◌, if◌then◌else◌, ◌==◌, leb, length, arith, ap, ◌∙◌,
}
use mathlib.Core.List.{append-nil, append_assoc}
use objstore.Prelude.Int.{ℤ, pos}
use objstore.Text.{Str}
use objstore.Errors.{Error, ErrorsPkg}
use objstore.Go.{Outcome, returns, panics, returns_injective, Go, Fallible, ◌>>=◌}
use objstore.Reader.{Reader, Stream, try_to_get_size, read_all}
use objstore.Chunks.{after, stream_of}
use objstore.Obs.Sdk.{UploadPartInput, Part, ObsBucket}
use objstore.Obs.{
  part_sum, size_of_part, part_sent, upload_parts, multipart_upload, end_of, completed, initiated,
  upload_sized, upload_with,
}
use objstore.Obs.Sizes.{sizes_from, total, number_from, length-sizes_from, total_lem}

module _ {W R : Type 0} (p : ErrorsPkg) (b : ObsBucket W R) (requests : W → List (ℤ × ℤ)) where
  -- A client that notes the number and the size of the parts that it uploads.
  abbrev pub Notes : Type 0
  Notes =
      (key : Str) (input : UploadPartInput) (x : Part) (n : ℕ) (w w' : W)
      → b.client.upload_part b.name key input w ≡ returns (((x, none), n), w')
      → requests w' ≡ requests w ++ (input.part_number, input.part_size) ∷ []

  part_inv :
      (o : Outcome ((Fallible Part × ℕ) × W)) (body : Stream) (parts : List Part)
      (rest : Stream → List Part → Go W (Fallible (List Part))) (ps : List Part) (w w' : W)
      → ((λ _. o) >>= part_sent p b body parts rest) w ≡ returns ((ps, none), w')
      → (x : Part) × (n : ℕ) × (w1 : W) × (o ≡ returns (((x, none), n), w1))
        × (rest (after n body) (parts ++ x ∷ []) w1 ≡ returns ((ps, none), w'))
  part_inv panics body parts rest ps w w' h = cc
  part_inv (returns (((x, some e), n), w1)) body parts rest ps w w' h = cc
  part_inv (returns (((x, none), n), w1)) body parts rest ps w w' h = (x, n, w1, refl, h)

  parts_asked :
      (full size : ℕ) (key id : Str) (n i : ℕ) (body : Stream) (parts ps : List Part) (w w' : W)
      → Notes
      → upload_parts p b full size key id n i body parts w ≡ returns ((ps, none), w')
      → requests w' ≡ requests w ++ number_from i (sizes_from full size n i)
  unfolding upload_parts number_from sizes_from
  parts_asked full size key id zero i body parts ps w w' notes h =
      ap (λ x. requests x) (sym (ap (λ x. x.1) (returns_injective h)))
      ∙ sym (append-nil (requests w))
  parts_asked full size key id (suc n) i body parts ps w w' notes h =
      let input : UploadPartInput = record {
        upload_id = id;
        body = body;
        part_number = pos i;
        part_size = pos (size_of_part full size i);
        offset = pos ((i - 1) * full);
      } in
      let (x, m, w1, o, left) =
        part_inv (b.client.upload_part b.name key input w) body parts
          (upload_parts p b full size key id n (i + 1)) ps w w' h in
      parts_asked full size key id n (i + 1) (after m body) (parts ++ x ∷ []) ps w1 w' notes left
      ∙ (ap (λ t. t ++ number_from (i + 1) (sizes_from full size n (i + 1)))
            (notes key input x m w w1 o)
          ∙ append_assoc (requests w) ((pos i, pos (size_of_part full size i)) ∷ [])
              (number_from (i + 1) (sizes_from full size n (i + 1))))

  end_inv :
      (o : Outcome (Option Error × W)) (name id : Str) (w : W) (w' : W)
      → ((λ _. o) >>= end_of p b name id) w ≡ returns (none, w')
      → o ≡ returns (none, w')
  end_inv panics name id w w' h = cc
  end_inv (returns (some e, v)) name id w w' h = cc
  end_inv (returns (none, v)) name id w w' h =
      ap (λ x. returns (none, x)) (ap (λ x. x.1) (returns_injective h))

  completed_inv :
      (o : Outcome (Fallible (List Part) × W)) (name id : Str) (w w' : W)
      → ((λ _. o) >>= completed p b name id) w ≡ returns (none, w')
      → (ps : List Part) × (w1 : W) × (o ≡ returns ((ps, none), w1))
        × (b.client.complete_multipart_upload b.name name id ps w1 ≡ returns (none, w'))
  completed_inv panics name id w w' h = cc
  completed_inv (returns ((ps, some e), w1)) name id w w' h = cc
  completed_inv (returns ((ps, none), w1)) name id w w' h = (
    ps,
    w1,
    refl,
    end_inv (b.client.complete_multipart_upload b.name name id ps w1) name id w1 w' h,
  )

  initiated_inv :
      (full n : ℕ) (name : Str) (r : Reader) (o : Outcome (Fallible Str × W)) (w w' : W)
      → ((λ _. o) >>= initiated p b full n name r) w ≡ returns (none, w')
      → (id : Str) × (w0 : W) × (o ≡ returns ((id, none), w0))
        × (initiated p b full n name r (id, none) w0 ≡ returns (none, w'))
  unfolding initiated
  initiated_inv full n name r panics w w' h = cc
  initiated_inv full n name r (returns ((id, none), w0)) w w' h = (id, w0, refl, h)
  initiated_inv full n name r (returns ((id, some e), w0)) w w' h = cc

  with_parts :
      (full n : ℕ) (name : Str) (r : Reader)
      → full < n
      → try_to_get_size r ≡ (pos n, none)
      → upload_with p b full name r
        ≡ b.client.initiate_multipart_upload b.name name >>= initiated p b full n name r
  unfolding upload_with
  with_parts full n name r f size =
      let not_empty : (n == 0) ≡ false = ground arith in
      let too_large : leb n full ≡ false = ground arith in
      rw size (unfold upload_sized in rw (not_empty, too_large) refl)

  -- An upload of more bytes than a part takes that succeeds has asked for parts numbered from 1 on,
  -- as many as the size divided by that of a part, rounded up, and has then been completed. The
  -- sizes that it asks for sum to the size of the object, except that for a multiple of the size of
  -- a part they are one part short; if the client notes what it is asked for.
  pub upload_asks :
      (full n : ℕ) (name : Str) (r : Reader) (w w' : W)
      → Notes
      → 0 < full
      → full < n
      → try_to_get_size r ≡ (pos n, none)
      → upload_with p b full name r w ≡ returns (none, w')
      → (id : Str) × (w0 : W) × (w1 : W) × (ps : List Part) × (sizes : List ℕ)
        × (b.client.initiate_multipart_upload b.name name w ≡ returns ((id, none), w0))
        × (requests w1 ≡ requests w0 ++ number_from 1 sizes)
        × (b.client.complete_multipart_upload b.name name id ps w1 ≡ returns (none, w'))
        × (length sizes ≡ part_sum full n)
        × (total sizes + (if n % full == 0 then full else 0) ≡ n)
  upload_asks full n name r w w' notes q f size h =
      let (id, w0, o, k) =
        initiated_inv full n name r (b.client.initiate_multipart_upload b.name name w) w w'
          (ap (λ g. g w) (sym (with_parts full n name r f size)) ∙ h) in
      let body = stream_of (read_all r) in
      let (ps, w1, sent, done) =
        completed_inv (multipart_upload p b full n name id body w0) name id w0 w'
          (unfold initiated in k) in
      (
        id,
        w0,
        w1,
        ps,
        sizes_from full n (part_sum full n) 1,
        o,
        parts_asked full n name id (part_sum full n) 1 body [] ps w0 w1 notes
            (unfold multipart_upload in sent),
        done,
        length-sizes_from full n (part_sum full n) 1,
        total_lem full n q f,
      )
