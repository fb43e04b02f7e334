-- ===== src/Cos/Sending.antt =====
-- The parts that Upload of the COS bucket sends.
use objstore.Prelude.{
  ℕ, ◌+◌, ◌/◌, ◌≡◌, refl, sym, ◌<◌, ◌≤◌, true, false, Option, none, some, List, [], ◌∷◌, ◌++◌,
  length, arith, ap, ◌∙◌, length-take,
}
use objstore.Prelude.Int.{ℤ, pos, eqb_ℤ, int64_bound}
use objstore.Text.{Str}
use objstore.Errors.{Error}
use objstore.Go.{Outcome, returns, panics, returns_injective, Ctx, Fallible, ◌>>=◌}
use objstore.Reader.{Reader, Stream, try_to_get_size, read_all}
use objstore.Chunks.{after}
use objstore.Chunks.Pieces.{concat, all_sized, positive}
use objstore.Chunks.Sending
use objstore.Chunks.Sending.{Sent, whole-Sent}
use objstore.Cos.Sdk.{FixedLengthReader, Part, CosBucket}
use objstore.Cos.Multipart.{
  new_fixed_length_reader, aborted_part, sent, upload_every_part, calls, initiated, upload_sized,
  upload_with,
}

module _ {W R : Type 0} (b : CosBucket W R) (ctx : Ctx W) (name : Str)
    (received : W → List (ℤ × Str)) where
  -- A client that reads all of a part when it uploads it, and a service that keeps its bytes.
  abbrev pub Receives : Type 0
  Receives =
      (id : Str) (part size : ℤ) (reader : FixedLengthReader) (w w' : W) (etag : Str) (n : ℕ)
      → b.client.upload_part ctx name id part reader size w ≡ returns (((etag, none), n), w')
      → (n ≡ length reader.limited.bytes)
        × (received w' ≡ received w ++ (part, reader.limited.bytes) ∷ [])

  abort_inv :
      (o : Outcome (Option Error × W)) (part : ℤ) (e : Error) (s : Stream) (x : Part) (s' : Stream)
      (w w' : W)
      → ((λ _. o) >>= aborted_part b ctx name part s e) w ≡ returns (((x, none), s'), w')
      → ⊥
  abort_inv panics part e s x s' w w' h = cc
  abort_inv (returns (a, v)) part e s x s' w w' h = cc

  upload_inv :
      (o : Outcome ((Fallible Str × ℕ) × W)) (id : Str) (part : ℤ) (s : Stream) (x : Part)
      (s' : Stream) (w w' : W)
      → ((λ _. o) >>= sent b ctx name id part s) w ≡ returns (((x, none), s'), w')
      → (etag : Str) × (n : ℕ) × (o ≡ returns (((etag, none), n), w'))
        × (s' ≡ after n s)
        × (x.number ≡ part)
  upload_inv panics id part s x s' w w' h = cc
  upload_inv (returns (((etag, some e), n), v)) id part s x s' w w' h =
      absurd
        (abort_inv (b.client.abort_multipart_upload ctx name id v) part e (after n s) x s' v w' h)
  upload_inv (returns (((etag, none), n), v)) id part s x s' w w' h =
      let e = returns_injective h in
      (
        etag,
        n,
        ap (λ y. returns (((etag, none), n), y)) (ap (λ y. y.1) e),
        sym (ap (λ y. y.0.1) e),
        sym (ap (λ y. y.0.0.0.number) e),
      )

  part-Receives :
      (id : Str) → Receives → Sending.Receives (calls b ctx name id) (λ x. x.number) received
  unfolding upload_every_part
  part-Receives id r l k s s' x w w' f h =
      let reader = new_fixed_length_reader s (pos l) in
      let (etag, n, o, left, number) =
        upload_inv (b.client.upload_part ctx name id (pos k) reader (pos l) w) id (pos k) s x s' w
          w' h in
      let (all, kept) = r id (pos k) (pos l) reader w w' etag n o in
      (left ∙ ap (λ i. after i s) (all ∙ omega (arith, length-take l s.bytes, f)), kept, number)

  initiated_inv :
      (full : ℕ) (size : ℤ) (r : Reader) (o : Outcome (Fallible Str × W)) (w w' : W)
      → ((λ _. o) >>= initiated b ctx name full size r) w ≡ returns (none, w')
      → (id : Str) × (w0 : W) × (o ≡ returns ((id, none), w0))
        × (initiated b ctx name full size r (id, none) w0 ≡ returns (none, w'))
  unfolding initiated
  initiated_inv full size r panics w w' h = cc
  initiated_inv full size r (returns ((id, none), w0)) w w' h = (id, w0, refl, h)
  initiated_inv full size r (returns ((id, some e), w0)) w w' h = cc

  with_parts :
      (full n : ℕ) (r : Reader)
      → 0 < full
      → full ≤ n
      → try_to_get_size r ≡ (pos n, none)
      → upload_with b ctx name full r
        ≡ b.client.initiate_multipart_upload ctx name >>= initiated b ctx name full (pos n) r
  unfolding upload_with
  with_parts full n r p f size =
      let some_part : eqb_ℤ (pos (n / full)) (pos 0) ≡ false =
        ground (arith, positive full n p f) in
      rw size (unfold upload_sized in rw some_part refl)

  -- An upload of at least one full part that succeeds has sent the object in parts, numbered from 1
  -- on, of which each has a byte and at most as many as a full part, and has then been completed
  -- with one entry for each part, with its number: if the reader yields as many bytes as its size
  -- says, below 2 ^ 63, the client reads all of a part when it uploads it, and the service keeps the
  -- parts.
  pub upload_sends :
      (full : ℕ) (r : Reader) (w w' : W)
      → Receives
      → 0 < full
      → full ≤ length (read_all r).0
      → length (read_all r).0 + 1 < int64_bound
      → try_to_get_size r ≡ (pos (length (read_all r).0), none)
      → upload_with b ctx name full r w ≡ returns (none, w')
      → (id : Str) × (w0 : W) × (cs : List Str) × (b.client.initiate_multipart_upload ctx name w
          ≡ returns ((id, none), w0))
        × Sent (calls b ctx name id) (λ x. x.number) received 1 cs [] w0 w'
        × (concat cs ≡ (read_all r).0)
        × (all_sized full cs ≡ true)
  upload_sends full r w w' keeps p f bound size h =
      let body = (read_all r).0 in
      let (id, w0, o, k) =
        initiated_inv full (pos (length body)) r (b.client.initiate_multipart_upload ctx name w) w
          w' (ap (λ g. g w) (sym (with_parts full (length body) r p f size)) ∙ h) in
      let (cs, sent, whole, sized) =
        whole-Sent (calls b ctx name id) (λ x. x.number) received full body (read_all r).1 w0 w'
          (part-Receives id keeps) p bound (unfold initiated in k) in
      (id, w0, cs, o, sent, whole, sized)
