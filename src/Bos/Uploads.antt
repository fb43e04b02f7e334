-- ===== src/Bos/Uploads.antt =====
-- What Upload of the BOS bucket sends.
use objstore.Prelude.{
  ℕ, ◌+◌, ◌/◌, ◌≡◌, refl, sym, ◌<◌, ◌≤◌, false, Option, none, some, List, [], ◌∷◌, ◌++◌, take,
  length, arith, ap, ◌∙◌, true,
}
use objstore.Prelude.Int.{ℤ, pos, eqb_ℤ, int64_bound}
use objstore.Text.{Str}
use objstore.Errors.{Error, ErrorsPkg}
use objstore.Go.{Outcome, returns, panics, returns_injective, Fallible, ◌>>=◌}
use objstore.Reader.{Reader, Stream, try_to_get_size, read_all}
use objstore.Chunks.{after}
use objstore.Chunks.Pieces.{concat, all_sized, positive}
use objstore.Chunks.Sending
use objstore.Chunks.Sending.{Sent, whole-Sent}
use objstore.Bos.Sdk.{BosBucket}
use objstore.Bos.{
  with_body, part_of, aborted, with_rest, upload_every_part, calls, initiated, upload_sized,
  upload_with,
}

module _ {W R B : Type 0} (p : ErrorsPkg) (b : BosBucket W R B) (bytes_of : B → Str)
    (received : W → List (ℤ × Str)) where
  -- A body has the bytes that are read for it, as many as its size if they are there.
  abbrev pub Reads : Type 0
  Reads =
      (l : ℕ) (s : Stream) (body : B) (n : ℕ)
      → l ≤ length s.bytes
      → b.client.new_body_from_sized_reader s (pos l) ≡ ((body, none), n)
      → (n ≡ l) × (bytes_of body ≡ take l s.bytes)

  -- A service that keeps the parts.
  abbrev pub Keeps : Type 0
  Keeps =
      (name id : Str) (part : ℤ) (body : B) (w w' : W) (etag : Str)
      → b.client.upload_part b.name name id part body w ≡ returns ((etag, none), w')
      → received w' ≡ received w ++ (part, bytes_of body) ∷ []

  abort_inv :
      (o : Outcome (Option Error × W)) (part : ℤ) (etag : Str) (e : Error) (s : Stream)
      (x : ℤ × Str) (s' : Stream) (w w' : W)
      → ((λ _. o) >>= aborted p b part etag e >>= with_rest p b s) w ≡ returns (((x, none), s'), w')
      → ⊥
  abort_inv panics part etag e s x s' w w' h = cc
  abort_inv (returns (a, v)) part etag e s x s' w w' h = cc

  upload_inv :
      (o : Outcome (Fallible Str × W)) (name id : Str) (part : ℤ) (s : Stream) (x : ℤ × Str)
      (s' : Stream) (w w' : W)
      → ((λ _. o) >>= part_of p b name id part >>= with_rest p b s) w
        ≡ returns (((x, none), s'), w')
      → (etag : Str) × (o ≡ returns ((etag, none), w')) × (s' ≡ s) × (x.0 ≡ part)
  upload_inv panics name id part s x s' w w' h = cc
  upload_inv (returns ((etag, some e), v)) name id part s x s' w w' h =
      absurd
        (abort_inv (b.client.abort_multipart_upload b.name name id v) part etag e s x s' v w' h)
  upload_inv (returns ((etag, none), v)) name id part s x s' w w' h =
      let e = returns_injective h in
      (
        etag,
        ap (λ y. returns ((etag, none), y)) (ap (λ y. y.1) e),
        sym (ap (λ y. y.0.1) e),
        sym (ap (λ y. y.0.0.0.0) e),
      )

  body_inv :
      (y : Fallible B × ℕ) (name id : Str) (part : ℤ) (s : Stream) (x : ℤ × Str) (s' : Stream)
      (w w' : W)
      → (with_body
              (λ e. ((part, []), some e))
              (λ z. b.client.upload_part b.name name id part z >>= part_of p b name id part)
              y.0
            >>= with_rest p b (after y.1 s))
          w
        ≡ returns (((x, none), s'), w')
      → (body : B) × (etag : Str) × (y ≡ ((body, none), y.1))
        × (b.client.upload_part b.name name id part body w ≡ returns ((etag, none), w'))
        × (s' ≡ after y.1 s)
        × (x.0 ≡ part)
  body_inv ((body, some e), n) name id part s x s' w w' h = cc
  body_inv ((body, none), n) name id part s x s' w w' h =
      let (etag, o, k, number) =
        upload_inv (b.client.upload_part b.name name id part body w) name id part (after n s) x s' w
          w' h in
      (body, etag, refl, o, k, number)

  part-Receives :
      (name id : Str) → Reads → Keeps → Sending.Receives (calls p b name id) (λ x. x.0) received
  unfolding upload_every_part
  part-Receives name id reads keeps l k s s' x w w' f h =
      let (body, etag, y, o, left, number) =
        body_inv (b.client.new_body_from_sized_reader s (pos l)) name id (pos k) s x s' w w' h in
      let (count, bytes) = reads l s body (b.client.new_body_from_sized_reader s (pos l)).1 f y in
      (
        left ∙ ap (λ n. after n s) count,
        keeps name id (pos k) body w w' etag o ∙ ap (λ t. received w ++ (pos k, t) ∷ []) bytes,
        number,
      )

  initiated_inv :
      (full : ℕ) (name : Str) (size : ℤ) (r : Reader) (o : Outcome (Fallible Str × W)) (w w' : W)
      → ((λ _. o) >>= initiated p b full name size r) w ≡ returns (none, w')
      → (id : Str) × (w0 : W) × (o ≡ returns ((id, none), w0))
        × (initiated p b full name size r (id, none) w0 ≡ returns (none, w'))
  unfolding initiated
  initiated_inv full name size r panics w w' h = cc
  initiated_inv full name size r (returns ((id, none), w0)) w w' h = (id, w0, refl, h)
  initiated_inv full name size r (returns ((id, some e), w0)) w w' h = cc

  with_parts :
      (full n : ℕ) (name : Str) (r : Reader)
      → 0 < full
      → full ≤ n
      → try_to_get_size r ≡ (pos n, none)
      → upload_with p b full name r
        ≡ b.client.initiate_multipart_upload b.name name >>= initiated p b full name (pos n) r
  unfolding upload_with
  with_parts full n name r q f size =
      let some_part : eqb_ℤ (pos (n / full)) (pos 0) ≡ false =
        ground (arith, positive full n q f) in
      rw size (unfold upload_sized in rw some_part refl)

  -- An upload of at least one full part that succeeds has sent the object in parts, numbered from 1
  -- on, of which each has a byte and at most as many as a full part, and has then been completed
  -- with one entry for each part, with its number: if the reader yields as many bytes as its size says, below 2 ^ 63,
  -- a request's body has the bytes that are read for it, and the service keeps the parts.
  pub upload_sends_parts :
      (full : ℕ) (name : Str) (r : Reader) (w w' : W)
      → Reads
      → Keeps
      → 0 < full
      → full ≤ length (read_all r).0
      → length (read_all r).0 + 1 < int64_bound
      → try_to_get_size r ≡ (pos (length (read_all r).0), none)
      → upload_with p b full name r w ≡ returns (none, w')
      → (id : Str) × (w0 : W) × (cs : List Str) × (b.client.initiate_multipart_upload b.name name w
          ≡ returns ((id, none), w0))
        × Sent (calls p b name id) (λ x. x.0) received 1 cs [] w0 w'
        × (concat cs ≡ (read_all r).0)
        × (all_sized full cs ≡ true)
  upload_sends_parts full name r w w' reads keeps q f bound size h =
      let body = (read_all r).0 in
      let (id, w0, o, k) =
        initiated_inv full name (pos (length body)) r
          (b.client.initiate_multipart_upload b.name name w) w w'
          (ap (λ g. g w) (sym (with_parts full (length body) name r q f size)) ∙ h) in
      let (cs, sent, whole, sized) =
        whole-Sent (calls p b name id) (λ x. x.0) received full body (read_all r).1 w0 w'
          (part-Receives name id reads keeps) q bound (unfold initiated in k) in
      (id, w0, cs, o, sent, whole, sized)
