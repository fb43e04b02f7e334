-- ===== src/Chunks/Sending.antt =====
-- What a multi-part upload sends.
use objstore.Prelude.{
  ℕ, zero, suc, ◌+◌, ◌*◌, ◌/◌, ◌%◌, ◌≡◌, refl, sym, ◌<◌, ◌≤◌, true, false, Option, none, some, List,
  [], ◌∷◌, ◌++◌, take, take_all, drop, length, map, arith, ap, ap₂, ◌∙◌, subst, length-drop,
}
use mathlib.Core.List.{append-nil, append_assoc}
use objstore.Prelude.Int.{ℤ, pos, eqb_ℤ, add64_exact, int64_bound}
use objstore.Text.{Str}
use objstore.Errors.{Error}
use objstore.Go.{Outcome, returns, panics, Go, Fallible, ◌>>=◌}
use objstore.Reader.{Stream}
use objstore.Chunks.Pieces.{
  chunks, concat, all_sized, numbered, mul_suc, concat-chunks, all_sized-chunks,
}
use objstore.Chunks.{after, stream_of, Calls, appended, send_last, send_parts}

module _ {W P : Type 0} (calls : Calls W P) (number_of : P → ℤ)
    (received : W → List (ℤ × Str)) where
  -- A part that is there is sent whole, the service keeps it, and its entry has its number.
  abbrev pub Receives : Type 0
  Receives =
      (l k : ℕ) (s s' : Stream) (p : P) (w w' : W)
      → l ≤ length s.bytes
      → calls.send (pos l) (pos k) s w ≡ returns (((p, none), s'), w')
      → (s' ≡ after l s)
        × (received w' ≡ received w ++ (pos k, take l s.bytes) ∷ [])
        × (number_of p ≡ pos k)

  -- The pieces `cs` are sent with numbers from `k` on, and then the upload is completed with the
  -- parts before them and one for each.
  abbrev pub Sent : ℕ → List Str → List P → W → W → Type 0
  Sent k cs parts w w' =
      (w1 : W) × (ps : List P) × (calls.complete (parts ++ ps) w1 ≡ returns (none, w'))
      × (received w1 ≡ received w ++ numbered k cs)
      × (map number_of ps ≡ map (λ x. x.0) (numbered k cs))

  Sent-none :
      (k : ℕ) (parts : List P) (w w' : W)
      → calls.complete parts w ≡ returns (none, w')
      → Sent k [] parts w w'
  unfolding numbered
  Sent-none k parts w w' h = (
    w,
    [],
    ap (λ ps. calls.complete ps w) (append-nil parts) ∙ h,
    sym (append-nil (received w)),
    refl,
  )

  Sent-more :
      (k : ℕ) (c : Str) (cs : List Str) (p : P) (parts : List P) (w w1 w' : W)
      → received w1 ≡ received w ++ (pos k, c) ∷ []
      → number_of p ≡ pos k
      → Sent (k + 1) cs (parts ++ p ∷ []) w1 w'
      → Sent k (c ∷ cs) parts w w'
  unfolding numbered
  Sent-more k c cs p parts w w1 w' r e (w2, ps, done, kept, numbers) = (
    w2,
    p ∷ ps,
    ap (λ qs. calls.complete qs w2) (sym (append_assoc parts (p ∷ []) ps)) ∙ done,
    kept
        ∙ (ap (λ t. t ++ numbered (k + 1) cs) r
            ∙ append_assoc (received w) ((pos k, c) ∷ []) (numbered (k + 1) cs)),
    ap₂ (λ x xs. x ∷ xs) e numbers,
  )

  part_inv :
      (o : Outcome ((Fallible P × Stream) × W)) (wrap : Error → Error) (parts : List P)
      (rest : Stream → List P → Go W (Option Error)) (w w' : W)
      → ((λ _. o) >>= appended calls wrap parts rest) w ≡ returns (none, w')
      → (p : P) × (s' : Stream) × (w1 : W) × (o ≡ returns (((p, none), s'), w1))
        × (rest s' (parts ++ p ∷ []) w1 ≡ returns (none, w'))
  part_inv panics wrap parts rest w w' h = cc
  part_inv (returns (((p, none), s'), w1)) wrap parts rest w w' h = (p, s', w1, refl, h)
  part_inv (returns (((p, some e), s'), w1)) wrap parts rest w w' h = cc

  part_sent :
      (l k : ℕ) (s : Stream) (wrap : Error → Error) (parts : List P)
      (rest : Stream → List P → Go W (Option Error)) (w w' : W)
      → Receives
      → l ≤ length s.bytes
      → (calls.send (pos l) (pos k) s >>= appended calls wrap parts rest) w ≡ returns (none, w')
      → (p : P) × (w1 : W) × (rest (after l s) (parts ++ p ∷ []) w1 ≡ returns (none, w'))
        × (received w1 ≡ received w ++ (pos k, take l s.bytes) ∷ [])
        × (number_of p ≡ pos k)
  part_sent l k s wrap parts rest w w' r f h =
      let (p, s', w1, o, next) = part_inv (calls.send (pos l) (pos k) s w) wrap parts rest w w' h in
      let (left, kept, number) = r l k s s' p w w1 f o in
      (p, w1, subst (λ t. rest t (parts ++ p ∷ []) w1 ≡ returns (none, w')) left next, kept, number)

  last_part :
      (l m : ℕ) (s : Stream) (parts : List P)
      → m + 1 < int64_bound
      → send_last calls (pos (suc l)) (pos m) s parts
        ≡ calls.send (pos (suc l)) (pos (m + 1)) s
          >>= appended calls calls.last_error parts (λ r'. calls.complete)
  unfolding send_last
  last_part l m s parts f =
      let e : eqb_ℤ (pos (suc l)) (pos 0) ≡ false = ground arith in rw (e, add64_exact m 1 f) refl

  last-Sent :
      (full l m : ℕ) (bytes : Str) (err : Option Error) (parts : List P) (w w' : W)
      → Receives
      → m + 1 < int64_bound
      → l ≡ length bytes
      → send_last calls (pos l) (pos m) (stream_of (bytes, err)) parts w ≡ returns (none, w')
      → Sent (m + 1) (chunks full 0 bytes) parts w w'
  unfolding send_last chunks
  last-Sent full zero m [] err parts w w' r f e h = Sent-none (m + 1) parts w w' h
  last-Sent full (suc l) m [] err parts w w' r f e h = cc
  last-Sent full zero m (c ∷ bytes) err parts w w' r f e h = cc
  last-Sent full (suc l) m (c ∷ bytes) err parts w w' r f e h =
      let whole : take (suc l) (c ∷ bytes) ≡ c ∷ bytes =
        take_all (suc l) (c ∷ bytes) (omega (arith, e)) in
      let k = ap (λ g. g w) (sym (last_part l m (stream_of (c ∷ bytes, err)) parts f)) ∙ h in
      let (p, w1, done, kept, number) =
        part_sent (suc l) (m + 1) (stream_of (c ∷ bytes, err)) calls.last_error parts
          (λ r'. calls.complete) w w' r (omega (arith, e)) k in
      Sent-more (m + 1) (c ∷ bytes) [] p parts w w1 w'
        (kept ∙ ap (λ t. received w ++ (pos (m + 1), t) ∷ []) whole) number
        (Sent-none (m + 1 + 1) (parts ++ p ∷ []) w1 w' done)

  -- The parts of a text of `n` full pieces and a rest, from the number `k` on.
  pub parts-Sent :
      (full n k l m : ℕ) (bytes : Str) (err : Option Error) (parts : List P) (w w' : W)
      → Receives
      → m + 1 < int64_bound
      → k + n ≡ m + 1
      → length bytes ≡ n * full + l
      → send_parts calls full n k (pos l) (pos m) (stream_of (bytes, err)) parts w
        ≡ returns (none, w')
      → Sent k (chunks full n bytes) parts w w'
  unfolding send_parts chunks
  parts-Sent full zero k l m bytes err parts w w' r f e size h =
      let same : m + 1 ≡ k = omega (arith, e) in
      subst (λ i. Sent i (chunks full 0 bytes) parts w w') same
        (last-Sent full l m bytes err parts w w' r f (omega (arith, size)) h)
  parts-Sent full (suc n) k l m bytes err parts w w' r f e size h =
      let (p, w1, next, kept, number) =
        part_sent full k (stream_of (bytes, err)) calls.part_error parts
          (send_parts calls full n (k + 1) (pos l) (pos m)) w w' r
          (omega (arith, size, mul_suc n full)) h in
      let left : length (drop full bytes) ≡ n * full + l =
        omega (arith, length-drop full bytes, mul_suc n full, size) in
      Sent-more k (take full bytes) (chunks full n (drop full bytes)) p parts w w1 w' kept number (
        parts-Sent full n (k + 1) l m (drop full bytes) err (parts ++ p ∷ []) w1 w' r f
          (omega (arith, e)) left next)

  -- The parts of an upload whose size is known.
  pub whole-Sent :
      (full : ℕ) (bytes : Str) (err : Option Error) (w w' : W)
      → Receives
      → 0 < full
      → length bytes + 1 < int64_bound
      → send_parts calls full
          (length bytes / full)
          1
          (pos (length bytes % full))
          (pos (length bytes / full))
          (stream_of (bytes, err))
          []
          w
        ≡ returns (none, w')
      → (cs : List Str) × Sent 1 cs [] w w' × (concat cs ≡ bytes) × (all_sized full cs ≡ true)
  whole-Sent full bytes err w w' r q bound h =
      let n = length bytes / full in
      let l = length bytes % full in
      (
        chunks full n bytes,
        parts-Sent full n 1 l n bytes err [] w w' r (omega (arith, bound)) (omega arith)
            (grind arith) h,
        concat-chunks full n bytes,
        all_sized-chunks full n l bytes q (grind (arith, q)) (grind arith),
      )
