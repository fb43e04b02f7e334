-- ===== src/Tracing/Opentelemetry/ReadCloser.antt =====
-- Any sequence of Read and Close on a tracingReadCloser of OpenTelemetry.
use objstore.Prelude.{
  ◌≡◌, refl, ℕ, ◌+◌, Bool, true, false, Option, none, some, List, [], ◌∷◌, codes, arith, ap,
  if◌then◌else◌, Bool-cases, inl, inr,
}
use objstore.Text.{Str}
use objstore.Errors.{Error}
use objstore.Go.{Outcome, returns, Go, Ctx, pure, ◌>>=◌}
use objstore.ReadCloser.{ReadClosers, Use, reads, closes}
use objstore.Bucket.Request.{Request, get}
use objstore.Tracing.{
  number, failure, started, logged, recorded, finished, SpanLog, bucket_of, is_read_error,
}
use objstore.Tracing.Operations.{operation_name, fields}
use objstore.Tracing.Finishes.{
  finishes, any_closes, IsQuiet, finishes-logged, finishes-finished, finishes-recorded,
  finishes-started,
}
use objstore.Tracing.Opentelemetry
use objstore.Tracing.Opentelemetry.{
  TracingBucket, TracingReadCloser, note_error, count_read, read, note_close, close,
  new_tracing_read_closer, start, after_get,
}
use objstore.Tracing.Opentelemetry.Spans.{new_span, opened}

module _ {W R : Type 0} (l : SpanLog W) (rcs : ReadClosers W R) where
  unfoldable pub use_once : Use → TracingReadCloser R → Go W (TracingReadCloser R)
  use_once (reads len) t = do (n, e, t') ← read l rcs len t; pure t'
  use_once closes t = do (e, t') ← close l rcs t; pure t'

  unfoldable pub use_all : List Use → TracingReadCloser R → Go W (TracingReadCloser R)
  unfolding use_once
  use_all [] t = pure t
  use_all (u ∷ us) t = do t' ← use_once u t; use_all us t'

  -- A use that returns, keeps a reader and the span `s`, and finishes the span `k` times.
  abbrev pub Used : ℕ → Option ℕ → ℕ → W → Outcome (TracingReadCloser R × W) → Type 0
  Used n s k w out =
      (t' : TracingReadCloser R) × (w' : W) × (rc : R) × (out ≡ returns (t', w'))
      × (t'.r ≡ some rc)
      × (t'.s ≡ s)
      × (finishes n (l.events w') ≡ k + finishes n (l.events w))

  error_noted :
      (n : ℕ) (s : Option ℕ) (e : Option Error) (w : W)
      → (w' : W) × (note_error l rcs s e w ≡ returns (tt, w'))
        × (finishes n (l.events w') ≡ finishes n (l.events w))
  unfolding note_error
  error_noted n none none w = (w, refl, refl)
  error_noted n none (some e) w = (w, refl, refl)
  error_noted n (some s) none w = (w, refl, refl)
  error_noted n (some m) (some e) w = elim (Bool-cases (is_read_error (some e))) [
    | inr x ↦ (w, rw x refl, refl)
    | inl x ↦ (l.emit (recorded m e) w, rw x refl, finishes-recorded l n m e w)
  ]

  close_done :
      (t : TracingReadCloser R) (s : Option ℕ) (e : Option Error) (w : W)
      → s ≡ none
      → note_close l rcs t s e w ≡ returns ((e, t), w)
  unfolding note_close
  close_done t s e w h = rw h refl

  close_first :
      (n : ℕ) (t : TracingReadCloser R) (s : Option ℕ) (e : Option Error) (w : W)
      → s ≡ some n
      → (w' : W) × (note_close l rcs t s e w ≡ returns ((e, record t { s = none }), w'))
        × (finishes n (l.events w') ≡ 1 + finishes n (l.events w))
  unfolding note_close
  close_first n t s none w h =
      let k = (codes "read", number t.read_bytes) ∷ [] in
      let v = l.emit (logged n k) w in
      (
        l.emit (finished n) v,
        rw h refl,
        omega (arith, finishes-finished l n v, finishes-logged l n n k w),
      )
  close_first n t s (some e) w h =
      let k = (codes "read", number t.read_bytes) ∷ [] in
      let m = (codes "close_err", failure e) ∷ [] in
      let v = l.emit (logged n k) w in
      let u = l.emit (logged n m) v in
      (
        l.emit (finished n) u,
        rw h refl,
        omega
            (arith, finishes-finished l n u, finishes-logged l n n m v, finishes-logged l n n k w),
      )

  module _ (quiet : IsQuiet l rcs) where
    use_reads :
        (n len : ℕ) (s : Option ℕ) (t : TracingReadCloser R) (rc : R) (w : W)
        → t.r ≡ some rc
        → t.s ≡ s
        → Used n s 0 w (use_once (reads len) t w)
    unfolding use_once
    use_reads n len s t rc w h hs =
        let ((k, e, rc'), w1, x, same) = quiet.read_quiet len rc w in
        let (w2, out, f) = error_noted n t.s e w1 in
        (
          count_read k (record t { r = some rc' }),
          w2,
          rc',
          unfold read in rw (h, read) (rw (x, ◌>>=◌) (rw (out, ◌>>=◌) refl)),
          unfold count_read in refl,
          unfold count_read in hs,
          omega (arith, ap (finishes n) same),
        )

    use_closes_done :
        (n : ℕ) (t : TracingReadCloser R) (rc : R) (w : W)
        → t.r ≡ some rc
        → t.s ≡ none
        → Used n none 0 w (use_once closes t w)
    unfolding use_once
    use_closes_done n t rc w h hs =
        let ((e, rc'), w1, x, same) = quiet.close_quiet rc w in
        (
          record t { r = some rc' },
          w1,
          rc',
          unfold close in
              rw (h, close)
                (rw (x, ◌>>=◌)
                  (rw (close_done (record t { r = some rc' }) t.s e w1 hs, ◌>>=◌) refl)),
          refl,
          hs,
          omega (arith, ap (finishes n) same),
        )

    use_closes :
        (n : ℕ) (t : TracingReadCloser R) (rc : R) (w : W)
        → t.r ≡ some rc
        → t.s ≡ some n
        → Used n none 1 w (use_once closes t w)
    unfolding use_once
    use_closes n t rc w h hs =
        let ((e, rc'), w1, x, same) = quiet.close_quiet rc w in
        let (w2, out, f) = close_first n (record t { r = some rc' }) t.s e w1 hs in
        (
          record t { r = some rc'; s = none },
          w2,
          rc',
          unfold close in rw (h, close) (rw (x, ◌>>=◌) (rw (out, ◌>>=◌) refl)),
          refl,
          refl,
          omega (arith, ap (finishes n) same),
        )

    use_all_done :
        (n : ℕ) (us : List Use) (t : TracingReadCloser R) (rc : R) (w : W)
        → t.r ≡ some rc
        → t.s ≡ none
        → Used n none 0 w (use_all us t w)
    unfolding use_all
    use_all_done n [] t rc w h hs = (t, w, rc, refl, h, hs, omega arith)
    use_all_done n (reads len ∷ us) t rc w h hs =
        let (t', w', rc', out, h', hs', f) = use_reads n len none t rc w h hs in
        let (t2, w2, rc2, out2, h2, hs2, f2) = use_all_done n us t' rc' w' h' hs' in
        (t2, w2, rc2, rw (out, ◌>>=◌) out2, h2, hs2, omega arith)
    use_all_done n (closes ∷ us) t rc w h hs =
        let (t', w', rc', out, h', hs', f) = use_closes_done n t rc w h hs in
        let (t2, w2, rc2, out2, h2, hs2, f2) = use_all_done n us t' rc' w' h' hs' in
        (t2, w2, rc2, rw (out, ◌>>=◌) out2, h2, hs2, omega arith)

    -- However often a reader that holds the span `n` is read and closed, and whatever errors that
    -- meets, the span is ended once more if one of the uses is a Close, else not.
    pub use_all_ends :
        (n : ℕ) (us : List Use) (t : TracingReadCloser R) (rc : R) (w : W)
        → t.r ≡ some rc
        → t.s ≡ some n
        → Used n
            (if any_closes us then none else some n)
            (if any_closes us then 1 else 0)
            w
            (use_all us t w)
    unfolding use_all any_closes
    use_all_ends n [] t rc w h hs = (t, w, rc, refl, h, hs, omega arith)
    use_all_ends n (reads len ∷ us) t rc w h hs =
        let (t', w', rc', out, h', hs', f) = use_reads n len (some n) t rc w h hs in
        let (t2, w2, rc2, out2, h2, hs2, f2) = use_all_ends n us t' rc' w' h' hs' in
        (t2, w2, rc2, rw (out, ◌>>=◌) out2, h2, hs2, omega arith)
    use_all_ends n (closes ∷ us) t rc w h hs =
        let (t', w', rc', out, h', hs', f) = use_closes n t rc w h hs in
        let (t2, w2, rc2, out2, h2, hs2, f2) = use_all_done n us t' rc' w' h' hs' in
        (t2, w2, rc2, rw (out, ◌>>=◌) out2, h2, hs2, omega arith)

add_end :
    (b : Bool) (m k j : ℕ) → m ≡ (if b then 1 else 0) + k → k ≡ 1 + j → m ≡ (if b then 2 else 1) + j
add_end true m k j p q = omega arith
add_end false m k j p q = omega arith

module _ {W R : Type 0} (rcs : ReadClosers W R) (t : TracingBucket W R)
    (quiet : IsQuiet t.tracer.log rcs) (ctx : Ctx W) where
  -- Get of an object that is there ends the span although the reader that it returns keeps it. So
  -- the span is ended twice as soon as the reader is closed, and what Close sets and Read records
  -- comes after an End.
  pub get_ends :
      (name : Str) (us : List Use) (w w1 : W) (rc : R)
      → let n = new_span rcs t ctx (get name) w in
        (bucket_of t.bkt).get (t.tracer.with_span ctx n) name (opened rcs t ctx (get name) w)
          ≡ returns ((some rc, none), w1)
        → t.tracer.log.events w1 ≡ t.tracer.log.events (opened rcs t ctx (get name) w)
        → (rd : TracingReadCloser R) × (w2 : W) × (rd' : TracingReadCloser R) × (w3 : W)
          × (Opentelemetry.get rcs t ctx name w ≡ returns ((some rd, none), w2))
          × (t.tracer.log.events w2
              ≡ finished (new_span rcs t ctx (get name) w) ∷ t.tracer.log.events w1)
          × (use_all t.tracer.log rcs us rd w2 ≡ returns (rd', w3))
          × (finishes (new_span rcs t ctx (get name) w) (t.tracer.log.events w3)
              ≡ (if any_closes us then 2 else 1)
                + finishes (new_span rcs t ctx (get name) w) (t.tracer.log.events w))
  unfolding operation_name fields
  get_ends name us w w1 rc x same =
      let n = new_span rcs t ctx (get name) w in
      let l = t.tracer.log in
      let rd = new_tracing_read_closer rcs (some rc) n in
      let w2 = l.emit (finished n) w1 in
      let r : Request W = get name in
      let v = l.emit (started n (operation_name r)) w in
      let before : finishes n (l.events w1) ≡ finishes n (l.events w) = omega (
        arith,
        ap (finishes n) same,
        finishes-logged l n n (fields r) v,
        finishes-started l n n (operation_name r) w,
      ) in
      let (rd', w3, rc', out, h, hs, f) =
        use_all_ends l rcs quiet n us rd rc w2 (unfold new_tracing_read_closer in refl)
          (unfold new_tracing_read_closer in refl) in
      (
        rd,
        w2,
        rd',
        w3,
        unfold Opentelemetry.get start after_get in rw (x, ◌>>=◌) refl,
        l.events-emit (finished n) w1,
        out,
        add_end (any_closes us) _ _ _ f (omega (arith, finishes-finished l n w1, before)),
      )
