-- ===== src/Tracing/Opentracing/ReadCloser.antt =====
-- Any sequence of Read and Close on a tracingReadCloser of package opentracing.
use objstore.Prelude.{
  ◌≡◌, refl, ℕ, ◌+◌, Option, none, some, List, [], ◌∷◌, codes, arith, ap, if◌then◌else◌, Bool-cases,
  inl, inr,
}
use objstore.Errors.{Error}
use objstore.Go.{Outcome, returns, Go, pure, ◌>>=◌}
use objstore.ReadCloser.{ReadClosers, Use, reads, closes}
use objstore.Tracing.{number, failure, logged, finished, is_read_error}
use objstore.Tracing.Finishes.{finishes, any_closes, IsQuiet, finishes-logged, finishes-finished}
use objstore.Tracing.Opentracing.{
  Span, noop, span, Opentracing, TracingReadCloser, log_kv, finish, note_error, count_read, read,
  note_close, close,
}

module _ {W T R : Type 0} (o : Opentracing W T) (rcs : ReadClosers W R) where
  unfoldable pub use_once : Use → TracingReadCloser R → Go W (TracingReadCloser R)
  use_once (reads len) t = do (n, e, t') ← read o rcs len t; pure t'
  use_once closes t = do (e, t') ← close o rcs t; pure t'

  unfoldable pub use_all : List Use → TracingReadCloser R → Go W (TracingReadCloser R)
  unfolding use_once
  use_all [] t = pure t
  use_all (u ∷ us) t = do t' ← use_once u t; use_all us t'

  -- A use that returns, keeps a reader and the span `s`, and finishes the span `k` times.
  abbrev pub Used : ℕ → Option Span → ℕ → W → Outcome (TracingReadCloser R × W) → Type 0
  Used n s k w out =
      (t' : TracingReadCloser R) × (w' : W) × (rc : R) × (out ≡ returns (t', w'))
      × (t'.r ≡ some rc)
      × (t'.s ≡ s)
      × (finishes n (o.log.events w') ≡ k + finishes n (o.log.events w))

  error_noted :
      (n : ℕ) (s : Option Span) (e : Option Error) (w : W)
      → (w' : W) × (note_error o rcs s e w ≡ returns (tt, w'))
        × (finishes n (o.log.events w') ≡ finishes n (o.log.events w))
  unfolding note_error log_kv
  error_noted n none none w = (w, refl, refl)
  error_noted n none (some e) w = (w, refl, refl)
  error_noted n (some s) none w = (w, refl, refl)
  error_noted n (some noop) (some e) w = elim (Bool-cases (is_read_error (some e))) [
    | inr x ↦ (w, rw x refl, refl)
    | inl x ↦ (w, rw x refl, refl)
  ]
  error_noted n (some (span m)) (some e) w = elim (Bool-cases (is_read_error (some e))) [
    | inr x ↦ (w, rw x refl, refl)
    | inl x ↦
        let l = (codes "err", failure e) ∷ [] in
        (o.log.emit (logged m l) w, rw x refl, finishes-logged o.log n m l w)
  ]

  close_done :
      (t : TracingReadCloser R) (s : Option Span) (e : Option Error) (w : W)
      → s ≡ none
      → note_close o rcs t s e w ≡ returns ((e, t), w)
  unfolding note_close
  close_done t s e w h = rw h refl

  close_first :
      (n : ℕ) (t : TracingReadCloser R) (s : Option Span) (e : Option Error) (w : W)
      → s ≡ some (span n)
      → (w' : W) × (note_close o rcs t s e w ≡ returns ((e, record t { s = none }), w'))
        × (finishes n (o.log.events w') ≡ 1 + finishes n (o.log.events w))
  unfolding note_close log_kv finish
  close_first n t s none w h =
      let l = (codes "read", number t.read_bytes) ∷ [] in
      let v = o.log.emit (logged n l) w in
      (
        o.log.emit (finished n) v,
        rw h refl,
        omega (arith, finishes-finished o.log n v, finishes-logged o.log n n l w),
      )
  close_first n t s (some e) w h =
      let l = (codes "read", number t.read_bytes) ∷ [] in
      let m = (codes "close err", failure e) ∷ [] in
      let v = o.log.emit (logged n l) w in
      let u = o.log.emit (logged n m) v in
      (
        o.log.emit (finished n) u,
        rw h refl,
        omega (
          arith,
          finishes-finished o.log n u,
          finishes-logged o.log n n m v,
          finishes-logged o.log n n l w,
        ),
      )

  module _ (quiet : IsQuiet o.log rcs) where
    use_reads :
        (n len : ℕ) (s : Option Span) (t : TracingReadCloser R) (rc : R) (w : W)
        → t.r ≡ some rc
        → t.s ≡ s
        → Used n s 0 w (use_once (reads len) t w)
    unfolding use_once
    use_reads n len s t rc w h hs =
        let ((k, e, rc'), w1, x, same) = quiet.read_quiet len rc w in
        let (w2, out, f) = error_noted n t.s e w1 in
        (
          count_read o rcs k (record t { r = some rc' }),
          w2,
          rc',
          unfold read in rw (h, read) (rw (x, ◌>>=◌) (rw (out, ◌>>=◌) refl)),
          unfold count_read in refl,
          unfold count_read in hs,
          omega (arith, ap (finishes n) same),
        )

    use_closes_done :
        (n : ℕ) (t : TracingReadCloser R) (rc : R) (w : W)
        → t.r ≡ some rc
        → t.s ≡ none
        → Used n none 0 w (use_once closes t w)
    unfolding use_once
    use_closes_done n t rc w h hs =
        let ((e, rc'), w1, x, same) = quiet.close_quiet rc w in
        (
          record t { r = some rc' },
          w1,
          rc',
          unfold close in
              rw (h, close)
                (rw (x, ◌>>=◌)
                  (rw (close_done (record t { r = some rc' }) t.s e w1 hs, ◌>>=◌) refl)),
          refl,
          hs,
          omega (arith, ap (finishes n) same),
        )

    use_closes :
        (n : ℕ) (t : TracingReadCloser R) (rc : R) (w : W)
        → t.r ≡ some rc
        → t.s ≡ some (span n)
        → Used n none 1 w (use_once closes t w)
    unfolding use_once
    use_closes n t rc w h hs =
        let ((e, rc'), w1, x, same) = quiet.close_quiet rc w in
        let (w2, out, f) = close_first n (record t { r = some rc' }) t.s e w1 hs in
        (
          record t { r = some rc'; s = none },
          w2,
          rc',
          unfold close in rw (h, close) (rw (x, ◌>>=◌) (rw (out, ◌>>=◌) refl)),
          refl,
          refl,
          omega (arith, ap (finishes n) same),
        )

    use_all_done :
        (n : ℕ) (us : List Use) (t : TracingReadCloser R) (rc : R) (w : W)
        → t.r ≡ some rc
        → t.s ≡ none
        → Used n none 0 w (use_all us t w)
    unfolding use_all
    use_all_done n [] t rc w h hs = (t, w, rc, refl, h, hs, omega arith)
    use_all_done n (reads len ∷ us) t rc w h hs =
        let (t', w', rc', out, h', hs', f) = use_reads n len none t rc w h hs in
        let (t2, w2, rc2, out2, h2, hs2, f2) = use_all_done n us t' rc' w' h' hs' in
        (t2, w2, rc2, rw (out, ◌>>=◌) out2, h2, hs2, omega arith)
    use_all_done n (closes ∷ us) t rc w h hs =
        let (t', w', rc', out, h', hs', f) = use_closes_done n t rc w h hs in
        let (t2, w2, rc2, out2, h2, hs2, f2) = use_all_done n us t' rc' w' h' hs' in
        (t2, w2, rc2, rw (out, ◌>>=◌) out2, h2, hs2, omega arith)

    -- However often a reader that holds the span `n` is read and closed, and whatever errors that
    -- meets, the uses return, and the span is finished once if one of them is a Close, else not.
    -- The reader holds the span until then. The reader below returns, and sends no call to a span.
    pub use_all_finishes :
        (n : ℕ) (us : List Use) (t : TracingReadCloser R) (rc : R) (w : W)
        → t.r ≡ some rc
        → t.s ≡ some (span n)
        → Used n
            (if any_closes us then none else some (span n))
            (if any_closes us then 1 else 0)
            w
            (use_all us t w)
    unfolding use_all any_closes
    use_all_finishes n [] t rc w h hs = (t, w, rc, refl, h, hs, omega arith)
    use_all_finishes n (reads len ∷ us) t rc w h hs =
        let (t', w', rc', out, h', hs', f) = use_reads n len (some (span n)) t rc w h hs in
        let (t2, w2, rc2, out2, h2, hs2, f2) = use_all_finishes n us t' rc' w' h' hs' in
        (t2, w2, rc2, rw (out, ◌>>=◌) out2, h2, hs2, omega arith)
    use_all_finishes n (closes ∷ us) t rc w h hs =
        let (t', w', rc', out, h', hs', f) = use_closes n t rc w h hs in
        let (t2, w2, rc2, out2, h2, hs2, f2) = use_all_done n us t' rc' w' h' hs' in
        (t2, w2, rc2, rw (out, ◌>>=◌) out2, h2, hs2, omega arith)
