-- ===== src/Metrics/Sequence.antt =====
-- Any sequence of Read and Close on the reader that Get and GetRange of a metricBucket return.
use objstore.Prelude.{
  ℕ, zero, suc, ◌+◌, ◌≡◌, refl, false, some, List, [], ◌∷◌, arith, ap, sym, subst,
}
use objstore.Errors.{Error}
use objstore.Go.{returns, ◌>>=◌}
use objstore.Metrics.{add, inc, Prometheus}
use objstore.ReadCloser.{ReadClosers, Use, reads, closes}
use objstore.Metrics.Timing.{TimingReadCloser, read, close, report_close}
use objstore.Metrics.Once.{
  observes, failures, IsQuiet, use_once, use_all, Timed, TimedRead, observes-add, failures-add,
  failures-inc, report_read_timed, report_close-Timed,
}

module _ {W R : Type 0} (p : Prometheus W) (rcs : ReadClosers W R) (quiet : IsQuiet p rcs) where
  use_reads :
      (t : TimingReadCloser R) (rc : R) (len : ℕ) (w : W)
      → t.read_closer ≡ some rc
      → TimedRead p rcs t w (use_once p rcs (reads len) t w)
  unfolding use_once
  use_reads t rc len w h =
      let ((n, e, rc'), w', x, same) = quiet.read_quiet len rc w in
      let v = p.emit (add t.fetched_bytes t.op n) w' in
      let (t', w2, rc2, out, held, o, f) =
        report_read_timed p rcs (record t { read_closer = some rc' }) rc' n e v refl in
      (
        t',
        w2,
        rc2,
        unfold read in rw (h, read) (rw (x, ◌>>=◌) out),
        held,
        omega (arith, observes-add p rcs t.fetched_bytes t.op n w', ap observes same),
        omega (arith, failures-add p rcs t.fetched_bytes t.op n w', ap failures same),
      )

  use_closes :
      (t : TimingReadCloser R) (rc : R) (w : W)
      → t.read_closer ≡ some rc
      → Timed p rcs t w (use_once p rcs closes t w)
  unfolding use_once
  use_closes t rc w h =
      let ((e, rc'), w', x, same) = quiet.close_quiet rc w in
      let (t', w2, rc2, out, held, o) =
        report_close-Timed p rcs (record t { read_closer = some rc' }) rc' e w' refl in
      (
        t',
        w2,
        rc2,
        unfold close in rw (h, close) (rw (x, ◌>>=◌) out),
        held,
        omega (arith, ap observes same),
      )

  use_once-Timed :
      (u : Use) (t : TimingReadCloser R) (rc : R) (w : W)
      → t.read_closer ≡ some rc
      → Timed p rcs t w (use_once p rcs u t w)
  use_once-Timed (reads len) t rc w h =
      let (t', w', rc', out, held, o, f) = use_reads t rc len w h in (t', w', rc', out, held, o)
  use_once-Timed closes t rc w h = use_closes t rc w h

  -- However often the reader is read and closed, and whatever errors that meets, the uses return, and
  -- they add at most one duration: none if alreadyGotErr is set before, and if they add one, it is set
  -- behind them. The reader below returns, and sends no call to the collectors.
  pub use_all-Timed :
      (us : List Use) (t : TimingReadCloser R) (rc : R) (w : W)
      → t.read_closer ≡ some rc
      → Timed p rcs t w (use_all p rcs us t w)
  unfolding use_all
  use_all-Timed [] t rc w h = (t, w, rc, refl, h, omega arith)
  use_all-Timed (u ∷ us) t rc w h =
      let (t', w', rc', out, held, o) = use_once-Timed u t rc w h in
      let (t2, w2, rc2, out2, held2, o2) = use_all-Timed us t' rc' w' held in
      (t2, w2, rc2, rw (out, ◌>>=◌) out2, held2, omega arith)

  abbrev pub reads_of : List ℕ → List Use
  reads_of [] = []
  reads_of (len ∷ lens) = reads len ∷ reads_of lens

  -- However often the reader is read, and whatever errors that meets, it adds at most one failure,
  -- and none once it has reported.
  pub read_all_failures :
      (lens : List ℕ) (t : TimingReadCloser R) (rc : R) (w : W)
      → t.read_closer ≡ some rc
      → TimedRead p rcs t w (use_all p rcs (reads_of lens) t w)
  unfolding use_all
  read_all_failures [] t rc w h = (t, w, rc, refl, h, omega arith, omega arith)
  read_all_failures (len ∷ lens) t rc w h =
      let (t', w', rc', out, held, o, f) = use_reads t rc len w h in
      let (t2, w2, rc2, out2, held2, o2, f2) = read_all_failures lens t' rc' w' held in
      (t2, w2, rc2, rw (out, ◌>>=◌) out2, held2, omega arith, omega arith)

module _ {W R : Type 0} (p : Prometheus W) (rcs : ReadClosers W R) where
  abbrev opened : TimingReadCloser R → R → TimingReadCloser R
  opened t rc = record t { read_closer = some rc; already_got_err = false }

  close_fails_opened :
      (t : TimingReadCloser R) (rc : R) (e : Error) (w : W)
      → rcs.close rc w ≡ returns ((some e, rc), w)
      → use_once p rcs closes (opened t rc) w ≡ returns (opened t rc, p.emit (inc t.failed t.op) w)
  unfolding use_once close report_close
  close_fails_opened t rc e w x = rw (x, ◌>>=◌) refl

  close_fails :
      (t : TimingReadCloser R) (rc : R) (e : Error) (w : W)
      → t.read_closer ≡ some rc
      → t.already_got_err ≡ false
      → rcs.close rc w ≡ returns ((some e, rc), w)
      → use_once p rcs closes t w ≡ returns (t, p.emit (inc t.failed t.op) w)
  close_fails t rc e w h fresh x =
      let same : opened t rc ≡ t =
        λ i. record t { read_closer = sym h i; already_got_err = sym fresh i } in
      subst (λ s. use_once p rcs closes s w ≡ returns (s, p.emit (inc s.failed s.op) w)) same
        (close_fails_opened t rc e w x)

  abbrev pub closes_of : ℕ → List Use
  closes_of zero = []
  closes_of (suc n) = closes ∷ closes_of n

  -- Close does not remember that it failed: on a reader that has not reported yet, and whose Close
  -- below fails every time, each of `n` calls adds a failure, also where every error is expected.
  pub close_all_failures :
      (always : (rc : R) (w : W) → (e : Error) × (rcs.close rc w ≡ returns ((some e, rc), w)))
      (n : ℕ) (t : TimingReadCloser R) (rc : R) (w : W)
      → t.read_closer ≡ some rc
      → t.already_got_err ≡ false
      → (w' : W) × (use_all p rcs (closes_of n) t w ≡ returns (t, w'))
        × (failures (p.calls w') ≡ n + failures (p.calls w))
  unfolding use_all
  close_all_failures always zero t rc w h fresh = (w, refl, omega arith)
  close_all_failures always (suc n) t rc w h fresh =
      let v = p.emit (inc t.failed t.op) w in
      let (e, x) = always rc w in
      let (w', out, f) = close_all_failures always n t rc v h fresh in
      (
        w',
        rw (close_fails t rc e w h fresh x, ◌>>=◌) out,
        omega (arith, failures-inc p rcs t.failed t.op w),
      )
