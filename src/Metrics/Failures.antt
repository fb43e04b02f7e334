-- ===== src/Metrics/Failures.antt =====
-- The uses of a timingReadCloser that follow a Read that failed.
use objstore.Prelude.{
  ℕ, ◌≤◌, ◌≡◌, refl, true, false, ◌&&◌, not, some, List, ◌∷◌, arith, Bool-cases, inl, inr, ◌∙◌,
}
use objstore.Errors.{Error}
use objstore.Go.{returns, ◌>>=◌}
use objstore.Metrics.{add, inc, Prometheus}
use objstore.ReadCloser.{ReadClosers, Use, reads}
use objstore.Metrics.Timing.{TimingReadCloser, is_read_failure, read, report_read}
use objstore.Metrics.Once.{
  observes, budget, IsQuiet, use_once, use_all, after_read, observes-add, observes-inc,
}
use objstore.Metrics.Sequence.{use_all-Timed}

module _ {W R : Type 0} (p : Prometheus W) (rcs : ReadClosers W R) where
  -- A use that sets alreadyGotErr and adds no duration.
  abbrev pub Marks : TimingReadCloser R → R → W → TimingReadCloser R → W → Type 0
  Marks t rc w t' w' =
      (t'.read_closer ≡ some rc)
      × (t'.already_got_err ≡ true)
      × (observes (p.calls w') ≡ observes (p.calls w))

  report_read-Marks :
      (t : TimingReadCloser R) (rc : R) (n : ℕ) (e : Error) (w : W)
      → t.read_closer ≡ some rc
      → is_read_failure (some e) ≡ true
      → (t' : TimingReadCloser R) × (w' : W) × (after_read p rcs n (some e) t w ≡ returns (t', w'))
        × Marks t rc w t' w'
  report_read-Marks t rc n e w h f = elim (Bool-cases t.already_got_err) [
    | inl x ↦
        let seen : (not t.already_got_err && is_read_failure (some e)) ≡ false = ground arith in
        (t, w, unfold report_read in rw seen refl, (h, x, refl))
    | inr x ↦
        let t' : TimingReadCloser R = record t { already_got_err = true } in
        let first : (not t.already_got_err && is_read_failure (some e)) ≡ true = ground arith in
        elim (Bool-cases (t.is_failure_expected e)) [
          | inl y ↦ (t', w, unfold report_read in rw (first, y) refl, (h, refl, refl))
          | inr y ↦ (
            t',
            p.emit (inc t.failed t.op) w,
            unfold report_read in rw (first, y) refl,
            (h, refl, observes-inc p rcs t.failed t.op w),
          )
        ]
  ]

  module _ (quiet : IsQuiet p rcs) where
    read-Marks :
        (t : TimingReadCloser R) (rc rc' : R) (len n : ℕ) (e : Error) (w w1 : W)
        → t.read_closer ≡ some rc
        → rcs.read len rc w ≡ returns ((n, some e, rc'), w1)
        → is_read_failure (some e) ≡ true
        → (t' : TimingReadCloser R) × (w' : W) × (use_once p rcs (reads len) t w ≡ returns (t', w'))
          × Marks t rc' w1 t' w'
    unfolding use_once
    read-Marks t rc rc' len n e w w1 h x f =
        let v = p.emit (add t.fetched_bytes t.op n) w1 in
        let (t', w', out, (held, seen, o)) =
          report_read-Marks (record t { read_closer = some rc' }) rc' n e v refl f in
        (
          t',
          w',
          unfold read in rw (h, read) (rw (x, ◌>>=◌) out),
          (held, seen, o ∙ observes-add p rcs t.fetched_bytes t.op n w1),
        )

    -- Once a Read has failed, with an error that is not the end of the file and that the bucket may
    -- expect or not, no use of the reader adds a duration, also a Close that succeeds. The reader
    -- below returns, and sends no call to the collectors.
    pub use_all_failed :
        (us : List Use) (t : TimingReadCloser R) (rc rc' : R) (len n : ℕ) (e : Error) (w w1 : W)
        → t.read_closer ≡ some rc
        → rcs.read len rc w ≡ returns ((n, some e, rc'), w1)
        → is_read_failure (some e) ≡ true
        → (t' : TimingReadCloser R) × (w' : W) × (use_all p rcs (reads len ∷ us) t w
            ≡ returns (t', w'))
          × (observes (p.calls w') ≤ observes (p.calls w1))
    unfolding use_all
    use_all_failed us t rc rc' len n e w w1 h x f =
        let (t1, w2, out, (held, seen, o)) = read-Marks t rc rc' len n e w w1 h x f in
        let (t2, w3, rc2, out2, held2, less) = use_all-Timed p rcs quiet us t1 rc' w2 held in
        let spent : budget p rcs t1 ≡ 0 = rw seen refl in
        (t2, w3, rw (out, ◌>>=◌) out2, omega (arith, less, spent, o))
