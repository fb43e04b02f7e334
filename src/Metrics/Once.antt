-- ===== src/Metrics/Once.antt =====
-- How often a timingReadCloser reports: over any sequence of its methods.
use objstore.Prelude.{
  ℕ, suc, ◌+◌, ◌≤◌, ◌≡◌, refl, true, false, ◌&&◌, not, Option, none, some, List, [], ◌∷◌, arith,
  if◌then◌else◌, Bool-cases, inl, inr, ◌-◌,
}
use objstore.Errors.{Error}
use objstore.Go.{Outcome, returns, Go, pure, ◌>>=◌}
use objstore.Metrics.{Op, Collector, MetricCall, inc, add, observe, Prometheus}
use objstore.ReadCloser.{ReadClosers, Use, reads, closes}
use objstore.Metrics.Timing.{
  TimingReadCloser, is_read_failure, report_read, report_close, read, close,
}

-- the durations among the calls, and the failures
unfoldable pub observes : List MetricCall → ℕ
observes [] = 0
observes (observe _ _ _ ∷ l) = suc (observes l)
observes (_ ∷ l) = observes l

unfoldable pub failures : List MetricCall → ℕ
failures [] = 0
failures (inc _ _ ∷ l) = suc (failures l)
failures (_ ∷ l) = failures l

module _ {W R : Type 0} (p : Prometheus W) (rcs : ReadClosers W R) where
  -- Read and Close of the reader below return, and send no call to the collectors.
  pub record IsQuiet : Type 0 where
    pub read_quiet :
        (len : ℕ) (rc : R) (w : W)
        → (x : ℕ × Option Error × R) × (w' : W) × (rcs.read len rc w ≡ returns (x, w'))
          × (p.calls w' ≡ p.calls w)
    pub close_quiet :
        (rc : R) (w : W)
        → (x : Option Error × R) × (w' : W) × (rcs.close rc w ≡ returns (x, w'))
          × (p.calls w' ≡ p.calls w)

  unfoldable pub use_once : Use → TimingReadCloser R → Go W (TimingReadCloser R)
  use_once (reads len) t = do (n, e, t') ← read p rcs len t; pure t'
  use_once closes t = do (e, t') ← close p rcs t; pure t'

  unfoldable pub use_all : List Use → TimingReadCloser R → Go W (TimingReadCloser R)
  unfolding use_once
  use_all [] t = pure t
  use_all (u ∷ us) t = do t' ← use_once u t; use_all us t'

  -- the reports that a reader has left
  abbrev pub budget : TimingReadCloser R → ℕ
  budget t = if t.already_got_err then 0 else 1

  -- the counts after one call of a collector
  pub observes-add :
      (c : Collector) (o : Op) (n : ℕ) (w : W)
      → observes (p.calls (p.emit (add c o n) w)) ≡ observes (p.calls w)
  observes-add c o n w = rw p.calls-emit (unfold observes in refl)

  pub failures-add :
      (c : Collector) (o : Op) (n : ℕ) (w : W)
      → failures (p.calls (p.emit (add c o n) w)) ≡ failures (p.calls w)
  failures-add c o n w = rw p.calls-emit (unfold failures in refl)

  pub observes-inc :
      (c : Collector) (o : Op) (w : W)
      → observes (p.calls (p.emit (inc c o) w)) ≡ observes (p.calls w)
  observes-inc c o w = rw p.calls-emit (unfold observes in refl)

  pub failures-inc :
      (c : Collector) (o : Op) (w : W)
      → failures (p.calls (p.emit (inc c o) w)) ≡ suc (failures (p.calls w))
  failures-inc c o w = rw p.calls-emit (unfold failures in refl)

  observes-observe :
      (c : Collector) (o : Op) (n : ℕ) (w : W)
      → observes (p.calls (p.emit (observe c o n) w)) ≡ suc (observes (p.calls w))
  observes-observe c o n w = rw p.calls-emit (unfold observes in refl)

  -- A use that returns, keeps a reader, and adds no more durations than the reader has left.
  abbrev pub Timed : TimingReadCloser R → W → Outcome (TimingReadCloser R × W) → Type 0
  Timed t w out =
      (t' : TimingReadCloser R) × (w' : W) × (rc : R) × (out ≡ returns (t', w'))
      × (t'.read_closer ≡ some rc)
      × (observes (p.calls w') + budget t' ≤ observes (p.calls w) + budget t)

  -- the same, of durations and failures
  abbrev pub TimedRead : TimingReadCloser R → W → Outcome (TimingReadCloser R × W) → Type 0
  TimedRead t w out =
      (t' : TimingReadCloser R) × (w' : W) × (rc : R) × (out ≡ returns (t', w'))
      × (t'.read_closer ≡ some rc)
      × (observes (p.calls w') + budget t' ≤ observes (p.calls w) + budget t)
      × (failures (p.calls w') + budget t' ≤ failures (p.calls w) + budget t)

  abbrev pub after_read : ℕ → Option Error → TimingReadCloser R → Go W (TimingReadCloser R)
  after_read n e t = do (k, x, t') ← report_read p rcs t n e; pure t'

  abbrev pub after_close : Option Error → TimingReadCloser R → Go W (TimingReadCloser R)
  after_close e t = do (x, t') ← report_close p rcs t e; pure t'

  pub report_read_timed :
      (t : TimingReadCloser R) (rc : R) (n : ℕ) (e : Option Error) (w : W)
      → t.read_closer ≡ some rc
      → TimedRead t w (after_read n e t w)
  report_read_timed t rc n none w h =
      (t, w, rc, unfold report_read in refl, h, omega arith, omega arith)
  report_read_timed t rc n (some e) w h =
      elim (Bool-cases (not t.already_got_err && is_read_failure (some e))) [
        | inr quiet ↦ (t, w, rc, unfold report_read in rw quiet refl, h, omega arith, omega arith)
        | inl first ↦
            let t' : TimingReadCloser R = record t { already_got_err = true } in
            let fresh : t.already_got_err ≡ false = ground arith in
            elim (Bool-cases (t.is_failure_expected e)) [
              | inl x ↦ (
                t',
                w,
                rc,
                unfold report_read in rw (first, x) refl,
                h,
                rw fresh (omega arith),
                rw fresh (omega arith),
              )
              | inr x ↦ (
                t',
                p.emit (inc t.failed t.op) w,
                rc,
                unfold report_read in rw (first, x) refl,
                h,
                rw fresh (omega (arith, observes-inc t.failed t.op w)),
                rw fresh (omega (arith, failures-inc t.failed t.op w)),
              )
            ]
      ]

  pub report_close-Timed :
      (t : TimingReadCloser R) (rc : R) (e : Option Error) (w : W)
      → t.read_closer ≡ some rc
      → Timed t w (after_close e t w)
  report_close-Timed t rc (some e) w h = elim (Bool-cases t.already_got_err) [
    | inl x ↦ (t, w, rc, unfold report_close in rw x refl, h, omega arith)
    | inr x ↦ (
      t,
      p.emit (inc t.failed t.op) w,
      rc,
      unfold report_close in rw x refl,
      h,
      omega (arith, observes-inc t.failed t.op w),
    )
  ]
  report_close-Timed t rc none w h = elim (Bool-cases t.already_got_err) [
    | inl x ↦ (t, w, rc, unfold report_close in rw x refl, h, omega arith)
    | inr x ↦ (
      record t { already_got_err = true },
      p.emit (observe t.duration t.op (p.now w - t.start)) w,
      rc,
      unfold report_close in rw x refl,
      h,
      rw x (omega (arith, observes-observe t.duration t.op (p.now w - t.start) w)),
    )
  ]
