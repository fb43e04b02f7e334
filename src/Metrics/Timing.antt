-- ===== src/Metrics/Timing.antt =====
-- objstore.go: timingReadCloser, around the read closer `R` of the bucket below.
use objstore.Prelude.{ℕ, Bool, true, false, ◌&&◌, not, Option, none, some, if◌then◌else◌}
use objstore.Prelude.Int.{ℤ}
use objstore.Errors.{Error, eof}
use objstore.Go.{panics, Go, Fallible, pure, ◌>>=◌, ◌>>◌}
use objstore.ReadCloser.{ReadClosers, size_of}
use objstore.Metrics.{Op, Collector, init, inc, add, Prometheus, call, time_now, observe_since}

-- timingReadCloser; `none` is a nil io.ReadCloser
pub record TimingReadCloser (R : Type 0) : Type 0 where
  pub read_closer : Option R
  pub obj_size : ℤ
  pub obj_size_err : Option Error
  pub already_got_err : Bool
  pub start : ℕ
  pub op : Op
  pub duration : Collector
  pub failed : Collector
  pub is_failure_expected : Error → Bool
  pub fetched_bytes : Collector

-- `err != nil && err != io.EOF`
unfoldable pub is_read_failure : Option Error → Bool
is_read_failure none = false
is_read_failure (some eof) = false
is_read_failure (some _) = true

module _ {W R : Type 0} (p : Prometheus W) (rcs : ReadClosers W R) where
  unfoldable pub new_timing_read_closer :
      Option R → Op → Collector → Collector → (Error → Bool) → Collector → Go W (TimingReadCloser R)
  unfolding size_of
  new_timing_read_closer rc op dur failed is_failure_expected fetched_bytes = do
    call p (init dur op)
    call p (init failed op)
    let (obj_size, obj_size_err) = size_of rcs rc
    start ← time_now p
    pure (record {
      read_closer = rc;
      obj_size = obj_size;
      obj_size_err = obj_size_err;
      already_got_err = false;
      start = start;
      op = op;
      duration = dur;
      failed = failed;
      is_failure_expected = is_failure_expected;
      fetched_bytes = fetched_bytes;
    })

  -- ObjectSize
  unfoldable pub object_size : TimingReadCloser R → Fallible ℤ
  object_size t = (t.obj_size, t.obj_size_err)

  -- the two tests of Close, on the error of the inner Close
  unfoldable pub report_close :
      TimingReadCloser R → Option Error → Go W (Option Error × TimingReadCloser R)
  report_close t (some e) = do
    if t.already_got_err then pure tt else call p (inc t.failed t.op)
    pure (some e, t)
  report_close t none = if t.already_got_err then pure (none, t) else (do
    observe_since p t.duration t.op t.start
    pure (none, record t { already_got_err = true }))

  -- Close; the method of a nil interface panics
  unfoldable pub close : TimingReadCloser R → Go W (Option Error × TimingReadCloser R)
  unfolding report_close
  close t = elim t.read_closer [
    | none ↦ λ w. panics
    | some rc ↦ (do
      (err, rc') ← rcs.close rc
      report_close (record t { read_closer = some rc' }) err)
  ]

  -- the test of Read, on the error of the inner Read
  unfoldable pub report_read :
      TimingReadCloser R → ℕ → Option Error → Go W (ℕ × Option Error × TimingReadCloser R)
  unfolding is_read_failure
  report_read t n none = pure (n, none, t)
  report_read t n (some e) =
      if not t.already_got_err && is_read_failure (some e)
      then (do
        if t.is_failure_expected e then pure tt else call p (inc t.failed t.op)
        pure (n, some e, record t { already_got_err = true }))
      else pure (n, some e, t)

  -- Read into a buffer of `len` bytes
  unfoldable pub read : ℕ → TimingReadCloser R → Go W (ℕ × Option Error × TimingReadCloser R)
  unfolding report_read
  read len t = elim t.read_closer [
    | none ↦ λ w. panics
    | some rc ↦ (do
      (n, err, rc') ← rcs.read len rc
      call p (add t.fetched_bytes t.op n)
      report_read (record t { read_closer = some rc' }) n err)
  ]
