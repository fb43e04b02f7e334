-- ===== src/Metrics/Instrumented.antt =====
-- objstore.go: metricBucket, WrapWithMetrics and the methods of the wrapped bucket.
use objstore.Prelude.{ℕ, Bool, false, ◌&&◌, not, Option, none, some, List, [], ◌∷◌, if◌then◌else◌}
use objstore.Prelude.Int.{ℤ}
use objstore.Text.{Str}
use objstore.Errors.{Error}
use objstore.Go.{returns, Go, Ctx, Fallible, pure, ◌>>=◌, ◌>>◌}
use objstore.Reader.{Reader}
use objstore.Options.{IterOption}
use objstore.Bucket.{Bucket, Callback, ObjectAttributes}
use objstore.Metrics.{
  Op, op_iter, op_get, op_get_range, op_exists, op_upload, op_delete, op_attributes, Collector,
  operations_total, failures_total, fetched_bytes_total, duration_seconds,
  last_successful_upload_time, init, inc, init_bucket, set_to_current_time, Prometheus, call,
  time_now, observe_since, is_canceled,
}
use objstore.ReadCloser.{ReadClosers}
use objstore.Metrics.Timing.{TimingReadCloser, new_timing_read_closer}

pub record MetricBucket (W R : Type 0) : Type 0 where
  pub bkt : Bucket W R
  pub ops : Collector
  pub ops_failures : Collector
  pub is_op_failure_expected : Error → Bool
  pub ops_fetched_bytes : Collector
  pub ops_duration : Collector
  pub last_successful_upload : Collector

module _ {W R : Type 0} (p : Prometheus W) where
  -- the loop of WrapWithMetrics over the operations
  abbrev init_all : MetricBucket W R → List Op → Go W (Unit {0})
  init_all m [] = pure tt
  init_all m (op ∷ rest) = do
    call p (init m.ops op)
    call p (init m.ops_failures op)
    call p (init m.ops_duration op)
    call p (init m.ops_fetched_bytes op)
    init_all m rest

  -- WrapWithMetrics, once the vectors are registered
  unfoldable pub wrap_with_metrics : Bucket W R → Go W (MetricBucket W R)
  wrap_with_metrics b = do
    let m : MetricBucket W R = record {
      bkt = b;
      ops = operations_total;
      ops_failures = failures_total;
      is_op_failure_expected = λ err. false;
      ops_fetched_bytes = fetched_bytes_total;
      ops_duration = duration_seconds;
      last_successful_upload = last_successful_upload_time;
    }
    init_all m
        (op_iter ∷ op_get ∷ op_get_range ∷ op_exists ∷ op_upload ∷ op_delete ∷ op_attributes ∷ [])
    name ← b.name
    call p (init_bucket m.last_successful_upload name)
    pure m

-- WithExpectedErrs and ReaderWithExpectedErrs
unfoldable pub with_expected_errs :
    {W R : Type 0} → (Error → Bool) → MetricBucket W R → MetricBucket W R
with_expected_errs fn m = record m { is_op_failure_expected = fn }

module _ {W R : Type 0} (p : Prometheus W) (rcs : ReadClosers W R) (m : MetricBucket W R) where
  -- `if !b.isOpFailureExpected(err) && ctx.Err() != context.Canceled { … }`
  unfoldable pub note_failure : Op → Ctx W → Error → Go W (Unit {0})
  note_failure op ctx e w =
      if not (m.is_op_failure_expected e) && not (is_canceled (ctx.err w))
      then call p (inc m.ops_failures op) w
      else returns (tt, w)

  -- the end of a method that only reports a failure
  unfoldable pub after_iter : Ctx W → Option Error → Go W (Option Error)
  unfolding note_failure
  after_iter ctx (some e) = do note_failure op_iter ctx e; pure (some e)
  after_iter ctx none = pure none

  unfoldable pub iter : Ctx W → Str → Callback W → List IterOption → Go W (Option Error)
  unfolding after_iter
  iter ctx dir f options = do
    call p (inc m.ops op_iter)
    err ← m.bkt.iter ctx dir f options
    after_iter ctx err

  -- the end of Attributes and Exists, which give back `on_error` beside an error
  unfoldable pub after_timed : {A : Type 0} → Op → Ctx W → ℕ → A → Fallible A → Go W (Fallible A)
  unfolding note_failure
  after_timed op ctx start on_error (a, some e) = do note_failure op ctx e; pure (on_error, some e)
  after_timed op ctx start on_error (a, none) = do
    observe_since p m.ops_duration op start
    pure (a, none)

  unfoldable pub attributes : Ctx W → Str → Go W (Fallible ObjectAttributes)
  unfolding after_timed
  attributes ctx name = do
    call p (inc m.ops op_attributes)
    start ← time_now p
    (attrs, err) ← m.bkt.attributes ctx name
    after_timed op_attributes ctx start attrs (attrs, err)

  -- the end of Get and GetRange
  unfoldable pub after_get :
      Op → Ctx W → Fallible (Option R) → Go W (Fallible (Option (TimingReadCloser R)))
  unfolding note_failure new_timing_read_closer
  after_get op ctx (rc, some e) = do note_failure op ctx e; pure (none, some e)
  after_get op ctx (rc, none) = do
    t ←
        new_timing_read_closer p rcs rc op m.ops_duration m.ops_failures m.is_op_failure_expected
          m.ops_fetched_bytes
    pure (some t, none)

  unfoldable pub get : Ctx W → Str → Go W (Fallible (Option (TimingReadCloser R)))
  unfolding after_get
  get ctx name = do call p (inc m.ops op_get); r ← m.bkt.get ctx name; after_get op_get ctx r

  unfoldable pub get_range : Ctx W → Str → ℤ → ℤ → Go W (Fallible (Option (TimingReadCloser R)))
  unfolding after_get
  get_range ctx name off len = do
    call p (inc m.ops op_get_range)
    r ← m.bkt.get_range ctx name off len
    after_get op_get_range ctx r

  unfoldable pub has_object : Ctx W → Str → Go W (Fallible Bool)
  unfolding after_timed
  has_object ctx name = do
    call p (inc m.ops op_exists)
    start ← time_now p
    r ← m.bkt.has_object ctx name
    after_timed op_exists ctx start false r

  unfoldable pub after_upload : Ctx W → ℕ → Option Error → Go W (Option Error)
  unfolding note_failure
  after_upload ctx start (some e) = do note_failure op_upload ctx e; pure (some e)
  after_upload ctx start none = do
    name ← m.bkt.name
    call p (set_to_current_time m.last_successful_upload name)
    observe_since p m.ops_duration op_upload start
    pure none

  unfoldable pub upload : Ctx W → Str → Reader → Go W (Option Error)
  unfolding after_upload
  upload ctx name r = do
    call p (inc m.ops op_upload)
    start ← time_now p
    err ← m.bkt.upload ctx name r
    after_upload ctx start err

  unfoldable pub after_delete : Ctx W → ℕ → Option Error → Go W (Option Error)
  unfolding note_failure
  after_delete ctx start (some e) = do note_failure op_delete ctx e; pure (some e)
  after_delete ctx start none = do observe_since p m.ops_duration op_delete start; pure none

  unfoldable pub delete : Ctx W → Str → Go W (Option Error)
  unfolding after_delete
  delete ctx name = do
    call p (inc m.ops op_delete)
    start ← time_now p
    err ← m.bkt.delete ctx name
    after_delete ctx start err

  -- metricBucket as a Bucket; the error tests, Close and Name are those of the wrapped bucket.
  unfoldable pub as_bucket : Bucket W (TimingReadCloser R)
  as_bucket = record {
    iter = iter;
    get = get;
    get_range = get_range;
    has_object = has_object;
    is_obj_not_found_err = m.bkt.is_obj_not_found_err;
    is_customer_managed_key_error = m.bkt.is_customer_managed_key_error;
    attributes = attributes;
    upload = upload;
    delete = delete;
    name = m.bkt.name;
    close = m.bkt.close;
  }
