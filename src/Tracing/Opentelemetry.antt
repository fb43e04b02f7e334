-- ===== src/Tracing/Opentelemetry.antt =====
-- tracing/opentelemetry/opentelemetry.go: TracingBucket and tracingReadCloser over OpenTelemetry.
pub mod Spans
pub mod ReadCloser
use objstore.Prelude.{ℕ, Bool, Option, none, some, List, [], ◌∷◌, ◌++◌, ltb, if◌then◌else◌, codes}
use objstore.Prelude.Int.{ℤ, pos, add64}
use objstore.Text.{Str}
use objstore.Errors.{Error}
use objstore.Go.{Go, Ctx, Fallible, returns, panics, pure, ◌>>=◌, ◌>>◌}
use objstore.Reader.{Reader}
use objstore.ReadCloser.{ReadClosers, size_of}
use objstore.Options.{IterOption}
use objstore.Bucket.{Bucket, Callback, ObjectAttributes}
use objstore.Tracing.{
  Value, text, number, failure, started, logged, recorded, finished, SpanLog, note, AnyBucket, bare,
  instrumented, bucket_of, is_read_error,
}

-- A trace.Tracer: Start makes a span and a context that holds it.
pub record Tracer (W : Type 0) : Type 0 where
  pub log : SpanLog W
  pub next_span : Ctx W → Str → W → ℕ
  pub with_span : Ctx W → ℕ → Ctx W

pub record TracingBucket (W R : Type 0) : Type 0 where
  pub tracer : Tracer W
  pub bkt : AnyBucket W R

-- WrapWithTraces
unfoldable pub wrap_with_traces : {W R : Type 0} → AnyBucket W R → Tracer W → TracingBucket W R
wrap_with_traces b tracer = record { tracer = tracer; bkt = b }

-- tracingReadCloser
pub record TracingReadCloser (R : Type 0) : Type 0 where
  pub r : Option R
  pub s : Option ℕ
  pub obj_size : ℤ
  pub obj_size_err : Option Error
  pub read_bytes : ℤ

module _ {W R : Type 0} (rcs : ReadClosers W R) where
  -- newTracingReadCloser
  unfoldable pub new_tracing_read_closer : Option R → ℕ → TracingReadCloser R
  unfolding size_of
  new_tracing_read_closer r n =
      let (obj_size, obj_size_err) = size_of rcs r in
      record {
        r = r;
        s = some n;
        obj_size = obj_size;
        obj_size_err = obj_size_err;
        read_bytes = pos 0;
      }

-- ObjectSize
unfoldable pub object_size : {R : Type 0} → TracingReadCloser R → Fallible ℤ
object_size t = (t.obj_size, t.obj_size_err)

-- the number of bytes after a Read of `n`
unfoldable pub count_read : {R : Type 0} → ℕ → TracingReadCloser R → TracingReadCloser R
count_read n t = record t {
  read_bytes = if ltb 0 n then add64 t.read_bytes (pos n) else t.read_bytes;
}

module _ {W R : Type 0} (l : SpanLog W) (rcs : ReadClosers W R) where
  -- the report of Read's error, where the reader still has its span
  unfoldable pub note_error : Option ℕ → Option Error → Go W (Unit {0})
  unfolding is_read_error
  note_error (some n) (some e) = if is_read_error (some e) then note l (recorded n e) else pure tt
  note_error _ _ = pure tt

  -- Read into a buffer of `len` bytes; the method of a nil interface panics
  unfoldable pub read : ℕ → TracingReadCloser R → Go W (ℕ × Option Error × TracingReadCloser R)
  unfolding note_error count_read
  read len t = elim t.r [
    | none ↦ λ w. panics
    | some rc ↦ (do
      (n, err, rc') ← rcs.read len rc
      note_error t.s err
      pure (n, err, count_read n (record t { r = some rc' })))
  ]

  -- the part of Close behind the inner Close, with the span of the reader
  unfoldable pub note_close :
      TracingReadCloser R → Option ℕ → Option Error → Go W (Option Error × TracingReadCloser R)
  note_close t none err = pure (err, t)
  note_close t (some n) none = do
    note l (logged n ((codes "read", number t.read_bytes) ∷ []))
    note l (finished n)
    pure (none, record t { s = none })
  note_close t (some n) (some e) = do
    note l (logged n ((codes "read", number t.read_bytes) ∷ []))
    note l (logged n ((codes "close_err", failure e) ∷ []))
    note l (finished n)
    pure (some e, record t { s = none })

  -- Close
  unfoldable pub close : TracingReadCloser R → Go W (Option Error × TracingReadCloser R)
  unfolding note_close
  close t = elim t.r [
    | none ↦ λ w. panics
    | some rc ↦ (do (err, rc') ← rcs.close rc; note_close (record t { r = some rc' }) t.s err)
  ]

module _ {W R : Type 0} (rcs : ReadClosers W R) (t : TracingBucket W R) where
  abbrev pub inner : Bucket W R
  inner = bucket_of t.bkt

  -- `ctx, span := t.tracer.Start(ctx, name)` and `span.SetAttributes(…)`, at the head of each method
  unfoldable pub start : Ctx W → Str → List (Str × Value) → Go W (ℕ × Ctx W)
  start ctx operation_name attrs w =
      let n = t.tracer.next_span ctx operation_name w in
      let v = t.tracer.log.emit (started n operation_name) w in
      returns ((n, t.tracer.with_span ctx n), t.tracer.log.emit (logged n attrs) v)

  -- the deferred calls, last first: RecordError of an error, then End
  unfoldable pub deferred : ℕ → Option Error → Go W (Unit {0})
  deferred n none = note t.tracer.log (finished n)
  deferred n (some e) = do note t.tracer.log (recorded n e); note t.tracer.log (finished n)

  unfoldable pub iter : Ctx W → Str → Callback W → List IterOption → Go W (Option Error)
  unfolding bucket_of start deferred
  iter ctx dir f options = do
    (n, span_ctx) ← start ctx (codes "bucket_iter") ((codes "dir", text dir) ∷ [])
    err ← inner.iter span_ctx dir f options
    deferred n err
    pure err

  -- the end of Get and GetRange, with the deferred End
  unfoldable pub after_get :
      ℕ → Fallible (Option R) → Go W (Fallible (Option (TracingReadCloser R)))
  unfolding new_tracing_read_closer
  after_get n (r, some err) = do
    note t.tracer.log (recorded n err)
    note t.tracer.log (finished n)
    pure (none, some err)
  after_get n (r, none) = do
    note t.tracer.log (finished n)
    pure (some (new_tracing_read_closer rcs r n), none)

  unfoldable pub get : Ctx W → Str → Go W (Fallible (Option (TracingReadCloser R)))
  unfolding bucket_of start after_get
  get ctx name = do
    (n, span_ctx) ← start ctx (codes "bucket_get") ((codes "name", text name) ∷ [])
    result ← inner.get span_ctx name
    after_get n result

  unfoldable pub get_range : Ctx W → Str → ℤ → ℤ → Go W (Fallible (Option (TracingReadCloser R)))
  unfolding bucket_of start after_get
  get_range ctx name off len = do
    (n, span_ctx) ← start ctx (codes "bucket_getrange") (
        (codes "name", text name)
        ∷ (codes "offset", number off)
        ∷ (codes "length", number len)
        ∷ [])
    result ← inner.get_range span_ctx name off len
    after_get n result

  unfoldable pub has_object : Ctx W → Str → Go W (Fallible Bool)
  unfolding bucket_of start deferred
  has_object ctx name = do
    (n, span_ctx) ← start ctx (codes "bucket_exists") ((codes "name", text name) ∷ [])
    (found, err) ← inner.has_object span_ctx name
    deferred n err
    pure (found, err)

  unfoldable pub attributes : Ctx W → Str → Go W (Fallible ObjectAttributes)
  unfolding bucket_of start deferred
  attributes ctx name = do
    (n, span_ctx) ← start ctx (codes "bucket_attributes") ((codes "name", text name) ∷ [])
    (attrs, err) ← inner.attributes span_ctx name
    deferred n err
    pure (attrs, err)

  unfoldable pub upload : Ctx W → Str → Reader → Go W (Option Error)
  unfolding bucket_of start deferred
  upload ctx name r = do
    (n, span_ctx) ← start ctx (codes "bucket_upload") ((codes "name", text name) ∷ [])
    err ← inner.upload span_ctx name r
    deferred n err
    pure err

  unfoldable pub delete : Ctx W → Str → Go W (Option Error)
  unfolding bucket_of start deferred
  delete ctx name = do
    (n, span_ctx) ← start ctx (codes "bucket_delete") ((codes "name", text name) ∷ [])
    err ← inner.delete span_ctx name
    deferred n err
    pure err

  -- TracingBucket as a Bucket; Close and the error tests are those of the wrapped bucket.
  unfoldable pub as_bucket : Bucket W (TracingReadCloser R)
  unfolding bucket_of
  as_bucket = record {
    iter = iter;
    get = get;
    get_range = get_range;
    has_object = has_object;
    is_obj_not_found_err = inner.is_obj_not_found_err;
    is_customer_managed_key_error = inner.is_customer_managed_key_error;
    attributes = attributes;
    upload = upload;
    delete = delete;
    name = inner.name >>= λ n. pure (codes "tracing: " ++ n);
    close = inner.close;
  }

-- WithExpectedErrs and ReaderWithExpectedErrs
unfoldable pub with_expected_errs :
    {W R : Type 0} → (Error → Bool) → TracingBucket W R → TracingBucket W R
with_expected_errs expected t = elim t.bkt as (λ _. TracingBucket _ _) [
  | bare b ↦ t
  | instrumented b f ↦ record { tracer = t.tracer; bkt = f expected }
]
