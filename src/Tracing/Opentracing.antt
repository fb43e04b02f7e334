-- ===== src/Tracing/Opentracing.antt =====
-- tracing/opentracing/opentracing.go: TracingBucket and tracingReadCloser over package opentracing.
pub mod Spans
pub mod ReadCloser
use objstore.Prelude.{
  ℕ, ◌≡◌, Bool, Option, none, some, List, [], ◌∷◌, ◌++◌, ltb, if◌then◌else◌, codes,
}
use objstore.Prelude.Int.{ℤ, pos, add64}
use objstore.Text.{Str}
use objstore.Errors.{Error}
use objstore.Go.{Go, Ctx, Fallible, returns, panics, pure, ◌>>=◌, ◌>>◌}
use objstore.Reader.{Reader}
use objstore.ReadCloser.{ReadClosers, size_of}
use objstore.Options.{IterOption}
use objstore.Bucket.{Bucket, Callback, ObjectAttributes}
use objstore.Tracing.{
  Value, text, number, failure, SpanEvent, started, logged, finished, SpanLog, note, AnyBucket,
  bare, instrumented, bucket_of, is_read_error,
}

-- A span of the tracer, or one of opentracing.NoopTracer, which drops its calls.
pub data Span : Type 0 where
  noop : Span
  span : ℕ → Span

-- Package opentracing, with tracers of a type `T`: the values of a context, StartSpan with the
-- parent it is given, and SpanFromContext.
pub record Opentracing (W T : Type 0) : Type 0 where
  pub log : SpanLog W
  pub tracer_value : Ctx W → Option T
  pub with_tracer_value : Ctx W → T → Ctx W
  pub value_with : (ctx : Ctx W) (t : T) → tracer_value (with_tracer_value ctx t) ≡ some t
  pub span_of : Ctx W → Option ℕ
  pub with_span : Ctx W → ℕ → Ctx W
  pub next_span : T → Str → Option ℕ → W → ℕ

pub record TracingBucket (W R : Type 0) : Type 0 where
  pub bkt : AnyBucket W R

-- WrapWithTraces
unfoldable pub wrap_with_traces : {W R : Type 0} → AnyBucket W R → TracingBucket W R
wrap_with_traces b = record { bkt = b }

-- tracingReadCloser
pub record TracingReadCloser (R : Type 0) : Type 0 where
  pub r : Option R
  pub s : Option Span
  pub obj_size : ℤ
  pub obj_size_err : Option Error
  pub read_bytes : ℤ

module _ {W T : Type 0} (o : Opentracing W T) where
  -- ContextWithTracer
  unfoldable pub context_with_tracer : Ctx W → T → Ctx W
  context_with_tracer ctx tracer = o.with_tracer_value ctx tracer

  -- TracerFromContext
  unfoldable pub tracer_from_context : Ctx W → Option T
  tracer_from_context ctx = o.tracer_value ctx

  -- span.LogKV and span.Finish
  unfoldable pub log_kv : Span → List (Str × Value) → Go W (Unit {0})
  log_kv noop kvs = pure tt
  log_kv (span n) kvs = note o.log (logged n kvs)

  unfoldable pub finish : Span → Go W (Unit {0})
  finish noop = pure tt
  finish (span n) = note o.log (finished n)

  -- startSpan
  unfoldable pub start_span : Ctx W → Str → Go W (Span × Ctx W)
  unfolding tracer_from_context
  start_span ctx operation_name = elim (tracer_from_context ctx) [
    | none ↦ pure (noop, ctx)
    | some tracer ↦ λ w.
        let n = o.next_span tracer operation_name (o.span_of ctx) w in
        returns ((span n, o.with_span ctx n), o.log.emit (started n operation_name) w)
  ]

  -- doWithSpan
  unfoldable pub do_with_span : {A : Type 0} → Ctx W → Str → (Ctx W → Span → Go W A) → Go W A
  unfolding start_span finish
  do_with_span ctx operation_name do_fn = do
    (s, new_ctx) ← start_span ctx operation_name
    result ← do_fn new_ctx s
    finish s
    pure result

  module _ {R : Type 0} (rcs : ReadClosers W R) where
    -- newTracingReadCloser
    unfoldable pub new_tracing_read_closer : Option R → Span → TracingReadCloser R
    unfolding size_of
    new_tracing_read_closer r s =
        let (obj_size, obj_size_err) = size_of rcs r in
        record {
          r = r;
          s = some s;
          obj_size = obj_size;
          obj_size_err = obj_size_err;
          read_bytes = pos 0;
        }

    -- ObjectSize
    unfoldable pub object_size : TracingReadCloser R → Fallible ℤ
    object_size t = (t.obj_size, t.obj_size_err)

    -- the report of Read's error, where the reader still has its span
    unfoldable pub note_error : Option Span → Option Error → Go W (Unit {0})
    unfolding log_kv is_read_error
    note_error (some s) (some e) =
        if is_read_error (some e) then log_kv s ((codes "err", failure e) ∷ []) else pure tt
    note_error _ _ = pure tt

    -- the number of bytes after a Read of `n`
    unfoldable pub count_read : ℕ → TracingReadCloser R → TracingReadCloser R
    count_read n t = record t {
      read_bytes = if ltb 0 n then add64 t.read_bytes (pos n) else t.read_bytes;
    }

    -- Read into a buffer of `len` bytes; the method of a nil interface panics
    unfoldable pub read : ℕ → TracingReadCloser R → Go W (ℕ × Option Error × TracingReadCloser R)
    unfolding note_error count_read
    read len t = elim t.r [
      | none ↦ λ w. panics
      | some rc ↦ (do
        (n, err, rc') ← rcs.read len rc
        note_error t.s err
        pure (n, err, count_read n (record t { r = some rc' })))
    ]

    -- the part of Close behind the inner Close, with the span of the reader
    unfoldable pub note_close :
        TracingReadCloser R → Option Span → Option Error → Go W (Option Error × TracingReadCloser R)
    unfolding log_kv finish
    note_close t none err = pure (err, t)
    note_close t (some s) none = do
      log_kv s ((codes "read", number t.read_bytes) ∷ [])
      finish s
      pure (none, record t { s = none })
    note_close t (some s) (some e) = do
      log_kv s ((codes "read", number t.read_bytes) ∷ [])
      log_kv s ((codes "close err", failure e) ∷ [])
      finish s
      pure (some e, record t { s = none })

    -- Close
    unfoldable pub close : TracingReadCloser R → Go W (Option Error × TracingReadCloser R)
    unfolding note_close
    close t = elim t.r [
      | none ↦ λ w. panics
      | some rc ↦ (do (err, rc') ← rcs.close rc; note_close (record t { r = some rc' }) t.s err)
    ]

    module _ (t : TracingBucket W R) where
      abbrev pub inner : Bucket W R
      inner = bucket_of t.bkt

      unfoldable pub iter : Ctx W → Str → Callback W → List IterOption → Go W (Option Error)
      unfolding bucket_of
      iter ctx dir f options = do_with_span ctx (codes "bucket_iter") (λ span_ctx s.
          log_kv s ((codes "dir", text dir) ∷ []) >> inner.iter span_ctx dir f options)

      -- the end of Get and GetRange
      unfoldable pub after_get :
          Span → Fallible (Option R) → Go W (Fallible (Option (TracingReadCloser R)))
      unfolding log_kv finish
      after_get s (r, some err) = do
        log_kv s ((codes "err", failure err) ∷ [])
        finish s
        pure (none, some err)
      after_get s (r, none) = pure (some (new_tracing_read_closer r s), none)

      unfoldable pub get : Ctx W → Str → Go W (Fallible (Option (TracingReadCloser R)))
      unfolding after_get start_span bucket_of
      get ctx name = do
        (s, span_ctx) ← start_span ctx (codes "bucket_get")
        log_kv s ((codes "name", text name) ∷ [])
        result ← inner.get span_ctx name
        after_get s result

      unfoldable pub get_range :
          Ctx W → Str → ℤ → ℤ → Go W (Fallible (Option (TracingReadCloser R)))
      unfolding after_get start_span bucket_of
      get_range ctx name off len = do
        (s, span_ctx) ← start_span ctx (codes "bucket_getrange")
        log_kv s (
            (codes "name", text name)
            ∷ (codes "offset", number off)
            ∷ (codes "length", number len)
            ∷ [])
        result ← inner.get_range span_ctx name off len
        after_get s result

      -- the bodies of the methods that only log the name
      abbrev pub named : {A : Type 0} → Ctx W → Str → Str → (Ctx W → Go W A) → Go W A
      named ctx operation_name name body =
          do_with_span ctx operation_name
            (λ span_ctx s. log_kv s ((codes "name", text name) ∷ []) >> body span_ctx)

      unfoldable pub has_object : Ctx W → Str → Go W (Fallible Bool)
      unfolding bucket_of
      has_object ctx name = named ctx (codes "bucket_exists") name (λ c. inner.has_object c name)

      unfoldable pub attributes : Ctx W → Str → Go W (Fallible ObjectAttributes)
      unfolding bucket_of
      attributes ctx name =
          named ctx (codes "bucket_attributes") name (λ c. inner.attributes c name)

      unfoldable pub upload : Ctx W → Str → Reader → Go W (Option Error)
      unfolding bucket_of
      upload ctx name r = named ctx (codes "bucket_upload") name (λ c. inner.upload c name r)

      unfoldable pub delete : Ctx W → Str → Go W (Option Error)
      unfolding bucket_of
      delete ctx name = named ctx (codes "bucket_delete") name (λ c. inner.delete c name)

      -- TracingBucket as a Bucket; Close and the error tests are those of the wrapped bucket.
      unfoldable pub as_bucket : Bucket W (TracingReadCloser R)
      unfolding bucket_of
      as_bucket = record {
        iter = iter;
        get = get;
        get_range = get_range;
        has_object = has_object;
        is_obj_not_found_err = inner.is_obj_not_found_err;
        is_customer_managed_key_error = inner.is_customer_managed_key_error;
        attributes = attributes;
        upload = upload;
        delete = delete;
        name = inner.name >>= λ n. pure (codes "tracing: " ++ n);
        close = inner.close;
      }

-- WithExpectedErrs and ReaderWithExpectedErrs
unfoldable pub with_expected_errs :
    {W R : Type 0} → (Error → Bool) → TracingBucket W R → TracingBucket W R
with_expected_errs expected t = elim t.bkt as (λ _. TracingBucket _ _) [
  | bare b ↦ t
  | instrumented b f ↦ record { bkt = f expected }
]
