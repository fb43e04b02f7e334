-- ===== src/Tracing.antt =====
-- tracing/opentracing/opentracing.go and tracing/opentelemetry/opentelemetry.go: the two wrappers
-- that record the operations of a bucket as spans, and what they share. The tracers are
-- parameters: the model keeps the calls that their spans receive.
pub mod Finishes
pub mod Operations
pub mod Opentracing
pub mod Opentelemetry
use objstore.Prelude.{ℕ, ◌≡◌, Bool, Option, List, ◌∷◌, false, true, none, some}
use objstore.Prelude.Int.{ℤ}
use objstore.Text.{Str}
use objstore.Errors.{Error, eof}
use objstore.Go.{Go, returns}
use objstore.Bucket.{Bucket}

-- A value that a span is given with a key.
pub data Value : Type 0 where
  text : Str → Value
  number : ℤ → Value
  failure : Error → Value

-- A call of a span or of a tracer; a span is known by its number.
pub data SpanEvent : Type 0 where
  -- the start of a span, with its name
  started : ℕ → Str → SpanEvent
  -- LogKV and SetAttributes
  logged : ℕ → List (Str × Value) → SpanEvent
  -- RecordError
  recorded : ℕ → Error → SpanEvent
  -- Finish and End
  finished : ℕ → SpanEvent

-- Where the calls go, latest first.
pub record SpanLog (W : Type 0) : Type 0 where
  pub events : W → List SpanEvent
  pub emit : SpanEvent → W → W
  pub events-emit : (e : SpanEvent) (w : W) → events (emit e w) ≡ e ∷ events w

abbrev pub note : {W : Type 0} → SpanLog W → SpanEvent → Go W (Unit {0})
note l e w = returns (tt, l.emit e w)

-- A Bucket with its dynamic type: one with the method WithExpectedErrs is an InstrumentedBucket.
pub data AnyBucket (W R : Type 0) : Type 0 where
  bare : Bucket W R → AnyBucket W R
  instrumented : Bucket W R → ((Error → Bool) → AnyBucket W R) → AnyBucket W R

unfoldable pub bucket_of : {W R : Type 0} → AnyBucket W R → Bucket W R
bucket_of (bare b) = b
bucket_of (instrumented b _) = b

-- `err != nil && err != io.EOF` in Read
unfoldable pub is_read_error : Option Error → Bool
is_read_error none = false
is_read_error (some eof) = false
is_read_error (some _) = true
