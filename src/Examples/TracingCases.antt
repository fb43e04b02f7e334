-- ===== src/Examples/TracingCases.antt =====
-- The theorems on the tracing wrappers at a concrete world: one InMemBucket and a log of spans.
use objstore.Prelude.{ℕ, ◌≡◌, refl, ◌==◌, none, some, List, [], ◌∷◌, codes, if◌then◌else◌, length}
use objstore.Prelude.Int.{pos}
use objstore.Errors.{foreign}
use objstore.Go.{Ctx, returns, ◌>>=◌}
use objstore.Reader.{Reader, try_to_get_size}
use objstore.ReadCloser.{ReadClosers, reads, closes}
use objstore.Text.{str_eq}
use objstore.Dict.{lookup}
use objstore.Inmem
use objstore.Inmem.{InMemBucket, reader_of}
use objstore.Inmem.Instance.{Place, in_mem_bucket}
use objstore.Bucket.{Bucket}
use objstore.Bucket.Request.{Request, get, run}
use objstore.Tracing.{SpanEvent, started, logged, text, SpanLog, bare, bucket_of}
use objstore.Tracing.Operations.{operation_name, fields}
use objstore.Tracing.Finishes.{any_closes, IsQuiet}
use objstore.Tracing.Opentracing
use objstore.Tracing.Opentracing.{Opentracing, span, as_bucket}
use objstore.Tracing.Opentracing.Spans.{Traced, run-Traced}
use objstore.Tracing.Opentracing.ReadCloser.{Used, use_all, use_all_finishes}
use objstore.Tracing.Opentelemetry
use objstore.Tracing.Opentelemetry.Spans
use objstore.Tracing.Opentelemetry.Spans.{run-Traced_telemetry}
use objstore.Examples.World.{errors_pkg, stocked}

record SpanWorld : Type 0 where
  store : InMemBucket
  spans : List SpanEvent

abbrev spans_place : Place SpanWorld
spans_place = record {
  read = λ w. w.store;
  write = λ b w. record w { store = b };
  now = λ w. 0;
  read_write = λ b w. refl;
}

abbrev span_log : SpanLog SpanWorld
span_log = record {
  events = λ w. w.spans;
  emit = λ e w. record w { spans = e ∷ w.spans };
  events-emit = λ e w. refl;
}

abbrev with_value : ℕ → Ctx SpanWorld → ℕ → Ctx SpanWorld
with_value key ctx n = record ctx { value = λ k. if k == key then some n else ctx.value k }

-- the key 0 holds the tracer, and 1 the span
abbrev tracers : Opentracing SpanWorld ℕ
tracers = record {
  log = span_log;
  tracer_value = λ ctx. ctx.value 0;
  with_tracer_value = with_value 0;
  value_with = λ ctx t. refl;
  span_of = λ ctx. ctx.value 1;
  with_span = with_value 1;
  next_span = λ t name parent w. length w.spans;
}

abbrev telemetry : Opentelemetry.Tracer SpanWorld
telemetry = record {
  log = span_log;
  next_span = λ ctx name w. length w.spans;
  with_span = with_value 1;
}

abbrev no_tracer : Ctx SpanWorld
no_tracer = record { err = λ w. none; value = λ k. none }

abbrev one_tracer : Ctx SpanWorld
one_tracer = with_value 0 no_tracer 4

abbrev spans_world : SpanWorld
spans_world = record { store = stocked; spans = [] }

abbrev base : Bucket SpanWorld Reader
base = in_mem_bucket spans_place errors_pkg

abbrev resetting : ReadClosers SpanWorld Reader
resetting = record {
  size = try_to_get_size;
  read = λ len r w. returns ((1, some (foreign "reset"), r), w);
  close = λ r w. returns ((none, r), w);
}

abbrev resetting_quiet : IsQuiet span_log resetting
resetting_quiet = record {
  read_quiet = λ len r w. ((1, some (foreign "reset"), r), w, refl, refl);
  close_quiet = λ r w. ((none, r), w, refl, refl);
}

abbrev traced : Opentracing.TracingBucket SpanWorld Reader
traced = record { bkt = bare base }

abbrev traced_telemetry : Opentelemetry.TracingBucket SpanWorld Reader
traced_telemetry = record { tracer = telemetry; bkt = bare base }

abbrev at : List SpanEvent → SpanWorld
at spans = record { store = stocked; spans = spans }

abbrev found : Reader
found = reader_of (codes "z")

base_gets :
    (ctx : Ctx SpanWorld) (spans : List SpanEvent)
    → base.get ctx (codes "other") (at spans) ≡ returns ((some found, none), at spans)
unfolding in_mem_bucket Inmem.get lookup str_eq
base_gets ctx spans = refl

-- the span's two first calls
abbrev begun : List SpanEvent
begun = logged 0 ((codes "name", text (codes "other")) ∷ []) ∷ started 0 (codes "bucket_get") ∷ []

abbrev fetch : Request SpanWorld
fetch = get (codes "other")

run_gets : (ctx : Ctx SpanWorld) → run base ctx fetch (at begun) ≡ returns (none, at begun)
unfolding run
run_gets ctx = rw (base_gets ctx begun, ◌>>=◌) refl

run-Traced_example :
    Traced tracers resetting traced one_tracer 4 fetch spans_world none
      (at begun)
      (run (as_bucket tracers resetting traced) one_tracer fetch spans_world)
unfolding operation_name fields bucket_of
run-Traced_example =
    run-Traced tracers resetting traced one_tracer 4 refl fetch spans_world (at begun) none
      (run_gets (with_value 1 one_tracer 0))

run-Traced_telemetry_example :
    Spans.Traced resetting traced_telemetry no_tracer 0 none
      (at begun)
      (run (Opentelemetry.as_bucket resetting traced_telemetry) no_tracer fetch spans_world)
unfolding operation_name fields bucket_of
run-Traced_telemetry_example =
    run-Traced_telemetry resetting traced_telemetry no_tracer fetch spans_world (at begun) none
      (run_gets (with_value 1 no_tracer 0))

abbrev reader : Opentracing.TracingReadCloser Reader
reader = record {
  r = some found;
  s = some (span 0);
  obj_size = pos 1;
  obj_size_err = none;
  read_bytes = pos 0;
}

use_all_finishes_example :
    Used tracers resetting 0 none 1
      (at begun)
      (use_all tracers resetting (reads 5 ∷ closes ∷ closes ∷ []) reader (at begun))
unfolding any_closes
use_all_finishes_example =
    use_all_finishes tracers resetting resetting_quiet 0 (reads 5 ∷ closes ∷ closes ∷ []) reader
      found (at begun) refl refl
