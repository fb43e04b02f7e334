-- ===== src/Tracing/Opentelemetry/Spans.antt =====
-- The spans of the operations of a TracingBucket over OpenTelemetry.
use objstore.Prelude.{ℕ, ◌≡◌, refl, Option, none, some, List, [], ◌∷◌, ◌++◌, ◌∙◌, ap}
use objstore.Errors.{Error}
use objstore.Go.{Outcome, returns, Ctx, pure, ◌>>=◌}
use objstore.ReadCloser.{ReadClosers}
use objstore.Bucket.{Bucket}
use objstore.Bucket.Request.{
  Request, iter, get, get_range, has_object, attributes, upload, delete, run, value_of,
}
use objstore.Tracing.{SpanEvent, started, logged, recorded, finished, bucket_of}
use objstore.Tracing.Operations.{operation_name, fields, ◌then◌}
use objstore.Tracing.Opentelemetry
use objstore.Tracing.Opentelemetry.{TracingBucket, start, deferred, after_get, as_bucket}

-- What the span receives after the wrapped bucket returned, latest first.
unfoldable pub closing : ℕ → Option Error → List SpanEvent
closing n none = finished n ∷ []
closing n (some e) = finished n ∷ recorded n e ∷ []

module _ {W R : Type 0} (rcs : ReadClosers W R) (t : TracingBucket W R) (ctx : Ctx W) where
  abbrev inner : Bucket W R
  inner = bucket_of t.bkt

  -- the number of the new span, and the world in which the wrapped bucket is called
  abbrev pub new_span : Request W → W → ℕ
  new_span r w = t.tracer.next_span ctx (operation_name r) w

  abbrev pub opened : Request W → W → W
  opened r w =
      let n = new_span r w in
      t.tracer.log.emit (logged n (fields r)) (t.tracer.log.emit (started n (operation_name r)) w)

  -- the error is handed on, and the span's last calls follow those of the wrapped bucket
  abbrev pub Traced : ℕ → Option Error → W → Outcome (Option Error × W) → Type 0
  Traced n e w1 out =
      (w2 : W) × (out ≡ returns (e, w2))
      × (t.tracer.log.events w2 ≡ closing n e ++ t.tracer.log.events w1)

  failed_lem :
      (n : ℕ) (e : Error) (w : W)
      → t.tracer.log.events (t.tracer.log.emit (finished n) (t.tracer.log.emit (recorded n e) w))
        ≡ finished n ∷ recorded n e ∷ t.tracer.log.events w
  failed_lem n e w =
      t.tracer.log.events-emit (finished n) (t.tracer.log.emit (recorded n e) w)
      ∙ ap (◌∷◌ (finished n)) (t.tracer.log.events-emit (recorded n e) w)

  deferred_lem :
      (n : ℕ) (e : Option Error) (w : W)
      → (w2 : W) × (deferred rcs t n e w ≡ returns (tt, w2))
        × (t.tracer.log.events w2 ≡ closing n e ++ t.tracer.log.events w)
  unfolding deferred closing
  deferred_lem n none w =
      (t.tracer.log.emit (finished n) w, refl, t.tracer.log.events-emit (finished n) w)
  deferred_lem n (some e) w =
      (t.tracer.log.emit (finished n) (t.tracer.log.emit (recorded n e) w), refl, failed_lem n e w)

  got_lem :
      (n : ℕ) (rc : Option R) (e : Option Error) (w : W)
      → Traced n e w (after_get rcs t n (rc, e) w then λ x. pure x.1)
  unfolding after_get closing
  got_lem n rc none w =
      (t.tracer.log.emit (finished n) w, refl, t.tracer.log.events-emit (finished n) w)
  got_lem n rc (some e) w =
      (t.tracer.log.emit (finished n) (t.tracer.log.emit (recorded n e) w), refl, failed_lem n e w)

  -- Every operation starts a span, sets its arguments as attributes, and calls the wrapped bucket
  -- with a context that holds the span. If that returns, its error is handed on and recorded, and
  -- the span is ended once; so it is also by a Get or GetRange whose reader keeps the span.
  pub run-Traced_telemetry :
      (r : Request W) (w w1 : W) (e : Option Error)
      → run inner (t.tracer.with_span ctx (new_span r w)) r (opened r w) ≡ returns (e, w1)
      → Traced (new_span r w) e w1 (run (as_bucket rcs t) ctx r w)
  unfolding run as_bucket operation_name fields
  run-Traced_telemetry (iter dir f options) w w1 e x =
      let (w2, d, l) = deferred_lem (new_span (iter dir f options) w) e w1 in
      (w2, unfold Opentelemetry.iter start in rw (x, ◌>>=◌) (rw (d, ◌>>=◌) refl), l)
  run-Traced_telemetry (get name) w w1 e x =
      let n = new_span (get name) w in
      let (a, y) =
        value_of (inner.get (t.tracer.with_span ctx n) name (opened (get name) w)) e w1 x in
      let (w2, out, l) = got_lem n a e w1 in
      (w2, unfold Opentelemetry.get start in rw (y, ◌>>=◌) out, l)
  run-Traced_telemetry (get_range name off len) w w1 e x =
      let n = new_span (get_range name off len) w in
      let (a, y) =
        value_of
          (inner.get_range (t.tracer.with_span ctx n) name off len
            (opened (get_range name off len) w))
          e w1 x in
      let (w2, out, l) = got_lem n a e w1 in
      (w2, unfold Opentelemetry.get_range start in rw (y, ◌>>=◌) out, l)
  run-Traced_telemetry (has_object name) w w1 e x =
      let n = new_span (has_object name) w in
      let (a, y) =
        value_of (inner.has_object (t.tracer.with_span ctx n) name (opened (has_object name) w)) e
          w1 x in
      let (w2, d, l) = deferred_lem n e w1 in
      (w2, unfold Opentelemetry.has_object start in rw (y, ◌>>=◌) (rw (d, ◌>>=◌) refl), l)
  run-Traced_telemetry (attributes name) w w1 e x =
      let n = new_span (attributes name) w in
      let (a, y) =
        value_of (inner.attributes (t.tracer.with_span ctx n) name (opened (attributes name) w)) e
          w1 x in
      let (w2, d, l) = deferred_lem n e w1 in
      (w2, unfold Opentelemetry.attributes start in rw (y, ◌>>=◌) (rw (d, ◌>>=◌) refl), l)
  run-Traced_telemetry (upload name r) w w1 e x =
      let (w2, d, l) = deferred_lem (new_span (upload name r) w) e w1 in
      (w2, unfold Opentelemetry.upload start in rw (x, ◌>>=◌) (rw (d, ◌>>=◌) refl), l)
  run-Traced_telemetry (delete name) w w1 e x =
      let (w2, d, l) = deferred_lem (new_span (delete name) w) e w1 in
      (w2, unfold Opentelemetry.delete start in rw (x, ◌>>=◌) (rw (d, ◌>>=◌) refl), l)
