-- ===== src/Tracing/Opentracing/Spans.antt =====
-- The spans of the operations of a TracingBucket over package opentracing.
use objstore.Prelude.{◌≡◌, refl, ℕ, Bool, Option, none, some, List, [], ◌∷◌, ◌++◌, codes, ◌∙◌, ap}
use objstore.Text.{Str}
use objstore.Errors.{Error}
use objstore.Go.{Outcome, returns, panics, Go, Ctx, Fallible, pure, ◌>>=◌}
use objstore.ReadCloser.{ReadClosers}
use objstore.Bucket.{Bucket, ObjectAttributes}
use objstore.Bucket.Request.{
  Request, iter, get, get_range, has_object, attributes, upload, delete, run, value_of,
}
use objstore.Tracing.{failure, SpanEvent, started, logged, finished, bucket_of}
use objstore.Tracing.Operations.{operation_name, fields, ◌then◌}
use objstore.Tracing.Opentracing
use objstore.Tracing.Opentracing.{
  Span, noop, span, Opentracing, TracingBucket, start_span, tracer_from_context, log_kv, finish,
  after_get, do_with_span, as_bucket,
}

-- What the span receives afterwards, latest first: the reader of a Get that succeeds keeps it open.
unfoldable pub closing : {W : Type 0} → Request W → ℕ → Option Error → List SpanEvent
closing (get _) n none = []
closing (get _) n (some e) = finished n ∷ logged n ((codes "err", failure e) ∷ []) ∷ []
closing (get_range _ _ _) n none = []
closing (get_range _ _ _) n (some e) = finished n ∷ logged n ((codes "err", failure e) ∷ []) ∷ []
closing _ n e = finished n ∷ []

module _ {W T R : Type 0} (o : Opentracing W T) (rcs : ReadClosers W R) (t : TracingBucket W R)
    (ctx : Ctx W) where
  abbrev inner : Bucket W R
  inner = bucket_of t.bkt

  start_untraced :
      (nm : Str) (w : W)
      → o.tracer_value ctx ≡ none
      → start_span o ctx nm w ≡ returns ((noop, ctx), w)
  unfolding start_span tracer_from_context
  start_untraced nm w h = rw (h, start_span) refl

  return_same : {A : Type 0} (x : Outcome (A × W)) → (x then λ a w. returns (a, w)) ≡ x
  return_same (returns r) = refl
  return_same panics = refl

  got_same :
      (x : Outcome (Fallible (Option R) × W))
      → ((x then after_get o rcs t noop) then λ r. pure r.1) ≡ (x then λ r. pure r.1)
  unfolding after_get log_kv finish
  got_same (returns ((a, none), w)) = refl
  got_same (returns ((a, some e), w)) = refl
  got_same panics = refl

  with_untraced :
      {A : Type 0} (nm : Str) (fn : Ctx W → Span → Go W A) (w : W)
      → o.tracer_value ctx ≡ none
      → do_with_span o ctx nm fn w ≡ fn ctx noop w
  unfolding do_with_span finish
  with_untraced nm fn w h = rw (start_untraced nm w h, ◌>>=◌) (return_same (fn ctx noop w))

  has_object_untraced :
      (name : Str) (w : W)
      → o.tracer_value ctx ≡ none
      → Opentracing.has_object o rcs t ctx name w ≡ inner.has_object ctx name w
  unfolding Opentracing.has_object log_kv
  has_object_untraced name w h = with_untraced (codes "bucket_exists") _ w h

  attributes_untraced :
      (name : Str) (w : W)
      → o.tracer_value ctx ≡ none
      → Opentracing.attributes o rcs t ctx name w ≡ inner.attributes ctx name w
  unfolding Opentracing.attributes log_kv
  attributes_untraced name w h = with_untraced (codes "bucket_attributes") _ w h

  -- Under a context without a tracer, every operation has the outcome of the wrapped bucket's, and
  -- calls no span.
  pub run_untraced :
      (r : Request W) (w : W)
      → o.tracer_value ctx ≡ none
      → run (as_bucket o rcs t) ctx r w ≡ run (bucket_of t.bkt) ctx r w
  unfolding run as_bucket log_kv
  run_untraced (iter dir f options) w h =
      unfold Opentracing.iter in with_untraced (codes "bucket_iter") _ w h
  run_untraced (get name) w h =
      unfold Opentracing.get in
      rw (start_untraced (codes "bucket_get") w h, ◌>>=◌) (got_same (inner.get ctx name w))
  run_untraced (get_range name off len) w h =
      unfold Opentracing.get_range in
      rw (start_untraced (codes "bucket_getrange") w h, ◌>>=◌)
        (got_same (inner.get_range ctx name off len w))
  run_untraced (has_object name) w h = rw (has_object_untraced name w h, ◌>>=◌) refl
  run_untraced (attributes name) w h = rw (attributes_untraced name w h, ◌>>=◌) refl
  run_untraced (upload name r) w h =
      unfold Opentracing.upload in with_untraced (codes "bucket_upload") _ w h
  run_untraced (delete name) w h =
      unfold Opentracing.delete in with_untraced (codes "bucket_delete") _ w h

  module _ (tracer : T) (r : Request W) (w : W) where
    -- the number of the new span, and the world in which the wrapped bucket is called
    abbrev pub new_span : ℕ
    new_span = o.next_span tracer (operation_name r) (o.span_of ctx) w

    abbrev pub opened : W
    opened =
        o.log.emit (logged new_span (fields r)) (o.log.emit (started new_span (operation_name r)) w)

    -- the error is handed on, and the span's remaining calls follow those of the wrapped bucket
    abbrev pub Traced : Option Error → W → Outcome (Option Error × W) → Type 0
    Traced e w1 out =
        (w2 : W) × (out ≡ returns (e, w2))
        × (o.log.events w2 ≡ closing r new_span e ++ o.log.events w1)

  module _ (tracer : T) (h : o.tracer_value ctx ≡ some tracer) where
    start_traced :
        (nm : Str) (w : W)
        → let n = o.next_span tracer nm (o.span_of ctx) w in
          start_span o ctx nm w ≡ returns ((span n, o.with_span ctx n), o.log.emit (started n nm) w)
    unfolding start_span tracer_from_context
    start_traced nm w = rw (h, start_span) refl

    with_traced :
        {A : Type 0} (nm : Str) (fn : Ctx W → Span → Go W A) (w w1 : W) (a : A)
        → let n = o.next_span tracer nm (o.span_of ctx) w in
          fn (o.with_span ctx n) (span n) (o.log.emit (started n nm) w) ≡ returns (a, w1)
          → do_with_span o ctx nm fn w ≡ returns (a, o.log.emit (finished n) w1)
    unfolding do_with_span finish
    with_traced nm fn w w1 a x = rw (start_traced nm w, ◌>>=◌) (rw (x, ◌>>=◌) refl)

    got_traced :
        (get_r : Request W) (n : ℕ) (w1 : W) (rc : Option R) (e : Option Error)
        → closing get_r n none ≡ []
        → ((err : Error)
            → closing get_r n (some err)
              ≡ finished n ∷ logged n ((codes "err", failure err) ∷ []) ∷ [])
        → (w2 : W) × ((after_get o rcs t (span n) (rc, e) w1 then λ x. pure x.1) ≡ returns (e, w2))
          × (o.log.events w2 ≡ closing get_r n e ++ o.log.events w1)
    unfolding after_get log_kv finish
    got_traced get_r n w1 rc none c0 c1 = (w1, refl, rw c0 refl)
    got_traced get_r n w1 rc (some err) c0 c1 =
        let l = logged n ((codes "err", failure err) ∷ []) in
        (
          o.log.emit (finished n) (o.log.emit l w1),
          refl,
          rw (c1 err) (
              o.log.events-emit (finished n) (o.log.emit l w1)
              ∙ ap (◌∷◌ (finished n)) (o.log.events-emit l w1)),
        )

    has_object_traced :
        (name : Str) (w w1 : W) (a : Fallible Bool)
        → inner.has_object
            (o.with_span ctx (new_span tracer (has_object name) w))
            name
            (opened tracer (has_object name) w)
          ≡ returns (a, w1)
        → Opentracing.has_object o rcs t ctx name w
          ≡ returns (a, o.log.emit (finished (new_span tracer (has_object name) w)) w1)
    unfolding Opentracing.has_object log_kv operation_name fields
    has_object_traced name w w1 a x = with_traced (codes "bucket_exists") _ w w1 a x

    attributes_traced :
        (name : Str) (w w1 : W) (a : Fallible ObjectAttributes)
        → inner.attributes
            (o.with_span ctx (new_span tracer (attributes name) w))
            name
            (opened tracer (attributes name) w)
          ≡ returns (a, w1)
        → Opentracing.attributes o rcs t ctx name w
          ≡ returns (a, o.log.emit (finished (new_span tracer (attributes name) w)) w1)
    unfolding Opentracing.attributes log_kv operation_name fields
    attributes_traced name w w1 a x = with_traced (codes "bucket_attributes") _ w w1 a x

    -- Under a context with a tracer, every operation starts a span, logs its arguments, and calls
    -- the wrapped bucket with a context that holds the span. If that returns, its error is handed
    -- on. Afterwards the span is finished, once; only the reader of a Get or GetRange that succeeds
    -- keeps it open, and the error of one that fails is logged before.
    pub run-Traced :
        (r : Request W) (w w1 : W) (e : Option Error)
        → run (bucket_of t.bkt) (o.with_span ctx (new_span tracer r w)) r (opened tracer r w)
          ≡ returns (e, w1)
        → Traced tracer r w e w1 (run (as_bucket o rcs t) ctx r w)
    unfolding run as_bucket operation_name fields
    run-Traced (iter dir f options) w w1 e x =
        let n = new_span tracer (iter dir f options) w in
        (
          o.log.emit (finished n) w1,
          unfold Opentracing.iter log_kv in with_traced (codes "bucket_iter") _ w w1 e x,
          unfold closing in o.log.events-emit (finished n) w1,
        )
    run-Traced (get name) w w1 e x =
        let n = new_span tracer (get name) w in
        let (a, y) =
          value_of (inner.get (o.with_span ctx n) name (opened tracer (get name) w)) e w1 x in
        let (w2, out, l) =
          got_traced (get name) n w1 a e (unfold closing in refl) (λ err. unfold closing in refl) in
        (
          w2,
          unfold Opentracing.get log_kv in
              rw (start_traced (codes "bucket_get") w, ◌>>=◌) (rw (y, ◌>>=◌) out),
          l,
        )
    run-Traced (get_range name off len) w w1 e x =
        let n = new_span tracer (get_range name off len) w in
        let (a, y) =
          value_of
            (inner.get_range (o.with_span ctx n) name off len
              (opened tracer (get_range name off len) w))
            e w1 x in
        let (w2, out, l) =
          got_traced (get_range name off len) n w1 a e (unfold closing in refl)
            (λ err. unfold closing in refl) in
        (
          w2,
          unfold Opentracing.get_range log_kv in
              rw (start_traced (codes "bucket_getrange") w, ◌>>=◌) (rw (y, ◌>>=◌) out),
          l,
        )
    run-Traced (has_object name) w w1 e x =
        let n = new_span tracer (has_object name) w in
        let (a, y) =
          value_of (inner.has_object (o.with_span ctx n) name (opened tracer (has_object name) w)) e
            w1 x in
        (
          o.log.emit (finished n) w1,
          rw (has_object_traced name w w1 (a, e) y, ◌>>=◌) refl,
          unfold closing in o.log.events-emit (finished n) w1,
        )
    run-Traced (attributes name) w w1 e x =
        let n = new_span tracer (attributes name) w in
        let (a, y) =
          value_of (inner.attributes (o.with_span ctx n) name (opened tracer (attributes name) w)) e
            w1 x in
        (
          o.log.emit (finished n) w1,
          rw (attributes_traced name w w1 (a, e) y, ◌>>=◌) refl,
          unfold closing in o.log.events-emit (finished n) w1,
        )
    run-Traced (upload name r) w w1 e x =
        let n = new_span tracer (upload name r) w in
        (
          o.log.emit (finished n) w1,
          unfold Opentracing.upload log_kv in with_traced (codes "bucket_upload") _ w w1 e x,
          unfold closing in o.log.events-emit (finished n) w1,
        )
    run-Traced (delete name) w w1 e x =
        let n = new_span tracer (delete name) w in
        (
          o.log.emit (finished n) w1,
          unfold Opentracing.delete log_kv in with_traced (codes "bucket_delete") _ w w1 e x,
          unfold closing in o.log.events-emit (finished n) w1,
        )
