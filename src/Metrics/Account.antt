-- ===== src/Metrics/Account.antt =====
-- What each operation of a metricBucket reports to the collectors, and that it hands the error of
-- the wrapped bucket on.
use objstore.Prelude.{
  ℕ, ◌-◌, ◌≡◌, refl, Bool, false, ◌||◌, Option, none, some, List, [], ◌∷◌, ◌++◌, arith,
  if◌then◌else◌, ◌∙◌, ap, Bool-cases, inl, inr,
}
use objstore.Text.{Str}
use objstore.Errors.{Error}
use objstore.Go.{Outcome, returns, Ctx, pure, ◌>>=◌}
use objstore.Bucket.{Bucket}
use objstore.Bucket.Request.{
  Request, iter, get, get_range, has_object, attributes, upload, delete, run, value_of,
}
use objstore.Metrics.{
  Op, op_iter, op_get, op_get_range, op_exists, op_upload, op_delete, op_attributes,
  operations_total, failures_total, fetched_bytes_total, duration_seconds,
  last_successful_upload_time, MetricCall, init, inc, observe, set_to_current_time, Prometheus,
  is_canceled,
}
use objstore.ReadCloser.{ReadClosers}
use objstore.Metrics.Instrumented
use objstore.Metrics.Instrumented.{
  MetricBucket, note_failure, after_iter, after_timed, after_get, after_upload, after_delete,
  as_bucket,
}

abbrev pub op_of : {W : Type 0} → Request W → Op
op_of (iter _ _ _) = op_iter
op_of (get _) = op_get
op_of (get_range _ _ _) = op_get_range
op_of (has_object _) = op_exists
op_of (attributes _) = op_attributes
op_of (upload _ _) = op_upload
op_of (delete _) = op_delete

-- The calls on success, latest first: Iter has none, a reader is timed when it is closed, all else
-- is timed at once, and an upload marks the bucket.
unfoldable pub success_report : Op → ℕ → Str → List MetricCall
success_report op_iter elapsed name = []
success_report op_get elapsed name = init failures_total op_get ∷ init duration_seconds op_get ∷ []
success_report op_get_range elapsed name =
    init failures_total op_get_range ∷ init duration_seconds op_get_range ∷ []
success_report op_upload elapsed name =
    observe duration_seconds op_upload elapsed
    ∷ set_to_current_time last_successful_upload_time name
    ∷ []
success_report op elapsed name = observe duration_seconds op elapsed ∷ []

-- The calls on a failure: one, unless the error is expected or the context was cancelled.
unfoldable pub failure_report : Op → Bool → List MetricCall
failure_report op ignored = if ignored then [] else inc failures_total op ∷ []

abbrev pub report : Op → Option Error → Bool → ℕ → Str → List MetricCall
report op none ignored elapsed name = success_report op elapsed name
report op (some e) ignored elapsed name = failure_report op ignored

-- whether an error does not count
abbrev pub ignores : {W : Type 0} → (Error → Bool) → Ctx W → W → Option Error → Bool
ignores expected ctx w none = false
ignores expected ctx w (some e) = expected e || is_canceled (ctx.err w)

-- a metricBucket as WrapWithMetrics and WithExpectedErrs make it
abbrev pub metered : {W R : Type 0} → Bucket W R → (Error → Bool) → MetricBucket W R
metered b expected = record {
  bkt = b;
  ops = operations_total;
  ops_failures = failures_total;
  is_op_failure_expected = expected;
  ops_fetched_bytes = fetched_bytes_total;
  ops_duration = duration_seconds;
  last_successful_upload = last_successful_upload_time;
}

module _ {W R : Type 0} (p : Prometheus W) (rcs : ReadClosers W R) (b : Bucket W R)
    (expected : Error → Bool) (name : Str) (ctx : Ctx W) (w w1 : W) where
  abbrev pub m : MetricBucket W R
  m = metered b expected

  -- The error is handed on, and the calls since `w` are the attempt and the report of its outcome.
  abbrev pub Reported : Op → Option Error → Outcome (Option Error × W) → Type 0
  Reported op e out =
      (w2 : W) × (elapsed : ℕ) × (out ≡ returns (e, w2))
      × (p.calls w2
          ≡ report op e (ignores expected ctx w1 e) elapsed name
            ++ inc operations_total op ∷ p.calls w)

  module _ (op : Op) (quiet : p.calls w1 ≡ inc operations_total op ∷ p.calls w) where
    note_failure_lem :
        (e : Error)
        → (w2 : W) × (note_failure p rcs m op ctx e w1 ≡ returns (tt, w2))
          × (p.calls w2
              ≡ failure_report op (ignores expected ctx w1 (some e))
                ++ inc operations_total op ∷ p.calls w)
    unfolding note_failure failure_report
    note_failure_lem e = elim (Bool-cases (ignores expected ctx w1 (some e))) [
      | inl i ↦ (w1, ground arith, rw i quiet)
      | inr i ↦ (
        p.emit (inc failures_total op) w1,
        ground arith,
        rw i (p.calls-emit (inc failures_total op) w1 ∙ ap (◌∷◌ (inc failures_total op)) quiet),
      )
    ]

    timed_lem :
        {A : Type 0} (start : ℕ) (d : A) (a : A) (e : Option Error)
        → success_report op (p.now w1 - start) name
          ≡ observe duration_seconds op (p.now w1 - start) ∷ []
        → Reported op e ((after_timed p rcs m op ctx start d (a, e) >>= λ r. pure r.1) w1)
    unfolding after_timed
    timed_lem start d a (some e) s = let (w2, n, c) = note_failure_lem e in (w2, 0, rw n refl, c)
    timed_lem start d a none s =
        let o = observe duration_seconds op (p.now w1 - start) in
        (p.emit o w1, p.now w1 - start, refl, rw s (p.calls-emit o w1 ∙ ap (◌∷◌ o) quiet))

    got_lem :
        (rc : Option R) (e : Option Error)
        → success_report op 0 name ≡ init failures_total op ∷ init duration_seconds op ∷ []
        → Reported op e ((after_get p rcs m op ctx (rc, e) >>= λ r. pure r.1) w1)
    unfolding after_get
    got_lem rc (some e) s = let (w2, n, c) = note_failure_lem e in (w2, 0, rw n refl, c)
    got_lem rc none s =
        let d = init duration_seconds op in
        let f = init failures_total op in
        (
          p.emit f (p.emit d w1),
          0,
          refl,
          rw s (p.calls-emit f (p.emit d w1) ∙ ap (◌∷◌ f) (p.calls-emit d w1 ∙ ap (◌∷◌ d) quiet)),
        )

  iterated_lem :
      (e : Option Error)
      → p.calls w1 ≡ inc operations_total op_iter ∷ p.calls w
      → Reported op_iter e (after_iter p rcs m ctx e w1)
  unfolding after_iter success_report
  iterated_lem (some e) quiet =
      let (w2, n, c) = note_failure_lem op_iter quiet e in (w2, 0, rw n refl, c)
  iterated_lem none quiet = (w1, 0, refl, quiet)

  deleted_lem :
      (start : ℕ) (e : Option Error)
      → p.calls w1 ≡ inc operations_total op_delete ∷ p.calls w
      → Reported op_delete e (after_delete p rcs m ctx start e w1)
  unfolding after_delete success_report
  deleted_lem start (some e) quiet =
      let (w2, n, c) = note_failure_lem op_delete quiet e in (w2, 0, rw n refl, c)
  deleted_lem start none quiet =
      let o = observe duration_seconds op_delete (p.now w1 - start) in
      (p.emit o w1, p.now w1 - start, refl, p.calls-emit o w1 ∙ ap (◌∷◌ o) quiet)

  uploaded_lem :
      (start : ℕ) (e : Option Error)
      → ((v : W) → b.name v ≡ returns (name, v))
      → p.calls w1 ≡ inc operations_total op_upload ∷ p.calls w
      → Reported op_upload e (after_upload p rcs m ctx start e w1)
  unfolding after_upload success_report
  uploaded_lem start (some e) named quiet =
      let (w2, n, c) = note_failure_lem op_upload quiet e in (w2, 0, rw n refl, c)
  uploaded_lem start none named quiet =
      let s = set_to_current_time last_successful_upload_time name in
      let v = p.emit s w1 in
      let o = observe duration_seconds op_upload (p.now v - start) in
      (
        p.emit o v,
        p.now v - start,
        rw (named w1) refl,
        p.calls-emit o v ∙ ap (◌∷◌ o) (p.calls-emit s w1 ∙ ap (◌∷◌ s) quiet),
      )

  -- Every operation of a metricBucket whose wrapped bucket returns, and which sends no call of its
  -- own to the collectors, hands the wrapped bucket's error on. Besides the attempt it reports, if
  -- there is an error, one failure of the operation, or nothing where the error is expected or the
  -- context was cancelled; if there is none, what `success_report` lists.
  pub run_reports :
      (r : Request W) (e : Option Error)
      → ((v : W) → b.name v ≡ returns (name, v))
      → run b ctx r (p.emit (inc operations_total (op_of r)) w) ≡ returns (e, w1)
      → p.calls w1 ≡ inc operations_total (op_of r) ∷ p.calls w
      → Reported (op_of r) e (run (as_bucket p rcs m) ctx r w)
  unfolding run as_bucket
  run_reports (iter dir f options) e named h quiet =
      unfold Instrumented.iter in rw h (iterated_lem e quiet)
  run_reports (get nm) e named h quiet =
      let (a, x) = value_of (b.get ctx nm (p.emit (inc operations_total op_get) w)) e w1 h in
      unfold Instrumented.get success_report in rw x (got_lem op_get quiet a e refl)
  run_reports (get_range nm off len) e named h quiet =
      let (a, x) =
        value_of (b.get_range ctx nm off len (p.emit (inc operations_total op_get_range) w)) e w1
          h in
      unfold Instrumented.get_range success_report in rw x (got_lem op_get_range quiet a e refl)
  run_reports (has_object nm) e named h quiet =
      let v = p.emit (inc operations_total op_exists) w in
      let (a, x) = value_of (b.has_object ctx nm v) e w1 h in
      unfold Instrumented.has_object success_report in
      rw x (timed_lem op_exists quiet (p.now v) false a e refl)
  run_reports (attributes nm) e named h quiet =
      let v = p.emit (inc operations_total op_attributes) w in
      let (a, x) = value_of (b.attributes ctx nm v) e w1 h in
      unfold Instrumented.attributes success_report in
      rw x (timed_lem op_attributes quiet (p.now v) a a e refl)
  run_reports (upload nm r) e named h quiet =
      let v = p.emit (inc operations_total op_upload) w in
      unfold Instrumented.upload in rw h (uploaded_lem (p.now v) e named quiet)
  run_reports (delete nm) e named h quiet =
      let v = p.emit (inc operations_total op_delete) w in
      unfold Instrumented.delete in rw h (deleted_lem (p.now v) e quiet)
