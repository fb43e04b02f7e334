-- ===== src/Metrics.antt =====
-- objstore.go: metricBucket, which counts the operations of a bucket, and timingReadCloser. The
-- collectors of package prometheus are a parameter: the model keeps the calls that they receive.
pub mod Instrumented
pub mod Timing
pub mod Account
pub mod Once
pub mod Sequence
pub mod Failures
use objstore.Prelude.{
  ℕ, ◌-◌, ◌≡◌, Bool, true, false, ◌&&◌, not, Option, none, some, List, [], ◌∷◌, if◌then◌else◌,
}
use objstore.Text.{Str}
use objstore.Errors.{Error, canceled}
use objstore.Go.{Go, Ctx, returns}

-- The constants OpIter to OpAttributes.
pub data Op : Type 0 where
  op_iter op_get op_get_range op_exists op_upload op_delete op_attributes : Op

-- The vectors that WrapWithMetrics registers.
pub data Collector : Type 0 where
  operations_total failures_total fetched_bytes_total duration_seconds : Collector
  last_successful_upload_time : Collector

-- A call of a collector, behind WithLabelValues.
pub data MetricCall : Type 0 where
  -- WithLabelValues alone, which creates the child
  init : Collector → Op → MetricCall
  inc : Collector → Op → MetricCall
  add : Collector → Op → ℕ → MetricCall
  observe : Collector → Op → ℕ → MetricCall
  init_bucket : Collector → Str → MetricCall
  set_to_current_time : Collector → Str → MetricCall

-- Package prometheus and the clock: where the calls go, latest first.
pub record Prometheus (W : Type 0) : Type 0 where
  pub calls : W → List MetricCall
  pub emit : MetricCall → W → W
  pub now : W → ℕ
  pub calls-emit : (c : MetricCall) (w : W) → calls (emit c w) ≡ c ∷ calls w

module _ {W : Type 0} (p : Prometheus W) where
  abbrev pub call : MetricCall → Go W (Unit {0})
  call c w = returns (tt, p.emit c w)

  -- time.Now()
  abbrev pub time_now : Go W ℕ
  time_now w = returns (p.now w, w)

  -- `vec.WithLabelValues(op).Observe(time.Since(start).Seconds())`
  abbrev pub observe_since : Collector → Op → ℕ → Go W (Unit {0})
  observe_since vec op start w = returns (tt, p.emit (observe vec op (p.now w - start)) w)

-- `ctx.Err() != context.Canceled`, negated
unfoldable pub is_canceled : Option Error → Bool
is_canceled (some canceled) = true
is_canceled _ = false
