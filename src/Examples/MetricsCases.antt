-- ===== src/Examples/MetricsCases.antt =====
-- The theorems on metricBucket and timingReadCloser at a concrete world.
use objstore.Prelude.{◌≡◌, ◌≤◌, refl, Bool, false, none, some, List, [], ◌∷◌, codes}
use objstore.Prelude.Int.{pos}
use objstore.Text.{str_eq}
use objstore.Dict.{erase, lookup}
use objstore.Inmem
use objstore.Errors.{Error, eof, foreign}
use objstore.Go.{returns}
use objstore.ReadCloser.{ReadClosers}
use objstore.Metrics.Timing.{is_read_failure}
use objstore.Metrics.Failures.{use_all_failed}
use objstore.Reader.{Reader, bytes_reader, try_to_get_size}
use objstore.Bucket.{Bucket}
use objstore.Inmem.Instance.{in_mem_bucket}
use objstore.Metrics.{
  op_get, op_delete, operations_total, failures_total, fetched_bytes_total, duration_seconds, inc,
}
use objstore.Metrics.Timing.{TimingReadCloser}
use objstore.Metrics.Instrumented.{as_bucket}
use objstore.Bucket.Request.{delete, run}
use objstore.Metrics.Account.{metered, Reported, run_reports}
use objstore.ReadCloser.{Use, reads, closes}
use objstore.Metrics.Once.{IsQuiet, observes, use_all, Timed}
use objstore.Metrics.Sequence.{use_all-Timed}
use objstore.Examples.World.{
  World, errors_pkg, place, prometheus, background, world, stocked, finished,
}

abbrev base : Bucket World Reader
base = in_mem_bucket place errors_pkg

base_named : (v : World) → base.name v ≡ returns (codes "inmem", v)
unfolding in_mem_bucket
base_named v = refl

abbrev nothing_expected : Error → Bool
nothing_expected e = false

abbrev after_delete : World
after_delete = record {
  store = record {
    objects = (codes "team/a/x", codes "hello") ∷ (codes "team/b", codes "") ∷ [];
    attrs = [];
  };
  log = inc operations_total op_delete ∷ [];
  clock = 7;
}

base_deletes :
    run base background
      (delete (codes "other"))
      (record { store = stocked; log = inc operations_total op_delete ∷ []; clock = 7 })
    ≡ returns (none, after_delete)
unfolding run in_mem_bucket Inmem.delete erase str_eq lookup
base_deletes = refl

run_reports_example :
    Reported prometheus finished base nothing_expected
      (codes "inmem")
      background
      world
      after_delete
      op_delete
      none
      (run
        (as_bucket prometheus finished (metered base nothing_expected))
        background
        (delete (codes "other"))
        world)
run_reports_example =
    run_reports prometheus finished base nothing_expected (codes "inmem") background world
      after_delete (delete (codes "other")) none base_named base_deletes refl

abbrev handed : TimingReadCloser Reader
handed = record {
  read_closer = some (bytes_reader (codes "hello"));
  obj_size = pos 5;
  obj_size_err = none;
  already_got_err = false;
  start = 3;
  op = op_get;
  duration = duration_seconds;
  failed = failures_total;
  is_failure_expected = nothing_expected;
  fetched_bytes = fetched_bytes_total;
}

finished_quiet : IsQuiet prometheus finished
finished_quiet = record {
  read_quiet = λ len rc w. ((0, some eof, rc), w, refl, refl);
  close_quiet = λ rc w. ((none, rc), w, refl, refl);
}

abbrev uses : List Use
uses = reads 16 ∷ closes ∷ closes ∷ []

use_all-Timed_example :
    Timed prometheus finished handed world (use_all prometheus finished uses handed world)
use_all-Timed_example =
    use_all-Timed prometheus finished finished_quiet uses handed (bytes_reader (codes "hello"))
      world refl

-- a reader whose Read fails and whose Close succeeds
abbrev torn : ReadClosers World Reader
torn = record {
  size = try_to_get_size;
  read = λ len r w. returns ((0, some (foreign "reset"), r), w);
  close = λ r w. returns ((none, r), w);
}

torn_quiet : IsQuiet prometheus torn
torn_quiet = record {
  read_quiet = λ len rc w. ((0, some (foreign "reset"), rc), w, refl, refl);
  close_quiet = λ rc w. ((none, rc), w, refl, refl);
}

use_all_failed_example :
    (t' : TimingReadCloser Reader) × (w' : World) × (use_all prometheus torn
        (reads 16 ∷ closes ∷ [])
        handed
        world
      ≡ returns (t', w'))
    × (observes (prometheus.calls w') ≤ observes (prometheus.calls world))
unfolding is_read_failure
use_all_failed_example =
    use_all_failed prometheus torn torn_quiet (closes ∷ []) handed (bytes_reader (codes "hello"))
      (bytes_reader (codes "hello")) 16 0 (foreign "reset") world world refl refl refl
