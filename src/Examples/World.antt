-- ===== src/Examples/World.antt =====
-- A small world: one InMemBucket, a log of metric calls, and a clock.
use text.Mathlib.Text.{◌==◌ as ◌=s=◌}
use text.Mathlib.TextEquality.{eq_iff}
use text.Mathlib.TextPositions.{eq_refl}
use objstore.Prelude.{
  ℕ, ◌≡◌, ◌≢◌, refl, Bool, true, false, ◌&&◌, none, some, List, [], ◌∷◌, String, codes, arith, ◌==◌,
}
use objstore.Errors.{
  Error, new_error, errorf, wrapped, eof, canceled, deadline_exceeded, not_exist, multi, foreign,
  ErrorsPkg,
}
use objstore.Go.{Ctx, returns}
use objstore.Reader.{Reader, try_to_get_size}
use objstore.Inmem.{InMemBucket}
use objstore.Inmem.Instance.{Place}
use objstore.Metrics.{MetricCall, Prometheus}
use objstore.ReadCloser.{ReadClosers}

abbrev pub tag : Error → ℕ
tag (new_error _) = 0
tag (errorf _ _) = 1
tag (wrapped _ _) = 2
tag eof = 3
tag canceled = 4
tag deadline_exceeded = 5
tag not_exist = 6
tag (multi _) = 7
tag (foreign _) = 8

abbrev pub message : Error → String
message (new_error m) = m
message (errorf m _) = m
message (foreign m) = m
message _ = ""

abbrev pub root_cause : Error → Error
root_cause (wrapped m e) = root_cause e
root_cause e = e

abbrev pub same : Error → Error → Bool
same a b = tag a == tag b && (message a =s= message b)

pub same_self : (e : Error) → same e e ≡ true
same_self e = ground (arith, eq_refl (message e))

pub same_new : (m n : String) → m ≢ n → same (new_error m) (new_error n) ≡ false
same_new m n h = ground (arith, eq_iff m n, h)

abbrev pub errors_pkg : ErrorsPkg
errors_pkg = record {
  is = λ e t. same (root_cause e) (root_cause t);
  cause = root_cause;
  is_self = λ e. same_self (root_cause e);
  is_wrapped = λ m n e. refl;
  is_new = same_new;
  cause_wrapped = λ m e. refl;
}

pub record World : Type 0 where
  pub store : InMemBucket
  pub log : List MetricCall
  pub clock : ℕ

abbrev pub place : Place World
place = record {
  read = λ w. w.store;
  write = λ b w. record w { store = b };
  now = λ w. w.clock;
  read_write = λ b w. refl;
}

abbrev pub prometheus : Prometheus World
prometheus = record {
  calls = λ w. w.log;
  emit = λ c w. record w { log = c ∷ w.log };
  now = λ w. w.clock;
  calls-emit = λ c w. refl;
}

abbrev pub background : Ctx World
background = record { err = λ w. none; value = λ k. none }

-- Two objects under `team/` and one beside it.
abbrev pub stocked : InMemBucket
stocked = record {
  objects =
      (codes "team/a/x", codes "hello")
      ∷ (codes "team/b", codes "")
      ∷ (codes "other", codes "z")
      ∷ [];
  attrs = [];
}

abbrev pub world : World
world = record { store = stocked; log = []; clock = 7 }

-- A reader below a timingReadCloser that is at its end and closes well.
abbrev pub finished : ReadClosers World Reader
finished = record {
  size = try_to_get_size;
  read = λ len r w. returns ((0, some eof, r), w);
  close = λ r w. returns ((none, r), w);
}
