-- ===== src/Bucket/Request.antt =====
-- The calls of the interface Bucket as values, to state what a wrapper does on each of them.
use objstore.Prelude.{◌≡◌, Option, List, arith}
use objstore.Prelude.Int.{ℤ}
use objstore.Text.{Str}
use objstore.Errors.{Error}
use objstore.Go.{Outcome, returns, panics, Go, Ctx, Fallible, pure, ◌>>=◌}
use objstore.Reader.{Reader}
use objstore.Options.{IterOption}
use objstore.Bucket.{Bucket, Callback}

-- One call of a method of the interface.
pub data Request (W : Type 0) : Type 0 where
  iter : Str → Callback W → List IterOption → Request W
  get : Str → Request W
  get_range : Str → ℤ → ℤ → Request W
  has_object : Str → Request W
  attributes : Str → Request W
  upload : Str → Reader → Request W
  delete : Str → Request W

-- The method's error, without its value.
unfoldable pub run : {W R : Type 0} → Bucket W R → Ctx W → Request W → Go W (Option Error)
run b ctx (iter dir f options) = b.iter ctx dir f options
run b ctx (get name) = b.get ctx name >>= λ r. pure r.1
run b ctx (get_range name off len) = b.get_range ctx name off len >>= λ r. pure r.1
run b ctx (has_object name) = b.has_object ctx name >>= λ r. pure r.1
run b ctx (attributes name) = b.attributes ctx name >>= λ r. pure r.1
run b ctx (upload name r) = b.upload ctx name r
run b ctx (delete name) = b.delete ctx name

-- a result of which the error alone is known has some value
pub value_of :
    {W A : Type 0} (x : Outcome (Fallible A × W)) (e : Option Error) (w1 : W)
    → (elim x as (λ _. Outcome (Option Error × W)) [
      | returns r ↦ returns (r.0.1, r.1)
      | panics ↦ panics
    ])
      ≡ returns (e, w1)
    → (a : A) × (x ≡ returns ((a, e), w1))
value_of (returns ((a, e'), v)) e w1 h = (a, ground arith)
value_of panics e w1 h = cc
