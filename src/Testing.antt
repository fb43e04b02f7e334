-- ===== src/Testing.antt =====
-- testing.go: the delaying bucket that WithDelay makes.
pub mod Delay
use objstore.Prelude.{ℕ, ◌+◌, ◌≡◌, Bool, Option, none, some, List, [], ◌∷◌}
use objstore.Prelude.Int.{ℤ}
use objstore.Text.{Str}
use objstore.Errors.{Error}
use objstore.Go.{Go, Ctx, Fallible, returns, pure, ◌>>=◌, ◌>>◌}
use objstore.Reader.{Reader}
use objstore.Options.{IterOption}
use objstore.Bucket.{Bucket, Callback, ObjectAttributes}

-- time.Sleep, as a change of the world
abbrev pub Sleep : Type 0 → Type 0
Sleep W = ℕ → W → W

pub record DelayingBucket (W R : Type 0) : Type 0 where
  pub bkt : Bucket W R
  pub delay : ℕ

module _ {W R : Type 0} (sleep : Sleep W) where
  module _ (d : DelayingBucket W R) where
    abbrev pub wait : Go W (Unit {0})
    wait w = returns (tt, sleep d.delay w)

    unfoldable pub iter : Ctx W → Str → Callback W → List IterOption → Go W (Option Error)
    iter ctx dir f options = wait >> d.bkt.iter ctx dir f options

    unfoldable pub get : Ctx W → Str → Go W (Fallible (Option R))
    get ctx name = wait >> d.bkt.get ctx name

    unfoldable pub get_range : Ctx W → Str → ℤ → ℤ → Go W (Fallible (Option R))
    get_range ctx name off len = wait >> d.bkt.get_range ctx name off len

    unfoldable pub has_object : Ctx W → Str → Go W (Fallible Bool)
    has_object ctx name = wait >> d.bkt.has_object ctx name

    unfoldable pub attributes : Ctx W → Str → Go W (Fallible ObjectAttributes)
    attributes ctx name = wait >> d.bkt.attributes ctx name

    unfoldable pub upload : Ctx W → Str → Reader → Go W (Option Error)
    upload ctx name r = wait >> d.bkt.upload ctx name r

    unfoldable pub delete : Ctx W → Str → Go W (Option Error)
    delete ctx name = wait >> d.bkt.delete ctx name

    -- delayingBucket as a Bucket; Close and the error tests do not wait
    unfoldable pub as_bucket : Bucket W R
    unfolding iter get get_range has_object attributes upload delete
    as_bucket = record {
      iter = iter;
      get = get;
      get_range = get_range;
      has_object = has_object;
      is_obj_not_found_err = d.bkt.is_obj_not_found_err;
      is_customer_managed_key_error = d.bkt.is_customer_managed_key_error;
      attributes = attributes;
      upload = upload;
      delete = delete;
      name = wait >> d.bkt.name;
      close = d.bkt.close;
    }

  -- WithDelay
  unfoldable pub with_delay : Bucket W R → ℕ → Bucket W R
  unfolding as_bucket
  with_delay bkt delay = as_bucket (record { bkt = bkt; delay = delay })
