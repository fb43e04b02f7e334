-- ===== src/Testing/Delay.antt =====
-- What a delay changes: the time, and nothing else.
use objstore.Prelude.{ℕ, ◌≡◌, refl}
use objstore.Go.{Ctx}
use objstore.Bucket.{Bucket}
use objstore.Bucket.Request.{
  Request, iter, get, get_range, has_object, attributes, upload, delete, run,
}
use objstore.Testing
use objstore.Testing.{Sleep, DelayingBucket, with_delay, as_bucket}

module _ {W R : Type 0} (sleep : Sleep W) (bkt : Bucket W R) where
  -- Every operation of a bucket with a delay is the operation of the bucket after one sleep of that
  -- length.
  pub run-with_delay :
      (delay : ℕ) (ctx : Ctx W) (r : Request W) (w : W)
      → run (with_delay sleep bkt delay) ctx r w ≡ run bkt ctx r (sleep delay w)
  unfolding run with_delay as_bucket
  run-with_delay delay ctx (iter dir f options) w = unfold Testing.iter in refl
  run-with_delay delay ctx (get name) w = unfold Testing.get in refl
  run-with_delay delay ctx (get_range name off len) w = unfold Testing.get_range in refl
  run-with_delay delay ctx (has_object name) w = unfold Testing.has_object in refl
  run-with_delay delay ctx (attributes name) w = unfold Testing.attributes in refl
  run-with_delay delay ctx (upload name r) w = unfold Testing.upload in refl
  run-with_delay delay ctx (delete name) w = unfold Testing.delete in refl
