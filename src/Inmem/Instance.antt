-- ===== src/Inmem/Instance.antt =====
-- InMemBucket as a Bucket of a program: the bucket stands at some place of the program's world.
use objstore.Prelude.{ℕ, ◌≡◌, Option, none, List, codes}
use objstore.Text.{Str}
use objstore.Dict.{keys}
use objstore.Errors.{Error, ErrorsPkg}
use objstore.Go.{Outcome, returns, panics, Go, Ctx, pure}
use objstore.Reader.{Reader}
use objstore.Options.{IterOption, apply_iter_options}
use objstore.Bucket.{Bucket, Callback}
use objstore.Inmem
use objstore.Inmem.{InMemBucket}
use objstore.Inmem.Iter.{list_keys, each}

-- Where the bucket is stored, and the clock that time.Now reads.
pub record Place (W : Type 0) : Type 0 where
  pub read : W → InMemBucket
  pub write : InMemBucket → W → W
  pub now : W → ℕ
  pub read_write : (b : InMemBucket) (w : W) → read (write b w) ≡ b

-- the calls of `f` on the keys of a listing, once the mutex is released
unfoldable pub iter_keys : {W : Type 0} → Callback W → Outcome (List Str) → Go W (Option Error)
iter_keys f panics w = panics
iter_keys f (returns ks) w = each f ks w

abbrev pub with_world : {W A : Type 0} → W → Outcome A → Outcome (A × W)
with_world w (returns a) = returns (a, w)
with_world w panics = panics

module _ {W : Type 0} (place : Place W) where
  -- Iter
  unfoldable pub iter : Ctx W → Str → Callback W → List IterOption → Go W (Option Error)
  unfolding iter_keys
  iter ctx dir f options w =
      iter_keys f (list_keys (keys (place.read w).objects) dir (apply_iter_options options)) w

  abbrev pub stored : {A : Type 0} → W → InMemBucket × A → Outcome (A × W)
  stored w (b, a) = returns (a, place.write b w)

  unfoldable pub in_mem_bucket : ErrorsPkg → Bucket W Reader
  in_mem_bucket p = record {
    iter = iter;
    get = λ ctx name w. returns (Inmem.get name (place.read w), w);
    get_range = λ ctx name off len w. with_world w (Inmem.get_range name off len (place.read w));
    has_object = λ ctx name w. returns (Inmem.has_object name (place.read w), w);
    is_obj_not_found_err = Inmem.is_obj_not_found_err p;
    is_customer_managed_key_error = Inmem.is_customer_managed_key_error;
    attributes = λ ctx name w. returns (Inmem.attributes name (place.read w), w);
    upload = λ ctx name r w. stored w (Inmem.upload name r (place.now w) (place.read w));
    delete = λ ctx name w. stored w (Inmem.delete name (place.read w));
    name = pure (codes "inmem");
    close = pure none;
  }
