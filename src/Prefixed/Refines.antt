-- ===== src/Prefixed/Refines.antt =====
-- A PrefixedBucket over InMemBucket behaves as an InMemBucket that holds the view.
use objstore.Prelude.{ℕ, ◌≡◌, ◌≢◌, refl, true, List, [], ◌∷◌, ◌++◌, arith, ◌∙◌, ap, fun_ext}
use objstore.Prelude.Int.{ℤ}
use objstore.Text.{Str, slash, dir_delim, has_suffix, trim_prefix}
use objstore.Text.Laws.{trim_prefix-append, has_suffix-append}
use objstore.Dict.{keys}
use objstore.Errors.{ErrorsPkg}
use objstore.Go.{Outcome, returns, panics, Ctx}
use objstore.Reader.{Reader}
use objstore.Options.{IterOption, apply_iter_options}
use objstore.Bucket.{Callback}
use objstore.Inmem
use objstore.Inmem.{InMemBucket}
use objstore.Inmem.Iter.{list_keys, each}
use objstore.Inmem.Instance
use objstore.Inmem.Instance.{Place, in_mem_bucket, iter_keys, with_world}
use objstore.Prefixed
use objstore.Prefixed.{PrefixedBucket, with_prefix, conditional_prefix}
use objstore.Prefixed.Keys.{prefixed}
use objstore.Prefixed.View.{view, keys-restrict}
use objstore.Prefixed.Reads.{get-view, get_range-view, has_object-view, attributes-view}
use objstore.Prefixed.Listing.{all_under, list_keys-prefixed}

module _ {W : Type 0} (q : Str) (f : Callback W) where
  abbrev cut : Callback W
  cut s = f (trim_prefix s q)

  -- the calls that the prefixed bucket's own callback makes
  each-prefixed : (ks : List Str) (w : W) → each cut (prefixed q ks) w ≡ each f ks w
  unfolding each
  each-prefixed [] w = refl
  each-prefixed (k ∷ ks) w = rw (trim_prefix-append q k, fun_ext (each-prefixed ks)) refl

  iter_keys-all_under :
      (x : Outcome (List Str)) (w : W) → iter_keys cut (all_under q x) w ≡ iter_keys f x w
  unfolding iter_keys
  iter_keys-all_under panics w = refl
  iter_keys-all_under (returns ks) w = each-prefixed ks w

-- "prefix/"
abbrev pub root_of : Str → Str
root_of prefix = prefix ++ dir_delim

has_suffix-root_of : (prefix : Str) → has_suffix (root_of prefix) dir_delim ≡ true
has_suffix-root_of prefix = has_suffix-append prefix slash [] ∙ unfold has_suffix in refl

pub conditional_prefix-cons :
    (prefix : Str) (a : ℕ) (s : Str) → conditional_prefix prefix (a ∷ s) ≡ root_of prefix ++ a ∷ s
unfolding conditional_prefix
conditional_prefix-cons prefix a s = ground arith

module _ {W : Type 0} (place : Place W) (pkg : ErrorsPkg) (prefix : Str) where
  -- The bucket with the prefix, over an InMemBucket of the program.
  abbrev pub over_inmem : PrefixedBucket W Reader
  over_inmem = record { bkt = in_mem_bucket place pkg; prefix = prefix }

  abbrev pub seen : W → InMemBucket
  seen w = view (root_of prefix) (place.read w)

  -- Iter of the prefixed bucket makes the calls, in the same order and up to the same error, that
  -- Iter of an InMemBucket with the view as its objects makes, and panics where that one does.
  pub iter_refines :
      (ctx : Ctx W) (dir : Str) (f : Callback W) (options : List IterOption) (w : W)
      → Prefixed.iter over_inmem ctx dir f options w
        ≡ iter_keys f (list_keys (keys (seen w).objects) dir (apply_iter_options options)) w
  unfolding Prefixed.iter in_mem_bucket Instance.iter view
  iter_refines ctx dir f options w =
      rw
        (
          list_keys-prefixed (root_of prefix) dir (keys (place.read w).objects)
              (apply_iter_options options) (has_suffix-root_of prefix),
          keys-restrict (root_of prefix) (place.read w).objects,
        )
        (iter_keys-all_under (root_of prefix) f _ w)

  -- Get, GetRange, Exists and Attributes of a name that is not empty answer as an InMemBucket with
  -- the view would, and leave the world as it is.
  pub reads_refine :
      (ctx : Ctx W) (name : Str) (off len : ℤ) (w : W)
      → name ≢ []
      → (Prefixed.get over_inmem ctx name w ≡ returns (Inmem.get name (seen w), w))
        × (Prefixed.get_range over_inmem ctx name off len w
            ≡ with_world w (Inmem.get_range name off len (seen w)))
        × (Prefixed.has_object over_inmem ctx name w ≡ returns (Inmem.has_object name (seen w), w))
        × (Prefixed.attributes over_inmem ctx name w ≡ returns (Inmem.attributes name (seen w), w))
  reads_refine ctx [] off len w h = absurd (h refl)
  reads_refine ctx (a ∷ s) off len w h =
      let b = place.read w in
      let q = root_of prefix in
      let named = conditional_prefix-cons prefix a s in
      (
        unfold Prefixed.get in_mem_bucket in rw named (ap (λ r. returns (r, w)) (get-view q a s b)),
        unfold Prefixed.get_range in_mem_bucket in
            rw named (ap (with_world w) (get_range-view q a s off len b)),
        unfold Prefixed.has_object in_mem_bucket in
            rw named (ap (λ r. returns (r, w)) (has_object-view q (a ∷ s) b)),
        unfold Prefixed.attributes in_mem_bucket in
            rw named (ap (λ r. returns (r, w)) (attributes-view q (a ∷ s) b)),
      )
