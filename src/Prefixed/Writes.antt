-- ===== src/Prefixed/Writes.antt =====
-- Upload and Delete of a PrefixedBucket over InMemBucket: what they do to the view, and that they
-- leave everything outside of the prefix alone.
use objstore.Prelude.{
  ℕ, ◌≡◌, ◌≢◌, refl, true, false, Option, none, some, [], ◌∷◌, ◌++◌, arith, ap, Option-cases, inl,
  inr,
}
use objstore.Text.{Str, str_eq, has_prefix}
use objstore.Text.Laws.{str_eq_iff, has_prefix_self}
use objstore.Dict.{lookup, lookup-insert, lookup-erase}
use objstore.Errors.{Error, ErrorsPkg}
use objstore.Go.{Outcome, returns, Ctx}
use objstore.Reader.{Reader, read_all}
use objstore.Inmem
use objstore.Inmem.{InMemBucket, store_body}
use objstore.Inmem.Instance.{Place, in_mem_bucket}
use objstore.Prefixed
use objstore.Prefixed.{PrefixedBucket}
use objstore.Prefixed.View.{view, lookup-restrict, restrict-insert, restrict-erase}
use objstore.Prefixed.Refines.{root_of, over_inmem, seen, conditional_prefix-cons}

-- the objects outside of `q` are the same
abbrev pub SameOutside : Str → InMemBucket → InMemBucket → Type 0
SameOutside q b c = (k : Str) → has_prefix k q ≡ false → lookup k c.objects ≡ lookup k b.objects

str_eq_under : (q k name : Str) → has_prefix k q ≡ false → str_eq (q ++ name) k ≡ false
str_eq_under q k name h = ground (arith, str_eq_iff (q ++ name) k, at_eq)
  where
    at_eq : q ++ name ≡ k → has_prefix k q ≡ true
    at_eq e = rw (← e) (has_prefix_self q name)

module _ (q name : Str) (b : InMemBucket) where
  store_body-view :
      (now : ℕ) (result : Str × Option Error)
      → (view q (store_body (q ++ name) now b result).0 ≡ (store_body name now (view q b) result).0)
        × ((store_body (q ++ name) now b result).1 ≡ (store_body name now (view q b) result).1)
        × SameOutside q b (store_body (q ++ name) now b result).0
  unfolding view
  store_body-view now (body, some e) = (refl, refl, λ k h. refl)
  store_body-view now (body, none) = (
    rw (restrict-insert q name body b.objects, restrict-insert q name _ b.attrs) refl,
    refl,
    λ k h. rw (lookup-insert (q ++ name) k body b.objects, str_eq_under q k name h) refl,
  )

  delete-view :
      (view q (Inmem.delete (q ++ name) b).0 ≡ (Inmem.delete name (view q b)).0)
      × ((Inmem.delete (q ++ name) b).1 ≡ (Inmem.delete name (view q b)).1)
      × SameOutside q b (Inmem.delete (q ++ name) b).0
  unfolding view
  delete-view =
      let l = lookup-restrict q name b.objects in
      elim (Option-cases (lookup (q ++ name) b.objects)) [
        | inl e ↦ (
          unfold Inmem.delete in ground (arith, l),
          unfold Inmem.delete in ground (arith, l),
          λ k h. unfold Inmem.delete in rw (e, Inmem.delete) refl,
        )
        | inr (body, e) ↦ (
          unfold Inmem.delete in
              ground (arith, l, restrict-erase q name b.objects, restrict-erase q name b.attrs),
          unfold Inmem.delete in ground (arith, l),
          λ k h.
              unfold Inmem.delete in
              rw (e, Inmem.delete)
                (rw (lookup-erase (q ++ name) k b.objects, str_eq_under q k name h) refl),
        )
      ]

module _ {W : Type 0} (place : Place W) (pkg : ErrorsPkg) (prefix : Str) where
  -- what a write that refines `after` leaves: its result, its effect on the view, and the rest
  abbrev pub Refined : (W → Outcome (Option Error × W)) → InMemBucket × Option Error → W → Type 0
  Refined op after w =
      (w' : W) × (op w ≡ returns (after.1, w'))
      × (seen place pkg prefix w' ≡ after.0)
      × SameOutside (root_of prefix) (place.read w) (place.read w')

  -- Upload of a name that is not empty has the result, and the effect on the view, that it would
  -- have on an InMemBucket with the view. No object outside of the prefix changes.
  pub upload_refines :
      (ctx : Ctx W) (name : Str) (r : Reader) (w : W)
      → name ≢ []
      → Refined
          (Prefixed.upload (over_inmem place pkg prefix) ctx name r)
          (Inmem.upload name r (place.now w) (seen place pkg prefix w))
          w
  upload_refines ctx [] r w h = absurd (h refl)
  upload_refines ctx (a ∷ s) r w h =
      let q = root_of prefix in
      let b = place.read w in
      let out = store_body (q ++ a ∷ s) (place.now w) b (read_all r) in
      let (v, e, o) = store_body-view q (a ∷ s) b (place.now w) (read_all r) in
      (
        place.write out.0 w,
        unfold Prefixed.upload in_mem_bucket Inmem.upload in
            rw (conditional_prefix-cons prefix a s) (ap (λ x. returns (x, place.write out.0 w)) e),
        unfold Inmem.upload in rw (place.read_write out.0 w) v,
        rw (place.read_write out.0 w) o,
      )

  -- Delete of a name that is not empty has the result, and the effect on the view, that it would
  -- have on an InMemBucket with the view. No object outside of the prefix changes.
  pub delete_refines :
      (ctx : Ctx W) (name : Str) (w : W)
      → name ≢ []
      → Refined
          (Prefixed.delete (over_inmem place pkg prefix) ctx name)
          (Inmem.delete name (seen place pkg prefix w))
          w
  delete_refines ctx [] w h = absurd (h refl)
  delete_refines ctx (a ∷ s) w h =
      let q = root_of prefix in
      let b = place.read w in
      let out = Inmem.delete (q ++ a ∷ s) b in
      let (v, e, o) = delete-view q (a ∷ s) b in
      (
        place.write out.0 w,
        unfold Prefixed.delete in_mem_bucket in
            rw (conditional_prefix-cons prefix a s) (ap (λ x. returns (x, place.write out.0 w)) e),
        rw (place.read_write out.0 w) v,
        rw (place.read_write out.0 w) o,
      )
