-- ===== src/Prefixed/Reads.antt =====
-- The reading methods of InMemBucket on a bucket and on its view.
use objstore.Prelude.{ℕ, ◌≡◌, refl, false, [], ◌∷◌, ◌++◌, arith}
use objstore.Prelude.Int.{ℤ}
use objstore.Text.{Str, str_eq}
use objstore.Inmem
use objstore.Inmem.{InMemBucket, err_not_found}
use objstore.Prefixed.View.{view, lookup-restrict}

str_eq_append_nil : (p : Str) (a : ℕ) (s : Str) → str_eq (p ++ a ∷ s) [] ≡ false
unfolding str_eq
str_eq_append_nil [] a s = refl
str_eq_append_nil (b ∷ p) a s = refl

module _ (q : Str) (a : ℕ) (s : Str) where
  pub get-view : (b : InMemBucket) → Inmem.get (q ++ a ∷ s) b ≡ Inmem.get (a ∷ s) (view q b)
  unfolding Inmem.get view
  get-view b = ground (arith, str_eq_append_nil q a s, lookup-restrict q (a ∷ s) b.objects)

  pub get_range-view :
      (off len : ℤ) (b : InMemBucket)
      → Inmem.get_range (q ++ a ∷ s) off len b ≡ Inmem.get_range (a ∷ s) off len (view q b)
  unfolding Inmem.get_range view
  get_range-view off len b =
      ground (arith, str_eq_append_nil q a s, lookup-restrict q (a ∷ s) b.objects)

pub has_object-view :
    (q name : Str) (b : InMemBucket)
    → Inmem.has_object (q ++ name) b ≡ Inmem.has_object name (view q b)
unfolding Inmem.has_object view
has_object-view q name b = ground (arith, lookup-restrict q name b.objects)

pub attributes-view :
    (q name : Str) (b : InMemBucket)
    → Inmem.attributes (q ++ name) b ≡ Inmem.attributes name (view q b)
unfolding Inmem.attributes view
attributes-view q name b = ground (arith, lookup-restrict q name b.attrs)
