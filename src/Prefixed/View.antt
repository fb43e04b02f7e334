-- ===== src/Prefixed/View.antt =====
-- What a PrefixedBucket shows of the bucket below it: the objects under the prefix, by the rest of
-- their names.
use objstore.Prelude.{
  ◌≡◌, refl, true, false, List, [], ◌∷◌, ◌++◌, arith, if◌then◌else◌, length, drop, Bool-cases, inl,
  inr, ◌∙◌, sym, ap,
}
use objstore.Text.{Str, str_eq, has_prefix}
use objstore.Text.Laws.{str_eq_iff, str_eq_append, has_prefix_self, has_prefix_sound, drop-append}
use objstore.Dict.{Dict, lookup, insert, erase, keys}
use objstore.Inmem.{InMemBucket}

module _ {ℓ} {V : Type ℓ} where
  -- the entries under `q`, with `q` cut off
  unfoldable pub restrict : Str → Dict V → Dict V
  restrict q [] = []
  restrict q ((k, v) ∷ m) =
      if has_prefix k q then (drop (length q) k, v) ∷ restrict q m else restrict q m

unfoldable pub strip : Str → List Str → List Str
strip q [] = []
strip q (k ∷ ks) = if has_prefix k q then drop (length q) k ∷ strip q ks else strip q ks

unfoldable pub view : Str → InMemBucket → InMemBucket
unfolding restrict
view q b = record { objects = restrict q b.objects; attrs = restrict q b.attrs }

-- a name under `q` is told by its rest
str_eq-drop :
    (q j k : Str) → has_prefix j q ≡ true → str_eq (drop (length q) j) k ≡ str_eq j (q ++ k)
str_eq-drop q j k h =
    sym (str_eq_append q (drop (length q) j) k)
    ∙ ap (λ s. str_eq s (q ++ k)) (sym (has_prefix_sound j q h))

str_eq_outside : (q j k : Str) → has_prefix j q ≡ false → str_eq j (q ++ k) ≡ false
str_eq_outside q j k h = elim (Bool-cases (str_eq j (q ++ k))) [
  | inl e ↦ cc (rw ((str_eq_iff j (q ++ k)).0 e) at h, has_prefix_self q k)
  | inr e ↦ e
]

has_prefix_of_eq : (q j k : Str) → str_eq j (q ++ k) ≡ true → has_prefix j q ≡ true
has_prefix_of_eq q j k h = rw ((str_eq_iff j (q ++ k)).0 h) (has_prefix_self q k)

module _ {ℓ} {V : Type ℓ} where
  pub lookup-restrict : (q k : Str) (m : Dict V) → lookup k (restrict q m) ≡ lookup (q ++ k) m
  unfolding lookup restrict
  lookup-restrict q k [] = refl
  lookup-restrict q k ((j, v) ∷ m) =
      ground (arith, lookup-restrict q k m, str_eq-drop q j k, str_eq_outside q j k)

  pub restrict-insert :
      (q k : Str) (v : V) (m : Dict V)
      → restrict q (insert (q ++ k) v m) ≡ insert k v (restrict q m)
  unfolding insert restrict
  restrict-insert q k v [] = rw (has_prefix_self q k, drop-append q k) refl
  restrict-insert q k v ((j, w) ∷ m) = elim (Bool-cases (str_eq j (q ++ k))) [
    | inl same ↦
        let under : has_prefix j q ≡ true = has_prefix_of_eq q j k same in
        rw (same, insert)
          (ground (arith, has_prefix_self q k, drop-append q k, under, str_eq-drop q j k))
    | inr differ ↦ rw (differ, insert) (ground (arith, restrict-insert q k v m, str_eq-drop q j k))
  ]

  pub restrict-erase :
      (q k : Str) (m : Dict V) → restrict q (erase (q ++ k) m) ≡ erase k (restrict q m)
  unfolding erase restrict
  restrict-erase q k [] = refl
  restrict-erase q k ((j, w) ∷ m) =
      ground (arith, restrict-erase q k m, str_eq-drop q j k, str_eq_outside q j k)

  pub keys-restrict : (q : Str) (m : Dict V) → keys (restrict q m) ≡ strip q (keys m)
  unfolding keys restrict strip
  keys-restrict q [] = refl
  keys-restrict q ((j, w) ∷ m) = ground (arith, keys-restrict q m)
