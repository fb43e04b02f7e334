-- ===== src/Text/Order.antt =====
-- The byte order of strings is a strict total order that a common prefix does not change.
use objstore.Prelude.{◌≡◌, refl, true, false, [], ◌∷◌, ◌++◌, arith}
use objstore.Text.{Str, str_less}

pub str_less_irrefl : (s : Str) → str_less s s ≡ false
unfolding str_less
str_less_irrefl [] = refl
str_less_irrefl (a ∷ s) = ground (arith, str_less_irrefl s)

pub str_less_trans : (s t u : Str) → str_less s t ≡ true → str_less t u ≡ true → str_less s u ≡ true
unfolding str_less
str_less_trans [] [] u h k = cc
str_less_trans [] (b ∷ t) [] h k = cc
str_less_trans [] (b ∷ t) (c ∷ u) h k = refl
str_less_trans (a ∷ s) [] u h k = cc
str_less_trans (a ∷ s) (b ∷ t) [] h k = cc
str_less_trans (a ∷ s) (b ∷ t) (c ∷ u) h k = ground (arith, str_less_trans s t u)

pub str_less_total : (s t : Str) → str_less s t ≡ false → str_less t s ≡ false → s ≡ t
unfolding str_less
str_less_total [] [] h k = refl
str_less_total [] (b ∷ t) h k = cc
str_less_total (a ∷ s) [] h k = cc
str_less_total (a ∷ s) (b ∷ t) h k = ground (arith, str_less_total s t)

pub str_less-append : (p s t : Str) → str_less (p ++ s) (p ++ t) ≡ str_less s t
unfolding str_less
str_less-append [] s t = refl
str_less-append (a ∷ p) s t = ground (arith, str_less-append p s t)
