-- ===== src/Text/Laws.antt =====
-- Equality, prefixes and suffixes of byte strings.
use objstore.Prelude.{ℕ, ◌≡◌, ◌↔◌, refl, true, false, [], ◌∷◌, ◌++◌, arith, length, drop}
use objstore.Text.{Str, dir_delim, str_eq, has_prefix, has_suffix, trim_prefix}

pub str_eq_sound : (s t : Str) → str_eq s t ≡ true → s ≡ t
unfolding str_eq
str_eq_sound [] [] h = refl
str_eq_sound [] (b ∷ t) h = cc
str_eq_sound (a ∷ s) [] h = cc
str_eq_sound (a ∷ s) (b ∷ t) h = ground (arith, str_eq_sound s t)

pub str_eq_refl : (s : Str) → str_eq s s ≡ true
unfolding str_eq
str_eq_refl [] = refl
str_eq_refl (a ∷ s) = ground (arith, str_eq_refl s)

pub str_eq_iff : (s t : Str) → (str_eq s t ≡ true) ↔ (s ≡ t)
str_eq_iff s t = (str_eq_sound s t, λ e. subst_eq s t e)
  where
    subst_eq : (s t : Str) → s ≡ t → str_eq s t ≡ true
    subst_eq s t e = rw e (str_eq_refl t)

pub str_eq_append : (p s t : Str) → str_eq (p ++ s) (p ++ t) ≡ str_eq s t
unfolding str_eq
str_eq_append [] s t = refl
str_eq_append (a ∷ p) s t = ground (arith, str_eq_append p s t)

pub has_prefix-append : (p s t : Str) → has_prefix (p ++ s) (p ++ t) ≡ has_prefix s t
unfolding has_prefix
has_prefix-append [] s t = refl
has_prefix-append (a ∷ p) s t = ground (arith, has_prefix-append p s t)

pub has_prefix_self : (p s : Str) → has_prefix (p ++ s) p ≡ true
unfolding has_prefix
has_prefix_self [] s = refl
has_prefix_self (a ∷ p) s = ground (arith, has_prefix_self p s)

-- What has a prefix is the prefix followed by the rest.
pub has_prefix_sound : (s p : Str) → has_prefix s p ≡ true → s ≡ p ++ drop (length p) s
unfolding has_prefix
has_prefix_sound s [] h = refl
has_prefix_sound [] (b ∷ p) h = cc
has_prefix_sound (a ∷ s) (b ∷ p) h = ground (arith, has_prefix_sound s p)

pub has_prefix_longer : (s p q : Str) → has_prefix s p ≡ false → has_prefix s (p ++ q) ≡ false
unfolding has_prefix
has_prefix_longer s [] q h = cc
has_prefix_longer [] (b ∷ p) q h = refl
has_prefix_longer (a ∷ s) (b ∷ p) q h = ground (arith, has_prefix_longer s p q)

pub drop-append : (p s : Str) → drop (length p) (p ++ s) ≡ s
drop-append [] s = refl
drop-append (a ∷ p) s = drop-append p s

pub trim_prefix-append : (p s : Str) → trim_prefix (p ++ s) p ≡ s
unfolding trim_prefix
trim_prefix-append p s = rw has_prefix_self (drop-append p s)

pub append_cancel : (p s t : Str) → p ++ s ≡ p ++ t → s ≡ t
append_cancel p s t e = str_eq_sound s t (rw (← str_eq_append p s t) (rw e (str_eq_refl (p ++ t))))

-- A suffix of one byte is decided by what follows the prefix.
pub has_suffix-append :
    (p : Str) (a : ℕ) (s : Str) → has_suffix (p ++ a ∷ s) dir_delim ≡ has_suffix (a ∷ s) dir_delim
unfolding has_suffix
has_suffix-append [] a s = refl
has_suffix-append (b ∷ []) a s = ground arith
has_suffix-append (b ∷ c ∷ p) a s = ground (arith, has_suffix-append (c ∷ p) a s)
