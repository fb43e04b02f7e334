-- ===== src/Text/Trim.antt =====
-- strings.Trim leaves no delimiter at either end.
use mathlib.Core.List.{reverse, reverse-append, reverse-cons}
use objstore.Prelude.{
  ℕ, ◌≡◌, refl, false, [], ◌∷◌, ◌++◌, arith, ◌==◌, Bool-cases, inl, inr, ◌∙◌, sym, ap,
}
use objstore.Text.{
  Str, slash, dir_delim, str_eq, has_prefix, has_suffix, trim_left, trim, remove_byte,
}
use objstore.Text.Laws.{has_suffix-append}

pub trim_left-has_prefix : (s : Str) → has_prefix (trim_left s slash) dir_delim ≡ false
unfolding trim_left
trim_left-has_prefix [] = unfold has_prefix in refl
trim_left-has_prefix (a ∷ s) = elim (Bool-cases (a == slash)) [
  | inl e ↦ rw (e, trim_left) (trim_left-has_prefix s)
  | inr e ↦ rw (e, trim_left) (unfold has_prefix in rw e refl)
]

-- a last byte that is no delimiter stays the last
trim_left-append :
    (s : Str) (a : ℕ)
    → (a == slash) ≡ false
    → (t : Str) × (trim_left (s ++ a ∷ []) slash ≡ t ++ a ∷ [])
unfolding trim_left
trim_left-append [] a h = ([], rw (h, trim_left) refl)
trim_left-append (b ∷ s) a h = elim (Bool-cases (b == slash)) [
  | inl e ↦ let (t, p) = trim_left-append s a h in (t, rw (e, trim_left) p)
  | inr e ↦ (b ∷ s, rw (e, trim_left) refl)
]

has_suffix-reverse :
    (s : Str) → has_prefix s dir_delim ≡ false → has_suffix (reverse s) dir_delim ≡ false
has_suffix-reverse [] h = unfold has_suffix str_eq in refl
has_suffix-reverse (a ∷ s) h =
    rw (reverse-append (a ∷ []) s) (has_suffix-append (reverse s) a [] ∙ last a h)
  where
    last : (a : ℕ) → has_prefix (a ∷ s) dir_delim ≡ false → has_suffix (a ∷ []) dir_delim ≡ false
    last a h = unfold has_suffix has_prefix in ground arith

has_prefix_head : (a : ℕ) (s : Str) → has_prefix (a ∷ s) dir_delim ≡ (a == slash)
unfolding has_prefix
has_prefix_head a s = ground arith

-- Behind a first byte that is no delimiter, trimming at the end keeps that byte.
trim_right-cons :
    (a : ℕ) (s : Str)
    → (a == slash) ≡ false
    → (t : Str) × (reverse (trim_left (reverse (a ∷ s)) slash) ≡ a ∷ t)
trim_right-cons a s h =
    let (t, p) = trim_left-append (reverse s) a h in
    (
      reverse t,
      ap reverse (ap (λ l. trim_left l slash) (reverse-cons a s) ∙ p) ∙ reverse-append t (a ∷ []),
    )

reverse-trim_left :
    (s : Str)
    → has_prefix s dir_delim ≡ false
    → has_prefix (reverse (trim_left (reverse s) slash)) dir_delim ≡ false
reverse-trim_left [] h = unfold has_prefix trim_left in refl
reverse-trim_left (a ∷ s) h =
    let e : (a == slash) ≡ false = sym (has_prefix_head a s) ∙ h in
    let (t, p) = trim_right-cons a s e in
    ap (λ l. has_prefix l dir_delim) p ∙ (has_prefix_head a t ∙ e)

trim_left-eq-nil : (s : Str) → trim_left s slash ≡ [] → remove_byte s slash ≡ []
unfolding trim_left remove_byte
trim_left-eq-nil [] h = refl
trim_left-eq-nil (a ∷ s) h = elim (Bool-cases (a == slash)) [
  | inl e ↦ rw (e, remove_byte) (trim_left-eq-nil s (rw (e, trim_left) at h))
  | inr e ↦ cc (rw (e, trim_left) at h)
]

-- the trimmed string is empty only if the first pass left nothing
trim_right-eq-nil :
    (s : Str) → has_prefix s dir_delim ≡ false → reverse (trim_left (reverse s) slash) ≡ [] → s ≡ []
trim_right-eq-nil [] f h = refl
trim_right-eq-nil (a ∷ s) f h =
    let e : (a == slash) ≡ false = sym (has_prefix_head a s) ∙ f in
    let (t, p) = trim_right-cons a s e in cc (h, p)

-- Trimming leaves nothing only of a string with nothing but delimiters.
pub trim-eq-nil : (s : Str) → trim s slash ≡ [] → remove_byte s slash ≡ []
unfolding trim
trim-eq-nil s h =
    trim_left-eq-nil s (trim_right-eq-nil (trim_left s slash) (trim_left-has_prefix s) h)

-- Trim with the delimiter as its cut set leaves no delimiter at either end.
pub trim_ends :
    (s : Str)
    → (has_prefix (trim s slash) dir_delim ≡ false) × (has_suffix (trim s slash) dir_delim ≡ false)
unfolding trim
trim_ends s = (
  reverse-trim_left (trim_left s slash) (trim_left-has_prefix s),
  has_suffix-reverse (trim_left (reverse (trim_left s slash)) slash)
      (trim_left-has_prefix (reverse (trim_left s slash))),
)
