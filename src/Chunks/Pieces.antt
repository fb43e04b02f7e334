-- ===== src/Chunks/Pieces.antt =====
-- A text in pieces of a length and what is left.
use objstore.Prelude.{
  ℕ, zero, suc, ◌+◌, ◌*◌, ◌/◌, ◌≡◌, refl, ◌<◌, ◌≤◌, Bool, true, ◌&&◌, List, [], ◌∷◌, ◌++◌, ltb, leb,
  take, drop, length, arith, ap, ◌∙◌, length-take, length-drop, take-append-drop,
}
use mathlib.Core.List.{append-nil}
use objstore.Prelude.Int.{ℤ, pos}
use objstore.Text.{Str}

-- A text cut into `n` pieces of a length and what is left.
unfoldable pub chunks : ℕ → ℕ → Str → List Str
chunks full zero [] = []
chunks full zero (c ∷ s) = (c ∷ s) ∷ []
chunks full (suc n) s = take full s ∷ chunks full n (drop full s)

unfoldable pub concat : List Str → Str
concat [] = []
concat (s ∷ ss) = s ++ concat ss

-- whether all pieces have a byte and at most `full`
unfoldable pub all_sized : ℕ → List Str → Bool
all_sized full [] = true
all_sized full (s ∷ ss) = ltb 0 (length s) && leb (length s) full && all_sized full ss

-- the pieces with numbers from `k` on
unfoldable pub numbered : ℕ → List Str → List (ℤ × Str)
numbered k [] = []
numbered k (s ∷ ss) = (pos k, s) ∷ numbered (k + 1) ss

pub concat-chunks : (full n : ℕ) (s : Str) → concat (chunks full n s) ≡ s
unfolding concat chunks
concat-chunks full zero [] = refl
concat-chunks full zero (c ∷ s) = append-nil (c ∷ s)
concat-chunks full (suc n) s =
    ap (λ t. take full s ++ t) (concat-chunks full n (drop full s)) ∙ take-append-drop full s

pub mul_suc : (n full : ℕ) → suc n * full ≡ full + n * full
mul_suc n full = grind arith

pub all_sized-chunks :
    (full n last : ℕ) (s : Str)
    → 0 < full
    → last < full
    → length s ≡ n * full + last
    → all_sized full (chunks full n s) ≡ true
unfolding all_sized chunks
all_sized-chunks full zero last [] p l h = refl
all_sized-chunks full zero last (c ∷ s) p l h = ground (arith, h)
all_sized-chunks full (suc n) last s p l h =
    let short : length (take full s) ≡ full =
      omega (arith, length-take full s, mul_suc n full, h) in
    let left : length (drop full s) ≡ n * full + last =
      omega (arith, length-drop full s, mul_suc n full, h) in
    rw short (ground (arith, all_sized-chunks full n last (drop full s) p l left))

pub positive : (full n : ℕ) → 0 < full → full ≤ n → 0 < n / full
positive full n p f = grind arith
