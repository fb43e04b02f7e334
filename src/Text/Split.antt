-- ===== src/Text/Split.antt =====
-- Splitting after the delimiter: how many parts there are, and what the first parts join to.
use Prim.Native.Nat.add
use objstore.Prelude.{
  ℕ, zero, suc, ◌+◌, ◌≡◌, refl, ap, Bool, ◌||◌, true, false, List, [], ◌∷◌, ◌++◌, arith, ◌∙◌, ◌==◌,
  if◌then◌else◌, length, take, Bool-cases, inl, inr,
}
use objstore.Text.{Str, slash, dir_delim, str_eq, cons_head, split_after, join, has_suffix}

pub join-cons_head : (a : ℕ) (ps : List Str) → join (cons_head a ps) ≡ a ∷ join ps
unfolding cons_head join
join-cons_head a [] = refl
join-cons_head a (p ∷ ps) = refl

pub join-split_after : (s : Str) → join (split_after s) ≡ s
unfolding split_after join
join-split_after [] = refl
join-split_after (a ∷ s) = elim (Bool-cases (a == slash)) [
  | inl e ↦ rw (e, join-split_after s)
  | inr e ↦ rw (e, join-cons_head, join-split_after s)
]

-- strings.Count of the delimiter
unfoldable pub slashes : Str → ℕ
slashes [] = 0
slashes (a ∷ s) = if a == slash then suc (slashes s) else slashes s

pub slashes-append : (s t : Str) → slashes (s ++ t) ≡ slashes s + slashes t
unfolding slashes
slashes-append [] t = omega arith
slashes-append (a ∷ s) t = ground (arith, slashes-append s t)

length-cons_head :
    (a : ℕ) (ps : List Str) {n : ℕ} → length ps ≡ suc n → length (cons_head a ps) ≡ suc n
unfolding cons_head
length-cons_head a [] h = absurd (omega arith)
length-cons_head a (p ∷ ps) h = h

pub length-split_after : (s : Str) → length (split_after s) ≡ suc (slashes s)
unfolding split_after slashes
length-split_after [] = refl
length-split_after (a ∷ s) = elim (Bool-cases (a == slash)) [
  | inl e ↦ rw e (ap suc (length-split_after s))
  | inr e ↦ rw e (length-cons_head a (split_after s) (length-split_after s))
]

-- The first `n` components of a path, each with its delimiter.
unfoldable pub first_parts : ℕ → Str → Str
first_parts zero s = []
first_parts (suc n) [] = []
first_parts (suc n) (a ∷ s) = a ∷ (if a == slash then first_parts n s else first_parts (suc n) s)

join-take-cons_head :
    (n a : ℕ) (ps : List Str) → join (take (suc n) (cons_head a ps)) ≡ a ∷ join (take (suc n) ps)
unfolding cons_head join
join-take-cons_head zero a [] = refl
join-take-cons_head (suc n) a [] = refl
join-take-cons_head n a (p ∷ ps) = refl

pub join-take-split_after : (n : ℕ) (s : Str) → join (take n (split_after s)) ≡ first_parts n s
unfolding split_after join first_parts
join-take-split_after zero s = refl
join-take-split_after (suc zero) [] = refl
join-take-split_after (suc (suc n)) [] = refl
join-take-split_after (suc n) (a ∷ s) = elim (Bool-cases (a == slash)) [
  | inl e ↦ rw e (ap (◌∷◌ a) (join-take-split_after n s))
  | inr e ↦ rw (e, join-take-cons_head) (ap (◌∷◌ a) (join-take-split_after (suc n) s))
]

slashes-cons :
    (a : ℕ) (s : Str) → slashes (a ∷ s) ≡ (if a == slash then suc (slashes s) else slashes s)
unfolding slashes
slashes-cons a s = refl

first_parts-slash :
    (m a : ℕ) (s : Str) → (a == slash) ≡ true → first_parts (suc m) (a ∷ s) ≡ a ∷ first_parts m s
unfolding first_parts
first_parts-slash m a s e = rw e

first_parts_other :
    (m a : ℕ) (s : Str)
    → (a == slash) ≡ false
    → first_parts (suc m) (a ∷ s) ≡ a ∷ first_parts (suc m) s
unfolding first_parts
first_parts_other m a s e = rw e

-- Components beyond those that a prefix completes come from the rest.
pub first_parts-append :
    (d r : Str) (n : ℕ) → first_parts (suc (slashes d + n)) (d ++ r) ≡ d ++ first_parts (suc n) r
first_parts-append [] r n = unfold slashes in rw add.zero
first_parts-append (a ∷ d) r n = elim (Bool-cases (a == slash)) [
  | inl e ↦
      let s : slashes (a ∷ d) ≡ suc (slashes d) = slashes-cons a d ∙ rw e in
      rw (s, add.suc) (first_parts-slash _ a (d ++ r) e ∙ ap (◌∷◌ a) (first_parts-append d r n))
  | inr e ↦
      let s : slashes (a ∷ d) ≡ slashes d = slashes-cons a d ∙ rw e in
      rw s (first_parts_other _ a (d ++ r) e ∙ ap (◌∷◌ a) (first_parts-append d r n))
]

-- Whether a string names a directory in full: it is empty or ends with the delimiter.
unfoldable pub is_dir_name : Str → Bool
unfolding has_suffix str_eq
is_dir_name d = str_eq d [] || has_suffix d dir_delim

-- The loop of InMemBucket.Iter over the parts of `dir`.
unfoldable pub count_nonempty : List Str → ℕ
unfolding str_eq
count_nonempty [] = 0
count_nonempty (p ∷ ps) = if str_eq p [] then count_nonempty ps else suc (count_nonempty ps)

count_nonempty-cons_head :
    (a b : ℕ) (ps : List Str)
    → count_nonempty (cons_head a (cons_head b ps)) ≡ count_nonempty (cons_head b ps)
unfolding count_nonempty cons_head
count_nonempty-cons_head a b [] = refl
count_nonempty-cons_head a b (p ∷ ps) = refl

-- Only a delimiter adds a part that is not empty in front of a string that is not empty.
count_nonempty-split_after_cons :
    (a b : ℕ) (d : Str)
    → count_nonempty (split_after (a ∷ b ∷ d)) ≡ (
        if a == slash
        then suc (count_nonempty (split_after (b ∷ d)))
        else count_nonempty (split_after (b ∷ d)))
unfolding split_after
count_nonempty-split_after_cons a b d = elim (Bool-cases (a == slash)) [
  | inl e ↦ rw e (unfold count_nonempty in refl)
  | inr e ↦ rw e (elim (Bool-cases (b == slash)) [
    | inl f ↦ rw f (unfold count_nonempty cons_head in refl)
    | inr f ↦ rw f (count_nonempty-cons_head a b (split_after d))
  ])
]

is_dir_name-cons : (a b : ℕ) (d : Str) → is_dir_name (a ∷ b ∷ d) ≡ is_dir_name (b ∷ d)
unfolding is_dir_name
is_dir_name-cons a b d = ground arith

-- The parts of a directory name that are not empty are as many as its delimiters; any other name
-- has one more.
pub count_nonempty-split_after :
    (d : Str)
    → count_nonempty (split_after d) ≡ (if is_dir_name d then slashes d else suc (slashes d))
count_nonempty-split_after [] = unfold split_after count_nonempty is_dir_name slashes in refl
count_nonempty-split_after (a ∷ []) = elim (Bool-cases (a == slash)) [
  | inl e ↦ unfold split_after count_nonempty is_dir_name slashes in rw e refl
  | inr e ↦ unfold split_after count_nonempty is_dir_name slashes in rw e refl
]
count_nonempty-split_after (a ∷ b ∷ d) = ground (
  arith,
  count_nonempty-split_after (b ∷ d),
  count_nonempty-split_after_cons a b d,
  is_dir_name-cons a b d,
  slashes-cons a (b ∷ d),
)
