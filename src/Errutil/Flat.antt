-- ===== src/Errutil/Flat.antt =====
-- Errors that are added to a MultiError one by one.
use objstore.Prelude.{
  ℕ, ◌+◌, ◌≡◌, refl, ◌⊎◌, inl, inr, Bool, true, false, ◌&&◌, Option, none, some, List, [], ◌∷◌, ◌↔◌,
  arith, ◌∙◌, sym,
}
use objstore.Errors.{
  Error, multi, Errors, nil, cons, new_error, errorf, wrapped, eof, canceled, deadline_exceeded,
  not_exist, foreign,
}
use objstore.Errutil.{append, add, err, count}

-- whether an error is no MultiError, and whether a list holds only such errors
unfoldable pub is_single : Error → Bool
is_single (multi _) = false
is_single _ = true

unfoldable pub is_flat : Errors → Bool
is_flat nil = true
is_flat (cons e es) = is_single e && is_flat es

-- Add of each error in turn
unfoldable pub add_all : Errors → List (Option Error) → Errors
add_all es [] = es
add_all es (e ∷ more) = add_all (add es e) more

-- the number of errors that an error stands for
unfoldable pub weight : Option Error → ℕ
weight none = 0
weight (some (multi es)) = count es
weight (some _) = 1

unfoldable pub total : List (Option Error) → ℕ
total [] = 0
total (e ∷ more) = weight e + total more

-- an error is nil, or no MultiError, or a MultiError of errors that are none
unfoldable pub is_flat_error : Option Error → Bool
is_flat_error none = true
is_flat_error (some (multi es)) = is_flat es
is_flat_error (some _) = true

unfoldable pub all_flat : List (Option Error) → Bool
all_flat [] = true
all_flat (e ∷ more) = is_flat_error e && all_flat more

is_flat-append : (es more : Errors) → is_flat (append es more) ≡ (is_flat es && is_flat more)
unfolding is_flat append
is_flat-append nil more = refl
is_flat-append (cons e es) more = ground (arith, is_flat-append es more)

count-append : (es more : Errors) → count (append es more) ≡ count es + count more
unfolding count append
count-append nil more = omega arith
count-append (cons e es) more = omega (arith, count-append es more)

-- an error that is a MultiError, or one that Add appends as it is
abbrev Added : Error → Type 0
Added e =
    ((more : Errors) × (e ≡ multi more))
    ⊎ (((es : Errors) → add es (some e) ≡ append es (cons e nil))
        × (weight (some e) ≡ 1)
        × (is_flat_error (some e) ≡ true)
        × (is_single e ≡ true))

error_cases : (e : Error) → Added e
unfolding add weight is_flat_error is_single
error_cases (multi more) = inl (more, refl)
error_cases (new_error m) = inr (λ es. refl, refl, refl, refl)
error_cases (errorf m s) = inr (λ es. refl, refl, refl, refl)
error_cases (wrapped m e) = inr (λ es. refl, refl, refl, refl)
error_cases eof = inr (λ es. refl, refl, refl, refl)
error_cases canceled = inr (λ es. refl, refl, refl, refl)
error_cases deadline_exceeded = inr (λ es. refl, refl, refl, refl)
error_cases not_exist = inr (λ es. refl, refl, refl, refl)
error_cases (foreign m) = inr (λ es. refl, refl, refl, refl)

is_flat-add :
    (es : Errors) (e : Option Error) → is_flat (add es e) ≡ (is_flat es && is_flat_error e)
is_flat-add es none = unfold add is_flat_error in ground arith
is_flat-add es (some e) = elim (error_cases e) [
  | inl (more, h) ↦ rw h (unfold add is_flat_error in is_flat-append es more)
  | inr (a, w, f, s) ↦
      rw (a es, is_flat-append es (cons e nil), f) (unfold is_flat in rw s (ground arith))
]

count-add : (es : Errors) (e : Option Error) → count (add es e) ≡ count es + weight e
count-add es none = unfold add weight in omega arith
count-add es (some e) = elim (error_cases e) [
  | inl (more, h) ↦ rw h (unfold add weight in count-append es more)
  | inr (a, w, f, s) ↦ rw (a es, count-append es (cons e nil), w) (unfold count in omega arith)
]

is_flat-add_all :
    (es : Errors) (errs : List (Option Error))
    → is_flat es ≡ true
    → all_flat errs ≡ true
    → is_flat (add_all es errs) ≡ true
unfolding add_all all_flat
is_flat-add_all es [] h a = h
is_flat-add_all es (e ∷ errs) h a =
    is_flat-add_all (add es e) errs (ground (arith, is_flat-add es e)) (ground arith)

count-add_all :
    (es : Errors) (errs : List (Option Error)) → count (add_all es errs) ≡ count es + total errs
unfolding add_all total
count-add_all es [] = omega arith
count-add_all es (e ∷ errs) = omega (arith, count-add_all (add es e) errs, count-add es e)

count_nil : count nil ≡ 0
unfolding count
count_nil = refl

err-count : (es : Errors) → (err es ≡ none) ↔ (count es ≡ 0)
unfolding err count
err-count nil = (λ h. refl, λ h. refl)
err-count (cons e es) = (λ h. cc, λ h. ground arith)

-- However errors are added to an empty MultiError, nil ones and MultiErrors of plain errors
-- included, it holds plain errors only, as many as the added errors hold together; and Err is nil
-- exactly if that number is 0.
pub add_all_flat :
    (errs : List (Option Error))
    → all_flat errs ≡ true
    → (is_flat (add_all nil errs) ≡ true)
      × (count (add_all nil errs) ≡ total errs)
      × ((err (add_all nil errs) ≡ none) ↔ (total errs ≡ 0))
add_all_flat errs a =
    let n : count (add_all nil errs) ≡ total errs =
      omega (arith, count-add_all nil errs, count_nil) in
    (
      is_flat-add_all nil errs (unfold is_flat in refl) a,
      n,
      (
        λ h. sym n ∙ (err-count (add_all nil errs)).0 h,
        λ h. (err-count (add_all nil errs)).1 (n ∙ h),
      ),
    )
