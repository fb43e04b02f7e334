-- ===== src/Inmem/Panic.antt =====
-- InMemBucket.Iter on a prefix that is not a directory name.
use objstore.Prelude.{
  ℕ, suc, ◌+◌, ◌≡◌, ◌≢◌, refl, true, false, Option, List, [], ◌∷◌, ◌++◌, arith, Bool-cases, inl,
  inr, sym, ◌∙◌,
}
use objstore.Text.{Str, str_eq, split_after}
use objstore.Text.Laws.{str_eq_iff, has_prefix_self, append_cancel}
use objstore.Text.Split.{
  slashes, slashes-append, is_dir_name, count_nonempty, count_nonempty-split_after,
}
use objstore.Go.{Outcome, returns, panics}
use objstore.Inmem.Iter.{contains, entry_of, add_entry, collect, list_keys}
use objstore.Inmem.Listing.{join_first_panics}

append_ne : (d r : Str) → r ≢ [] → d ≢ d ++ r
append_ne [] r h e = h (sym e)
append_ne (a ∷ d) r h e = append_ne d r h (append_cancel (a ∷ []) d (d ++ r) e)

entry_of_panics :
    (d r : Str)
    → is_dir_name d ≡ false
    → r ≢ []
    → slashes r ≡ 0
    → entry_of false d (count_nonempty (split_after d)) (d ++ r) ≡ panics
unfolding entry_of
entry_of_panics d r h nonempty flat =
    let c : count_nonempty (split_after d) ≡ suc (slashes d) =
      count_nonempty-split_after d ∙ rw h in
    let p =
      join_first_panics (count_nonempty (split_after d) + 1) (d ++ r)
        (omega (arith, slashes-append d r)) in
    ground (arith, has_prefix_self d r, str_eq_iff d (d ++ r), append_ne d r nonempty, p)

-- a loop whose later rounds panic whatever this one adds
step_panics :
    (x : Outcome (Option Str)) (k : Option Str → Outcome (List Str))
    → ((e : Option Str) → k e ≡ panics)
    → elim x [ returns e ↦ k e | panics ↦ panics ] ≡ panics
step_panics (returns e) k h = h e
step_panics panics k h = refl

collect_panics :
    (d filename : Str) (n : ℕ) (names unique : List Str)
    → entry_of false d n filename ≡ panics
    → contains filename names ≡ true
    → collect false d n names unique ≡ panics
unfolding collect contains
collect_panics d filename n [] unique e c = cc
collect_panics d filename n (j ∷ names) unique e c = elim (Bool-cases (str_eq j filename)) [
  | inl same ↦ rw ((str_eq_iff j filename).0 same, e, collect) refl
  | inr differ ↦
      step_panics (entry_of false d n j) _
        (λ o. collect_panics d filename n names (add_entry o unique) e (rw (differ, contains) at c))
]

-- A listing that is not recursive, of a prefix which is not a directory name, panics as soon as one
-- object's name extends the prefix with no delimiter in what follows it.
pub list_keys_panics :
    (names : List Str) (d r : Str)
    → is_dir_name d ≡ false
    → r ≢ []
    → slashes r ≡ 0
    → contains (d ++ r) names ≡ true
    → list_keys names d (record { recursive = false }) ≡ panics
unfolding list_keys
list_keys_panics names d r h nonempty flat c =
    rw (collect_panics d (d ++ r) _ names [] (entry_of_panics d r h nonempty flat) c, list_keys)
      refl
