-- ===== src/Prefixed/Listing.antt =====
-- Iter of a PrefixedBucket over InMemBucket: the keys below the prefix are the keys of the view.
use objstore.Prelude.{
  ℕ, suc, ◌+◌, ◌≡◌, ◌≢◌, refl, Bool, true, false, Option, none, some, List, [], ◌∷◌, ◌++◌, arith,
  length, drop, Bool-cases, inl, inr, ◌∙◌, sym, ap, subst,
}
use native.Mathlib.Decide.{dec_lt}
use mathlib.Core.List.{append-nil}
use objstore.Text.{Str, dir_delim, str_eq, has_prefix, has_suffix, split_after}
use objstore.Text.Laws.{
  str_eq_append, has_prefix-append, has_prefix_sound, has_suffix-append, has_prefix_longer,
}
use objstore.Text.Split.{
  slashes, slashes-append, first_parts, first_parts-append, is_dir_name, count_nonempty,
  count_nonempty-split_after,
}
use objstore.Go.{returns_injective, Outcome, returns, panics}
use objstore.Options.{IterParams}
use objstore.Inmem.Iter.{join_first, entry_of, add_entry, collect, sort_keys, list_keys}
use objstore.Inmem.Listing.{join_first-split_after, join_first_panics}
use objstore.Prefixed.View.{strip}
use objstore.Prefixed.Keys.{
  prefixed, NoEmpty, add_unique-NoEmpty, add_unique-prefixed, sort_keys-prefixed,
}

is_dir_name_of_suffix : (s : Str) → has_suffix s dir_delim ≡ true → is_dir_name s ≡ true
unfolding is_dir_name
is_dir_name_of_suffix s h = ground arith

is_dir_name-prefixed :
    (q dir : Str) → has_suffix q dir_delim ≡ true → is_dir_name (q ++ dir) ≡ is_dir_name dir
unfolding is_dir_name str_eq
is_dir_name-prefixed [] dir h = unfold has_suffix in cc
is_dir_name-prefixed (b ∷ q) [] h =
    ap is_dir_name (append-nil (b ∷ q)) ∙ is_dir_name_of_suffix (b ∷ q) h
is_dir_name-prefixed (b ∷ q) (a ∷ dir) h = has_suffix-append (b ∷ q) a dir

count_nonempty-prefixed :
    (q dir : Str)
    → has_suffix q dir_delim ≡ true
    → count_nonempty (split_after (q ++ dir)) ≡ slashes q + count_nonempty (split_after dir)
count_nonempty-prefixed q dir h = ground (
  arith,
  count_nonempty-split_after (q ++ dir),
  count_nonempty-split_after dir,
  is_dir_name-prefixed q dir h,
  slashes-append q dir,
)

abbrev under : Str → Outcome Str → Outcome Str
under q (returns k) = returns (q ++ k)
under q panics = panics

join_first-prefixed :
    (q m : Str) (c : ℕ)
    → join_first (split_after (q ++ m)) (slashes q + c + 1)
      ≡ under q (join_first (split_after m) (c + 1))
join_first-prefixed q m c = elim (dec_lt (slashes m) c) [
  | yes past ↦
      rw
        (
          join_first_panics (slashes q + c + 1) (q ++ m) (omega (arith, slashes-append q m)),
          join_first_panics (c + 1) m (omega arith),
        )
        refl
  | no fits ↦
      let n : slashes q + c + 1 ≡ suc (slashes q + c) = omega arith in
      let n' : c + 1 ≡ suc c = omega arith in
      rw
        (
          n,
          n',
          join_first-split_after (suc (slashes q + c)) (q ++ m) (omega (arith, slashes-append q m)),
          join_first-split_after (suc c) m (omega arith),
        )
        (ap returns (first_parts-append q m c))
]

abbrev under_entry : Str → Outcome (Option Str) → Outcome (Option Str)
under_entry q (returns (some k)) = returns (some (q ++ k))
under_entry q (returns none) = returns none
under_entry q panics = panics

entry_of-prefixed :
    (recursive : Bool) (q dir m : Str) (c : ℕ)
    → entry_of recursive (q ++ dir) (slashes q + c) (q ++ m)
      ≡ under_entry q (entry_of recursive dir c m)
unfolding entry_of
entry_of-prefixed recursive q dir m c =
    rw (has_prefix-append q m dir, str_eq_append q dir m, join_first-prefixed q m c, entry_of)
      (ground arith)

entry_of_outside :
    (recursive : Bool) (q dir filename : Str) (c : ℕ)
    → has_prefix filename q ≡ false
    → entry_of recursive (q ++ dir) c filename ≡ returns none
unfolding entry_of
entry_of_outside recursive q dir filename c h = rw (has_prefix_longer filename q dir h) refl

join_first-ne-nil :
    (a : ℕ) (m k : Str) (c : ℕ) → join_first (split_after (a ∷ m)) (c + 1) ≡ returns k → k ≢ []
join_first-ne-nil a m k c h e = elim (dec_lt (slashes (a ∷ m)) c) [
  | yes past ↦ cc (h, join_first_panics (c + 1) (a ∷ m) (omega arith))
  | no fits ↦
      let n : c + 1 ≡ suc c = omega arith in
      let p = join_first-split_after (suc c) (a ∷ m) (omega arith) in
      unfold first_parts in cc (rw n at h, p, e)
]

-- An entry is never the empty string.
entry_of-ne-nil :
    (recursive : Bool) (dir m k : Str) (c : ℕ)
    → entry_of recursive dir c m ≡ returns (some k)
    → k ≢ []
unfolding entry_of
entry_of-ne-nil recursive [] [] k c h = unfold has_prefix str_eq in cc h
entry_of-ne-nil recursive (b ∷ dir) [] k c h = unfold has_prefix in cc h
entry_of-ne-nil true dir (a ∷ m) k c h = λ e. ground arith
entry_of-ne-nil false dir (a ∷ m) k c h = λ e. ground (arith, join_first-ne-nil a m k c)

entry_of-NoEmpty :
    (recursive : Bool) (dir m : Str) (c : ℕ) (e : Option Str) (unique : List Str)
    → entry_of recursive dir c m ≡ returns e
    → NoEmpty unique
    → NoEmpty (add_entry e unique)
entry_of-NoEmpty recursive dir m c none unique h n = n
entry_of-NoEmpty recursive dir m c (some k) unique h n =
    add_unique-NoEmpty k unique (entry_of-ne-nil recursive dir m k c h) n

abbrev pub all_under : Str → Outcome (List Str) → Outcome (List Str)
all_under q (returns ks) = returns (prefixed q ks)
all_under q panics = panics

abbrev entry_under : Str → Option Str → Option Str
entry_under q (some k) = some (q ++ k)
entry_under q none = none

add_entry-prefixed :
    (q : Str) (e : Option Str) (unique : List Str)
    → add_entry (entry_under q e) (prefixed q unique) ≡ prefixed q (add_entry e unique)
add_entry-prefixed q none unique = refl
add_entry-prefixed q (some k) unique = add_unique-prefixed q k unique

module _ (recursive : Bool) (q dir : Str) (c : ℕ) where
  -- one round of the loop for an object under the prefix
  collect-prefixed_step :
      (m : Str) (names unique : List Str) (x : Outcome (Option Str))
      → entry_of recursive dir c m ≡ x
      → ((e : Option Str)
          → collect recursive (q ++ dir) (slashes q + c) names (prefixed q (add_entry e unique))
            ≡ all_under q (collect recursive dir c (strip q names) (add_entry e unique)))
      → collect recursive (q ++ dir) (slashes q + c) ((q ++ m) ∷ names) (prefixed q unique)
        ≡ all_under q (collect recursive dir c (m ∷ strip q names) unique)
  unfolding collect
  collect-prefixed_step m names unique panics h ih =
      rw (entry_of-prefixed recursive q dir m c, h, collect) refl
  collect-prefixed_step m names unique (returns none) h ih =
      rw (entry_of-prefixed recursive q dir m c, h, collect) (ih none)
  collect-prefixed_step m names unique (returns (some k)) h ih =
      rw (entry_of-prefixed recursive q dir m c, h, collect)
        (rw (add_unique-prefixed q k unique) (ih (some k)))

  collect-prefixed :
      (names unique : List Str)
      → collect recursive (q ++ dir) (slashes q + c) names (prefixed q unique)
        ≡ all_under q (collect recursive dir c (strip q names) unique)
  unfolding strip collect
  collect-prefixed [] unique = refl
  collect-prefixed (filename ∷ names) unique = elim (Bool-cases (has_prefix filename q)) [
    | inl e ↦
        let m = drop (length q) filename in
        rw e (
          subst
            (λ s.
              collect recursive (q ++ dir) (slashes q + c) (s ∷ names) (prefixed q unique)
              ≡ all_under q (collect recursive dir c (m ∷ strip q names) unique))
            (sym (has_prefix_sound filename q e))
            (collect-prefixed_step m names unique _ refl
              (λ o. collect-prefixed names (add_entry o unique))))
    | inr e ↦ rw e (
        rw (entry_of_outside recursive q dir filename (slashes q + c) e, collect)
          (collect-prefixed names unique))
  ]

collect-NoEmpty_step :
    (recursive : Bool) (dir m : Str) (c : ℕ) (names unique ks : List Str) (x : Outcome (Option Str))
    → entry_of recursive dir c m ≡ x
    → ((e : Option Str)
        → NoEmpty (add_entry e unique)
        → collect recursive dir c names (add_entry e unique) ≡ returns ks
        → NoEmpty ks)
    → NoEmpty unique
    → collect recursive dir c (m ∷ names) unique ≡ returns ks
    → NoEmpty ks
unfolding collect
collect-NoEmpty_step recursive dir m c names unique ks panics h ih n e = cc (rw (h, collect) at e)
collect-NoEmpty_step recursive dir m c names unique ks (returns o) h ih n e =
    ih o (entry_of-NoEmpty recursive dir m c o unique h n) (rw (h, collect) at e)

collect-NoEmpty :
    (recursive : Bool) (dir : Str) (c : ℕ) (names unique ks : List Str)
    → NoEmpty unique
    → collect recursive dir c names unique ≡ returns ks
    → NoEmpty ks
collect-NoEmpty recursive dir c [] unique ks n e =
    unfold collect in subst NoEmpty (returns_injective e) n
collect-NoEmpty recursive dir c (m ∷ names) unique ks n e =
    collect-NoEmpty_step recursive dir m c names unique ks _ refl
      (λ o. collect-NoEmpty recursive dir c names (add_entry o unique) ks) n e

collect-prefixed_dir :
    (recursive : Bool) (q dir : Str) (names : List Str)
    → has_suffix q dir_delim ≡ true
    → collect recursive (q ++ dir) (count_nonempty (split_after (q ++ dir))) names []
      ≡ all_under q (collect recursive dir (count_nonempty (split_after dir)) (strip q names) [])
collect-prefixed_dir recursive q dir names h =
    rw (count_nonempty-prefixed q dir h)
      (collect-prefixed recursive q dir (count_nonempty (split_after dir)) names [])

list_keys-prefixed_step :
    (q : Str) (x : Outcome (List Str))
    → ((ks : List Str) → x ≡ returns ks → NoEmpty ks)
    → elim (all_under q x) [ returns unique ↦ returns (sort_keys unique) | panics ↦ panics ]
      ≡ all_under q (elim x [ returns unique ↦ returns (sort_keys unique) | panics ↦ panics ])
list_keys-prefixed_step q panics n = refl
list_keys-prefixed_step q (returns ks) n = ap returns (sort_keys-prefixed q ks (n ks refl))

-- Below a prefix that ends with the delimiter, the bucket lists the keys of the view, each behind
-- the prefix and in the same order, and panics where a listing of the view would.
pub list_keys-prefixed :
    (q dir : Str) (names : List Str) (params : IterParams)
    → has_suffix q dir_delim ≡ true
    → list_keys names (q ++ dir) params ≡ all_under q (list_keys (strip q names) dir params)
unfolding list_keys
list_keys-prefixed q dir names params h =
    let c = count_nonempty (split_after dir) in
    rw (collect-prefixed_dir params.recursive q dir names h, list_keys)
      (list_keys-prefixed_step q (collect params.recursive dir c (strip q names) [])
        (λ ks. collect-NoEmpty params.recursive dir c (strip q names) [] ks tt))
