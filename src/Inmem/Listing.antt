-- ===== src/Inmem/Listing.antt =====
-- What InMemBucket.Iter lists.
use objstore.Prelude.{
  ℕ, suc, ◌+◌, ◌≡◌, refl, Bool, true, false, ◌&&◌, ◌||◌, not, Option, none, some, List, [], ◌∷◌,
  ◌++◌, arith, leb, if◌then◌else◌, length, drop, any, Bool-cases, le→leb, lt→leb_false, bool_iff,
  ◌≤◌, ◌<◌, subst, inl, inr, sym, ◌∙◌, ap,
}
use objstore.Text.{Str, str_eq, has_prefix, split_after}
use objstore.Text.Laws.{str_eq_iff, has_prefix_sound}
use objstore.Text.Split.{
  slashes, slashes-append, length-split_after, first_parts, join-take-split_after,
  first_parts-append, is_dir_name, count_nonempty, count_nonempty-split_after,
}
use objstore.Go.{returns, panics}
use objstore.Options.{IterParams}
use objstore.Inmem.Iter.{contains, join_first, entry_of, add_entry, collect, sort_keys, list_keys}
use objstore.Inmem.Order.{
  contains_nil, contains_head, contains_cons, Increasing, Increasing-same, Distinct,
  sort_keys-Increasing, contains-sort_keys, add_unique-Distinct, contains-add_unique,
}

-- An object lies below `dir` if its name extends `dir`.
unfoldable pub is_below : Str → Str → Bool
unfolding has_prefix str_eq
is_below dir filename = has_prefix filename dir && not (str_eq dir filename)

-- The entry of `dir` through which an object below it is reached: the object itself in a recursive
-- listing, else `dir` with one more component.
unfoldable pub entry_key : Bool → Str → Str → Str
entry_key recursive dir filename =
    if recursive then filename else dir ++ first_parts 1 (drop (length dir) filename)

unfoldable pub lists_entry : Bool → Str → Str → Str → Bool
unfolding is_below entry_key
lists_entry recursive dir k filename =
    is_below dir filename && str_eq (entry_key recursive dir filename) k

pub join_first-split_after :
    (n : ℕ) (s : Str)
    → n ≤ suc (slashes s)
    → join_first (split_after s) n ≡ returns (first_parts n s)
unfolding join_first
join_first-split_after n s h =
    let fits : leb n (length (split_after s)) ≡ true =
      le→leb n _ (omega (arith, length-split_after s)) in
    rw fits (ap returns (join-take-split_after n s))

pub join_first_panics :
    (n : ℕ) (s : Str) → suc (slashes s) < n → join_first (split_after s) n ≡ panics
unfolding join_first
join_first_panics n s h =
    let past : leb n (length (split_after s)) ≡ false =
      lt→leb_false n _ (omega (arith, length-split_after s)) in
    rw past

-- With `dir` a directory name, the first parts of a name below it are `dir` and one component.
join_first_dir :
    (d r : Str)
    → is_dir_name d ≡ true
    → join_first (split_after (d ++ r)) (count_nonempty (split_after d) + 1)
      ≡ returns (d ++ first_parts 1 r)
join_first_dir d r h =
    let c : count_nonempty (split_after d) ≡ slashes d = count_nonempty-split_after d ∙ rw h in
    let n : count_nonempty (split_after d) + 1 ≡ suc (slashes d + 0) = omega arith in
    rw n (
      join_first-split_after _ (d ++ r) (omega (arith, slashes-append d r))
      ∙ ap returns (first_parts-append d r 0))

abbrev entry_for : Bool → Str → Str → Option Str
entry_for recursive dir filename =
    if is_below dir filename then some (entry_key recursive dir filename) else none

-- A recursive listing, and one of a directory name, never panics on an object.
entry_of_lem :
    (recursive : Bool) (d filename : Str)
    → (recursive || is_dir_name d) ≡ true
    → entry_of recursive d (count_nonempty (split_after d)) filename
      ≡ returns (entry_for recursive d filename)
unfolding entry_of is_below entry_key
entry_of_lem true d filename h = ground arith
entry_of_lem false d filename h = elim (Bool-cases (has_prefix filename d)) [
  | inr e ↦ rw e refl
  | inl e ↦
      let p : filename ≡ d ++ drop (length d) filename = has_prefix_sound filename d e in
      let j : join_first (split_after filename) (count_nonempty (split_after d) + 1)
          ≡ returns (d ++ first_parts 1 (drop (length d) filename)) =
        subst
          (λ s.
            join_first (split_after s) (count_nonempty (split_after d) + 1)
            ≡ returns (d ++ first_parts 1 (drop (length d) filename)))
          (sym p) (join_first_dir d (drop (length d) filename) h) in
      ground (arith, j)
]

-- the set of entries without the panics
gather : Bool → Str → List Str → List Str → List Str
gather recursive d [] unique = unique
gather recursive d (filename ∷ names) unique =
    gather recursive d names (add_entry (entry_for recursive d filename) unique)

collect-gather :
    (recursive : Bool) (d : Str) (names unique : List Str)
    → (recursive || is_dir_name d) ≡ true
    → collect recursive d (count_nonempty (split_after d)) names unique
      ≡ returns (gather recursive d names unique)
unfolding collect gather
collect-gather recursive d [] unique h = refl
collect-gather recursive d (filename ∷ names) unique h =
    rw (entry_of_lem recursive d filename h, collect) (collect-gather recursive d names _ h)

add_entry-Distinct :
    (e : Option Str) (unique : List Str) → Distinct unique → Distinct (add_entry e unique)
add_entry-Distinct none unique u = u
add_entry-Distinct (some k) unique u = add_unique-Distinct k unique u

gather-Distinct :
    (recursive : Bool) (d : Str) (names unique : List Str)
    → Distinct unique
    → Distinct (gather recursive d names unique)
unfolding gather
gather-Distinct recursive d [] unique u = u
gather-Distinct recursive d (filename ∷ names) unique u =
    gather-Distinct recursive d names _
      (add_entry-Distinct (entry_for recursive d filename) unique u)

contains-add_entry :
    (recursive : Bool) (d k filename : Str) (unique : List Str)
    → contains k (add_entry (entry_for recursive d filename) unique)
      ≡ (lists_entry recursive d k filename || contains k unique)
unfolding lists_entry
contains-add_entry recursive d k filename unique =
    ground (arith, contains-add_unique k (entry_key recursive d filename) unique)

or_swap : (a b c : Bool) → (b || (a || c)) ≡ (a || (b || c))
or_swap a b c = ground arith

contains-gather :
    (recursive : Bool) (d k : Str) (names unique : List Str)
    → contains k (gather recursive d names unique)
      ≡ (any (lists_entry recursive d k) names || contains k unique)
unfolding gather
contains-gather recursive d k [] unique = refl
contains-gather recursive d k (filename ∷ names) unique = ground (
  arith,
  contains-gather recursive d k names (add_entry (entry_for recursive d filename) unique),
  contains-add_entry recursive d k filename unique,
)

or-false : (a : Bool) → (a || false) ≡ a
or-false a = ground arith

abbrev pub Listed : List Str → Str → IterParams → List Str → Type 0
Listed names d params ks =
    (list_keys names d params ≡ returns ks)
    × Increasing ks
    × ((k : Str) → contains k ks ≡ any (lists_entry params.recursive d k) names)

-- A recursive listing, and a listing of a directory name (the empty string or one that ends with
-- the delimiter), does not panic. Its keys are in strictly increasing order, so none comes twice,
-- and a key is listed exactly if some object below the directory has it as its entry.
pub list_keys_lem :
    (names : List Str) (d : Str) (params : IterParams)
    → (params.recursive || is_dir_name d) ≡ true
    → (ks : List Str) × Listed names d params ks
unfolding list_keys
list_keys_lem names d params h =
    let unique = gather params.recursive d names [] in
    (
      sort_keys unique,
      (
        rw (collect-gather params.recursive d names [] h, list_keys) refl,
        sort_keys-Increasing unique (gather-Distinct params.recursive d names [] tt),
        λ k.
            contains-sort_keys k unique
            ∙ (contains-gather params.recursive d k names []
                ∙ rw contains_nil (or-false (any (lists_entry params.recursive d k) names))),
      ),
    )

any_of_contains :
    (p : Str → Bool) (k : Str) (names : List Str)
    → contains k names ≡ true
    → p k ≡ true
    → any p names ≡ true
unfolding contains
any_of_contains p k [] h q = cc
any_of_contains p k (j ∷ names) h q = ground (arith, str_eq_iff j k, any_of_contains p k names)

contains_of_any :
    (p : Str → Bool) (names : List Str)
    → any p names ≡ true
    → (k : Str) × (contains k names ≡ true) × (p k ≡ true)
contains_of_any p [] h = cc
contains_of_any p (j ∷ names) h = elim (Bool-cases (p j)) [
  | inl e ↦ (j, contains_head j names, e)
  | inr e ↦ let (k, c, q) = contains_of_any p names (rw e at h) in (k, contains_cons k j names c, q)
]

any_same :
    (p : Str → Bool) (names names' : List Str)
    → ((k : Str) → contains k names ≡ contains k names')
    → any p names ≡ true
    → any p names' ≡ true
any_same p names names' same h =
    let (k, c, q) = contains_of_any p names h in any_of_contains p k names' (sym (same k) ∙ c) q

any_eq :
    (p : Str → Str → Bool) (names names' : List Str)
    → ((k : Str) → contains k names ≡ contains k names')
    → (k : Str) → any (p k) names ≡ any (p k) names'
any_eq p names names' same k =
    let to = any_same (p k) names names' same in
    let back = any_same (p k) names' names (λ j. sym (same j)) in bool_iff _ _ to back

-- For a recursive listing, and for a listing of a directory name (the empty string or one that ends
-- with the delimiter), the order in which Go visits the map of objects, and how often it meets a
-- name, do not matter: two lists of the same names give the same keys in the same order.
pub list_keys_order :
    (names names' : List Str) (d : Str) (params : IterParams)
    → (params.recursive || is_dir_name d) ≡ true
    → ((k : Str) → contains k names ≡ contains k names')
    → list_keys names d params ≡ list_keys names' d params
list_keys_order names names' d params h same =
    let (ks, (e, s, c)) = list_keys_lem names d params h in
    let (ks', (e', s', c')) = list_keys_lem names' d params h in
    let p = any_eq (λ k. lists_entry params.recursive d k) names names' same in
    e ∙ (ap returns (Increasing-same ks ks' s s' (λ k. c k ∙ (p k ∙ sym (c' k)))) ∙ sym e')
