-- ===== src/Inmem/Iter.antt =====
-- inmem.go: InMemBucket.Iter, from the names of the bucket to the calls of the callback.
use objstore.Prelude.{
  ℕ, ◌+◌, Bool, true, false, ◌&&◌, ◌||◌, not, Option, none, some, List, [], ◌∷◌, leb, if◌then◌else◌,
  length, take,
}
use objstore.Text.{Str, dir_delim, str_eq, has_prefix, has_suffix, split_after, join, str_less}
use objstore.Text.Split.{count_nonempty}
use objstore.Errors.{Error}
use objstore.Go.{Outcome, returns, panics, Go}
use objstore.Options.{IterParams}
use objstore.Bucket.{Callback}

-- `_, ok := unique[k]` and `unique[k] = struct{}{}` for a map that is a set
unfoldable pub contains : Str → List Str → Bool
contains k [] = false
contains k (j ∷ ks) = str_eq j k || contains k ks

unfoldable pub add_unique : Str → List Str → List Str
unfolding contains
add_unique k ks = if contains k ks then ks else k ∷ ks

-- `strings.Join(parts[:n], "")`; the slice expression panics past the capacity, which SplitAfter
-- makes the number of parts
unfoldable pub join_first : List Str → ℕ → Outcome Str
join_first parts n = if leb n (length parts) then returns (join (take n parts)) else panics

-- what the loop over `b.objects` adds for one object, if anything
unfoldable pub entry_of : Bool → Str → ℕ → Str → Outcome (Option Str)
unfolding join_first
entry_of recursive dir dir_parts filename =
    if not (has_prefix filename dir) || str_eq dir filename
    then returns none
    else if recursive
    then returns (some filename)
    else elim (join_first (split_after filename) (dir_parts + 1)) [
      | returns k ↦ returns (some k)
      | panics ↦ panics
    ]

abbrev pub add_entry : Option Str → List Str → List Str
add_entry none unique = unique
add_entry (some k) unique = add_unique k unique

-- the loop over `b.objects`
unfoldable pub collect : Bool → Str → ℕ → List Str → List Str → Outcome (List Str)
unfolding entry_of
collect recursive dir dir_parts [] unique = returns unique
collect recursive dir dir_parts (filename ∷ names) unique =
    elim (entry_of recursive dir dir_parts filename) [
      | returns e ↦ collect recursive dir dir_parts names (add_entry e unique)
      | panics ↦ panics
    ]

-- the comparison of sort.Slice: objects before directories, each in byte order
unfoldable pub key_less : Str → Str → Bool
key_less a b =
    if has_suffix a dir_delim && has_suffix b dir_delim
    then str_less a b
    else if has_suffix a dir_delim
    then false
    else if has_suffix b dir_delim
    then true
    else str_less a b

-- sort.Slice; the keys differ, so every sorting algorithm gives this list
unfoldable pub insert_key : Str → List Str → List Str
unfolding key_less
insert_key k [] = k ∷ []
insert_key k (j ∷ ks) = if key_less j k then j ∷ insert_key k ks else k ∷ j ∷ ks

unfoldable pub sort_keys : List Str → List Str
unfolding insert_key
sort_keys [] = []
sort_keys (k ∷ ks) = insert_key k (sort_keys ks)

-- `if err := f(k); err != nil { return err }` and the rest of the loop
unfoldable pub unless_error :
    {W : Type 0} → Outcome (Option Error × W) → Go W (Option Error) → Outcome (Option Error × W)
unless_error panics rest = panics
unless_error (returns (some e, w)) rest = returns (some e, w)
unless_error (returns (none, w)) rest = rest w

-- the calls of `f` until one returns an error
unfoldable pub each : {W : Type 0} → Callback W → List Str → Go W (Option Error)
unfolding unless_error
each f [] w = returns (none, w)
each f (k ∷ ks) w = unless_error (f k w) (each f ks)

-- the keys that Iter lists, in the order of its calls
unfoldable pub list_keys : List Str → Str → IterParams → Outcome (List Str)
unfolding collect sort_keys
list_keys names dir params =
    let dir_parts = count_nonempty (split_after dir) in
    elim (collect params.recursive dir dir_parts names []) [
      | returns unique ↦ returns (sort_keys unique)
      | panics ↦ panics
    ]
