-- ===== src/Prefixed/Keys.antt =====
-- Sets of keys and their order under a common prefix.
use objstore.Prelude.{◌≡◌, ◌≢◌, refl, List, [], ◌∷◌, ◌++◌, map, arith, Bool-cases, inl, inr}
use objstore.Text.{Str, dir_delim, has_suffix}
use objstore.Text.Laws.{str_eq_append, has_suffix-append}
use objstore.Text.Order.{str_less-append}
use objstore.Inmem.Iter.{contains, add_unique, key_less, insert_key, sort_keys}

-- a key of the view, as the bucket below names it
abbrev pub prefixed : Str → List Str → List Str
prefixed q = map (λ k. q ++ k)

contains-prefixed : (q k : Str) (ks : List Str) → contains (q ++ k) (prefixed q ks) ≡ contains k ks
unfolding contains
contains-prefixed q k [] = refl
contains-prefixed q k (j ∷ ks) = rw (str_eq_append q j k, contains-prefixed q k ks)

pub add_unique-prefixed :
    (q k : Str) (ks : List Str) → add_unique (q ++ k) (prefixed q ks) ≡ prefixed q (add_unique k ks)
unfolding add_unique
add_unique-prefixed q k ks = ground (arith, contains-prefixed q k ks)

-- No key is empty.
abbrev pub NoEmpty : List Str → Type 0
NoEmpty [] = Unit
NoEmpty (k ∷ ks) = (k ≢ []) × NoEmpty ks

pub add_unique-NoEmpty : (k : Str) (ks : List Str) → k ≢ [] → NoEmpty ks → NoEmpty (add_unique k ks)
unfolding add_unique
add_unique-NoEmpty k ks h n = elim (Bool-cases (contains k ks)) [
  | inl e ↦ rw (e, add_unique) n
  | inr e ↦ rw (e, add_unique) (h, n)
]

has_suffix-prefixed : (q k : Str) → k ≢ [] → has_suffix (q ++ k) dir_delim ≡ has_suffix k dir_delim
has_suffix-prefixed q [] h = absurd (h refl)
has_suffix-prefixed q (a ∷ k) h = has_suffix-append q a k

key_less-prefixed : (q j k : Str) → j ≢ [] → k ≢ [] → key_less (q ++ j) (q ++ k) ≡ key_less j k
unfolding key_less
key_less-prefixed q j k h g =
    rw (has_suffix-prefixed q j h, has_suffix-prefixed q k g, str_less-append q j k)

insert_key-prefixed :
    (q k : Str) (ks : List Str)
    → k ≢ []
    → NoEmpty ks
    → insert_key (q ++ k) (prefixed q ks) ≡ prefixed q (insert_key k ks)
unfolding insert_key
insert_key-prefixed q k [] h n = refl
insert_key-prefixed q k (j ∷ ks) h (g, n) =
    ground (arith, key_less-prefixed q j k g h, insert_key-prefixed q k ks h n)

insert_key-NoEmpty : (k : Str) (ks : List Str) → k ≢ [] → NoEmpty ks → NoEmpty (insert_key k ks)
unfolding insert_key
insert_key-NoEmpty k [] h n = (h, tt)
insert_key-NoEmpty k (j ∷ ks) h (g, n) = elim (Bool-cases (key_less j k)) [
  | inl e ↦ rw (e, insert_key) (g, insert_key-NoEmpty k ks h n)
  | inr e ↦ rw (e, insert_key) (h, (g, n))
]

sort_keys-NoEmpty : (ks : List Str) → NoEmpty ks → NoEmpty (sort_keys ks)
unfolding sort_keys
sort_keys-NoEmpty [] n = tt
sort_keys-NoEmpty (k ∷ ks) (h, n) = insert_key-NoEmpty k (sort_keys ks) h (sort_keys-NoEmpty ks n)

pub sort_keys-prefixed :
    (q : Str) (ks : List Str) → NoEmpty ks → sort_keys (prefixed q ks) ≡ prefixed q (sort_keys ks)
unfolding sort_keys
sort_keys-prefixed q [] n = refl
sort_keys-prefixed q (k ∷ ks) (h, n) =
    rw (sort_keys-prefixed q ks n)
      (insert_key-prefixed q k (sort_keys ks) h (sort_keys-NoEmpty ks n))
