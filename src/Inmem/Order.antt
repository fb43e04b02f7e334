-- ===== src/Inmem/Order.antt =====
-- The comparison of Iter's sort.Slice is a strict total order, and sorting by it.
use objstore.Prelude.{
  ◌≡◌, refl, true, false, ◌||◌, List, [], ◌∷◌, arith, ap₂, Bool-cases, inl, inr, sym, ◌∙◌, subst,
}
use objstore.Text.{Str, str_eq}
use objstore.Text.Laws.{str_eq_iff, str_eq_refl}
use objstore.Text.Order.{str_less_irrefl, str_less_trans, str_less_total}
use objstore.Inmem.Iter.{contains, add_unique, key_less, insert_key, sort_keys}

pub key_less_irrefl : (a : Str) → key_less a a ≡ false
unfolding key_less
key_less_irrefl a = ground (arith, str_less_irrefl a)

pub key_less_trans : (a b c : Str) → key_less a b ≡ true → key_less b c ≡ true → key_less a c ≡ true
unfolding key_less
key_less_trans a b c h k = ground (arith, str_less_trans a b c)

pub key_less_total : (a b : Str) → key_less a b ≡ false → key_less b a ≡ false → a ≡ b
unfolding key_less
key_less_total a b h k = ground (arith, str_less_total a b)

-- every key of the list comes after `k`
abbrev pub Below : Str → List Str → Type 0
Below k [] = Unit
Below k (j ∷ ks) = (key_less k j ≡ true) × Below k ks

-- strictly increasing in the order of Iter
abbrev pub Increasing : List Str → Type 0
Increasing [] = Unit
Increasing (k ∷ ks) = Below k ks × Increasing ks

-- no key twice
abbrev pub Distinct : List Str → Type 0
Distinct [] = Unit
Distinct (k ∷ ks) = (contains k ks ≡ false) × Distinct ks

pub Below-trans : (j k : Str) (ks : List Str) → key_less j k ≡ true → Below k ks → Below j ks
Below-trans j k [] h b = tt
Below-trans j k (i ∷ ks) h (b, bs) = (key_less_trans j k i h b, Below-trans j k ks h bs)

pub contains-insert_key :
    (j k : Str) (ks : List Str) → contains j (insert_key k ks) ≡ (str_eq k j || contains j ks)
unfolding contains insert_key
contains-insert_key j k [] = refl
contains-insert_key j k (i ∷ ks) = ground (arith, contains-insert_key j k ks)

pub contains-sort_keys : (j : Str) (ks : List Str) → contains j (sort_keys ks) ≡ contains j ks
unfolding contains sort_keys
contains-sort_keys j [] = refl
contains-sort_keys j (k ∷ ks) =
    contains-insert_key j k (sort_keys ks) ∙ rw (contains-sort_keys j ks)

insert_key-Below :
    (i k : Str) (ks : List Str) → key_less i k ≡ true → Below i ks → Below i (insert_key k ks)
unfolding insert_key
insert_key-Below i k [] h b = (h, tt)
insert_key-Below i k (j ∷ ks) h (b, bs) = ground (arith, insert_key-Below i k ks h bs)

insert_key-Increasing :
    (k : Str) (ks : List Str) → contains k ks ≡ false → Increasing ks → Increasing (insert_key k ks)
unfolding insert_key contains
insert_key-Increasing k [] fresh s = (tt, tt)
insert_key-Increasing k (j ∷ ks) fresh (below, s) = elim (Bool-cases (key_less j k)) [
  | inl e ↦ rw e (insert_key-Below j k ks e below, insert_key-Increasing k ks (ground arith) s)
  | inr e ↦
      let h : key_less k j ≡ true = ground (arith, key_less_total j k, str_eq_iff j k) in
      rw e ((h, Below-trans k j ks h below), (below, s))
]

-- Sorting distinct keys gives a strictly increasing list.
pub sort_keys-Increasing : (ks : List Str) → Distinct ks → Increasing (sort_keys ks)
unfolding sort_keys
sort_keys-Increasing [] d = tt
sort_keys-Increasing (k ∷ ks) (fresh, d) =
    insert_key-Increasing k (sort_keys ks) (contains-sort_keys k ks ∙ fresh)
      (sort_keys-Increasing ks d)

Below-contains :
    (k j : Str) (ks : List Str) → Below k ks → contains j ks ≡ true → key_less k j ≡ true
unfolding contains
Below-contains k j [] b h = cc
Below-contains k j (i ∷ ks) (b, bs) h = ground (arith, str_eq_iff i j, Below-contains k j ks bs)

Below-new : (k : Str) (ks : List Str) → Below k ks → contains k ks ≡ false
Below-new k ks b = elim (Bool-cases (contains k ks)) [
  | inl e ↦ cc (Below-contains k k ks b e, key_less_irrefl k)
  | inr e ↦ e
]

-- the heads of two increasing lists with the same keys agree
heads_agree :
    (k j : Str) (ks js : List Str)
    → Below k ks
    → Below j js
    → contains k (j ∷ js) ≡ true
    → contains j (k ∷ ks) ≡ true
    → k ≡ j
unfolding contains
heads_agree k j ks js b c h g = ground (
  arith,
  str_eq_iff j k,
  str_eq_iff k j,
  Below-contains k j ks b,
  Below-contains j k js c,
  key_less_trans k j k,
  key_less_irrefl k,
)

pub contains_nil : (k : Str) → contains k [] ≡ false
unfolding contains
contains_nil k = refl

pub contains_cons : (k j : Str) (ks : List Str) → contains k ks ≡ true → contains k (j ∷ ks) ≡ true
unfolding contains
contains_cons k j ks h = ground arith

pub contains_head : (k : Str) (ks : List Str) → contains k (k ∷ ks) ≡ true
unfolding contains
contains_head k ks = rw (str_eq_refl k)

-- the tails have the same keys too
tails_same :
    (k i : Str) (ks js : List Str)
    → Below k ks
    → Below k js
    → contains i (k ∷ ks) ≡ contains i (k ∷ js)
    → contains i ks ≡ contains i js
unfolding contains
tails_same k i ks js b c same = elim (Bool-cases (str_eq k i)) [
  | inl e ↦
      let p : k ≡ i = (str_eq_iff k i).0 e in rw (← p) (Below-new k ks b ∙ sym (Below-new k js c))
  | inr e ↦ rw (e, contains) at same
]

-- An increasing list is determined by its keys.
pub Increasing-same :
    (ks js : List Str)
    → Increasing ks
    → Increasing js
    → ((i : Str) → contains i ks ≡ contains i js)
    → ks ≡ js
Increasing-same [] [] s t same = refl
Increasing-same [] (j ∷ js) s t same = cc (same j, contains_head j js, contains_nil j)
Increasing-same (k ∷ ks) [] s t same = cc (same k, contains_head k ks, contains_nil k)
Increasing-same (k ∷ ks) (j ∷ js) (b, s) (c, t) same =
    let e : j ≡ k = sym (
      heads_agree k j ks js b c (sym (same k) ∙ contains_head k ks)
        (same j ∙ contains_head j js)) in
    let c' : Below k js = subst (λ i. Below i js) e c in
    let same' : (i : Str) → contains i (k ∷ ks) ≡ contains i (k ∷ js) =
      subst (λ h. (i : Str) → contains i (k ∷ ks) ≡ contains i (h ∷ js)) e same in
    ap₂ ◌∷◌ (sym e) (Increasing-same ks js s t (λ i. tails_same k i ks js b c' (same' i)))

pub add_unique-Distinct : (k : Str) (ks : List Str) → Distinct ks → Distinct (add_unique k ks)
unfolding add_unique
add_unique-Distinct k ks d = ground arith

pub contains-add_unique :
    (j k : Str) (ks : List Str) → contains j (add_unique k ks) ≡ (str_eq k j || contains j ks)
unfolding add_unique contains
contains-add_unique j k ks = ground (arith, str_eq_iff k j)
