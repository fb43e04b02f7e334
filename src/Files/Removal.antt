-- ===== src/Files/Removal.antt =====
-- os.RemoveAll and os.Remove of a path that is there.
use objstore.Prelude.{
  ◌≡◌, refl, sym, true, false, none, some, [], ◌∷◌, ◌++◌, inl, inr, ◌∙◌, ap, Option-cases,
  Bool-cases, arith, if◌then◌else◌,
}
use objstore.Text.{Str}
use objstore.Text.Laws.{str_eq_refl}
use objstore.Files.{
  Node, file, dir, Entries, FilePath, ok, find, set, stat, remove, removable, remove_all, paths_eq,
}
use objstore.Files.Paths.{parent}
use objstore.Files.Laws.{at, is_under, find-set}
use objstore.Files.Stats.{
  stat_node, stat_root, stat-cons, stat_lem, at_below, at_result, is_under_rest,
}
use objstore.Files.Writes.{remove_one, remove_below, remove_all_lem}

find-set_same : (c : Str) (n : Node) (es : Entries) → find c (set c n es) ≡ some n
find-set_same c n es = rw (find-set c c n es, str_eq_refl c) refl

parent_one : (c : Str) → parent (c ∷ []) ≡ []
unfolding parent
parent_one c = refl

parent_more : (c d : Str) (p : FilePath) → parent (c ∷ d ∷ p) ≡ c ∷ parent (d ∷ p)
unfolding parent
parent_more c d p = refl

-- RemoveAll of a path that is there succeeds and leaves the directory that it was in.
pub remove_all_found :
    (c : Str) (p : FilePath) (es : Entries) (n : Node)
    → stat (c ∷ p) es ≡ ok n
    → ((remove_all (c ∷ p) es).1 ≡ none)
      × (sub : Entries) × (stat (parent (c ∷ p)) (remove_all (c ∷ p) es).0 ≡ ok (dir sub))
remove_all_found c [] es n h =
    let k : parent (c ∷ []) ≡ [] = parent_one c in rw (remove_one c es, k) (refl, _, stat_root _)
remove_all_found c (d ∷ p) es n h = elim (Option-cases (find c es)) [
  | inl e ↦ cc (stat-cons c (d ∷ p) es, ap (stat_node (d ∷ p)) e, h)
  | inr (file old, e) ↦ cc (stat-cons c (d ∷ p) es, ap (stat_node (d ∷ p)) e, h)
  | inr (dir sub, e) ↦
      let below : stat (d ∷ p) sub ≡ ok n =
        sym (stat-cons c (d ∷ p) es ∙ ap (stat_node (d ∷ p)) e) ∙ h in
      let (gone, sub', k) = remove_all_found d p sub n below in
      let left = set c (dir (remove_all (d ∷ p) sub).0) es in
      let there : stat (c ∷ parent (d ∷ p)) left ≡ ok (dir sub') =
        stat-cons c (parent (d ∷ p)) left
        ∙ (ap (stat_node (parent (d ∷ p))) (find-set_same c (dir (remove_all (d ∷ p) sub).0) es)
            ∙ k) in
      rw (remove_below c d p es sub e, parent_more c d p) (gone, sub', there)
]

remove_step :
    (p : FilePath) (es : Entries) → removable (stat p es) ≡ none → remove p es ≡ remove_all p es
unfolding remove
remove_step p es h = rw (h, remove) refl

paths_eq_under : (p q : FilePath) → paths_eq p q ≡ true → is_under p q ≡ true
unfolding paths_eq is_under
paths_eq_under [] q h = refl
paths_eq_under (c ∷ p) [] h = cc
paths_eq_under (c ∷ p) (d ∷ q) h =
    let h' : paths_eq p q ≡ true = ground (arith, h) in ground (arith, h, paths_eq_under p q h')

paths_eq_rest : (p : FilePath) → paths_eq p (p ++ []) ≡ true
unfolding paths_eq
paths_eq_rest [] = refl
paths_eq_rest (c ∷ p) = rw (str_eq_refl c, paths_eq_rest p) refl

-- There is nothing strictly below a file.
below_file :
    (p q r : FilePath) (es : Entries) (body : Str)
    → stat p es ≡ ok (file body)
    → paths_eq p q ≡ false
    → q ≡ p ++ r
    → at q es ≡ none
below_file p q [] es body s n e = cc (n, ap (paths_eq p) e, paths_eq_rest p)
below_file p q (d ∷ r) es body s n e =
    ap (λ t. at t es) e ∙ (at_below p (d ∷ r) es ∙ ap (at_result (d ∷ r)) s)

-- Remove of a file removes that object, and no other.
pub remove_lem :
    (p q : FilePath) (es : Entries) (body : Str)
    → at p es ≡ some body
    → at q (remove p es).0 ≡ (if paths_eq p q then none else at q es)
remove_lem p q es body h =
    let s = stat_lem p es body h in
    let gone : (remove p es).0 ≡ (remove_all p es).0 =
      ap (λ x. x.0) (remove_step p es (ap removable s)) in
    ap (at q) gone
    ∙ (remove_all_lem p es q ∙ elim (Bool-cases (paths_eq p q)) [
      | inl x ↦ rw (x, paths_eq_under p q x) refl
      | inr x ↦ elim (Bool-cases (is_under p q)) [
        | inr y ↦ rw (x, y) refl
        | inl y ↦
            let (r, e) = is_under_rest p q y in rw (x, y) (sym (below_file p q r es body s x e))
      ]
    ])
