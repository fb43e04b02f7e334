-- ===== src/Files/Writes.antt =====
-- The objects behind os.Create, os.RemoveAll and os.Stat of package os.
use objstore.Prelude.{
  ◌≡◌, refl, sym, ◌≢◌, Bool, true, ◌&&◌, Option, none, some, [], ◌∷◌, arith, if◌then◌else◌,
  Bool-cases, Option-cases, inl, inr, ◌∙◌, ap, subst,
}
use objstore.Text.{Str, str_eq}
use objstore.Text.Laws.{str_eq_iff}
use objstore.Errors.{not_exist}
use objstore.Files.{
  Node, file, dir, Entries, no_entries, FilePath, ok, fails, find, set, unset, write_file,
  remove_all, within, not_dir, is_dir, paths_eq,
}
use objstore.Files.Laws.{
  at, at_node, at-cons, at_no_entries, at_nil, at-set, is_under, find-unset, within_ok,
  ok_injective,
}

-- What changes under one name changes at the paths that go through it.
change_below :
    (t : FilePath → Bool) (o : Option Str) (c : Str) (es sub sub' : Entries)
    → find c es ≡ some (dir sub)
    → ((q : FilePath) → at q sub' ≡ (if t q then o else at q sub))
    → (d : Str) (q : FilePath)
    → at (d ∷ q) (set c (dir sub') es) ≡ (if str_eq c d && t q then o else at (d ∷ q) es)
change_below t o c es sub sub' e same d q = elim (Bool-cases (str_eq c d)) [
  | inr x ↦ rw (at-set c d q (dir sub') es, x) refl
  | inl x ↦
      let k : d ≡ c = sym ((str_eq_iff c d).0 x) in
      let below : at (d ∷ q) es ≡ at q sub =
        at-cons d q es ∙ (ap (λ n. at_node q (find n es)) k ∙ ap (at_node q) e) in
      rw (at-set c d q (dir sub') es, x, below) (same q)
]

create_file :
    (c : Str) (body : Str) (es : Entries)
    → ((d : Str) (p : FilePath) → at_node (d ∷ p) (find c es) ≡ none)
    → (q : FilePath)
    → at q (set c (file body) es) ≡ (if paths_eq (c ∷ []) q then some body else at q es)
unfolding paths_eq
create_file c body es h [] = at_nil (set c (file body) es) ∙ sym (at_nil es)
create_file c body es h (d ∷ []) = elim (Bool-cases (str_eq c d)) [
  | inr x ↦ rw (at-set c d [] (file body) es, x) refl
  | inl x ↦ rw (at-set c d [] (file body) es, x) refl
]
create_file c body es h (d ∷ k ∷ q) = elim (Bool-cases (str_eq c d)) [
  | inr x ↦ rw (at-set c d (k ∷ q) (file body) es, x) refl
  | inl x ↦
      let e : d ≡ c = sym ((str_eq_iff c d).0 x) in
      let none_below : at (d ∷ k ∷ q) es ≡ none =
        at-cons d (k ∷ q) es ∙ (ap (λ n. at_node (k ∷ q) (find n es)) e ∙ h k q) in
      rw (at-set c d (k ∷ q) (file body) es, x, none_below) refl
]

-- The steps of os.Create.
create_new :
    (c : Str) (body : Str) (es : Entries)
    → find c es ≡ none
    → write_file (c ∷ []) body es ≡ ok (set c (file body) es)
unfolding write_file
create_new c body es h = rw (h, write_file) refl

create_over :
    (c : Str) (body old : Str) (es : Entries)
    → find c es ≡ some (file old)
    → write_file (c ∷ []) body es ≡ ok (set c (file body) es)
unfolding write_file
create_over c body old es h = rw (h, write_file) refl

create_dir :
    (c : Str) (body : Str) (es sub : Entries)
    → find c es ≡ some (dir sub)
    → write_file (c ∷ []) body es ≡ fails is_dir
unfolding write_file
create_dir c body es sub h = rw (h, write_file) refl

create_below :
    (c d : Str) (p : FilePath) (body : Str) (es sub : Entries)
    → find c es ≡ some (dir sub)
    → write_file (c ∷ d ∷ p) body es ≡ within c es (write_file (d ∷ p) body sub)
unfolding write_file
create_below c d p body es sub h = rw (h, write_file) refl

create_nowhere :
    (c d : Str) (p : FilePath) (body : Str) (es : Entries)
    → find c es ≡ none
    → write_file (c ∷ d ∷ p) body es ≡ fails not_exist
unfolding write_file
create_nowhere c d p body es h = rw (h, write_file) refl

create_in_file :
    (c d : Str) (p : FilePath) (body old : Str) (es : Entries)
    → find c es ≡ some (file old)
    → write_file (c ∷ d ∷ p) body es ≡ fails not_dir
unfolding write_file
create_in_file c d p body old es h = rw (h, write_file) refl

create_root : (body : Str) (es : Entries) → write_file [] body es ≡ fails is_dir
unfolding write_file
create_root body es = refl

no_file_below :
    (o : Option Node) (d : Str) (q : FilePath)
    → ((sub : Entries) → o ≢ some (dir sub))
    → at_node (d ∷ q) o ≡ none
no_file_below none d q h = refl
no_file_below (some (file body)) d q h = refl
no_file_below (some (dir sub)) d q h = absurd (h sub refl)

-- Creating a file leaves the bytes at its path and every other object as it was.
pub write_file_lem :
    (p : FilePath) (body : Str) (es es' : Entries)
    → write_file p body es ≡ ok es'
    → (q : FilePath) → at q es' ≡ (if paths_eq p q then some body else at q es)
unfolding paths_eq
write_file_lem [] body es es' h q = cc (create_root body es, h)
write_file_lem (c ∷ []) body es es' h q = elim (Option-cases (find c es)) [
  | inl e ↦
      let k = ok_injective (sym (create_new c body es e) ∙ h) in
      subst (λ t. at q t ≡ (if paths_eq (c ∷ []) q then some body else at q es)) k
        (create_file c body es (λ d p. ap (at_node (d ∷ p)) e) q)
  | inr (file old, e) ↦
      let k = ok_injective (sym (create_over c body old es e) ∙ h) in
      subst (λ t. at q t ≡ (if paths_eq (c ∷ []) q then some body else at q es)) k
        (create_file c body es (λ d p. ap (at_node (d ∷ p)) e) q)
  | inr (dir sub, e) ↦ cc (create_dir c body es sub e, h)
]
write_file_lem (c ∷ d ∷ p) body es es' h [] = at_nil es' ∙ sym (at_nil es)
write_file_lem (c ∷ d ∷ p) body es es' h (k ∷ q) = elim (Option-cases (find c es)) [
  | inl e ↦ cc (create_nowhere c d p body es e, h)
  | inr (file old, e) ↦ cc (create_in_file c d p body old es e, h)
  | inr (dir sub, e) ↦
      let (sub', r, same) =
        within_ok c es es' (write_file (d ∷ p) body sub)
          (sym (create_below c d p body es sub e) ∙ h) in
      subst
        (λ t.
          at (k ∷ q) t ≡ (if str_eq c k && paths_eq (d ∷ p) q then some body else at (k ∷ q) es))
        same
        (change_below (paths_eq (d ∷ p)) (some body) c es sub sub' e
          (write_file_lem (d ∷ p) body sub sub' r) k q)
]

-- The steps of os.RemoveAll.
pub remove_nowhere :
    (c d : Str) (p : FilePath) (es : Entries)
    → find c es ≡ none
    → remove_all (c ∷ d ∷ p) es ≡ (es, none)
unfolding remove_all
remove_nowhere c d p es h = rw (h, remove_all) refl

pub remove_in_file :
    (c d : Str) (p : FilePath) (es : Entries) (old : Str)
    → find c es ≡ some (file old)
    → remove_all (c ∷ d ∷ p) es ≡ (es, some not_dir)
unfolding remove_all
remove_in_file c d p es old h = rw (h, remove_all) refl

pub remove_below :
    (c d : Str) (p : FilePath) (es sub : Entries)
    → find c es ≡ some (dir sub)
    → remove_all (c ∷ d ∷ p) es
      ≡ (set c (dir (remove_all (d ∷ p) sub).0) es, (remove_all (d ∷ p) sub).1)
unfolding remove_all
remove_below c d p es sub h = rw (h, remove_all) refl

remove_root : (es : Entries) → (remove_all [] es).0 ≡ no_entries
unfolding remove_all
remove_root es = refl

pub remove_one : (c : Str) (es : Entries) → remove_all (c ∷ []) es ≡ (unset c es, none)
unfolding remove_all
remove_one c es = refl

-- Nothing is removed where there is nothing.
unchanged :
    (c d : Str) (p : FilePath) (es : Entries)
    → ((d : Str) (q : FilePath) → at_node (d ∷ q) (find c es) ≡ none)
    → (q : FilePath) → at q es ≡ (if is_under (c ∷ d ∷ p) q then none else at q es)
unfolding is_under
unchanged c d p es h [] = refl
unchanged c d p es h (k ∷ []) = ground arith
unchanged c d p es h (k ∷ l ∷ q) = elim (Bool-cases (str_eq c k)) [
  | inr x ↦ rw x refl
  | inl x ↦
      let e : k ≡ c = sym ((str_eq_iff c k).0 x) in
      let none_below : at (k ∷ l ∷ q) es ≡ none =
        at-cons k (l ∷ q) es ∙ (ap (λ n. at_node (l ∷ q) (find n es)) e ∙ h l q) in
      rw none_below (ground arith)
]

at-unset :
    (c d : Str) (q : FilePath) (es : Entries)
    → at (d ∷ q) (unset c es) ≡ (if str_eq c d && true then none else at (d ∷ q) es)
at-unset c d q es = elim (Bool-cases (str_eq c d)) [
  | inr x ↦ rw (at-cons d q (unset c es), find-unset c d es, x) (sym (at-cons d q es))
  | inl x ↦ rw (at-cons d q (unset c es), find-unset c d es, x) refl
]

-- RemoveAll removes the object at the path and those below it, and no other.
pub remove_all_lem :
    (p : FilePath) (es : Entries) (q : FilePath)
    → at q (remove_all p es).0 ≡ (if is_under p q then none else at q es)
unfolding is_under
remove_all_lem [] es q = rw (remove_root es) (at_no_entries q)
remove_all_lem (c ∷ []) es [] = rw (remove_one c es) (at_nil (unset c es) ∙ sym (at_nil es))
remove_all_lem (c ∷ []) es (k ∷ q) = rw (remove_one c es) (at-unset c k q es)
remove_all_lem (c ∷ d ∷ p) es [] = at_nil (remove_all (c ∷ d ∷ p) es).0 ∙ sym (at_nil es)
remove_all_lem (c ∷ d ∷ p) es (k ∷ q) = elim (Option-cases (find c es)) [
  | inl e ↦
      rw (remove_nowhere c d p es e) (unchanged c d p es (λ d q. ap (at_node (d ∷ q)) e) (k ∷ q))
  | inr (file old, e) ↦
      rw (remove_in_file c d p es old e)
        (unchanged c d p es (λ d q. ap (at_node (d ∷ q)) e) (k ∷ q))
  | inr (dir sub, e) ↦ rw (remove_below c d p es sub e) (
      change_below (is_under (d ∷ p)) none c es sub (remove_all (d ∷ p) sub).0 e
        (remove_all_lem (d ∷ p) sub) k q)
]
