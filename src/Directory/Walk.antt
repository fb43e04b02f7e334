-- ===== src/Directory/Walk.antt =====
-- The files that the walk of a directory meets.
use objstore.Prelude.{
  ◌≡◌, refl, sym, some, List, [], ◌∷◌, ◌++◌, Bool-cases, Option-cases, inl, inr, ◌⊎◌, ◌∙◌, ap,
  subst, if◌then◌else◌,
}
use mathlib.Core.List.{Memᴰ}
use mathlib.Core.List.Memᴰ
use objstore.Text.{Str, str_eq, str_less}
use objstore.Text.Laws.{str_eq_iff}
use objstore.Files.{Node, file, dir, Entries, no_entries, entry, FilePath, ok, find}
use objstore.Files.Laws.{at_node, at-cons, at_nil}
use objstore.Files.Stats.{at_result}
use objstore.Directory.Upload.{under_name, insert_walk, join_walks, walk, walk_entries}

insert_new :
    (x : FilePath) (c : Str) (ps : List FilePath) (l : List (Str × List FilePath))
    → Memᴰ x (under_name c ps)
    → Memᴰ x (join_walks (insert_walk c ps l))
unfolding join_walks insert_walk
insert_new x c ps [] m = Memᴰ.append_left [] m
insert_new x c ps ((k, qs) ∷ l) m = elim (Bool-cases (str_less k c)) [
  | inl e ↦ rw e (Memᴰ.append_right (under_name k qs) (insert_new x c ps l m))
  | inr e ↦ rw e (Memᴰ.append_left (under_name k qs ++ join_walks l) m)
]

insert_old :
    (x : FilePath) (c : Str) (ps : List FilePath) (l : List (Str × List FilePath))
    → Memᴰ x (join_walks l)
    → Memᴰ x (join_walks (insert_walk c ps l))
unfolding join_walks insert_walk
insert_old x c ps [] m = absurd (Memᴰ.not-nil m)
insert_old x c ps ((k, qs) ∷ l) m = elim (Bool-cases (str_less k c)) [
  | inr e ↦ rw e (Memᴰ.append_right (under_name c ps) m)
  | inl e ↦ rw e (elim (Memᴰ.append_cases (under_name k qs) m) [
    | inl a ↦ Memᴰ.append_left (join_walks (insert_walk c ps l)) a
    | inr b ↦ Memᴰ.append_right (under_name k qs) (insert_old x c ps l b)
  ])
]

found_step :
    (c k : Str) (m n : Node) (es : Entries)
    → find c (entry k m es) ≡ some n
    → (k ≡ c) × (m ≡ n) ⊎ (find c es ≡ some n)
unfolding find
found_step c k m n es h = elim (Bool-cases (str_eq k c)) [
  | inl x ↦
      let e : (if str_eq k c then some m else find c es) ≡ some m = rw x refl in
      inl ((str_eq_iff k c).0 x, cc (e, h))
  | inr x ↦
      let e : (if str_eq k c then some m else find c es) ≡ find c es = rw x refl in inr (sym e ∙ h)
]

walk_found :
    (c : Str) (p : FilePath) (n : Node) (es : Entries)
    → find c es ≡ some n
    → Memᴰ p (walk n)
    → Memᴰ (c ∷ p) (join_walks (walk_entries es))
unfolding find walk
walk_found c p n no_entries h m = cc
walk_found c p n (entry k e es) h m = elim (found_step c k e n es h) [
  | inl (x, y) ↦ insert_new (c ∷ p) k (walk e) (walk_entries es) (
      subst (λ d. Memᴰ (d ∷ p) (under_name k (walk e))) x
        (Memᴰ.map (λ q. k ∷ q) (subst (λ t. Memᴰ p (walk t)) (sym y) m)))
  | inr r ↦ insert_old (c ∷ p) k (walk e) (walk_entries es) (walk_found c p n es r m)
]

walk_file : (body : Str) → Memᴰ [] (walk (file body))
unfolding walk
walk_file body = Memᴰ.head refl

walk_dir : (es : Entries) → walk (dir es) ≡ join_walks (walk_entries es)
unfolding walk
walk_dir es = refl

at_node_result : (p : FilePath) (n : Node) → at_node p (some n) ≡ at_result p (ok n)
at_node_result p (dir es) = refl
at_node_result [] (file body) = refl
at_node_result (c ∷ p) (file body) = refl

-- Every file of a directory is met by its walk.
pub walk_lem :
    (p : FilePath) (n : Node) (body : Str) → at_result p (ok n) ≡ some body → Memᴰ p (walk n)
walk_lem [] (file old) body h = walk_file old
walk_lem [] (dir es) body h = cc (at_nil es, h)
walk_lem (c ∷ p) (file old) body h = cc
walk_lem (c ∷ p) (dir es) body h = elim (Option-cases (find c es)) [
  | inl e ↦ cc (at-cons c p es, ap (at_node p) e, h)
  | inr (n, e) ↦
      let below : at_result p (ok n) ≡ some body =
        sym (at_node_result p n) ∙ (sym (ap (at_node p) e) ∙ (sym (at-cons c p es) ∙ h)) in
      subst (λ l. Memᴰ (c ∷ p) l) (sym (walk_dir es))
        (walk_found c p n es e (walk_lem p n body below))
]
