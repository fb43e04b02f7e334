-- ===== src/Filesystem/Deletes.antt =====
-- Delete of providers/filesystem/filesystem.go: its rounds and the objects that it leaves.
use objstore.Prelude.{
  ℕ, zero, suc, ◌≡◌, refl, sym, ◌<◌, Bool, true, false, ◌&&◌, not, Option, none, some, [], ◌∷◌,
  arith, length, if◌then◌else◌, Bool-cases, inl, inr, ◌⊎◌, ◌∙◌, ap,
}
use objstore.Text.{Str}
use objstore.Text.Laws.{str_eq_iff}
use objstore.Errors.{Error, wrapped}
use objstore.Go.{returns, returns_injective, Ctx}
use objstore.Files.{
  Node, file, dir, Entries, no_entries, entry, FilePath, Result, ok, fails, stat, remove_all,
  paths_eq, is_not_exist,
}
use objstore.Files.Paths.{parent, join_abs}
use objstore.Files.Laws.{at, at_no_entries, is_under, Result-cases}
use objstore.Files.Writes.{remove_all_lem}
use objstore.Files.Removal.{remove_all_found}
use objstore.Files.Stats.{at_result, under_result, stat_lem}
use objstore.Filesystem.{
  Disk, FilesystemBucket, is_empty_node, is_dir_empty, unless_done, removed, delete_loop, deleted,
  delete,
}

-- the directory above a path, that is not the bucket's own, is in the bucket too, and is shorter
under_parent :
    (root p : FilePath)
    → is_under root p ≡ true
    → paths_eq p root ≡ false
    → is_under root (parent p) ≡ true
unfolding is_under paths_eq parent
under_parent [] p u n = refl
under_parent (c ∷ root) [] u n = cc
under_parent (c ∷ []) (d ∷ []) u n = ground (arith, u, n, str_eq_iff c d, str_eq_iff d c)
under_parent (c ∷ k ∷ root) (d ∷ []) u n = ground (arith, u)
under_parent (c ∷ root) (d ∷ e ∷ p) u n =
    let u' : is_under root (e ∷ p) ≡ true = ground (arith, u) in
    let n' : paths_eq (e ∷ p) root ≡ false = ground (arith, u, n, str_eq_iff c d, str_eq_iff d c) in
    ground (arith, u, under_parent root (e ∷ p) u' n')

shorter : (c : Str) (p : FilePath) → length (parent (c ∷ p)) < length (c ∷ p)
unfolding parent
shorter c [] = omega arith
shorter c (d ∷ p) = omega (arith, shorter d p)

parent_shorter :
    (root p : FilePath)
    → is_under root p ≡ true
    → paths_eq p root ≡ false
    → length (parent p) < length p
unfolding is_under paths_eq
parent_shorter [] [] u n = cc
parent_shorter (k ∷ root) [] u n = cc
parent_shorter root (c ∷ p) u n = shorter c p

-- A path under a parent is under what the parent is of.
parent_under : (p q : FilePath) → is_under p q ≡ true → is_under (parent p) q ≡ true
unfolding is_under parent
parent_under [] q u = refl
parent_under (c ∷ []) q u = refl
parent_under (c ∷ d ∷ p) [] u = cc
parent_under (c ∷ d ∷ p) (k ∷ q) u =
    let u' : is_under (d ∷ p) q ≡ true = ground (arith, u) in
    ground (arith, u, parent_under (d ∷ p) q u')

under_root : (root : FilePath) → is_under root [] ≡ true → paths_eq [] root ≡ true
unfolding is_under paths_eq
under_root [] u = refl
under_root (c ∷ root) u = cc

-- isDirEmpty says yes only where there is no object.
no_objects :
    (r : FilePath) (n : Result Node)
    → (elim n as (λ _. Result Bool) [
      | fails e ↦ if is_not_exist e then ok true else fails e
      | ok m ↦ is_empty_node m
    ])
      ≡ ok true
    → at_result r n ≡ none
no_objects r (fails e) h = refl
no_objects r (ok (file body)) h = cc
no_objects r (ok (dir no_entries)) h = at_no_entries r
no_objects r (ok (dir (entry c n es))) h = cc

empty_below :
    (p q : FilePath) (es : Entries)
    → is_dir_empty p es ≡ ok true
    → is_under p q ≡ true
    → at q es ≡ none
empty_below p q es h u =
    let (r, e) = under_result p q es u in e ∙ no_objects r (stat p es) (unfold is_dir_empty in h)

-- The objects that are left once those under `p` are gone.
abbrev pub Deleted : FilePath → FilePath → Entries → Entries → Type 0
Deleted root p es es' =
    (q : FilePath) → at q es' ≡ (if is_under p q && not (paths_eq p root) then none else at q es)

-- The rounds of the loop.
at_root :
    (n : ℕ) (root p : FilePath) (es : Entries)
    → paths_eq p root ≡ true
    → delete_loop (suc n) root p es ≡ some (es, none)
unfolding delete_loop
at_root n root p es h = rw h refl

round :
    (n : ℕ) (root p : FilePath) (es : Entries)
    → paths_eq p root ≡ false
    → delete_loop (suc n) root p es
      ≡ removed p (remove_all p es) (delete_loop n root (parent p) (remove_all p es).0)
unfolding delete_loop
round n root p es h = rw h refl

-- One round: it ends the loop with the objects under the path gone, or leaves that to the next.
round_result :
    (p : FilePath) (r : Entries × Option Error) (rest : Option (Entries × Option Error))
    → ((err : Option Error) × (removed p r rest ≡ some (r.0, err)))
      ⊎ (removed p r rest ≡ rest) × (is_dir_empty (parent p) r.0 ≡ ok true)
round_result p (es, some e) rest = inl (some (wrapped "rm" e), refl)
round_result p (es, none) rest = elim (Result-cases (is_dir_empty (parent p) es)) [
  | inr (e, h) ↦ inl (some e, rw (h, removed) refl)
  | inl (false, h) ↦ inl (none, rw (h, removed) refl)
  | inl (true, h) ↦ inr (rw (h, removed) refl, h)
]

-- Where the next round's path is empty, its objects are gone already.
deleted_before :
    (root p q : FilePath) (es : Entries)
    → is_dir_empty (parent p) es ≡ ok true
    → (b : Bool) → (if is_under (parent p) q && b then none else at q es) ≡ at q es
deleted_before root p q es h b = elim (Bool-cases (is_under (parent p) q)) [
  | inr x ↦ rw x refl
  | inl x ↦ rw (empty_below (parent p) q es h x) (ground arith)
]

-- The objects behind RemoveAll, for a path that is not the bucket's own.
removed_at :
    (root p : FilePath) (es : Entries)
    → paths_eq p root ≡ false
    → Deleted root p es (remove_all p es).0
removed_at root p es h q = rw (h, remove_all_lem p es q) (ground arith)

kept_at : (root p : FilePath) (es : Entries) → paths_eq p root ≡ true → Deleted root p es es
kept_at root p es h q = rw h (ground arith)

delete_loop_at :
    (n : ℕ) (root p : FilePath) (es : Entries)
    → is_under root p ≡ true
    → length p < n
    → (es' : Entries) × (err : Option Error) × (delete_loop n root p es ≡ some (es', err))
      × Deleted root p es es'
delete_loop_at zero root p es u f = absurd (omega (arith, f))
delete_loop_at (suc n) root p es u f = elim (Bool-cases (paths_eq p root)) [
  | inl x ↦ (es, none, at_root n root p es x, kept_at root p es x)
  | inr x ↦
      elim (round_result p (remove_all p es) (delete_loop n root (parent p) (remove_all p es).0)) [
        | inl (err, e) ↦ ((remove_all p es).0, err, round n root p es x ∙ e, removed_at root p es x)
        | inr (e, k) ↦
            let es1 = (remove_all p es).0 in
            let shorter : length (parent p) < n = omega (arith, parent_shorter root p u x, f) in
            let (es', err, r, same) =
              delete_loop_at n root (parent p) es1 (under_parent root p u x) shorter in
            (
              es',
              err,
              round n root p es x ∙ (e ∙ r),
              λ q.
                  same q
                  ∙ (deleted_before root p q es1 k (not (paths_eq (parent p) root))
                      ∙ removed_at root p es x q),
            )
      ]
]

-- One round on a path that is there.
round_found :
    (p : FilePath) (r : Entries × Option Error) (rest : Option (Entries × Option Error))
    (sub : Entries)
    → r.1 ≡ none
    → stat (parent p) r.0 ≡ ok (dir sub)
    → (removed p r rest ≡ some (r.0, none)) ⊎ (removed p r rest ≡ rest)
unfolding is_dir_empty
round_found p (es, some e) rest sub h k = cc
round_found p (es, none) rest no_entries h k = inr (rw (k, removed, is_dir_empty) refl)
round_found p (es, none) rest (entry c n sub) h k = inl (rw (k, removed, is_dir_empty) refl)

delete_loop_found :
    (n : ℕ) (root p : FilePath) (es : Entries) (m : Node)
    → is_under root p ≡ true
    → length p < n
    → stat p es ≡ ok m
    → (es' : Entries) × (delete_loop n root p es ≡ some (es', none))
delete_loop_found zero root p es m u f h = absurd (omega (arith, f))
delete_loop_found (suc n) root [] es m u f h = (es, at_root n root [] es (under_root root u))
delete_loop_found (suc n) root (c ∷ p) es m u f h = elim (Bool-cases (paths_eq (c ∷ p) root)) [
  | inl x ↦ (es, at_root n root (c ∷ p) es x)
  | inr x ↦
      let (gone, sub, k) = remove_all_found c p es m h in
      let left = (remove_all (c ∷ p) es).0 in
      let (es', rest) =
        delete_loop_found n root (parent (c ∷ p)) left (dir sub) (under_parent root (c ∷ p) u x)
          (omega (arith, parent_shorter root (c ∷ p) u x, f)) k in
      elim (round_found (c ∷ p) (remove_all (c ∷ p) es) (delete_loop n root (parent (c ∷ p)) left)
        sub gone k) [
          | inl e ↦ (left, round n root (c ∷ p) es x ∙ e)
          | inr e ↦ (es', round n root (c ∷ p) es x ∙ (e ∙ rest))
        ]
]

module _ {W : Type 0} (disk : Disk W) (b : FilesystemBucket) (ctx : Ctx W) (name : Str)
    (w : W) where
  delete_returns :
      (es : Entries) (err : Option Error)
      → ctx.err w ≡ none
      → delete_loop
          (suc (length (join_abs b.root_dir name)))
          b.root_dir
          (join_abs b.root_dir name)
          (disk.read w)
        ≡ some (es, err)
      → delete disk b ctx name w ≡ returns (err, disk.write es w)
  unfolding delete
  delete_returns es err c r = rw (c, unless_done) (rw (r, deleted) refl)

  -- Under a context that is not done, and for a name whose path is the bucket's directory or below
  -- it, Delete ends, and removes the object of the name and those under it as a directory, and no
  -- other object; nothing is removed for a name of the bucket's directory itself.
  pub delete-Deleted :
      ctx.err w ≡ none
      → is_under b.root_dir (join_abs b.root_dir name) ≡ true
      → (w' : W) × (err : Option Error) × (delete disk b ctx name w ≡ returns (err, w'))
        × Deleted b.root_dir (join_abs b.root_dir name) (disk.read w) (disk.read w')
  delete-Deleted c u =
      let p = join_abs b.root_dir name in
      let (es', err, r, same) =
        delete_loop_at (suc (length p)) b.root_dir p (disk.read w) u (omega arith) in
      (
        disk.write es' w,
        err,
        delete_returns es' err c r,
        λ q. ap (at q) (disk.read_write es' w) ∙ same q,
      )

  -- Under a context that is not done, Delete of an object below the bucket's directory succeeds: it
  -- returns no error, and of the objects exactly those at the path or below it are gone, none if the
  -- path is that of the bucket's directory itself.
  pub delete_found :
      (body : Str)
      → ctx.err w ≡ none
      → is_under b.root_dir (join_abs b.root_dir name) ≡ true
      → at (join_abs b.root_dir name) (disk.read w) ≡ some body
      → (w' : W) × (delete disk b ctx name w ≡ returns (none, w'))
        × Deleted b.root_dir (join_abs b.root_dir name) (disk.read w) (disk.read w')
  delete_found body c u h =
      let p = join_abs b.root_dir name in
      let (w', err, r, same) = delete-Deleted c u in
      let (es', k) =
        delete_loop_found (suc (length p)) b.root_dir p (disk.read w) (file body) u (omega arith)
          (stat_lem p (disk.read w) body h) in
      let e : err ≡ none =
        ap (λ x. x.0) (returns_injective (sym r ∙ delete_returns es' none c k)) in
      (w', r ∙ ap (λ x. returns (x, w')) e, same)
