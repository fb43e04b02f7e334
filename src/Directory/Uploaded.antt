-- ===== src/Directory/Uploaded.antt =====
-- What UploadDir uploads.
use objstore.Prelude.{◌≡◌, refl, sym, Option, none, some, List, [], ◌∷◌, ◌++◌, map, ◌∙◌, ap, subst}
use mathlib.Core.List.{Memᴰ, append-nil, append_assoc}
use mathlib.Core.List.Memᴰ
use objstore.Prelude.Int.{ℤ}
use objstore.Text.{Str}
use objstore.Errors.{Error}
use objstore.Go.{Outcome, returns, returns_injective, panics, Ctx, pure, ◌>>=◌}
use objstore.Reader.{Reader, read_all}
use objstore.Bucket.{Bucket}
use objstore.Options.{UploadOption, apply_upload_options}
use objstore.Files.{Node, file, dir, Entries, FilePath, Result, ok, fails, stat}
use objstore.Files.Paths.{join_path}
use objstore.Files.Laws.{at}
use objstore.Files.Stats.{at_result, at_below, stat_lem}
use objstore.Filesystem.{Disk}
use objstore.Directory.Group.{run_group, group_step, group_end, limited_runs}
use objstore.Directory.Upload.{
  rel_string, file_reader, uploaded, upload_opened, upload_file, upload_task, upload_found,
  dir_task, upload_dir, walk,
}
use objstore.Directory.Walk.{walk_lem}

abbrev pub bytes_of : Result Node → Str
bytes_of (ok (file body)) = body
bytes_of (ok (dir es)) = []
bytes_of (fails e) = []

module _ {W R : Type 0} (disk : Disk W) (bkt : Bucket W R) (kept : W → List (Str × Str)) where
  -- A bucket that keeps what is uploaded, and leaves the local files alone.
  abbrev pub Keeps : Type 0
  Keeps =
      (ctx : Ctx W) (name : Str) (r : Reader) (w w' : W)
      → bkt.upload ctx name r w ≡ returns (none, w')
      → (kept w' ≡ kept w ++ (name, (read_all r).0) ∷ []) × (disk.read w' ≡ disk.read w)

  opened_inv :
      (o : Outcome (Option Error × W)) (w w' : W)
      → ((λ _. o) >>= λ e. pure (uploaded disk bkt e)) w ≡ returns (none, w')
      → o ≡ returns (none, w')
  opened_inv panics w w' h = cc
  opened_inv (returns (none, v)) w w' h = h
  opened_inv (returns (some e, v)) w w' h = cc

  -- the object that a file's function uploads
  abbrev pub object_of : FilePath → Str → Entries → FilePath → Str × Str
  object_of srcdir dstdir es rel =
      (join_path dstdir (rel_string rel), bytes_of (stat (srcdir ++ rel) es))

  reader_bytes : (n : Node) → (read_all (file_reader disk bkt n)).0 ≡ bytes_of (ok n)
  unfolding read_all
  reader_bytes (file body) = refl
  reader_bytes (dir es) = refl

  upload_one :
      (ctx : Ctx W) (dst : Str) (n : Result Node) (w w' : W)
      → Keeps
      → upload_opened disk bkt ctx dst n w ≡ returns (none, w')
      → (kept w' ≡ kept w ++ (dst, bytes_of n) ∷ []) × (disk.read w' ≡ disk.read w)
  upload_one ctx dst (fails e) w w' keeps h = cc
  upload_one ctx dst (ok n) w w' keeps h =
      let (k, same) =
        keeps ctx dst (file_reader disk bkt n) w w'
          (opened_inv (bkt.upload ctx dst (file_reader disk bkt n) w) w w' h) in
      (k ∙ ap (λ s. kept w ++ (dst, s) ∷ []) (reader_bytes n), same)

  task_keeps :
      (ctx : Ctx W) (srcdir rel : FilePath) (dstdir : Str) (w w' : W)
      → Keeps
      → upload_task disk bkt srcdir dstdir rel ctx w ≡ returns (none, w')
      → (kept w' ≡ kept w ++ object_of srcdir dstdir (disk.read w) rel ∷ [])
        × (disk.read w' ≡ disk.read w)
  unfolding upload_file
  task_keeps ctx srcdir rel dstdir w w' keeps h =
      upload_one ctx (join_path dstdir (rel_string rel)) (stat (srcdir ++ rel) (disk.read w)) w w'
        keeps h

  tasks_keep :
      (ctx : Ctx W) (srcdir : FilePath) (dstdir : Str) (rels : List FilePath) (w w' : W)
      → Keeps
      → run_group ctx (map (upload_task disk bkt srcdir dstdir) rels) none w ≡ returns (none, w')
      → kept w' ≡ kept w ++ map (object_of srcdir dstdir (disk.read w)) rels
  tasks_keep ctx srcdir dstdir [] w w' keeps h =
      ap kept (sym (group_end ctx w w' h)) ∙ sym (append-nil (kept w))
  tasks_keep ctx srcdir dstdir (rel ∷ rels) w w' keeps h =
      let (w1, first, rest) =
        group_step ctx (upload_task disk bkt srcdir dstdir rel)
          (map (upload_task disk bkt srcdir dstdir) rels) w w' h in
      let (k, same) = task_keeps ctx srcdir rel dstdir w w1 keeps first in
      let below = tasks_keep ctx srcdir dstdir rels w1 w' keeps rest in
      let objects = λ (es : Entries). map (object_of srcdir dstdir es) rels in
      below
      ∙ (ap (λ l. l ++ objects (disk.read w1)) k
          ∙ (append_assoc (kept w) (object_of srcdir dstdir (disk.read w) rel ∷ [])
                (objects (disk.read w1))
              ∙ ap (λ es. kept w ++ object_of srcdir dstdir (disk.read w) rel ∷ objects es) same))

  found_inv :
      (limit : ℤ) (order : List FilePath → List FilePath) (ctx : Ctx W) (srcdir : FilePath)
      (dstdir : Str) (n : Result Node) (w w' : W)
      → Keeps
      → upload_found disk bkt limit order ctx srcdir dstdir n w ≡ returns (none, w')
      → (es : Entries) × (n ≡ ok (dir es))
        × (kept w' ≡ kept w ++ map (object_of srcdir dstdir (disk.read w)) (order (walk (dir es))))
  found_inv limit order ctx srcdir dstdir (fails e) w w' keeps h = cc
  found_inv limit order ctx srcdir dstdir (ok (file body)) w w' keeps h = cc
  found_inv limit order ctx srcdir dstdir (ok (dir es)) w w' keeps h =
      let tasks = map (upload_task disk bkt srcdir dstdir) (order (walk (dir es))) in
      let (w1, first, rest) =
        group_step ctx (dir_task disk bkt) tasks w w'
          (limited_runs ctx limit (dir_task disk bkt) tasks w w' h) in
      let same : w1 ≡ w = sym (ap (λ x. x.1) (returns_injective first)) in
      (
        es,
        refl,
        tasks_keep ctx srcdir dstdir (order (walk (dir es))) w w' keeps
            (ap (run_group ctx tasks none) (sym same) ∙ rest),
      )

  -- An UploadDir that succeeds has met a directory, and every file below it has been uploaded, with
  -- its content, under the name that its path from the directory on gives; if the bucket keeps what
  -- is uploaded and leaves the local files alone, and the group runs a function for each file.
  pub upload_dir-Keeps :
      (order : List FilePath → List FilePath) (ctx : Ctx W) (srcdir : FilePath) (dstdir : Str)
      (options : List UploadOption) (w w' : W)
      → Keeps
      → ((p : FilePath) (ps : List FilePath) → Memᴰ p ps → Memᴰ p (order ps))
      → upload_dir disk bkt order ctx srcdir dstdir options w ≡ returns (none, w')
      → (es : Entries) × (stat srcdir (disk.read w) ≡ ok (dir es))
        × ((p : FilePath) (body : Str)
            → at (srcdir ++ p) (disk.read w) ≡ some body
            → Memᴰ (join_path dstdir (rel_string p), body) (kept w'))
  unfolding upload_dir
  upload_dir-Keeps order ctx srcdir dstdir options w w' keeps all h =
      let root = disk.read w in
      let (es, e, k) =
        found_inv (apply_upload_options options).concurrency order ctx srcdir dstdir
          (stat srcdir root) w w' keeps h in
      (
        es,
        e,
        λ p body b.
            let there : at_result p (ok (dir es)) ≡ some body =
              ap (at_result p) (sym e) ∙ (sym (at_below srcdir p root) ∙ b) in
            let listed = all p (walk (dir es)) (walk_lem p (dir es) body there) in
            let same : object_of srcdir dstdir root p ≡ (join_path dstdir (rel_string p), body) =
              ap (λ n. (join_path dstdir (rel_string p), bytes_of n))
                (stat_lem (srcdir ++ p) root body b) in
            subst (λ l. Memᴰ (join_path dstdir (rel_string p), body) l) (sym k)
              (Memᴰ.append_right (kept w) (
                subst (λ x. Memᴰ x (map (object_of srcdir dstdir root) (order (walk (dir es)))))
                  same (Memᴰ.map (object_of srcdir dstdir root) listed))),
      )
