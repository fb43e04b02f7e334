-- ===== src/Filesystem/Uploads.antt =====
-- Upload of providers/filesystem/filesystem.go, and what the reads after it return.
use objstore.Prelude.{
  ℕ, ◌≡◌, refl, sym, Bool, true, false, Option, none, some, [], ◌∷◌, arith, length, if◌then◌else◌,
  inl, inr, ◌⊎◌, ◌∙◌, ap, subst, Option-cases, take, drop, ltb,
}
use objstore.Prelude.Int.{ℤ, pos, negsuc, eqb_ℤ}
use objstore.Text.{Str, str_eq}
use objstore.Text.Laws.{str_eq_refl}
use objstore.Errors.{Error}
use objstore.Go.{returns, returns_injective, Ctx}
use objstore.Reader.{Reader, read_all, try_to_get_size}
use objstore.Files.{
  Node, file, Entries, FilePath, Result, ok, fails, stat, mkdir_all, write_file, paths_eq,
}
use objstore.Files.Paths.{parent, join_abs}
use objstore.Files.Laws.{at, mkdir_all_lem}
use objstore.Files.Writes.{write_file_lem}
use objstore.Files.Stats.{stat_lem}
use objstore.Filesystem.{
  Disk, FilesystemBucket, unless_done, reader_from, opened, copied, created, in_parent, store,
  written, upload, get_range, get,
}

-- The objects with another one at `p`.
abbrev pub Uploaded : FilePath → Str → Entries → Entries → Type 0
Uploaded p body es es' = (q : FilePath) → at q es' ≡ (if paths_eq p q then some body else at q es)

-- What Upload leaves: the object, with the error of the reader, or the objects as they were.
abbrev pub UploadResult : FilePath → Str → Option Error → Entries → Entries × Option Error → Type 0
UploadResult p body read_err es (es', err) =
    Uploaded p body es es' × (err ≡ copied read_err)
    ⊎ ((q : FilePath) → at q es' ≡ at q es) × (e : Error) × (err ≡ some e)

pub paths_eq_refl : (p : FilePath) → paths_eq p p ≡ true
unfolding paths_eq
paths_eq_refl [] = refl
paths_eq_refl (c ∷ p) = rw (str_eq_refl c, paths_eq_refl p) refl

created_result :
    (p : FilePath) (body : Str) (read_err : Option Error) (es es' : Entries) (r : Result Entries)
    → r ≡ write_file p body es'
    → ((q : FilePath) → at q es' ≡ at q es)
    → UploadResult p body read_err es (created es' read_err r)
created_result p body read_err es es' (fails e) h same = inr (same, e, refl)
created_result p body read_err es es' (ok made) h same =
    inl (λ q. write_file_lem p body es' made (sym h) q ∙ rw (same q) refl, refl)

in_parent_result :
    (p : FilePath) (body : Str) (read_err : Option Error) (es : Entries) (r : Result Entries)
    → r ≡ mkdir_all (parent p) es
    → UploadResult p body read_err es (in_parent p (body, read_err) es r)
in_parent_result p body read_err es (fails e) h = inr (λ q. refl, e, refl)
in_parent_result p body read_err es (ok es') h =
    created_result p body read_err es es' (write_file p body es') refl
      (mkdir_all_lem (parent p) es es' (sym h))

store_result :
    (p : FilePath) (r : Reader) (es : Entries)
    → UploadResult p (read_all r).0 (read_all r).1 es (store p r es)
unfolding store
store_result p r es =
    in_parent_result p (read_all r).0 (read_all r).1 es (mkdir_all (parent p) es) refl

same_cases : {A : Type 0} {a : A} (c : Bool) → (if c then a else a) ≡ a
same_cases true = refl
same_cases false = refl

module _ {W : Type 0} (disk : Disk W) (b : FilesystemBucket) (ctx : Ctx W) (name : Str) (r : Reader)
    (w : W) where
  upload_returns :
      ctx.err w ≡ none
      → upload disk b ctx name r w
        ≡ written disk b w (store (join_abs b.root_dir name) r (disk.read w))
  unfolding upload
  upload_returns c = rw (c, unless_done) refl

  upload_live :
      ctx.err w ≡ none
      → (es' : Entries) × (err : Option Error) × (upload disk b ctx name r w
          ≡ returns (err, disk.write es' w))
        × UploadResult
            (join_abs b.root_dir name)
            (read_all r).0
            (read_all r).1
            (disk.read w)
            (es', err)
  upload_live c =
      let s = store (join_abs b.root_dir name) r (disk.read w) in
      (s.0, s.1, upload_returns c, store_result (join_abs b.root_dir name) r (disk.read w))

  upload_done : (e : Error) → ctx.err w ≡ some e → upload disk b ctx name r w ≡ returns (some e, w)
  unfolding upload
  upload_done e c = rw (c, unless_done) refl

  -- Upload returns on every input. Either the object of the name has the bytes that the reader
  -- yields, also those before an error of the reader, every other object is as it was, and the
  -- reader's error is returned; or an error is returned, as always under a context that is done, and
  -- all objects are as they were.
  pub upload_every_branch :
      (w' : W) × (err : Option Error) × (upload disk b ctx name r w ≡ returns (err, w'))
      × UploadResult
          (join_abs b.root_dir name)
          (read_all r).0
          (read_all r).1
          (disk.read w)
          (disk.read w', err)
      × ((ctx.err w ≡ none) ⊎ (w' ≡ w) × (err ≡ ctx.err w))
  upload_every_branch = elim (Option-cases (ctx.err w)) [
    | inr (e, c) ↦ (w, some e, upload_done e c, inr (λ q. refl, e, refl), inr (refl, sym c))
    | inl c ↦
        let (es', err, runs, result) = upload_live c in
        (
          disk.write es' w,
          err,
          runs,
          subst
              (λ es.
                UploadResult (join_abs b.root_dir name) (read_all r).0 (read_all r).1 (disk.read w)
                  (es, err))
              (sym (disk.read_write es' w)) result,
          inl c,
        )
  ]

  -- An upload that succeeds has all the reader's bytes at the name.
  upload_stored :
      (w' : W)
      → ctx.err w ≡ none
      → upload disk b ctx name r w ≡ returns (none, w')
      → Uploaded (join_abs b.root_dir name) (read_all r).0 (disk.read w) (disk.read w')
  upload_stored w' c h =
      let (es', err, k, result) = upload_live c in
      let same = returns_injective (sym k ∙ h) in
      let files : disk.read w' ≡ es' =
        ap disk.read (sym (ap (λ x. x.1) same)) ∙ disk.read_write es' w in
      elim result [
        | inl (stored, _) ↦ λ q. ap (at q) files ∙ stored q
        | inr (_, e, failed) ↦ cc (failed, ap (λ x. x.0) same)
      ]

  stat-upload :
      (w' : W)
      → ctx.err w ≡ none
      → upload disk b ctx name r w ≡ returns (none, w')
      → stat (join_abs b.root_dir name) (disk.read w') ≡ ok (file (read_all r).0)
  stat-upload w' c h =
      let p = join_abs b.root_dir name in
      stat_lem p (disk.read w') (read_all r).0 (upload_stored w' c h p ∙ rw (paths_eq_refl p) refl)

  get_range_found :
      (ctx' : Ctx W) (off len : ℤ) (w' : W) (n : Node)
      → ctx'.err w' ≡ none
      → str_eq name [] ≡ false
      → stat (join_abs b.root_dir name) (disk.read w') ≡ ok n
      → get_range disk b ctx' name off len w'
        ≡ returns ((some (reader_from disk b off len n), none), w')
  unfolding get_range
  get_range_found ctx' off len w' n c e h = rw (c, unless_done) (rw e (rw (h, opened) refl))

  range_bytes :
      (o n : ℕ) (body : Str)
      → read_all (reader_from disk b (pos o) (pos n) (file body)) ≡ (take n (drop o body), none)
  unfolding read_all
  range_bytes o n body =
      let not_all : eqb_ℤ (pos n) (negsuc 0) ≡ false = ground arith in
      rw (not_all, reader_from)
        (ap (λ e. (take n (drop o body), e)) (same_cases (ltb (length (drop o body)) n)))

  -- Once an upload to a name that is not empty has succeeded, under a context that is not done, Get
  -- of the name, under a context that is not done then, reads the bytes that the upload's reader
  -- yields, with their number as its size, and the other objects are as they were.
  pub get-upload :
      (ctx' : Ctx W) (w' : W)
      → ctx.err w ≡ none
      → upload disk b ctx name r w ≡ returns (none, w')
      → ctx'.err w' ≡ none
      → str_eq name [] ≡ false
      → (reader : Reader) × (get disk b ctx' name w' ≡ returns ((some reader, none), w'))
        × (read_all reader ≡ ((read_all r).0, none))
        × (try_to_get_size reader ≡ (pos (length (read_all r).0), none))
        × Uploaded (join_abs b.root_dir name) (read_all r).0 (disk.read w) (disk.read w')
  unfolding get read_all try_to_get_size
  get-upload ctx' w' c h c' e =
      let found = stat-upload w' c h in
      (
        reader_from disk b (pos 0) (negsuc 0) (file (read_all r).0),
        get_range_found ctx' (pos 0) (negsuc 0) w' (file (read_all r).0) c' e found,
        refl,
        refl,
        upload_stored w' c h,
      )

  -- GetRange reads at most `n` of these bytes, from the offset `o` on.
  pub get_range-upload :
      (ctx' : Ctx W) (o n : ℕ) (w' : W)
      → ctx.err w ≡ none
      → upload disk b ctx name r w ≡ returns (none, w')
      → ctx'.err w' ≡ none
      → str_eq name [] ≡ false
      → (reader : Reader) × (get_range disk b ctx' name (pos o) (pos n) w'
          ≡ returns ((some reader, none), w'))
        × (read_all reader ≡ (take n (drop o (read_all r).0), none))
  unfolding read_all
  get_range-upload ctx' o n w' c h c' e =
      let found = stat-upload w' c h in
      (
        reader_from disk b (pos o) (pos n) (file (read_all r).0),
        get_range_found ctx' (pos o) (pos n) w' (file (read_all r).0) c' e found,
        range_bytes o n (read_all r).0,
      )
