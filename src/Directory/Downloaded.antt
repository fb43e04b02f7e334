-- ===== src/Directory/Downloaded.antt =====
-- What DownloadFile leaves of the local files.
use objstore.Prelude.{
  ◌≡◌, refl, sym, Bool, true, false, Option, none, some, if◌then◌else◌, ◌∙◌, ap, inl, inr, ◌⊎◌,
}
use objstore.Text.{Str}
use objstore.Errors.{Error, wrapped}
use objstore.Go.{Outcome, returns, Ctx, Fallible, ◌>>=◌}
use objstore.Reader.{Reader, read_all}
use objstore.Bucket.{Bucket}
use objstore.Files.{Entries, FilePath, Result, ok, fails, stat, write_file, paths_eq}
use objstore.Files.Laws.{at}
use objstore.Files.Writes.{write_file_lem}
use objstore.Files.Removal.{remove_lem}
use objstore.Filesystem.Uploads.{paths_eq_refl}
use objstore.Filesystem.{Disk}
use objstore.Directory.Download.{target, copied, created, save, got, download_to, download_file}

abbrev pub Same : Entries → Entries → Type 0
Same es es' = (q : FilePath) → at q es' ≡ at q es

abbrev pub at_end : Str → Option Error → Option Str
at_end body none = some body
at_end body (some e) = none

abbrev pub copy_error : Option Error → Option Error
copy_error none = none
copy_error (some e) = some (wrapped "copy object to file" e)

-- What DownloadFile leaves, for the bytes and the error of the reader: the whole file, or, with an
-- error, no file there; or an error and the files as they were.
abbrev pub SaveResult : FilePath → Str → Option Error → Entries → Entries × Option Error → Type 0
SaveResult p body read_err es (es', err) =
    ((q : FilePath) → at q es' ≡ (if paths_eq p q then at_end body read_err else at q es))
      × (err ≡ copy_error read_err)
    ⊎ Same es es' × (e : Error) × (err ≡ some e)

copied_result :
    (p : FilePath) (body : Str) (read_err : Option Error) (es es' : Entries)
    → ((q : FilePath) → at q es' ≡ (if paths_eq p q then some body else at q es))
    → SaveResult p body read_err es (copied p read_err es')
copied_result p body none es es' h = inl (h, refl)
copied_result p body (some e) es es' h =
    let there : at p es' ≡ some body = h p ∙ rw (paths_eq_refl p) refl in
    inl (λ q. remove_lem p q es' body there ∙ removed_again (paths_eq p q) q (h q), refl)
  where
    removed_again :
        (b : Bool) (q : FilePath)
        → at q es' ≡ (if b then some body else at q es)
        → (if b then none else at q es') ≡ (if b then none else at q es)
    removed_again true q k = refl
    removed_again false q k = k

created_result :
    (p : FilePath) (body : Str) (read_err : Option Error) (es : Entries) (r : Result Entries)
    → r ≡ write_file p body es
    → SaveResult p body read_err es (created p read_err es r)
created_result p body read_err es (fails e) h = inr (λ q. refl, wrapped "create file" e, refl)
created_result p body read_err es (ok es') h =
    copied_result p body read_err es es' (write_file_lem p body es es' (sym h))

save_result :
    (p : FilePath) (r : Reader) (es : Entries)
    → SaveResult p (read_all r).0 (read_all r).1 es (save p r es)
unfolding save
save_result p r es =
    created_result p (read_all r).0 (read_all r).1 es (write_file p (read_all r).0 es) refl

module _ {W : Type 0} (disk : Disk W) (bkt : Bucket W Reader) where
  -- DownloadFile of an object that Get finds, to a destination that can be looked at, returns.
  -- Either the file has all bytes that the reader yields, or, if the reader fails, which is the
  -- error, there is no file; and all other files are as Get left them. Or there is an error and
  -- all files are. The file is the destination, or has the object's name in it if that is a
  -- directory.
  pub download_file_lem :
      (ctx : Ctx W) (src : Str) (dst p : FilePath) (r : Reader) (w w1 : W)
      → target dst src (stat dst (disk.read w)) ≡ ok p
      → bkt.get ctx src w ≡ returns ((some r, none), w1)
      → (es' : Entries) × (err : Option Error) × (download_file disk bkt ctx src dst w
          ≡ returns (err, disk.write es' w1))
        × SaveResult p (read_all r).0 (read_all r).1 (disk.read w1) (es', err)
  unfolding download_file
  download_file_lem ctx src dst p r w w1 t g =
      let s = save p r (disk.read w1) in
      let runs : download_file disk bkt ctx src dst w ≡ returns (s.1, disk.write s.0 w1) =
        ap (λ x. download_to disk bkt ctx src x w) t
        ∙ ap (λ (o : Outcome (Fallible (Option Reader) × W)). ((λ (v : W). o) >>= got disk bkt p) w)
            g in
      (s.0, s.1, runs, save_result p r (disk.read w1))
