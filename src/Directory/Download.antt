-- ===== src/Directory/Download.antt =====
-- objstore.go: DownloadFile, over a bucket whose readers are read without effects.
use objstore.Prelude.{Option, none, some, if◌then◌else◌}
use objstore.Text.{Str}
use objstore.Errors.{Error, wrapped}
use objstore.Go.{Outcome, returns, panics, Go, Ctx, Fallible, pure, ◌>>=◌}
use objstore.Reader.{Reader, read_all}
use objstore.Bucket.{Bucket}
use objstore.Files.{
  Node, file, dir, Entries, FilePath, Result, ok, fails, is_not_exist, stat, write_file, remove,
}
use objstore.Files.Paths.{join_abs, base}
use objstore.Filesystem.{Disk}

-- where DownloadFile writes to
abbrev pub target : FilePath → Str → Result Node → Result FilePath
target dst src (ok (dir es)) = ok (join_abs dst (base src))
target dst src (ok (file body)) = ok dst
target dst src (fails e) = if is_not_exist e then ok dst else fails e

-- the files and the error behind io.Copy: a file that is not complete is removed
abbrev pub copied : FilePath → Option Error → Entries → Entries × Option Error
copied p none es = (es, none)
copied p (some e) es = ((remove p es).0, some (wrapped "copy object to file" e))

abbrev pub created : FilePath → Option Error → Entries → Result Entries → Entries × Option Error
created p read_err es (fails e) = (es, some (wrapped "create file" e))
created p read_err es (ok es') = copied p read_err es'

-- the files once all that a bucket's reader yields is written to `p`
unfoldable pub save : FilePath → Reader → Entries → Entries × Option Error
unfolding read_all write_file remove
save p r es = created p (read_all r).1 es (write_file p (read_all r).0 es)

module _ {W : Type 0} (disk : Disk W) (bkt : Bucket W Reader) where
  abbrev pub saved : W → Entries × Option Error → Outcome (Option Error × W)
  saved w (es, e) = returns (e, disk.write es w)

  abbrev pub got : FilePath → Fallible (Option Reader) → Go W (Option Error)
  got p (r, some e) = pure (some (wrapped "get file" e))
  got p (none, none) = λ w. panics
  got p (some r, none) = λ w. saved w (save p r (disk.read w))

  abbrev pub download_to : Ctx W → Str → Result FilePath → Go W (Option Error)
  download_to ctx src (fails e) = pure (some e)
  download_to ctx src (ok p) = bkt.get ctx src >>= got p

  -- DownloadFile
  unfoldable pub download_file : Ctx W → Str → FilePath → Go W (Option Error)
  unfolding stat join_abs base is_not_exist save
  download_file ctx src dst w = download_to ctx src (target dst src (stat dst (disk.read w))) w
