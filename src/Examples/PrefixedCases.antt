-- ===== src/Examples/PrefixedCases.antt =====
-- The theorems on PrefixedBucket at a concrete world.
use objstore.Prelude.{◌≡◌, ◌≢◌, refl, true, none, [], ◌∷◌, codes}
use objstore.Prelude.Int.{pos}
use objstore.Text.{Str}
use objstore.Dict.{keys}
use objstore.Go.{returns, pure}
use objstore.Reader.{Reader, bytes_reader}
use objstore.Options.{with_recursive_iter, apply_iter_options}
use objstore.Bucket.{Bucket, Callback}
use objstore.Inmem
use objstore.Inmem.Iter.{list_keys}
use objstore.Inmem.Instance.{in_mem_bucket, iter_keys, with_world}
use objstore.Prefixed
use objstore.Prefixed.{new_prefixed_bucket, valid_prefix, as_bucket}
use objstore.Prefixed.Refines.{over_inmem, seen, iter_refines, reads_refine}
use objstore.Prefixed.Writes.{Refined, upload_refines, delete_refines}
use objstore.Examples.World.{World, errors_pkg, place, background, world}

abbrev team : Str
team = codes "team"

-- a callback that accepts every name
abbrev accept : Callback World
accept name = pure none

iter_refines_example :
    Prefixed.iter
      (over_inmem place errors_pkg team)
      background
      []
      accept
      (with_recursive_iter ∷ [])
      world
    ≡ iter_keys accept
        (list_keys
          (keys (seen place errors_pkg team world).objects)
          []
          (apply_iter_options (with_recursive_iter ∷ [])))
        world
iter_refines_example =
    iter_refines place errors_pkg team background [] accept (with_recursive_iter ∷ []) world

b_named : codes "b" ≢ []
b_named e = cc

reads_refine_example :
    (Prefixed.get (over_inmem place errors_pkg team) background (codes "b") world
      ≡ returns (Inmem.get (codes "b") (seen place errors_pkg team world), world))
    × (Prefixed.get_range
          (over_inmem place errors_pkg team)
          background
          (codes "b")
          (pos 1)
          (pos 2)
          world
        ≡ with_world world
            (Inmem.get_range (codes "b") (pos 1) (pos 2) (seen place errors_pkg team world)))
    × (Prefixed.has_object (over_inmem place errors_pkg team) background (codes "b") world
        ≡ returns (Inmem.has_object (codes "b") (seen place errors_pkg team world), world))
    × (Prefixed.attributes (over_inmem place errors_pkg team) background (codes "b") world
        ≡ returns (Inmem.attributes (codes "b") (seen place errors_pkg team world), world))
reads_refine_example =
    reads_refine place errors_pkg team background (codes "b") (pos 1) (pos 2) world b_named

upload_refines_example :
    Refined place errors_pkg team
      (Prefixed.upload
        (over_inmem place errors_pkg team)
        background
        (codes "b")
        (bytes_reader (codes "new")))
      (Inmem.upload (codes "b") (bytes_reader (codes "new")) 7 (seen place errors_pkg team world))
      world
upload_refines_example =
    upload_refines place errors_pkg team background (codes "b") (bytes_reader (codes "new")) world
      b_named

delete_refines_example :
    Refined place errors_pkg team
      (Prefixed.delete (over_inmem place errors_pkg team) background (codes "b"))
      (Inmem.delete (codes "b") (seen place errors_pkg team world))
      world
delete_refines_example = delete_refines place errors_pkg team background (codes "b") world b_named

slashed_valid : valid_prefix (codes "/team/") ≡ true
unfolding valid_prefix
slashed_valid = refl

abbrev base : Bucket World Reader
base = in_mem_bucket place errors_pkg
