-- ===== src/Examples/InmemCases.antt =====
-- The theorems on InMemBucket at concrete buckets.
use objstore.Prelude.{
  ◌≡◌, ◌≢◌, refl, true, false, none, some, List, [], ◌∷◌, codes, arith, if◌then◌else◌,
}
use objstore.Prelude.Int.{pos}
use objstore.Text.{Str, str_eq}
use objstore.Text.Split.{is_dir_name, slashes}
use objstore.Dict.{lookup}
use objstore.Go.{returns, panics}
use objstore.Reader.{bytes_reader, read_all}
use objstore.Options.{IterParams}
use objstore.Inmem.{
  InMemBucket, new_in_mem_bucket, get, get_range, has_object, upload, delete, attributes, reader_of,
  err_not_found,
}
use objstore.Inmem.Iter.{contains, list_keys}
use objstore.Inmem.Listing.{Listed, list_keys_lem, list_keys_order}
use objstore.Inmem.Panic.{list_keys_panics}
use objstore.Inmem.Range.{sub_bytes}
use objstore.Inmem.GetRange.{get_range_lem, get_range_overflow}
use objstore.Inmem.Store.{AttributesOf, made, uploaded, attributes_lem}
use objstore.Inmem.Reads.{reads-upload, reads-delete}
use objstore.Examples.World.{stocked}

abbrev some_names : List Str
some_names = codes "team/a/x" ∷ codes "team/b" ∷ codes "other" ∷ []

abbrev flat : IterParams
flat = record { recursive = false }

team_is_dir : is_dir_name (codes "team/") ≡ true
unfolding is_dir_name
team_is_dir = refl

list_keys_lem_example : (ks : List Str) × Listed some_names (codes "team/") flat ks
list_keys_lem_example = list_keys_lem some_names (codes "team/") flat team_is_dir

abbrev doubled : List Str
doubled = codes "b" ∷ codes "b" ∷ []

doubled_same : (k : Str) → contains k doubled ≡ contains k (codes "b" ∷ [])
unfolding contains
doubled_same k = ground arith

list_keys_order_example : list_keys doubled [] flat ≡ list_keys (codes "b" ∷ []) [] flat
list_keys_order_example =
    list_keys_order doubled (codes "b" ∷ []) [] flat (unfold is_dir_name in refl) doubled_same

ot_no_dir : is_dir_name (codes "ot") ≡ false
unfolding is_dir_name
ot_no_dir = refl

her_flat : slashes (codes "her") ≡ 0
unfolding slashes
her_flat = refl

other_there : contains (codes "other") some_names ≡ true
unfolding contains str_eq
other_there = refl

list_keys_panics_example : list_keys some_names (codes "ot") flat ≡ panics
list_keys_panics_example =
    list_keys_panics some_names (codes "ot") (codes "her") ot_no_dir (λ e. cc) her_flat other_there

other_found : lookup (codes "other") stocked.objects ≡ some (codes "z")
unfolding lookup str_eq
other_found = refl

hello_found : lookup (codes "team/a/x") stocked.objects ≡ some (codes "hello")
unfolding lookup str_eq
hello_found = refl

nonempty : codes "other" ≢ []
nonempty e = cc

get_range_lem_example :
    get_range (codes "team/a/x") (pos 1) (pos 3) stocked
    ≡ returns (some (reader_of (sub_bytes (codes "hello") 1 3)), none)
get_range_lem_example =
    get_range_lem (codes "team/a/x") (codes "hello") 1 2 stocked (λ e. cc) hello_found (omega arith)
      (omega arith)

get_range_overflow_example :
    get_range (codes "other") (pos 1) (pos 9223372036854775807) stocked ≡ panics
get_range_overflow_example =
    get_range_overflow (codes "other") (codes "z") 1 9223372036854775806 stocked nonempty
      other_found (omega arith) (omega arith) (omega arith) (omega arith)

abbrev one_object : InMemBucket
one_object = (upload (codes "k") (bytes_reader (codes "vv")) 3 new_in_mem_bucket).0

attributes_lem_example :
    AttributesOf (lookup (codes "k") one_object.objects) (attributes (codes "k") one_object)
attributes_lem_example =
    attributes_lem one_object (codes "k") (uploaded made (codes "k") (bytes_reader (codes "vv")) 3)

reads-upload_example :
    ((upload (codes "k") (bytes_reader (codes "vv")) 3 stocked).1 ≡ none)
    × (get (codes "other") (upload (codes "k") (bytes_reader (codes "vv")) 3 stocked).0 ≡ (
        if str_eq (codes "k") (codes "other")
        then (some (reader_of (codes "vv")), none)
        else get (codes "other") stocked))
    × (has_object (codes "other") (upload (codes "k") (bytes_reader (codes "vv")) 3 stocked).0 ≡ (
        if str_eq (codes "k") (codes "other")
        then (true, none)
        else has_object (codes "other") stocked))
reads-upload_example =
    reads-upload (codes "k") (codes "other") (codes "vv") (bytes_reader (codes "vv")) 3 stocked
      (λ e. cc) (unfold read_all in refl)

reads-delete_example :
    ((delete (codes "other") stocked).1
      ≡ (if (has_object (codes "other") stocked).0 then none else some err_not_found))
    × (has_object (codes "team/b") (delete (codes "other") stocked).0 ≡ (
        if str_eq (codes "other") (codes "team/b")
        then (false, none)
        else has_object (codes "team/b") stocked))
reads-delete_example = reads-delete (codes "other") (codes "team/b") stocked

missing : (get (codes "nope") stocked).1 ≡ some err_not_found
unfolding get
missing = refl
