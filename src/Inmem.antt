-- ===== src/Inmem.antt =====
-- inmem.go: InMemBucket as a record, and each method as a function of it. A method holds the mutex
-- for all of its work on the maps, so it is one step; Iter runs its callbacks after the unlock.
pub mod Iter
pub mod Listing
pub mod GetRange
pub mod Store
pub mod Instance
pub mod Reads
pub mod Range
pub mod Panic
pub mod Order
mod Tests
use objstore.Prelude.{
  ℕ, zero, suc, ◌+◌, ◌-◌, Bool, true, false, ◌&&◌, ◌||◌, not, Option, none, some, List, [], ◌∷◌,
  ◌++◌, ltb, leb, ◌==◌, if◌then◌else◌, length, take, drop,
}
use objstore.Prelude.Int.{ℤ, pos, negsuc, ltb_ℤ, leb_ℤ, eqb_ℤ, add64, sub64}
use objstore.Text.{Str, dir_delim, str_eq, has_prefix, has_suffix, split_after, join, str_less}
use objstore.Text.Split.{count_nonempty}
use objstore.Dict.{Dict, lookup, insert, erase, keys}
use objstore.Errors.{Error, new_error, ErrorsPkg}
use objstore.Go.{Outcome, returns, panics, Go, Ctx, Fallible, ◌>>=◌}
use objstore.Reader.{Reader, bytes_reader, nop_closer, read_all}
use objstore.Options.{IterParams, IterOption, apply_iter_options}
use objstore.Bucket.{ObjectAttributes, zero_attributes, Callback, Bucket}

pub record InMemBucket : Type 0 where
  pub objects : Dict Str
  pub attrs : Dict ObjectAttributes

abbrev pub err_not_found : Error
err_not_found = new_error "inmem: object not found"

unfoldable pub new_in_mem_bucket : InMemBucket
new_in_mem_bucket = record { objects = []; attrs = [] }

-- `copy[k] = v` for each entry
unfoldable pub copy_into : Dict Str → Dict Str → Dict Str
copy_into [] out = out
copy_into ((k, v) ∷ m) out = copy_into m (insert k v out)

-- Objects
unfoldable pub objects_copy : InMemBucket → Dict Str
unfolding copy_into
objects_copy b = copy_into b.objects []

-- io.NopCloser(bytes.NewReader(body))
abbrev pub reader_of : Str → Reader
reader_of body = nop_closer (bytes_reader body)

-- Get
unfoldable pub get : Str → InMemBucket → Fallible (Option Reader)
unfolding lookup str_eq
get name b =
    if str_eq name []
    then (none, some (new_error "inmem: object name is empty"))
    else elim (lookup name b.objects) [
      | none ↦ (none, some err_not_found)
      | some file ↦ (some (reader_of file), none)
    ]

-- The slice expression `file[lo:hi]` on `int64` bounds, which panics outside of 0 ≤ lo ≤ hi ≤ cap.
-- The capacity is taken to be the length.
unfoldable pub slice_bytes : Str → ℤ → ℤ → Outcome Str
slice_bytes file (pos lo) (pos hi) =
    if leb lo hi && leb hi (length file) then returns (take (hi - lo) (drop lo file)) else panics
slice_bytes file _ _ = panics

abbrev with_reader : Outcome Str → Outcome (Fallible (Option Reader))
with_reader (returns body) = returns (some (reader_of body), none)
with_reader panics = panics

-- the part of GetRange behind the lookup
unfoldable pub range_of : Str → ℤ → ℤ → Outcome (Fallible (Option Reader))
unfolding slice_bytes add64 sub64
range_of file off len =
    if ltb_ℤ (pos (length file)) off
    then returns (some (reader_of []), none)
    else if eqb_ℤ len (negsuc 0)
    then with_reader (slice_bytes file off (pos (length file)))
    else if leb_ℤ len (pos 0)
    then returns (some (reader_of []), some (new_error "length cannot be smaller or equal 0"))
    else let total = add64 off len in
      let capped = if leb_ℤ (pos (length file)) total then sub64 (pos (length file)) off else len in
      with_reader (slice_bytes file off (add64 off capped))

-- GetRange
unfoldable pub get_range : Str → ℤ → ℤ → InMemBucket → Outcome (Fallible (Option Reader))
unfolding lookup str_eq
get_range name off len b =
    if str_eq name []
    then returns (none, some (new_error "inmem: object name is empty"))
    else elim (lookup name b.objects) [
      | none ↦ returns (none, some err_not_found)
      | some file ↦ range_of file off len
    ]

-- Exists
unfoldable pub has_object : Str → InMemBucket → Fallible Bool
unfolding lookup
has_object name b = elim (lookup name b.objects) [ none ↦ (false, none) | some _ ↦ (true, none) ]

-- Attributes
unfoldable pub attributes : Str → InMemBucket → Fallible ObjectAttributes
unfolding lookup
attributes name b = elim (lookup name b.attrs) [
  | none ↦ (zero_attributes, some err_not_found)
  | some a ↦ (a, none)
]

abbrev pub store_body : Str → ℕ → InMemBucket → Str × Option Error → InMemBucket × Option Error
store_body name now b (body, some e) = (b, some e)
store_body name now b (body, none) = (
  record {
    objects = insert name body b.objects;
    attrs = insert name (record { size = pos (length body); last_modified = now }) b.attrs;
  },
  none,
)

-- Upload, at the time `now`
unfoldable pub upload : Str → Reader → ℕ → InMemBucket → InMemBucket × Option Error
unfolding read_all
upload name r now b = store_body name now b (read_all r)

-- Delete
unfoldable pub delete : Str → InMemBucket → InMemBucket × Option Error
unfolding lookup
delete name b = elim (lookup name b.objects) [
  | none ↦ (b, some err_not_found)
  | some _ ↦ (record { objects = erase name b.objects; attrs = erase name b.attrs }, none)
]

-- IsObjNotFoundErr
unfoldable pub is_obj_not_found_err : ErrorsPkg → Error → Bool
is_obj_not_found_err p e = p.is e err_not_found

-- IsCustomerManagedKeyError
unfoldable pub is_customer_managed_key_error : Error → Bool
is_customer_managed_key_error _ = false
