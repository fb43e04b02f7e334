-- ===== src/Inmem/Reads.antt =====
-- What the reading methods of InMemBucket answer after Upload and Delete.
use mathlib.Core.Bool.{false≢true}
use text.Mathlib.TextEquality.{eq_iff}
use objstore.Prelude.{
  String, ℕ, ◌≡◌, ◌≢◌, refl, true, false, none, some, [], arith, if◌then◌else◌, Option-cases, inl,
  inr,
}
use objstore.Text.{Str, str_eq}
use objstore.Text.Laws.{str_eq_iff}
use objstore.Dict.{lookup, lookup-insert, lookup-erase}
use objstore.Errors.{Error, ErrorsPkg, new_error}
use objstore.Reader.{Reader, read_all}
use objstore.Inmem.{
  InMemBucket, get, has_object, upload, delete, err_not_found, reader_of, is_obj_not_found_err,
}

objects-upload :
    (name k body : Str) (r : Reader) (now : ℕ) (b : InMemBucket)
    → read_all r ≡ (body, none)
    → lookup k (upload name r now b).0.objects
      ≡ (if str_eq name k then some body else lookup k b.objects)
unfolding upload
objects-upload name k body r now b h = rw h (lookup-insert name k body b.objects)

-- After an upload to a name that is not empty, whose reader ends without an error, Get of that name
-- gives the bytes read, Exists is true of it, and both answer about every other name as before. The
-- upload reports no error.
pub reads-upload :
    (name k body : Str) (r : Reader) (now : ℕ) (b : InMemBucket)
    → name ≢ []
    → read_all r ≡ (body, none)
    → ((upload name r now b).1 ≡ none)
      × (get k (upload name r now b).0
          ≡ (if str_eq name k then (some (reader_of body), none) else get k b))
      × (has_object k (upload name r now b).0
          ≡ (if str_eq name k then (true, none) else has_object k b))
reads-upload name k body r now b named h = (
  unfold upload in rw h refl,
  unfold get in
      ground
        (arith, objects-upload name k body r now b h, str_eq_iff name k, str_eq_iff k [], named),
  unfold has_object in ground (arith, objects-upload name k body r now b h),
)

-- An upload whose reader fails changes nothing and reports the reader's error.
pub upload_failed :
    (name body : Str) (r : Reader) (e : Error) (now : ℕ) (b : InMemBucket)
    → read_all r ≡ (body, some e)
    → upload name r now b ≡ (b, some e)
unfolding upload
upload_failed name body r e now b h = rw h refl

objects-delete :
    (name k : Str) (b : InMemBucket)
    → lookup k (delete name b).0.objects ≡ (if str_eq name k then none else lookup k b.objects)
unfolding delete
objects-delete name k b = elim (Option-cases (lookup name b.objects)) [
  | inl e ↦ rw (e, delete) (ground (arith, str_eq_iff name k))
  | inr (body, e) ↦ rw (e, delete) (lookup-erase name k b.objects)
]

-- Delete reports the not-found error exactly for a name without an object. Afterwards the name has
-- no object, and Exists answers about every other name as before.
pub reads-delete :
    (name k : Str) (b : InMemBucket)
    → ((delete name b).1 ≡ (if (has_object name b).0 then none else some err_not_found))
      × (has_object k (delete name b).0 ≡ (if str_eq name k then (false, none) else has_object k b))
reads-delete name k b = (
  unfold delete has_object in ground arith,
  unfold has_object in ground (arith, objects-delete name k b),
)

abbrev empty_name : Error
empty_name = new_error "inmem: object name is empty"

get_errors :
    (name : Str) (e : Error) (b : InMemBucket)
    → (get name b).1 ≡ some e
    → e ≡ (if str_eq name [] then empty_name else err_not_found)
unfolding get
get_errors name e b h = ground arith

messages_differ : ◌≢◌ {A = String} "inmem: object name is empty" "inmem: object not found"
messages_differ p =
    false≢true ((eq_iff "inmem: object name is empty" "inmem: object not found").1 p)

-- IsObjNotFoundErr tells the error that Get reports for a name without an object from the one it
-- reports for the empty name.
pub not_found_errors :
    (p : ErrorsPkg) (name : Str) (e : Error) (b : InMemBucket)
    → (get name b).1 ≡ some e
    → is_obj_not_found_err p e ≡ (if str_eq name [] then false else true)
unfolding is_obj_not_found_err
not_found_errors p name e b h = rw (get_errors name e b h) (
    ground (
      arith,
      p.is_new "inmem: object name is empty" "inmem: object not found" messages_differ,
      p.is_self err_not_found,
    ))
