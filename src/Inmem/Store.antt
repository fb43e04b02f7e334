-- ===== src/Inmem/Store.antt =====
-- Upload, Delete and the reading methods of InMemBucket: what each does to the objects, and the
-- invariant that joins the two maps of the bucket.
use objstore.Prelude.{
  ℕ, ◌≡◌, refl, Bool, true, false, Option, none, some, if◌then◌else◌, length, Option-cases, inl,
  inr,
}
use objstore.Prelude.Int.{pos}
use objstore.Text.{Str, str_eq}
use objstore.Dict.{
  lookup, NodupKeys, lookup-insert, lookup-erase, insert-NodupKeys, erase-NodupKeys,
}
use objstore.Errors.{Error}
use objstore.Go.{Fallible}
use objstore.Reader.{Reader, read_all}
use objstore.Bucket.{ObjectAttributes, zero_attributes}
use objstore.Inmem.{
  InMemBucket, new_in_mem_bucket, attributes, upload, delete, err_not_found, store_body,
}

-- The entry of a name in the two maps: in both or in neither, with the size of the object.
abbrev pub Match : Option Str → Option ObjectAttributes → Type 0
Match none none = Unit
Match (some body) (some a) = a.size ≡ pos (length body)
Match _ _ = ⊥

pub record IsValid (b : InMemBucket) : Type 0 where
  pub objects_distinct : NodupKeys b.objects
  pub attrs_distinct : NodupKeys b.attrs
  pub attrs_match : (k : Str) → Match (lookup k b.objects) (lookup k b.attrs)

new_in_mem_bucket-IsValid : IsValid new_in_mem_bucket
unfolding new_in_mem_bucket lookup
new_in_mem_bucket-IsValid = record {
  objects_distinct = tt;
  attrs_distinct = tt;
  attrs_match = λ k. tt;
}

Match-if :
    (t : Bool) (x o : Option Str) (y p : Option ObjectAttributes)
    → Match x y
    → Match o p
    → Match (if t then x else o) (if t then y else p)
Match-if true x o y p h k = h
Match-if false x o y p h k = k

store_body-IsValid :
    (name : Str) (now : ℕ) (b : InMemBucket) (result : Str × Option Error)
    → IsValid b
    → IsValid (store_body name now b result).0
store_body-IsValid name now b (body, some e) v = v
store_body-IsValid name now b (body, none) v =
    let a : ObjectAttributes = record { size = pos (length body); last_modified = now } in
    record {
      objects_distinct = insert-NodupKeys name body b.objects v.objects_distinct;
      attrs_distinct = insert-NodupKeys name a b.attrs v.attrs_distinct;
      attrs_match = λ k.
          rw (lookup-insert name k body b.objects, lookup-insert name k a b.attrs)
            (Match-if (str_eq name k) (some body) _ (some a) _ refl (v.attrs_match k));
    }

pub upload-IsValid :
    (name : Str) (r : Reader) (now : ℕ) (b : InMemBucket)
    → IsValid b
    → IsValid (upload name r now b).0
unfolding upload
upload-IsValid name r now b v = store_body-IsValid name now b (read_all r) v

pub delete-IsValid : (name : Str) (b : InMemBucket) → IsValid b → IsValid (delete name b).0
unfolding delete
delete-IsValid name b v = elim (Option-cases (lookup name b.objects)) [
  | inl e ↦ rw (e, delete) v
  | inr (body, e) ↦
      rw (e, delete)
        record {
          objects_distinct = erase-NodupKeys name b.objects v.objects_distinct;
          attrs_distinct = erase-NodupKeys name b.attrs v.attrs_distinct;
          attrs_match = λ k.
              rw (lookup-erase name k b.objects, lookup-erase name k b.attrs)
                (Match-if (str_eq name k) none _ none _ tt (v.attrs_match k));
        }
]

-- The buckets that a program can make.
pub data Reached : InMemBucket → Type 0 where
  made : Reached new_in_mem_bucket
  uploaded :
      {b : InMemBucket}
      → Reached b
      → (name : Str) (r : Reader) (now : ℕ) → Reached (upload name r now b).0
  deleted : {b : InMemBucket} → Reached b → (name : Str) → Reached (delete name b).0

pub Reached-IsValid : {b : InMemBucket} → Reached b → IsValid b
Reached-IsValid made = new_in_mem_bucket-IsValid
Reached-IsValid (uploaded r name body now) = upload-IsValid name body now _ (Reached-IsValid r)
Reached-IsValid (deleted r name) = delete-IsValid name _ (Reached-IsValid r)

-- what Attributes answers about a name with the given object
abbrev pub AttributesOf : Option Str → Fallible ObjectAttributes → Type 0
AttributesOf none answer = answer ≡ (zero_attributes, some err_not_found)
AttributesOf (some body) answer = (answer.1 ≡ none) × (answer.0.size ≡ pos (length body))

AttributesOf-Match :
    (o : Option Str) (p : Option ObjectAttributes)
    → Match o p
    → AttributesOf o (elim p [ none ↦ (zero_attributes, some err_not_found) | some a ↦ (a, none) ])
AttributesOf-Match none none h = refl
AttributesOf-Match none (some a) h = absurd h
AttributesOf-Match (some body) none h = absurd h
AttributesOf-Match (some body) (some a) h = (refl, h)

-- In every bucket that uploads and deletions make from a new one, Attributes fails with the
-- not-found error exactly for the names without an object, and else gives the object's size.
pub attributes_lem :
    (b : InMemBucket) (name : Str)
    → Reached b
    → AttributesOf (lookup name b.objects) (attributes name b)
unfolding attributes
attributes_lem b name r =
    AttributesOf-Match (lookup name b.objects) (lookup name b.attrs)
      ((Reached-IsValid r).attrs_match name)
