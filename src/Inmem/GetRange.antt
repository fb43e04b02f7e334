-- ===== src/Inmem/GetRange.antt =====
-- InMemBucket.GetRange as a caller sees it, and its relation to Get.
use objstore.Prelude.{
  ℕ, zero, suc, ◌+◌, ◌-◌, ◌≤◌, ◌<◌, ◌≡◌, ◌≢◌, false, none, some, [], arith, length, take_all,
  Option-cases, inl, inr, ◌∙◌, ◌⊎◌,
}
use objstore.Prelude.Int.{ℤ, pos, negsuc, int64_bound, leb_ℤ}
use objstore.Text.{Str}
use objstore.Text.Laws.{str_eq_iff}
use objstore.Dict.{lookup}
use objstore.Go.{returns, panics}
use objstore.Inmem.{InMemBucket, get, get_range, range_of, reader_of}
use objstore.Inmem.Range.{sub_bytes, range_of_lem, range_of_overflow}

get_range_found :
    (name file : Str) (off len : ℤ) (b : InMemBucket)
    → name ≢ []
    → lookup name b.objects ≡ some file
    → get_range name off len b ≡ range_of file off len
unfolding get_range
get_range_found name file off len b h found = ground (arith, str_eq_iff name [])

-- GetRange of an object that is there under a name that is not empty, from an offset that is not
-- negative and for a positive length, gives the bytes of the object from the offset on, as many as
-- are asked for and there, if the sum of both and the length of the object are `int64`s.
pub get_range_lem :
    (name file : Str) (off n : ℕ) (b : InMemBucket)
    → name ≢ []
    → lookup name b.objects ≡ some file
    → length file < int64_bound
    → off + suc n < int64_bound
    → get_range name (pos off) (pos (suc n)) b
      ≡ returns (some (reader_of (sub_bytes file off (suc n))), none)
get_range_lem name file off n b h found small fits =
    get_range_found name file (pos off) (pos (suc n)) b h found ∙ range_of_lem file off n small fits

-- the length -1 stands for the rest of the file
range_of_whole :
    (file : Str) → range_of file (pos 0) (negsuc 0) ≡ returns (some (reader_of file), none)
unfolding range_of
range_of_whole file = ground (arith, take_all (length file - 0) file)

-- GetRange from 0 with the length -1 is Get, for every name, an empty one or one that is not there
-- included.
pub get_range-get :
    (name : Str) (b : InMemBucket) → get_range name (pos 0) (negsuc 0) b ≡ returns (get name b)
unfolding get_range get
get_range-get name b = elim (Option-cases (lookup name b.objects)) [
  | inl e ↦ rw (e, get_range, get) (ground arith)
  | inr (file, e) ↦ rw (e, get_range, get) (ground (arith, range_of_whole file))
]

-- For an object that is there under a name that is not empty, and whose length is an `int64`, an
-- offset in the object and a positive length such that their `int64` sum overflows make GetRange
-- panic.
pub get_range_overflow :
    (name file : Str) (off n : ℕ) (b : InMemBucket)
    → name ≢ []
    → lookup name b.objects ≡ some file
    → length file < int64_bound
    → off ≤ length file
    → suc n < int64_bound
    → int64_bound ≤ off + suc n
    → get_range name (pos off) (pos (suc n)) b ≡ panics
get_range_overflow name file off n b h found small inside l over =
    get_range_found name file (pos off) (pos (suc n)) b h found
    ∙ range_of_overflow file off n small inside (omega arith) l over

range_of_negative :
    (file : Str) (o : ℕ) (len : ℤ)
    → (len ≡ negsuc 0) ⊎ (leb_ℤ len (pos 0) ≡ false)
    → range_of file (negsuc o) len ≡ panics
unfolding range_of
range_of_negative file o (pos zero) (inl e) = cc
range_of_negative file o (pos zero) (inr e) = cc
range_of_negative file o (pos (suc n)) h = ground arith
range_of_negative file o (negsuc zero) h = ground arith
range_of_negative file o (negsuc (suc n)) (inl e) = cc
range_of_negative file o (negsuc (suc n)) (inr e) = ground arith

-- A negative offset into an object that is there makes GetRange panic, whether the length is -1 or
-- positive.
pub get_range_negative :
    (name file : Str) (o : ℕ) (len : ℤ) (b : InMemBucket)
    → name ≢ []
    → lookup name b.objects ≡ some file
    → (len ≡ negsuc 0) ⊎ (leb_ℤ len (pos 0) ≡ false)
    → get_range name (negsuc o) len b ≡ panics
get_range_negative name file o len b h found l =
    get_range_found name file (negsuc o) len b h found ∙ range_of_negative file o len l
