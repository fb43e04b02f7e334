-- ===== src/Examples/ObsCases.antt =====
-- The theorems on uploads of the OBS bucket with a small client.
use objstore.Prelude.{
  ℕ, ◌+◌, ◌%◌, ◌≡◌, refl, sym, true, none, some, List, [], ◌∷◌, ◌++◌, if◌then◌else◌, ◌==◌, length,
  codes, arith, ap, Option,
}
use objstore.Prelude.Int.{ℤ, pos, pos_part}
use objstore.Text.{Str}
use objstore.Errors.{Error, new_error}
use objstore.Go.{Go, returns, returns_injective}
use objstore.Reader.{bytes_reader}
use objstore.Obs.Sdk.{Part, Client, ObsBucket}
use objstore.Obs.{part_sum, upload_with}
use objstore.Obs.Sizes.{total, number_from}
use objstore.Obs.Uploads.{Notes, upload_asks}
use objstore.Obs.Aborts.{with_abort, upload_same}
use objstore.Examples.World.{errors_pkg}

-- the numbers and sizes of the parts that the service was asked for
abbrev Asked : Type 0
Asked = List (ℤ × ℤ)

abbrev client : Client Asked ℕ
client = record {
  delete_object = λ bucket name w. returns (none, w);
  put_object = λ bucket name r w. returns (none, w);
  initiate_multipart_upload = λ bucket name w. returns ((codes "id", none), w);
  upload_part = λ bucket name input w. returns (
    (
      (record { part_number = input.part_number; etag = codes "tag" }, none),
      pos_part input.part_size,
    ),
    w ++ (input.part_number, input.part_size) ∷ [],
  );
  abort_multipart_upload = λ bucket name id w. returns (none, w);
  complete_multipart_upload = λ bucket name id parts w. returns (none, w);
  list_objects = λ bucket options w. returns (
    (record { contents = []; common_prefixes = []; is_truncated = true; next_marker = [] }, none),
    w,
  );
  get_object = λ bucket name start end w. returns ((some 0, none), w);
  get_object_metadata = λ bucket name w. returns (((pos 0, 0), none), w);
  error_status = λ e. none;
}

abbrev bucket : ObsBucket Asked ℕ
bucket = record { client = client; name = codes "data" }

client-Notes : Notes errors_pkg bucket (λ w. w)
client-Notes key input x n w w' h = sym (ap (λ y. y.1) (returns_injective h))

-- the parts of an object of five bytes
abbrev asked : Asked
asked = (pos 1, pos 4) ∷ (pos 2, pos 1) ∷ []

upload_asks_example :
    (id : Str) × (w0 : Asked) × (w1 : Asked) × (ps : List Part) × (sizes : List ℕ)
    × (client.initiate_multipart_upload (codes "data") (codes "o") [] ≡ returns ((id, none), w0))
    × (w1 ≡ w0 ++ number_from 1 sizes)
    × (client.complete_multipart_upload (codes "data") (codes "o") id ps w1 ≡ returns (none, asked))
    × (length sizes ≡ part_sum 4 5)
    × (total sizes + (if 5 % 4 == 0 then 4 else 0) ≡ 5)
unfolding upload_with
upload_asks_example =
    upload_asks errors_pkg bucket (λ w. w) 4 5 (codes "o") (bytes_reader (codes "hello")) [] asked
      client-Notes (omega arith) (omega arith) refl refl

abbrev failing_abort : Str → Str → Str → Go Asked (Option Error)
failing_abort container name id w = returns (some (new_error "abort"), w)

upload_same_example :
    upload_with errors_pkg
      (with_abort errors_pkg bucket failing_abort)
      4
      (codes "o")
      (bytes_reader (codes "hello"))
    ≡ upload_with errors_pkg bucket 4 (codes "o") (bytes_reader (codes "hello"))
upload_same_example =
    upload_same errors_pkg bucket failing_abort 4 (codes "o") (bytes_reader (codes "hello"))
