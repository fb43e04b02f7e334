-- ===== src/Examples/OssCases.antt =====
-- The theorem on the ranges of the OSS bucket with a small client.
use objstore.Prelude.{ℕ, ◌≡◌, refl, true, none, some, [], ◌∷◌, codes, arith}
use objstore.Prelude.Int.{pos}
use objstore.Text.{str_eq}
use objstore.Text.Decimal.{parse_int}
use objstore.Dict.{lookup}
use objstore.Go.{Ctx, returns}
use objstore.Headers.{Header}
use objstore.Oss.Sdk.{Client, OssBucket}
use objstore.Oss.{get_range, opened}
use objstore.Oss.Ranges.{Covers, get_range-Covers}
use objstore.Examples.World.{errors_pkg}

-- the header of an object of 10 bytes
abbrev header : Header
header = (codes "Content-Length", codes "10" ∷ []) ∷ []

-- the bodies are the ranges that were asked for
abbrev client : Client ℕ ℕ ℕ ℕ
client = record {
  put_object = λ name r w. returns (none, w);
  initiate_multipart_upload = λ name w. returns ((0, none), w);
  upload_part = λ id r size part w. returns (((0, none), 0), w);
  abort_multipart_upload = λ id w. returns (none, w);
  complete_multipart_upload = λ id parts w. returns (none, w);
  delete_object = λ name w. returns (none, w);
  get_object_meta = λ name w. returns ((header, none), w);
  list_objects = λ options w. returns (
    (record { contents = []; common_prefixes = []; is_truncated = true; next_marker = [] }, none),
    w,
  );
  get_object = λ name range w. returns ((some 0, none), w);
  is_object_exist = λ name w. returns ((true, none), w);
  error_status = λ e. none;
}

abbrev bucket : OssBucket ℕ ℕ ℕ ℕ
bucket = record {
  name = codes "data";
  config = record {
    endpoint = codes "https://oss";
    bucket = codes "data";
    access_key_id = codes "id";
    access_key_secret = codes "key";
  };
  bucket = client;
}

abbrev live : Ctx ℕ
live = record { err = λ w. none; value = λ k. none }

get_range-Covers_example :
    (last : ℕ) × (get_range errors_pkg bucket live (codes "o") (pos 4) (pos 20) 0
      ≡ opened errors_pkg bucket (codes "o") (some (pos 4, pos last), none) 0)
    × Covers 10 4 20 last
unfolding lookup str_eq parse_int
get_range-Covers_example =
    get_range-Covers errors_pkg bucket live b'o' [] 10 4 20 header (codes "10") [] 0 0 refl refl
      refl (omega arith) (omega arith) (omega arith)
