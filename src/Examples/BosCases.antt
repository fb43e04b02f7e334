-- ===== src/Examples/BosCases.antt =====
-- The theorems on the BOS bucket and on the loop over pages with a small client.
use objstore.Prelude.{
  ℕ, ◌≡◌, refl, sym, true, false, none, some, List, [], ◌∷◌, ◌++◌, codes, arith, take, ap,
  if◌then◌else◌,
}
use objstore.Prelude.Int.{ℤ, pos, pos_part, add64}
use objstore.Text.{Str, str_eq}
use objstore.Go.{Ctx, Fallible, returns, returns_injective}
use objstore.Reader.{bytes_reader}
use objstore.Bucket.{Callback}
use objstore.Inmem.Iter.{unless_error, each}
use objstore.Cos.Sdk.{Page}
use objstore.Chunks.Pieces.{concat, all_sized}
use objstore.Chunks.Sending.{Sent}
use objstore.Paging.{
  Chain, last_page, next_page, page_loop, wrapped_call, answered, page_loop-Chain,
}
use objstore.Bos.Sdk.{Client, BosBucket}
use objstore.Bos.{calls, upload_with, bare}
use objstore.Bos.Uploads.{Reads, Keeps, upload_sends_parts}
use objstore.Examples.World.{errors_pkg}

-- the parts that the service keeps
abbrev Parts : Type 0
Parts = List (ℤ × Str)

abbrev first : Page
first = record {
  contents = codes "team/x" ∷ [];
  common_prefixes = codes "team/a/" ∷ [];
  is_truncated = true;
  next_marker = codes "team/x";
}

abbrev second : Page
second = record {
  contents = codes "team/y" ∷ [];
  common_prefixes = [];
  is_truncated = false;
  next_marker = [];
}

abbrev pages : Str → Fallible Page
pages marker = if str_eq marker [] then (first, none) else (second, none)

-- a body is the bytes that are read for it
abbrev client : Client Parts ℕ Str
client = record {
  new_body_from_sized_reader = λ r size. ((take (pos_part size) r.bytes, none), pos_part size);
  put_object = λ bucket name body w. returns (none, w);
  initiate_multipart_upload = λ bucket name w. returns ((codes "id", none), w);
  upload_part = λ bucket name id part body w. returns ((codes "tag", none), w ++ (part, body) ∷ []);
  abort_multipart_upload = λ bucket name id w. returns (none, w);
  complete_multipart_upload = λ bucket name id parts w. returns (none, w);
  delete_object = λ bucket name w. returns (none, w);
  list_objects = λ bucket options w. returns (pages options.marker, w);
  get_object = λ bucket name ranges w. returns ((some 0, none), w);
  get_object_meta =
      λ bucket name w. returns ((record { content_length = pos 0; last_modified = [] }, none), w);
  error_response = λ e. none;
}

abbrev bucket : BosBucket Parts ℕ Str
bucket = record { client = client; name = codes "data" }

client-Reads : Reads errors_pkg bucket (λ body. body) (λ w. w)
client-Reads l s body n f h = (sym (ap (λ x. x.1) h), sym (ap (λ x. x.0.0) h))

client-Keeps : Keeps errors_pkg bucket (λ body. body) (λ w. w)
client-Keeps name id part body w w' etag h = sym (ap (λ x. x.1) (returns_injective h))

abbrev kept : Parts
kept = (pos 1, codes "hell") ∷ (pos 2, codes "o") ∷ []

upload_sends_parts_example :
    (id : Str) × (w0 : Parts) × (cs : List Str) × (client.initiate_multipart_upload
        (codes "data")
        (codes "o")
        []
      ≡ returns ((id, none), w0))
    × Sent (calls errors_pkg bucket (codes "o") id) (λ x. x.0) (λ w. w) 1 cs [] w0 kept
    × (concat cs ≡ codes "hello")
    × (all_sized 4 cs ≡ true)
unfolding upload_with add64
upload_sends_parts_example =
    upload_sends_parts errors_pkg bucket (λ body. body) (λ w. w) 4 (codes "o")
      (bytes_reader (codes "hello")) [] kept client-Reads client-Keeps (omega arith) (omega arith)
      (omega arith) refl refl

abbrev live : Ctx Parts
live = record { err = λ w. none; value = λ k. none }

abbrev noting : Callback Parts
noting key w = returns (none, (pos 0, key) ∷ w)

two_pages : Chain bare pages [] 2 (codes "team/x" ∷ codes "team/a/" ∷ codes "team/y" ∷ []) none
unfolding str_eq
two_pages =
    next_page {marker = []} {page = first} refl refl
      (last_page {marker = codes "team/x"} {page = second} refl refl)

page_loop-Chain_example :
    page_loop bare noting live (answered bare noting live pages) 2 [] []
    ≡ unless_error
        (each
          (wrapped_call (λ e. e) noting)
          (codes "team/x" ∷ codes "team/a/" ∷ codes "team/y" ∷ [])
          [])
        (λ v. returns (none, v))
page_loop-Chain_example =
    page_loop-Chain bare noting live pages 2 [] (λ v. refl) two_pages (omega arith)
