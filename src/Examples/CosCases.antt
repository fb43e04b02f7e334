-- ===== src/Examples/CosCases.antt =====
-- The theorems on the COS bucket and its transport with a small client.
use objstore.Prelude.{
  ℕ, ◌≡◌, refl, sym, true, false, none, some, List, [], ◌∷◌, ◌++◌, codes, arith, if◌then◌else◌, ap,
  length,
}
use objstore.Prelude.Int.{ℤ, pos, add64}
use objstore.Text.{Str, str_eq, trim_suffix}
use objstore.Options.{apply_iter_options}
use objstore.Go.{Ctx, returns, returns_injective}
use objstore.Reader.{bytes_reader}
use objstore.Bucket.{Callback}
use objstore.ReadCloser.{ReadClosers}
use objstore.Inmem.Iter.{unless_error, each}
use objstore.Tls.Checks.{is_acceptable, meant}
use objstore.Transport.{default_transport}
use objstore.Transport.Checks.{Answer, default_transport_lem}
use objstore.Cos.Sdk.{Page, Client, CosBucket}
use objstore.Chunks.Pieces.{concat, all_sized}
use objstore.Chunks.Sending.{Sent}
use objstore.Cos.Multipart.{calls, upload_with}
use objstore.Cos.Sending.{Receives, upload_sends}
use objstore.Cos.Ranges.{range_header, header_of, range_header_lem}
use objstore.Cos.Pages.{key_of}
use objstore.Cos.Listing.{Listing, last_page, next_page, keys_of, first_error, iter_listed}
use objstore.Cos.Config.{
  Config, default_config, Constructors, is_none, is_usable, new_bucket_with_config,
  new_bucket_usable,
}
use objstore.Cos.{iter_within}
use objstore.Examples.World.{errors_pkg}
use objstore.Examples.TlsCases.{files}

-- the parts that the service keeps
abbrev Parts : Type 0
Parts = List (ℤ × Str)

abbrev first : Page
first = record {
  contents = codes "team/x" ∷ [];
  common_prefixes = codes "team/a/" ∷ [];
  is_truncated = true;
  next_marker = codes "team/x";
}

abbrev second : Page
second = record {
  contents = codes "team/y" ∷ [];
  common_prefixes = [];
  is_truncated = false;
  next_marker = [];
}

abbrev client : Client Parts ℕ
client = record {
  head = λ ctx name w. returns (([], none), w);
  put = λ ctx name r w. returns (none, w);
  initiate_multipart_upload = λ ctx name w. returns ((codes "id", none), w);
  upload_part = λ ctx name id part reader size w.
      returns (
        ((codes "tag", none), length reader.limited.bytes),
        w ++ (part, reader.limited.bytes) ∷ [],
      );
  abort_multipart_upload = λ ctx name id w. returns (none, w);
  complete_multipart_upload = λ ctx name id parts w. returns (none, w);
  delete = λ ctx name w. returns (none, w);
  get = λ ctx name range w. returns ((some (0, pos 0), none), w);
  list = λ ctx options. if str_eq options.marker [] then (first, none) else (second, none);
  sends_until_done = λ ctx. none;
  error_response = λ e. none;
}

abbrev bucket : CosBucket Parts ℕ
bucket = record { client = client; name = codes "data" }

abbrev live : Ctx Parts
live = record { err = λ w. none; value = λ k. none }

abbrev rcs : ReadClosers Parts ℕ
rcs = record {
  size = λ r. (pos 0, none);
  read = λ len r w. returns ((0, none, r), w);
  close = λ r w. returns ((none, r), w);
}

client-Receives : Receives bucket live (codes "o") (λ w. w)
client-Receives id part size reader w w' etag n h =
    let e = returns_injective h in (sym (ap (λ x. x.0.1) e), sym (ap (λ x. x.1) e))

abbrev kept : Parts
kept = (pos 1, codes "hell") ∷ (pos 2, codes "o") ∷ []

upload_sends_example :
    (id : Str) × (w0 : Parts) × (cs : List Str) × (client.initiate_multipart_upload live
        (codes "o")
        []
      ≡ returns ((id, none), w0))
    × Sent (calls bucket live (codes "o") id) (λ x. x.number) (λ w. w) 1 cs [] w0 kept
    × (concat cs ≡ codes "hello")
    × (all_sized 4 cs ≡ true)
unfolding upload_with add64
upload_sends_example =
    upload_sends bucket live (codes "o") (λ w. w) 4 (bytes_reader (codes "hello")) [] kept
      client-Receives (omega arith) (omega arith) (omega arith) refl refl

range_header_lem_example : range_header (pos 2) (pos 3) ≡ some (header_of 2 3)
range_header_lem_example = range_header_lem 2 3 (omega arith)

abbrev noting : Callback Parts
noting key w = returns (none, (pos 0, key) ∷ w)

two_pages :
    Listing
      (client.list live)
      (codes "team/")
      (codes "/")
      []
      2
      (key_of (codes "team/x") ∷ key_of (codes "team/a/") ∷ key_of (codes "team/y") ∷ [])
unfolding str_eq
two_pages =
    next_page {marker = []} {page = first} refl refl
      (last_page {marker = codes "team/x"} {page = second} refl refl)

iter_listed_example :
    iter_within errors_pkg rcs bucket 2 live (codes "team") noting [] []
    ≡ unless_error
        (each noting
          (keys_of
            (key_of (codes "team/x") ∷ key_of (codes "team/a/") ∷ key_of (codes "team/y") ∷ []))
          [])
        (λ v. returns (none, v))
unfolding first_error iter_within trim_suffix apply_iter_options
iter_listed_example =
    iter_listed errors_pkg rcs bucket 2 2 live (codes "team") noting [] _ [] two_pages (omega arith)

abbrev usable : Config ℕ
usable = record default_config {
  endpoint = codes "https://cos";
  secret_id = codes "id";
  secret_key = codes "key";
}

default_transport_lem_example :
    Answer usable.http_config
      (meant files usable.http_config.tls_config)
      (is_acceptable files usable.http_config.tls_config)
      (default_transport files usable.http_config)
default_transport_lem_example = default_transport_lem files usable.http_config

abbrev new : Constructors Parts ℕ Str ℕ
new = record {
  parse_url = λ s. (s, none);
  new_bucket_url = λ name region secure. (name, none);
  new_client = λ url tpt id key. client;
}

new_bucket_usable_example :
    is_none (new_bucket_with_config new files usable).1 ≡ is_usable new files usable
new_bucket_usable_example = new_bucket_usable new files usable
