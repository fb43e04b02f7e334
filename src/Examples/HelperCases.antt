-- ===== src/Examples/HelperCases.antt =====
-- The theorems on headers, on MultiError and on the delaying bucket at concrete values.
use objstore.Prelude.{ℕ, ◌+◌, ◌≡◌, refl, true, Option, none, some, List, [], ◌∷◌, codes, ◌↔◌}
use objstore.Prelude.Int.{pos}
use objstore.Text.{str_eq}
use objstore.Text.Decimal.{number_from, all_digits}
use objstore.Dict.{lookup}
use objstore.Errors.{Error, multi, nil, cons, eof, canceled}
use objstore.Reader.{Reader}
use objstore.Bucket.{Bucket}
use objstore.Inmem.Instance.{in_mem_bucket}
use objstore.Examples.World.{World, place, errors_pkg}
use objstore.Headers.{Header}
use objstore.Headers.Clientutil
use objstore.Headers.Laws.{content_length_digits}
use objstore.Errutil.{err, count}
use objstore.Errutil.Flat.{
  is_flat, is_flat_error, is_single, all_flat, add_all, total, add_all_flat,
}

abbrev response : Header
response =
    (codes "Last-Modified", []) ∷ (codes "Content-Length", codes "0042" ∷ codes "7" ∷ []) ∷ []

content_length_digits_example : Clientutil.parse_content_length response ≡ (pos 42, none)
unfolding number_from
content_length_digits_example =
    content_length_digits response (codes "0042") (codes "7" ∷ []) (unfold lookup str_eq in refl)
      (λ h. cc) (unfold all_digits in refl)

abbrev printed : Header
printed = (codes "Content-Length", codes "9001" ∷ []) ∷ []

abbrev met : List (Option Error)
met = none ∷ some eof ∷ some (multi (cons canceled (cons eof nil))) ∷ []

add_all_flat_example :
    (is_flat (add_all nil met) ≡ true)
    × (count (add_all nil met) ≡ total met)
    × ((err (add_all nil met) ≡ none) ↔ (total met ≡ 0))
unfolding is_flat is_flat_error is_single
add_all_flat_example = add_all_flat met (unfold all_flat in refl)

abbrev base : Bucket World Reader
base = in_mem_bucket place errors_pkg

abbrev sleep : ℕ → World → World
sleep n w = record w { clock = w.clock + n }
