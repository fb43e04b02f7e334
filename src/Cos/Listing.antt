-- ===== src/Cos/Listing.antt =====
-- What Iter of the COS bucket makes of the pages of a listing.
use objstore.Prelude.{
  ℕ, zero, suc, ◌≡◌, refl, ◌≤◌, true, false, Option, none, some, List, [], ◌∷◌, ◌++◌, if◌then◌else◌,
  arith, Option-cases, Bool-cases, inl, inr, fun_ext, ap, ◌∙◌, map,
}
use mathlib.Core.List.{append-nil}
use objstore.Text.{Str, str_eq, dir_delim}
use objstore.Errors.{Error, ErrorsPkg}
use objstore.Go.{returns, Go, Ctx, Fallible}
use objstore.ReadCloser.{ReadClosers}
use objstore.Options.{IterOption, apply_iter_options}
use objstore.Bucket.{Callback}
use objstore.Inmem.Iter.{unless_error, each}
use objstore.S3.Listing.{unless_error_assoc}
use objstore.Cos.Sdk.{ListOptions, Page, CosBucket}
use objstore.Cos.Pages.{
  ObjectInfo, key_of, error_of, send_keys, send_page, list_pages, until_done, option_map,
  list_objects, visit,
}
use objstore.Cos.{iter_within, received, dir_prefix}

-- the request for the page at a marker
abbrev pub request : Str → Str → Str → ListOptions
request prefix delimiter marker = record {
  prefix = prefix;
  max_keys = 1000;
  marker = marker;
  delimiter = delimiter;
}

-- The listings of a service, from a marker on, with the number of their pages and what is sent of
-- them: a page that is the last one, one with an error, and one in front of a listing from its
-- next marker on.
pub data Listing (list : ListOptions → Fallible Page) (prefix delimiter : Str)
    : Str → ℕ → List ObjectInfo → Type 0 where
  last_page :
      {marker : Str} {page : Page}
      → list (request prefix delimiter marker) ≡ (page, none)
      → page.is_truncated ≡ false
      → Listing list prefix delimiter marker 1
          (map key_of page.contents ++ map key_of page.common_prefixes)
  failed_page :
      {marker : Str} {page : Page} {e : Error}
      → list (request prefix delimiter marker) ≡ (page, some e)
      → Listing list prefix delimiter marker 1 (error_of e ∷ [])
  next_page :
      {marker : Str} {page : Page} {n : ℕ} {objects : List ObjectInfo}
      → list (request prefix delimiter marker) ≡ (page, none)
      → page.is_truncated ≡ true
      → Listing list prefix delimiter page.next_marker n objects
      → Listing list prefix delimiter marker
          (suc n)
          (map key_of page.contents ++ (map key_of page.common_prefixes ++ objects))

send_keys_lem :
    (keys : List Str) (rest : List ObjectInfo) → send_keys keys rest ≡ map key_of keys ++ rest
unfolding send_keys
send_keys_lem [] rest = refl
send_keys_lem (key ∷ keys) rest = ap (λ t. key_of key ∷ t) (send_keys_lem keys rest)

send_last :
    (page : Page) (next : Str → Option (List ObjectInfo))
    → page.is_truncated ≡ false
    → send_page (page, none) next
      ≡ some (map key_of page.contents ++ map key_of page.common_prefixes)
send_last page next t =
    rw (t, send_page)
      (ap some (
        send_keys_lem page.contents (send_keys page.common_prefixes [])
        ∙ ap (λ k. map key_of page.contents ++ k)
            (send_keys_lem page.common_prefixes [] ∙ append-nil (map key_of page.common_prefixes))))

send_next :
    (page : Page) (next : Str → Option (List ObjectInfo)) (objects : List ObjectInfo)
    → page.is_truncated ≡ true
    → next page.next_marker ≡ some objects
    → send_page (page, none) next
      ≡ some (map key_of page.contents ++ (map key_of page.common_prefixes ++ objects))
send_next page next objects t h =
    rw (t, send_page)
      (rw h (
        ap some (
          send_keys_lem page.contents (send_keys page.common_prefixes objects)
          ∙ ap (λ k. map key_of page.contents ++ k) (send_keys_lem page.common_prefixes objects))))

-- On fuel for its pages the loop of listObjects sends a listing.
pub list_pages-Listing :
    {list : ListOptions → Fallible Page} {prefix delimiter marker : Str} {n : ℕ}
    {objects : List ObjectInfo}
    → (fuel : ℕ) → Listing list prefix delimiter marker n objects
    → n ≤ fuel
    → list_pages list fuel prefix delimiter marker ≡ some objects
unfolding list_pages
list_pages-Listing zero (last_page e t) h = absurd (omega (arith, h))
list_pages-Listing zero (failed_page e) h = absurd (omega (arith, h))
list_pages-Listing zero (next_page e t l) h = absurd (omega (arith, h))
list_pages-Listing {list} {prefix} {delimiter} (suc fuel) (last_page {page} e t) h =
    ap (λ x. send_page x (list_pages list fuel prefix delimiter)) e
    ∙ send_last page (list_pages list fuel prefix delimiter) t
list_pages-Listing {list} {prefix} {delimiter} (suc fuel) (failed_page e) h =
    ap (λ x. send_page x (list_pages list fuel prefix delimiter)) e
list_pages-Listing {list} {prefix} {delimiter} (suc fuel) (next_page {page} {objects} e t l) h =
    ap (λ x. send_page x (list_pages list fuel prefix delimiter)) e
    ∙ send_next page (list_pages list fuel prefix delimiter) objects t
        (list_pages-Listing fuel l (omega (arith, h)))

-- A call of `f` for each key that is not empty, up to the first error.
unfoldable pub keys_of : List ObjectInfo → List Str
unfolding str_eq
keys_of [] = []
keys_of (object ∷ objects) =
    let rest = keys_of objects in
    elim object.err [
      | some e ↦ []
      | none ↦ if str_eq object.key [] then rest else object.key ∷ rest
    ]

-- the first error of a listing
unfoldable pub first_error : List ObjectInfo → Option Error
first_error [] = none
first_error (object ∷ objects) =
    let rest = first_error objects in elim object.err [ some e ↦ some e | none ↦ rest ]

module _ {W : Type 0} (f : Callback W) where
  abbrev ending : List ObjectInfo → Go W (Option Error)
  ending objects w = returns (first_error objects, w)

  failed_step :
      (object : ObjectInfo) (objects : List ObjectInfo) (e : Error) (w : W)
      → object.err ≡ some e
      → visit f (object ∷ objects) w
        ≡ unless_error (each f (keys_of (object ∷ objects)) w) (ending (object ∷ objects))
  unfolding visit keys_of first_error each unless_error
  failed_step object objects e w h = rw h refl

  end_step :
      (object : ObjectInfo) (objects : List ObjectInfo)
      → object.err ≡ none
      → ending (object ∷ objects) ≡ ending objects
  unfolding first_error
  end_step object objects h = rw h refl

  empty_step :
      (object : ObjectInfo) (objects : List ObjectInfo) (w : W)
      → object.err ≡ none
      → str_eq object.key [] ≡ true
      → (visit f (object ∷ objects) w ≡ visit f objects w)
        × (keys_of (object ∷ objects) ≡ keys_of objects)
  unfolding visit keys_of
  empty_step object objects w h x = (rw (h, x) refl, rw (h, x) refl)

  called_step :
      (object : ObjectInfo) (objects : List ObjectInfo) (w : W)
      → object.err ≡ none
      → str_eq object.key [] ≡ false
      → (visit f (object ∷ objects) w ≡ unless_error (f object.key w) (visit f objects))
        × (each f (keys_of (object ∷ objects)) w
            ≡ unless_error (f object.key w) (each f (keys_of objects)))
  unfolding visit keys_of each
  called_step object objects w h x = (rw (h, x) refl, rw (h, x) refl)

  visited_all :
      (objects : List ObjectInfo) (w : W)
      → visit f objects w ≡ unless_error (each f (keys_of objects) w) (ending objects)
  visited_all [] w = unfold visit keys_of each unless_error first_error in refl
  visited_all (object ∷ objects) w = elim (Option-cases object.err) [
    | inr (e, h) ↦ failed_step object objects e w h
    | inl h ↦ elim (Bool-cases (str_eq object.key [])) [
      | inl x ↦
          let (v, k) = empty_step object objects w h x in
          rw (v, k, end_step object objects h) (visited_all objects w)
      | inr x ↦
          let (v, k) = called_step object objects w h x in
          rw (v, k, end_step object objects h)
            (rw (unless_error_assoc (f object.key w) (each f (keys_of objects)) (ending objects))
              (ap (unless_error (f object.key w)) (fun_ext (visited_all objects))))
    ]
  ]

module _ {W R : Type 0} (p : ErrorsPkg) (rcs : ReadClosers W R) (b : CosBucket W R) where
  -- On fuel for the pages of the listing Iter calls `f` on the keys of the pages, each page's
  -- common prefixes last, without empty ones, up to the first error of a page or of a call, which it
  -- returns. A context that is done ends the listing behind any number of its objects, and Iter
  -- then returns as if these were all.
  pub iter_listed :
      (fuel n : ℕ) (ctx : Ctx W) (dir : Str) (f : Callback W) (options : List IterOption)
      (objects : List ObjectInfo) (w : W)
      → Listing
          (b.client.list ctx)
          (dir_prefix dir)
          (if (apply_iter_options options).recursive then [] else dir_delim)
          []
          n
          objects
      → n ≤ fuel
      → iter_within p rcs b fuel ctx dir f options w
        ≡ unless_error
            (each f (keys_of (until_done (b.client.sends_until_done ctx) objects)) w)
            (λ v. returns (first_error (until_done (b.client.sends_until_done ctx) objects), v))
  unfolding iter_within list_objects
  iter_listed fuel n ctx dir f options objects w l h =
      ap (λ o. received p rcs b f (option_map (until_done (b.client.sends_until_done ctx)) o) w)
        (list_pages-Listing fuel l h)
      ∙ visited_all f (until_done (b.client.sends_until_done ctx) objects) w
