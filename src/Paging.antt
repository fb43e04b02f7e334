-- ===== src/Paging.antt =====
-- The loop of Iter over the pages of a listing, as the providers bos, oss and obs have it.
use objstore.Prelude.{
  ℕ, zero, suc, ◌≡◌, refl, sym, ◌≤◌, true, false, Option, none, some, List, [], ◌∷◌, ◌++◌,
  if◌then◌else◌, arith, ◌∙◌, ap, fun_ext,
}
use mathlib.Core.List.{append_assoc}
use objstore.Text.{Str}
use objstore.Errors.{Error}
use objstore.Go.{returns, panics, Go, Ctx, Fallible, ◌>>=◌}
use objstore.Bucket.{Callback}
use objstore.Inmem.Iter.{unless_error, each}
use objstore.S3.Listing.{unless_error_assoc}
use objstore.Cos.Sdk.{Page}

-- what the errors of the context, of a request and of a call of `f` are wrapped in
pub record Wrapping : Type 0 where
  pub closed : Error → Error
  pub failed : Error → Error
  pub called : Error → Error

abbrev pub in_case : (Error → Error) → Option Error → Option Error
in_case g none = none
in_case g (some e) = some (g e)

abbrev pub wrapped_call : {W : Type 0} → (Error → Error) → Callback W → Callback W
wrapped_call g f key w = elim (f key w) [
  | returns r ↦ returns (in_case g r.0, r.1)
  | panics ↦ panics
]

module _ {W : Type 0} (wrap : Wrapping) (f : Callback W) where
  -- a page, and the loop from its next marker on
  abbrev pub visit_page : Fallible Page → (Str → Go W (Option Error)) → Go W (Option Error)
  visit_page (page, some e) next w = returns (some (wrap.failed e), w)
  visit_page (page, none) next w =
      let rest =
        λ (v : W). if page.is_truncated then next page.next_marker v else returns (none, v) in
      unless_error (each (wrapped_call wrap.called f) page.contents w)
        (λ v. unless_error (each (wrapped_call wrap.called f) page.common_prefixes v) rest)

  -- the loop, over at most `fuel` pages; a longer listing has no outcome
  unfoldable pub page_loop : Ctx W → (Str → Go W (Fallible Page)) → ℕ → Str → Go W (Option Error)
  unfolding each unless_error
  page_loop ctx list zero marker w = panics
  page_loop ctx list (suc fuel) marker w =
      let next = page_loop ctx list fuel in
      let pages = (list marker >>= λ r. visit_page r next) w in
      elim (ctx.err w) [ some e ↦ returns (some (wrap.closed e), w) | none ↦ pages ]

-- The listings of a service that answers a request for a page with the same page, from a marker on:
-- the number of their pages, the keys of these, common prefixes last, and the error of the last.
pub data Chain (wrap : Wrapping) (pages : Str → Fallible Page)
    : Str → ℕ → List Str → Option Error → Type 0 where
  last_page :
      {marker : Str} {page : Page}
      → pages marker ≡ (page, none)
      → page.is_truncated ≡ false
      → Chain wrap pages marker 1 (page.contents ++ page.common_prefixes) none
  failed_page :
      {marker : Str} {page : Page} {e : Error}
      → pages marker ≡ (page, some e)
      → Chain wrap pages marker 1 [] (some (wrap.failed e))
  next_page :
      {marker : Str} {page : Page} {n : ℕ} {keys : List Str} {err : Option Error}
      → pages marker ≡ (page, none)
      → page.is_truncated ≡ true
      → Chain wrap pages page.next_marker n keys err
      → Chain wrap pages marker (suc n) (page.contents ++ (page.common_prefixes ++ keys)) err

each-append :
    {W : Type 0} (g : Callback W) (ks ls : List Str) (w : W)
    → each g (ks ++ ls) w ≡ unless_error (each g ks w) (each g ls)
unfolding each unless_error
each-append g [] ls w = refl
each-append g (k ∷ ks) ls w =
    ap (unless_error (g k w)) (fun_ext (each-append g ks ls))
    ∙ sym (unless_error_assoc (g k w) (each g ks) (each g ls))

module _ {W : Type 0} (wrap : Wrapping) (f : Callback W) (ctx : Ctx W)
    (pages : Str → Fallible Page) where
  -- the requests, which do not change the world
  abbrev pub answered : Str → Go W (Fallible Page)
  answered marker w = returns (pages marker, w)

  round :
      (fuel : ℕ) (marker : Str) (w : W)
      → ((v : W) → ctx.err v ≡ none)
      → page_loop wrap f ctx answered (suc fuel) marker w
        ≡ visit_page wrap f (pages marker) (page_loop wrap f ctx answered fuel) w
  unfolding page_loop
  round fuel marker w live = rw (live w, page_loop) refl

  visited :
      (page : Page) (next : Str → Go W (Option Error)) (rest : Go W (Option Error)) (w : W)
      → ((v : W)
          → (if page.is_truncated then next page.next_marker v else returns (none, v)) ≡ rest v)
      → visit_page wrap f (page, none) next w
        ≡ unless_error
            (each (wrapped_call wrap.called f) (page.contents ++ page.common_prefixes) w)
            rest
  visited page next rest w h =
      let g = wrapped_call wrap.called f in
      ap
        (λ k.
          unless_error (each g page.contents w)
            (λ v. unless_error (each g page.common_prefixes v) k))
        (fun_ext h)
      ∙ (sym (unless_error_assoc (each g page.contents w) (each g page.common_prefixes) rest)
          ∙ ap (λ x. unless_error x rest)
              (sym (each-append g page.contents page.common_prefixes w)))

  -- On fuel for the pages of a listing, and under a context that is not done, the loop calls `f` on
  -- the keys of the pages, in their order, up to the first error, and else returns the error of the
  -- last request.
  pub page_loop-Chain :
      {marker : Str} {n : ℕ} {keys : List Str} {err : Option Error} (fuel : ℕ) (w : W)
      → ((v : W) → ctx.err v ≡ none)
      → Chain wrap pages marker n keys err
      → n ≤ fuel
      → page_loop wrap f ctx answered fuel marker w
        ≡ unless_error (each (wrapped_call wrap.called f) keys w) (λ v. returns (err, v))
  page_loop-Chain zero w live (last_page e t) h = absurd (omega (arith, h))
  page_loop-Chain zero w live (failed_page e) h = absurd (omega (arith, h))
  page_loop-Chain zero w live (next_page e t l) h = absurd (omega (arith, h))
  page_loop-Chain (suc fuel) w live (last_page {marker} {page} e t) h =
      let next = page_loop wrap f ctx answered fuel in
      round fuel marker w live
      ∙ (ap (λ r. visit_page wrap f r next w) e
          ∙ visited page next (λ v. returns (none, v)) w (λ v. rw t refl))
  page_loop-Chain (suc fuel) w live (failed_page {marker} {page} e) h =
      round fuel marker w live
      ∙ (ap (λ r. visit_page wrap f r (page_loop wrap f ctx answered fuel) w) e
          ∙ unfold each unless_error in refl)
  page_loop-Chain (suc fuel) w live (next_page {marker} {page} {keys} {err} e t l) h =
      let next = page_loop wrap f ctx answered fuel in
      let g = wrapped_call wrap.called f in
      let end = λ (v : W). returns (err, v) in
      let rest = λ (v : W). unless_error (each g keys v) end in
      let both = page.contents ++ page.common_prefixes in
      round fuel marker w live
      ∙ (ap (λ r. visit_page wrap f r next w) e
          ∙ (visited page next rest w (λ v. rw t (page_loop-Chain fuel v live l (omega (arith, h))))
              ∙ (sym (unless_error_assoc (each g both w) (each g keys) end)
                  ∙ (ap (λ x. unless_error x end) (sym (each-append g both keys w))
                      ∙ ap (λ ks. unless_error (each g ks w) end)
                          (append_assoc page.contents page.common_prefixes keys)))))
