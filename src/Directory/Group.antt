-- ===== src/Directory/Group.antt =====
-- Package errgroup. The functions of a group run one after the other, each once the one before has
-- ended; with a limit above 1 they may do so in any order, with the limit 0 none is ever started.
use objstore.Prelude.{
  Bool, true, false, ◌≡◌, refl, sym, ◌∙◌, ap, Option, none, some, List, [], ◌∷◌, if◌then◌else◌,
}
use objstore.Prelude.Int.{ℤ, pos, eqb_ℤ}
use objstore.Errors.{Error, canceled}
use objstore.Go.{Outcome, returns, returns_injective, panics, Go, Ctx, ◌>>=◌}

-- the first error
abbrev pub first_of : Option Error → Option Error → Option Error
first_of none e = e
first_of (some e) f = some e

-- the context of a group, which the first error cancels
abbrev pub group_ctx : {W : Type 0} → Ctx W → Option Error → Ctx W
group_ctx ctx none = ctx
group_ctx ctx (some e) = record ctx { err = λ w. some canceled }

-- the functions of a group, and Wait
unfoldable pub run_group :
    {W : Type 0} → Ctx W → List (Ctx W → Go W (Option Error)) → Option Error → Go W (Option Error)
run_group ctx [] err w = returns (err, w)
run_group ctx (g ∷ gs) err w = (g (group_ctx ctx err) >>= λ e. run_group ctx gs (first_of err e)) w

-- a group with a limit; for one that waits forever stands `panics`
abbrev pub limited :
    {W : Type 0} → ℤ → Ctx W → List (Ctx W → Go W (Option Error)) → Go W (Option Error)
limited limit ctx [] = run_group ctx [] none
limited limit ctx (g ∷ gs) =
    if eqb_ℤ limit (pos 0) then (λ w. panics) else run_group ctx (g ∷ gs) none

-- The functions of a group that ends well end well, one after the other.
module _ {W : Type 0} (ctx : Ctx W) where
  -- the first function's outcome, and what follows
  after_first :
      (o : Outcome (Option Error × W)) (rest : Option Error → Go W (Option Error)) (w w' : W)
      → ((λ _. o) >>= rest) w ≡ returns (none, w')
      → (e : Option Error) × (w1 : W) × (o ≡ returns (e, w1)) × (rest e w1 ≡ returns (none, w'))
  after_first panics rest w w' h = cc
  after_first (returns (e, w1)) rest w w' h = (e, w1, refl, h)

  failed_end : (e : Error) (w : W) → run_group ctx [] (some e) w ≡ returns (some e, w)
  unfolding run_group
  failed_end e w = refl

  pub group_end : (w w' : W) → run_group ctx [] none w ≡ returns (none, w') → w ≡ w'
  unfolding run_group
  group_end w w' h = ap (λ x. x.1) (returns_injective h)

  group_next :
      (g : Ctx W → Go W (Option Error)) (gs : List (Ctx W → Go W (Option Error)))
      (err : Option Error) (w : W)
      → run_group ctx (g ∷ gs) err w
        ≡ (g (group_ctx ctx err) >>= λ e. run_group ctx gs (first_of err e)) w
  unfolding run_group
  group_next g gs err w = refl

  group_failed :
      (gs : List (Ctx W → Go W (Option Error))) (e : Error) (w w' : W)
      → run_group ctx gs (some e) w ≡ returns (none, w')
      → ⊥
  group_failed [] e w w' h = cc (failed_end e w, h)
  group_failed (g ∷ gs) e w w' h =
      let (f, w1, o, k) =
        after_first (g (group_ctx ctx (some e)) w) (λ f. run_group ctx gs (first_of (some e) f)) w
          w' (sym (group_next g gs (some e) w) ∙ h) in
      group_failed gs e w1 w' k

  stepped :
      (f : Option Error) (g : Ctx W → Go W (Option Error)) (gs : List (Ctx W → Go W (Option Error)))
      (w w1 w' : W)
      → g ctx w ≡ returns (f, w1)
      → run_group ctx gs f w1 ≡ returns (none, w')
      → (v : W) × (g ctx w ≡ returns (none, v)) × (run_group ctx gs none v ≡ returns (none, w'))
  stepped none g gs w w1 w' o k = (w1, o, k)
  stepped (some e) g gs w w1 w' o k = absurd (group_failed gs e w1 w' k)

  pub group_step :
      (g : Ctx W → Go W (Option Error)) (gs : List (Ctx W → Go W (Option Error))) (w w' : W)
      → run_group ctx (g ∷ gs) none w ≡ returns (none, w')
      → (w1 : W) × (g ctx w ≡ returns (none, w1)) × (run_group ctx gs none w1 ≡ returns (none, w'))
  group_step g gs w w' h =
      let (f, w1, o, k) =
        after_first (g ctx w) (λ f. run_group ctx gs f) w w' (sym (group_next g gs none w) ∙ h) in
      stepped f g gs w w1 w' o k

  limited_case :
      (b : Bool) (run : Go W (Option Error)) (w w' : W)
      → (if b then (λ v. panics) else run) w ≡ returns (none, w')
      → run w ≡ returns (none, w')
  limited_case true run w w' h = cc
  limited_case false run w w' h = h

  -- A group with a limit that ends well has run its functions.
  pub limited_runs :
      (limit : ℤ) (g : Ctx W → Go W (Option Error)) (gs : List (Ctx W → Go W (Option Error)))
      (w w' : W)
      → limited limit ctx (g ∷ gs) w ≡ returns (none, w')
      → run_group ctx (g ∷ gs) none w ≡ returns (none, w')
  limited_runs limit g gs w w' h =
      limited_case (eqb_ℤ limit (pos 0)) (run_group ctx (g ∷ gs) none) w w' h
