-- ===== src/Inmem/Tests.antt =====
-- The acceptance test's listings, evaluated.
use objstore.Prelude.{◌≡◌, refl, false, [], ◌∷◌, codes, List}
use objstore.Text.{Str, has_prefix, str_eq, split_after, join, has_suffix, str_less}
use objstore.Text.Split.{count_nonempty}
use objstore.Go.{Outcome, returns, panics}
use objstore.Options.{IterParams}
use objstore.Inmem.Iter.{list_keys, add_unique}

abbrev names : List Str
names =
    codes "id1/obj_1.some"
    ∷ codes "id1/obj_2.some"
    ∷ codes "id1/sub/subobj_1.some"
    ∷ codes "id2/obj_4.some"
    ∷ codes "obj_5.some"
    ∷ []

abbrev flat : IterParams
flat = record { recursive = false }

listing : Str → Outcome (List Str)
unfolding list_keys has_prefix str_eq count_nonempty split_after add_unique join has_suffix str_less
listing dir = list_keys names dir flat

top : listing [] ≡ returns (codes "obj_5.some" ∷ codes "id1/" ∷ codes "id2/" ∷ [])
unfolding listing
top = refl

id1 :
    listing (codes "id1")
    ≡ returns (codes "id1/obj_1.some" ∷ codes "id1/obj_2.some" ∷ codes "id1/sub/" ∷ [])
unfolding listing
id1 = refl

obj : listing (codes "obj") ≡ panics
unfolding listing
obj = refl
