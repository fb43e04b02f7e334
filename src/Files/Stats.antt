-- ===== src/Files/Stats.antt =====
-- os.Stat and the objects below the node that it finds.
use objstore.Prelude.{◌≡◌, refl, sym, true, Option, none, some, [], ◌∷◌, ◌++◌, arith, ◌∙◌, ap}
use objstore.Text.{Str, str_eq}
use objstore.Text.Laws.{str_eq_iff}
use objstore.Errors.{not_exist}
use objstore.Files.{Node, file, dir, Entries, FilePath, Result, ok, fails, find, stat, not_dir}
use objstore.Files.Laws.{at, at_node, at-cons, at_nil, is_under}

abbrev pub stat_node : FilePath → Option Node → Result Node
stat_node p none = fails not_exist
stat_node p (some (dir sub)) = stat p sub
stat_node [] (some (file body)) = ok (file body)
stat_node (d ∷ q) (some (file body)) = fails not_dir

stat_found :
    (c : Str) (p : FilePath) (es : Entries) (o : Option Node)
    → find c es ≡ o
    → stat (c ∷ p) es ≡ stat_node p o
unfolding stat
stat_found c p es none h = rw (h, stat) refl
stat_found c p es (some (dir sub)) h = rw (h, stat) refl
stat_found c [] es (some (file body)) h = rw (h, stat) refl
stat_found c (d ∷ q) es (some (file body)) h = rw (h, stat) refl

pub stat_root : (es : Entries) → stat [] es ≡ ok (dir es)
unfolding stat
stat_root es = refl

pub stat-cons : (c : Str) (p : FilePath) (es : Entries) → stat (c ∷ p) es ≡ stat_node p (find c es)
stat-cons c p es = stat_found c p es (find c es) refl

-- the object at a path below a node
abbrev pub at_result : FilePath → Result Node → Option Str
at_result r (fails e) = none
at_result r (ok (dir sub)) = at r sub
at_result [] (ok (file body)) = some body
at_result (d ∷ r) (ok (file body)) = none

at_below_node :
    (p r : FilePath) (o : Option Node)
    → ((sub : Entries) → at (p ++ r) sub ≡ at_result r (stat p sub))
    → at_node (p ++ r) o ≡ at_result r (stat_node p o)
at_below_node p r none h = refl
at_below_node p r (some (dir sub)) h = h sub
at_below_node [] [] (some (file body)) h = refl
at_below_node [] (d ∷ r) (some (file body)) h = refl
at_below_node (c ∷ p) r (some (file body)) h = refl

pub at_below : (p r : FilePath) (es : Entries) → at (p ++ r) es ≡ at_result r (stat p es)
at_below [] r es = rw (stat_root es) refl
at_below (c ∷ p) r es =
    rw (at-cons c (p ++ r) es, stat-cons c p es) (at_below_node p r (find c es) (at_below p r))

pub is_under_rest : (p q : FilePath) → is_under p q ≡ true → (r : FilePath) × (q ≡ p ++ r)
unfolding is_under
is_under_rest [] q h = (q, refl)
is_under_rest (c ∷ p) [] h = cc
is_under_rest (c ∷ p) (d ∷ q) h =
    let e : str_eq c d ≡ true = ground (arith, h) in
    let (r, k) = is_under_rest p q (ground (arith, h)) in
    (r, ap (λ x. x ∷ q) (sym ((str_eq_iff c d).0 e)) ∙ ap (λ t. c ∷ t) k)

-- What is at or below a path is at or below the node that os.Stat finds there.
pub under_result :
    (p q : FilePath) (es : Entries)
    → is_under p q ≡ true
    → (r : FilePath) × (at q es ≡ at_result r (stat p es))
under_result p q es u =
    let (r, e) = is_under_rest p q u in (r, ap (λ t. at t es) e ∙ at_below p r es)

-- An object at a path is the file that os.Stat finds there.
pub file_of_result :
    (n : Result Node) (body : Str) → at_result [] n ≡ some body → n ≡ ok (file body)
file_of_result (fails e) body h = cc
file_of_result (ok (dir sub)) body h = cc (at_nil sub, h)
file_of_result (ok (file old)) body h = cc

append_nil : (p : FilePath) → p ++ [] ≡ p
append_nil [] = refl
append_nil (c ∷ p) = ap (λ t. c ∷ t) (append_nil p)

pub stat_lem :
    (p : FilePath) (es : Entries) (body : Str) → at p es ≡ some body → stat p es ≡ ok (file body)
stat_lem p es body h =
    file_of_result (stat p es) body
      (sym (at_below p [] es) ∙ (ap (λ t. at t es) (append_nil p) ∙ h))
