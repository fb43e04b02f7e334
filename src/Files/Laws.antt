-- ===== src/Files/Laws.antt =====
-- Which objects the files hold, and what the calls of package os do to them.
use objstore.Prelude.{
  ◌≡◌, refl, sym, Bool, true, false, ◌&&◌, Option, none, some, [], ◌∷◌, arith, if◌then◌else◌,
  Bool-cases, Option-cases, inl, inr, ◌⊎◌, ◌∙◌, ap, subst,
}
use objstore.Text.{Str, str_eq}
use objstore.Text.Laws.{str_eq_iff}
use objstore.Errors.{Error}
use objstore.Files.{
  Node, file, dir, Entries, no_entries, entry, FilePath, Result, ok, fails, find, set, unset,
  mkdir_all, within, not_dir,
}

-- the content of the file at a path, if there is a file
unfoldable pub at : FilePath → Entries → Option Str
unfolding find
at [] es = none
at (c ∷ p) es = elim (find c es) [
  | none ↦ none
  | some (dir sub) ↦ at p sub
  | some (file body) ↦ elim p [ [] ↦ some body | d ∷ q ↦ none ]
]

-- whether a path is `p` or below it
unfoldable pub is_under : FilePath → FilePath → Bool
unfolding str_eq
is_under [] q = true
is_under (c ∷ p) [] = false
is_under (c ∷ p) (d ∷ q) = str_eq c d && is_under p q

pub find-set :
    (c d : Str) (n : Node) (es : Entries)
    → find d (set c n es) ≡ (if str_eq c d then some n else find d es)
unfolding find set
find-set c d n no_entries = refl
find-set c d n (entry k m es) =
    ground (arith, str_eq_iff c d, str_eq_iff k c, str_eq_iff k d, find-set c d n es)

pub find-unset :
    (c d : Str) (es : Entries) → find d (unset c es) ≡ (if str_eq c d then none else find d es)
unfolding find unset
find-unset c d no_entries = ground arith
find-unset c d (entry k m es) =
    ground (arith, str_eq_iff c d, str_eq_iff k c, str_eq_iff k d, find-unset c d es)

-- the file that a path finds from the entry of its first component on
abbrev pub at_node : FilePath → Option Node → Option Str
at_node p none = none
at_node p (some (dir sub)) = at p sub
at_node [] (some (file body)) = some body
at_node (d ∷ q) (some (file body)) = none

at_found :
    (c : Str) (p : FilePath) (es : Entries) (o : Option Node)
    → find c es ≡ o
    → at (c ∷ p) es ≡ at_node p o
unfolding at
at_found c p es none h = rw (h, at) refl
at_found c p es (some (dir sub)) h = rw (h, at) refl
at_found c [] es (some (file body)) h = rw (h, at) refl
at_found c (d ∷ q) es (some (file body)) h = rw (h, at) refl

pub at-cons : (c : Str) (p : FilePath) (es : Entries) → at (c ∷ p) es ≡ at_node p (find c es)
at-cons c p es = at_found c p es (find c es) refl

pub at_no_entries : (p : FilePath) → at p no_entries ≡ none
unfolding at find
at_no_entries [] = refl
at_no_entries (c ∷ p) = refl

pub at_nil : (es : Entries) → at [] es ≡ none
unfolding at
at_nil es = refl

-- What is at a path once one name has another node: at other names nothing changes.
pub at-set :
    (c d : Str) (p : FilePath) (n : Node) (es : Entries)
    → at (d ∷ p) (set c n es) ≡ (if str_eq c d then at_node p (some n) else at (d ∷ p) es)
at-set c d p n es = elim (Bool-cases (str_eq c d)) [
  | inl x ↦ rw (at-cons d p (set c n es), find-set c d n es, x) refl
  | inr x ↦ rw (at-cons d p (set c n es), find-set c d n es, x) (sym (at-cons d p es))
]

pub Result-cases :
    {A : Type 0} (r : Result A) → ((a : A) × (r ≡ ok a)) ⊎ ((e : Error) × (r ≡ fails e))
Result-cases (ok a) = inl (a, refl)
Result-cases (fails e) = inr (e, refl)

pub ok_injective : {A : Type 0} {a b : A} → ok a ≡ ok b → a ≡ b
ok_injective h = cc

-- A directory with the objects that were below its name leaves all objects as they were.
set_same :
    (c : Str) (es sub : Entries)
    → ((q : FilePath) → at q sub ≡ at_node q (find c es))
    → (q : FilePath) → at q (set c (dir sub) es) ≡ at q es
set_same c es sub same [] = at_nil (set c (dir sub) es) ∙ sym (at_nil es)
set_same c es sub same (d ∷ q) = elim (Bool-cases (str_eq c d)) [
  | inr x ↦ rw (at-set c d q (dir sub) es, x) refl
  | inl x ↦
      let e : c ≡ d = (str_eq_iff c d).0 x in
      rw (at-set c d q (dir sub) es, x, same q, at-cons d q es) (ap (λ k. at_node q (find k es)) e)
]

-- a call below the name that succeeds
pub within_ok :
    (c : Str) (es es' : Entries) (r : Result Entries)
    → within c es r ≡ ok es'
    → (sub : Entries) × (r ≡ ok sub) × (set c (dir sub) es ≡ es')
within_ok c es es' (ok sub) h = (sub, refl, ok_injective h)
within_ok c es es' (fails e) h = cc

mkdir_new :
    (c : Str) (p : FilePath) (es : Entries)
    → find c es ≡ none
    → mkdir_all (c ∷ p) es ≡ within c es (mkdir_all p no_entries)
unfolding mkdir_all
mkdir_new c p es h = rw (h, mkdir_all) refl

mkdir_below :
    (c : Str) (p : FilePath) (es sub : Entries)
    → find c es ≡ some (dir sub)
    → mkdir_all (c ∷ p) es ≡ within c es (mkdir_all p sub)
unfolding mkdir_all
mkdir_below c p es sub h = rw (h, mkdir_all) refl

mkdir_file :
    (c : Str) (p : FilePath) (es : Entries) (body : Str)
    → find c es ≡ some (file body)
    → mkdir_all (c ∷ p) es ≡ fails not_dir
unfolding mkdir_all
mkdir_file c p es body h = rw (h, mkdir_all) refl

-- a directory below the name, made or changed by such a call
changed_same :
    (c : Str) (es es' : Entries) (r : Result Entries)
    → ((sub : Entries) → r ≡ ok sub → (q : FilePath) → at q sub ≡ at_node q (find c es))
    → within c es r ≡ ok es'
    → (q : FilePath) → at q es' ≡ at q es
changed_same c es es' r same h q =
    let (sub, e, k) = within_ok c es es' r h in
    subst (λ t. at q t ≡ at q es) k (set_same c es sub (same sub e) q)

-- MkdirAll leaves the objects alone.
pub mkdir_all_lem :
    (p : FilePath) (es es' : Entries)
    → mkdir_all p es ≡ ok es'
    → (q : FilePath) → at q es' ≡ at q es
mkdir_all_lem [] es es' h q = ap (at q) (sym (ok_injective (unfold mkdir_all in h)))
mkdir_all_lem (c ∷ p) es es' h q = elim (Option-cases (find c es)) [
  | inl e ↦
      changed_same c es es' (mkdir_all p no_entries)
        (λ sub r k. mkdir_all_lem p no_entries sub r k ∙ (at_no_entries k ∙ rw e refl))
        (sym (mkdir_new c p es e) ∙ h) q
  | inr (file body, e) ↦ cc (mkdir_file c p es body e, h)
  | inr (dir sub, e) ↦
      changed_same c es es' (mkdir_all p sub) (λ sub' r k. mkdir_all_lem p sub sub' r k ∙ rw e refl)
        (sym (mkdir_below c p es sub e) ∙ h) q
]
