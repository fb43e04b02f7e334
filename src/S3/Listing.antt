-- ===== src/S3/Listing.antt =====
-- What Iter of the S3 bucket does with the objects that ListObjects sends.
use objstore.Prelude.{
  ◌≡◌, refl, true, false, Option, none, some, List, [], ◌∷◌, if◌then◌else◌, Option-cases,
  Bool-cases, inl, inr, fun_ext, ap,
}
use objstore.Text.{Str, str_eq}
use objstore.Errors.{Error, ErrorsPkg}
use objstore.Go.{Outcome, returns, panics, Go, Ctx}
use objstore.ReadCloser.{ReadClosers}
use objstore.Options.{IterOption, apply_iter_options}
use objstore.Bucket.{Callback}
use objstore.Inmem.Iter.{unless_error, each}
use objstore.S3.{ObjectInfo, S3Bucket, visit, iter, list_prefix}

-- The keys in front of the first error, without empty ones and the directory itself.
unfoldable pub keys_of : Str → List ObjectInfo → List Str
unfolding str_eq
keys_of dir [] = []
keys_of dir (object ∷ objects) =
    let rest = keys_of dir objects in
    elim object.err [
      | some e ↦ []
      | none ↦
          if str_eq object.key []
          then rest
          else if str_eq object.key dir
          then rest
          else object.key ∷ rest
    ]

-- The first error of a listing, else that of the context once all are visited.
unfoldable pub end_of : {W : Type 0} → Ctx W → List ObjectInfo → W → Option Error
end_of ctx [] w = ctx.err w
end_of ctx (object ∷ objects) w =
    let rest = end_of ctx objects w in elim object.err [ some e ↦ some e | none ↦ rest ]

pub unless_error_assoc :
    {W : Type 0} (x : Outcome (Option Error × W)) (g h : Go W (Option Error))
    → unless_error (unless_error x g) h ≡ unless_error x (λ w. unless_error (g w) h)
unfolding unless_error
unless_error_assoc panics g h = refl
unless_error_assoc (returns (some e, w)) g h = refl
unless_error_assoc (returns (none, w)) g h = refl

module _ {W : Type 0} (ctx : Ctx W) (dir : Str) (f : Callback W) where
  abbrev ending : List ObjectInfo → Go W (Option Error)
  ending objects w = returns (end_of ctx objects w, w)

  -- the two cases of an object, by its error
  failed_step :
      (object : ObjectInfo) (objects : List ObjectInfo) (e : Error) (w : W)
      → object.err ≡ some e
      → visit ctx dir f (object ∷ objects) w
        ≡ unless_error (each f (keys_of dir (object ∷ objects)) w) (ending (object ∷ objects))
  unfolding visit keys_of end_of each unless_error
  failed_step object objects e w h = rw h refl

  -- what is said of one object's part of the listing: its loop, its keys and its end
  abbrev Skipped : ObjectInfo → List ObjectInfo → W → Type 0
  Skipped object objects w =
      (visit ctx dir f (object ∷ objects) w ≡ visit ctx dir f objects w)
      × (keys_of dir (object ∷ objects) ≡ keys_of dir objects)

  end_step :
      (object : ObjectInfo) (objects : List ObjectInfo)
      → object.err ≡ none
      → ending (object ∷ objects) ≡ ending objects
  unfolding end_of
  end_step object objects h = rw h refl

  empty_step :
      (object : ObjectInfo) (objects : List ObjectInfo) (w : W)
      → object.err ≡ none
      → str_eq object.key [] ≡ true
      → Skipped object objects w
  unfolding visit keys_of
  empty_step object objects w h x = (rw (h, x) refl, rw (h, x) refl)

  dir_step :
      (object : ObjectInfo) (objects : List ObjectInfo) (w : W)
      → object.err ≡ none
      → str_eq object.key [] ≡ false
      → str_eq object.key dir ≡ true
      → Skipped object objects w
  unfolding visit keys_of
  dir_step object objects w h x y = (rw (h, x, y) refl, rw (h, x, y) refl)

  called_step :
      (object : ObjectInfo) (objects : List ObjectInfo) (w : W)
      → object.err ≡ none
      → str_eq object.key [] ≡ false
      → str_eq object.key dir ≡ false
      → (visit ctx dir f (object ∷ objects) w
          ≡ unless_error (f object.key w) (visit ctx dir f objects))
        × (keys_of dir (object ∷ objects) ≡ object.key ∷ keys_of dir objects)
  unfolding visit keys_of
  called_step object objects w h x y = (rw (h, x, y) refl, rw (h, x, y) refl)

  each_step :
      (k : Str) (ks : List Str) (w : W) → each f (k ∷ ks) w ≡ unless_error (f k w) (each f ks)
  unfolding each
  each_step k ks w = refl

  visited_all :
      (objects : List ObjectInfo) (w : W)
      → visit ctx dir f objects w ≡ unless_error (each f (keys_of dir objects) w) (ending objects)
  visited_all [] w = unfold visit keys_of each unless_error end_of in refl
  visited_all (object ∷ objects) w = elim (Option-cases object.err) [
    | inr (e, h) ↦ failed_step object objects e w h
    | inl h ↦ elim (Bool-cases (str_eq object.key [])) [
      | inl x ↦
          let (v, k) = empty_step object objects w h x in
          rw (v, k, end_step object objects h) (visited_all objects w)
      | inr x ↦ elim (Bool-cases (str_eq object.key dir)) [
        | inl y ↦
            let (v, k) = dir_step object objects w h x y in
            rw (v, k, end_step object objects h) (visited_all objects w)
        | inr y ↦
            let (v, k) = called_step object objects w h x y in
            rw (v, k, end_step object objects h, each_step object.key (keys_of dir objects) w)
              (rw
                (unless_error_assoc (f object.key w) (each f (keys_of dir objects))
                  (ending objects))
                (ap (unless_error (f object.key w)) (fun_ext (visited_all objects))))
      ]
    ]
  ]

module _ {W R S : Type 0} (p : ErrorsPkg) (rcs : ReadClosers W R) (b : S3Bucket W R S) where
  -- the objects that the client lists for Iter of `dir`
  abbrev pub sent : Ctx W → Str → List IterOption → W → List ObjectInfo
  sent ctx dir options w =
      b.client.list_objects ctx b.name
        (record {
          prefix = list_prefix dir;
          recursive = (apply_iter_options options).recursive;
          use_v1 = b.list_objects_v1;
        })
        w

  -- Iter calls `f` on the keys that are sent before the first error, without empty ones and the
  -- directory itself, in their order, until one call fails. If none does, it returns the error
  -- of the listing, or else that of the context after the calls.
  pub iter_sent :
      (ctx : Ctx W) (dir : Str) (f : Callback W) (options : List IterOption) (w : W)
      → let objects = sent ctx dir options w in
        iter p rcs b ctx dir f options w
        ≡ unless_error
            (each f (keys_of (list_prefix dir) objects) w)
            (λ v. returns (end_of ctx objects v, v))
  unfolding iter
  iter_sent ctx dir f options w = visited_all ctx (list_prefix dir) f (sent ctx dir options w) w
