-- ===== src/Oss/Ranges.antt =====
-- The range that GetRange of the OSS bucket asks for.
use objstore.Prelude.{
  ℕ, ◌+◌, ◌-◌, ◌≡◌, refl, sym, ◌<◌, ◌≤◌, true, false, ◌&&◌, none, some, List, ◌∷◌, take, drop,
  length, take_all, length-drop, codes, arith, ap, ◌∙◌, Bool-cases, inl, inr,
}
use objstore.Prelude.Int.{
  ℤ, pos, negsuc, eqb_ℤ, leb_ℤ, ltb_ℤ, add64_exact, sub64_exact, int64_bound,
}
use objstore.Text.{Str, str_eq}
use objstore.Text.Decimal.{parse_int}
use objstore.Dict.{lookup}
use objstore.Errors.{ErrorsPkg}
use objstore.Go.{returns, Ctx, ◌>>=◌}
use objstore.Headers.{Header}
use objstore.Oss.Sdk.{OssBucket}
use objstore.Oss.{clamped, with_value, ranged, set_range, opened, get_range}

-- A range that is in an object up to its end, with the bytes that are asked for.
abbrev pub Covers : ℕ → ℕ → ℕ → ℕ → Type 0
Covers size off n last =
    (last ≤ size)
    × ((file : Str)
        → length file ≡ size
        → take (last + 1 - off) (drop off file) ≡ take n (drop off file))

Covers-rest : (size off n : ℕ) → off < size → size ≤ off + n → Covers size off n (size - 1)
Covers-rest size off n h k = (
  omega arith,
  λ file e.
      let rest = drop off file in
      take_all (size - 1 + 1 - off) rest (omega (arith, length-drop off file, e))
      ∙ sym (take_all n rest (omega (arith, length-drop off file, e))),
)

Covers-all : (size off n : ℕ) → 0 < n → off + n - 1 ≤ size → Covers size off n (off + n - 1)
Covers-all size off n h k = (k, λ file e. ap (λ m. take m (drop off file)) (omega arith))

clamped_lem :
    (size off n : ℕ)
    → 0 < n
    → off < size
    → off + n < int64_bound
    → (last : ℕ) × (clamped (pos off) (pos (off + n - 1)) (pos size, none)
        ≡ (some (pos off, pos last), none))
      × Covers size off n last
clamped_lem size off n h k fits = elim (Bool-cases (ltb_ℤ (pos size) (pos (off + n - 1)))) [
  | inl past ↦
      let below : size < off + n - 1 = ground (arith, past) in
      (
        size - 1,
        rw (past, sub64_exact size 1 (omega arith) (omega arith)) refl,
        Covers-rest size off n k (omega arith),
      )
  | inr inside ↦
      let above : off + n - 1 ≤ size = ground (arith, inside) in
      (off + n - 1, rw inside refl, Covers-all size off n h above)
]

module _ {W R I P : Type 0} (p : ErrorsPkg) (b : OssBucket W R I P) where
  asked :
      (ctx : Ctx W) (c : ℕ) (cs : Str) (off n : ℕ)
      → 0 < n
      → off + n < int64_bound
      → get_range p b ctx (c ∷ cs) (pos off) (pos n)
        ≡ b.bucket.get_object_meta (c ∷ cs)
          >>= ranged (pos off) (pos (off + n - 1))
          >>= opened p b (c ∷ cs)
  unfolding get_range set_range str_eq
  asked ctx c cs off n h fits =
      let no_end : eqb_ℤ (pos n) (negsuc 0) ≡ false = ground arith in
      let in_order : (leb_ℤ (pos 0) (pos off) && leb_ℤ (pos off) (pos (off + n - 1))) ≡ true =
        ground arith in
      rw (no_end, add64_exact off n fits, sub64_exact (off + n) 1 (omega arith) fits, in_order) refl

  with_size :
      (c : ℕ) (cs : Str) (start end : ℤ) (h : Header) (v : Str) (vs : List Str) (w : W)
      → lookup (codes "Content-Length") h ≡ some (v ∷ vs)
      → (ranged start end (h, none) >>= opened p b (c ∷ cs)) w
        ≡ opened p b (c ∷ cs) (clamped start end (parse_int v)) w
  with_size c cs start end h v vs w header =
      ap (λ o. (with_value start end o >>= opened p b (c ∷ cs)) w) header

  -- A range from an offset in an object and of a length that is not 0, with a sum that is an int64,
  -- asks for the bytes from the offset to a last one, which is at most the size of the object, and
  -- these are the bytes that the object has there, up to the length; if the client says the size.
  pub get_range-Covers :
      (ctx : Ctx W) (c : ℕ) (cs : Str) (size off n : ℕ) (h : Header) (v : Str) (vs : List Str)
      (w w' : W)
      → b.bucket.get_object_meta (c ∷ cs) w ≡ returns ((h, none), w')
      → lookup (codes "Content-Length") h ≡ some (v ∷ vs)
      → parse_int v ≡ (pos size, none)
      → 0 < n
      → off < size
      → off + n < int64_bound
      → (last : ℕ) × (get_range p b ctx (c ∷ cs) (pos off) (pos n) w
          ≡ opened p b (c ∷ cs) (some (pos off, pos last), none) w')
        × Covers size off n last
  get_range-Covers ctx c cs size off n h v vs w w' meta header number q inside fits =
      let (last, range, covers) = clamped_lem size off n q inside fits in
      (
        last,
        ap (λ g. g w) (asked ctx c cs off n q fits)
            ∙ (ap
                  (λ o.
                    ((λ _. o) >>= ranged (pos off) (pos (off + n - 1)) >>= opened p b (c ∷ cs)) w)
                  meta
                ∙ (with_size c cs (pos off) (pos (off + n - 1)) h v vs w' header
                    ∙ ap (λ r. opened p b (c ∷ cs) r w')
                        (ap (clamped (pos off) (pos (off + n - 1))) number ∙ range))),
        covers,
      )
