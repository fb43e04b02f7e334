-- ===== src/Obs/Sizes.antt =====
-- The sizes of the parts that multipartUpload of the OBS bucket asks for.
use objstore.Prelude.{
  ℕ, zero, suc, ◌+◌, ◌*◌, ◌/◌, ◌%◌, ◌≡◌, refl, ◌<◌, Bool, true, false, List, [], ◌∷◌, if◌then◌else◌,
  ◌==◌, length, arith, ap, ◌∙◌,
}
use objstore.Prelude.Int.{ℤ, pos}
use objstore.Chunks.Pieces.{mul_suc, positive}
use objstore.Obs.{part_sum, size_of_part}

-- the sizes of `n` parts, from the part `i` on
unfoldable pub sizes_from : ℕ → ℕ → ℕ → ℕ → List ℕ
sizes_from full size zero i = []
sizes_from full size (suc n) i = size_of_part full size i ∷ sizes_from full size n (i + 1)

unfoldable pub total : List ℕ → ℕ
total [] = 0
total (n ∷ ns) = n + total ns

-- numbers and sizes, with numbers from `i` on
unfoldable pub number_from : ℕ → List ℕ → List (ℤ × ℤ)
number_from i [] = []
number_from i (n ∷ ns) = (pos i, pos n) ∷ number_from (i + 1) ns

last_size : (full size i : ℕ) → i ≡ part_sum full size → size_of_part full size i ≡ size % full
last_size full size i h = let c : (i == part_sum full size) ≡ true = ground (arith, h) in rw c refl

full_size : (full size i : ℕ) → i < part_sum full size → size_of_part full size i ≡ full
full_size full size i h = let c : (i == part_sum full size) ≡ false = ground (arith, h) in rw c refl

total_from :
    (full size n i : ℕ)
    → i + n ≡ part_sum full size
    → total (sizes_from full size (suc n) i) ≡ n * full + size % full
unfolding total sizes_from
total_from full size zero i h = rw (last_size full size i (omega (arith, h))) (omega arith)
total_from full size (suc n) i h =
    let rest = total_from full size n (i + 1) (omega (arith, h)) in
    rw (full_size full size i (omega (arith, h)))
      (ap (λ t. full + t) rest ∙ omega (arith, mul_suc n full))

pub length-sizes_from : (full size n i : ℕ) → length (sizes_from full size n i) ≡ n
unfolding sizes_from
length-sizes_from full size zero i = refl
length-sizes_from full size (suc n) i = ap suc (length-sizes_from full size n (i + 1))

total_all :
    (full size k : ℕ)
    → k ≡ part_sum full size
    → 0 < k
    → total (sizes_from full size k 1) + full ≡ k * full + size % full
total_all full size zero h q = absurd (omega (arith, q))
total_all full size (suc k) h q =
    omega (arith, total_from full size k 1 (omega (arith, h)), mul_suc k full)

quotient : (full size : ℕ) → 0 < full → size / full * full + size % full ≡ size
quotient full size q = grind arith

-- what is left of a size, by a test
missing :
    (c : Bool) (t full size : ℕ)
    → (c ≡ true → t + full ≡ size)
    → (c ≡ false → t ≡ size)
    → t + (if c then full else 0) ≡ size
missing true t full size h k = h refl
missing false t full size h k = omega (arith, k refl)

pub total_lem :
    (full size : ℕ)
    → 0 < full
    → full < size
    → total (sizes_from full size (part_sum full size) 1) + (if size % full == 0 then full else 0)
      ≡ size
total_lem full size q h =
    let some_part = positive full size q (omega (arith, h)) in
    let all = total_all full size (part_sum full size) refl in
    missing (size % full == 0) (total (sizes_from full size (part_sum full size) 1)) full size
      (λ even.
        let sum : part_sum full size ≡ size / full = rw even refl in
        let zeros : size % full ≡ 0 = ground (arith, even) in
        omega (
          arith,
          all (omega (arith, sum, some_part)),
          ap (λ k. k * full) sum,
          quotient full size q,
          zeros,
        ))
      (λ odd.
        let sum : part_sum full size ≡ size / full + 1 = rw odd refl in
        let times : part_sum full size * full ≡ full + size / full * full =
          ap (λ k. k * full) sum ∙ grind arith in
        omega (arith, all (omega (arith, sum)), times, quotient full size q))
