-- ===== src/Go.antt =====
-- Effects of a Go function: it changes the world of the program, and returns or panics.
use objstore.Prelude.{ℕ, ◌≡◌, Option}
use objstore.Errors.{Error}

pub data Outcome {ℓ} (A : Type ℓ) : Type ℓ where
  returns : A → Outcome A
  panics : Outcome A

pub returns_injective {ℓ} : {A : Type ℓ} {a b : A} → returns a ≡ returns b → a ≡ b
returns_injective h = cc

abbrev pub Go : Type 0 → Type 0 → Type 0
Go W A = W → Outcome (A × W)

abbrev pub pure : {W A : Type 0} → A → Go W A
pure a w = returns (a, w)

infixl 5 ◌>>=◌ ◌>>◌
abbrev pub ◌>>=◌ : {W A B : Type 0} → Go W A → (A → Go W B) → Go W B
◌>>=◌ m f w = elim (m w) [ returns (a, w') ↦ f a w' | panics ↦ panics ]

abbrev pub ◌>>◌ : {W A B : Type 0} → Go W A → Go W B → Go W B
m >> k = m >>= λ _. k

-- A result `(T, error)`; the value is `none` where the code returns the zero value `nil`.
abbrev pub Fallible : Type 0 → Type 0
Fallible A = A × Option Error

-- context.Context, whose error other goroutines may set at any time: it is read from the world.
-- Value has its keys and values by number.
pub record Ctx (W : Type 0) : Type 0 where
  pub err : W → Option Error
  pub value : ℕ → Option ℕ
