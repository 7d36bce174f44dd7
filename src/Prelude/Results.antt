-- ===== src/Prelude/Results.antt =====
-- Calls that may fail with an error of some type `E`.
use mathlib.Core.Path.{◌≡◌, refl}
use mathlib.Core.Logic.{◌⊎◌, inl, inr}

pub data Result {ℓ} (E : Type 0) (A : Type ℓ) : Type ℓ where
  ok : A → Result E A
  err : E → Result E A

module _ {E : Type 0} where
  infixl 10 ◌>>=◌ ◌>>◌
  -- The first error ends a chain.
  abbrev pub ◌>>=◌ {ℓ κ} : {A : Type ℓ} {B : Type κ} → Result E A → (A → Result E B) → Result E B
  err e >>= k = err e
  ok a >>= k = k a

  abbrev pub ◌>>◌ {ℓ κ} : {A : Type ℓ} {B : Type κ} → Result E A → Result E B → Result E B
  first >> second = first >>= λ _. second

  -- To split on how a call ended.
  pub Result-cases {ℓ} :
      {A : Type ℓ} (r : Result E A) → ((a : A) × (r ≡ ok a)) ⊎ ((e : E) × (r ≡ err e))
  Result-cases (err e) = inr (e, refl)
  Result-cases (ok a) = inl (a, refl)

  -- A chain that ends well went well at its first step.
  pub chain_steps {ℓ κ} :
      {A : Type ℓ} {B : Type κ} {b : B} (r : Result E A) (k : A → Result E B)
      → (r >>= k) ≡ ok b
      → (a : A) × (r ≡ ok a) × (k a ≡ ok b)
  chain_steps (err e) k ended = cc
  chain_steps (ok a) k ended = (a, refl, ended)
