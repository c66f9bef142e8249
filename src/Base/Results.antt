-- ===== src/Base/Results.antt =====
-- Results of Go functions that return an error beside their value.
use mathlib.Core.Path.{◌≡◌, refl}
use mathlib.Core.Logic.{◌⊎◌, inl, inr}

pub data Result {ℓ κ} (E : Type ℓ) (A : Type κ) : Type (ℓ ⊔ κ) where
  ok : A → Result E A
  err : E → Result E A

pub Result-cases {ℓ κ} :
    {E : Type ℓ} {A : Type κ} (r : Result E A) → ((a : A) × (r ≡ ok a)) ⊎ ((e : E) × (r ≡ err e))
Result-cases (ok a) = inl (a, refl)
Result-cases (err e) = inr (e, refl)

module _ {ℓ κ μ} {E : Type ℓ} {A : Type κ} {B : Type μ} where
  -- `if err != nil { return …, err }`, then the rest of the body.
  abbrev pub after : Result E A → (A → Result E B) → Result E B
  after (err e) rest = err e
  after (ok a) rest = rest a

  -- A body that succeeds: so did its first call, and so does the rest.
  pub after-ok :
      (r : Result E A) (rest : A → Result E B) (b : B)
      → after r rest ≡ ok b
      → (a : A) × (r ≡ ok a) × (rest a ≡ ok b)
  after-ok (err e) rest b h = cc
  after-ok (ok a) rest b h = (a, refl, h)
