-- ===== src/Result.antt =====
-- The result of Go code that returns an error beside its value, or panics.
use burnell.Prelude.{◌≡◌, refl, ◌⊎◌, inl, inr}
use burnell.Text.{Text}

pub data Result {ℓ} (A : Type ℓ) : Type ℓ where
  ok : A → Result A
  err : Text → Result A
  panic : Result A

infixl 5 ◌>>=◌
abbrev pub ◌>>=◌ {ℓ κ} :
    {A : Type ℓ} {B : Type κ} (step : Result A) (next : A → Result B) → Result B
panic >>= next = panic
err message >>= next = err message
ok value >>= next = next value

pub Result-cases {ℓ} :
    {A : Type ℓ} (r : Result A)
    → ((a : A) × (r ≡ ok a)) ⊎ ((message : Text) × (r ≡ err message)) ⊎ (r ≡ panic)
Result-cases (ok a) = inl (a, refl)
Result-cases (err message) = inr (inl (message, refl))
Result-cases panic = inr (inr refl)
