-- ===== src/Base/Outcomes.antt =====
-- What a Go call comes to: a value, a run-time panic, or a loop that used up its fuel.
use mathlib.Core.Path.{◌≡◌, refl, ap}

pub data Outcome {ℓ} (A : Type ℓ) : Type ℓ where
  done : A → Outcome A
  panic : Outcome A
  timeout : Outcome A

infixl 5 ◌>>=◌
abbrev pub ◌>>=◌ {ℓ κ} : {A : Type ℓ} {B : Type κ} → Outcome A → (A → Outcome B) → Outcome B
done a >>= f = f a
panic >>= f = panic
timeout >>= f = timeout

pub done-injective {ℓ} : {A : Type ℓ} (a b : A) → done a ≡ done b → a ≡ b
done-injective a b = ap (λ o. elim o [ done x ↦ x | panic ↦ a | timeout ↦ a ])

-- A sequence that succeeds has done so at its first part.
pub bind-done {ℓ κ} :
    {A : Type ℓ} {B : Type κ} (o : Outcome A) (f : A → Outcome B) (b : B)
    → (o >>= f) ≡ done b
    → (a : A) × (o ≡ done a) × (f a ≡ done b)
bind-done (done a) f b e = (a, refl, e)
bind-done panic f b e = cc
bind-done timeout f b e = cc
