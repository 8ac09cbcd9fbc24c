-- ===== src/Outcome.antt =====
-- What a Python call returns or raises. A method that changes its object returns the new object
-- beside the outcome, also when it raises.
use hiyori.Prelude.{◌≡◌, refl, ◌⊎◌, inl, inr}

pub data Outcome {ℓ κ} (E : Type ℓ) (A : Type κ) : Type (ℓ ⊔ κ) where
  ok : A → Outcome E A
  raise : E → Outcome E A

infixl 5 ◌>>=◌
abbrev pub ◌>>=◌ {ℓ} : {E A B : Type ℓ} → Outcome E A → (A → Outcome E B) → Outcome E B
ok a >>= f = f a
raise e >>= f = raise e

pub Outcome-cases {ℓ} :
    {E A : Type ℓ} (r : Outcome E A) → ((a : A) × (r ≡ ok a)) ⊎ ((e : E) × (r ≡ raise e))
Outcome-cases (ok a) = inl (a, refl)
Outcome-cases (raise e) = inr (e, refl)

-- An exception for which `R` holds, or a result for which `Q` holds.
abbrev pub Meets {ℓ κ} : {E A : Type ℓ} → (E → Type κ) → (A → Type κ) → Outcome E A → Type κ
Meets R Q (raise e) = R e
Meets R Q (ok a) = Q a

pub bind-Meets {ℓ κ} :
    {E A B : Type ℓ} (R : E → Type κ) (P : A → Type κ) (Q : B → Type κ) (o : Outcome E A)
    (k : A → Outcome E B)
    → Meets R P o
    → ((a : A) → P a → Meets R Q (k a))
    → Meets R Q (o >>= k)
bind-Meets R P Q (ok a) k h next = next a h
bind-Meets R P Q (raise e) k h next = h
