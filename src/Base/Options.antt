-- ===== src/Base/Options.antt =====
-- A chain of steps each of which may return {}.
use mathlib.Core.Option.{Option, none, some}
use mathlib.Core.Path.{◌≡◌, ap, subst}

infixl 5 ◌>>=◌
abbrev pub ◌>>=◌ {ℓ} : {A B : Type ℓ} → Option A → (A → Option B) → Option B
none >>= f = none
some a >>= f = f a

-- What holds of the value, if there is one.
abbrev pub Each {ℓ κ} : {A : Type ℓ} → (A → Type κ) → Option A → Type κ
Each P none = Unit
Each P (some a) = P a

pub bind-Each {ℓ κ} :
    {A B : Type ℓ} (P : A → Type κ) (Q : B → Type κ) (m : Option A) (f : A → Option B)
    → Each P m
    → ((a : A) → P a → Each Q (f a))
    → Each Q (m >>= f)
bind-Each P Q none f h k = tt
bind-Each P Q (some a) f h k = k a h

pub Each_of_some {ℓ κ} :
    {A : Type ℓ} (P : A → Type κ) (o : Option A) (a : A) → Each P o → o ≡ some a → P a
Each_of_some P none a h e = cc
Each_of_some P (some b) a h e =
    subst P (ap (λ (o : Option _). elim o [ none ↦ b | some x ↦ x ]) e) h
