-- ===== src/Base/Run.antt =====
-- What a Go function does: it returns, or it panics at run time.
use mathlib.Core.Path.{◌≡◌}

-- `panic` is a run-time error: an index or a slice out of range, a nil pointer, a division by
-- zero, or an operation on a closed channel.
pub data Go {ℓ} (A : Type ℓ) : Type ℓ where
  ok : A → Go A
  panic : Go A

infixl 5 ◌>>=◌
abbrev pub ◌>>=◌ {ℓ κ} : {A : Type ℓ} {B : Type κ} → Go A → (A → Go B) → Go B
ok a >>= f = f a
panic >>= f = panic

-- The call returns, with a value of which `P` holds.
abbrev pub Returns {ℓ κ} : {A : Type ℓ} → Go A → (A → Type κ) → Type (ℓ ⊔ κ)
Returns {A} m P = (a : A) × (m ≡ ok a) × P a

pub ok_of {ℓ} : {A : Type ℓ} {a b : A} → ok a ≡ ok b → a ≡ b
ok_of e = cc
