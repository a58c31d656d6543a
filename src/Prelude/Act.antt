-- ===== src/Prelude/Act.antt =====
-- Actions on a state: a value, unless the action fails, and the state that it leaves behind.
use mathlib.Core.Bool.{Bool, true, false}
use mathlib.Core.Option.{Option, none, some}

abbrev pub Act {ℓ κ} : Type ℓ → Type κ → Type (ℓ ⊔ κ)
Act S A = S → Option A × S

infixl 5 ◌>>=◌ ◌>>◌
abbrev pub ◌>>=◌ {ℓ κ μ} :
    {S : Type ℓ} {A : Type κ} {B : Type μ} → Act S A → (A → Act S B) → Act S B
◌>>=◌ m f s = let (o, s') = m s in elim o [ none ↦ (none, s') | some a ↦ f a s' ]

abbrev pub ◌>>◌ {ℓ κ μ} : {S : Type ℓ} {A : Type κ} {B : Type μ} → Act S A → Act S B → Act S B
m >> k = m >>= λ _. k

abbrev pub pure {ℓ κ} : {S : Type ℓ} {A : Type κ} → A → Act S A
pure a s = (some a, s)

abbrev pub fail {ℓ κ} : {S : Type ℓ} {A : Type κ} → Act S A
fail s = (none, s)

-- `if (!test) return false;`
abbrev pub guard {ℓ} : {S : Type ℓ} → Bool → Act S (Unit {0})
guard true s = (some tt, s)
guard false s = (none, s)

-- A result that needs no state.
abbrev pub lift {ℓ κ} : {S : Type ℓ} {A : Type κ} → Option A → Act S A
lift o s = (o, s)
