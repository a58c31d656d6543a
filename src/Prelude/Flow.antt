-- ===== src/Prelude/Flow.antt =====
-- What the body of a loop decides: to leave the loop, or to go round again.
pub data Flow {ℓ} (A : Type ℓ) : Type ℓ where
  stop : A → Flow A
  next : A → Flow A

module _ {ℓ} {A : Type ℓ} where
  abbrev pub continue : Flow A → (A → A) → A
  continue (stop a) rest = a
  continue (next a) rest = rest a

  -- A predicate on the state, whichever way the round ends.
  abbrev pub Either {κ} : (A → Type κ) → Flow A → Type κ
  Either P (stop a) = P a
  Either P (next a) = P a

  pub continue_keeps {κ} :
      (P : A → Type κ) (flow : Flow A) (rest : A → A)
      → Either P flow
      → ((a : A) → P a → P (rest a))
      → P (continue flow rest)
  continue_keeps P (stop a) rest h keep = h
  continue_keeps P (next a) rest h keep = keep a h
