-- ===== src/Prelude/Branches.antt =====
-- A predicate on the result of a test holds when it holds on both branches.
use mathlib.Core.Path.{◌≡◌, refl, ◌∙◌}
use mathlib.Core.Bool.{Bool, true, false, ◌||◌}
use native.Mathlib.Omega.{arith}
use mathlib.Core.Option.{Option, none, some}
use tunix_boot.Prelude.Tests.{if◌then◌else◌}

pub either {ℓ κ} :
    {A : Type ℓ} (P : A → Type κ) (b : Bool) {t f : A}
    → P t
    → P f
    → P (elim b as (λ _. A) [ false ↦ f | true ↦ t ])
either P true p q = p
either P false p q = q

pub either_option {ℓ κ μ} :
    {A : Type ℓ} {B : Type μ} (P : A → Type κ) (o : Option B) {n : A} {s : B → A}
    → P n
    → ((b : B) → P (s b))
    → P (elim o as (λ _. A) [ none ↦ n | some b ↦ s b ])
either_option P none p q = p
either_option P (some b) p q = q b

-- The same, where a branch needs to know which it is.
pub either_by {ℓ κ} :
    {A : Type ℓ} (P : A → Type κ) (b : Bool) {t f : A}
    → (b ≡ true → P t)
    → (b ≡ false → P f)
    → P (elim b as (λ _. A) [ false ↦ f | true ↦ t ])
either_by P true p q = p refl
either_by P false p q = q refl

pub either_option_by {ℓ κ μ} :
    {A : Type ℓ} {B : Type μ} (P : A → Type κ) (o : Option B) {n : A} {s : B → A}
    → (o ≡ none → P n)
    → ((b : B) → o ≡ some b → P (s b))
    → P (elim o as (λ _. A) [ none ↦ n | some b ↦ s b ])
either_option_by P none p q = p refl
either_option_by P (some b) p q = q b refl

pub if_by {ℓ κ} :
    {A : Type ℓ} (P : A → Type κ) (b : Bool) {t f : A}
    → (b ≡ true → P t)
    → (b ≡ false → P f)
    → P (if b then t else f)
if_by P true p q = p refl
if_by P false p q = q refl

-- Two tests one after the other, where both lead to the value of a third that is their disjunction.
pub overlay {ℓ} :
    {A : Type ℓ} (first second whole : Bool) (a c b g : A)
    → whole ≡ (first || second)
    → (first ≡ true → a ≡ c)
    → (first ≡ false → second ≡ true → b ≡ c)
    → (if first then a else (if second then b else g)) ≡ (if whole then c else g)
overlay true second whole a c b g e f h =
    f refl ∙ (let t : whole ≡ true = ground (arith, e) in rw t refl)
overlay false true whole a c b g e f h =
    h refl refl ∙ (let t : whole ≡ true = ground (arith, e) in rw t refl)
overlay false false whole a c b g e f h = let t : whole ≡ false = ground (arith, e) in rw t refl
