-- ===== src/Prelude/Bits.antt =====
-- `&` and `|` as arithmetic: masks of low bits, cleared low bits, disjoint fields, and the test
-- for a power of two.
mod Digits
pub use Digits.{bit_or_step, bit_and_step}
use Prim.Native.Nat.{
  ℕ, zero, suc, ◌+◌, ◌-◌, ◌*◌, ◌/◌, ◌%◌, ◌^◌, ◌≤◌, ◌<◌, min, max, bit_and, bit_or, bit_or-bitwise,
}
use mathlib.Core.Path.{◌≡◌, refl, sym, ap, ap₂, subst, ◌∙◌}
use mathlib.Core.Logic.{◌≢◌, ◌⊎◌, inl, inr}
use mathlib.Core.WellFounded.{induction}
use native.Mathlib.Omega.{arith}
use native.Mathlib.Nat.{pow-suc, one-le-pow, div-div-eq-div-mul, mod-eq_of_lt, mod-lt}
use native.Mathlib.Nat.{mul-add-mod_self_right, div-add-mod'}
use native.Mathlib.Decide.{ℕ_discrete}
use tunix_boot.Prelude.Order.{lt_wf}

pub bit_and-zero : (a : ℕ) → bit_and a 0 ≡ 0
bit_and-zero a = induction lt_wf {C = λ n. bit_and n 0 ≡ 0} a (elim [
  | zero ↦ λ ih. refl
  | suc n ↦ λ ih. omega (arith, bit_and_step (suc n) 0, ih (suc n / 2) (omega arith))
])

bit_or-zero : (a : ℕ) → bit_or a 0 ≡ a
bit_or-zero a = induction lt_wf {C = λ n. bit_or n 0 ≡ n} a (elim [
  | zero ↦ λ ih. refl
  | suc n ↦ λ ih. omega (arith, bit_or_step (suc n) 0, ih (suc n / 2) (omega arith))
])

bit_and_self : (a : ℕ) → bit_and a a ≡ a
bit_and_self a = induction lt_wf {C = λ n. bit_and n n ≡ n} a (elim [
  | zero ↦ λ ih. refl
  | suc n ↦ λ ih. omega (arith, bit_and_step (suc n) (suc n), ih (suc n / 2) (omega arith))
])

mul-two_pow-suc : (q k : ℕ) → q * 2 ^ suc k ≡ 2 * (q * 2 ^ k)
mul-two_pow-suc q k = omega (arith, ap (λ (t : ℕ). q * t) (pow-suc 2 k))

pub div-two_pow-suc : (a k : ℕ) → a / 2 ^ suc k ≡ a / 2 / 2 ^ k
div-two_pow-suc a k =
    ap (λ (t : ℕ). a / t) (omega (arith, pow-suc 2 k)) ∙ sym (div-div-eq-div-mul a 2 (2 ^ k))

-- `|` of a value below `2 ^ k` and a multiple of `2 ^ k` is their sum.
pub bit_or_disjoint : (k r q : ℕ) → r < 2 ^ k → bit_or r (q * 2 ^ k) ≡ r + q * 2 ^ k
bit_or_disjoint zero zero q h = omega (arith, bit_or_step 0 q, bit_or-bitwise 0 (q * 1))
bit_or_disjoint zero (suc r) q h = absurd (omega arith)
bit_or_disjoint (suc k) r q h = omega (
  arith,
  bit_or_step r (q * 2 ^ suc k),
  mul-two_pow-suc q k,
  pow-suc 2 k,
  ap (λ (t : ℕ). bit_or (r / 2) t) (halve (q * 2 ^ k) (mul-two_pow-suc q k)),
  bit_or_disjoint k (r / 2) q (omega (arith, pow-suc 2 k)),
)
  where
    halve : (t : ℕ) → q * 2 ^ suc k ≡ 2 * t → q * 2 ^ suc k / 2 ≡ t
    halve t e = omega arith

mod_of_decomposition : (a q m r : ℕ) → a ≡ q * m + r → r < m → a % m ≡ r
mod_of_decomposition a q m r e h =
    ap (λ (t : ℕ). t % m) e ∙ mul-add-mod_self_right q m r ∙ mod-eq_of_lt h

mod-two_pow-suc : (a k : ℕ) → a % 2 ^ suc k ≡ a / 2 % 2 ^ k * 2 + a % 2
mod-two_pow-suc a k =
    mod_of_decomposition a (a / 2 / 2 ^ k) (2 ^ suc k) (a / 2 % 2 ^ k * 2 + a % 2)
      (omega (arith, div-add-mod' (a / 2) (2 ^ k), mul-two_pow-suc (a / 2 / 2 ^ k) k))
      (omega (arith, pow-suc 2 k, mod-lt (a / 2) {m = 2 ^ k} (one-le-pow k 2 (omega arith))))

-- A mask of `k` ones takes the remainder by `2 ^ k`.
pub bit_and_low : (k a : ℕ) → bit_and a (2 ^ k - 1) ≡ a % 2 ^ k
bit_and_low zero a = omega (arith, bit_and-zero a)
bit_and_low (suc k) a = omega (
  arith,
  pow-suc 2 k,
  one-le-pow k 2 (omega arith),
  bit_and_step a (2 ^ suc k - 1),
  ap (bit_and (a / 2)) (halve (2 ^ k) (pow-suc 2 k) (one-le-pow k 2 (omega arith))),
  bit_and_low k (a / 2),
  mod-two_pow-suc a k,
)
  where
    halve : (t : ℕ) → 2 ^ suc k ≡ t * 2 → 1 ≤ t → (2 ^ suc k - 1) / 2 ≡ t - 1
    halve t e h = omega arith

-- Clearing the `k` low bits of a value below `2 ^ n` rounds it down to a multiple of `2 ^ k`.
pub bit_and_high : (n k a : ℕ) → a < 2 ^ n → k ≤ n → bit_and a (2 ^ n - 2 ^ k) ≡ a / 2 ^ k * 2 ^ k
bit_and_high n zero a h le = omega (arith, bit_and_low n a, mod-eq_of_lt h)
bit_and_high zero (suc k) a h le = absurd (omega arith)
bit_and_high (suc n) (suc k) a h le = omega (
  arith,
  pow-suc 2 k,
  pow-suc 2 n,
  bit_and_step a (2 ^ suc n - 2 ^ suc k),
  ap (bit_and (a / 2)) (halve (2 ^ n) (2 ^ k) (pow-suc 2 n) (pow-suc 2 k)),
  bit_and_high n k (a / 2) (omega (arith, pow-suc 2 n)) (omega arith),
  ap (λ (t : ℕ). t * 2 ^ suc k) (div-two_pow-suc a k),
  mul-two_pow-suc (a / 2 / 2 ^ k) k,
)
  where
    halve : (s t : ℕ) → 2 ^ suc n ≡ s * 2 → 2 ^ suc k ≡ t * 2 → (2 ^ suc n - 2 ^ suc k) / 2 ≡ s - t
    halve s t e f = omega arith

abbrev IsTwoPow : ℕ → Type 0
IsTwoPow v = v ≢ 0 → bit_and v (v - 1) ≡ 0 → (k : ℕ) × (v ≡ 2 ^ k)

double-IsTwoPow : (m : ℕ) → IsTwoPow m → IsTwoPow (2 * m)
double-IsTwoPow m ih nz e =
    let half : (k : ℕ) × (m ≡ 2 ^ k) =
      ih (omega arith) (omega (arith, bit_and_step (2 * m) (2 * m - 1), ap₂ bit_and left right)) in
    (suc half.0, omega (arith, half.1, pow-suc 2 half.0))
  where
    left : 2 * m / 2 ≡ m
    left = omega arith

    right : (2 * m - 1) / 2 ≡ m - 1
    right = omega arith

odd-IsTwoPow : (m : ℕ) → IsTwoPow (2 * m + 1)
odd-IsTwoPow m nz e = (
  0,
  omega (arith, bit_and_step (2 * m + 1) (2 * m + 1 - 1), ap₂ bit_and left right, bit_and_self m),
)
  where
    left : (2 * m + 1) / 2 ≡ m
    left = omega arith

    right : (2 * m + 1 - 1) / 2 ≡ m
    right = omega arith

-- What the test `v & (v - 1)` accepts is a power of two.
pub two_pow_of_bit_and : (v : ℕ) → v ≢ 0 → bit_and v (v - 1) ≡ 0 → (k : ℕ) × (v ≡ 2 ^ k)
two_pow_of_bit_and v = induction lt_wf {C = IsTwoPow} v λ n ih nz. elim (ℕ_discrete (n % 2) 0) [
  | yes even ↦
      subst IsTwoPow (double n even) (double-IsTwoPow (n / 2) (ih (n / 2) (omega arith))) nz
  | no odd ↦ subst IsTwoPow (odd_form n odd) (odd-IsTwoPow (n / 2)) nz
]
  where
    double : (n : ℕ) → n % 2 ≡ 0 → 2 * (n / 2) ≡ n
    double n h = omega arith

    odd_form : (n : ℕ) → n % 2 ≢ 0 → 2 * (n / 2) + 1 ≡ n
    odd_form n h = omega arith

-- A mask of one bit picks it.
pub bit_and_power : (k a : ℕ) → bit_and a (2 ^ k) ≡ a / 2 ^ k % 2 * 2 ^ k
bit_and_power zero a = omega (arith, bit_and_low 1 a)
bit_and_power (suc k) a =
    let double : 2 ^ suc k / 2 ≡ 2 ^ k = omega (arith, pow-suc 2 k) in
    omega (
      arith,
      pow-suc 2 k,
      bit_and_step a (2 ^ suc k),
      ap (bit_and (a / 2)) double,
      bit_and_power k (a / 2),
      ap (λ t. t % 2 * 2 ^ k) (div-two_pow-suc a k),
      mul-two_pow-suc (a / 2 ^ suc k % 2) k,
    )
