-- ===== src/Util/Checked/Align.antt =====
-- Alignment by masks, as division.
use mathlib.Core.Path.{subst}
use native.Mathlib.Nat.{
  pow-le-pow_right, mul-mod_left, div-mul-le_self, lt-div-mul-add, one-le-pow, pow-suc,
  mul-le-mul_right, div-add-mod',
}
use native.Mathlib.Decide.{dec_le}
use tunix_boot.Prelude.{
  ℕ, zero, suc, ◌+◌, ◌-◌, ◌*◌, ◌/◌, ◌%◌, ◌^◌, ◌≤◌, ◌<◌, bit_and, ◌≡◌, ◌≢◌, ◌↔◌, ◌⊎◌, refl, sym, ap,
  ◌∙◌, true, false, none, some, arith,
}
use tunix_boot.Prelude.Word.{u64_mod}
use tunix_boot.Prelude.Bits.{bit_and_high, two_pow_of_bit_and}
use tunix_boot.Util.Checked.{bad_alignment, clear_low, checked_align_up}

bad_alignment-eq-false : (a : ℕ) → bad_alignment a ≡ false → (a ≢ 0) × (bit_and a (a - 1) ≡ 0)
unfolding bad_alignment
bad_alignment-eq-false a h = ground arith

pub bad_alignment-two_pow : (a : ℕ) → bad_alignment a ≡ false → (k : ℕ) × (a ≡ 2 ^ k)
bad_alignment-two_pow a h =
    let facts : (a ≢ 0) × (bit_and a (a - 1) ≡ 0) = bad_alignment-eq-false a h in
    two_pow_of_bit_and a facts.0 facts.1

exponent_le : (k n : ℕ) → 2 ^ k < 2 ^ n → k ≤ n
exponent_le k n h = elim (dec_le k n) [
  | yes le ↦ le
  | no gt ↦
      absurd (omega (arith, pow-le-pow_right {n = 2} (omega arith) {i = n} {j = k} (omega arith)))
]

clear_low_two_pow :
    (v k : ℕ) → v < u64_mod → 2 ^ k < u64_mod → clear_low v (2 ^ k) ≡ v / 2 ^ k * 2 ^ k
unfolding clear_low
clear_low_two_pow v k hv hk =
    ap (bit_and v) (mask (2 ^ k) (one-le-pow k 2 (omega arith)))
    ∙ bit_and_high 64 k v hv (exponent_le k 64 hk)
  where
    mask : (t : ℕ) → 1 ≤ t → u64_mod - 1 - (t - 1) ≡ u64_mod - t
    mask t h = omega arith

pub clear_low-eq :
    (v a : ℕ) → bad_alignment a ≡ false → v < u64_mod → a < u64_mod → clear_low v a ≡ v / a * a
clear_low-eq v a h hv ha =
    let power : (k : ℕ) × (a ≡ 2 ^ k) = bad_alignment-two_pow a h in
    subst (λ t. t < u64_mod → clear_low v t ≡ v / t * t) (sym power.1)
      (clear_low_two_pow v power.0 hv) ha

pub bad_alignment-pos : (a : ℕ) → bad_alignment a ≡ false → 0 < a
bad_alignment-pos a h =
    let facts : (a ≢ 0) × (bit_and a (a - 1) ≡ 0) = bad_alignment-eq-false a h in omega arith

-- The result of `checked_align_up_u64` is the least multiple of the alignment that is not below
-- the value.
pub record IsAlignedUp (v a r : ℕ) : Type 0 where
  pub multiple : r % a ≡ 0
  pub reaches : v ≤ r
  pub least : r < v + a

pub record Aligns (v a r : ℕ) : Type 0 where
  pub power : bad_alignment a ≡ false
  pub fits : v + (a - 1) < u64_mod
  pub masked : r ≡ clear_low (v + (a - 1)) a

pub checked_align_up-Aligns : (v a : ℕ) {r : ℕ} → checked_align_up v a ≡ some r → Aligns v a r
unfolding checked_align_up
checked_align_up-Aligns v a h = ground arith

round_up : (v a s r : ℕ) → 0 < a → s ≡ v + (a - 1) → r ≡ s / a * a → IsAlignedUp v a r
round_up v a s r pos e f =
    let below : s / a * a ≤ s = div-mul-le_self s a in
    let above : s < s / a * a + a = lt-div-mul-add pos in
    record {
      multiple = ap (λ t. t % a) f ∙ mul-mod_left (s / a) a;
      reaches = omega arith;
      least = omega arith;
    }

-- For a 64-bit alignment, what `checked_align_up_u64` returns is the least multiple of the alignment
-- that is not below the value.
pub checked_align_up-IsAlignedUp :
    (v a : ℕ) {r : ℕ} → a < u64_mod → checked_align_up v a ≡ some r → IsAlignedUp v a r
checked_align_up-IsAlignedUp v a {r} ha h =
    let w : Aligns v a r = checked_align_up-Aligns v a h in
    round_up v a (v + (a - 1)) r (bad_alignment-pos a w.power) refl
      (w.masked ∙ clear_low-eq (v + (a - 1)) a w.power w.fits ha)

-- It fails exactly when the alignment is no power of two or the value is too close to `2 ^ 64`.
pub checked_align_up-none_iff :
    (v a : ℕ) → (checked_align_up v a ≡ none) ↔ ((bad_alignment a ≡ true) ⊎ (u64_mod ≤ v + (a - 1)))
unfolding checked_align_up
checked_align_up-none_iff v a = ground arith

two_pow-multiple : (n k : ℕ) → k ≤ n → (q : ℕ) × (2 ^ n ≡ q * 2 ^ k)
two_pow-multiple n zero h = (2 ^ n, omega arith)
two_pow-multiple zero (suc k) h = absurd (omega arith)
two_pow-multiple (suc n) (suc k) h =
    let (q, e) = two_pow-multiple n k (omega arith) in
    (q, omega (arith, pow-suc 2 n, pow-suc 2 k, ap (λ (t : ℕ). q * t) (pow-suc 2 k)))

-- An accepted alignment divides `2 ^ 64`.
pub u64_mod-aligned : (a : ℕ) → bad_alignment a ≡ false → a < u64_mod → u64_mod % a ≡ 0
u64_mod-aligned a h lt =
    let (k, p) = bad_alignment-two_pow a h in
    let (q, e) = two_pow-multiple 64 k (exponent_le k 64 (subst (λ t. t < u64_mod) p lt)) in
    ap (λ t. t % a) (e ∙ ap (λ (t : ℕ). q * t) (sym p)) ∙ mul-mod_left q a

-- Multiples of one number that differ, differ by at least that number.
pub multiples_apart : (a s t : ℕ) → 0 < a → s % a ≡ 0 → t % a ≡ 0 → t < s → t + a ≤ s
multiples_apart a s t pos ms mt lt = elim (dec_le (s / a) (t / a)) [
  | yes le ↦ absurd (omega (arith, mul-le-mul_right a le, div-add-mod' s a, div-add-mod' t a))
  | no gt ↦
      let step : t / a + 1 ≤ s / a = omega arith in
      omega (arith, mul-le-mul_right a step, div-add-mod' s a, div-add-mod' t a)
]

-- `s` is the greatest multiple that is not above `v`.
pub record RoundsDown (alignment v s : ℕ) : Type 0 where
  pub multiple : s % alignment ≡ 0
  pub under : s ≤ v
  pub near : v < s + alignment

pub clear_low-RoundsDown :
    (alignment : ℕ)
    → bad_alignment alignment ≡ false
    → alignment < u64_mod
    → (v : ℕ) → v < u64_mod
    → RoundsDown alignment v (clear_low v alignment)
clear_low-RoundsDown alignment ok small v h =
    subst (RoundsDown alignment v) (sym (clear_low-eq v alignment ok h small)) (record {
      multiple = mul-mod_left (v / alignment) alignment;
      under = div-mul-le_self v alignment;
      near = lt-div-mul-add (bad_alignment-pos alignment ok);
    })
