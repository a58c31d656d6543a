-- ===== src/Util/Checked.antt =====
-- src/util/checked.h. The `size_t` functions are the 64-bit ones on this target; `none` is the
-- `false` of a function with an out parameter.
pub mod Align
use tunix_boot.Prelude.{
  ℕ, ◌+◌, ◌-◌, ◌*◌, ◌/◌, ◌%◌, ◌^◌, ◌≤◌, ◌<◌, bit_and, ◌≡◌, Bool, true, false, not, ◌&&◌, ◌||◌,
  Option, none, some, arith, ltb, ◌==◌, if◌then◌else◌, Bool-cases,
}
use tunix_boot.Prelude.Word.{u64_mod}

unfoldable pub checked_add : ℕ → ℕ → Option ℕ
checked_add a b = if ltb (a + b) u64_mod then some (a + b) else none

unfoldable pub checked_mul : ℕ → ℕ → Option ℕ
checked_mul a b = if ltb (a * b) u64_mod then some (a * b) else none

-- The test that every caller of `x & (alignment - 1)` makes first.
unfoldable pub bad_alignment : ℕ → Bool
bad_alignment a = (a == 0) || not (bit_and a (a - 1) == 0)

-- `value & ~(alignment - 1)` on 64 bits.
unfoldable pub clear_low : ℕ → ℕ → ℕ
clear_low value alignment = bit_and value (u64_mod - 1 - (alignment - 1))

unfoldable pub checked_align_up : ℕ → ℕ → Option ℕ
unfolding checked_add
checked_align_up value alignment =
    if bad_alignment alignment then none else elim (checked_add value (alignment - 1)) [
      | none ↦ none
      | some sum ↦ some (clear_low sum alignment)
    ]

pub checked_add-eq-some : (a b c : ℕ) → checked_add a b ≡ some c → (c ≡ a + b) × (c < u64_mod)
unfolding checked_add
checked_add-eq-some a b c h = ground arith

pub checked_add_fits : (a b : ℕ) → a + b < u64_mod → checked_add a b ≡ some (a + b)
unfolding checked_add
checked_add_fits a b h = ground arith

pub checked_add_wraps : (a b : ℕ) → u64_mod ≤ a + b → checked_add a b ≡ none
unfolding checked_add
checked_add_wraps a b h = ground arith

pub checked_mul-eq-some : (a b c : ℕ) → checked_mul a b ≡ some c → (c ≡ a * b) × (c < u64_mod)
unfolding checked_mul
checked_mul-eq-some a b c h = ground arith

pub checked_mul_fits : (a b : ℕ) → a * b < u64_mod → checked_mul a b ≡ some (a * b)
unfolding checked_mul
checked_mul_fits a b h = ground arith
