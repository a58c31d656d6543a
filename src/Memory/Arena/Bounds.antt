-- ===== src/Memory/Arena/Bounds.antt =====
-- An allocation is aligned and lies between the used part and the capacity; it is refused only when
-- it does not fit.
use mathlib.Core.Path.{subst}
use native.Mathlib.Decide.{dec_le}
use tunix_boot.Prelude.{
  ℕ, ◌+◌, ◌-◌, ◌%◌, ◌≤◌, ◌<◌, ◌≡◌, ◌≢◌, ◌⊎◌, inl, inr, refl, sym, true, false, Option, none, some,
  arith, ltb, ◌==◌, Bool-cases,
}
use tunix_boot.Prelude.Word.{u64_mod, add64, sub64}
use tunix_boot.Util.Checked.{checked_add, bad_alignment}
use tunix_boot.Util.Checked.Align.{
  bad_alignment-pos, multiples_apart, u64_mod-aligned, RoundsDown, clear_low-RoundsDown,
}
use tunix_boot.Memory.Arena.{Arena, is_power_of_two, aligned_at, allocate_aligned}

pub record IsValid (a : Arena) : Type 0 where
  pub within : a.used ≤ a.capacity
  pub addressable : a.base + a.capacity < u64_mod

-- What an allocation returns and leaves behind.
pub record Allocates (a : Arena) (size alignment : ℕ) (out : Option ℕ × Arena) : Type 0 where
  pub kept : (out.1.base ≡ a.base) × (out.1.capacity ≡ a.capacity) × (a.used ≤ out.1.used)
  pub valid : IsValid out.1
  pub refused : out.0 ≡ none → out.1 ≡ a
  pub placed :
      (at : ℕ)
      → out.0 ≡ some at
      → (at % alignment ≡ 0) × (a.base + a.used ≤ at) × (at + size ≡ out.1.base + out.1.used)

is_power_of_two→bad_alignment : (v : ℕ) → is_power_of_two v ≡ true → bad_alignment v ≡ false
unfolding is_power_of_two bad_alignment
is_power_of_two→bad_alignment v h = ground arith

refused-Allocates :
    (a : Arena) (size alignment : ℕ) → IsValid a → Allocates a size alignment (none, a)
refused-Allocates a size alignment v = record {
  kept = (refl, refl, omega arith);
  valid = v;
  refused = λ e. refl;
  placed = λ at e. cc;
}

-- What an accepted allocation has computed.
record Accepts (a : Arena) (size alignment needed : ℕ) : Type 0 where
  power : is_power_of_two alignment ≡ true
  positive : 0 < size
  sum : needed ≡ sub64 (aligned_at a alignment) (add64 a.base a.used) + size
  fits : needed ≤ sub64 a.capacity a.used

allocate_aligned_cases :
    (a : Arena) (size alignment : ℕ)
    → (allocate_aligned a size alignment ≡ (none, a))
      ⊎ ((needed : ℕ) × Accepts a size alignment needed
          × (allocate_aligned a size alignment
              ≡ (some (aligned_at a alignment), record a { used = add64 a.used needed })))
unfolding allocate_aligned checked_add
allocate_aligned_cases a size alignment =
    let padding = sub64 (aligned_at a alignment) (add64 a.base a.used) in
    elim (Bool-cases (is_power_of_two alignment)) [
      | inr no_power ↦ inl (ground (arith, no_power))
      | inl power ↦ elim (Bool-cases (size == 0)) [
        | inl nothing ↦ inl (ground (arith, power, nothing))
        | inr something ↦ elim (Bool-cases (ltb (padding + size) u64_mod)) [
          | inr wraps ↦ inl (ground (arith, power, something, wraps))
          | inl sum ↦ elim (Bool-cases (ltb (sub64 a.capacity a.used) (padding + size))) [
            | inl large ↦ inl (ground (arith, power, something, sum, large))
            | inr fits ↦ inr (
              padding + size,
              record { power = power; positive = ground arith; sum = refl; fits = ground arith },
              ground (arith, power, something, sum, fits),
            )
          ]
        ]
      ]
    ]

-- The address returned lies at or above the used part, and the padding is exact.
accepted-Allocates :
    (a : Arena) (size alignment needed : ℕ)
    → alignment < u64_mod
    → IsValid a
    → Accepts a size alignment needed
    → Allocates a size alignment
        (some (aligned_at a alignment), record a { used = add64 a.used needed })
accepted-Allocates a size alignment needed small v h =
    let d : RoundsDown alignment (add64 (add64 a.base a.used) (alignment - 1))
        (aligned_at a alignment) =
      clear_low-RoundsDown alignment (is_power_of_two→bad_alignment alignment h.power) small _
        (omega arith) in
    let above : a.base + a.used ≤ aligned_at a alignment =
      omega (arith, d.under, d.near, h.sum, h.fits) in
    record {
      kept = (refl, refl, omega (arith, h.fits));
      valid = record { within = omega (arith, h.fits); addressable = v.addressable };
      refused = λ e. cc;
      placed = λ at e.
          let same : aligned_at a alignment ≡ at = ground arith in
          (
            subst (λ t. t % alignment ≡ 0) same d.multiple,
            omega arith,
            omega (arith, h.sum, h.fits),
          );
    }

-- `arena_allocate_aligned` keeps the arena valid on every path. NULL leaves it as it was; a block is
-- aligned, starts at or above the used part, and ends exactly where the used part then ends.
pub allocate_aligned-Allocates :
    (a : Arena) (size alignment : ℕ)
    → alignment < u64_mod
    → IsValid a
    → Allocates a size alignment (allocate_aligned a size alignment)
allocate_aligned-Allocates a size alignment small v =
    elim (allocate_aligned_cases a size alignment) [
      | inl e ↦ subst (Allocates a size alignment) (sym e) (refused-Allocates a size alignment v)
      | inr (needed, h, e) ↦
          subst (Allocates a size alignment) (sym e)
            (accepted-Allocates a size alignment needed small v h)
    ]

-- It refuses only what does not fit: any aligned place of that size in the free part makes it
-- succeed, at that place or below it.
pub allocate_aligned_complete :
    (a : Arena) (size alignment t : ℕ)
    → alignment < u64_mod
    → IsValid a
    → is_power_of_two alignment ≡ true
    → size ≢ 0
    → t % alignment ≡ 0
    → a.base + a.used ≤ t
    → t + size ≤ a.base + a.capacity
    → (at : ℕ) × ((allocate_aligned a size alignment).0 ≡ some at) × (at ≤ t)
unfolding allocate_aligned checked_add
allocate_aligned_complete a size alignment t small v power nz m low high =
    let ok : bad_alignment alignment ≡ false = is_power_of_two→bad_alignment alignment power in
    let pos : 0 < alignment = bad_alignment-pos alignment ok in
    let d : RoundsDown alignment (add64 (add64 a.base a.used) (alignment - 1))
        (aligned_at a alignment) =
      clear_low-RoundsDown alignment ok small _ (omega arith) in
    let room : t + alignment ≤ u64_mod =
      multiples_apart alignment u64_mod t pos (u64_mod-aligned alignment ok small) m
        (omega arith) in
    let le : aligned_at a alignment ≤ t =
      lowest (aligned_at a alignment) d.multiple (omega (arith, d.under, d.near)) pos in
    (aligned_at a alignment, ground (arith, power, le, d.under, d.near), le)
  where
    lowest : (s : ℕ) → s % alignment ≡ 0 → s < a.base + a.used + alignment → 0 < alignment → s ≤ t
    lowest s sm near pos = elim (dec_le s t) [
      | yes p ↦ p
      | no p ↦ absurd (omega (arith, multiples_apart alignment s t pos sm m (omega arith)))
    ]
