-- ===== src/Acpi/Scan.antt =====
-- The checksum, and the scan for the root pointer structure.
use native.Mathlib.Nat.{mod-add-mod, lt-div-mul-add}
use mathlib.Core.Path.{subst}
use tunix_boot.Prelude.{
  ℕ, zero, suc, ◌+◌, ◌-◌, ◌*◌, ◌/◌, ◌%◌, ◌≡◌, ◌↔◌, ◌≤◌, ◌<◌, inl, inr, ap, ◌∙◌, true, false, Option,
  none, some, arith, ltb, leb, ◌==◌, Bool-cases,
}
use tunix_boot.Prelude.Branches.{either_by}
use tunix_boot.Prelude.Word.{u8_mod, u64_mod, add64}
use tunix_boot.Util.Mem.{Memory}
use tunix_boot.Acpi.{sum_from, acpi_checksum, acpi_rsdp_valid, scan_from, acpi_find_rsdp}

-- The sum of the bytes, without a modulus.
abbrev pub sum_of_bytes : Memory → ℕ → ℕ → ℕ
sum_of_bytes m at zero = 0
sum_of_bytes m at (suc n) = m at + sum_of_bytes m (at + 1) n

sum_from_lem :
    (n : ℕ) (m : Memory) (at sum : ℕ)
    → sum < u8_mod
    → sum_from n m at sum ≡ (sum + sum_of_bytes m at n) % u8_mod
unfolding sum_from
sum_from_lem zero m at sum h = omega arith
sum_from_lem (suc n) m at sum h =
    sum_from_lem n m (at + 1) ((sum + m at) % u8_mod) (omega arith)
    ∙ mod-add-mod (sum + m at) u8_mod (sum_of_bytes m (at + 1) n)
    ∙ (let e : sum + m at + sum_of_bytes m (at + 1) n ≡ sum + (m at + sum_of_bytes m (at + 1) n) =
          omega arith in
        ap (λ t. t % u8_mod) e)

-- `acpi_checksum` answers whether the bytes add up to a multiple of 256.
pub acpi_checksum_iff :
    (m : Memory) (at n : ℕ) → (acpi_checksum m at n ≡ true) ↔ (sum_of_bytes m at n % 256 ≡ 0)
unfolding acpi_checksum
acpi_checksum_iff m at n =
    let e = sum_from_lem n m at 0 (omega arith) in
    let z : 0 + sum_of_bytes m at n ≡ sum_of_bytes m at n = omega arith in
    (λ h. ground (arith, e, z, h), λ h. ground (arith, e, z, h))

-- What a scan is to find: the first of the places 16 bytes apart, from the first on, at which there
-- is a root pointer structure with its 20 bytes inside the region.
pub data IsFirst (m : Memory) (region length : ℕ) (k : ℕ) : Option ℕ → Type 0 where
  first_at :
      (j : ℕ)
      → k ≤ j
      → j * 16 + 20 ≤ length
      → acpi_rsdp_valid m (region + j * 16) ≡ true
      → ((i : ℕ) → k ≤ i → i < j → acpi_rsdp_valid m (region + i * 16) ≡ false)
      → IsFirst m region length k (some (region + j * 16))
  nowhere :
      ((i : ℕ) → k ≤ i → i * 16 + 20 ≤ length → acpi_rsdp_valid m (region + i * 16) ≡ false)
      → IsFirst m region length k none

-- A place that is none itself is passed over.
later-IsFirst :
    (m : Memory) (region length k : ℕ) (o : Option ℕ)
    → acpi_rsdp_valid m (region + k * 16) ≡ false
    → IsFirst m region length (k + 1) o
    → IsFirst m region length k o
later-IsFirst m region length k _ bad (first_at j le fits valid before) =
    first_at j (omega arith) fits valid (λ i low lt. elim (Bool-cases (i == k)) [
      | inl same ↦
          subst (λ t. acpi_rsdp_valid m (region + t * 16) ≡ false)
            (let e : k ≡ i = ground arith in e) bad
      | inr other ↦ before i (ground arith) lt
    ])
later-IsFirst m region length k _ bad (nowhere never) = nowhere (λ i low fits.
    elim (Bool-cases (i == k)) [
      | inl same ↦
          subst (λ t. acpi_rsdp_valid m (region + t * 16) ≡ false)
            (let e : k ≡ i = ground arith in e) bad
      | inr other ↦ never i (ground arith) fits
    ])

scan_from-IsFirst :
    (fuel : ℕ) (m : Memory) (region length k : ℕ)
    → 20 ≤ length
    → length < u64_mod
    → length < k * 16 + fuel * 16
    → IsFirst m region length k (scan_from fuel m region (length - 20) (k * 16))
unfolding scan_from
scan_from-IsFirst zero m region length k big small enough =
    nowhere (λ i low fits. absurd (omega arith))
scan_from-IsFirst (suc fuel) m region length k big small enough =
    either_by (IsFirst m region length k) (leb (k * 16) (length - 20))
      (λ inside.
        either_by (IsFirst m region length k) (acpi_rsdp_valid m (region + k * 16))
          (λ valid.
            first_at k (omega arith) (ground arith) valid (λ i low lt. absurd (omega arith)))
          (λ bad. later-IsFirst m region length k _ bad (
            let e : (k + 1) * 16 ≡ add64 (k * 16) 16 = ground arith in
            subst (λ t. IsFirst m region length (k + 1) (scan_from fuel m region (length - 20) t)) e
              (scan_from-IsFirst fuel m region length (k + 1) big small (omega arith)))))
      (λ past. nowhere (λ i low fits. absurd (ground arith)))

-- `acpi_find_rsdp` of a region that is not NULL returns the first place, 16 bytes from one to the
-- next, at which there is a root pointer structure of 20 bytes at least inside the region, and NULL
-- when there is none.
pub acpi_find_rsdp-IsFirst :
    (m : Memory) (region length : ℕ)
    → length < u64_mod
    → IsFirst m region length 0 (acpi_find_rsdp m (some region) length)
unfolding acpi_find_rsdp
acpi_find_rsdp-IsFirst m region length small = elim (Bool-cases (ltb length 20)) [
  | inl short ↦ rw short (nowhere (λ i low fits. absurd (ground arith)))
  | inr long ↦ rw long (
      scan_from-IsFirst (suc (length / 16)) m region length 0 (ground arith) small
        (omega (arith, lt-div-mul-add {a = length} {b = 16} (omega arith))))
]
