-- ===== src/Memory/Paging/Address.antt =====
-- The parts of a virtual address, and which addresses are canonical.
use Prim.Native.Nat.{bit_and}
use tunix_boot.Prelude.{ℕ, ◌+◌, ◌-◌, ◌*◌, ◌/◌, ◌%◌, ◌^◌, ◌≤◌, ◌<◌, ◌≡◌, ◌↔◌, ◌⊎◌, true, arith}
use tunix_boot.Prelude.Bits.{bit_and_low}
use tunix_boot.Prelude.Word.{u64_mod}
use tunix_boot.Memory.Paging.{index_at, paging_address_is_canonical}

index_at-eq-mod :
    (virtual level : ℕ) → index_at virtual level ≡ virtual / 2 ^ (12 + 9 * (level - 1)) % 512
unfolding index_at
index_at-eq-mod virtual level = bit_and_low 9 (virtual / 2 ^ (12 + 9 * (level - 1)))

-- The indices of the four levels and the offset in the page are exactly the low 48 bits of an address.
pub index_at-splits :
    (virtual : ℕ)
    → index_at virtual 4 * 2 ^ 39
        + index_at virtual 3 * 2 ^ 30
        + index_at virtual 2 * 2 ^ 21
        + index_at virtual 1 * 2 ^ 12
        + virtual % 2 ^ 12
      ≡ virtual % 2 ^ 48
index_at-splits virtual = omega (
  arith,
  index_at-eq-mod virtual 4,
  index_at-eq-mod virtual 3,
  index_at-eq-mod virtual 2,
  index_at-eq-mod virtual 1,
)

-- The canonical ones of the 64-bit addresses are the lowest and the highest 2^47.
pub paging_address_is_canonical_iff :
    (address : ℕ)
    → address < u64_mod
    → (paging_address_is_canonical address ≡ true)
      ↔ ((address < 2 ^ 47) ⊎ (u64_mod - 2 ^ 47 ≤ address))
unfolding paging_address_is_canonical
paging_address_is_canonical_iff address small =
    let sign : bit_and (address / 2 ^ 47) 1 ≡ address / 2 ^ 47 % 2 =
      bit_and_low 1 (address / 2 ^ 47) in
    (λ e. ground (arith, sign, e), λ h. ground (arith, sign, h))
