-- ===== src/Prelude/LittleEndian.antt =====
-- Fields of two and four bytes that the source puts together from single bytes.
use Prim.Native.Nat.{ℕ, ◌+◌, ◌*◌, ◌^◌, bit_or}
use mathlib.Core.List.{List}
use tunix_boot.Prelude.Lists.{get_or}

-- `b[0] | (b[1] << 8)` at `b = bytes + at`.
abbrev pub u16_at : List ℕ → ℕ → ℕ
u16_at bytes at = bit_or (get_or bytes at 0) (get_or bytes (at + 1) 0 * 2 ^ 8)

-- `b[0] | (b[1] << 8) | (b[2] << 16) | (b[3] << 24)` at `b = bytes + at`.
abbrev pub u32_at : List ℕ → ℕ → ℕ
u32_at bytes at =
    bit_or (bit_or (u16_at bytes at) (get_or bytes (at + 2) 0 * 2 ^ 16))
      (get_or bytes (at + 3) 0 * 2 ^ 24)
