-- ===== src/Tests/Util.antt =====
-- src/util on small inputs.
use tunix_boot.Prelude.{ℕ, ◌%◌, ◌≡◌, refl, none, some, List, [], ◌∷◌, arith}
use tunix_boot.Util.Checked.{checked_align_up, bad_alignment, clear_low}
use tunix_boot.Util.Reader.{Reader, read_u8, read_u16, read_u32, read_u64, scalar, little_endian}
use tunix_boot.Util.Reader.Scalar.{le_value}
use tunix_boot.Util.Reader.Bounds.{IsValid, Reads, ahead, fixed_widths_in_bounds}
use tunix_boot.Util.Mem.{Memory, memmove}
use tunix_boot.Util.Mem.Copies.{IsMoved, memmove-IsMoved}

abbrev five : List ℕ
five = 0x34 ∷ 0x12 ∷ 0xff ∷ 0x00 ∷ 0x7f ∷ []

abbrev reader : Reader
reader = record { base = five; length = 5; position = 1 }

reader-IsValid : IsValid reader
reader-IsValid = record {
  inside = omega arith;
  backed = omega arith;
  small = omega arith;
  bytes = omega arith;
}

align_up_run : (checked_align_up 0x1001 0x1000 ≡ some 0x2000) × (checked_align_up 5 6 ≡ none)
unfolding checked_align_up bad_alignment clear_low
align_up_run = (refl, refl)

read_u16_run :
    read_u16 (record reader { position = 0 }) ≡ (some 0x1234, record reader { position = 2 })
unfolding read_u16 scalar little_endian
read_u16_run = refl

fixed_widths_in_bounds_example :
    Reads reader 1 (le_value (ahead reader) 1) (read_u8 reader)
    × Reads reader 2 (le_value (ahead reader) 2) (read_u16 reader)
    × Reads reader 4 (le_value (ahead reader) 4) (read_u32 reader)
    × Reads reader 8 (le_value (ahead reader) 8) (read_u64 reader)
fixed_widths_in_bounds_example = fixed_widths_in_bounds reader reader-IsValid

abbrev counting : Memory
counting p = p % 256

memmove-IsMoved_example : IsMoved 12 10 4 counting (memmove 12 10 4 counting)
memmove-IsMoved_example = memmove-IsMoved 12 10 4 counting

memmove_run : memmove 12 10 4 counting 14 ≡ 12
unfolding memmove
memmove_run = refl
