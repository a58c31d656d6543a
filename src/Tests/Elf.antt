-- ===== src/Tests/Elf.antt =====
-- src/elf on a file with two loadable segments.
use tunix_boot.Prelude.{
  ℕ, ◌+◌, ◌≡◌, ◌≢◌, inr, refl, true, false, some, List, [], ◌∷◌, ◌++◌, arith, All, if◌then◌else◌,
  leb, length, get_or, replicate,
}
use tunix_boot.Prelude.Int.{negsuc}
use tunix_boot.Prelude.Slices.{slice, get_or-slice, length-slice}
use tunix_boot.Util.Checked.{checked_add, checked_mul}
use tunix_boot.Util.Reader
use tunix_boot.Util.Reader.{read_u16, read_u32, read_u64, seek, scalar, little_endian}
use tunix_boot.Util.Reader.Scalar.{le_bytes}
use tunix_boot.Util.Mem.{Memory, memcmp}
use tunix_boot.Elf.{
  ReadFn, Image, Placement, elf_parse, parse_header, header_fields, parse_headers, parse_round,
  parse_program_header, program_fields, good_load, take_header, add_segment, any_overlap,
  segments_overlap, elf_load, all_within, segment_within, biased, load_segments, copy_segment,
  copy_chunks, zero_range, zero_chunks,
}
use tunix_boot.Elf.Layout.{IsLayout, elf_parse-IsLayout}
use tunix_boot.Elf.Chunks.{IsBounded, IsHonest}
use tunix_boot.Elf.Place.{Stands}
use tunix_boot.Elf.Load.{elf_load_confined, elf_load-Stands, Serves, elf_load_total}

-- A read function over a buffer.
abbrev pub buffer_read : List ℕ → ReadFn
buffer_read bytes offset count =
    if leb (offset + count) (length bytes) then (true, slice bytes offset count) else (false, [])

buffer_read-IsBounded : (bytes : List ℕ) → IsBounded (buffer_read bytes)
buffer_read-IsBounded bytes offset count = ground (arith, length-slice bytes offset count)

buffer_read-IsHonest : (bytes : List ℕ) → IsHonest (buffer_read bytes) (λ i. get_or bytes i 0)
buffer_read-IsHonest bytes = record {
  filled = λ offset count ok. ground (arith, length-slice bytes offset count);
  returned = λ offset count i ok lt. ground (arith, get_or-slice bytes offset count i 0 lt);
}

abbrev program_header : ℕ → ℕ → ℕ → ℕ → List ℕ
program_header offset address file_bytes memory_bytes =
    le_bytes 4 1
    ++ le_bytes 4 7
    ++ le_bytes 8 offset
    ++ le_bytes 8 address
    ++ le_bytes 8 address
    ++ le_bytes 8 file_bytes
    ++ le_bytes 8 memory_bytes
    ++ le_bytes 8 1

abbrev elf_file : List ℕ
elf_file =
    (0x7F ∷ 0x45 ∷ 0x4C ∷ 0x46 ∷ 2 ∷ 1 ∷ 1 ∷ [])
    ++ replicate 9 0
    ++ le_bytes 2 2
    ++ le_bytes 2 62
    ++ le_bytes 4 1
    ++ le_bytes 8 0x1002
    ++ le_bytes 8 64
    ++ replicate 14 0
    ++ le_bytes 2 56
    ++ le_bytes 2 2
    ++ replicate 6 0
    ++ program_header 176 0x1000 3 5
    ++ program_header 179 0x2000 1 1
    ++ (11 ∷ 12 ∷ 13 ∷ 14 ∷ [])

abbrev image : Image
image = record {
  entry = 0x1002;
  segments =
      record {
        file_offset = 176;
        virtual_address = 0x1000;
        physical_address = 0x1000;
        file_bytes = 3;
        memory_bytes = 5;
        flags = 7;
      }
      ∷ record {
        file_offset = 179;
        virtual_address = 0x2000;
        physical_address = 0x2000;
        file_bytes = 1;
        memory_bytes = 1;
        flags = 7;
      }
      ∷ [];
  lowest_address = 0x1000;
  highest_address = 0x2001;
}

elf_parse_run : elf_parse (buffer_read elf_file) ≡ some image
unfolding elf_parse parse_header header_fields parse_headers parse_round parse_program_header
    program_fields good_load take_header add_segment any_overlap segments_overlap checked_add
    checked_mul read_u16 read_u32 read_u64 seek scalar little_endian memcmp Reader.init
elf_parse_run = refl

elf_parse-IsLayout_example : IsLayout image × ◌≢◌ {A = ℕ} 2 0
elf_parse-IsLayout_example = elf_parse-IsLayout (buffer_read elf_file) elf_parse_run

abbrev placement : Placement
placement = record { bias = negsuc 0xF; limit_low = 0xF00; limit_high = 0x2000 }

abbrev filled : Memory
filled p = 0xAA

elf_load_run : (elf_load (buffer_read elf_file) image placement filled).0 ≡ true
unfolding elf_load all_within segment_within biased checked_add load_segments copy_segment
    copy_chunks zero_range zero_chunks
elf_load_run = refl

elf_load_confined_example : (elf_load (buffer_read elf_file) image placement filled).1 0x2000 ≡ 0xAA
elf_load_confined_example =
    elf_load_confined (buffer_read elf_file) image placement filled 0x2000
      (buffer_read-IsBounded elf_file) (elf_parse-IsLayout_example.0) (inr (omega arith))

elf_load-Stands_example :
    All
      (Stands
        (λ i. get_or elf_file i 0)
        placement
        (elf_load (buffer_read elf_file) image placement filled).1)
      image.segments
elf_load-Stands_example =
    elf_load-Stands (buffer_read elf_file) (λ i. get_or elf_file i 0) image placement filled
      (buffer_read-IsBounded elf_file) (buffer_read-IsHonest elf_file)
      (elf_parse-IsLayout_example.0) (omega arith) elf_load_run

elf_file-Serves : Serves (buffer_read elf_file) 180
elf_file-Serves offset count le = ground arith

elf_load_total_example : (elf_load (buffer_read elf_file) image placement filled).0 ≡ true
elf_load_total_example =
    elf_load_total (buffer_read elf_file) 180 image placement filled elf_file-Serves (omega arith)
      (elf_parse-IsLayout_example.0) (omega arith) (omega arith, (omega arith, tt)) (omega arith)
      (omega arith) (omega arith)
      (
        record { start = 0xFF0; moved = refl; low = omega arith; high = omega arith },
        (record { start = 0x1FF0; moved = refl; low = omega arith; high = omega arith }, tt),
      )
