-- ===== src/Elf.antt =====
-- src/elf/elf.c. `elf_read_fn` is a function of the offset and the length: whether it succeeded,
-- and the bytes that it wrote to `out`, which it may have done before it failed. Memory is a
-- function of the address, so that a read writes straight into it.
pub mod Layout
pub mod Chunks
pub mod Place
pub mod Load
use Prim.Native.Nat.{bit_and}
use tunix_boot.Prelude.{
  ℕ, zero, suc, ◌+◌, ◌-◌, ◌*◌, Bool, true, false, not, ◌&&◌, ◌||◌, Option, none, some, List, [],
  ◌∷◌, ◌++◌, ltb, leb, ◌==◌, if◌then◌else◌, length, get_or,
}
use tunix_boot.Prelude.Int.{ℤ, pos, negsuc}
use tunix_boot.Prelude.Word.{u64_mod, add64, sub64}
use tunix_boot.Util.Checked.{checked_add, checked_mul}
use tunix_boot.Util.Mem.{Memory, memset, memcmp, is_equal}
use tunix_boot.Util.Reader
use tunix_boot.Util.Reader.{Reader, Read, ◌>>=◌, ◌>>◌, pure, seek, read_u16, read_u32, read_u64}

-- `elf_read_fn`.
abbrev pub ReadFn : Type 0
ReadFn = ℕ → ℕ → Bool × List ℕ

-- `struct elf_segment`.
pub record Segment : Type 0 where
  pub file_offset : ℕ
  pub virtual_address : ℕ
  pub physical_address : ℕ
  pub file_bytes : ℕ
  pub memory_bytes : ℕ
  pub flags : ℕ

-- `struct elf_image`: the segments below `segment_count`.
pub record Image : Type 0 where
  pub entry : ℕ
  pub segments : List Segment
  pub lowest_address : ℕ
  pub highest_address : ℕ

-- `struct elf_placement`; `bias` is an `int64_t`.
pub record Placement : Type 0 where
  pub bias : ℤ
  pub limit_low : ℕ
  pub limit_high : ℕ

abbrev pub max_segments : ℕ
max_segments = 16

unfoldable pub biased : ℕ → ℤ → Option ℕ
biased address (pos bias) = checked_add address bias
biased address (negsuc n) =
    let magnitude = add64 n 1 in
    if ltb address magnitude then none else some (sub64 address magnitude)

unfoldable pub segment_within : Segment → Placement → Bool
segment_within segment placement = elim (biased segment.physical_address placement.bias) [
  | none ↦ false
  | some start ↦ elim (checked_add start segment.memory_bytes) [
    | none ↦ false
    | some end ↦ not (ltb start placement.limit_low || ltb placement.limit_high end)
  ]
]

unfoldable pub segments_overlap : Segment → Segment → Bool
segments_overlap left right = elim (checked_add left.physical_address left.memory_bytes) [
  | none ↦ true
  | some left_end ↦ elim (checked_add right.physical_address right.memory_bytes) [
    | none ↦ true
    | some right_end ↦ ltb left.physical_address right_end && ltb right.physical_address left_end
  ]
]

-- The fields that `parse_header` reads.
pub record Header : Type 0 where
  pub type : ℕ
  pub machine : ℕ
  pub version : ℕ
  pub entry : ℕ
  pub program_offset : ℕ
  pub entry_size : ℕ
  pub count : ℕ

unfoldable pub header_fields : Read Header
header_fields = do
  seek 16
  type ← read_u16
  machine ← read_u16
  version ← read_u32
  entry ← read_u64
  seek 32
  program_offset ← read_u64
  seek 54
  entry_size ← read_u16
  count ← read_u16
  pure (record {
    type = type;
    machine = machine;
    version = version;
    entry = entry;
    program_offset = program_offset;
    entry_size = entry_size;
    count = count;
  })

abbrev pub elf_magic : List ℕ
elf_magic = 0x7F ∷ 0x45 ∷ 0x4C ∷ 0x46 ∷ []

-- The tests on the identification bytes.
abbrev pub good_ident : List ℕ → Bool
good_ident header =
    is_equal (memcmp header elf_magic 4)
    && (get_or header 4 0 == 2)
    && (get_or header 5 0 == 1)
    && (get_or header 6 0 == 1)

-- The tests on the fields.
abbrev pub good_fields : Header → Bool
good_fields h =
    ((h.type == 2) || (h.type == 3))
    && (h.machine == 62)
    && (h.version == 1)
    && (h.entry_size == 56)
    && not (h.count == 0)
    && leb h.count 64

unfoldable pub parse_header : ReadFn → Option Header
parse_header read =
    let (ok, header) = read 0 64 in
    if not ok
    then none
    else if not (good_ident header)
    then none
    else elim (header_fields (Reader.init (some header) 64)).0 [
      | none ↦ none
      | some h ↦ if good_fields h then some h else none
    ]

-- A program header: its type, its alignment, and the segment.
pub record ProgramHeader : Type 0 where
  pub type : ℕ
  pub align : ℕ
  pub segment : Segment

unfoldable pub program_fields : Read ProgramHeader
program_fields = do
  type ← read_u32
  flags ← read_u32
  file_offset ← read_u64
  virtual_address ← read_u64
  physical_address ← read_u64
  file_bytes ← read_u64
  memory_bytes ← read_u64
  align ← read_u64
  pure (record {
    type = type;
    align = align;
    segment = record {
      file_offset = file_offset;
      virtual_address = virtual_address;
      physical_address = physical_address;
      file_bytes = file_bytes;
      memory_bytes = memory_bytes;
      flags = flags;
    };
  })

-- `!checked_add_u64(a, b, &unused)`.
abbrev pub wraps : ℕ → ℕ → Bool
wraps a b = elim (checked_add a b) [ none ↦ true | some _ ↦ false ]

-- The tests on a header of type PT_LOAD, in the order of the code.
unfoldable pub good_load : ProgramHeader → Bool
good_load p =
    not (ltb p.segment.memory_bytes p.segment.file_bytes)
    && not (p.segment.memory_bytes == 0)
    && not (not (p.align == 0) && not (bit_and p.align (p.align - 1) == 0))
    && not (wraps p.segment.file_offset p.segment.file_bytes)
    && not (wraps p.segment.physical_address p.segment.memory_bytes)
    && not (wraps p.segment.virtual_address p.segment.memory_bytes)

unfoldable pub parse_program_header : List ℕ → Option ProgramHeader
parse_program_header raw = elim (program_fields (Reader.init (some raw) 56)).0 [
  | none ↦ none
  | some p ↦ if not (p.type == 1) then some p else if good_load p then some p else none
]

-- The loop over the segments before the new one.
unfoldable pub any_overlap : List Segment → Segment → Bool
any_overlap [] segment = false
any_overlap (other ∷ rest) segment =
    if segments_overlap other segment then true else any_overlap rest segment

-- The segment is stored, and the span widened.
abbrev pub with_segment : Image → Segment → Image
with_segment out segment =
    let end = add64 segment.physical_address segment.memory_bytes in
    record out {
      segments = out.segments ++ segment ∷ [];
      lowest_address =
          if ltb segment.physical_address out.lowest_address
          then segment.physical_address
          else out.lowest_address;
      highest_address = if ltb out.highest_address end then end else out.highest_address;
    }

-- The rest of the body of the loop of `elf_parse` for a loadable segment; `none` is `return false`.
unfoldable pub add_segment : Image → Segment → Option Image
add_segment out segment =
    if length out.segments == max_segments
    then none
    else if any_overlap out.segments segment
    then none
    else some (with_segment out segment)

-- What the loop does with a program header that was read.
unfoldable pub take_header : Image → ProgramHeader → Option Image
take_header out p =
    if p.type == 3 then none else if not (p.type == 1) then some out else add_segment out p.segment

-- One round of the loop of `elf_parse`.
unfoldable pub parse_round : ReadFn → ℕ → ℕ → Image → Option Image
parse_round read program_offset index out = elim (checked_mul index 56) [
  | none ↦ none
  | some scaled ↦ elim (checked_add program_offset scaled) [
    | none ↦ none
    | some at ↦ elim (read at 56).0 [
      | false ↦ none
      | true ↦ elim (parse_program_header (read at 56).1) [
        | none ↦ none
        | some p ↦ take_header out p
      ]
    ]
  ]
]

-- The loop, with `left` program headers to go.
unfoldable pub parse_headers : ReadFn → ℕ → ℕ → ℕ → Image → Option Image
parse_headers read program_offset zero index out = some out
parse_headers read program_offset (suc left) index out =
    elim (parse_round read program_offset index out) [
      | none ↦ none
      | some out' ↦ parse_headers read program_offset left (index + 1) out'
    ]

-- The image before the first program header.
abbrev pub unplaced : Header → Image
unplaced h = record {
  entry = h.entry;
  segments = [];
  lowest_address = u64_mod - 1;
  highest_address = 0;
}

-- `elf_parse`; the image matters only when it succeeds.
unfoldable pub elf_parse : ReadFn → Option Image
elf_parse read = elim (parse_header read) [
  | none ↦ none
  | some h ↦ elim (parse_headers read h.program_offset h.count 0 (unplaced h)) [
    | none ↦ none
    | some out ↦ if length out.segments == 0 then none else some out
  ]
]

abbrev pub copy_chunk : ℕ → ℕ
copy_chunk length = if ltb 4096 length then 4096 else length

-- The loop of `zero_range`; `length` rounds are enough.
unfoldable pub zero_chunks : ℕ → ℕ → ℕ → Memory → Memory
zero_chunks zero cursor length m = m
zero_chunks (suc fuel) cursor length m = elim (length == 0) [
  | true ↦ m
  | false ↦
      zero_chunks fuel (add64 cursor (copy_chunk length)) (length - copy_chunk length)
        (memset cursor 0 (copy_chunk length) m)
]

unfoldable pub zero_range : ℕ → ℕ → Memory → Memory
zero_range address length m = zero_chunks length address length m

-- What a read of the bytes to `at` leaves in memory.
abbrev pub written : Memory → ℕ → List ℕ → Memory
written m at bytes p =
    if leb at p && ltb p (at + length bytes) then get_or bytes (p - at) 0 else m p

-- The loop of `copy_segment`; `remaining` rounds are enough.
unfoldable pub copy_chunks : ReadFn → ℕ → ℕ → ℕ → ℕ → Memory → Bool × Memory
copy_chunks read zero cursor from remaining m = (true, m)
copy_chunks read (suc fuel) cursor from remaining m = elim (remaining == 0) [
  | true ↦ (true, m)
  | false ↦
      let chunk = copy_chunk remaining in
      elim (read from chunk).0 [
        | false ↦ (false, written m cursor (read from chunk).1)
        | true ↦
            copy_chunks read fuel (add64 cursor chunk) (add64 from chunk) (remaining - chunk)
              (written m cursor (read from chunk).1)
      ]
]

unfoldable pub copy_segment : ReadFn → Segment → ℕ → Memory → Bool × Memory
copy_segment read segment destination m =
    let (ok, copied) =
      copy_chunks read segment.file_bytes destination segment.file_offset segment.file_bytes m in
    if not ok then (false, copied) else (
      true,
      zero_range (add64 destination segment.file_bytes)
          (sub64 segment.memory_bytes segment.file_bytes) copied,
    )

-- The first loop of `elf_load`.
unfoldable pub all_within : List Segment → Placement → Bool
all_within [] placement = true
all_within (segment ∷ rest) placement =
    if segment_within segment placement then all_within rest placement else false

-- The second loop.
unfoldable pub load_segments : ReadFn → ℤ → List Segment → Memory → Bool × Memory
load_segments read bias [] m = (true, m)
load_segments read bias (segment ∷ rest) m = elim (biased segment.physical_address bias) [
  | none ↦ (false, m)
  | some destination ↦ elim (copy_segment read segment destination m).0 [
    | false ↦ (false, (copy_segment read segment destination m).1)
    | true ↦ load_segments read bias rest (copy_segment read segment destination m).1
  ]
]

unfoldable pub elf_load : ReadFn → Image → Placement → Memory → Bool × Memory
elf_load read image placement m =
    if leb placement.limit_high placement.limit_low
    then (false, m)
    else if length image.segments == 0
    then (false, m)
    else if not (all_within image.segments placement)
    then (false, m)
    else load_segments read placement.bias image.segments m

unfoldable pub elf_entry_point : Image → Placement → ℕ
elf_entry_point image placement = elim (biased image.entry placement.bias) [
  | none ↦ 0
  | some entry ↦ entry
]
