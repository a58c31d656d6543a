-- ===== src/Block/Partition.antt =====
-- src/block/partition.c: MBR and GPT tables, and the device confined to one partition. A function
-- that fills `*out` returns its Boolean and the table that it leaves behind.
pub mod Table
pub mod View
use Prim.Native.Nat.{bit_and}
use tunix_boot.Prelude.{
  ℕ, zero, suc, ◌+◌, ◌-◌, ◌*◌, ◌%◌, Bool, true, false, not, ◌&&◌, ◌||◌, Option, none, some, List,
  [], ◌∷◌, ◌++◌, ltb, leb, ◌==◌, if◌then◌else◌, length, get_or, drop, bit_or,
}
use tunix_boot.Prelude.Flow.{Flow, stop, next, continue}
use tunix_boot.Prelude.Word.{u16_mod, u64_mod, add64, mul64}
use tunix_boot.Util.Checked.{checked_add, checked_mul}
use tunix_boot.Util.Mem.{memcmp, is_equal}
use tunix_boot.Util.Reader
use tunix_boot.Util.Reader.{Reader, Read, ◌>>=◌, ◌>>◌, pure, seek, read_u8, read_u32, read_u64}
use tunix_boot.Block.Device.{BlockDevice, block_device_valid, block_read, block_read_bytes}

-- `struct partition`.
pub record Partition : Type 0 where
  pub start_lba : ℕ
  pub sector_count : ℕ
  pub type : ℕ
  pub active : Bool

-- `struct partition_table`: the entries below `count`.
pub record PartitionTable : Type 0 where
  pub entries : List Partition
  pub gpt : Bool

abbrev pub partition_max : ℕ
partition_max = 16

abbrev pub no_table : PartitionTable
no_table = record { entries = []; gpt = false }

unfoldable pub add_entry : PartitionTable → ℕ → ℕ → ℕ → Bool → ℕ → Bool × PartitionTable
unfolding checked_add
add_entry table start sectors type active device_sectors =
    if sectors == 0 then (false, table) else elim (checked_add start sectors) [
      | none ↦ (false, table)
      | some end ↦
          if not (device_sectors == 0) && ltb device_sectors end
          then (false, table)
          else if length table.entries == partition_max
          then (false, table)
          else (
            true,
            record table {
              entries =
                  table.entries
                  ++ record {
                    start_lba = start;
                    sector_count = sectors;
                    type = type;
                    active = active;
                  }
                    ∷ [];
            },
          )
    ]

-- The fields of one MBR entry.
pub record MbrEntry : Type 0 where
  pub status : ℕ
  pub type : ℕ
  pub start : ℕ
  pub sectors : ℕ

unfoldable pub mbr_fields : Read MbrEntry
mbr_fields = do
  seek 0
  status ← read_u8
  seek 4
  type ← read_u8
  seek 8
  start ← read_u32
  seek 12
  sectors ← read_u32
  pure (record { status = status; type = type; start = start; sectors = sectors })

-- One round of the loop over the four entries; a read that fails is a `break`.
unfoldable pub mbr_round : ℕ → List ℕ → ℕ → PartitionTable → Flow PartitionTable
mbr_round index sector device_sectors out =
    elim (mbr_fields (Reader.init (some (drop (446 + index * 16) sector)) 16)).0 [
      | none ↦ stop out
      | some e ↦
          if e.type == 0
          then next out
          else if e.type == 0xEE
          then stop (record { entries = []; gpt = true })
          else next
              (add_entry out e.start e.sectors e.type (not (bit_and e.status 0x80 == 0))
                device_sectors).1
    ]

-- The loop, with `left` entries to go.
unfoldable pub mbr_entries : ℕ → ℕ → List ℕ → ℕ → PartitionTable → PartitionTable
mbr_entries zero index sector device_sectors out = out
mbr_entries (suc left) index sector device_sectors out =
    continue (mbr_round index sector device_sectors out)
      (λ out'. mbr_entries left (index + 1) sector device_sectors out')

-- `sector[510] | (sector[511] << 8)`, as a `uint16_t`.
abbrev pub signature_of : List ℕ → ℕ
signature_of sector = bit_or (get_or sector 510 0) (get_or sector 511 0 * 256) % u16_mod

-- `partition_parse_mbr`; NULL is `none`.
unfoldable pub parse_mbr : Option (List ℕ) → ℕ → Bool × PartitionTable
parse_mbr none device_sectors = (false, no_table)
parse_mbr (some sector) device_sectors =
    if not (signature_of sector == 0xAA55)
    then (false, no_table)
    else (true, mbr_entries 4 0 sector device_sectors no_table)

-- The loop of `entry_is_used`.
unfoldable pub used_from : ℕ → ℕ → List ℕ → Bool
used_from zero index guid = false
used_from (suc left) index guid =
    if not (get_or guid index 0 == 0) then true else used_from left (index + 1) guid

unfoldable pub entry_is_used : List ℕ → Bool
unfolding used_from
entry_is_used guid = used_from 16 0 guid

pub record GptHeader : Type 0 where
  pub entry_lba : ℕ
  pub entry_count : ℕ
  pub entry_bytes : ℕ

unfoldable pub gpt_header : Read GptHeader
gpt_header = do
  seek 72
  entry_lba ← read_u64
  entry_count ← read_u32
  entry_bytes ← read_u32
  pure (record { entry_lba = entry_lba; entry_count = entry_count; entry_bytes = entry_bytes })

unfoldable pub gpt_extent : Read (ℕ × ℕ)
gpt_extent = do seek 32; first ← read_u64; last ← read_u64; pure (first, last)

-- `index * entry_bytes` after the first byte of the entry array; `none` is a `break`.
unfoldable pub gpt_offset : GptHeader → ℕ → Option ℕ
unfolding checked_add checked_mul
gpt_offset h index = elim (checked_mul index h.entry_bytes) [
  | none ↦ none
  | some offset ↦ checked_add (mul64 h.entry_lba 512) offset
]

-- One used entry: what `add_entry` makes of it.
unfoldable pub gpt_entry : BlockDevice → List ℕ → ℕ → PartitionTable → Flow PartitionTable
gpt_entry d entry entry_bytes out = elim (gpt_extent (Reader.init (some entry) entry_bytes)).0 [
  | none ↦ stop out
  | some (first, last) ↦
      if ltb last first
      then next out
      else next (add_entry out first (add64 (last - first) 1) 0 false d.sector_count).1
]

-- One round of the loop over the entry array.
unfoldable pub gpt_round : BlockDevice → GptHeader → ℕ → PartitionTable → Flow PartitionTable
gpt_round d h index out = elim (gpt_offset h index) [
  | none ↦ stop out
  | some offset ↦ elim (block_read_bytes d offset h.entry_bytes) [
    | none ↦ stop out
    | some entry ↦
        if not (entry_is_used entry) then next out else gpt_entry d entry h.entry_bytes out
  ]
]

unfoldable pub gpt_entries : BlockDevice → GptHeader → ℕ → ℕ → PartitionTable → PartitionTable
gpt_entries d h zero index out = out
gpt_entries d h (suc left) index out =
    continue (gpt_round d h index out) (λ out'. gpt_entries d h left (index + 1) out')

-- The ASCII codes of GPT_SIGNATURE.
abbrev pub gpt_signature : List ℕ
gpt_signature = 0x45 ∷ 0x46 ∷ 0x49 ∷ 0x20 ∷ 0x50 ∷ 0x41 ∷ 0x52 ∷ 0x54 ∷ []

abbrev pub some_entries : PartitionTable → Bool
some_entries t = not (length t.entries == 0)

abbrev pub capped : ℕ → ℕ
capped count = if ltb partition_max count then partition_max else count

-- `parse_gpt` once its header sector has been read.
unfoldable pub parse_gpt_header : BlockDevice → List ℕ → PartitionTable → Bool × PartitionTable
parse_gpt_header d header out =
    if not (is_equal (memcmp header gpt_signature 8))
    then (false, out)
    else elim (gpt_header (Reader.init (some header) 512)).0 [
      | none ↦ (false, out)
      | some h ↦
          if ltb h.entry_bytes 128 || ltb 4096 h.entry_bytes
          then (false, out)
          else let out' = gpt_entries d h (capped h.entry_count) 0 out in (some_entries out', out')
    ]

unfoldable pub parse_gpt : BlockDevice → PartitionTable → Bool × PartitionTable
parse_gpt d out = elim (block_read d 1 1) [
  | none ↦ (false, out)
  | some header ↦ parse_gpt_header d header out
]

-- `partition_table_read` once the first sector has been read.
unfoldable pub read_table_from : BlockDevice → List ℕ → Bool × PartitionTable
read_table_from d sector =
    let (believed, table) = parse_mbr (some sector) d.sector_count in
    if not believed
    then (false, table)
    else if table.gpt
    then parse_gpt d table
    else (some_entries table, table)

unfoldable pub partition_table_read : BlockDevice → Bool × PartitionTable
partition_table_read d =
    if not (block_device_valid d) then (false, no_table) else elim (block_read d 0 1) [
      | none ↦ (false, no_table)
      | some sector ↦ read_table_from d sector
    ]

-- `partition_read_sectors` of a view that starts at `start_lba` of `parent`.
unfoldable pub partition_read_sectors : BlockDevice → ℕ → ℕ → ℕ → ℕ → Option (List ℕ)
unfolding checked_add
partition_read_sectors parent start_lba sector_count lba count = elim (checked_add lba count) [
  | none ↦ none
  | some end ↦ if ltb sector_count end then none else elim (checked_add start_lba lba) [
    | none ↦ none
    | some absolute ↦ parent.read_sectors absolute count
  ]
]

-- What a failed call of it leaves in the buffer.
unfoldable pub partition_leftover : BlockDevice → ℕ → ℕ → ℕ → ℕ → List ℕ → List ℕ
unfolding checked_add
partition_leftover parent start_lba sector_count lba count buffer = elim (checked_add lba count) [
  | none ↦ buffer
  | some end ↦ if ltb sector_count end then buffer else elim (checked_add start_lba lba) [
    | none ↦ buffer
    | some absolute ↦ parent.leftover absolute count buffer
  ]
]

-- `partition_open`: the device that addresses one partition from zero.
unfoldable pub partition_open : BlockDevice → Partition → Option BlockDevice
unfolding checked_add
partition_open d entry =
    if not (block_device_valid d)
    then none
    else if entry.sector_count == 0
    then none
    else elim (checked_add entry.start_lba entry.sector_count) [
      | none ↦ none
      | some end ↦
          if not (d.sector_count == 0) && ltb d.sector_count end
          then none
          else some (record {
            read_sectors = partition_read_sectors d entry.start_lba entry.sector_count;
            leftover = partition_leftover d entry.start_lba entry.sector_count;
            sector_bytes = d.sector_bytes;
            sector_count = entry.sector_count;
          })
    ]
