-- ===== src/Block/Partition/Table.antt =====
-- Every entry of a table that was read lies on the disk, whatever the disk says.
use tunix_boot.Prelude.{
  ℕ, zero, suc, ◌+◌, ◌-◌, ◌*◌, drop, ◌≤◌, ◌<◌, ◌≢◌, inl, inr, sym, Bool, true, false, not, ◌||◌,
  Option, none, some, List, [], ◌∷◌, ◌++◌, arith, length, length-append, All, All-append, ltb, ◌==◌,
  if◌then◌else◌, Bool-cases,
}
use Prim.Native.Nat.{bit_and}
use mathlib.Core.Path.{subst}
use tunix_boot.Util.Mem.{memcmp, is_equal}
use tunix_boot.Prelude.Flow.{stop, next, Either, continue_keeps}
use tunix_boot.Prelude.Word.{u64_mod, add64}
use tunix_boot.Util.Reader
use tunix_boot.Block.Device.{BlockDevice, block_device_valid, block_read, block_read_bytes}
use tunix_boot.Block.Partition.{
  Partition, PartitionTable, partition_max, no_table, add_entry, MbrEntry, mbr_fields, mbr_round,
  mbr_entries, signature_of, GptHeader, gpt_round, parse_mbr, gpt_entry, gpt_entries, gpt_extent,
  gpt_offset, parse_gpt, entry_is_used, partition_table_read, parse_gpt_header, read_table_from,
  gpt_header, gpt_signature, capped, some_entries,
}

-- The partition is not empty, its end does not wrap, and it ends on the disk if the size is known.
pub record IsPartition (device_sectors : ℕ) (p : Partition) : Type 0 where
  pub some_sectors : 0 < p.sector_count
  pub no_wrap : p.start_lba + p.sector_count < u64_mod
  pub on_disk : device_sectors ≢ 0 → p.start_lba + p.sector_count ≤ device_sectors

pub record IsTable (device_sectors : ℕ) (t : PartitionTable) : Type 0 where
  pub entries : All (IsPartition device_sectors) t.entries
  pub room : length t.entries ≤ partition_max

pub add_entry-IsTable :
    (t : PartitionTable) (start sectors type : ℕ) (active : Bool) (n : ℕ)
    → IsTable n t
    → IsTable n (add_entry t start sectors type active n).1
unfolding add_entry
add_entry-IsTable t start sectors type active n h = record {
  entries = ground (arith, h.entries, appended);
  room = ground (arith, h.room, length-append t.entries (p ∷ []));
}
  where
    p : Partition
    p = record { start_lba = start; sector_count = sectors; type = type; active = active }

    appended :
        0 < sectors
        → start + sectors < u64_mod
        → (n ≢ 0 → start + sectors ≤ n)
        → All (IsPartition n) (t.entries ++ p ∷ [])
    appended a b c =
        All-append (IsPartition n) t.entries (p ∷ []) h.entries
          (record { some_sectors = a; no_wrap = b; on_disk = c }, tt)

empty-IsTable : (n : ℕ) (gpt : Bool) → IsTable n (record { entries = []; gpt = gpt })
empty-IsTable n gpt = record { entries = tt; room = omega arith }

mbr_round-IsTable :
    (index : ℕ) (sector : List ℕ) (n : ℕ) (t : PartitionTable)
    → IsTable n t
    → Either (IsTable n) (mbr_round index sector n t)
unfolding mbr_round
mbr_round-IsTable index sector n t h =
    of_fields (mbr_fields (Reader.init (some (drop (446 + index * 16) sector)) 16)).0
  where
    of_fields :
        (fields : Option MbrEntry)
        → Either (IsTable n) (elim fields [
          | none ↦ stop t
          | some e ↦
              if e.type == 0
              then next t
              else if e.type == 0xEE
              then stop (record { entries = []; gpt = true })
              else next
                  (add_entry t e.start e.sectors e.type (not (bit_and e.status 0x80 == 0)) n).1
        ])
    of_fields none = h
    of_fields (some e) = elim (Bool-cases (e.type == 0)) [
      | inl empty ↦ rw empty h
      | inr used ↦ rw used (elim (Bool-cases (e.type == 0xEE)) [
        | inl protective ↦ rw protective (empty-IsTable n true)
        | inr plain ↦
            rw plain
              (add_entry-IsTable t e.start e.sectors e.type (not (bit_and e.status 0x80 == 0)) n h)
      ])
    ]

mbr_entries-IsTable :
    (left index : ℕ) (sector : List ℕ) (n : ℕ) (t : PartitionTable)
    → IsTable n t
    → IsTable n (mbr_entries left index sector n t)
unfolding mbr_entries
mbr_entries-IsTable zero index sector n t h = h
mbr_entries-IsTable (suc left) index sector n t h =
    continue_keeps (IsTable n) (mbr_round index sector n t) _ (mbr_round-IsTable index sector n t h)
      (λ t' h'. mbr_entries-IsTable left (index + 1) sector n t' h')

pub parse_mbr-IsTable : (sector : Option (List ℕ)) (n : ℕ) → IsTable n (parse_mbr sector n).1
unfolding parse_mbr
parse_mbr-IsTable none n = empty-IsTable n false
parse_mbr-IsTable (some sector) n = elim (Bool-cases (not (signature_of sector == 0xAA55))) [
  | inl bad ↦ rw bad (empty-IsTable n false)
  | inr good ↦ rw good (mbr_entries-IsTable 4 0 sector n no_table (empty-IsTable n false))
]

module _ (d : BlockDevice) where
  abbrev Fits : PartitionTable → Type 0
  Fits = IsTable d.sector_count

  gpt_entry-IsTable :
      (entry : List ℕ) (bytes : ℕ) (t : PartitionTable)
      → Fits t
      → Either Fits (gpt_entry d entry bytes t)
  unfolding gpt_entry
  gpt_entry-IsTable entry bytes t h = of_extent (gpt_extent (Reader.init (some entry) bytes)).0
    where
      of_extent :
          (extent : Option (ℕ × ℕ))
          → Either Fits (elim extent [
            | none ↦ stop t
            | some (first, last) ↦
                if ltb last first
                then next t
                else next (add_entry t first (add64 (last - first) 1) 0 false d.sector_count).1
          ])
      of_extent none = h
      of_extent (some (first, last)) = elim (Bool-cases (ltb last first)) [
        | inl backwards ↦ rw backwards h
        | inr forwards ↦
            rw forwards
              (add_entry-IsTable t first (add64 (last - first) 1) 0 false d.sector_count h)
      ]

  gpt_round-IsTable :
      (g : GptHeader) (index : ℕ) (t : PartitionTable)
      → Fits t
      → Either Fits (gpt_round d g index t)
  unfolding gpt_round
  gpt_round-IsTable g index t h = of_offset (gpt_offset g index)
    where
      of_entry :
          (bytes : Option (List ℕ))
          → Either Fits (elim bytes [
            | none ↦ stop t
            | some entry ↦
                if not (entry_is_used entry) then next t else gpt_entry d entry g.entry_bytes t
          ])
      of_entry none = h
      of_entry (some entry) = elim (Bool-cases (not (entry_is_used entry))) [
        | inl unused ↦ rw unused h
        | inr used ↦ rw used (gpt_entry-IsTable entry g.entry_bytes t h)
      ]

      of_offset :
          (offset : Option ℕ)
          → Either Fits (elim offset [
            | none ↦ stop t
            | some at ↦ elim (block_read_bytes d at g.entry_bytes) [
              | none ↦ stop t
              | some entry ↦
                  if not (entry_is_used entry) then next t else gpt_entry d entry g.entry_bytes t
            ]
          ])
      of_offset none = h
      of_offset (some at) = of_entry (block_read_bytes d at g.entry_bytes)

  gpt_entries-IsTable :
      (g : GptHeader) (left index : ℕ) (t : PartitionTable)
      → Fits t
      → Fits (gpt_entries d g left index t)
  unfolding gpt_entries
  gpt_entries-IsTable g zero index t h = h
  gpt_entries-IsTable g (suc left) index t h =
      continue_keeps Fits (gpt_round d g index t) _ (gpt_round-IsTable g index t h)
        (λ t' h'. gpt_entries-IsTable g left (index + 1) t' h')

  parse_gpt_header-IsTable :
      (header : List ℕ) (t : PartitionTable) → Fits t → Fits (parse_gpt_header d header t).1
  unfolding parse_gpt_header
  parse_gpt_header-IsTable header t h =
      elim (Bool-cases (not (is_equal (memcmp header gpt_signature 8)))) [
        | inl foreign ↦ rw foreign h
        | inr signed ↦ rw signed (of_header (gpt_header (Reader.init (some header) 512)).0)
      ]
    where
      of_header :
          (found : Option GptHeader)
          → Fits
              (elim found as (λ _. Bool × PartitionTable) [
                | none ↦ (false, t)
                | some g ↦
                    if ltb g.entry_bytes 128 || ltb 4096 g.entry_bytes
                    then (false, t)
                    else (let t' = gpt_entries d g (capped g.entry_count) 0 t in
                        (some_entries t', t'))
              ]).1
      of_header none = h
      of_header (some g) = elim (Bool-cases (ltb g.entry_bytes 128 || ltb 4096 g.entry_bytes)) [
        | inl odd ↦ rw odd h
        | inr fine ↦ rw fine (gpt_entries-IsTable g (capped g.entry_count) 0 t h)
      ]

  parse_gpt-IsTable : (t : PartitionTable) → Fits t → Fits (parse_gpt d t).1
  unfolding parse_gpt
  parse_gpt-IsTable t h = of_sector (block_read d 1 1)
    where
      of_sector :
          (sector : Option (List ℕ))
          → Fits
              (elim sector as (λ _. Bool × PartitionTable) [
                | none ↦ (false, t)
                | some header ↦ parse_gpt_header d header t
              ]).1
      of_sector none = h
      of_sector (some header) = parse_gpt_header-IsTable header t h

  read_table_from-IsTable : (sector : List ℕ) → Fits (read_table_from d sector).1
  unfolding read_table_from
  read_table_from-IsTable sector =
      of_parsed (parse_mbr (some sector) d.sector_count)
        (parse_mbr-IsTable (some sector) d.sector_count)
    where
      of_parsed :
          (parsed : Bool × PartitionTable)
          → Fits parsed.1
          → Fits
              (if not parsed.0
                then (false, parsed.1)
                else if parsed.1.gpt
                then parse_gpt d parsed.1
                else (some_entries parsed.1, parsed.1)).1
      of_parsed (false, t) h = h
      of_parsed (true, t) h = elim (Bool-cases t.gpt) [
        | inl gpt ↦
            subst (λ b. Fits (if b then parse_gpt d t else (some_entries t, t)).1) (sym gpt)
              (parse_gpt-IsTable t h)
        | inr mbr ↦
            subst (λ b. Fits (if b then parse_gpt d t else (some_entries t, t)).1) (sym mbr) h
      ]

  -- Whatever sectors a disk holds, every entry of the table that is read from it is a range of
  -- sectors that does not wrap, is not empty, and ends on the disk if its size is known; and there
  -- are at most 16 of them.
  pub partition_table_read-IsTable : IsTable d.sector_count (partition_table_read d).1
  unfolding partition_table_read
  partition_table_read-IsTable = elim (Bool-cases (not (block_device_valid d))) [
    | inl bad ↦ rw bad (empty-IsTable d.sector_count false)
    | inr good ↦ rw good (of_sector (block_read d 0 1))
  ]
    where
      of_sector :
          (sector : Option (List ℕ))
          → Fits
              (elim sector as (λ _. Bool × PartitionTable) [
                | none ↦ (false, no_table)
                | some bytes ↦ read_table_from d bytes
              ]).1
      of_sector none = empty-IsTable d.sector_count false
      of_sector (some bytes) = read_table_from-IsTable bytes
