-- ===== src/Block/Device.antt =====
-- src/block/block.c: byte ranges over a device that moves whole sectors. The backend is a function of
-- the sector and the count; `none` is its failure, and `leftover` what the buffer that it was given
-- then holds, by what it held. What is read is the list of bytes written to `out`; the scratch buffer is written before each use and holds nothing between calls.
pub mod Disk
pub mod Ranges
pub mod Total
use tunix_boot.Prelude.{
  ℕ, zero, suc, ◌+◌, ◌-◌, ◌*◌, ◌/◌, ◌%◌, Bool, true, false, not, ◌&&◌, Option, none, some, List, [],
  ◌∷◌, ◌++◌, ltb, leb, ◌==◌, if◌then◌else◌, take, drop,
}
use tunix_boot.Prelude.Word.{u32_mod, add64, sub64}
use tunix_boot.Util.Checked.{checked_add}

-- `struct block_device`, with the function pointer as a function.
pub record BlockDevice : Type 0 where
  pub read_sectors : ℕ → ℕ → Option (List ℕ)
  pub leftover : ℕ → ℕ → List ℕ → List ℕ
  pub sector_bytes : ℕ
  pub sector_count : ℕ

-- `sizeof device->bounce`.
abbrev pub bounce_bytes : ℕ
bounce_bytes = 512

abbrev pub max_sectors_per_read : ℕ
max_sectors_per_read = 64

unfoldable pub block_device_valid : BlockDevice → Bool
block_device_valid d =
    if d.sector_bytes == 0 then false else if ltb bounce_bytes d.sector_bytes then false else true

unfoldable pub within_device : BlockDevice → ℕ → ℕ → Bool
within_device d lba count = elim (checked_add lba count) [
  | none ↦ false
  | some end ↦ if d.sector_count == 0 then true else leb end d.sector_count
]

abbrev pub chunk_of : ℕ → ℕ
chunk_of count = if ltb max_sectors_per_read count then max_sectors_per_read else count

abbrev pub prepend : List ℕ → Option (List ℕ) → Option (List ℕ)
prepend bytes none = none
prepend bytes (some rest) = some (bytes ++ rest)

-- The loops `while (count > 0)` and `while (whole > 0)`, on fuel.
unfoldable pub read_chunks : BlockDevice → ℕ → ℕ → ℕ → Option (List ℕ)
read_chunks d zero lba count = if count == 0 then some [] else none
read_chunks d (suc fuel) lba count = elim (count == 0) [
  | true ↦ some []
  | false ↦ elim (d.read_sectors lba (chunk_of count)) [
    | none ↦ none
    | some bytes ↦
        prepend bytes (read_chunks d fuel (add64 lba (chunk_of count)) (count - chunk_of count))
  ]
]

-- `block_read`; every round moves at least one sector, so `count` rounds are enough.
unfoldable pub block_read : BlockDevice → ℕ → ℕ → Option (List ℕ)
block_read d lba count =
    if not (block_device_valid d)
    then none
    else if count == 0
    then none
    else if not (within_device d lba count)
    then none
    else read_chunks d count lba count

-- What the buffer of a `block_read` of one sector that fails holds afterwards: the backend may have
-- written to it before it failed.
unfoldable pub failed_read : BlockDevice → ℕ → List ℕ → List ℕ
failed_read d lba buffer =
    if block_device_valid d && within_device d lba 1 then d.leftover lba 1 buffer else buffer

unfoldable pub read_partial_sector : BlockDevice → ℕ → ℕ → ℕ → Option (List ℕ)
read_partial_sector d lba start length = elim (d.read_sectors lba 1) [
  | none ↦ none
  | some bounce ↦ some (take length (drop start bounce))
]

-- The tail of `block_read_bytes`: a last partial sector.
unfoldable pub read_tail : BlockDevice → ℕ → ℕ → Option (List ℕ)
read_tail d lba length =
    if length == 0 then some [] else read_partial_sector d lba 0 (length % u32_mod)

-- The middle: whole sectors, then the tail.
unfoldable pub read_whole : BlockDevice → ℕ → ℕ → Option (List ℕ)
read_whole d lba length =
    if ltb length d.sector_bytes
    then read_tail d lba length
    else elim (read_chunks d (length / d.sector_bytes) lba (length / d.sector_bytes)) [
      | none ↦ none
      | some bytes ↦ prepend bytes (
          read_tail d (add64 lba (length / d.sector_bytes))
            (length - length / d.sector_bytes * d.sector_bytes))
    ]

-- The head: the rest of a sector that the range starts inside.
unfoldable pub read_from : BlockDevice → ℕ → ℕ → ℕ → Option (List ℕ)
read_from d lba into_sector length =
    if into_sector == 0
    then read_whole d lba length
    else let available = d.sector_bytes - into_sector in
      let take_now = (if ltb available length then available else length) % u32_mod in
      elim (read_partial_sector d lba into_sector take_now) [
        | none ↦ none
        | some bytes ↦ prepend bytes (read_whole d (add64 lba 1) (length - take_now))
      ]

unfoldable pub block_read_bytes : BlockDevice → ℕ → ℕ → Option (List ℕ)
block_read_bytes d offset length =
    if not (block_device_valid d)
    then none
    else if length == 0
    then some []
    else elim (checked_add offset length) [
      | none ↦ none
      | some end ↦
          if not (d.sector_count == 0) && leb d.sector_count ((end - 1) / d.sector_bytes)
          then none
          else read_from d (offset / d.sector_bytes) (offset % d.sector_bytes % u32_mod) length
    ]
