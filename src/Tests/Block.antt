-- ===== src/Tests/Block.antt =====
-- src/block over a disk in memory.
use tunix_boot.Prelude.{
  ℕ, ◌+◌, ◌*◌, ◌≤◌, ◌<◌, ◌≡◌, ◌≢◌, inr, refl, true, false, none, some, List, [], ◌∷◌, arith,
}
use tunix_boot.Tests.Disk.{memory_disk, memory_disk-IsHonest, memory_disk-IsReliable}
use tunix_boot.Prelude.Slices.{slice}
use tunix_boot.Util.Checked.{checked_add}
use tunix_boot.Block.Device.{
  BlockDevice, block_device_valid, block_read_bytes, read_from, read_whole, read_tail,
  read_partial_sector, read_chunks,
}
use tunix_boot.Block.Device.Disk.{IsHonest, IsReliable, Returns}
use tunix_boot.Block.Device.Ranges.{block_read_bytes-Returns}
use tunix_boot.Block.Device.Total.{block_read_bytes-slice, block_read_bytes-past}
use tunix_boot.Block.Partition.{
  Partition, partition_open, partition_read_sectors, partition_leftover, partition_table_read,
}
use tunix_boot.Block.Partition.Table.{IsTable, partition_table_read-IsTable}
use tunix_boot.Block.Partition.View.{partition_open-reads}

-- Three sectors of four bytes.
abbrev bytes : List ℕ
bytes = 0 ∷ 1 ∷ 2 ∷ 3 ∷ 4 ∷ 5 ∷ 6 ∷ 7 ∷ 8 ∷ 9 ∷ 10 ∷ 11 ∷ []

abbrev disk : BlockDevice
disk = memory_disk bytes 4 3

disk-IsHonest : IsHonest disk bytes
disk-IsHonest = memory_disk-IsHonest bytes 4 3 (omega arith)

disk-IsReliable : IsReliable disk bytes
disk-IsReliable = memory_disk-IsReliable bytes 4 3 3 refl

disk-valid : block_device_valid disk ≡ true
unfolding block_device_valid
disk-valid = refl

-- From inside the first sector to inside the last.
read_bytes_run : block_read_bytes disk 3 6 ≡ some (3 ∷ 4 ∷ 5 ∷ 6 ∷ 7 ∷ 8 ∷ [])
unfolding block_read_bytes block_device_valid checked_add read_from read_whole read_tail
    read_partial_sector read_chunks
read_bytes_run = refl

block_read_bytes-slice_example : block_read_bytes disk 3 6 ≡ some (slice bytes 3 6)
block_read_bytes-slice_example =
    block_read_bytes-slice disk bytes 3 6 disk-IsHonest disk-IsReliable (inr refl) disk-valid
      (omega arith)

block_read_bytes-Returns_example : Returns bytes 3 6 (block_read_bytes disk 3 6)
block_read_bytes-Returns_example =
    block_read_bytes-Returns disk bytes 3 6 disk-IsHonest (λ z. omega arith)

block_read_bytes-past_example : block_read_bytes disk 10 3 ≡ none
block_read_bytes-past_example =
    block_read_bytes-past disk 10 3 (omega arith) (omega arith) (omega arith)

abbrev second : Partition
second = record { start_lba = 1; sector_count = 2; type = 0x83; active = false }

abbrev second_view : BlockDevice
second_view = record {
  read_sectors = partition_read_sectors disk 1 2;
  leftover = partition_leftover disk 1 2;
  sector_bytes = 4;
  sector_count = 2;
}

partition_open-reads_example :
    (1 + 5 ≤ 2 * 4 → block_read_bytes second_view 1 5 ≡ some (slice bytes (1 * 4 + 1) 5))
    × (◌≢◌ {A = ℕ} 5 0 → 2 * 4 < 1 + 5 → block_read_bytes second_view 1 5 ≡ none)
unfolding partition_open block_device_valid checked_add
partition_open-reads_example =
    partition_open-reads disk second bytes 1 5 disk-IsHonest disk-IsReliable (inr refl)
      (omega arith) refl

partition_table_read-IsTable_example : IsTable 3 (partition_table_read disk).1
partition_table_read-IsTable_example = partition_table_read-IsTable disk
