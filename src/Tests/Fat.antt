-- ===== src/Tests/Fat.antt =====
-- src/fs/fat.c on a volume of four clusters, and on a disk with one file.
use tunix_boot.Prelude.{
  ◌==◌, if◌then◌else◌, ℕ, ◌+◌, ◌≤◌, ◌≡◌, inr, refl, true, false, Option, none, some, List, [], ◌∷◌,
  ◌++◌, arith, replicate,
}
use tunix_boot.Tests.Disk.{memory_disk, memory_disk-IsHonest, memory_disk-IsReliable}
use tunix_boot.Block.Device.{
  BlockDevice, block_device_valid, block_read, failed_read, block_read_bytes, within_device,
  read_chunks, read_from, read_whole, read_tail, read_partial_sector,
}
use tunix_boot.Block.Device.Disk.{IsHonest}
use tunix_boot.Fs.Fat.{
  Geometry, FatVolume, cluster_in_range, cluster_sector, entry_offset, load_fat_sector, read_entry,
  next_cluster, advance_from, advance, read_part, read_clusters, read_reached, read_chain,
}
use tunix_boot.Fs.Fat.Files.{FatFile, fat_read}
use tunix_boot.Fs.Fat.Entry.{Holds, fat_entry, device_entry}
use tunix_boot.Fs.Fat.Chain.{link}
use tunix_boot.Fs.Fat.Reading.{HasClusters, FileOnChain}
use tunix_boot.Fs.Fat.Content.{cluster_start}
use tunix_boot.Fs.Fat.Total.{IsServed, Reaches, fat_read_total}
use tunix_boot.Fs.Fat.Name.{
  LongName, long_name_reset, take_unit, take_units, take_fragment, long_name_accumulate,
}
use tunix_boot.Fs.Fat.NameBounds.{IsInside, long_name_accumulate-IsInside}
use tunix_boot.Util.Checked.{checked_add, checked_mul}

-- Seven sectors of 16 bytes: one in front, two of the FAT, and clusters 2 to 5 of one sector. The
-- file begins in cluster 3 and goes on in cluster 5.
abbrev bytes : List ℕ
bytes =
    replicate 24 0
    ++ (255 ∷ 255 ∷ 255 ∷ 15 ∷ 5 ∷ 0 ∷ 0 ∷ 0 ∷ 0 ∷ 0 ∷ 0 ∷ 0 ∷ 255 ∷ 255 ∷ 255 ∷ 15 ∷ [])
    ++ replicate 24 0
    ++ (100 ∷ 101 ∷ 102 ∷ 103 ∷ 104 ∷ 105 ∷ 106 ∷ 107 ∷ 108 ∷ 109 ∷ 110 ∷ 111 ∷ 112 ∷ 113 ∷ 114
        ∷ 115 ∷ [])
    ++ replicate 16 0
    ++ (200 ∷ 201 ∷ 202 ∷ 203 ∷ 204 ∷ 205 ∷ 206 ∷ 207 ∷ 208 ∷ 209 ∷ 210 ∷ 211 ∷ 212 ∷ 213 ∷ 214
        ∷ 215 ∷ [])

abbrev disk : BlockDevice
disk = memory_disk bytes 16 7

abbrev geometry : Geometry
geometry = record {
  device = disk;
  bytes_per_sector = 16;
  sectors_per_cluster = 1;
  cluster_bytes = 16;
  fat_start_sector = 1;
  data_start_sector = 3;
  sectors_per_fat = 2;
  root_cluster = 2;
  cluster_count = 4;
}

abbrev volume : FatVolume
volume = record {
  geometry = geometry;
  fat_sector = [];
  fat_sector_index = 0;
  fat_sector_valid = false;
}

abbrev file : FatFile
file = record {
  first_cluster = 3;
  size = 20;
  directory = false;
  walk = record { offset = 0; cluster = 0; valid = false };
}

-- The same file, its walk in the second cluster.
abbrev walked : FatFile
walked = record file { walk = record { offset = 1; cluster = 5; valid = true } }

disk-IsHonest : IsHonest disk bytes
disk-IsHonest = memory_disk-IsHonest bytes 16 7 (omega arith)

sizes : HasClusters geometry
sizes = record { some_bytes = omega arith; small = omega arith }

nothing_cached : Holds volume
nothing_cached = record { cached = λ e. absurd cc }

at_start : FileOnChain geometry file
at_start = record { stands = λ e. absurd cc }

-- A drive that cannot read sector 2 and leaves zeros where it should have gone.
abbrev failing : FatVolume
failing = record volume {
  geometry = record geometry {
    device = record disk {
      read_sectors = λ lba count. if lba == 2 then none else disk.read_sectors lba count;
    };
  };
}

abbrev after_failure : FatVolume
after_failure = (next_cluster 5 (next_cluster 3 failing).1).1

-- The link of cluster 3 is 5, but after the failure the zeros are taken for the cached sector.
stale_cache_run :
    ((next_cluster 3 failing).0 ≡ some 5) × ((next_cluster 3 after_failure).0 ≡ some 0)
unfolding next_cluster read_entry load_fat_sector cluster_in_range entry_offset checked_add
    checked_mul block_read failed_read block_device_valid within_device read_chunks
stale_cache_run = (refl, refl)

abbrev wanted : List ℕ
wanted = 110 ∷ 111 ∷ 112 ∷ 113 ∷ 114 ∷ 115 ∷ 200 ∷ 201 ∷ []

abbrev runs : List (Option (List ℕ))
runs =
    (fat_read volume file 10 8).bytes
    ∷ (fat_read volume file 18 2).bytes
    ∷ (fat_read volume walked 18 2).bytes
    ∷ (fat_read volume file 18 3).bytes
    ∷ []

fat_read_runs : runs ≡ some wanted ∷ some (202 ∷ 203 ∷ []) ∷ some (202 ∷ 203 ∷ []) ∷ none ∷ []
unfolding fat_read read_chain read_reached read_clusters read_part advance advance_from next_cluster
    read_entry load_fat_sector cluster_sector cluster_in_range entry_offset checked_add checked_mul
    block_read block_read_bytes read_from read_whole read_tail read_partial_sector
    block_device_valid within_device read_chunks
fat_read_runs = refl

placed_on_disk : (c : ℕ) → cluster_in_range geometry c ≡ true → cluster_start geometry c + 16 ≤ 112
unfolding cluster_in_range cluster_sector
placed_on_disk c e = ground (arith, e)

disk-IsServed : IsServed geometry bytes
unfolding block_device_valid
disk-IsServed = record {
  honest = disk-IsHonest;
  reliable = memory_disk-IsReliable bytes 16 7 7 refl;
  sized = inr refl;
  valid = refl;
  clusters = sizes;
  placed = placed_on_disk;
}

range-Reaches : Reaches geometry 3 10 8
unfolding link fat_entry device_entry cluster_in_range entry_offset checked_add checked_mul
    block_read block_device_valid within_device read_chunks
range-Reaches = record { last = 5; proper = refl; few = omega arith; ends = refl }

fat_read_total_example : (out : List ℕ) × ((fat_read volume file 10 8).bytes ≡ some out)
fat_read_total_example =
    fat_read_total bytes volume file 10 8 disk-IsServed nothing_cached at_start refl
      (λ z. omega arith) (omega arith) (omega arith) range-Reaches

-- A first and last fragment with the name `ab`.
abbrev fragment : List ℕ
fragment = 65 ∷ 97 ∷ 0 ∷ 98 ∷ 0 ∷ 0 ∷ 0 ∷ 255 ∷ 255 ∷ 255 ∷ 255 ∷ 15 ∷ 0 ∷ 77 ∷ replicate 18 255

abbrev no_name : LongName
no_name = record { text = λ i. 0; length = 0; checksum = 0; valid = false }

long_name_accumulate_run : (long_name_accumulate no_name fragment).length ≡ 2
unfolding long_name_accumulate take_fragment take_units take_unit long_name_reset
long_name_accumulate_run = refl

long_name_accumulate-IsInside_example : IsInside (λ i. 0) (long_name_accumulate no_name fragment)
long_name_accumulate-IsInside_example =
    long_name_accumulate-IsInside (λ i. 0) no_name fragment
      (record { room = omega arith; untouched = λ i le. refl })
