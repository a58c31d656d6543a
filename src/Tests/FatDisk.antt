-- ===== src/Tests/FatDisk.antt =====
-- src/fs/fat.c from `fat_mount` on: a disk of four sectors with the file `A`.
use tunix_boot.Prelude.{
  ℕ, ◌+◌, ◌≤◌, ◌≡◌, ◌⊎◌, refl, sym, ◌∙◌, false, some, List, [], ◌∷◌, ◌++◌, arith, replicate,
}
use mathlib.Core.Path.{subst}
use tunix_boot.Tests.Disk.{memory_disk, memory_disk-IsHonest, are_bytes-All}
use tunix_boot.Util.Checked.{checked_add, checked_mul}
use tunix_boot.Util.Reader
use tunix_boot.Util.Reader.{
  seek, read_u8, read_u16, read_u32, scalar, little_endian, little_endian_from, has,
}
use tunix_boot.Util.Reader.At.{IsBuffer}
use tunix_boot.Block.Device.{
  BlockDevice, block_device_valid, block_read, block_read_bytes, within_device, read_chunks,
  read_from, read_whole, read_tail, read_partial_sector,
}
use tunix_boot.Block.Device.Disk.{IsHonest}
use tunix_boot.Fs.Fat.{
  FatVolume, cluster_in_range, cluster_sector, fat_mount, mount_sector, boot_sector_fields,
  good_boot_sector, lay_out, advance_from, advance, read_part, read_clusters, read_reached,
  read_chain,
}
use tunix_boot.Fs.Fat.Name.{
  upper, base_length, store_upper, same_upper, name_matches, checksum_from, short_name_checksum,
  long_name_matches,
}
use tunix_boot.Fs.Fat.Files.{
  FatFile, look_at, find_from, find_in_directory, skip_separators, component_end, open_from,
  fat_open, fat_read,
}
use tunix_boot.Fs.Fat.Content.{Covers}
use tunix_boot.Fs.Fat.Mount.{IsMounted, fat_mount-IsMounted}
use tunix_boot.Fs.Fat.Opened.{mounted_read-Covers}

abbrev first_sector : List ℕ
first_sector =
    replicate 11 0
    ++ (0 ∷ 2 ∷ 1 ∷ 1 ∷ 0 ∷ 1 ∷ 0 ∷ 0 ∷ 0 ∷ 0 ∷ 0 ∷ 0 ∷ 0 ∷ [])
    ++ replicate 8 0
    ++ (4 ∷ 0 ∷ 0 ∷ 0 ∷ 1 ∷ 0 ∷ 0 ∷ 0 ∷ [])
    ++ replicate 4 0
    ++ (2 ∷ 0 ∷ 0 ∷ 0 ∷ [])
    ++ replicate 462 0
    ++ (0x55 ∷ 0xAA ∷ [])

-- Clusters 2 and 3 end their chains.
abbrev fat : List ℕ
fat = replicate 8 0 ++ (255 ∷ 255 ∷ 255 ∷ 15 ∷ 255 ∷ 255 ∷ 255 ∷ 15 ∷ []) ++ replicate 496 0

-- The file `A`, 4 bytes long, in cluster 3.
abbrev root : List ℕ
root = 65 ∷ replicate 10 32 ++ replicate 15 0 ++ (3 ∷ 0 ∷ 4 ∷ 0 ∷ 0 ∷ 0 ∷ []) ++ replicate 480 0

abbrev content : List ℕ
content = 9 ∷ 8 ∷ 7 ∷ 6 ∷ replicate 508 0

abbrev bytes : List ℕ
bytes = first_sector ++ fat ++ root ++ content

abbrev disk : BlockDevice
disk = memory_disk bytes 512 4

abbrev volume : FatVolume
volume = record {
  geometry = record {
    device = disk;
    bytes_per_sector = 512;
    sectors_per_cluster = 1;
    cluster_bytes = 512;
    fat_start_sector = 1;
    data_start_sector = 2;
    sectors_per_fat = 1;
    root_cluster = 2;
    cluster_count = 2;
  };
  fat_sector = [];
  fat_sector_index = 0;
  fat_sector_valid = false;
}

abbrev file : FatFile
file = record {
  first_cluster = 3;
  size = 4;
  directory = false;
  walk = record { offset = 0; cluster = 0; valid = false };
}

disk-IsHonest : IsHonest disk bytes
disk-IsHonest = memory_disk-IsHonest bytes 512 4 (omega arith)

first_read : block_read disk 0 1 ≡ some first_sector
unfolding block_read block_device_valid within_device checked_add read_chunks
first_read = refl

first-IsBuffer : IsBuffer first_sector 512
first-IsBuffer = record {
  octets = are_bytes-All first_sector refl;
  backed = omega arith;
  small = omega arith;
}

first_filled : (sector : List ℕ) → block_read disk 0 1 ≡ some sector → IsBuffer sector 512
first_filled sector e =
    let same : first_sector ≡ sector = (let q = sym first_read ∙ e in cc) in
    subst (λ s. IsBuffer s 512) same first-IsBuffer

mounts : fat_mount disk ≡ some volume
unfolding fat_mount mount_sector boot_sector_fields good_boot_sector lay_out cluster_in_range
    block_read block_device_valid within_device checked_add checked_mul read_chunks Reader.init seek
    read_u8 read_u16 read_u32 scalar little_endian little_endian_from has
mounts = refl

fat_mount-IsMounted_example : IsMounted disk volume
fat_mount-IsMounted_example = fat_mount-IsMounted disk volume first_filled mounts

-- `/A`.
abbrev path : List ℕ
path = 47 ∷ 65 ∷ []

opens : fat_open (λ i. 0) volume path ≡ (some file, volume)
unfolding fat_open skip_separators component_end open_from find_in_directory find_from look_at
    short_name_checksum checksum_from long_name_matches name_matches base_length store_upper
    same_upper upper read_chain read_reached read_clusters read_part advance advance_from
    cluster_in_range cluster_sector block_read_bytes read_from read_whole read_tail
    read_partial_sector block_device_valid checked_add checked_mul read_chunks
opens = refl

reads : (fat_read volume file 1 3).bytes ≡ some (8 ∷ 7 ∷ 6 ∷ [])
unfolding fat_read read_chain read_reached read_clusters read_part advance advance_from
    cluster_in_range cluster_sector block_read_bytes read_from read_whole read_tail
    read_partial_sector block_device_valid checked_add checked_mul read_chunks
reads = refl

mounted_read-Covers_example :
    ◌≡◌ {A = ℕ} 3 3
    × ((1 + 3 ≤ 4) ⊎ ◌≡◌ {A = ℕ} 3 0)
    × Covers volume.geometry bytes 3 1 (8 ∷ 7 ∷ 6 ∷ [])
mounted_read-Covers_example =
    mounted_read-Covers disk bytes (λ i. 0) path volume volume file 1 3 (8 ∷ 7 ∷ 6 ∷ [])
      disk-IsHonest first_filled mounts opens reads
