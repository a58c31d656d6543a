-- ===== src/Fs/Fat.antt =====
-- src/fs/fat.c: the volume and its cluster chains. A call that changes the volume does so through
-- the cache of one FAT sector only, so it is an action on the volume.
pub mod Name
pub mod NameBounds
pub mod Files
pub mod Entry
pub mod Chain
pub mod Content
pub mod Clusters
pub mod Reading
pub mod Mount
pub mod Total
pub mod Opened
use Prim.Native.Nat.{bit_and}
use tunix_boot.Prelude.{
  ℕ, zero, suc, ◌+◌, ◌-◌, ◌*◌, ◌/◌, ◌%◌, Bool, true, false, not, ◌&&◌, ◌||◌, Option, none, some,
  List, [], ◌∷◌, ◌++◌, ltb, leb, ◌==◌, if◌then◌else◌, get_or,
}
use tunix_boot.Prelude.Act
use tunix_boot.Prelude.Act.{Act}
use tunix_boot.Prelude.LittleEndian.{u16_at, u32_at}
use tunix_boot.Prelude.Word.{u32_mod, add64, sub64, mul64}
use tunix_boot.Util.Checked.{checked_add, checked_mul}
use tunix_boot.Util.Reader
use tunix_boot.Util.Reader.{Reader, Read, ◌>>=◌, ◌>>◌, pure, seek, read_u8, read_u16, read_u32}
use tunix_boot.Block.Device.{
  BlockDevice, block_device_valid, block_read, failed_read, block_read_bytes, prepend,
}

-- The fields of `struct fat_volume` that `fat_mount` sets for good.
pub record Geometry : Type 0 where
  pub device : BlockDevice
  pub bytes_per_sector : ℕ
  pub sectors_per_cluster : ℕ
  pub cluster_bytes : ℕ
  pub fat_start_sector : ℕ
  pub data_start_sector : ℕ
  pub sectors_per_fat : ℕ
  pub root_cluster : ℕ
  pub cluster_count : ℕ

-- `struct fat_volume`: the rest is the last FAT sector that was read.
pub record FatVolume : Type 0 where
  pub geometry : Geometry
  pub fat_sector : List ℕ
  pub fat_sector_index : ℕ
  pub fat_sector_valid : Bool

-- The subtraction is one of `uint32_t`.
unfoldable pub cluster_sector : Geometry → ℕ → ℕ
cluster_sector g cluster =
    add64 g.data_start_sector (mul64 ((cluster + u32_mod - 2) % u32_mod) g.sectors_per_cluster)

-- The sum is one of `uint32_t`.
unfoldable pub cluster_in_range : Geometry → ℕ → Bool
cluster_in_range g cluster =
    if ltb cluster 2 then false else ltb cluster ((2 + g.cluster_count) % u32_mod)

-- The fields of the boot sector that `fat_mount` reads.
pub record BootSector : Type 0 where
  pub bytes_per_sector : ℕ
  pub sectors_per_cluster : ℕ
  pub reserved_sectors : ℕ
  pub fat_count : ℕ
  pub root_entry_count : ℕ
  pub total_16 : ℕ
  pub sectors_per_fat_16 : ℕ
  pub total_32 : ℕ
  pub sectors_per_fat_32 : ℕ
  pub root_cluster : ℕ

unfoldable pub boot_sector_fields : Read BootSector
boot_sector_fields = do
  seek 11
  bytes_per_sector ← read_u16
  sectors_per_cluster ← read_u8
  reserved_sectors ← read_u16
  fat_count ← read_u8
  root_entry_count ← read_u16
  total_16 ← read_u16
  seek 22
  sectors_per_fat_16 ← read_u16
  seek 32
  total_32 ← read_u32
  sectors_per_fat_32 ← read_u32
  seek 44
  root_cluster ← read_u32
  pure (record {
    bytes_per_sector = bytes_per_sector;
    sectors_per_cluster = sectors_per_cluster;
    reserved_sectors = reserved_sectors;
    fat_count = fat_count;
    root_entry_count = root_entry_count;
    total_16 = total_16;
    sectors_per_fat_16 = sectors_per_fat_16;
    total_32 = total_32;
    sectors_per_fat_32 = sectors_per_fat_32;
    root_cluster = root_cluster;
  })

abbrev pub total_sectors : BootSector → ℕ
total_sectors b = if not (b.total_32 == 0) then b.total_32 else b.total_16

-- The tests on the fields, up to the size of the volume.
unfoldable pub good_boot_sector : BlockDevice → BootSector → Bool
good_boot_sector device b =
    (b.root_entry_count == 0)
    && (b.sectors_per_fat_16 == 0)
    && not (b.sectors_per_fat_32 == 0)
    && (b.bytes_per_sector == device.sector_bytes)
    && not (b.sectors_per_cluster == 0)
    && (bit_and b.sectors_per_cluster (b.sectors_per_cluster - 1) == 0)
    && not (b.reserved_sectors == 0)
    && not (b.fat_count == 0)
    && not (total_sectors b == 0)
    && not (not (device.sector_count == 0) && ltb device.sector_count (total_sectors b))

-- `clusters > UINT32_MAX ? UINT32_MAX : (uint32_t)clusters`.
abbrev pub capped_count : ℕ → ℕ
capped_count clusters = if ltb (u32_mod - 1) clusters then u32_mod - 1 else clusters % u32_mod

-- The volume for a boot sector whose data begin at sector `data_start`.
abbrev pub volume_of : BlockDevice → BootSector → ℕ → ℕ → FatVolume
volume_of device b data_start cluster_bytes = record {
  geometry = record {
    device = device;
    bytes_per_sector = b.bytes_per_sector;
    sectors_per_cluster = b.sectors_per_cluster;
    cluster_bytes = cluster_bytes % u32_mod;
    fat_start_sector = b.reserved_sectors;
    data_start_sector = data_start;
    sectors_per_fat = b.sectors_per_fat_32;
    root_cluster = b.root_cluster;
    cluster_count = capped_count (sub64 (total_sectors b) data_start / b.sectors_per_cluster);
  };
  fat_sector = [];
  fat_sector_index = 0;
  fat_sector_valid = false;
}

-- `fat_mount` from the size of the FATs on.
unfoldable pub lay_out : BlockDevice → BootSector → Option FatVolume
lay_out device b = elim (checked_mul b.fat_count b.sectors_per_fat_32) [
  | none ↦ none
  | some fat_sectors ↦ elim (checked_add b.reserved_sectors fat_sectors) [
    | none ↦ none
    | some data_start ↦
        if leb (total_sectors b) data_start
        then none
        else if sub64 (total_sectors b) data_start / b.sectors_per_cluster == 0
        then none
        else elim (checked_mul b.sectors_per_cluster b.bytes_per_sector) [
          | none ↦ none
          | some cluster_bytes ↦
              if cluster_in_range (volume_of device b data_start cluster_bytes).geometry
                b.root_cluster
              then some (volume_of device b data_start cluster_bytes)
              else none
        ]
  ]
]

-- `fat_mount` once the first sector is read.
unfoldable pub mount_sector : BlockDevice → List ℕ → Option FatVolume
mount_sector device sector =
    if not (u16_at sector 510 == 0xAA55)
    then none
    else elim (boot_sector_fields (Reader.init (some sector) 512)).0 [
      | none ↦ none
      | some b ↦ if good_boot_sector device b then lay_out device b else none
    ]

unfoldable pub fat_mount : BlockDevice → Option FatVolume
fat_mount device =
    if not (block_device_valid device)
    then none
    else elim (block_read device 0 1) [ none ↦ none | some sector ↦ mount_sector device sector ]

-- Where in bytes the entry of a cluster is on the device.
unfoldable pub entry_offset : Geometry → ℕ → Option ℕ
entry_offset g cluster =
    if not (cluster_in_range g cluster) then none else elim (checked_mul cluster 4) [
      | none ↦ none
      | some offset ↦ elim (checked_mul g.sectors_per_fat g.bytes_per_sector) [
        | none ↦ none
        | some limit ↦
            if ltb limit (add64 offset 4)
            then none
            else checked_add (mul64 g.fat_start_sector g.bytes_per_sector) offset
      ]
    ]

-- The FAT sector is read unless it is the one that is held. A failed read may have written to the
-- buffer, whose index and mark stay as they were.
unfoldable pub load_fat_sector : ℕ → Act FatVolume (Unit {0})
load_fat_sector sector v =
    if not v.fat_sector_valid || not (v.fat_sector_index == sector)
    then elim (block_read v.geometry.device sector 1) [
      | none ↦ (none, record v { fat_sector = failed_read v.geometry.device sector v.fat_sector })
      | some bytes ↦ (
        some tt,
        record v { fat_sector = bytes; fat_sector_index = sector; fat_sector_valid = true },
      )
    ]
    else (some tt, v)

abbrev pub masked_entry : List ℕ → ℕ → ℕ
masked_entry sector at = bit_and (u32_at sector at) 0x0FFFFFFF

-- `next_cluster` from where the entry is known to be.
unfoldable pub read_entry : ℕ → Act FatVolume ℕ
read_entry absolute v =
    let (loaded, v') = load_fat_sector (absolute / v.geometry.bytes_per_sector) v in
    elim loaded [
      | none ↦ (none, v')
      | some _ ↦ (some (masked_entry v'.fat_sector (absolute % v.geometry.bytes_per_sector)), v')
    ]

unfoldable pub next_cluster : ℕ → Act FatVolume ℕ
next_cluster cluster v = elim (entry_offset v.geometry cluster) [
  | none ↦ (none, v)
  | some absolute ↦ read_entry absolute v
]

abbrev pub is_end_of_chain : ℕ → Bool
is_end_of_chain cluster = leb 0x0FFFFFF8 cluster || (cluster == 0x0FFFFFF7)

-- The tests on a link in `advance`.
abbrev pub good_link : Geometry → ℕ → ℕ → Bool
good_link g steps next =
    not (is_end_of_chain next) && cluster_in_range g next && leb (steps + 1) g.cluster_count

-- The loop of `advance`, `count` links to go and `steps` behind.
unfoldable pub advance_from : ℕ → ℕ → ℕ → Act FatVolume ℕ
advance_from zero steps cluster v = (some cluster, v)
advance_from (suc count) steps cluster v = elim (next_cluster cluster v).0 [
  | none ↦ (none, (next_cluster cluster v).1)
  | some next ↦ elim (good_link v.geometry steps next) [
    | false ↦ (none, (next_cluster cluster v).1)
    | true ↦ advance_from count (steps + 1) next (next_cluster cluster v).1
  ]
]

unfoldable pub advance : ℕ → ℕ → Act FatVolume ℕ
advance cluster count = advance_from count 0 cluster

-- `struct fat_walk`.
pub record FatWalk : Type 0 where
  pub offset : ℕ
  pub cluster : ℕ
  pub valid : Bool

-- The bytes of one cluster from `into_cluster` on.
unfoldable pub read_part : Geometry → ℕ → ℕ → ℕ → Option (List ℕ)
read_part g cluster into_cluster count =
    elim (checked_mul (cluster_sector g cluster) g.bytes_per_sector) [
      | none ↦ none
      | some start ↦ elim (checked_add start into_cluster) [
        | none ↦ none
        | some byte_offset ↦ block_read_bytes g.device byte_offset count
      ]
    ]

-- `take` of one round.
abbrev pub part_of : Geometry → ℕ → ℕ → ℕ
part_of g into_cluster length =
    let available = g.cluster_bytes - into_cluster in
    if ltb available length then available else length

abbrev pub prepend_first : List ℕ → Option (List ℕ) × FatVolume → Option (List ℕ) × FatVolume
prepend_first bytes (rest, v) = (prepend bytes rest, v)

-- The loop of `read_chain`: every round reads a byte at least, so `length` rounds are enough.
unfoldable pub read_clusters : ℕ → ℕ → ℕ → ℕ → ℕ → Act FatVolume (List ℕ)
read_clusters zero cluster into_cluster walked length v = (none, v)
read_clusters (suc fuel) cluster into_cluster walked length v =
    elim (cluster_in_range v.geometry cluster) [
      | false ↦ (none, v)
      | true ↦
          elim (read_part v.geometry cluster into_cluster
            (part_of v.geometry into_cluster length)) [
              | none ↦ (none, v)
              | some bytes ↦ elim (length - part_of v.geometry into_cluster length == 0) [
                | true ↦ (some bytes, v)
                | false ↦ elim (next_cluster cluster v).0 [
                  | none ↦ (none, (next_cluster cluster v).1)
                  | some next ↦
                      elim (not (is_end_of_chain next)
                        && leb (walked + 1) v.geometry.cluster_count) [
                          | false ↦ (none, (next_cluster cluster v).1)
                          | true ↦ prepend_first bytes (
                              read_clusters fuel next 0 (walked + 1)
                                (length - part_of v.geometry into_cluster length)
                                (next_cluster cluster v).1)
                        ]
                ]
              ]
            ]
    ]

-- Where the walk of `read_chain` starts: a cluster of the chain and its index.
abbrev pub walk_start : Option FatWalk → ℕ → ℕ → ℕ × ℕ
walk_start none first target = (first, 0)
walk_start (some walk) first target =
    if walk.valid && leb walk.offset target then (walk.cluster, walk.offset) else (first, 0)

abbrev pub walk_reached : Option FatWalk → ℕ → ℕ → Option FatWalk
walk_reached none cluster target = none
walk_reached (some walk) cluster target =
    some (record { offset = target; cluster = cluster; valid = true })

-- What `read_chain` returns, the volume, and `*walk` where it was not NULL.
pub record ChainRead : Type 0 where
  pub bytes : Option (List ℕ)
  pub volume : FatVolume
  pub walk : Option FatWalk

-- `read_chain` from where the walk has got to.
unfoldable pub read_reached : ℕ → ℕ → ℕ → Option FatWalk → Option ℕ × FatVolume → ChainRead
read_reached target offset length walk (none, v) = record { bytes = none; volume = v; walk = walk }
read_reached target offset length walk (some cluster, v) =
    let (bytes, v') =
      read_clusters length cluster (offset % v.geometry.cluster_bytes % u32_mod) 0 length v in
    record { bytes = bytes; volume = v'; walk = walk_reached walk cluster target }

unfoldable pub read_chain : FatVolume → ℕ → ℕ → ℕ → Option FatWalk → ChainRead
read_chain v first_cluster offset length walk =
    if length == 0
    then record { bytes = some []; volume = v; walk = walk }
    else let target = offset / v.geometry.cluster_bytes in
      let (cluster, index) = walk_start walk first_cluster target in
      read_reached target offset length walk (advance cluster (target - index) v)
