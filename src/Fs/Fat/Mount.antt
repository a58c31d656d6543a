-- ===== src/Fs/Fat/Mount.antt =====
-- What `fat_mount` accepts: a volume whose clusters lie on the device.
use native.Mathlib.Nat.{div-mul-le_self, mul-le-mul_right}
use mathlib.Core.Path.{subst}
use tunix_boot.Prelude.{
  ℕ, ◌+◌, ◌-◌, ◌*◌, ◌/◌, ◌%◌, ◌≡◌, ◌≢◌, ◌≤◌, ◌<◌, inl, inr, refl, ap, ◌∙◌, true, false, some, List,
  arith, drop, leb, Bool-cases, Option-cases,
}
use tunix_boot.Prelude.Word.{u32_mod, sub64}
use tunix_boot.Util.Checked.{checked_add, checked_mul, checked_mul-eq-some}
use tunix_boot.Util.Reader
use tunix_boot.Util.Reader.{Read, read_u8, read_u16, read_u32, seek}
use tunix_boot.Util.Reader.Scalar.{le_value}
use tunix_boot.Util.Reader.At.{
  IsBuffer, read_u8-at, read_u16-at, read_u32-at, seek-at, le_value_fits,
}
use tunix_boot.Block.Device.{BlockDevice, block_device_valid, block_read}
use tunix_boot.Block.Device.Ranges.{valid_sizes}
use tunix_boot.Fs.Fat.{
  Geometry, FatVolume, BootSector, boot_sector_fields, good_boot_sector, total_sectors,
  capped_count, volume_of, lay_out, mount_sector, fat_mount, cluster_in_range, cluster_sector,
}
use tunix_boot.Fs.Fat.Reading.{HasClusters}

-- The fields by where they stand in the sector.
abbrev boot_sector_of : List ℕ → BootSector
boot_sector_of sector = record {
  bytes_per_sector = le_value (drop 11 sector) 2;
  sectors_per_cluster = le_value (drop 13 sector) 1;
  reserved_sectors = le_value (drop 14 sector) 2;
  fat_count = le_value (drop 16 sector) 1;
  root_entry_count = le_value (drop 17 sector) 2;
  total_16 = le_value (drop 19 sector) 2;
  sectors_per_fat_16 = le_value (drop 22 sector) 2;
  total_32 = le_value (drop 32 sector) 4;
  sectors_per_fat_32 = le_value (drop 36 sector) 4;
  root_cluster = le_value (drop 44 sector) 4;
}

boot_sector_fields-eq :
    (sector : List ℕ)
    → IsBuffer sector 512
    → (boot_sector_fields (Reader.init (some sector) 512)).0 ≡ some (boot_sector_of sector)
unfolding boot_sector_fields Reader.init
boot_sector_fields-eq sector b = ground (
  arith,
  seek-at sector 512 0 11 (omega arith),
  read_u16-at sector 512 11 13 b (omega arith) (omega arith),
  read_u8-at sector 512 13 14 b (omega arith) (omega arith),
  read_u16-at sector 512 14 16 b (omega arith) (omega arith),
  read_u8-at sector 512 16 17 b (omega arith) (omega arith),
  read_u16-at sector 512 17 19 b (omega arith) (omega arith),
  read_u16-at sector 512 19 21 b (omega arith) (omega arith),
  seek-at sector 512 21 22 (omega arith),
  read_u16-at sector 512 22 24 b (omega arith) (omega arith),
  seek-at sector 512 24 32 (omega arith),
  read_u32-at sector 512 32 36 b (omega arith) (omega arith),
  read_u32-at sector 512 36 40 b (omega arith) (omega arith),
  seek-at sector 512 40 44 (omega arith),
  read_u32-at sector 512 44 48 b (omega arith) (omega arith),
)

-- The fields have the widths that they are read with.
record HasWidths (b : BootSector) : Type 0 where
  cluster : b.sectors_per_cluster < 256
  total : total_sectors b < u32_mod

boot_sector_of-HasWidths :
    (sector : List ℕ) → IsBuffer sector 512 → HasWidths (boot_sector_of sector)
boot_sector_of-HasWidths sector b = record {
  cluster = omega (arith, le_value_fits sector 512 13 1 b);
  total = ground (arith, le_value_fits sector 512 19 2 b, le_value_fits sector 512 32 4 b);
}

-- A volume that `fat_mount` accepts, with the number of sectors that the volume says it has.
pub record IsMounted (d : BlockDevice) (v : FatVolume) : Type 0 where
  pub total : ℕ
  pub device : v.geometry.device ≡ d
  pub sector : v.geometry.bytes_per_sector ≡ d.sector_bytes
  pub sized : HasClusters v.geometry
  pub cluster : v.geometry.cluster_bytes ≡ v.geometry.sectors_per_cluster * d.sector_bytes
  pub data_inside :
      v.geometry.data_start_sector + v.geometry.cluster_count * v.geometry.sectors_per_cluster
      ≤ total
  pub total_small : total < u32_mod
  pub on_device : d.sector_count ≢ 0 → total ≤ d.sector_count
  pub root : cluster_in_range v.geometry v.geometry.root_cluster ≡ true
  pub cache : v.fat_sector_valid ≡ false

-- What the tests on the fields leave.
record IsGood (d : BlockDevice) (b : BootSector) : Type 0 where
  same_sector : b.bytes_per_sector ≡ d.sector_bytes
  some_sectors : 0 < b.sectors_per_cluster
  fits : d.sector_count ≢ 0 → total_sectors b ≤ d.sector_count

good_boot_sector-IsGood :
    (d : BlockDevice) (b : BootSector) → good_boot_sector d b ≡ true → IsGood d b
unfolding good_boot_sector
good_boot_sector-IsGood d b e = record {
  same_sector = ground (arith, e);
  some_sectors = ground (arith, e);
  fits = λ nz. ground (arith, e);
}

-- The clusters and the sectors in front of them are no more than the volume has.
data_fits :
    (total start spc : ℕ)
    → start < total
    → total < u32_mod
    → start + capped_count (sub64 total start / spc) * spc ≤ total
data_fits total start spc lt small =
    let q : ℕ = sub64 total start / spc in
    let rest : sub64 total start ≡ total - start = omega arith in
    let fits : q * spc ≤ sub64 total start = div-mul-le_self (sub64 total start) spc in
    let capped : capped_count q ≤ q = ground arith in
    let less : capped_count q * spc ≤ q * spc = mul-le-mul_right spc capped in
    omega (arith, rest, fits, less)

module _ (d : BlockDevice) (b : BootSector) (pos : 0 < d.sector_bytes)
    (small : d.sector_bytes ≤ 512) (widths : HasWidths b) (good : IsGood d b) where
  volume_of-IsMounted :
      (start cb : ℕ)
      → start < total_sectors b
      → checked_mul b.sectors_per_cluster b.bytes_per_sector ≡ some cb
      → cluster_in_range (volume_of d b start cb).geometry b.root_cluster ≡ true
      → IsMounted d (volume_of d b start cb)
  volume_of-IsMounted start cb lt m root =
      let product : cb ≡ b.sectors_per_cluster * b.bytes_per_sector =
        (checked_mul-eq-some _ _ cb m).0 in
      let bounds : (0 < b.sectors_per_cluster * b.bytes_per_sector)
          × (b.sectors_per_cluster * b.bytes_per_sector ≤ 255 * 512) =
        (
          grind (arith, good.some_sectors, good.same_sector),
          grind (arith, widths.cluster, good.same_sector),
        ) in
      let kept : cb % u32_mod ≡ cb = omega (arith, product, bounds) in
      record {
        total = total_sectors b;
        device = refl;
        sector = good.same_sector;
        sized = record { some_bytes = omega (arith, kept, product, bounds); small = omega arith };
        cluster = kept ∙ product ∙ ap (λ t. b.sectors_per_cluster * t) good.same_sector;
        data_inside = data_fits (total_sectors b) start b.sectors_per_cluster lt widths.total;
        total_small = widths.total;
        on_device = good.fits;
        root = root;
        cache = refl;
      }

  lay_out-IsMounted : (v : FatVolume) → lay_out d b ≡ some v → IsMounted d v
  unfolding lay_out
  lay_out-IsMounted v e = elim (Option-cases (checked_mul b.fat_count b.sectors_per_fat_32)) [
    | inl over ↦ absurd (ground (arith, over, e))
    | inr (fats, f) ↦ elim (Option-cases (checked_add b.reserved_sectors fats)) [
      | inl over ↦ absurd (ground (arith, f, over, e))
      | inr (start, s) ↦
          elim (Option-cases (checked_mul b.sectors_per_cluster b.bytes_per_sector)) [
            | inl over ↦ absurd (ground (arith, f, s, over, e))
            | inr (cb, m) ↦
                let room : leb (total_sectors b) start ≡ false = ground (arith, f, s, m, e) in
                let root : cluster_in_range (volume_of d b start cb).geometry b.root_cluster
                    ≡ true =
                  ground (arith, f, s, m, e) in
                let same : volume_of d b start cb ≡ v = ground (arith, f, s, m, e) in
                subst (IsMounted d) same (volume_of-IsMounted start cb (ground arith) m root)
          ]
    ]
  ]

-- A volume that `fat_mount` accepts, from a first sector of 512 bytes, has the device's sectors,
-- clusters of a whole number of them, its root in range and every cluster on the device, if the
-- device reports its size; nothing is cached.
pub fat_mount-IsMounted :
    (d : BlockDevice) (v : FatVolume)
    → ((sector : List ℕ) → block_read d 0 1 ≡ some sector → IsBuffer sector 512)
    → fat_mount d ≡ some v
    → IsMounted d v
unfolding fat_mount mount_sector
fat_mount-IsMounted d v filled e = elim (Bool-cases (block_device_valid d)) [
  | inr invalid ↦ absurd (ground (arith, invalid, e))
  | inl valid ↦ elim (Option-cases (block_read d 0 1)) [
    | inl fails ↦ absurd (ground (arith, valid, fails, e))
    | inr (sector, r) ↦
        let (pos, small) = valid_sizes d valid in
        let b : BootSector = boot_sector_of sector in
        let fields = boot_sector_fields-eq sector (filled sector r) in
        elim (Bool-cases (good_boot_sector d b)) [
          | inr bad ↦ absurd (ground (arith, valid, r, fields, bad, e))
          | inl good ↦
              lay_out-IsMounted d b pos small (boot_sector_of-HasWidths sector (filled sector r))
                (good_boot_sector-IsGood d b good) v (ground (arith, valid, r, fields, good, e))
        ]
  ]
]

-- Every cluster whose number is in range lies on the device.
pub cluster_sector_on_device :
    (d : BlockDevice) (v : FatVolume) (cluster : ℕ)
    → IsMounted d v
    → d.sector_count ≢ 0
    → cluster_in_range v.geometry cluster ≡ true
    → cluster_sector v.geometry cluster + v.geometry.sectors_per_cluster ≤ d.sector_count
unfolding cluster_sector cluster_in_range
cluster_sector_on_device d v cluster m nz e =
    let g : Geometry = v.geometry in
    let spc : ℕ = g.sectors_per_cluster in
    let at : ℕ = (cluster + u32_mod - 2) % u32_mod in
    let index : at + 1 ≤ g.cluster_count = ground (arith, e) in
    let less : (at + 1) * spc ≤ g.cluster_count * spc = mul-le-mul_right spc index in
    let split : (at + 1) * spc ≡ at * spc + spc = grind arith in
    omega (arith, less, split, m.data_inside, m.total_small, m.on_device nz)
