-- ===== src/Block/Partition/View.antt =====
-- The device that `partition_open` makes is the partition as a disk of its own.
use mathlib.Core.Path.{subst}
use native.Mathlib.Nat.{le_trans, le_of_mul-le-mul_right}
use tunix_boot.Prelude.{
  ℕ, ◌+◌, ◌*◌, ◌≤◌, ◌<◌, ◌≡◌, ◌≢◌, ◌⊎◌, inr, refl, sym, ap, ◌∙◌, true, none, some, List, arith,
  length,
}
use tunix_boot.Prelude.Slices.{slice, slice-slice, length-slice}
use tunix_boot.Prelude.Word.{u64_mod}
use tunix_boot.Util.Checked.{checked_add}
use tunix_boot.Block.Device.{BlockDevice, block_device_valid, block_read_bytes}
use tunix_boot.Block.Device.Disk.{IsHonest, IsReliable, mul_mono}
use tunix_boot.Block.Device.Total.{IsSized, block_read_bytes-slice, block_read_bytes-past}
use tunix_boot.Block.Device.Ranges.{valid_sizes}
use tunix_boot.Block.Partition.{
  Partition, partition_read_sectors, partition_leftover, partition_open,
}

-- What an accepted partition is to its parent.
record Opens (d : BlockDevice) (p : Partition) (view : BlockDevice) : Type 0 where
  valid : block_device_valid d ≡ true
  some_sectors : 0 < p.sector_count
  no_wrap : p.start_lba + p.sector_count < u64_mod
  on_device : (d.sector_count ≡ 0) ⊎ (p.start_lba + p.sector_count ≤ d.sector_count)
  same : view ≡ record {
    read_sectors = partition_read_sectors d p.start_lba p.sector_count;
    leftover = partition_leftover d p.start_lba p.sector_count;
    sector_bytes = d.sector_bytes;
    sector_count = p.sector_count;
  }

partition_open-Opens :
    (d : BlockDevice) (p : Partition) {view : BlockDevice}
    → partition_open d p ≡ some view
    → Opens d p view
unfolding partition_open
partition_open-Opens d p {view} e = ground arith

-- A request that the view forwards stays between the first and the last sector of the partition.
pub partition_read_sectors_confined :
    (d : BlockDevice) (start n lba count : ℕ) (bytes : List ℕ)
    → partition_read_sectors d start n lba count ≡ some bytes
    → (lba + count ≤ n) × (d.read_sectors (start + lba) count ≡ some bytes)
unfolding partition_read_sectors
partition_read_sectors_confined d start n lba count bytes e = ground arith

-- The bytes of a partition.
abbrev pub partition_bytes : BlockDevice → Partition → List ℕ → List ℕ
partition_bytes d p disk =
    slice disk (p.start_lba * d.sector_bytes) (p.sector_count * d.sector_bytes)

module _ (d : BlockDevice) (p : Partition) (disk : List ℕ) (honest : IsHonest d disk)
    (inside : (p.start_lba + p.sector_count) * d.sector_bytes ≤ length disk) where
  view_of : BlockDevice
  view_of = record {
    read_sectors = partition_read_sectors d p.start_lba p.sector_count;
    leftover = partition_leftover d p.start_lba p.sector_count;
    sector_bytes = d.sector_bytes;
    sector_count = p.sector_count;
  }

  length-partition_bytes : length (partition_bytes d p disk) ≡ p.sector_count * d.sector_bytes
  length-partition_bytes =
      length-slice disk (p.start_lba * d.sector_bytes) (p.sector_count * d.sector_bytes)
        (omega arith)

  view-IsHonest : IsHonest view_of (partition_bytes d p disk)
  unfolding view_of
  view-IsHonest = record {
    addressable = omega (arith, length-partition_bytes, honest.addressable);
    returned = λ lba count bytes pos le e.
        let (fits, forwarded) =
          partition_read_sectors_confined d p.start_lba p.sector_count lba count bytes e in
        let (same, bound) = honest.returned (p.start_lba + lba) count bytes pos le forwarded in
        let scaled : (lba + count) * d.sector_bytes ≤ p.sector_count * d.sector_bytes =
          mul_mono (lba + count) p.sector_count d.sector_bytes fits in
        (
          same
              ∙ sym (
                  slice-slice disk (p.start_lba * d.sector_bytes) (p.sector_count * d.sector_bytes)
                    (lba * d.sector_bytes) (count * d.sector_bytes)
                    ((p.start_lba + lba) * d.sector_bytes) (omega (arith, scaled)) (omega arith)),
          omega (arith, scaled, length-partition_bytes),
        );
  }

  view-IsReliable :
      IsReliable d disk
      → 0 < d.sector_bytes
      → p.start_lba + p.sector_count < u64_mod
      → IsReliable view_of (partition_bytes d p disk)
  unfolding view_of partition_read_sectors checked_add
  view-IsReliable reliable pos no_wrap = record {
    sectors = p.sector_count;
    whole = length-partition_bytes;
    served = λ lba count some_sectors le bound.
        let fits : lba + count ≤ p.sector_count =
          unscaled (lba + count) p.sector_count d.sector_bytes pos
            (omega (arith, length-partition_bytes, bound)) in
        let (bytes, e) = reliable.served (p.start_lba + lba) count some_sectors le (
          le_trans
            (mul_mono (p.start_lba + lba + count) (p.start_lba + p.sector_count) d.sector_bytes
              (omega arith))
            inside) in
        (bytes, ground (arith, e));
  }
    where
      unscaled : (a b c : ℕ) → 0 < c → a * c ≤ b * c → a ≤ b
      unscaled a b c pos h = le_of_mul-le-mul_right h pos

revalid :
    (d : BlockDevice) (p : Partition)
    → block_device_valid d ≡ true
    → block_device_valid (record {
      read_sectors = partition_read_sectors d p.start_lba p.sector_count;
      leftover = partition_leftover d p.start_lba p.sector_count;
      sector_bytes = d.sector_bytes;
      sector_count = p.sector_count;
    })
      ≡ true
unfolding block_device_valid
revalid d p h = h

-- Reading any range of an opened partition returns the bytes of the parent's disk at that place of
-- the partition, and a range that runs past the partition is refused.
pub partition_open-reads :
    (d : BlockDevice) (p : Partition) (disk : List ℕ) (offset n : ℕ) {view : BlockDevice}
    → IsHonest d disk
    → IsReliable d disk
    → IsSized d disk
    → (p.start_lba + p.sector_count) * d.sector_bytes ≤ length disk
    → partition_open d p ≡ some view
    → (offset + n ≤ p.sector_count * d.sector_bytes
        → block_read_bytes view offset n
          ≡ some (slice disk (p.start_lba * d.sector_bytes + offset) n))
      × (n ≢ 0
          → p.sector_count * d.sector_bytes < offset + n
          → block_read_bytes view offset n ≡ none)
unfolding view_of
partition_open-reads d p disk offset n honest reliable sized inside e =
    let o : Opens d p _ = partition_open-Opens d p e in
    let pos : 0 < d.sector_bytes = (valid_sizes d o.valid).0 in
    let own : length (partition_bytes d p disk) ≡ p.sector_count * d.sector_bytes =
      length-partition_bytes d p disk honest inside in
    subst
      (λ view.
        (offset + n ≤ p.sector_count * d.sector_bytes
          → block_read_bytes view offset n
            ≡ some (slice disk (p.start_lba * d.sector_bytes + offset) n))
        × (n ≢ 0
            → p.sector_count * d.sector_bytes < offset + n
            → block_read_bytes view offset n ≡ none))
      (sym o.same)
      (
        (λ bound.
            block_read_bytes-slice (view_of d p disk honest inside) (partition_bytes d p disk)
              offset n (view-IsHonest d p disk honest inside)
              (view-IsReliable d p disk honest inside reliable pos o.no_wrap) (inr (sym own))
              (revalid d p o.valid) (omega (arith, own))
            ∙ ap some (
                slice-slice disk (p.start_lba * d.sector_bytes) (p.sector_count * d.sector_bytes)
                  offset n (p.start_lba * d.sector_bytes + offset) bound refl)),
        (λ nz past.
            block_read_bytes-past (view_of d p disk honest inside) offset n
              (omega (arith, o.some_sectors)) nz past),
      )
