-- ===== src/Tests/Disk.antt =====
-- Disks in memory for the runs.
use tunix_boot.Prelude.{
  ℕ, ◌+◌, ◌*◌, ◌<◌, ◌≡◌, Bool, true, false, none, some, List, [], ◌∷◌, arith, All, if◌then◌else◌,
  leb, ltb, length, map,
}
use tunix_boot.Prelude.Slices.{slice}
use tunix_boot.Prelude.Word.{u64_mod}
use tunix_boot.Util.Reader.Scalar.{IsByte}
use tunix_boot.Block.Device.{BlockDevice}
use tunix_boot.Block.Device.Disk.{IsHonest, IsReliable}

-- A backend that reads a list of bytes.
abbrev pub memory_disk : List ℕ → ℕ → ℕ → BlockDevice
memory_disk bytes sector_bytes sector_count = record {
  read_sectors = λ lba count.
      if leb ((lba + count) * sector_bytes) (length bytes)
      then some (slice bytes (lba * sector_bytes) (count * sector_bytes))
      else none;
  leftover = λ lba count buffer. map (λ _. 0) buffer;
  sector_bytes = sector_bytes;
  sector_count = sector_count;
}

pub memory_disk-IsHonest :
    (bytes : List ℕ) (n m : ℕ) → length bytes < u64_mod → IsHonest (memory_disk bytes n m) bytes
memory_disk-IsHonest bytes n m h = record {
  addressable = h;
  returned = λ lba count out pos le e. ground arith;
}

pub memory_disk-IsReliable :
    (bytes : List ℕ) (n m k : ℕ) → length bytes ≡ k * n → IsReliable (memory_disk bytes n m) bytes
memory_disk-IsReliable bytes n m k h = record {
  sectors = k;
  whole = h;
  served = λ lba count pos le inside. (slice bytes (lba * n) (count * n), ground arith);
}

abbrev pub are_bytes : List ℕ → Bool
are_bytes [] = true
are_bytes (b ∷ bytes) = if ltb b 256 then are_bytes bytes else false

pub are_bytes-All : (bytes : List ℕ) → are_bytes bytes ≡ true → All IsByte bytes
are_bytes-All [] e = tt
are_bytes-All (b ∷ bytes) e = (ground arith, are_bytes-All bytes (ground arith))
