-- ===== src/Block/Device/Total.antt =====
-- On a reliable backend every range that lies on the disk is read, and one that does not is refused.
use native.Mathlib.Nat.{mod-lt, div-add-mod', lt_of_mul-lt-mul_right, le-div_iff_mul-le}
use native.Mathlib.Decide.{ℕ_discrete}
use tunix_boot.Prelude.{
  ℕ, ◌+◌, ◌-◌, ◌*◌, ◌/◌, ◌%◌, ◌≤◌, ◌<◌, ◌≡◌, ◌≢◌, ◌⊎◌, inl, inr, ap, ◌∙◌, true, false, Option, none,
  some, List, [], ◌++◌, arith, length, take, drop, ltb, leb, if◌then◌else◌, Bool-cases,
}
use tunix_boot.Prelude.Slices.{slice}
use tunix_boot.Prelude.Word.{u32_mod, add64}
use tunix_boot.Util.Checked.{checked_add}
use tunix_boot.Block.Device.{
  BlockDevice, block_device_valid, read_partial_sector, read_tail, read_whole, read_from,
  block_read_bytes, bounce_bytes,
}
use tunix_boot.Block.Device.Disk.{IsHonest, IsReliable, read_chunks_total, next_sector, mul_mono}
use tunix_boot.Block.Device.Ranges.{valid_sizes, block_read_bytes-Returns}

abbrev pub Succeeds : Option (List ℕ) → Type 0
Succeeds out = (bytes : List ℕ) × (out ≡ some bytes)

module _ (d : BlockDevice) (disk : List ℕ) (honest : IsHonest d disk) (reliable : IsReliable d disk)
    (pos : 0 < d.sector_bytes) (fits : d.sector_bytes ≤ bounce_bytes) where
  abbrev sb : ℕ
  sb = d.sector_bytes

  -- A sector that begins before the end of the disk lies on it whole.
  whole_sector : (lba : ℕ) → lba * sb < length disk → (lba + 1) * sb ≤ length disk
  whole_sector lba h =
      let below : lba < reliable.sectors =
        lt_of_mul-lt-mul_right sb (omega (arith, reliable.whole)) in
      omega (arith, reliable.whole, mul_mono (lba + 1) reliable.sectors sb (omega arith))

  read_partial_sector_total :
      (lba start n : ℕ) → lba * sb < length disk → Succeeds (read_partial_sector d lba start n)
  unfolding read_partial_sector
  read_partial_sector_total lba start n h =
      let (bounce, r) = reliable.served lba 1 (omega arith) (omega arith) (whole_sector lba h) in
      (take n (drop start bounce), ground (arith, r))

  read_tail_total : (lba n : ℕ) → lba * sb + n ≤ length disk → Succeeds (read_tail d lba n)
  unfolding read_tail
  read_tail_total lba n h = elim (ℕ_discrete n 0) [
    | yes z ↦ ([], ground arith)
    | no nz ↦
        let (bytes, r) = read_partial_sector_total lba 0 (n % u32_mod) (omega arith) in
        (bytes, ground (arith, r))
  ]

  read_whole_total : (lba n : ℕ) → lba * sb + n ≤ length disk → Succeeds (read_whole d lba n)
  unfolding read_whole
  read_whole_total lba n h = elim (Bool-cases (ltb n sb)) [
    | inl short ↦ let (bytes, r) = read_tail_total lba n h in (bytes, ground (arith, short, r))
    | inr long ↦
        let q : ℕ = n / sb in
        let split : q * sb + n % sb ≡ n = div-add-mod' n sb in
        let on_disk : (lba + q) * sb ≤ length disk = omega (arith, split) in
        let (xs, r) = read_chunks_total d disk honest pos q lba q reliable (omega arith) on_disk in
        let (next, inside) = next_sector d disk honest pos lba q on_disk in
        let (ys, t) =
          read_tail_total (add64 lba q) (n - q * sb)
            (omega (arith, split, ap (λ (t : ℕ). t * sb) next)) in
        (xs ++ ys, ground (arith, long, r, t))
  ]

  read_from_total :
      (lba into n : ℕ)
      → into < sb
      → n ≢ 0
      → lba * sb + into + n ≤ length disk
      → Succeeds (read_from d lba into n)
  unfolding read_from
  read_from_total lba into n h nz inside = elim (ℕ_discrete into 0) [
    | yes z ↦ let (bytes, r) = read_whole_total lba n (omega arith) in (bytes, ground (arith, r))
    | no inz ↦
        let k : ℕ = (if ltb (sb - into) n then sb - into else n) % u32_mod in
        let bounds : (k ≤ n) × (k ≢ n → into + k ≡ sb) = (ground arith, ground arith) in
        let (xs, r) = read_partial_sector_total lba into k (omega arith) in
        let (next, inside') =
          next_sector d disk honest pos lba 1 (whole_sector lba (omega arith)) in
        let (ys, t) = read_whole_total (add64 lba 1) (n - k) (elim (ℕ_discrete k n) [
          | yes all ↦ omega arith
          | no more ↦ omega (arith, ap (λ (t : ℕ). t * sb) next, bounds.1 more)
        ]) in
        (xs ++ ys, ground (arith, r, t))
  ]

-- The size that the device reports, if it reports one, is that of the disk.
abbrev pub IsSized : BlockDevice → List ℕ → Type 0
IsSized d disk = (d.sector_count ≡ 0) ⊎ (d.sector_count * d.sector_bytes ≡ length disk)

in_last_sector :
    (d : BlockDevice) (end : ℕ)
    → 0 < d.sector_bytes
    → 0 < end
    → end ≤ d.sector_count * d.sector_bytes
    → leb d.sector_count ((end - 1) / d.sector_bytes) ≡ false
in_last_sector d end pos nz h =
    elim (Bool-cases (leb d.sector_count ((end - 1) / d.sector_bytes))) [
      | inl above ↦ absurd (
          omega (
            arith,
            (le-div_iff_mul-le {k = d.sector_bytes} {x = d.sector_count} {y = end - 1} pos).0
                (ground arith),
          ))
      | inr below ↦ below
    ]

past_last_sector :
    (d : BlockDevice) (end : ℕ)
    → 0 < d.sector_bytes
    → d.sector_count * d.sector_bytes < end
    → leb d.sector_count ((end - 1) / d.sector_bytes) ≡ true
past_last_sector d end pos h =
    let le : d.sector_count ≤ (end - 1) / d.sector_bytes =
      (le-div_iff_mul-le pos).1 (omega arith) in
    ground arith

block_read_bytes_total :
    (d : BlockDevice) (disk : List ℕ) (offset n : ℕ)
    → IsHonest d disk
    → IsReliable d disk
    → IsSized d disk
    → block_device_valid d ≡ true
    → offset + n ≤ length disk
    → Succeeds (block_read_bytes d offset n)
unfolding block_read_bytes checked_add
block_read_bytes_total d disk offset n honest reliable sized valid inside = elim (ℕ_discrete n 0) [
  | yes z ↦ ([], ground (arith, valid))
  | no nz ↦
      let (pos, fits) = valid_sizes d valid in
      let at : offset / d.sector_bytes * d.sector_bytes + offset % d.sector_bytes % u32_mod
          ≡ offset =
        omega (arith, mod-lt offset pos, div-add-mod' offset d.sector_bytes) in
      let (bytes, e) =
        read_from_total d disk honest reliable pos fits (offset / d.sector_bytes)
          (offset % d.sector_bytes % u32_mod) n (omega (arith, mod-lt offset pos)) nz
          (omega arith) in
      elim sized [
        | inl unknown ↦ (bytes, ground (arith, valid, e, honest.addressable))
        | inr known ↦ (
          bytes,
          ground (
            arith,
            valid,
            e,
            honest.addressable,
            in_last_sector d (offset + n) pos (omega arith) (omega arith),
          ),
        )
      ]
]

-- On an honest and reliable disk whose size the device reports truly or not at all,
-- `block_read_bytes` of a valid device returns exactly the bytes of every range that lies on the disk.
pub block_read_bytes-slice :
    (d : BlockDevice) (disk : List ℕ) (offset n : ℕ)
    → IsHonest d disk
    → IsReliable d disk
    → IsSized d disk
    → block_device_valid d ≡ true
    → offset + n ≤ length disk
    → block_read_bytes d offset n ≡ some (slice disk offset n)
block_read_bytes-slice d disk offset n honest reliable sized valid inside =
    let total : Succeeds (block_read_bytes d offset n) =
      block_read_bytes_total d disk offset n honest reliable sized valid inside in
    total.1
    ∙ ap some (block_read_bytes-Returns d disk offset n honest (omega arith) total.0 total.1).0

-- A range that runs past the size that the device reports is refused before anything is read.
pub block_read_bytes-past :
    (d : BlockDevice) (offset n : ℕ)
    → d.sector_count ≢ 0
    → n ≢ 0
    → d.sector_count * d.sector_bytes < offset + n
    → block_read_bytes d offset n ≡ none
unfolding block_read_bytes checked_add
block_read_bytes-past d offset n nz some_bytes past = elim (Bool-cases (block_device_valid d)) [
  | inr invalid ↦ ground (arith, invalid)
  | inl valid ↦ ground (arith, valid, past_last_sector d (offset + n) (valid_sizes d valid).0 past)
]
