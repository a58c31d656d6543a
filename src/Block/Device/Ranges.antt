-- ===== src/Block/Device/Ranges.antt =====
-- `block_read_bytes` returns the bytes of its range, whatever its alignment and length.
use native.Mathlib.Nat.{mod-lt, div-add-mod'}
use mathlib.Core.Path.{ap₂, subst}
use native.Mathlib.Decide.{ℕ_discrete}
use tunix_boot.Prelude.{
  ℕ, ◌+◌, ◌-◌, ◌*◌, ◌/◌, ◌%◌, ◌≤◌, ◌<◌, ◌≡◌, ◌≢◌, inl, inr, refl, sym, ap, ◌∙◌, true, Option, some,
  List, arith, length, take, drop, ltb, if◌then◌else◌, Option-cases, Bool-cases,
}
use tunix_boot.Prelude.Slices.{slice, slice-slice}
use tunix_boot.Prelude.Word.{u32_mod, add64}
use tunix_boot.Util.Checked.{checked_add}
use tunix_boot.Block.Device.{
  BlockDevice, block_device_valid, read_chunks, read_partial_sector, read_tail, read_whole,
  read_from, block_read_bytes, bounce_bytes,
}
use tunix_boot.Block.Device.Disk.{
  IsHonest, Returns, prepend-Returns, nothing-Returns, read_chunks-Returns, next_sector,
}

-- Where an empty range stands does not matter.
zero-Returns :
    (disk : List ℕ) (i j n : ℕ) (o : Option (List ℕ))
    → n ≡ 0
    → j ≤ length disk
    → Returns disk i n o
    → Returns disk j n o
zero-Returns disk i j n o z le r ys e =
    ((r ys e).0 ∙ ap (slice disk i) z ∙ sym (ap (slice disk j) z), omega arith)

pub valid_sizes :
    (d : BlockDevice)
    → block_device_valid d ≡ true
    → (0 < d.sector_bytes) × (d.sector_bytes ≤ bounce_bytes)
unfolding block_device_valid
valid_sizes d h = ground arith

module _ (d : BlockDevice) (disk : List ℕ) (honest : IsHonest d disk) (pos : 0 < d.sector_bytes)
    (fits : d.sector_bytes ≤ bounce_bytes) where
  abbrev sb : ℕ
  sb = d.sector_bytes

  read_partial_sector-Returns :
      (lba start n : ℕ)
      → start + n ≤ sb
      → Returns disk (lba * sb + start) n (read_partial_sector d lba start n)
  unfolding read_partial_sector
  read_partial_sector-Returns lba start n h ys e = elim (Option-cases (d.read_sectors lba 1)) [
    | inl fails ↦ absurd (ground (arith, fails))
    | inr (bounce, r) ↦
        let (same, inside) = honest.returned lba 1 bounce (omega arith) (omega arith) r in
        let part : ys ≡ take n (drop start bounce) = ground (arith, r) in
        (
          part
              ∙ ap (λ t. take n (drop start t)) same
              ∙ slice-slice disk (lba * sb) (1 * sb) start n (lba * sb + start) (omega arith) refl,
          omega arith,
        )
  ]

  -- The sector that a partial read comes from lies on the disk.
  read_partial_sector_exists :
      (lba start n : ℕ) (xs : List ℕ)
      → read_partial_sector d lba start n ≡ some xs
      → (lba + 1) * sb ≤ length disk
  unfolding read_partial_sector
  read_partial_sector_exists lba start n xs e = elim (Option-cases (d.read_sectors lba 1)) [
    | inl fails ↦ absurd (ground (arith, fails))
    | inr (bounce, r) ↦ (honest.returned lba 1 bounce (omega arith) (omega arith) r).1
  ]

  read_tail-Returns :
      (lba n : ℕ)
      → n < sb
      → (n ≡ 0 → lba * sb ≤ length disk)
      → Returns disk (lba * sb) n (read_tail d lba n)
  unfolding read_tail
  read_tail-Returns lba n h inside ys e = elim (ℕ_discrete n 0) [
    | yes z ↦ nothing-Returns disk (lba * sb) n ys z (inside z) (ground arith)
    | no nz ↦
        let (same, bound) =
          read_partial_sector-Returns lba 0 (n % u32_mod) (omega arith) ys (ground arith) in
        let narrow : n % u32_mod ≡ n = omega arith in
        let at : lba * sb + 0 ≡ lba * sb = omega arith in
        (same ∙ ap₂ (slice disk) at narrow, omega arith)
  ]

  read_whole-Returns :
      (lba n : ℕ)
      → (n ≡ 0 → lba * sb ≤ length disk)
      → Returns disk (lba * sb) n (read_whole d lba n)
  unfolding read_whole
  read_whole-Returns lba n inside ys e = elim (Bool-cases (ltb n sb)) [
    | inl short ↦ read_tail-Returns lba n (ground arith) inside ys (ground (arith, short))
    | inr long ↦ elim (Option-cases (read_chunks d (n / sb) lba (n / sb))) [
      | inl fails ↦ absurd (ground (arith, long, fails))
      | inr (xs, r) ↦
          let q : ℕ = n / sb in
          let split : q * sb + n % sb ≡ n = div-add-mod' n sb in
          let rest : n % sb < sb = mod-lt n pos in
          let some_whole : q ≢ 0 = (λ z. ground (arith, split, ap (λ (t : ℕ). t * sb) z)) in
          let (same, bound) =
            read_chunks-Returns d disk honest pos q lba q (λ z. absurd (some_whole z)) xs r in
          let (next, inside') = next_sector d disk honest pos lba q (omega arith) in
          prepend-Returns disk (lba * sb) (add64 lba q * sb) (q * sb) (n - q * sb) n xs _
            (omega (arith, ap (λ (t : ℕ). t * sb) next)) (omega arith) same
            (read_tail-Returns (add64 lba q) (n - q * sb) (omega arith) (λ z. inside')) ys
            (ground (arith, long, r))
    ]
  ]

  read_from-Returns :
      (lba into n : ℕ)
      → into < sb
      → n ≢ 0
      → Returns disk (lba * sb + into) n (read_from d lba into n)
  unfolding read_from
  read_from-Returns lba into n h nz ys e = elim (ℕ_discrete into 0) [
    | yes z ↦
        let (same, bound) = read_whole-Returns lba n (λ w. absurd (nz w)) ys (ground arith) in
        let at : lba * sb ≡ lba * sb + into = omega arith in
        (same ∙ ap (λ t. slice disk t n) at, omega arith)
    | no inz ↦
        let k : ℕ = (if ltb (sb - into) n then sb - into else n) % u32_mod in
        let bounds : (into + k ≤ sb) × (k ≤ n) × (k ≢ n → into + k ≡ sb) × (0 < k) =
          (ground arith, ground arith, ground arith, ground arith) in
        elim (Option-cases (read_partial_sector d lba into k)) [
          | inl fails ↦ absurd (ground (arith, fails))
          | inr (xs, r) ↦
              let (same, bound) = read_partial_sector-Returns lba into k bounds.0 xs r in
              let exists : (lba + 1) * sb ≤ length disk =
                read_partial_sector_exists lba into k xs r in
              let (next, inside') = next_sector d disk honest pos lba 1 exists in
              let rest : Returns disk (add64 lba 1 * sb) (n - k)
                  (read_whole d (add64 lba 1) (n - k)) =
                read_whole-Returns (add64 lba 1) (n - k) (λ z. inside') in
              prepend-Returns disk (lba * sb + into) (lba * sb + into + k) k (n - k) n xs _ refl
                (omega arith) same
                (elim (ℕ_discrete k n) [
                  | yes all ↦
                      zero-Returns disk (add64 lba 1 * sb) (lba * sb + into + k) (n - k) _
                        (omega arith) bound rest
                  | no more ↦
                      subst (λ t. Returns disk t (n - k) (read_whole d (add64 lba 1) (n - k)))
                        (omega (arith, ap (λ (t : ℕ). t * sb) next, bounds.2 more)) rest
                ])
                ys (ground (arith, r))
        ]
  ]

-- With an honest backend, `block_read_bytes` never returns anything but the bytes of the range, even
-- when the backend fails now and then; the range then lies on the disk. An empty range has to.
pub block_read_bytes-Returns :
    (d : BlockDevice) (disk : List ℕ) (offset n : ℕ)
    → IsHonest d disk
    → (n ≡ 0 → offset ≤ length disk)
    → Returns disk offset n (block_read_bytes d offset n)
unfolding block_read_bytes block_device_valid checked_add
block_read_bytes-Returns d disk offset n honest start ys e =
    elim (Bool-cases (block_device_valid d)) [
      | inl valid ↦ elim (ℕ_discrete n 0) [
        | yes z ↦ nothing-Returns disk offset n ys z (start z) (ground (arith, valid))
        | no nz ↦
            let (pos, fits) = valid_sizes d valid in
            let (same, bound) =
              read_from-Returns d disk honest pos fits (offset / d.sector_bytes)
                (offset % d.sector_bytes % u32_mod) n (omega (arith, mod-lt offset pos)) nz ys
                (ground (arith, valid)) in
            let at : offset / d.sector_bytes * d.sector_bytes + offset % d.sector_bytes % u32_mod
                ≡ offset =
              omega (arith, mod-lt offset pos, div-add-mod' offset d.sector_bytes) in
            (same ∙ ap (λ t. slice disk t n) at, omega arith)
      ]
      | inr invalid ↦ absurd (ground (arith, invalid))
    ]
