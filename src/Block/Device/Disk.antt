-- ===== src/Block/Device/Disk.antt =====
-- What a backend is: a disk of bytes whose reads, when they succeed, return the sectors asked for.
use native.Mathlib.Nat.{mul-le-mul_right, mod-eq_of_lt, le_trans}
use native.Mathlib.Decide.{ℕ_discrete}
use tunix_boot.Prelude.{
  ℕ, zero, suc, ◌+◌, ◌-◌, ◌*◌, ◌≤◌, ◌<◌, ◌≡◌, ◌≢◌, inl, inr, refl, sym, ap, ◌∙◌, Option, none, some,
  List, [], ◌++◌, arith, length, Option-cases,
}
use tunix_boot.Prelude.Slices.{slice, slice-append}
use tunix_boot.Prelude.Word.{u64_mod, add64}
use tunix_boot.Block.Device.{BlockDevice, chunk_of, prepend, read_chunks, max_sectors_per_read}

-- A successful read of 1 to 64 sectors returned the bytes of those sectors, which exist.
pub record IsHonest (d : BlockDevice) (disk : List ℕ) : Type 0 where
  pub addressable : length disk < u64_mod
  pub returned :
      (lba count : ℕ) (bytes : List ℕ)
      → 0 < count
      → count ≤ max_sectors_per_read
      → d.read_sectors lba count ≡ some bytes
      → (bytes ≡ slice disk (lba * d.sector_bytes) (count * d.sector_bytes))
        × ((lba + count) * d.sector_bytes ≤ length disk)

-- The disk is whole sectors, and no request that lies on it fails.
pub record IsReliable (d : BlockDevice) (disk : List ℕ) : Type 0 where
  pub sectors : ℕ
  pub whole : length disk ≡ sectors * d.sector_bytes
  pub served :
      (lba count : ℕ)
      → 0 < count
      → count ≤ max_sectors_per_read
      → (lba + count) * d.sector_bytes ≤ length disk
      → (bytes : List ℕ) × (d.read_sectors lba count ≡ some bytes)

-- A read that may fail, but never returns anything but the bytes of the range.
abbrev pub Returns : List ℕ → ℕ → ℕ → Option (List ℕ) → Type 0
Returns disk offset n out =
    (bytes : List ℕ) → out ≡ some bytes → (bytes ≡ slice disk offset n) × (offset + n ≤ length disk)

prepend-eq-some :
    (xs : List ℕ) (o : Option (List ℕ)) (ys : List ℕ)
    → prepend xs o ≡ some ys
    → (zs : List ℕ) × (o ≡ some zs) × (ys ≡ xs ++ zs)
prepend-eq-some xs none ys e = cc
prepend-eq-some xs (some zs) ys e = (zs, refl, cc)

-- Two ranges that touch, read one after the other.
pub prepend-Returns :
    (disk : List ℕ) (i j a b c : ℕ) (xs : List ℕ) (o : Option (List ℕ))
    → j ≡ i + a
    → c ≡ a + b
    → xs ≡ slice disk i a
    → Returns disk j b o
    → Returns disk i c (prepend xs o)
prepend-Returns disk i j a b c xs o p q e r ys h =
    let (zs, oz, yz) = prepend-eq-some xs o ys h in
    let (same, inside) = r zs oz in
    (
      yz
          ∙ ap (λ t. t ++ zs) e
          ∙ ap (λ t. slice disk i a ++ t) same
          ∙ slice-append disk i j a b c p q,
      omega arith,
    )

pub mul_mono : (a b c : ℕ) → a ≤ b → a * c ≤ b * c
mul_mono a b c h = mul-le-mul_right c h

pub nothing-Returns :
    (disk : List ℕ) (offset n : ℕ) (ys : List ℕ)
    → n ≡ 0
    → offset ≤ length disk
    → some [] ≡ some ys
    → (ys ≡ slice disk offset n) × (offset + n ≤ length disk)
nothing-Returns disk offset n ys z le e =
    let empty : [] ≡ ys = cc in (sym empty ∙ ap (slice disk offset) (sym z), omega arith)

read_chunks-step :
    (d : BlockDevice) (fuel lba count : ℕ) (xs : List ℕ)
    → count ≢ 0
    → d.read_sectors lba (chunk_of count) ≡ some xs
    → read_chunks d (suc fuel) lba count
      ≡ prepend xs (read_chunks d fuel (add64 lba (chunk_of count)) (count - chunk_of count))
unfolding read_chunks
read_chunks-step d fuel lba count xs nz r = ground (arith, r)

read_chunks-fails :
    (d : BlockDevice) (fuel lba count : ℕ)
    → count ≢ 0
    → d.read_sectors lba (chunk_of count) ≡ none
    → read_chunks d (suc fuel) lba count ≡ none
unfolding read_chunks
read_chunks-fails d fuel lba count nz r = ground (arith, r)

module _ (d : BlockDevice) (disk : List ℕ) (honest : IsHonest d disk)
    (pos : 0 < d.sector_bytes) where
  -- The next sector number does not wrap when the chunk before it exists.
  pub next_sector :
      (lba k : ℕ)
      → (lba + k) * d.sector_bytes ≤ length disk
      → (add64 lba k ≡ lba + k) × (add64 lba k * d.sector_bytes ≤ length disk)
  next_sector lba k h =
      let small : lba + k < u64_mod = grind (arith, honest.addressable) in
      let e : add64 lba k ≡ lba + k = mod-eq_of_lt small in (e, rw e h)

  pub read_chunks-Returns :
      (fuel lba count : ℕ)
      → (count ≡ 0 → lba * d.sector_bytes ≤ length disk)
      → Returns disk (lba * d.sector_bytes) (count * d.sector_bytes) (read_chunks d fuel lba count)
  unfolding read_chunks
  read_chunks-Returns zero lba count inside ys h = elim (ℕ_discrete count 0) [
    | yes z ↦
        nothing-Returns disk (lba * d.sector_bytes) (count * d.sector_bytes) ys
          (omega (arith, ap (λ (t : ℕ). t * d.sector_bytes) z)) (inside z) (ground arith)
    | no nz ↦ absurd (ground arith)
  ]
  read_chunks-Returns (suc fuel) lba count inside ys h = elim (ℕ_discrete count 0) [
    | yes z ↦
        nothing-Returns disk (lba * d.sector_bytes) (count * d.sector_bytes) ys
          (omega (arith, ap (λ (t : ℕ). t * d.sector_bytes) z)) (inside z) (ground arith)
    | no nz ↦ elim (Option-cases (d.read_sectors lba (chunk_of count))) [
      | inl fails ↦ absurd (cc (read_chunks-fails d fuel lba count nz fails))
      | inr (xs, r) ↦
          let k : ℕ = chunk_of count in
          let bounds : (0 < k) × (k ≤ max_sectors_per_read) × (k ≤ count) =
            (ground arith, ground arith, ground arith) in
          let (same, exists) = honest.returned lba k xs bounds.0 bounds.1 r in
          let (next, inside') = next_sector lba k exists in
          prepend-Returns disk (lba * d.sector_bytes) (add64 lba k * d.sector_bytes)
            (k * d.sector_bytes) ((count - k) * d.sector_bytes) (count * d.sector_bytes) xs _
            (omega (arith, ap (λ (t : ℕ). t * d.sector_bytes) next))
            (let e : count ≡ k + (count - k) = omega arith in
              omega (arith, ap (λ (t : ℕ). t * d.sector_bytes) e))
            same (read_chunks-Returns fuel (add64 lba k) (count - k) (λ z. inside')) ys
            (sym (read_chunks-step d fuel lba count xs nz r) ∙ h)
    ]
  ]

  -- With a reliable backend, `count` rounds are enough fuel and the loop ends with a result.
  pub read_chunks_total :
      (fuel lba count : ℕ)
      → IsReliable d disk
      → count ≤ fuel
      → (lba + count) * d.sector_bytes ≤ length disk
      → (bytes : List ℕ) × (read_chunks d fuel lba count ≡ some bytes)
  unfolding read_chunks
  read_chunks_total zero lba count reliable le inside = ([], ground arith)
  read_chunks_total (suc fuel) lba count reliable le inside = elim (ℕ_discrete count 0) [
    | yes z ↦ ([], ground arith)
    | no nz ↦
        let k : ℕ = chunk_of count in
        let bounds : (0 < k) × (k ≤ max_sectors_per_read) × (k ≤ count) =
          (ground arith, ground arith, ground arith) in
        let part : (lba + k) * d.sector_bytes ≤ length disk =
          le_trans (mul_mono (lba + k) (lba + count) d.sector_bytes (omega arith)) inside in
        let (xs, r) = reliable.served lba k bounds.0 bounds.1 part in
        let (next, inside') = next_sector lba k part in
        let (ys, q) =
          read_chunks_total fuel (add64 lba k) (count - k) reliable (omega arith)
            (rw next (let e : lba + k + (count - k) ≡ lba + count = omega arith in rw e inside)) in
        (xs ++ ys, read_chunks-step d fuel lba count xs nz r ∙ ap (prepend xs) q)
  ]
