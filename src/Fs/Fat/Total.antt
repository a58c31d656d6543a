-- ===== src/Fs/Fat/Total.antt =====
-- Reads that succeed: on a reliable disk, a read of a range that the chain reaches.
use native.Mathlib.Nat.{add-mul-div_right, le-div_iff_mul-le, div-mul-le_self, mod-lt, div-add-mod'}
use mathlib.Core.Path.{subst}
use tunix_boot.Prelude.{
  ℕ, zero, suc, ◌+◌, ◌-◌, ◌*◌, ◌/◌, ◌%◌, ◌≡◌, ◌≢◌, ◌≤◌, ◌<◌, inl, inr, refl, sym, ap, ◌∙◌, true,
  false, not, ◌&&◌, Option, none, some, List, ◌++◌, arith, length, leb, ◌==◌, Bool-cases,
  Option-cases,
}
use tunix_boot.Prelude.Slices.{slice}
use tunix_boot.Prelude.Word.{u32_mod, u64_mod}
use tunix_boot.Util.Checked.{checked_add_fits, checked_mul_fits}
use tunix_boot.Block.Device.{block_device_valid}
use tunix_boot.Block.Device.Disk.{IsHonest, IsReliable}
use tunix_boot.Block.Device.Total.{IsSized, block_read_bytes-slice}
use tunix_boot.Fs.Fat.{
  Geometry, FatVolume, FatWalk, next_cluster, cluster_in_range, cluster_sector, is_end_of_chain,
  good_link, advance_from, advance, walk_start, part_of, read_part, read_clusters, read_reached,
  read_chain,
}
use tunix_boot.Fs.Fat.Files.{FatFile, fat_read}
use tunix_boot.Fs.Fat.Entry.{some-Succeeded, Holds, next_cluster-Answers}
use tunix_boot.Fs.Fat.Chain.{
  link, link-eq-some, chain_at, chain_at-link, chain_at-add, Advances, advance-Advances,
}
use tunix_boot.Fs.Fat.Content.{cluster_start}
use tunix_boot.Fs.Fat.Reading.{HasClusters, OnChain, EachOnChain, FileOnChain, walk_start_on_chain}

abbrev Succeeds {ℓ} : {A : Type ℓ} → Option A → Type ℓ
Succeeds {A} o = (a : A) × (o ≡ some a)

-- The disk below a volume, with room for every cluster in range.
pub record IsServed (g : Geometry) (disk : List ℕ) : Type 0 where
  pub honest : IsHonest g.device disk
  pub reliable : IsReliable g.device disk
  pub sized : IsSized g.device disk
  pub valid : block_device_valid g.device ≡ true
  pub clusters : HasClusters g
  pub placed :
      (c : ℕ) → cluster_in_range g c ≡ true → cluster_start g c + g.cluster_bytes ≤ length disk

-- A chain that has a link behind its first cluster goes on there.
first_link :
    (g : Geometry) (cluster k d : ℕ)
    → chain_at g cluster (suc k) ≡ some d
    → (next : ℕ) × (link g cluster ≡ some next) × (chain_at g next k ≡ some d)
first_link g cluster k d e = elim (Option-cases (link g cluster)) [
  | inl ends ↦ absurd (ground (arith, ends, e))
  | inr (next, l) ↦ (next, l, sym (chain_at-link g cluster next k l) ∙ e)
]

next_cluster_total :
    (v : FatVolume) (cluster next : ℕ)
    → Holds v
    → link v.geometry cluster ≡ some next
    → (next_cluster cluster v).0 ≡ some next
next_cluster_total v cluster next h l =
    (next_cluster-Answers v cluster h).answer ∙ (link-eq-some v.geometry cluster next l).0

-- `advance` reaches every cluster of the chain that is no more links away than there are clusters.
advance_from_total :
    (count steps cluster d : ℕ) (v : FatVolume)
    → Holds v
    → steps + count ≤ v.geometry.cluster_count
    → chain_at v.geometry cluster count ≡ some d
    → (advance_from count steps cluster v).0 ≡ some d
unfolding advance_from
advance_from_total zero steps cluster d v h le e = e
advance_from_total (suc count) steps cluster d v h le e =
    let g : Geometry = v.geometry in
    let (next, l, rest) = first_link g cluster count d e in
    let a = next_cluster-Answers v cluster h in
    let reads = next_cluster_total v cluster next h l in
    let good : good_link g steps next ≡ true = ground (arith, (link-eq-some g cluster next l).1) in
    let later : (advance_from count (steps + 1) next (next_cluster cluster v).1).0 ≡ some d =
      advance_from_total count (steps + 1) next d (next_cluster cluster v).1
        (a.holds (some-Succeeded next reads))
        (subst (λ (t : Geometry). steps + 1 + count ≤ t.cluster_count) (sym a.same) (omega arith))
        (subst (λ (t : Geometry). chain_at t next count ≡ some d) (sym a.same) rest) in
    ground (arith, reads, good, later)

module _ (disk : List ℕ) where
  read_part_total :
      (g : Geometry) (cluster into n : ℕ)
      → IsServed g disk
      → cluster_in_range g cluster ≡ true
      → into + n ≤ g.cluster_bytes
      → Succeeds (read_part g cluster into n)
  unfolding read_part
  read_part_total g cluster into n s proper le =
      let start : ℕ = cluster_start g cluster in
      let room = s.placed cluster proper in
      let m =
        checked_mul_fits (cluster_sector g cluster) g.bytes_per_sector
          (omega (arith, room, s.honest.addressable)) in
      let a = checked_add_fits start into (omega (arith, room, s.honest.addressable)) in
      let r =
        block_read_bytes-slice g.device disk (start + into) n s.honest s.reliable s.sized s.valid
          (omega (arith, room)) in
      (slice disk (start + into) n, ground (arith, m, a, r))

  last_round :
      (v : FatVolume) (fuel cluster into walked n : ℕ) (xs : List ℕ)
      → cluster_in_range v.geometry cluster ≡ true
      → read_part v.geometry cluster into (part_of v.geometry into n) ≡ some xs
      → (n - part_of v.geometry into n == 0) ≡ true
      → (read_clusters (suc fuel) cluster into walked n v).0 ≡ some xs
  unfolding read_clusters
  last_round v fuel cluster into walked n xs proper r done = ground (arith, proper, r, done)

  other_round :
      (v : FatVolume) (fuel cluster into walked n next : ℕ) (xs ys : List ℕ)
      → cluster_in_range v.geometry cluster ≡ true
      → read_part v.geometry cluster into (part_of v.geometry into n) ≡ some xs
      → (n - part_of v.geometry into n == 0) ≡ false
      → (next_cluster cluster v).0 ≡ some next
      → (not (is_end_of_chain next) && leb (walked + 1) v.geometry.cluster_count) ≡ true
      → (read_clusters fuel next 0
          (walked + 1)
          (n - part_of v.geometry into n)
          (next_cluster cluster v).1).0
        ≡ some ys
      → (read_clusters (suc fuel) cluster into walked n v).0 ≡ some (xs ++ ys)
  unfolding read_clusters
  other_round v fuel cluster into walked n next xs ys proper r left reads goes_on later =
      ground (arith, proper, r, left, reads, goes_on, later)

  -- The loop of `read_chain`, with a round for every byte, succeeds when the chain is long enough.
  read_clusters_total :
      (fuel cluster into walked n d : ℕ) (v : FatVolume)
      → IsServed v.geometry disk
      → Holds v
      → into < v.geometry.cluster_bytes
      → n ≢ 0
      → n ≤ fuel
      → cluster_in_range v.geometry cluster ≡ true
      → walked + (into + n - 1) / v.geometry.cluster_bytes ≤ v.geometry.cluster_count
      → chain_at v.geometry cluster ((into + n - 1) / v.geometry.cluster_bytes) ≡ some d
      → Succeeds (read_clusters fuel cluster into walked n v).0
  read_clusters_total zero cluster into walked n d v s h lt nz enough proper le e =
      absurd (omega arith)
  read_clusters_total (suc fuel) cluster into walked n d v s h lt nz enough proper le e =
      let g : Geometry = v.geometry in
      let k : ℕ = part_of g into n in
      let (xs, r) = read_part_total g cluster into k s proper (ground arith) in
      elim (Bool-cases (n - k == 0)) [
        | inl done ↦ (xs, last_round v fuel cluster into walked n xs proper r done)
        | inr left ↦
            let full : (into + k ≡ g.cluster_bytes) × (k < n) × (0 < k) =
              (ground arith, ground arith, ground arith) in
            let m : ℕ = n - k in
            let split : into + n - 1 ≡ (0 + m - 1) + 1 * g.cluster_bytes = omega (arith, full) in
            let far : (into + n - 1) / g.cluster_bytes ≡ suc ((0 + m - 1) / g.cluster_bytes) =
              omega (
                arith,
                ap (λ t. t / g.cluster_bytes) split,
                add-mul-div_right (0 + m - 1) 1 s.clusters.some_bytes,
              ) in
            let (next, l, rest) =
              first_link g cluster ((0 + m - 1) / g.cluster_bytes) d
                (ap (chain_at g cluster) (sym far) ∙ e) in
            let good = (link-eq-some g cluster next l).1 in
            let a = next_cluster-Answers v cluster h in
            let reads = next_cluster_total v cluster next h l in
            let w : FatVolume = (next_cluster cluster v).1 in
            let goes_on : (not (is_end_of_chain next) && leb (walked + 1) g.cluster_count) ≡ true =
              ground (arith, good, far, le) in
            let (ys, later) =
              read_clusters_total fuel next 0 (walked + 1) m d w
                (subst (λ (t : Geometry). IsServed t disk) (sym a.same) s)
                (a.holds (some-Succeeded next reads))
                (subst (λ (t : Geometry). 0 < t.cluster_bytes) (sym a.same) s.clusters.some_bytes)
                (λ z. omega (arith, full)) (omega (arith, full))
                (subst (λ (t : Geometry). cluster_in_range t next ≡ true) (sym a.same)
                  (ground (arith, good)))
                (subst
                  (λ (t : Geometry). walked + 1 + (0 + m - 1) / t.cluster_bytes ≤ t.cluster_count)
                  (sym a.same) (omega (arith, far, le)))
                (subst (λ (t : Geometry). chain_at t next ((0 + m - 1) / t.cluster_bytes) ≡ some d)
                  (sym a.same) rest) in
            (
              xs ++ ys,
              other_round v fuel cluster into walked n next xs ys proper r left reads goes_on later,
            )
      ]

-- Up to a link of a chain there are links.
chain_at_before :
    (g : Geometry) (first i k d : ℕ)
    → chain_at g first (i + k) ≡ some d
    → (mid : ℕ) × (chain_at g first i ≡ some mid) × (chain_at g mid k ≡ some d)
chain_at_before g first zero k d e =
    let at : k ≡ 0 + k = omega arith in (first, refl, ap (chain_at g first) at ∙ e)
chain_at_before g first (suc i) k d e =
    let at : suc (i + k) ≡ suc i + k = omega arith in
    let (next, l, rest) = first_link g first (i + k) d (ap (chain_at g first) at ∙ e) in
    let (mid, here, there) = chain_at_before g next i k d rest in
    (mid, chain_at-link g first next i l ∙ here, there)

chain_at_in_range :
    (g : Geometry) (first k d : ℕ)
    → cluster_in_range g first ≡ true
    → chain_at g first k ≡ some d
    → cluster_in_range g d ≡ true
chain_at_in_range g first zero d proper e =
    let same : first ≡ d = cc in subst (λ c. cluster_in_range g c ≡ true) same proper
chain_at_in_range g first (suc k) d proper e =
    let (next, l, rest) = first_link g first k d e in
    let good = (link-eq-some g first next l).1 in
    chain_at_in_range g next k d (ground (arith, good)) rest

-- The chain has the clusters that the range lies in, and no more of them than the volume has.
pub record Reaches (g : Geometry) (first offset n : ℕ) : Type 0 where
  pub last : ℕ
  pub proper : cluster_in_range g first ≡ true
  pub few : (offset + n - 1) / g.cluster_bytes ≤ g.cluster_count
  pub ends : chain_at g first ((offset + n - 1) / g.cluster_bytes) ≡ some last

module _ (disk : List ℕ) where
  read_reached_total :
      (v w : FatVolume) (first offset n target cluster : ℕ) (walk : Option FatWalk) (r : Option ℕ)
      → IsServed v.geometry disk
      → w.geometry ≡ v.geometry
      → Holds w
      → n ≢ 0
      → Reaches v.geometry first offset n
      → chain_at v.geometry first (offset / v.geometry.cluster_bytes) ≡ some cluster
      → r ≡ some cluster
      → Succeeds (read_reached target offset n walk (r, w)).bytes
  unfolding read_reached
  read_reached_total v w first offset n target cluster walk none s same h nz reach here e =
      absurd cc
  read_reached_total v w first offset n target cluster walk (some c) s same h nz reach here e =
      let g : Geometry = v.geometry in
      let cb : ℕ = g.cluster_bytes in
      let into : ℕ = offset % cb in
      let tail : ℕ = (into + n - 1) / cb in
      let all : offset + n - 1 ≡ into + n - 1 + offset / cb * cb =
        omega (arith, div-add-mod' offset cb) in
      let far : (offset + n - 1) / cb ≡ offset / cb + tail = omega (
        arith,
        ap (λ t. t / cb) all,
        add-mul-div_right (into + n - 1) (offset / cb) s.clusters.some_bytes,
      ) in
      let (mid, before, after) =
        chain_at_before g first (offset / cb) tail reach.last
          (ap (chain_at g first) (sym far) ∙ reach.ends) in
      let there : mid ≡ c = (let q = sym before ∙ here ∙ sym e in cc) in
      let at : into ≡ offset % w.geometry.cluster_bytes % u32_mod =
        subst (λ (t : Geometry). into ≡ offset % t.cluster_bytes % u32_mod) (sym same)
          (omega (arith, mod-lt offset s.clusters.some_bytes, s.clusters.small)) in
      subst (λ k. Succeeds (read_clusters n c k 0 n w).0) at
        (read_clusters_total disk n c into 0 n reach.last w
          (subst (λ (t : Geometry). IsServed t disk) (sym same) s) h
          (subst (λ (t : Geometry). into < t.cluster_bytes) (sym same)
            (mod-lt offset s.clusters.some_bytes))
          nz (omega arith)
          (subst (λ (t : Geometry). cluster_in_range t c ≡ true) (sym same)
            (chain_at_in_range g first (offset / cb) c reach.proper (here ∙ sym e)))
          (subst (λ (t : Geometry). 0 + (into + n - 1) / t.cluster_bytes ≤ t.cluster_count)
            (sym same) (omega (arith, far, reach.few)))
          (subst
            (λ (t : Geometry). chain_at t c ((into + n - 1) / t.cluster_bytes) ≡ some reach.last)
            (sym same) (ap (λ m. chain_at g m tail) (sym there) ∙ after)))

  read_chain_total :
      (v : FatVolume) (first offset n : ℕ) (walk : Option FatWalk)
      → IsServed v.geometry disk
      → Holds v
      → EachOnChain v.geometry first walk
      → n ≢ 0
      → Reaches v.geometry first offset n
      → Succeeds (read_chain v first offset n walk).bytes
  unfolding read_chain advance
  read_chain_total v first offset n walk s h on nz reach =
      let g : Geometry = v.geometry in
      let cb : ℕ = g.cluster_bytes in
      let target : ℕ = offset / cb in
      let c : ℕ = (walk_start walk first target).0 in
      let index : ℕ = (walk_start walk first target).1 in
      let (start, le) = walk_start_on_chain g walk first target on in
      let count : ℕ = target - index in
      let all : index + count ≡ target = omega arith in
      let le_last : target ≤ (offset + n - 1) / cb =
        (le-div_iff_mul-le s.clusters.some_bytes).1 (omega (arith, div-mul-le_self offset cb)) in
      let tail : ℕ = (offset + n - 1) / cb - target in
      let sum : (offset + n - 1) / cb ≡ target + tail = omega (arith, le_last) in
      let (mid, before, _) =
        chain_at_before g first target tail reach.last
          (ap (chain_at g first) (sym sum) ∙ reach.ends) in
      let from_start : chain_at g c count ≡ some mid =
        sym (chain_at-add g first index count c start) ∙ ap (chain_at g first) all ∙ before in
      let reached : (advance_from count 0 c v).0 ≡ some mid =
        advance_from_total count 0 c mid v h (omega (arith, le_last, reach.few)) from_start in
      let a : Advances v c count (advance c count v) = advance-Advances v c count h in
      let nonzero : (n == 0) ≡ false = ground arith in
      rw nonzero (
        read_reached_total v (advance_from count 0 c v).1 first offset n target mid walk
          (advance_from count 0 c v).0 s a.same (a.holds (some-Succeeded mid reached)) nz reach
          before reached)

-- On a reliable disk with room for every cluster, `fat_read` of a plain file whose walk is on its
-- chain succeeds for every range inside the file that the chain reaches. The chain need not have
-- been walked, and nothing need be cached.
pub fat_read_total :
    (disk : List ℕ) (v : FatVolume) (file : FatFile) (offset n : ℕ)
    → IsServed v.geometry disk
    → Holds v
    → FileOnChain v.geometry file
    → file.directory ≡ false
    → n ≢ 0
    → offset + n ≤ file.size
    → file.size < u64_mod
    → Reaches v.geometry file.first_cluster offset n
    → (bytes : List ℕ) × ((fat_read v file offset n).bytes ≡ some bytes)
unfolding fat_read
fat_read_total disk v file offset n s h on plain nz inside small reach =
    let each : EachOnChain v.geometry file.first_cluster (some file.walk) = (λ w e.
      let same : file.walk ≡ w = cc in subst (OnChain v.geometry file.first_cluster) same on) in
    let (bytes, r) =
      read_chain_total disk v file.first_cluster offset n (some file.walk) s h each nz reach in
    let fits = checked_add_fits offset n (omega arith) in (bytes, ground (arith, plain, fits, r))
