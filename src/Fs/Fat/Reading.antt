-- ===== src/Fs/Fat/Reading.antt =====
-- `read_chain` and `fat_read`: where the walk has got to is on the chain, and what is read is what
-- the chain holds.
use native.Mathlib.Nat.{mod-lt, div-add-mod'}
use mathlib.Core.Path.{subst}
use tunix_boot.Prelude.{
  ℕ, ◌+◌, ◌-◌, ◌*◌, ◌/◌, ◌%◌, ◌≡◌, ◌≢◌, ◌⊎◌, ◌≤◌, ◌<◌, inl, inr, refl, sym, ap, ◌∙◌, true, ◌&&◌,
  Option, none, some, List, [], arith, length, ltb, leb, ◌==◌, Bool-cases,
}
use tunix_boot.Prelude.Branches.{if_by, either_option_by}
use tunix_boot.Prelude.Word.{u32_mod}
use tunix_boot.Util.Checked.{checked_add, checked_add-eq-some}
use tunix_boot.Block.Device.Disk.{IsHonest}
use tunix_boot.Fs.Fat.{
  Geometry, FatVolume, FatWalk, ChainRead, advance, walk_start, walk_reached, read_reached,
  read_chain,
}
use tunix_boot.Fs.Fat.Files.{FatFile, FileRead, file_after, fat_read}
use tunix_boot.Fs.Fat.Entry.{Holds}
use tunix_boot.Fs.Fat.Chain.{chain_at, chain_at-add, Advances, advance-Advances}
use tunix_boot.Fs.Fat.Content.{Covers, later-Covers}
use tunix_boot.Fs.Fat.Clusters.{
  Keeps, then-Keeps, fails-Keeps, read_clusters-Covers, read_clusters-Keeps,
}

-- A walk that is valid stands on the chain.
pub record OnChain (g : Geometry) (first : ℕ) (walk : FatWalk) : Type 0 where
  pub stands : walk.valid ≡ true → chain_at g first walk.offset ≡ some walk.cluster

-- The size of a cluster is one that `fat_mount` accepts.
pub record HasClusters (g : Geometry) : Type 0 where
  pub some_bytes : 0 < g.cluster_bytes
  pub small : g.cluster_bytes ≤ u32_mod

abbrev pub EachOnChain : Geometry → ℕ → Option FatWalk → Type 0
EachOnChain g first walk = (w : FatWalk) → walk ≡ some w → OnChain g first w

-- What a read of the chain returns and leaves.
pub record ReadsChain (disk : List ℕ) (v : FatVolume) (first offset n : ℕ) (r : ChainRead)
    : Type 0 where
  pub covers :
      (bytes : List ℕ)
      → r.bytes ≡ some bytes
      → (length bytes ≡ n) × Covers v.geometry disk first offset bytes
  pub keeps : Keeps v r.bytes r.volume
  pub walks : EachOnChain v.geometry first r.walk

pub walk_start_on_chain :
    (g : Geometry) (walk : Option FatWalk) (first target : ℕ)
    → EachOnChain g first walk
    → (chain_at g first (walk_start walk first target).1 ≡ some (walk_start walk first target).0)
      × ((walk_start walk first target).1 ≤ target)
walk_start_on_chain g none first target on = (refl, omega arith)
walk_start_on_chain g (some w) first target on =
    elim (Bool-cases (w.valid && leb w.offset target)) [
      | inl good ↦ rw good ((on w refl).stands (ground arith), ground arith)
      | inr bad ↦ rw bad (refl, omega arith)
    ]

walk_reached_on_chain :
    (g : Geometry) (walk : Option FatWalk) (first cluster target : ℕ)
    → chain_at g first target ≡ some cluster
    → EachOnChain g first (walk_reached walk cluster target)
walk_reached_on_chain g none first cluster target e w h = absurd cc
walk_reached_on_chain g (some old) first cluster target e w h =
    let fresh : FatWalk = record { offset = target; cluster = cluster; valid = true } in
    let same : fresh ≡ w = cc in subst (OnChain g first) same (record { stands = λ _. e })

module _ (disk : List ℕ) (v : FatVolume) (honest : IsHonest v.geometry.device disk)
    (sized : HasClusters v.geometry) where
  abbrev g : Geometry
  g = v.geometry

  read_reached-ReadsChain :
      (first target offset n : ℕ) (walk : Option FatWalk) (r : Option ℕ × FatVolume)
      → n ≢ 0
      → target ≡ offset / g.cluster_bytes
      → EachOnChain g first walk
      → Keeps v r.0 r.1
      → ((c : ℕ) → r.0 ≡ some c → chain_at g first target ≡ some c)
      → ReadsChain disk v first offset n (read_reached target offset n walk r)
  unfolding read_reached
  read_reached-ReadsChain first target offset n walk (none, w) nz t on keeps reached = record {
    covers = λ bytes e. absurd cc;
    keeps = fails-Keeps keeps.same;
    walks = on;
  }
  read_reached-ReadsChain first target offset n walk (some c, w) nz t on keeps reached =
      let into : ℕ = offset % w.geometry.cluster_bytes % u32_mod in
      let cb : w.geometry.cluster_bytes ≡ g.cluster_bytes =
        ap (λ (t : Geometry). t.cluster_bytes) keeps.same in
      let rest : into ≡ offset % g.cluster_bytes =
        omega (arith, cb, ap (λ t. offset % t) cb, mod-lt offset sized.some_bytes, sized.small) in
      let place : offset ≡ into + target * g.cluster_bytes =
        omega (
          arith,
          rest,
          ap (λ (q : ℕ). q * g.cluster_bytes) t,
          div-add-mod' offset g.cluster_bytes,
        ) in
      record {
        covers = λ bytes e.
            let (size, covers) =
              read_clusters-Covers disk w n c into 0 n bytes
                (subst (λ (t : Geometry). IsHonest t.device disk) (sym keeps.same) honest)
                (keeps.holds tt) (omega (arith, cb, rest, mod-lt offset sized.some_bytes)) nz e in
            (
              size,
              later-Covers g disk first target c into offset bytes sized.some_bytes (reached c refl)
                  place (subst (λ (t : Geometry). Covers t disk c into bytes) keeps.same covers),
            );
        keeps = then-Keeps keeps.same (read_clusters-Keeps n c into 0 n w (keeps.holds tt));
        walks = walk_reached_on_chain g walk first c target (reached c refl);
      }

  -- `read_chain` with a walk on the chain, or none.
  pub read_chain-ReadsChain :
      (first offset n : ℕ) (walk : Option FatWalk)
      → Holds v
      → EachOnChain g first walk
      → ReadsChain disk v first offset n (read_chain v first offset n walk)
  unfolding read_chain
  read_chain-ReadsChain first offset n walk h on = elim (Bool-cases (n == 0)) [
    | inl z ↦ rw z (record {
      covers = λ bytes e. (ground arith, λ i lt. absurd (ground arith));
      keeps = record { same = refl; holds = λ _. h };
      walks = on;
    })
    | inr nz ↦
        let target : ℕ = offset / g.cluster_bytes in
        let c : ℕ = (walk_start walk first target).0 in
        let index : ℕ = (walk_start walk first target).1 in
        let (start, le) = walk_start_on_chain g walk first target on in
        let a : Advances v c (target - index) (advance c (target - index) v) =
          advance-Advances v c (target - index) h in
        let all : index + (target - index) ≡ target = omega arith in
        rw nz (
          read_reached-ReadsChain first target offset n walk (advance c (target - index) v)
            (λ z. ground arith) refl on (record { same = a.same; holds = a.holds })
            (λ d e.
              ap (chain_at g first) (sym all)
              ∙ chain_at-add g first index (target - index) c start
              ∙ a.reached d e))
  ]

-- The file's walk is on its chain.
abbrev pub FileOnChain : Geometry → FatFile → Type 0
FileOnChain g file = OnChain g file.first_cluster file.walk

-- What `fat_read` returns and leaves.
pub record ReadsFile (disk : List ℕ) (v : FatVolume) (file : FatFile) (offset n : ℕ) (r : FileRead)
    : Type 0 where
  pub covers :
      (bytes : List ℕ)
      → r.bytes ≡ some bytes
      → (length bytes ≡ n)
        × (offset + n ≤ file.size ⊎ n ≡ 0)
        × Covers v.geometry disk file.first_cluster offset bytes
  pub keeps : Keeps v r.bytes r.volume
  pub first_kept : r.file.first_cluster ≡ file.first_cluster
  pub size_kept : r.file.size ≡ file.size
  pub walks : FileOnChain v.geometry r.file

module _ (disk : List ℕ) (v : FatVolume) (file : FatFile) (offset n : ℕ) where
  refused-ReadsFile :
      Holds v
      → FileOnChain v.geometry file
      → (r : FileRead) → r.bytes ≡ none ⊎ ((r.bytes ≡ some []) × (n ≡ 0))
      → r.volume ≡ v
      → r.file ≡ file
      → ReadsFile disk v file offset n r
  refused-ReadsFile h on r b sv sf = record {
    covers = λ bytes e. elim b [
      | inl fails ↦ absurd (let contra = sym fails ∙ e in cc)
      | inr (empties, z) ↦
          let same : [] ≡ bytes = (let q = sym empties ∙ e in cc) in
          (
            ap length (sym same) ∙ sym z,
            inr z,
            subst (Covers v.geometry disk file.first_cluster offset) same
                (λ i lt. absurd (ground arith)),
          )
    ];
    keeps = record {
      same = ap (λ (t : FatVolume). t.geometry) sv;
      holds = λ _. subst Holds (sym sv) h;
    };
    first_kept = ap (λ (t : FatFile). t.first_cluster) sf;
    size_kept = ap (λ (t : FatFile). t.size) sf;
    walks = subst (FileOnChain v.geometry) (sym sf) on;
  }

  after-ReadsFile :
      (r : ChainRead)
      → offset + n ≤ file.size
      → FileOnChain v.geometry file
      → ReadsChain disk v file.first_cluster offset n r
      → (walk : Option FatWalk) → EachOnChain v.geometry file.first_cluster walk
      → ReadsFile disk v file offset n
          (record { bytes = r.bytes; volume = r.volume; file = file_after file walk })
  after-ReadsFile r le on a none each = record {
    covers = λ bytes e. let (size, covers) = a.covers bytes e in (size, inl le, covers);
    keeps = a.keeps;
    first_kept = refl;
    size_kept = refl;
    walks = on;
  }
  after-ReadsFile r le on a (some w) each = record {
    covers = λ bytes e. let (size, covers) = a.covers bytes e in (size, inl le, covers);
    keeps = a.keeps;
    first_kept = refl;
    size_kept = refl;
    walks = each w refl;
  }

pub fat_read-ReadsFile :
    (disk : List ℕ) (v : FatVolume) (file : FatFile) (offset n : ℕ)
    → IsHonest v.geometry.device disk
    → HasClusters v.geometry
    → Holds v
    → FileOnChain v.geometry file
    → ReadsFile disk v file offset n (fat_read v file offset n)
unfolding fat_read
fat_read-ReadsFile disk v file offset n honest sized h on =
    let P : FileRead → Type 0 = ReadsFile disk v file offset n in
    let stays = refused-ReadsFile disk v file offset n h on in
    let a =
      read_chain-ReadsChain disk v honest sized file.first_cluster offset n (some file.walk) h
        (the_walk v file on) in
    if_by P file.directory (λ folder. stays _ (inl refl) refl refl)
      (λ plain.
        if_by P (n == 0) (λ z. stays _ (inr (refl, ground arith)) refl refl)
          (λ nz.
            either_option_by P (checked_add offset n) (λ wraps. stays _ (inl refl) refl refl)
              (λ end inside.
                if_by P (ltb file.size end) (λ past. stays _ (inl refl) refl refl)
                  (λ within.
                    after-ReadsFile disk v file offset n
                      (read_chain v file.first_cluster offset n (some file.walk))
                      (ground (arith, checked_add-eq-some offset n end inside, within)) on a _
                      a.walks))))
  where
    the_walk :
        (v : FatVolume) (file : FatFile)
        → FileOnChain v.geometry file
        → EachOnChain v.geometry file.first_cluster (some file.walk)
    the_walk v file on w e =
        let same : file.walk ≡ w = cc in subst (OnChain v.geometry file.first_cluster) same on
