-- ===== src/Fs/Fat/Opened.antt =====
-- A volume from `fat_mount` on, and the files that `fat_open` returns.
use native.Mathlib.Nat.{mul-le-mul_right}
use mathlib.Core.Path.{subst}
use tunix_boot.Prelude.{
  ℕ, zero, suc, ◌+◌, ◌-◌, ◌*◌, ◌≡◌, ◌≢◌, ◌≤◌, ◌⊎◌, refl, sym, ap, ◌∙◌, true, false, not, bit_and,
  Option, none, some, List, arith, length, ◌==◌, get_or,
}
use tunix_boot.Prelude.Branches.{either, if_by, either_option_by}
use tunix_boot.Prelude.Slices.{slice}
use tunix_boot.Prelude.Word.{add64}
use tunix_boot.Block.Device.{BlockDevice, block_device_valid, block_read}
use tunix_boot.Block.Device.Disk.{IsHonest, IsReliable}
use tunix_boot.Block.Device.Total.{IsSized}
use tunix_boot.Util.Reader.At.{IsBuffer}
use tunix_boot.Fs.Fat.{Geometry, FatVolume, cluster_sector, read_chain, fat_mount}
use tunix_boot.Fs.Fat.Name.{LongName}
use tunix_boot.Fs.Fat.Files.{
  FatFile, Looked, ended, passed, found, file_of, root_of, entry_matches, look_at, find_from,
  find_in_directory, skip_separators, component_end, open_from, fat_open, fat_read,
}
use tunix_boot.Fs.Fat.Entry.{some-Succeeded, Holds}
use tunix_boot.Fs.Fat.Content.{cluster_start, Covers}
use tunix_boot.Fs.Fat.Clusters.{Keeps, then-Keeps, fails-Keeps}
use tunix_boot.Fs.Fat.Reading.{
  HasClusters, FileOnChain, read_chain-ReadsChain, ReadsFile, fat_read-ReadsFile,
}
use tunix_boot.Fs.Fat.Mount.{IsMounted, fat_mount-IsMounted, cluster_sector_on_device}
use tunix_boot.Fs.Fat.Total.{IsServed}

-- A mounted volume is served by a reliable disk whose size the device reports.
pub mounted-IsServed :
    (d : BlockDevice) (disk : List ℕ) (v : FatVolume)
    → IsMounted d v
    → IsHonest d disk
    → IsReliable d disk
    → IsSized d disk
    → block_device_valid d ≡ true
    → d.sector_count ≢ 0
    → d.sector_count * d.sector_bytes ≡ length disk
    → IsServed v.geometry disk
mounted-IsServed d disk v m honest reliable sized valid nz size =
    let g : Geometry = v.geometry in
    record {
      honest = subst (λ e. IsHonest e disk) (sym m.device) honest;
      reliable = subst (λ e. IsReliable e disk) (sym m.device) reliable;
      sized = subst (λ e. IsSized e disk) (sym m.device) sized;
      valid = ap block_device_valid m.device ∙ valid;
      clusters = m.sized;
      placed = λ c proper.
          let sectors : cluster_sector g c + g.sectors_per_cluster ≤ d.sector_count =
            cluster_sector_on_device d v c m nz proper in
          let bytes : (cluster_sector g c + g.sectors_per_cluster) * d.sector_bytes
              ≤ d.sector_count * d.sector_bytes =
            mul-le-mul_right d.sector_bytes sectors in
          let split : (cluster_sector g c + g.sectors_per_cluster) * d.sector_bytes
              ≡ cluster_sector g c * d.sector_bytes + g.sectors_per_cluster * d.sector_bytes =
            grind arith in
          let start : cluster_start g c ≡ cluster_sector g c * d.sector_bytes =
            ap (λ t. cluster_sector g c * t) m.sector in
          omega (arith, bytes, split, start, m.cluster, size);
    }

-- What a search leaves: a file that is found has not been walked.
pub record Finds (v : FatVolume) (r : Option FatFile × FatVolume) : Type 0 where
  pub keeps : Keeps v r.0 r.1
  pub fresh : (file : FatFile) → r.0 ≡ some file → file.walk.valid ≡ false

nothing-Finds : (v w : FatVolume) → w.geometry ≡ v.geometry → Finds v (none, w)
nothing-Finds v w same = record { keeps = fails-Keeps same; fresh = λ file e. absurd cc }

later-Finds :
    (v w : FatVolume) (r : Option FatFile × FatVolume)
    → w.geometry ≡ v.geometry
    → Finds w r
    → Finds v r
later-Finds v w r k f = record { keeps = then-Keeps k f.keeps; fresh = f.fresh }

file-Finds :
    (v w : FatVolume) (file : FatFile)
    → w.geometry ≡ v.geometry
    → Holds w
    → file.walk.valid ≡ false
    → Finds v (some file, w)
file-Finds v w file same h fresh = record {
  keeps = record { same = same; holds = λ _. h };
  fresh = λ other e.
      let same : file ≡ other = cc in ap (λ (f : FatFile). f.walk.valid) (sym same) ∙ fresh;
}

-- `look_at` finds a file only with a fresh walk.
data IsFresh : Looked → Type 0 where
  fresh_end : IsFresh ended
  fresh_pass : (pending : LongName) → IsFresh (passed pending)
  fresh_file : (file : FatFile) → file.walk.valid ≡ false → IsFresh (found file)

look_at-IsFresh : (pending : LongName) (entry name : List ℕ) → IsFresh (look_at pending entry name)
unfolding look_at
look_at-IsFresh pending entry name =
    if_by IsFresh (get_or entry 0 0 == 0) (λ _. fresh_end)
      (λ _.
        if_by IsFresh (get_or entry 0 0 == 0xE5) (λ _. fresh_pass _)
          (λ _.
            if_by IsFresh (get_or entry 11 0 == 0x0F) (λ _. fresh_pass _)
              (λ _.
                if_by IsFresh (not (bit_and (get_or entry 11 0) 0x08 == 0)) (λ _. fresh_pass _)
                  (λ _.
                    if_by IsFresh (entry_matches pending entry name)
                      (λ _. fresh_file (file_of entry) refl) (λ _. fresh_pass _)))))

abbrev CanRead : List ℕ → FatVolume → Type 0
CanRead disk v = IsHonest v.geometry.device disk × HasClusters v.geometry × Holds v

keeps-CanRead :
    (disk : List ℕ) (v w : FatVolume)
    → CanRead disk v
    → w.geometry ≡ v.geometry
    → Holds w
    → CanRead disk w
keeps-CanRead disk v w (honest, sized, _) same holds = (
  subst (λ (t : Geometry). IsHonest t.device disk) (sym same) honest,
  subst HasClusters (sym same) sized,
  holds,
)

module _ (disk : List ℕ) where
  entry-Keeps :
      (v : FatVolume) (cluster offset n : ℕ)
      → CanRead disk v
      → Keeps v
          (read_chain v cluster offset n none).bytes
          (read_chain v cluster offset n none).volume
  entry-Keeps v cluster offset n (honest, sized, holds) =
      (read_chain-ReadsChain disk v honest sized cluster offset n none holds
        (λ w e. absurd cc)).keeps

  find_from-Finds :
      (left cluster : ℕ) (name : List ℕ) (offset : ℕ) (pending : LongName) (v : FatVolume)
      → CanRead disk v
      → Finds v (find_from left cluster name offset pending v)
  unfolding find_from
  find_from-Finds zero cluster name offset pending v r = nothing-Finds v v refl
  find_from-Finds (suc left) cluster name offset pending v r =
      let w : FatVolume = (read_chain v cluster offset 32 none).volume in
      let k = entry-Keeps v cluster offset 32 r in
      either_option_by (Finds v) (read_chain v cluster offset 32 none).bytes
        (λ _. nothing-Finds v w k.same)
        (λ entry e.
          let holds : Holds w = k.holds (some-Succeeded entry e) in
          of_looked w k.same holds
            (λ pending'.
              find_from-Finds left cluster name (add64 offset 32) pending' w
                (keeps-CanRead disk v w r k.same holds))
            (look_at pending entry name) (look_at-IsFresh pending entry name))
    where
      of_looked :
          (w : FatVolume)
          → w.geometry ≡ v.geometry
          → Holds w
          → ((pending' : LongName)
              → Finds w (find_from left cluster name (add64 offset 32) pending' w))
          → (l : Looked) → IsFresh l
          → Finds v (elim l as (λ _. Option FatFile × FatVolume) [
            | ended ↦ (none, w)
            | found file ↦ (some file, w)
            | passed pending' ↦ find_from left cluster name (add64 offset 32) pending' w
          ])
      of_looked w k h later _ fresh_end = nothing-Finds v w k
      of_looked w k h later _ (fresh_pass pending') = later-Finds v w _ k (later pending')
      of_looked w k h later _ (fresh_file file fresh) = file-Finds v w file k h fresh

  open_from-Finds :
      (fuel : ℕ) (stack : ℕ → ℕ) (path : List ℕ) (index : ℕ) (current : FatFile) (v : FatVolume)
      → CanRead disk v
      → current.walk.valid ≡ false
      → Finds v (open_from fuel stack path index current v)
  unfolding open_from find_in_directory
  open_from-Finds zero stack path index current v r fresh = nothing-Finds v v refl
  open_from-Finds (suc fuel) stack path index current v r fresh =
      let end : ℕ = component_end (length path - index) path index in
      either (Finds v) (get_or path index 0 == 0) (file-Finds v v current refl r.2 fresh) (
        either (Finds v) _ (nothing-Finds v v refl) (
          of_found
            (find_in_directory stack current.first_cluster (slice path index (end - index)) v)
            (find_from-Finds _ current.first_cluster (slice path index (end - index)) 0 _ v r)
            (λ w file k h fresh'.
              open_from-Finds fuel stack path (skip_separators (length path - end) path end) file w
                (keeps-CanRead disk v w r k h) fresh')))
    where
      of_found :
          (o : Option FatFile × FatVolume)
          → Finds v o
          → ((w : FatVolume) (file : FatFile)
              → w.geometry ≡ v.geometry
              → Holds w
              → file.walk.valid ≡ false
              → Finds w (
                  open_from fuel stack path
                    (skip_separators
                      (length path - component_end (length path - index) path index)
                      path
                      (component_end (length path - index) path index))
                    file
                    w))
          → Finds v (elim o.0 as (λ _. Option FatFile × FatVolume) [
            | none ↦ (none, o.1)
            | some file ↦
                open_from fuel stack path
                  (skip_separators
                    (length path - component_end (length path - index) path index)
                    path
                    (component_end (length path - index) path index))
                  file
                  o.1
          ])
      of_found (none, w) f later = nothing-Finds v w f.keeps.same
      of_found (some file, w) f later =
          later-Finds v w _ f.keeps.same
            (later w file f.keeps.same (f.keeps.holds tt) (f.fresh file refl))

-- `fat_open` on an honest device keeps the geometry, and with a file that it returns a cache that holds
-- what the device does; the file has not been walked.
pub fat_open-Finds :
    (disk : List ℕ) (stack : ℕ → ℕ) (v : FatVolume) (path : List ℕ)
    → IsHonest v.geometry.device disk
    → HasClusters v.geometry
    → Holds v
    → Finds v (fat_open stack v path)
unfolding fat_open
fat_open-Finds disk stack v path honest sized holds =
    open_from-Finds disk (suc (length path)) stack path _ (root_of v) v (honest, sized, holds) refl

fresh-OnChain : (g : Geometry) (file : FatFile) → file.walk.valid ≡ false → FileOnChain g file
fresh-OnChain g file fresh = record { stands = λ e. absurd (let contra = sym fresh ∙ e in cc) }

-- From the device to the bytes: on an honest device with a first sector of 512 bytes, what
-- `fat_read` returns of a file that `fat_open` found on the volume of `fat_mount` is what the
-- device holds along the chain of the file from the offset on, as many bytes as were asked for.
-- The first read after the opening is meant.
pub mounted_read-Covers :
    (d : BlockDevice) (disk : List ℕ) (stack : ℕ → ℕ) (path : List ℕ) (v w : FatVolume)
    (file : FatFile) (offset n : ℕ) (bytes : List ℕ)
    → IsHonest d disk
    → ((sector : List ℕ) → block_read d 0 1 ≡ some sector → IsBuffer sector 512)
    → fat_mount d ≡ some v
    → fat_open stack v path ≡ (some file, w)
    → (fat_read w file offset n).bytes ≡ some bytes
    → (length bytes ≡ n)
      × (offset + n ≤ file.size ⊎ n ≡ 0)
      × Covers v.geometry disk file.first_cluster offset bytes
mounted_read-Covers d disk stack path v w file offset n bytes honest filled mounts opens reads =
    let m : IsMounted d v = fat_mount-IsMounted d v filled mounts in
    let empty : Holds v = record { cached = λ e. absurd (let contra = sym m.cache ∙ e in cc) } in
    let honest' : IsHonest v.geometry.device disk =
      subst (λ e. IsHonest e disk) (sym m.device) honest in
    let f : Finds v (some file, w) =
      subst (Finds v) opens (fat_open-Finds disk stack v path honest' m.sized empty) in
    let same = f.keeps.same in
    let r : ReadsFile disk w file offset n (fat_read w file offset n) =
      fat_read-ReadsFile disk w file offset n
        (subst (λ (t : Geometry). IsHonest t.device disk) (sym same) honest')
        (subst HasClusters (sym same) m.sized) (f.keeps.holds tt)
        (fresh-OnChain w.geometry file (f.fresh file refl)) in
    let (size, inside, covers) = r.covers bytes reads in
    (
      size,
      inside,
      subst (λ (t : Geometry). Covers t disk file.first_cluster offset bytes) same covers,
    )
