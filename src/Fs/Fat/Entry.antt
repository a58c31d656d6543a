-- ===== src/Fs/Fat/Entry.antt =====
-- The cache of one FAT sector makes no difference: a link is what the device says.
use mathlib.Core.Path.{subst}
use tunix_boot.Prelude.{
  ℕ, ◌/◌, ◌%◌, ◌≡◌, inl, inr, refl, sym, true, not, ◌||◌, Option, none, some, List, arith, ◌==◌,
  Bool-cases,
}
use tunix_boot.Block.Device.{block_read, failed_read}
use tunix_boot.Fs.Fat.{
  Geometry, FatVolume, entry_offset, load_fat_sector, masked_entry, read_entry, next_cluster,
}

-- The entry that begins at the byte of the device.
unfoldable pub device_entry : Geometry → ℕ → Option ℕ
device_entry g absolute = elim (block_read g.device (absolute / g.bytes_per_sector) 1) [
  | none ↦ none
  | some sector ↦ some (masked_entry sector (absolute % g.bytes_per_sector))
]

-- What the FAT on the device holds for the cluster.
unfoldable pub fat_entry : Geometry → ℕ → Option ℕ
fat_entry g cluster = elim (entry_offset g cluster) [
  | none ↦ none
  | some absolute ↦ device_entry g absolute
]

-- The cached sector, if there is one, is what the device holds.
pub record Holds (v : FatVolume) : Type 0 where
  pub cached :
      v.fat_sector_valid ≡ true
      → block_read v.geometry.device v.fat_sector_index 1 ≡ some v.fat_sector

-- An action that succeeded.
abbrev pub Succeeded {ℓ} : {A : Type ℓ} → Option A → Type 0
Succeeded none = ⊥
Succeeded (some a) = Unit {0}

pub some-Succeeded {ℓ} : {A : Type ℓ} {o : Option A} (a : A) → o ≡ some a → Succeeded o
some-Succeeded a e = subst Succeeded (sym e) tt

-- What is left of an action on the volume, when its answer should be `out`.
pub record Answers (v : FatVolume) (out : Option ℕ) (result : Option ℕ × FatVolume) : Type 0 where
  pub answer : result.0 ≡ out
  pub same : result.1.geometry ≡ v.geometry
  pub holds : Succeeded result.0 → Holds result.1

record Loads (v : FatVolume) (sector : ℕ) (result : Option (Unit {0}) × FatVolume) : Type 0 where
  failed : result.0 ≡ none → block_read v.geometry.device sector 1 ≡ none
  loaded : result.0 ≡ some tt → block_read v.geometry.device sector 1 ≡ some result.1.fat_sector
  same : result.1.geometry ≡ v.geometry
  holds : Succeeded result.0 → Holds result.1

load_fat_sector-Loads :
    (v : FatVolume) (sector : ℕ) → Holds v → Loads v sector (load_fat_sector sector v)
unfolding load_fat_sector
load_fat_sector-Loads v sector h =
    elim (Bool-cases (not v.fat_sector_valid || not (v.fat_sector_index == sector))) [
      | inr hit ↦ rw hit (record {
        failed = λ e. absurd cc;
        loaded = λ e. ground (arith, hit, h.cached);
        same = refl;
        holds = λ _. h;
      })
      | inl miss ↦ rw miss (of_read (block_read v.geometry.device sector 1) refl)
    ]
  where
    of_read :
        (o : Option (List ℕ))
        → block_read v.geometry.device sector 1 ≡ o
        → Loads v sector (elim o [
          | none ↦
              (none, record v { fat_sector = failed_read v.geometry.device sector v.fat_sector })
          | some bytes ↦ (
            some tt,
            record v { fat_sector = bytes; fat_sector_index = sector; fat_sector_valid = true },
          )
        ])
    of_read none e = record {
      failed = λ z. e;
      loaded = λ z. absurd cc;
      same = refl;
      holds = λ z. absurd z;
    }
    of_read (some bytes) e = record {
      failed = λ z. absurd cc;
      loaded = λ z. e;
      same = refl;
      holds = λ _. record { cached = λ z. e };
    }

read_entry-Answers :
    (v : FatVolume) (absolute : ℕ)
    → Holds v
    → Answers v (device_entry v.geometry absolute) (read_entry absolute v)
unfolding read_entry device_entry
read_entry-Answers v absolute h =
    of_load (load_fat_sector (absolute / v.geometry.bytes_per_sector) v)
      (load_fat_sector-Loads v (absolute / v.geometry.bytes_per_sector) h)
  where
    of_load :
        (r : Option (Unit {0}) × FatVolume)
        → Loads v (absolute / v.geometry.bytes_per_sector) r
        → Answers v (device_entry v.geometry absolute) (elim r.0 as (λ _. Option ℕ × FatVolume) [
          | none ↦ (none, r.1)
          | some _ ↦
              (some (masked_entry r.1.fat_sector (absolute % v.geometry.bytes_per_sector)), r.1)
        ])
    of_load (none, v') l = record {
      answer = unfold device_entry in ground (arith, l.failed refl);
      same = l.same;
      holds = λ z. absurd z;
    }
    of_load (some u, v') l = record {
      answer = unfold device_entry in ground (arith, l.loaded refl);
      same = l.same;
      holds = λ _. l.holds tt;
    }

-- `next_cluster` answers what the FAT on the device holds, whatever is cached, and when it succeeds
-- leaves a cache that holds what the device does.
pub next_cluster-Answers :
    (v : FatVolume) (cluster : ℕ)
    → Holds v
    → Answers v (fat_entry v.geometry cluster) (next_cluster cluster v)
unfolding next_cluster fat_entry
next_cluster-Answers v cluster h = of_offset (entry_offset v.geometry cluster)
  where
    of_offset :
        (o : Option ℕ)
        → Answers v
            (elim o as (λ _. Option ℕ) [
              | none ↦ none
              | some absolute ↦ device_entry v.geometry absolute
            ])
            (elim o as (λ _. Option ℕ × FatVolume) [
              | none ↦ (none, v)
              | some absolute ↦ read_entry absolute v
            ])
    of_offset none = record { answer = refl; same = refl; holds = λ z. absurd z }
    of_offset (some absolute) = read_entry-Answers v absolute h
