-- ===== src/Elf/Load.antt =====
-- `elf_load`: where it writes, and what stands there afterwards.
use mathlib.Core.Path.{subst}
use tunix_boot.Prelude.{
  ℕ, zero, suc, ◌+◌, ◌-◌, ◌≤◌, ◌<◌, ◌≡◌, ◌≢◌, ◌⊎◌, inl, inr, refl, sym, ap, ◌∙◌, Bool, true, false,
  some, List, [], ◌∷◌, arith, All, All-imp, length, ◌==◌, Bool-cases,
}
use tunix_boot.Prelude.Int.{ℤ, pos, negsuc}
use tunix_boot.Prelude.Word.{u64_mod, add64}
use tunix_boot.Util.Checked.{checked_add}
use tunix_boot.Util.Mem.{Memory}
use tunix_boot.Elf.{
  ReadFn, Segment, Image, Placement, biased, segment_within, all_within, copy_chunk, copy_chunks,
  written, copy_segment, load_segments, elf_load,
}
use tunix_boot.Elf.Layout.{IsSegment, IsLayout}
use tunix_boot.Elf.Chunks.{IsBounded, IsHonest}
use tunix_boot.Elf.Place.{
  IsInt64, Lands, all_within-Lands, Stands, Missed, load_segments-next, load_segments_kept,
  load_segments-Stands,
}

elf_load-passed :
    (read : ReadFn) (image : Image) (placement : Placement) (m : Memory)
    → placement.limit_low < placement.limit_high
    → length image.segments ≢ 0
    → all_within image.segments placement ≡ true
    → (elf_load read image placement m).0 ≡ (load_segments read placement.bias image.segments m).0
unfolding elf_load
elf_load-passed read image placement m window some_segments inside = ground (arith, inside)

elf_load_cases :
    (read : ReadFn) (image : Image) (placement : Placement) (m : Memory)
    → (elf_load read image placement m ≡ (false, m))
      ⊎ ((all_within image.segments placement ≡ true)
          × (elf_load read image placement m ≡ load_segments read placement.bias image.segments m))
unfolding elf_load
elf_load_cases read image placement m = ground arith

Missed-outside :
    (placement : Placement) (p : ℕ) (ss : List Segment)
    → (p < placement.limit_low) ⊎ (placement.limit_high ≤ p)
    → All (Lands placement) ss
    → All (Missed placement p) ss
Missed-outside placement p ss outside lands =
    All-imp (Lands placement) (Missed placement p) misses ss lands
  where
    misses : (s : Segment) → Lands placement s → Missed placement p s
    misses s l start at =
        let same : start ≡ l.start = ground (arith, at, l.at) in
        ground (arith, same, l.low, l.high, outside)

-- Nothing outside the window is written, whatever the read function returns and whether or not
-- `elf_load` succeeds, as long as no read writes more than it was asked for and the segments are
-- those of an accepted image.
pub elf_load_confined :
    (read : ReadFn) (image : Image) (placement : Placement) (m : Memory) (p : ℕ)
    → IsBounded read
    → IsLayout image
    → (p < placement.limit_low) ⊎ (placement.limit_high ≤ p)
    → (elf_load read image placement m).1 p ≡ m p
elf_load_confined read image placement m p bounded layout outside =
    elim (elf_load_cases read image placement m) [
      | inl refused ↦ ap (λ (r : Bool × Memory). r.1 p) refused
      | inr (inside, same) ↦
          let lands = all_within-Lands image.segments placement inside in
          ap (λ (r : Bool × Memory). r.1 p) same
          ∙ load_segments_kept read placement bounded image.segments m p layout.segments lands
              (Missed-outside placement p image.segments outside lands)
    ]

-- When `elf_load` succeeds for an accepted image with an honest read function, every segment stands
-- where the bias puts it: the bytes of the file, then zeros.
pub elf_load-Stands :
    (read : ReadFn) (file : ℕ → ℕ) (image : Image) (placement : Placement) (m : Memory)
    → IsBounded read
    → IsHonest read file
    → IsLayout image
    → IsInt64 placement.bias
    → (elf_load read image placement m).0 ≡ true
    → All (Stands file placement (elf_load read image placement m).1) image.segments
elf_load-Stands read file image placement m bounded honest layout small ok =
    elim (elf_load_cases read image placement m) [
      | inl refused ↦ absurd (cc (refused, ok))
      | inr (inside, same) ↦
          subst (λ (r : Bool × Memory). All (Stands file placement r.1) image.segments) (sym same)
            (load_segments-Stands read placement bounded file honest small image.segments m
              layout.segments layout.apart (all_within-Lands image.segments placement inside)
              (ap (λ (r : Bool × Memory). r.0) (sym same) ∙ ok))
    ]

-- A distance of that many bytes up or down.
abbrev pub Moved : ℤ → ℕ → ℕ → Type 0
Moved (pos n) address start = start ≡ address + n
Moved (negsuc n) address start = start + n + 1 ≡ address

-- The bias moves the segment into the window.
pub record GoesInto (placement : Placement) (s : Segment) : Type 0 where
  pub start : ℕ
  pub moved : Moved placement.bias s.physical_address start
  pub low : placement.limit_low ≤ start
  pub high : start + s.memory_bytes ≤ placement.limit_high

biased-Moved :
    (bias : ℤ) (address start : ℕ)
    → IsInt64 bias
    → address < u64_mod
    → start < u64_mod
    → Moved bias address start
    → biased address bias ≡ some start
unfolding biased checked_add
biased-Moved (pos n) address start small la ls e = ground arith
biased-Moved (negsuc n) address start small la ls e = ground arith

segment_within-GoesInto :
    (s : Segment) (placement : Placement)
    → IsInt64 placement.bias
    → placement.limit_high < u64_mod
    → IsSegment s
    → GoesInto placement s
    → segment_within s placement ≡ true
unfolding segment_within checked_add
segment_within-GoesInto s placement small top i g =
    let at : biased s.physical_address placement.bias ≡ some g.start =
      biased-Moved placement.bias s.physical_address g.start small (omega (arith, i.physical))
        (omega (arith, g.high, top)) g.moved in
    ground (arith, at, g.low, g.high, top)

all_within-GoesInto :
    (ss : List Segment) (placement : Placement)
    → IsInt64 placement.bias
    → placement.limit_high < u64_mod
    → All IsSegment ss
    → All (GoesInto placement) ss
    → all_within ss placement ≡ true
unfolding all_within
all_within-GoesInto [] placement small top is gs = refl
all_within-GoesInto (s ∷ ss) placement small top (i, is) (g, gs) = ground (
  arith,
  segment_within-GoesInto s placement small top i g,
  all_within-GoesInto ss placement small top is gs,
)

-- A file of `size` bytes that serves every read of its bytes.
abbrev pub Serves : ReadFn → ℕ → Type 0
Serves read size = (offset count : ℕ) → offset + count ≤ size → (read offset count).0 ≡ true

module _ (read : ReadFn) (size : ℕ) (serves : Serves read size) (small : size < u64_mod) where
  copy_chunks_total :
      (fuel at from count : ℕ) (m : Memory)
      → from + count ≤ size
      → (copy_chunks read fuel at from count m).0 ≡ true
  unfolding copy_chunks
  copy_chunks_total zero at from count m fits = refl
  copy_chunks_total (suc fuel) at from count m fits = elim (Bool-cases (count == 0)) [
    | inl done ↦ ground (arith, done)
    | inr more ↦
        let chunk : ℕ = copy_chunk count in
        let part : chunk ≤ count = ground arith in
        let next : add64 from chunk ≡ from + chunk = omega (arith, part, fits, small) in
        ground (
          arith,
          more,
          serves from chunk (omega (arith, part, fits)),
          copy_chunks_total fuel (add64 at chunk) (add64 from chunk) (count - chunk)
              (written m at (read from chunk).1) (omega (arith, next, part, fits)),
        )
  ]

  copy_segment_total :
      (s : Segment) (at : ℕ) (m : Memory)
      → s.file_offset + s.file_bytes ≤ size
      → (copy_segment read s at m).0 ≡ true
  unfolding copy_segment
  copy_segment_total s at m fits =
      ground (arith, copy_chunks_total s.file_bytes at s.file_offset s.file_bytes m fits)

  load_segments_total :
      (placement : Placement) (ss : List Segment) (m : Memory)
      → All (Lands placement) ss
      → All (λ s. s.file_offset + s.file_bytes ≤ size) ss
      → (load_segments read placement.bias ss m).0 ≡ true
  load_segments_total placement [] m lands fits = unfold load_segments in refl
  load_segments_total placement (s ∷ ss) m (l, lands) (fit, fits) =
      ap (λ (r : Bool × Memory). r.0)
        (load_segments-next read placement s ss m l.start l.at (copy_segment_total s l.start m fit))
      ∙ load_segments_total placement ss (copy_segment read s l.start m).1 lands fits

-- `elf_load` succeeds for an accepted image, if the file has the bytes of its segments and serves every
-- read of its own bytes, and the bias, a word of 64 bits, moves each segment into a window that is
-- not empty and does not reach the end of memory. A read past the end of the file may fail.
pub elf_load_total :
    (read : ReadFn) (size : ℕ) (image : Image) (placement : Placement) (m : Memory)
    → Serves read size
    → size < u64_mod
    → IsLayout image
    → length image.segments ≢ 0
    → All (λ s. s.file_offset + s.file_bytes ≤ size) image.segments
    → IsInt64 placement.bias
    → placement.limit_low < placement.limit_high
    → placement.limit_high < u64_mod
    → All (GoesInto placement) image.segments
    → (elf_load read image placement m).0 ≡ true
elf_load_total read size image placement m serves small layout some_segments held bias window top
      goes =
    let inside = all_within-GoesInto image.segments placement bias top layout.segments goes in
    let lands = all_within-Lands image.segments placement inside in
    elf_load-passed read image placement m window some_segments inside
    ∙ load_segments_total read size serves small placement image.segments m lands held
