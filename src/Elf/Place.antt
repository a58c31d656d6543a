-- ===== src/Elf/Place.antt =====
-- Where the segments go, and that placing one leaves the others alone.
use mathlib.Core.Path.{subst}
use tunix_boot.Prelude.{
  ℕ, ◌+◌, ◌≤◌, ◌<◌, ◌≡◌, ◌^◌, inl, inr, refl, sym, ap, ◌∙◌, Bool, true, false, some, List, [], ◌∷◌,
  arith, All, Bool-cases, Option-cases,
}
use tunix_boot.Prelude.Int.{ℤ, pos, negsuc}
use tunix_boot.Prelude.Word.{u64_mod}
use tunix_boot.Util.Checked.{checked_add}
use tunix_boot.Util.Mem.{Memory}
use tunix_boot.Elf.{
  ReadFn, Segment, Placement, biased, segment_within, all_within, copy_segment, load_segments,
}
use tunix_boot.Elf.Layout.{IsSegment, Disjoint, Apart}
use tunix_boot.Elf.Chunks.{IsBounded, IsHonest, within, content, Places, copy_segment-Places}

-- An `int64_t`.
abbrev pub IsInt64 : ℤ → Type 0
IsInt64 (pos n) = n < 2 ^ 63
IsInt64 (negsuc n) = n < 2 ^ 63

-- The bias moves every address by the same distance.
biased-shift :
    (bias : ℤ) (a b d e : ℕ)
    → IsInt64 bias
    → a < u64_mod
    → b < u64_mod
    → biased a bias ≡ some d
    → biased b bias ≡ some e
    → d + b ≡ e + a
unfolding biased checked_add
biased-shift (pos n) a b d e small la lb p q = ground arith
biased-shift (negsuc n) a b d e small la lb p q = ground arith

-- Where the segment goes.
pub record Lands (placement : Placement) (s : Segment) : Type 0 where
  pub start : ℕ
  pub at : biased s.physical_address placement.bias ≡ some start
  pub low : placement.limit_low ≤ start
  pub high : start + s.memory_bytes ≤ placement.limit_high
  pub fits : start + s.memory_bytes < u64_mod

segment_within-Lands :
    (s : Segment) (placement : Placement) → segment_within s placement ≡ true → Lands placement s
unfolding segment_within checked_add
segment_within-Lands s placement h =
    elim (Option-cases (biased s.physical_address placement.bias)) [
      | inl e ↦ absurd (ground (arith, e, h))
      | inr (start, e) ↦ record {
        start = start;
        at = e;
        low = ground (arith, e, h);
        high = ground (arith, e, h);
        fits = ground (arith, e, h);
      }
    ]

pub all_within-Lands :
    (ss : List Segment) (placement : Placement)
    → all_within ss placement ≡ true
    → All (Lands placement) ss
unfolding all_within
all_within-Lands [] placement h = tt
all_within-Lands (s ∷ ss) placement h =
    (segment_within-Lands s placement (ground arith), all_within-Lands ss placement (ground arith))

-- The segment stands in memory where the bias puts it.
abbrev pub Stands : (ℕ → ℕ) → Placement → Memory → Segment → Type 0
Stands file placement m s =
    (start i : ℕ)
    → biased s.physical_address placement.bias ≡ some start
    → i < s.memory_bytes
    → m (start + i) ≡ content file s i

-- The address is not one that the segment goes to.
abbrev pub Missed : Placement → ℕ → Segment → Type 0
Missed placement p s =
    (start : ℕ)
    → biased s.physical_address placement.bias ≡ some start
    → within start s.memory_bytes p ≡ false

module _ (read : ReadFn) (placement : Placement) where
  pub load_segments-next :
      (s : Segment) (ss : List Segment) (m : Memory) (start : ℕ)
      → biased s.physical_address placement.bias ≡ some start
      → (copy_segment read s start m).0 ≡ true
      → load_segments read placement.bias (s ∷ ss) m
        ≡ load_segments read placement.bias ss (copy_segment read s start m).1
  unfolding load_segments
  load_segments-next s ss m start at ok = ground (arith, at, ok)

  load_segments-failed :
      (s : Segment) (ss : List Segment) (m : Memory) (start : ℕ)
      → biased s.physical_address placement.bias ≡ some start
      → (copy_segment read s start m).0 ≡ false
      → load_segments read placement.bias (s ∷ ss) m ≡ (false, (copy_segment read s start m).1)
  unfolding load_segments
  load_segments-failed s ss m start at ok = ground (arith, at, ok)

  pub load_segments_kept :
      IsBounded read
      → (ss : List Segment) (m : Memory) (p : ℕ) → All IsSegment ss
      → All (Lands placement) ss
      → All (Missed placement p) ss
      → (load_segments read placement.bias ss m).1 p ≡ m p
  load_segments_kept bounded [] m p seg lands missed = unfold load_segments in refl
  load_segments_kept bounded (s ∷ ss) m p seg (l, lands) missed =
      let here : Places read (λ i. 0) s l.start m (copy_segment read s l.start m) =
        copy_segment-Places read (λ i. 0) s l.start seg.0 l.fits bounded m in
      elim (Bool-cases (copy_segment read s l.start m).0) [
        | inr failed ↦
            ap (λ r. r.1 p) (load_segments-failed s ss m l.start l.at failed)
            ∙ here.kept p (missed.0 l.start l.at)
        | inl ok ↦
            ap (λ r. r.1 p) (load_segments-next s ss m l.start l.at ok)
            ∙ load_segments_kept bounded ss (copy_segment read s l.start m).1 p seg.1 lands missed.1
            ∙ here.kept p (missed.0 l.start l.at)
      ]

  module _ (bounded : IsBounded read) (file : ℕ → ℕ) (honest : IsHonest read file)
      (small : IsInt64 placement.bias) where
    -- A byte of a placed segment is no byte of a disjoint one.
    Missed-Disjoint :
        (s t : Segment) (start i : ℕ)
        → IsSegment s
        → IsSegment t
        → Disjoint s t
        → biased s.physical_address placement.bias ≡ some start
        → i < s.memory_bytes
        → Missed placement (start + i) t
    Missed-Disjoint s t start i ss st apart at lt e at' =
        let shift : start + t.physical_address ≡ e + s.physical_address =
          biased-shift placement.bias s.physical_address t.physical_address start e small
            (omega (arith, ss.physical)) (omega (arith, st.physical)) at at' in
        ground (arith, shift, apart, lt)

    Missed-all :
        (s : Segment) (ts : List Segment) (start i : ℕ)
        → IsSegment s
        → All IsSegment ts
        → All (λ t. Disjoint s t) ts
        → biased s.physical_address placement.bias ≡ some start
        → i < s.memory_bytes
        → All (Missed placement (start + i)) ts
    Missed-all s [] start i ss st apart at lt = tt
    Missed-all s (t ∷ ts) start i ss st apart at lt = (
      Missed-Disjoint s t start i ss st.0 apart.0 at lt,
      Missed-all s ts start i ss st.1 apart.1 at lt,
    )

    pub load_segments-Stands :
        (ss : List Segment) (m : Memory)
        → All IsSegment ss
        → Apart ss
        → All (Lands placement) ss
        → (load_segments read placement.bias ss m).0 ≡ true
        → All (Stands file placement (load_segments read placement.bias ss m).1) ss
    load_segments-Stands [] m seg apart lands ok = tt
    load_segments-Stands (s ∷ ss) m seg apart (l, lands) ok =
        elim (Bool-cases (copy_segment read s l.start m).0) [
          | inr failed ↦ absurd (cc (load_segments-failed s ss m l.start l.at failed, ok))
          | inl here ↦
              let m' = (copy_segment read s l.start m).1 in
              let step : load_segments read placement.bias (s ∷ ss) m
                  ≡ load_segments read placement.bias ss m' =
                load_segments-next s ss m l.start l.at here in
              subst (λ (r : Bool × Memory). All (Stands file placement r.1) (s ∷ ss)) (sym step)
                (
                  first here,
                  load_segments-Stands ss m' seg.1 apart.1 lands
                      (ap (λ (r : Bool × Memory). r.0) (sym step) ∙ ok),
                )
        ]
      where
        first :
            (copy_segment read s l.start m).0 ≡ true
            → Stands file placement
                (load_segments read placement.bias ss (copy_segment read s l.start m).1).1
                s
        first here start i at lt =
            load_segments_kept bounded ss (copy_segment read s l.start m).1 (start + i) seg.1 lands
              (Missed-all s ss start i seg.0 seg.1 apart.0 at lt)
            ∙ ap (copy_segment read s l.start m).1 (ground (arith, at, l.at))
            ∙ (copy_segment-Places read file s l.start seg.0 l.fits bounded m).placed honest i here
                lt
