-- ===== src/Elf/Chunks.antt =====
-- The chunked loops of `copy_segment` and `zero_range`, on a read function that keeps its bounds.
use mathlib.Core.Path.{subst}
use native.Mathlib.Decide.{ℕ_discrete}
use tunix_boot.Prelude.{
  ℕ, zero, suc, ◌+◌, ◌-◌, ◌≤◌, ◌<◌, ◌≡◌, ◌≢◌, inl, inr, refl, sym, ap, ◌∙◌, Bool, true, false, not,
  ◌&&◌, arith, length, get_or, ltb, leb, if◌then◌else◌, Bool-cases,
}
use tunix_boot.Prelude.Word.{u64_mod, add64, sub64}
use tunix_boot.Util.Mem.{Memory, memset}
use tunix_boot.Util.Mem.Copies.{memset_lem}
use tunix_boot.Elf.{
  ReadFn, Segment, copy_chunk, zero_chunks, zero_range, written, copy_chunks, copy_segment,
}
use tunix_boot.Elf.Layout.{IsSegment}

-- No read writes more than the bytes asked for.
abbrev pub IsBounded : ReadFn → Type 0
IsBounded read = (offset count : ℕ) → length (read offset count).1 ≤ count

-- A successful read writes the file's bytes, all of them.
pub record IsHonest (read : ReadFn) (file : ℕ → ℕ) : Type 0 where
  pub filled :
      (offset count : ℕ) → (read offset count).0 ≡ true → length (read offset count).1 ≡ count
  pub returned :
      (offset count i : ℕ)
      → (read offset count).0 ≡ true
      → i < count
      → get_or (read offset count).1 i 0 ≡ file (offset + i)

-- The address lies in the `count` bytes from `at` on.
abbrev pub within : ℕ → ℕ → ℕ → Bool
within at count p = leb at p && ltb p (at + count)

zero_chunks-more :
    (fuel cursor count : ℕ) (m : Memory)
    → count ≢ 0
    → zero_chunks (suc fuel) cursor count m
      ≡ zero_chunks fuel
          (add64 cursor (copy_chunk count))
          (count - copy_chunk count)
          (memset cursor 0 (copy_chunk count) m)
unfolding zero_chunks
zero_chunks-more fuel cursor count m more = ground arith

zero_chunks-done : (fuel cursor : ℕ) (m : Memory) → zero_chunks fuel cursor 0 m ≡ m
unfolding zero_chunks
zero_chunks-done zero cursor m = refl
zero_chunks-done (suc fuel) cursor m = refl

zero_chunks_lem :
    (fuel cursor count : ℕ) (m : Memory) (p : ℕ)
    → count ≤ fuel
    → cursor + count < u64_mod
    → zero_chunks fuel cursor count m p ≡ (if within cursor count p then 0 else m p)
zero_chunks_lem zero cursor count m p le fits = ground (arith, zero_chunks-done 0 cursor m)
zero_chunks_lem (suc fuel) cursor count m p le fits = elim (ℕ_discrete count 0) [
  | yes done ↦ ground (arith, done, zero_chunks-done (suc fuel) cursor m)
  | no more ↦
      let chunk = copy_chunk count in
      let rest =
        zero_chunks_lem fuel (add64 cursor chunk) (count - chunk) (memset cursor 0 chunk m) p
          (ground arith) (ground arith) in
      ap (λ after. after p) (zero_chunks-more fuel cursor count m more)
      ∙ rest
      ∙ ground (arith, memset_lem cursor 0 chunk m p)
]

pub zero_range_lem :
    (address count : ℕ) (m : Memory) (p : ℕ)
    → address + count < u64_mod
    → zero_range address count m p ≡ (if within address count p then 0 else m p)
unfolding zero_range
zero_range_lem address count m p fits = zero_chunks_lem count address count m p (omega arith) fits

-- `count` bytes of the file from `from` on, copied to `at`: nothing outside changes, and a success
-- with an honest read has them all there.
pub record Copies (read : ReadFn) (file : ℕ → ℕ) (at from count : ℕ) (before : Memory)
    (result : Bool × Memory) : Type 0 where
  pub kept : (p : ℕ) → within at count p ≡ false → result.1 p ≡ before p
  pub copied :
      IsHonest read file
      → (i : ℕ) → result.0 ≡ true
      → i < count
      → result.1 (at + i) ≡ file (from + i)

module _ (read : ReadFn) (file : ℕ → ℕ) (bounded : IsBounded read) where
  written-kept :
      (m : Memory) (at offset count p : ℕ)
      → within at count p ≡ false
      → written m at (read offset count).1 p ≡ m p
  written-kept m at offset count p out = ground (arith, bounded offset count)

  written-copied :
      IsHonest read file
      → (m : Memory) (at offset count i : ℕ) → (read offset count).0 ≡ true
      → i < count
      → written m at (read offset count).1 (at + i) ≡ file (offset + i)
  written-copied honest m at offset count i ok lt =
      ground (arith, honest.filled offset count ok, honest.returned offset count i ok lt)

  -- One chunk, then the rest.
  chain :
      (at from count chunk : ℕ) (m : Memory) (result : Bool × Memory)
      → chunk ≤ count
      → at + count < u64_mod
      → from + count < u64_mod
      → (read from chunk).0 ≡ true
      → Copies read file
          (add64 at chunk)
          (add64 from chunk)
          (count - chunk)
          (written m at (read from chunk).1)
          result
      → Copies read file at from count m result
  chain at from count chunk m result le fits whole ok rest = record {
    kept = λ p out. rest.kept p (ground arith) ∙ written-kept m at from chunk p (ground arith);
    copied = λ honest i done lt. elim (Bool-cases (ltb i chunk)) [
      | inl early ↦
          rest.kept (at + i) (ground (arith, early))
          ∙ written-copied honest m at from chunk i ok (ground (arith, early))
      | inr late ↦ later honest i done lt (ground (arith, late))
    ];
  }
    where
      later :
          IsHonest read file
          → (i : ℕ) → result.0 ≡ true
          → i < count
          → chunk ≤ i
          → result.1 (at + i) ≡ file (from + i)
      later honest i done lt ge =
          ap result.1 (ground arith)
          ∙ rest.copied honest (i - chunk) done (omega arith)
          ∙ ap file (ground arith)

  copy_chunks-more :
      (fuel at from count : ℕ) (m : Memory)
      → count ≢ 0
      → (read from (copy_chunk count)).0 ≡ true
      → copy_chunks read (suc fuel) at from count m
        ≡ copy_chunks read fuel
            (add64 at (copy_chunk count))
            (add64 from (copy_chunk count))
            (count - copy_chunk count)
            (written m at (read from (copy_chunk count)).1)
  unfolding copy_chunks
  copy_chunks-more fuel at from count m more ok = ground (arith, ok)

  copy_chunks-failed :
      (fuel at from count : ℕ) (m : Memory)
      → count ≢ 0
      → (read from (copy_chunk count)).0 ≡ false
      → copy_chunks read (suc fuel) at from count m
        ≡ (false, written m at (read from (copy_chunk count)).1)
  unfolding copy_chunks
  copy_chunks-failed fuel at from count m more failed = ground (arith, failed)

  copy_chunks-done : (fuel at from : ℕ) (m : Memory) → copy_chunks read fuel at from 0 m ≡ (true, m)
  unfolding copy_chunks
  copy_chunks-done zero at from m = refl
  copy_chunks-done (suc fuel) at from m = refl

  nothing-Copies : (at from : ℕ) (m : Memory) → Copies read file at from 0 m (true, m)
  nothing-Copies at from m = record {
    kept = λ p out. refl;
    copied = λ honest i ok lt. absurd (omega arith);
  }

  failed-Copies :
      (at from count chunk : ℕ) (m : Memory)
      → chunk ≤ count
      → Copies read file at from count m (false, written m at (read from chunk).1)
  failed-Copies at from count chunk m le = record {
    kept = λ p out. written-kept m at from chunk p (ground arith);
    copied = λ honest i ok lt. cc;
  }

  copy_chunks-Copies :
      (fuel at from count : ℕ) (m : Memory)
      → count ≤ fuel
      → at + count < u64_mod
      → from + count < u64_mod
      → Copies read file at from count m (copy_chunks read fuel at from count m)
  copy_chunks-Copies zero at from zero m le fits whole =
      subst (Copies read file at from 0 m) (sym (copy_chunks-done 0 at from m))
        (nothing-Copies at from m)
  copy_chunks-Copies zero at from (suc count) m le fits whole = absurd (omega arith)
  copy_chunks-Copies (suc fuel) at from zero m le fits whole =
      subst (Copies read file at from 0 m) (sym (copy_chunks-done (suc fuel) at from m))
        (nothing-Copies at from m)
  copy_chunks-Copies (suc fuel) at from (suc rest) m le fits whole =
      let count = suc rest in
      let chunk = copy_chunk count in
      elim (Bool-cases (read from chunk).0) [
        | inl ok ↦
            subst (Copies read file at from count m)
              (sym (copy_chunks-more fuel at from count m (omega arith) ok))
              (chain at from count chunk m _ (ground arith) fits whole ok (
                copy_chunks-Copies fuel (add64 at chunk) (add64 from chunk) (count - chunk)
                  (written m at (read from chunk).1) (ground arith) (ground arith) (ground arith)))
        | inr failed ↦
            subst (Copies read file at from count m)
              (sym (copy_chunks-failed fuel at from count m (omega arith) failed))
              (failed-Copies at from count chunk m (ground arith))
      ]

-- The bytes of a segment: those of the file, then zeros.
abbrev pub content : (ℕ → ℕ) → Segment → ℕ → ℕ
content file s i = if ltb i s.file_bytes then file (s.file_offset + i) else 0

-- The segment, placed at `at`.
pub record Places (read : ReadFn) (file : ℕ → ℕ) (s : Segment) (at : ℕ) (before : Memory)
    (result : Bool × Memory) : Type 0 where
  pub kept : (p : ℕ) → within at s.memory_bytes p ≡ false → result.1 p ≡ before p
  pub placed :
      IsHonest read file
      → (i : ℕ) → result.0 ≡ true
      → i < s.memory_bytes
      → result.1 (at + i) ≡ content file s i

module _ (read : ReadFn) (file : ℕ → ℕ) (s : Segment) (at : ℕ) (seg : IsSegment s)
    (fits : at + s.memory_bytes < u64_mod) where
  zeroed-Places :
      (m copied : Memory)
      → Copies read file at s.file_offset s.file_bytes m (true, copied)
      → Places read file s at m
          (true, zero_range (add64 at s.file_bytes) (sub64 s.memory_bytes s.file_bytes) copied)
  zeroed-Places m copied c = record {
    kept = λ p out. zeros p ∙ ground (arith, out, seg.backed, c.kept p);
    placed = λ honest i ok lt. zeros (at + i) ∙ (elim (Bool-cases (ltb i s.file_bytes)) [
      | inl early ↦ ground (arith, early, seg.backed, c.copied honest i refl)
      | inr late ↦ ground (arith, late, seg.backed, lt)
    ]);
  }
    where
      zeros :
          (p : ℕ)
          → zero_range (add64 at s.file_bytes) (sub64 s.memory_bytes s.file_bytes) copied p
            ≡ (if within (at + s.file_bytes) (s.memory_bytes - s.file_bytes) p then 0 else copied p)
      zeros p =
          zero_range_lem (add64 at s.file_bytes) (sub64 s.memory_bytes s.file_bytes) copied p
            (ground (arith, seg.backed))
          ∙ ground (arith, seg.backed)

  pub copy_segment-Places :
      IsBounded read → (m : Memory) → Places read file s at m (copy_segment read s at m)
  unfolding copy_segment
  copy_segment-Places bounded m =
      of_copy (copy_chunks read s.file_bytes at s.file_offset s.file_bytes m) (
        copy_chunks-Copies read file bounded s.file_bytes at s.file_offset s.file_bytes m
          (omega arith) (omega (arith, seg.backed)) seg.file)
    where
      of_copy :
          (r : Bool × Memory)
          → Copies read file at s.file_offset s.file_bytes m r
          → Places read file s at m (
              if not r.0 then (false, r.1) else (
                true,
                zero_range (add64 at s.file_bytes) (sub64 s.memory_bytes s.file_bytes) r.1,
              ))
      of_copy (true, copied) c = zeroed-Places m copied c
      of_copy (false, copied) c = record {
        kept = λ p out. c.kept p (ground (arith, seg.backed));
        placed = λ honest i ok lt. cc;
      }
