-- ===== src/Elf/Layout.antt =====
-- What `elf_parse` accepts: a bounded number of disjoint segments inside one span.
use tunix_boot.Prelude.{
  ℕ, zero, suc, ◌+◌, ◌≤◌, ◌<◌, ◌≡◌, ◌≢◌, ◌⊎◌, inl, inr, true, false, not, Option, none, some, List,
  [], ◌∷◌, ◌++◌, arith, All, All-append, All-imp, length, length-append, ◌==◌, if◌then◌else◌,
  Bool-cases, Option-cases,
}
use tunix_boot.Prelude.Word.{u64_mod}
use tunix_boot.Util.Checked.{checked_add, checked_mul}
use mathlib.Core.Path.{subst}
use tunix_boot.Util.Reader
use tunix_boot.Elf.{
  ReadFn, Segment, Image, max_segments, segments_overlap, Header, ProgramHeader, wraps, good_load,
  program_fields, parse_program_header, any_overlap, with_segment, add_segment, take_header,
  parse_round, parse_headers, parse_header, unplaced, elf_parse,
}

-- No part of the segment wraps, in the file, in memory or in the kernel's addresses.
pub record IsSegment (s : Segment) : Type 0 where
  pub backed : s.file_bytes ≤ s.memory_bytes
  pub some_bytes : s.memory_bytes ≢ 0
  pub file : s.file_offset + s.file_bytes < u64_mod
  pub physical : s.physical_address + s.memory_bytes < u64_mod
  pub virtual : s.virtual_address + s.memory_bytes < u64_mod

abbrev pub Disjoint : Segment → Segment → Type 0
Disjoint s t =
    (s.physical_address + s.memory_bytes ≤ t.physical_address)
    ⊎ (t.physical_address + t.memory_bytes ≤ s.physical_address)

abbrev pub Apart : List Segment → Type 0
Apart [] = Unit
Apart (s ∷ ss) = All (λ t. Disjoint s t) ss × Apart ss

abbrev pub Inside : Image → Segment → Type 0
Inside image s =
    (image.lowest_address ≤ s.physical_address)
    × (s.physical_address + s.memory_bytes ≤ image.highest_address)

pub record IsLayout (image : Image) : Type 0 where
  pub segments : All IsSegment image.segments
  pub inside : All (Inside image) image.segments
  pub apart : Apart image.segments
  pub room : length image.segments ≤ max_segments

wraps-false : (a b : ℕ) → wraps a b ≡ false → a + b < u64_mod
unfolding checked_add
wraps-false a b h = ground arith

good_load-IsSegment : (p : ProgramHeader) → good_load p ≡ true → IsSegment p.segment
unfolding good_load
good_load-IsSegment p h = record {
  backed = ground arith;
  some_bytes = ground arith;
  file = wraps-false p.segment.file_offset p.segment.file_bytes (ground arith);
  physical = wraps-false p.segment.physical_address p.segment.memory_bytes (ground arith);
  virtual = wraps-false p.segment.virtual_address p.segment.memory_bytes (ground arith);
}

parse_program_header-IsSegment :
    (raw : List ℕ) (p : ProgramHeader)
    → parse_program_header raw ≡ some p
    → p.type ≡ 1
    → IsSegment p.segment
unfolding parse_program_header
parse_program_header-IsSegment raw p h load =
    of_fields (program_fields (Reader.init (some raw) 56)).0 h
  where
    of_fields :
        (o : Option ProgramHeader)
        → (elim o [
          | none ↦ none
          | some q ↦ if not (q.type == 1) then some q else if good_load q then some q else none
        ])
          ≡ some p
        → IsSegment p.segment
    of_fields none e = cc
    of_fields (some q) e = elim (Bool-cases (good_load q)) [
      | inl good ↦
          let same : q ≡ p = ground (arith, good, e, load) in
          subst (λ t. IsSegment t.segment) same (good_load-IsSegment q good)
      | inr bad ↦ absurd (ground (arith, bad, e, load))
    ]

segments_overlap-Disjoint : (s t : Segment) → segments_overlap s t ≡ false → Disjoint s t
unfolding segments_overlap checked_add
segments_overlap-Disjoint s t h = ground arith

any_overlap-Disjoint :
    (ss : List Segment) (t : Segment) → any_overlap ss t ≡ false → All (λ s. Disjoint s t) ss
unfolding any_overlap
any_overlap-Disjoint [] t h = tt
any_overlap-Disjoint (s ∷ ss) t h =
    (segments_overlap-Disjoint s t (ground arith), any_overlap-Disjoint ss t (ground arith))

Apart-append :
    (ss : List Segment) (t : Segment) → Apart ss → All (λ s. Disjoint s t) ss → Apart (ss ++ t ∷ [])
Apart-append [] t a h = (tt, tt)
Apart-append (s ∷ ss) t a h =
    (All-append (λ u. Disjoint s u) ss (t ∷ []) a.0 (h.0, tt), Apart-append ss t a.1 h.1)

widened-Inside : (out : Image) (s t : Segment) → Inside out t → Inside (with_segment out s) t
widened-Inside out s t h = ground arith

with_segment-IsLayout :
    (out : Image) (s : Segment)
    → IsLayout out
    → IsSegment s
    → length out.segments ≢ max_segments
    → any_overlap out.segments s ≡ false
    → IsLayout (with_segment out s)
with_segment-IsLayout out s l seg room free = record {
  segments = All-append IsSegment out.segments (s ∷ []) l.segments (seg, tt);
  inside =
      All-append (Inside out') out.segments (s ∷ [])
        (All-imp (Inside out) (Inside out') (widened-Inside out s) out.segments l.inside) (own, tt);
  apart = Apart-append out.segments s l.apart (any_overlap-Disjoint out.segments s free);
  room = omega (arith, l.room, room, length-append out.segments (s ∷ []));
}
  where
    out' : Image
    out' = with_segment out s

    own : Inside out' s
    own = ground (arith, seg.physical)

add_segment-IsLayout :
    (out : Image) (s : Segment) {out' : Image}
    → IsLayout out
    → IsSegment s
    → add_segment out s ≡ some out'
    → IsLayout out'
unfolding add_segment
add_segment-IsLayout out s l seg e = elim (Bool-cases (any_overlap out.segments s)) [
  | inl over ↦ absurd (ground (arith, over, e))
  | inr free ↦
      subst IsLayout (ground (arith, e, free))
        (with_segment-IsLayout out s l seg (ground (arith, e)) free)
]

take_header-IsLayout :
    (out : Image) (p : ProgramHeader) {out' : Image}
    → IsLayout out
    → (p.type ≡ 1 → IsSegment p.segment)
    → take_header out p ≡ some out'
    → IsLayout out'
unfolding take_header
take_header-IsLayout out p l seg e = elim (Bool-cases (p.type == 1)) [
  | inl load ↦
      add_segment-IsLayout out p.segment l (seg (ground (arith, load))) (ground (arith, load, e))
  | inr other ↦ subst IsLayout (ground (arith, other, e)) l
]

parse_round-IsLayout :
    (read : ReadFn) (program_offset index : ℕ) (out : Image) {out' : Image}
    → IsLayout out
    → parse_round read program_offset index out ≡ some out'
    → IsLayout out'
unfolding parse_round
parse_round-IsLayout read program_offset index out l e =
    elim (Option-cases (checked_mul index 56)) [
      | inl m ↦ absurd (ground (arith, m, e))
      | inr (scaled, m) ↦ elim (Option-cases (checked_add program_offset scaled)) [
        | inl a ↦ absurd (ground (arith, m, a, e))
        | inr (at, a) ↦ elim (Bool-cases (read at 56).0) [
          | inr failed ↦ absurd (ground (arith, m, a, failed, e))
          | inl ok ↦ elim (Option-cases (parse_program_header (read at 56).1)) [
            | inl bad ↦ absurd (ground (arith, m, a, ok, bad, e))
            | inr (p, q) ↦
                take_header-IsLayout out p l (parse_program_header-IsSegment (read at 56).1 p q)
                  (ground (arith, m, a, ok, q, e))
          ]
        ]
      ]
    ]

parse_headers-IsLayout :
    (read : ReadFn) (program_offset left index : ℕ) (out : Image) {out' : Image}
    → IsLayout out
    → parse_headers read program_offset left index out ≡ some out'
    → IsLayout out'
unfolding parse_headers
parse_headers-IsLayout read program_offset zero index out l e = subst IsLayout (ground (arith, e)) l
parse_headers-IsLayout read program_offset (suc left) index out l e =
    elim (Option-cases (parse_round read program_offset index out)) [
      | inl stopped ↦ absurd (ground (arith, stopped, e))
      | inr (out', step) ↦
          parse_headers-IsLayout read program_offset left (index + 1) out'
            (parse_round-IsLayout read program_offset index out l step) (ground (arith, step, e))
    ]

unplaced-IsLayout : (h : Header) → IsLayout (unplaced h)
unplaced-IsLayout h = record { segments = tt; inside = tt; apart = tt; room = omega arith }

-- When `elf_parse` succeeds, whatever the file says, the image has 1 to 16 segments. They are
-- disjoint, lie in the span from the lowest to the highest address, have no more bytes in the file
-- than in memory, and wrap neither in the file nor in memory.
pub elf_parse-IsLayout :
    (read : ReadFn) {image : Image}
    → elf_parse read ≡ some image
    → IsLayout image × (length image.segments ≢ 0)
unfolding elf_parse
elf_parse-IsLayout read {image} e = elim (Option-cases (parse_header read)) [
  | inl bad ↦ absurd (ground (arith, bad, e))
  | inr (h, good) ↦
      elim (Option-cases (parse_headers read h.program_offset h.count 0 (unplaced h))) [
        | inl refused ↦ absurd (ground (arith, good, refused, e))
        | inr (out, found) ↦
            let same : out ≡ image = ground (arith, good, found, e) in
            (
              subst IsLayout same (
                  parse_headers-IsLayout read h.program_offset h.count 0 (unplaced h)
                    (unplaced-IsLayout h) found),
              ground (arith, good, found, e),
            )
      ]
]
