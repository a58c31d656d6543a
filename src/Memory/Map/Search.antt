-- ===== src/Memory/Map/Search.antt =====
-- `memory_map_find_free` and `memory_map_find_free_high`: the run that they return is aligned, lies in
-- one usable region, and is the lowest (the highest) such run.
use native.Mathlib.Decide.{dec_le}
use tunix_boot.Prelude.{
  ℕ, ◌+◌, ◌%◌, ◌≤◌, ◌<◌, ◌≡◌, ◌≢◌, ◌⊎◌, inl, inr, sym, true, false, Option, none, some, List, [],
  ◌∷◌, arith, ltb, if◌then◌else◌, All, Bool-cases, Option-cases,
}
use tunix_boot.Prelude.Word.{u64_mod}
use tunix_boot.Util.Checked.{checked_add, checked_align_up, bad_alignment}
use tunix_boot.Util.Checked.Align.{
  IsAlignedUp, checked_align_up-IsAlignedUp, checked_align_up-none_iff, bad_alignment-pos,
  multiples_apart, u64_mod-aligned,
}
use tunix_boot.Memory.Map.{
  usable, MemoryRegion, MemoryMap, same_kind, region_end, fit_low, find_free_in, find_free, find_in,
  find, finalize,
}
use tunix_boot.Memory.Map.Coverage.{IsRegion, IsWellFormed, strongest}
use tunix_boot.Memory.Map.Finalize.{Ascends, kind_in, IsFinal, finalize-IsFinal}
use tunix_boot.Memory.Map.Sweep.{same_kind→eq}
use mathlib.Core.Path.{subst}

-- The run of `size` bytes at `t` is aligned, not below `minimum`, and inside the usable region `r`.
pub record IsRun (size alignment minimum : ℕ) (r : MemoryRegion) (t : ℕ) : Type 0 where
  pub kind : same_kind r.kind usable ≡ true
  pub aligned : t % alignment ≡ 0
  pub above : minimum ≤ t
  pub low : r.base ≤ t
  pub high : t + size ≤ r.base + r.length

abbrev higher : ℕ → ℕ → ℕ
higher base minimum = if ltb minimum base then base else minimum

tail_Ascends : (r : MemoryRegion) (rs : List MemoryRegion) → Ascends (r ∷ rs) → Ascends rs
tail_Ascends r [] a = tt
tail_Ascends r (q ∷ rs) a = a.2

module _ (size alignment minimum : ℕ) (ok : bad_alignment alignment ≡ false)
    (small : alignment < u64_mod) where
  fit_low-IsRun :
      (r : MemoryRegion) {s : ℕ}
      → IsRegion r
      → fit_low r size alignment minimum ≡ some s
      → IsRun size alignment minimum r s
  unfolding fit_low checked_add
  fit_low-IsRun r {s} w e =
      elim (Option-cases (checked_align_up (higher r.base minimum) alignment)) [
        | inl p ↦ ground (arith, p)
        | inr (v, p) ↦
            let u : IsAlignedUp (higher r.base minimum) alignment v =
              checked_align_up-IsAlignedUp _ alignment small p in
            ground (arith, p, u.multiple, u.reaches)
      ]

  -- The least aligned address does not wrap when some aligned address lies at or above it.
  align_total :
      (v t : ℕ)
      → v ≤ t
      → t < u64_mod
      → t % alignment ≡ 0
      → (s : ℕ) × (checked_align_up v alignment ≡ some s) × (s ≤ t)
  align_total v t le lt m = elim (Option-cases (checked_align_up v alignment)) [
    | inl p ↦ absurd (elim ((checked_align_up-none_iff v alignment).0 p) [
      | inl b ↦ cc
      | inr b ↦ omega (
        arith,
        multiples_apart alignment u64_mod t (bad_alignment-pos alignment ok)
            (u64_mod-aligned alignment ok small) m lt,
      )
    ])
    | inr (s, p) ↦
        let u : IsAlignedUp v alignment s = checked_align_up-IsAlignedUp v alignment small p in
        (
          s,
          p,
          elim (dec_le s t) [
            | yes q ↦ q
            | no q ↦ absurd (
                omega (
                  arith,
                  u.least,
                  multiples_apart alignment s t (bad_alignment-pos alignment ok) u.multiple m
                      (omega arith),
                ))
          ],
        )
  ]

  fit_low-least :
      (r : MemoryRegion) (t : ℕ)
      → IsRegion r
      → IsRun size alignment minimum r t
      → (s : ℕ) × (fit_low r size alignment minimum ≡ some s) × (s ≤ t)
  unfolding fit_low checked_add
  fit_low-least r t w run =
      let (s, p, le) =
        align_total (higher r.base minimum) t (ground arith) (omega arith) run.aligned in
      let u : IsAlignedUp (higher r.base minimum) alignment s =
        checked_align_up-IsAlignedUp _ alignment small p in
      (s, ground (arith, p, u.reaches), le)

  -- Some region of the list has the run.
  abbrev pub HasRun : List MemoryRegion → ℕ → Type 0
  HasRun [] t = ⊥
  HasRun (r ∷ rs) t = IsRun size alignment minimum r t ⊎ HasRun rs t

  find_free_in-HasRun :
      (rs : List MemoryRegion) {s : ℕ}
      → All IsRegion rs
      → find_free_in rs size alignment minimum ≡ some s
      → HasRun rs s
  unfolding find_free_in
  find_free_in-HasRun [] w e = cc
  find_free_in-HasRun (r ∷ rs) {s} w e = elim (Option-cases (fit_low r size alignment minimum)) [
    | inl p ↦ inr (find_free_in-HasRun rs w.1 (ground (arith, p)))
    | inr (v, p) ↦ inl (fit_low-IsRun r w.0 (ground (arith, p)))
  ]

  later_run :
      (r : MemoryRegion) (rs : List MemoryRegion) (t : ℕ)
      → All IsRegion (r ∷ rs)
      → Ascends (r ∷ rs)
      → HasRun rs t
      → region_end r ≤ t
  later_run r (q ∷ rs) t w a (inl run) = omega (arith, run.low, a.0)
  later_run r (q ∷ rs) t w a (inr h) = omega (arith, later_run q rs t w.1 a.2 h, w.1.0, a.0)
  later_run r [] t w a h = absurd h

  find_free_in-least :
      (rs : List MemoryRegion) (t : ℕ)
      → All IsRegion rs
      → Ascends rs
      → HasRun rs t
      → (s : ℕ) × (find_free_in rs size alignment minimum ≡ some s) × (s ≤ t)
  unfolding find_free_in
  find_free_in-least [] t w a h = absurd h
  find_free_in-least (r ∷ rs) t w a (inl run) =
      let (s, p, le) = fit_low-least r t w.0 run in (s, ground (arith, p), le)
  find_free_in-least (r ∷ rs) t w a (inr h) =
      elim (Option-cases (fit_low r size alignment minimum)) [
        | inl p ↦
            let (s, q, le) = find_free_in-least rs t w.1 (tail_Ascends r rs a) h in
            (s, ground (arith, p, q), le)
        | inr (v, p) ↦
            let run : IsRun size alignment minimum r v = fit_low-IsRun r w.0 p in
            (v, ground (arith, p), omega (arith, run.high, later_run r rs t w a h, w.0))
      ]

  -- `memory_map_find_free` on a well-formed ascending map: a result is the lowest aligned run at or
  -- above `minimum` in a usable region, and it fails exactly when there is none.
  pub record FindsLowest (rs : List MemoryRegion) (out : Option ℕ) : Type 0 where
    pub run : (s : ℕ) → out ≡ some s → HasRun rs s
    pub lowest : (s t : ℕ) → out ≡ some s → HasRun rs t → s ≤ t
    pub complete : out ≡ none → (t : ℕ) → ¬ HasRun rs t

  -- On a well-formed ascending map, for a size that is not 0 and an alignment that is a power of two,
  -- `memory_map_find_free` returns the lowest aligned run at or above `minimum` in a usable region,
  -- and fails exactly when there is none.
  pub find_free-FindsLowest :
      (m : MemoryMap)
      → size ≢ 0
      → IsWellFormed m
      → Ascends m.regions
      → FindsLowest m.regions (find_free m size alignment minimum)
  unfolding find_free
  find_free-FindsLowest m nz w a = subst (FindsLowest m.regions) (sym same) (record {
    run = λ s e. find_free_in-HasRun m.regions w.regions e;
    lowest = λ s t e h.
        let (v, p, le) = find_free_in-least m.regions t w.regions a h in ground (arith, e, p);
    complete = λ e t h. let (v, p, le) = find_free_in-least m.regions t w.regions a h in cc (e, p);
  })
    where
      same : find_free m size alignment minimum ≡ find_free_in m.regions size alignment minimum
      same = ground (arith, ok)

  -- Every byte of such a run is reported as usable by `memory_map_find`.
  pub HasRun-usable :
      (rs : List MemoryRegion) (s a : ℕ)
      → All IsRegion rs
      → Ascends rs
      → HasRun rs s
      → s ≤ a
      → a < s + size
      → kind_in rs a ≡ some usable
  unfolding find_in
  HasRun-usable [] s a w asc h le lt = absurd h
  HasRun-usable (r ∷ rs) s a w asc (inl run) le lt =
      ground (arith, run.low, run.high, w.0, same_kind→eq r.kind usable run.kind)
  HasRun-usable (r ∷ rs) s a w asc (inr h) le lt =
      ground
        (arith, later_run r rs s w asc h, HasRun-usable rs s a w.1 (tail_Ascends r rs asc) h le lt)

-- For every byte of the run that `memory_map_find_free` takes from a finalized map, the strongest
-- claim of the well-formed map is usable memory. The alignment has 64 bits.
pub find_free-usable :
    (m : MemoryMap) (size alignment minimum s a : ℕ)
    → alignment < u64_mod
    → IsWellFormed m
    → find_free (finalize m) size alignment minimum ≡ some s
    → s ≤ a
    → a < s + size
    → strongest m.regions a ≡ some usable
unfolding find_free find
find_free-usable m size alignment minimum s a small w e le lt =
    elim (Bool-cases (bad_alignment alignment)) [
      | inl bad_one ↦ ground (arith, bad_one)
      | inr ok ↦
          let f : IsFinal m (finalize m) = finalize-IsFinal m w in
          let h : HasRun size alignment minimum ok small (finalize m).regions s =
            find_free_in-HasRun size alignment minimum ok small (finalize m).regions
              f.formed.regions (ground (arith, ok)) in
          f.sound a usable (
            HasRun-usable size alignment minimum ok small (finalize m).regions s a f.formed.regions
              f.order h le lt)
    ]
