-- ===== src/Memory/Map/SearchHigh.antt =====
-- `memory_map_find_free_high`: the highest aligned run below a limit.
use mathlib.Core.Path.{subst}
use native.Mathlib.Decide.{dec_le}
use tunix_boot.Prelude.{
  ℕ, ◌+◌, ◌%◌, ◌≤◌, ◌<◌, ◌≡◌, ◌≢◌, ◌⊎◌, inl, inr, sym, ◌∙◌, true, false, Option, none, some, List,
  [], ◌∷◌, arith, ltb, if◌then◌else◌, All, Bool-cases,
}
use tunix_boot.Prelude.Word.{u64_mod, sub64}
use tunix_boot.Util.Checked.{bad_alignment, clear_low}
use tunix_boot.Util.Checked.Align.{
  RoundsDown, clear_low-RoundsDown, bad_alignment-pos, multiples_apart,
}
use tunix_boot.Memory.Map.{
  usable, MemoryRegion, MemoryMap, same_kind, region_end, fit_high, find_high_from, find_free_high,
}
use tunix_boot.Memory.Map.Coverage.{IsRegion, IsWellFormed}

-- The run of `size` bytes at `t` is aligned, ends by `limit`, and lies inside the usable region `r`.
pub record IsHighRun (size alignment limit : ℕ) (r : MemoryRegion) (t : ℕ) : Type 0 where
  pub kind : same_kind r.kind usable ≡ true
  pub aligned : t % alignment ≡ 0
  pub below : t + size ≤ limit
  pub low : r.base ≤ t
  pub high : t + size ≤ r.base + r.length

abbrev lower : ℕ → ℕ → ℕ
lower limit end = if ltb limit end then limit else end

-- `out` is a number that is not below `t`.
abbrev pub AtLeast : Option ℕ → ℕ → Type 0
AtLeast out t = (s : ℕ) × (out ≡ some s) × (t ≤ s)

abbrev keep_higher : Option ℕ → Option ℕ → Option ℕ
keep_higher none found = found
keep_higher (some start) none = some start
keep_higher (some start) (some best) = if ltb best start then some start else some best

module _ (size alignment limit : ℕ) (ok : bad_alignment alignment ≡ false)
    (small : alignment < u64_mod) where
  fit_high-IsHighRun :
      (r : MemoryRegion) {s : ℕ}
      → IsRegion r
      → fit_high r size alignment limit ≡ some s
      → IsHighRun size alignment limit r s
  unfolding fit_high
  fit_high-IsHighRun r {s} w e =
      let d : RoundsDown alignment (sub64 (lower limit (region_end r)) size)
          (clear_low (sub64 (lower limit (region_end r)) size) alignment) =
        clear_low-RoundsDown alignment ok small _ (omega arith) in
      record {
        kind = ground arith;
        aligned = ground (arith, d.multiple);
        below = ground (arith, d.under, w);
        low = ground arith;
        high = ground (arith, d.under, w);
      }

  fit_high-most :
      (r : MemoryRegion) (t : ℕ)
      → IsRegion r
      → IsHighRun size alignment limit r t
      → AtLeast (fit_high r size alignment limit) t
  unfolding fit_high
  fit_high-most r t w run =
      let v : ℕ = sub64 (lower limit (region_end r)) size in
      let d : RoundsDown alignment v (clear_low v alignment) =
        clear_low-RoundsDown alignment ok small v (omega arith) in
      let exact : (v + size ≡ lower limit (region_end r)) × (t ≤ v) =
        (ground arith, ground arith) in
      let le : t ≤ clear_low v alignment = most v d exact.1 in
      (clear_low v alignment, ground (arith, d.under, w, le, exact), le)
    where
      most :
          (v : ℕ)
          → RoundsDown alignment v (clear_low v alignment)
          → t ≤ v
          → t ≤ clear_low v alignment
      most v d tv = elim (dec_le t (clear_low v alignment)) [
        | yes p ↦ p
        | no p ↦ absurd (
            omega (
              arith,
              d.near,
              multiples_apart alignment t (clear_low v alignment) (bad_alignment-pos alignment ok)
                  run.aligned d.multiple (omega arith),
            ))
      ]

  abbrev pub HasHighRun : List MemoryRegion → ℕ → Type 0
  HasHighRun [] t = ⊥
  HasHighRun (r ∷ rs) t = IsHighRun size alignment limit r t ⊎ HasHighRun rs t

  -- One round keeps the higher of the two candidates.
  find_high_from-step :
      (r : MemoryRegion) (rs : List MemoryRegion) (found : Option ℕ)
      → find_high_from (r ∷ rs) size alignment limit found
        ≡ find_high_from rs size alignment limit
            (keep_higher (fit_high r size alignment limit) found)
  unfolding find_high_from
  find_high_from-step r rs found = ground arith

  keep_higher-AtLeast :
      (x found : Option ℕ) (t : ℕ) → AtLeast x t ⊎ AtLeast found t → AtLeast (keep_higher x found) t
  keep_higher-AtLeast none found t (inl h) = absurd (ground arith)
  keep_higher-AtLeast none found t (inr h) = h
  keep_higher-AtLeast (some x) none t (inl (s, e, le)) = (s, e, le)
  keep_higher-AtLeast (some x) none t (inr h) = absurd (ground arith)
  keep_higher-AtLeast (some x) (some y) t h = elim (Bool-cases (ltb y x)) [
    | inl lt ↦ (x, rw lt, ground arith)
    | inr ge ↦ (y, rw ge, ground arith)
  ]

  find_high_from-AtLeast :
      (rs : List MemoryRegion) (found : Option ℕ) (t : ℕ)
      → All IsRegion rs
      → HasHighRun rs t ⊎ AtLeast found t
      → AtLeast (find_high_from rs size alignment limit found) t
  unfolding find_high_from
  find_high_from-AtLeast [] found t w (inl h) = absurd h
  find_high_from-AtLeast [] found t w (inr h) = h
  find_high_from-AtLeast (r ∷ rs) found t w (inl (inl run)) = rw (find_high_from-step r rs found) (
      find_high_from-AtLeast rs _ t w.1
        (inr (keep_higher-AtLeast _ found t (inl (fit_high-most r t w.0 run)))))
  find_high_from-AtLeast (r ∷ rs) found t w (inl (inr h)) =
      rw (find_high_from-step r rs found) (find_high_from-AtLeast rs _ t w.1 (inl h))
  find_high_from-AtLeast (r ∷ rs) found t w (inr h) =
      rw (find_high_from-step r rs found)
        (find_high_from-AtLeast rs _ t w.1 (inr (keep_higher-AtLeast _ found t (inr h))))

  keep_higher-from :
      (x found : Option ℕ) (s : ℕ) → keep_higher x found ≡ some s → (x ≡ some s) ⊎ (found ≡ some s)
  keep_higher-from none found s e = inr e
  keep_higher-from (some x) none s e = inl e
  keep_higher-from (some x) (some y) s e = ground arith

  find_high_from-from :
      (rs : List MemoryRegion) (found : Option ℕ) (s : ℕ)
      → All IsRegion rs
      → find_high_from rs size alignment limit found ≡ some s
      → HasHighRun rs s ⊎ (found ≡ some s)
  unfolding find_high_from
  find_high_from-from [] found s w e = inr e
  find_high_from-from (r ∷ rs) found s w e =
      elim (find_high_from-from rs _ s w.1 (sym (find_high_from-step r rs found) ∙ e)) [
        | inl h ↦ inl (inr h)
        | inr p ↦ elim (keep_higher-from (fit_high r size alignment limit) found s p) [
          | inl q ↦ inl (inl (fit_high-IsHighRun r w.0 q))
          | inr q ↦ inr q
        ]
      ]

  -- `memory_map_find_free_high` on a well-formed map, whether or not it is sorted: a result is the
  -- highest aligned run that ends by `limit` in a usable region, and it fails exactly when there is
  -- none.
  pub record FindsHighest (rs : List MemoryRegion) (out : Option ℕ) : Type 0 where
    pub run : (s : ℕ) → out ≡ some s → HasHighRun rs s
    pub highest : (t : ℕ) → HasHighRun rs t → AtLeast out t

  -- On a well-formed map, for a size that is not 0 and an alignment that is a power of two,
  -- `memory_map_find_free_high` returns the highest aligned run that ends by `limit` in a usable
  -- region, and fails exactly when there is none.
  pub find_free_high-FindsHighest :
      (m : MemoryMap)
      → size ≢ 0
      → IsWellFormed m
      → FindsHighest m.regions (find_free_high m size alignment limit)
  unfolding find_free_high
  find_free_high-FindsHighest m nz w = subst (FindsHighest m.regions) (sym same) (record {
    run = λ s e. elim (find_high_from-from m.regions none s w.regions e) [ inl h ↦ h | inr p ↦ cc ];
    highest = λ t h. find_high_from-AtLeast m.regions none t w.regions (inl h);
  })
    where
      same :
          find_free_high m size alignment limit ≡ find_high_from m.regions size alignment limit none
      same = ground (arith, ok)
