-- ===== src/Memory/Paging/Pages.antt =====
-- The pages that `paging_map` chooses, and that its loop comes to an end.
use tunix_boot.Prelude.{
  ℕ, zero, suc, ◌+◌, ◌-◌, ◌*◌, ◌%◌, ◌≤◌, ◌<◌, ◌≡◌, ◌≢◌, inl, inr, refl, sym, ap, ◌∙◌, Bool, true,
  false, ◌&&◌, arith, leb, ◌==◌, Bool-cases,
}
use tunix_boot.Prelude.Word.{u64_mod, add64, sub64}
use tunix_boot.Memory.Paging.{
  PageTables, page_bytes, page_large_bytes, page_huge_bytes, page_size_for, level_for, level_span,
  map_one, map_pages,
}

-- A page that may be mapped there: aligned on both sides, no larger than what remains, and of the size
-- that a leaf of its level spans; whole pages remain after it.
pub record IsPage (huge_pages : Bool) (virtual physical remaining size : ℕ) : Type 0 where
  pub fits : size ≤ remaining
  pub virtual_aligned : virtual % size ≡ 0
  pub physical_aligned : physical % size ≡ 0
  pub span : level_span (level_for size) ≡ size
  pub whole : (remaining - size) % page_bytes ≡ 0
  pub progress : page_bytes ≤ size

-- For a range that is not empty and in which both addresses and the length are multiples of 4096,
-- `page_size_for` chooses a page that may be mapped there, and whose level spans just its size.
pub page_size_for-IsPage :
    (huge_pages : Bool) (virtual physical remaining : ℕ)
    → remaining ≢ 0
    → virtual % page_bytes ≡ 0
    → physical % page_bytes ≡ 0
    → remaining % page_bytes ≡ 0
    → IsPage huge_pages virtual physical remaining
        (page_size_for huge_pages virtual physical remaining)
unfolding page_size_for level_for level_span
page_size_for-IsPage huge_pages virtual physical remaining nz va pa ra =
    elim (Bool-cases (
      huge_pages
      && leb page_huge_bytes remaining
      && (virtual % page_huge_bytes == 0)
      && (physical % page_huge_bytes == 0))) [
        | inl huge ↦ rw huge (record {
          fits = ground (arith, huge);
          virtual_aligned = ground (arith, huge);
          physical_aligned = ground (arith, huge);
          span = refl;
          whole = ground (arith, huge);
          progress = omega arith;
        })
        | inr small ↦
            rw small
              (elim (Bool-cases (
                leb page_large_bytes remaining
                && (virtual % page_large_bytes == 0)
                && (physical % page_large_bytes == 0))) [
                  | inl large ↦ rw large (record {
                    fits = ground (arith, large);
                    virtual_aligned = ground (arith, large);
                    physical_aligned = ground (arith, large);
                    span = refl;
                    whole = ground (arith, large);
                    progress = omega arith;
                  })
                  | inr least ↦ rw least (record {
                    fits = omega arith;
                    virtual_aligned = va;
                    physical_aligned = pa;
                    span = refl;
                    whole = omega arith;
                    progress = omega arith;
                  })
                ])
      ]

-- The chosen size alone, whatever the addresses are.
page_size_for-bounds :
    (huge_pages : Bool) (virtual physical remaining : ℕ)
    → remaining ≢ 0
    → remaining % page_bytes ≡ 0
    → (page_bytes ≤ page_size_for huge_pages virtual physical remaining)
      × (page_size_for huge_pages virtual physical remaining % page_bytes ≡ 0)
      × (page_size_for huge_pages virtual physical remaining ≤ remaining)
unfolding page_size_for
page_size_for-bounds huge_pages virtual physical remaining nz ra = ground arith

-- What the loop does after a page, with `fuel` rounds to go.
abbrev following : ℕ → ℕ → ℕ → ℕ → ℕ → Bool × PageTables → Bool × PageTables
following fuel virtual physical remaining flags (false, tables) = (false, tables)
following fuel virtual physical remaining flags (true, tables) =
    map_pages fuel virtual physical remaining flags tables

map_pages-done :
    (fuel virtual physical flags : ℕ) (tables : PageTables)
    → map_pages fuel virtual physical 0 flags tables ≡ (true, tables)
unfolding map_pages
map_pages-done zero virtual physical flags tables = refl
map_pages-done (suc fuel) virtual physical flags tables = refl

module _ (virtual physical remaining flags : ℕ) (tables : PageTables) where
  abbrev size : ℕ
  size = page_size_for tables.huge_pages virtual physical remaining

  map_pages-more :
      (fuel rounds : ℕ)
      → rounds ≡ suc fuel
      → remaining ≢ 0
      → map_pages rounds virtual physical remaining flags tables
        ≡ following fuel
            (add64 virtual size)
            (add64 physical size)
            (sub64 remaining size)
            flags
            (map_one tables virtual physical size flags)
  unfolding map_pages
  map_pages-more fuel zero e nz = absurd (omega arith)
  map_pages-more fuel (suc rounds) e nz =
      let same : rounds ≡ fuel = omega arith in
      of_page (map_one tables virtual physical size flags) refl
      ∙ ap
          (λ k.
            following k (add64 virtual size) (add64 physical size) (sub64 remaining size) flags
              (map_one tables virtual physical size flags))
          same
    where
      of_page :
          (p : Bool × PageTables)
          → map_one tables virtual physical size flags ≡ p
          → map_pages (suc rounds) virtual physical remaining flags tables
            ≡ following rounds
                (add64 virtual size)
                (add64 physical size)
                (sub64 remaining size)
                flags
                (map_one tables virtual physical size flags)
      of_page (true, made) same = ground (arith, same)
      of_page (false, made) same = ground (arith, same)

-- The loop of `paging_map` ends: for a length of 64 bits that is a multiple of 4096, more rounds
-- than there are pages of 4096 bytes give the same result, though what remains is a word that would
-- wrap if a page were larger.
pub map_pages_enough :
    (fuel more virtual physical remaining flags : ℕ) (tables : PageTables)
    → remaining < u64_mod
    → remaining % page_bytes ≡ 0
    → remaining ≤ fuel * page_bytes
    → map_pages (fuel + more) virtual physical remaining flags tables
      ≡ map_pages fuel virtual physical remaining flags tables
map_pages_enough fuel more virtual physical zero flags tables small whole enough =
    map_pages-done (fuel + more) virtual physical flags tables
    ∙ sym (map_pages-done fuel virtual physical flags tables)
map_pages_enough zero more virtual physical (suc rest) flags tables small whole enough =
    absurd (omega arith)
map_pages_enough (suc fuel) more virtual physical (suc rest) flags tables small whole enough =
    let remaining : ℕ = suc rest in
    let chosen = page_size_for tables.huge_pages virtual physical remaining in
    let (progress, multiple, fits) =
      page_size_for-bounds tables.huge_pages virtual physical remaining (omega arith) whole in
    let left : sub64 remaining chosen ≡ remaining - chosen = omega (arith, small, fits) in
    map_pages-more virtual physical remaining flags tables (fuel + more) (suc fuel + more)
      (omega arith) (omega arith)
    ∙ same_following (add64 virtual chosen) (add64 physical chosen) (sub64 remaining chosen)
        (λ made.
          map_pages_enough fuel more (add64 virtual chosen) (add64 physical chosen)
            (sub64 remaining chosen) flags made (omega (arith, left, small))
            (omega (arith, left, whole, multiple, fits)) (omega (arith, left, enough, progress)))
        (map_one tables virtual physical chosen flags)
    ∙ sym
        (map_pages-more virtual physical remaining flags tables fuel (suc fuel) refl (omega arith))
  where
    same_following :
        (v p r : ℕ)
        → ((made : PageTables)
            → map_pages (fuel + more) v p r flags made ≡ map_pages fuel v p r flags made)
        → (o : Bool × PageTables)
        → following (fuel + more) v p r flags o ≡ following fuel v p r flags o
    same_following v p r later (true, made) = later made
    same_following v p r later (false, made) = refl
