-- ===== src/Memory/Arena/Blocks.antt =====
-- A client's calls in sequence: the blocks do not overlap, and a mark undoes what came after it.
use tunix_boot.Prelude.{
  ℕ, ◌+◌, ◌≤◌, ◌<◌, ◌≡◌, refl, ◌∙◌, Option, none, some, List, [], ◌∷◌, arith, All,
}
use tunix_boot.Prelude.Word.{u64_mod}
use tunix_boot.Memory.Arena.{Arena, allocate_aligned, mark, release}
use tunix_boot.Memory.Arena.Bounds.{IsValid, Allocates, allocate_aligned-Allocates}

pub record Request : Type 0 where
  pub size : ℕ
  pub alignment : ℕ

pub record Block : Type 0 where
  pub address : ℕ
  pub size : ℕ

-- Serves the requests in order and lists the blocks that were handed out.
abbrev pub serve : Arena → List Request → List Block × Arena
serve a [] = ([], a)
serve a (q ∷ qs) =
    let (block, a') = allocate_aligned a q.size q.alignment in
    let (blocks, a'') = serve a' qs in
    (elim block [ none ↦ blocks | some at ↦ record { address = at; size = q.size } ∷ blocks ], a'')

-- The blocks lie one after the other between two addresses.
abbrev pub Stacked : ℕ → List Block → ℕ → Type 0
Stacked low [] high = low ≤ high
Stacked low (b ∷ bs) high = (low ≤ b.address) × Stacked (b.address + b.size) bs high

Stacked-weaken :
    (low low' high : ℕ) (bs : List Block) → low ≤ low' → Stacked low' bs high → Stacked low bs high
Stacked-weaken low low' high [] le s = omega arith
Stacked-weaken low low' high (b ∷ bs) le s = (omega arith, s.1)

pub record Serves (a : Arena) (out : List Block × Arena) : Type 0 where
  pub stacked : Stacked (a.base + a.used) out.0 (out.1.base + out.1.used)
  pub valid : IsValid out.1
  pub grows : (out.1.base ≡ a.base) × (out.1.capacity ≡ a.capacity) × (a.used ≤ out.1.used)

-- Whatever is asked for, the blocks handed out are disjoint, inside the arena, and the arena stays
-- valid.
pub serve-Serves :
    (a : Arena) (qs : List Request)
    → All (λ q. q.alignment < u64_mod) qs
    → IsValid a
    → Serves a (serve a qs)
serve-Serves a [] h v = record {
  stacked = omega arith;
  valid = v;
  grows = (refl, refl, omega arith);
}
serve-Serves a (q ∷ qs) h v =
    let s : Allocates a q.size q.alignment (allocate_aligned a q.size q.alignment) =
      allocate_aligned-Allocates a q.size q.alignment h.0 v in
    next (allocate_aligned a q.size q.alignment) s
      (serve-Serves (allocate_aligned a q.size q.alignment).1 qs h.1 s.valid)
  where
    next :
        (out : Option ℕ × Arena)
        → Allocates a q.size q.alignment out
        → Serves out.1 (serve out.1 qs)
        → Serves a (
          elim out.0 [
            | none ↦ (serve out.1 qs).0
            | some at ↦ record { address = at; size = q.size } ∷ (serve out.1 qs).0
          ],
          (serve out.1 qs).1,
        )
    next (none, a') s r = record {
      stacked = Stacked-weaken _ _ _ (serve a' qs).0 (omega (arith, s.kept)) r.stacked;
      valid = r.valid;
      grows = (r.grows.0 ∙ s.kept.0, r.grows.1 ∙ s.kept.1, omega (arith, s.kept, r.grows));
    }
    next (some at, a') s r =
        let (m, low, high) = s.placed at refl in
        record {
          stacked = (low, Stacked-weaken _ _ _ (serve a' qs).0 (omega (arith, high)) r.stacked);
          valid = r.valid;
          grows = (r.grows.0 ∙ s.kept.0, r.grows.1 ∙ s.kept.1, omega (arith, s.kept, r.grows));
        }

-- Releasing a mark after any requests gives the arena back as it was when the mark was taken.
pub release-mark :
    (a : Arena) (qs : List Request)
    → All (λ q. q.alignment < u64_mod) qs
    → IsValid a
    → release (serve a qs).1 (mark a) ≡ a
unfolding release mark
release-mark a qs h v =
    let r : Serves a (serve a qs) = serve-Serves a qs h v in ground (arith, r.grows)
