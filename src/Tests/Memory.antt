-- ===== src/Tests/Memory.antt =====
-- src/memory on small inputs.
use tunix_boot.Prelude.{ℕ, ◌≤◌, ◌<◌, ◌≡◌, refl, false, some, List, [], ◌∷◌, arith}
use tunix_boot.Prelude.Word.{u64_mod}
use tunix_boot.Util.Checked.{checked_add, checked_align_up, bad_alignment, clear_low}
use tunix_boot.Memory.Map.{
  usable, reserved, MemoryRegion, MemoryMap, finalize, find_free, find_free_in, fit_low,
  find_free_high, rank,
}
use tunix_boot.Memory.Map.Coverage.{IsWellFormed, strongest}
use tunix_boot.Memory.Map.Finalize.{IsFinal, finalize-IsFinal, Ascends}
use tunix_boot.Memory.Map.Search.{FindsLowest, find_free-FindsLowest, find_free-usable}
use tunix_boot.Memory.Map.SearchHigh.{FindsHighest, find_free_high-FindsHighest}
use tunix_boot.Memory.Arena.{Arena, allocate_aligned, is_power_of_two, release, mark}
use tunix_boot.Memory.Arena.Bounds.{
  IsValid, Allocates, allocate_aligned-Allocates, allocate_aligned_complete,
}
use tunix_boot.Memory.Arena.Blocks.{Request, serve, Serves, serve-Serves, release-mark}

-- Usable memory with a reserved hole that overlaps it, listed out of order.
abbrev hole : MemoryRegion
hole = record { base = 0x3000; length = 0x1000; kind = reserved }

abbrev low : MemoryRegion
low = record { base = 0x1000; length = 0x4000; kind = usable }

abbrev claims : MemoryMap
claims = record { regions = hole ∷ low ∷ []; truncated = false }

claims-IsWellFormed : IsWellFormed claims
claims-IsWellFormed = record { regions = omega arith; room = omega arith }

abbrev resolved : MemoryMap
resolved = record {
  regions =
      record { base = 0x1000; length = 0x2000; kind = usable }
      ∷ record { base = 0x3000; length = 0x1000; kind = reserved }
      ∷ record { base = 0x4000; length = 0x1000; kind = usable }
      ∷ [];
  truncated = false;
}

finalize_run : finalize claims ≡ resolved
unfolding finalize
finalize_run = refl

finalize-IsFinal_example : IsFinal claims (finalize claims)
finalize-IsFinal_example = finalize-IsFinal claims claims-IsWellFormed

resolved-IsWellFormed : IsWellFormed resolved
resolved-IsWellFormed = record { regions = omega arith; room = omega arith }

page_ok : bad_alignment 0x1000 ≡ false
unfolding bad_alignment
page_ok = refl

page_small : 0x1000 < u64_mod
page_small = omega arith

resolved-Ascends : Ascends resolved.regions
unfolding rank
resolved-Ascends = (omega arith, (λ e. refl), (omega arith, (λ e. refl), tt))

find_free-FindsLowest_example :
    FindsLowest 0x1000 0x1000 0x2800 page_ok page_small resolved.regions
      (find_free resolved 0x1000 0x1000 0x2800)
find_free-FindsLowest_example =
    find_free-FindsLowest 0x1000 0x1000 0x2800 page_ok page_small resolved (omega arith)
      resolved-IsWellFormed resolved-Ascends

find_free_run : find_free resolved 0x1000 0x1000 0x2800 ≡ some 0x4000
unfolding find_free find_free_in fit_low rank checked_align_up bad_alignment clear_low
find_free_run = refl

find_free-usable_example : strongest claims.regions 0x4010 ≡ some usable
unfolding finalize find_free find_free_in fit_low rank checked_align_up bad_alignment clear_low
find_free-usable_example =
    find_free-usable claims 0x1000 0x1000 0x2800 0x4000 0x4010 (omega arith) claims-IsWellFormed
      refl (omega arith) (omega arith)

find_free_high-FindsHighest_example :
    FindsHighest 0x1000 0x1000 0x5000 page_ok page_small resolved.regions
      (find_free_high resolved 0x1000 0x1000 0x5000)
find_free_high-FindsHighest_example =
    find_free_high-FindsHighest 0x1000 0x1000 0x5000 page_ok page_small resolved (omega arith)
      resolved-IsWellFormed

abbrev arena : Arena
arena = record { base = 0x1008; capacity = 0x100; used = 3 }

arena-IsValid : IsValid arena
arena-IsValid = omega arith

allocate_run : allocate_aligned arena 5 16 ≡ (some 0x1010, record arena { used = 13 })
unfolding allocate_aligned is_power_of_two clear_low checked_add
allocate_run = refl

allocate_aligned-Allocates_example : Allocates arena 5 16 (allocate_aligned arena 5 16)
allocate_aligned-Allocates_example =
    allocate_aligned-Allocates arena 5 16 (omega arith) arena-IsValid

allocate_aligned_complete_example :
    (at : ℕ) × ((allocate_aligned arena 5 16).0 ≡ some at) × (at ≤ 0x1020)
unfolding is_power_of_two
allocate_aligned_complete_example =
    allocate_aligned_complete arena 5 16 0x1020 (omega arith) arena-IsValid refl (omega arith) refl
      (omega arith) (omega arith)

abbrev requests : List Request
requests =
    record { size = 5; alignment = 16 }
    ∷ record { size = 0x200; alignment = 8 }
    ∷ record { size = 7; alignment = 4 }
    ∷ []

serve-Serves_example : Serves arena (serve arena requests)
serve-Serves_example = serve-Serves arena requests (omega arith) arena-IsValid

release-mark_example : release (serve arena requests).1 (mark arena) ≡ arena
release-mark_example = release-mark arena requests (omega arith) arena-IsValid
