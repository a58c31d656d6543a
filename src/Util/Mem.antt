-- ===== src/Util/Mem.antt =====
-- src/util/mem.c over a memory that is read and written by address. The loops are copied as they
-- are, so that the effect of overlapping ranges is a theorem and not an assumption.
pub mod Copies
use Prim.Native.Nat.{compare, Ordering}
use tunix_boot.Prelude.{
  ℕ, zero, suc, ◌+◌, ◌-◌, ◌%◌, Bool, true, false, ◌||◌, List, [], ◌∷◌, ltb, leb, ◌==◌,
  if◌then◌else◌, get_or,
}
use tunix_boot.Prelude.Word.{u8_mod}

-- The byte at each address.
abbrev pub Memory : Type 0
Memory = ℕ → ℕ

abbrev pub store : Memory → ℕ → ℕ → Memory
store m p v q = if p == q then v else m q

-- `for (index = i; index < count; index++) out[index] = in[index]`, `left` rounds to go.
unfoldable pub copy_up : ℕ → ℕ → ℕ → ℕ → Memory → Memory
copy_up zero i out source m = m
copy_up (suc left) i out source m =
    copy_up left (i + 1) out source (store m (out + i) (m (source + i)))

-- `for (index = count; index > 0; index--) out[index - 1] = in[index - 1]`.
unfoldable pub copy_down : ℕ → ℕ → ℕ → Memory → Memory
copy_down zero out source m = m
copy_down (suc index) out source m =
    copy_down index out source (store m (out + index) (m (source + index)))

unfoldable pub memcpy : ℕ → ℕ → ℕ → Memory → Memory
unfolding copy_up
memcpy destination source count m = copy_up count 0 destination source m

unfoldable pub memmove : ℕ → ℕ → ℕ → Memory → Memory
unfolding copy_up copy_down
memmove destination source count m =
    if (destination == source) || (count == 0)
    then m
    else if ltb destination source
    then copy_up count 0 destination source m
    else copy_down count destination source m

unfoldable pub fill_from : ℕ → ℕ → ℕ → ℕ → Memory → Memory
fill_from zero i out value m = m
fill_from (suc left) i out value m =
    fill_from left (i + 1) out value (store m (out + i) (value % u8_mod))

unfoldable pub memset : ℕ → ℕ → ℕ → Memory → Memory
unfolding fill_from
memset destination value count m = fill_from count 0 destination value m

-- The loop of `memcmp`; the result is the sign of what it returns.
unfoldable pub memcmp_from : ℕ → ℕ → List ℕ → List ℕ → Ordering
memcmp_from zero i a b = Ordering.eq
memcmp_from (suc left) i a b = elim (compare (get_or a i 0) (get_or b i 0)) [
  | Ordering.eq ↦ memcmp_from left (i + 1) a b
  | Ordering.lt ↦ Ordering.lt
  | Ordering.gt ↦ Ordering.gt
]

unfoldable pub memcmp : List ℕ → List ℕ → ℕ → Ordering
unfolding memcmp_from
memcmp a b count = memcmp_from count 0 a b

-- `memcmp(...) == 0`.
abbrev pub is_equal : Ordering → Bool
is_equal Ordering.eq = true
is_equal _ = false
