-- ===== src/Util/Mem/Copies.antt =====
-- `memmove` moves whatever the overlap; `memcpy` does where no byte is overwritten before it is read.
use native.Mathlib.Decide.{ℕ_discrete}
use tunix_boot.Prelude.{
  ℕ, zero, suc, ◌+◌, ◌-◌, ◌%◌, ◌≤◌, ◌<◌, ◌≡◌, ◌≢◌, ◌⊎◌, inl, inr, refl, ap, ◌∙◌, true, ◌&&◌, ◌||◌,
  Bool-cases, arith, ltb, leb, ◌==◌, if◌then◌else◌,
}
use tunix_boot.Prelude.Word.{u8_mod}
use tunix_boot.Util.Mem.{Memory, store, copy_up, copy_down, memcpy, memmove, fill_from, memset}

-- After the call, `count` bytes from `out` on are those that stood from `source` on, and no other
-- byte has changed.
pub record IsMoved (out source count : ℕ) (before after : Memory) : Type 0 where
  pub moved : (i : ℕ) → i < count → after (out + i) ≡ before (source + i)
  pub kept : (p : ℕ) → (p < out) ⊎ (out + count ≤ p) → after p ≡ before p

copy_up-other :
    (left i out source : ℕ) (m : Memory) (p : ℕ)
    → (p < out + i) ⊎ (out + i + left ≤ p)
    → copy_up left i out source m p ≡ m p
unfolding copy_up
copy_up-other zero i out source m p h = refl
copy_up-other (suc left) i out source m p h =
    copy_up-other left (i + 1) out source _ p (ground arith) ∙ ground arith

copy_down-other :
    (count out source : ℕ) (m : Memory) (p : ℕ)
    → (p < out) ⊎ (out + count ≤ p)
    → copy_down count out source m p ≡ m p
unfolding copy_down
copy_down-other zero out source m p h = refl
copy_down-other (suc count) out source m p h =
    copy_down-other count out source _ p (ground arith) ∙ ground arith

stored : (m : Memory) (p q v : ℕ) → p ≡ q → store m p v q ≡ v
stored m p q v e = ground arith

unstored : (m : Memory) (p q v : ℕ) → p ≢ q → store m p v q ≡ m q
unstored m p q v e = ground arith

copy_up-moves :
    (left i out source : ℕ) (m : Memory)
    → (out ≤ source) ⊎ (source + i + left ≤ out)
    → (j : ℕ) → i ≤ j
    → j < i + left
    → copy_up left i out source m (out + j) ≡ m (source + j)
unfolding copy_up
copy_up-moves zero i out source m apart j le lt = absurd (omega arith)
copy_up-moves (suc left) i out source m apart j le lt = elim (ℕ_discrete i j) [
  | yes e ↦
      copy_up-other left (i + 1) out source _ (out + j) (inl (omega arith))
      ∙ stored m (out + i) (out + j) (m (source + i)) (omega arith)
      ∙ ap (λ k. m (source + k)) e
  | no ne ↦
      copy_up-moves left (i + 1) out source _ (ground arith) j (omega arith) (omega arith)
      ∙ unstored m (out + i) (source + j) (m (source + i)) (ground arith)
]

copy_down-moves :
    (count out source : ℕ) (m : Memory)
    → source ≤ out
    → (j : ℕ) → j < count
    → copy_down count out source m (out + j) ≡ m (source + j)
unfolding copy_down
copy_down-moves zero out source m apart j lt = absurd (omega arith)
copy_down-moves (suc count) out source m apart j lt = elim (ℕ_discrete count j) [
  | yes e ↦
      copy_down-other count out source _ (out + j) (inr (omega arith))
      ∙ stored m (out + count) (out + j) (m (source + count)) (omega arith)
      ∙ ap (λ k. m (source + k)) e
  | no ne ↦
      copy_down-moves count out source _ apart j (omega arith)
      ∙ unstored m (out + count) (source + j) (m (source + count)) (omega arith)
]

-- `memcpy` is right when the destination does not begin inside the source.
pub memcpy-IsMoved :
    (out source count : ℕ) (m : Memory)
    → (out ≤ source) ⊎ (source + count ≤ out)
    → IsMoved out source count m (memcpy out source count m)
unfolding memcpy
memcpy-IsMoved out source count m apart = record {
  moved = λ i lt. copy_up-moves count 0 out source m (ground arith) i (omega arith) (omega arith);
  kept = λ p h. copy_up-other count 0 out source m p (ground arith);
}

-- `memmove` is right for every pair of ranges.
pub memmove-IsMoved :
    (out source count : ℕ) (m : Memory) → IsMoved out source count m (memmove out source count m)
unfolding memmove
memmove-IsMoved out source count m = elim (Bool-cases ((out == source) || (count == 0))) [
  | inl same ↦ rw same (record { moved = λ i lt. ap m (ground arith); kept = λ p h. refl })
  | inr differ ↦ rw differ (elim (Bool-cases (ltb out source)) [
    | inl lt ↦ rw lt (unfold memcpy in memcpy-IsMoved out source count m (inl (ground arith)))
    | inr ge ↦ rw ge (record {
      moved = λ i lt. copy_down-moves count out source m (ground arith) i lt;
      kept = λ p h. copy_down-other count out source m p h;
    })
  ])
]

fill_from-other :
    (left i out value : ℕ) (m : Memory) (p : ℕ)
    → (p < out + i) ⊎ (out + i + left ≤ p)
    → fill_from left i out value m p ≡ m p
unfolding fill_from
fill_from-other zero i out value m p h = refl
fill_from-other (suc left) i out value m p h =
    fill_from-other left (i + 1) out value _ p (ground arith) ∙ ground arith

fill_from-filled :
    (left i out value : ℕ) (m : Memory) (j : ℕ)
    → i ≤ j
    → j < i + left
    → fill_from left i out value m (out + j) ≡ value % u8_mod
unfolding fill_from
fill_from-filled zero i out value m j le lt = absurd (omega arith)
fill_from-filled (suc left) i out value m j le lt = elim (ℕ_discrete i j) [
  | yes e ↦
      fill_from-other left (i + 1) out value _ (out + j) (inl (omega arith))
      ∙ stored m (out + i) (out + j) (value % u8_mod) (omega arith)
  | no ne ↦ fill_from-filled left (i + 1) out value _ j (omega arith) (omega arith)
]

-- `memset` sets exactly the bytes of the range.
pub memset_lem :
    (out value count : ℕ) (m : Memory) (p : ℕ)
    → memset out value count m p
      ≡ (if leb out p && ltb p (out + count) then value % u8_mod else m p)
unfolding memset
memset_lem out value count m p = elim (Bool-cases (leb out p && ltb p (out + count))) [
  | inl inside ↦ rw inside (
      ap (fill_from count 0 out value m) (offset inside)
      ∙ fill_from-filled count 0 out value m (p - out) (omega arith) (ground arith))
  | inr outside ↦ rw outside (fill_from-other count 0 out value m p (ground arith))
]
  where
    offset : (leb out p && ltb p (out + count)) ≡ true → p ≡ out + (p - out)
    offset h = ground arith

-- `memcpy` changes nothing outside the range it writes, whatever the overlap.
pub memcpy-other :
    (out source count : ℕ) (m : Memory) (p : ℕ)
    → (p < out) ⊎ (out + count ≤ p)
    → memcpy out source count m p ≡ m p
unfolding memcpy
memcpy-other out source count m p h = copy_up-other count 0 out source m p (ground arith)
