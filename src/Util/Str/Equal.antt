-- ===== src/Util/Str/Equal.antt =====
-- `str_equal` decides equality.
use tunix_boot.Prelude.{
  ℕ, zero, suc, ◌+◌, ◌≡◌, ◌↔◌, ◌<◌, ◌≤◌, inl, inr, refl, true, [], ◌∷◌, arith, ◌==◌, length, get_or,
  Bool-cases,
}
use tunix_boot.Util.Str.{Str, equal_from, str_equal}

equal_from-agree :
    (more index : ℕ) (left right : Str)
    → equal_from (λ c. c) more index left right ≡ true
    → (i : ℕ) → index ≤ i
    → i < index + more
    → get_or left i 0 ≡ get_or right i 0
unfolding equal_from
equal_from-agree zero index left right e i le lt = absurd (omega arith)
equal_from-agree (suc more) index left right e i le lt = elim (Bool-cases (i == index)) [
  | inl here ↦ ground (arith, here, e)
  | inr later ↦
      equal_from-agree more (index + 1) left right (ground arith) i (ground (arith, later))
        (omega arith)
]

equal_from_refl :
    (f : ℕ → ℕ) (more index : ℕ) (text : Str) → equal_from f more index text text ≡ true
unfolding equal_from
equal_from_refl f zero index text = refl
equal_from_refl f (suc more) index text = ground (arith, equal_from_refl f more (index + 1) text)

agree-eq :
    (left right : Str)
    → length left ≡ length right
    → ((i : ℕ) → i < length left → get_or left i 0 ≡ get_or right i 0)
    → left ≡ right
agree-eq [] [] same agree = refl
agree-eq [] (y ∷ ys) same agree = absurd (omega arith)
agree-eq (x ∷ xs) [] same agree = absurd (omega arith)
agree-eq (x ∷ xs) (y ∷ ys) same agree =
    let first : x ≡ y = agree 0 (omega arith) in
    let rest : xs ≡ ys = agree-eq xs ys (omega arith) (λ i lt. agree (suc i) (omega arith)) in
    cc (first, rest)

-- `str_equal` answers true exactly when the two strings are the same bytes.
pub str_equal-eq_iff : (left right : Str) → (str_equal left right ≡ true) ↔ (left ≡ right)
unfolding str_equal
str_equal-eq_iff left right = (
  λ e. agree-eq left right (ground arith) (λ i lt.
      equal_from-agree (length left) 0 left right (ground arith) i (omega arith) (omega arith)),
  λ e. ground (arith, e, equal_from_refl (λ c. c) (length left) 0 left),
)
