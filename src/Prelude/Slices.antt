-- ===== src/Prelude/Slices.antt =====
-- Consecutive parts of a list.
use Prim.Native.Nat.{ℕ, zero, suc, ◌+◌, ◌-◌, ◌≤◌, ◌<◌}
use mathlib.Core.Path.{◌≡◌, refl, sym, ap, ◌∙◌}
use mathlib.Core.List.{List, [], ◌∷◌, ◌++◌}
use native.Mathlib.Omega.{arith}
use tunix_boot.Prelude.Lists.{length, get_or, take, drop, length-take, length-drop}

module _ {ℓ} {A : Type ℓ} where
  -- `n` elements from index `i` on.
  abbrev pub slice : List A → ℕ → ℕ → List A
  slice xs i n = take n (drop i xs)

  drop-nil : (n : ℕ) → drop {A = A} n [] ≡ []
  drop-nil zero = refl
  drop-nil (suc n) = refl

  take-nil : (n : ℕ) → take {A = A} n [] ≡ []
  take-nil zero = refl
  take-nil (suc n) = refl

  pub drop-drop : (a b c : ℕ) (xs : List A) → c ≡ a + b → drop b (drop a xs) ≡ drop c xs
  drop-drop zero b c xs e = ap (λ t. drop t xs) (omega arith)
  drop-drop (suc a) b zero xs e = absurd (omega arith)
  drop-drop (suc a) b (suc c) [] e = drop-nil b
  drop-drop (suc a) b (suc c) (x ∷ xs) e = drop-drop a b c xs (omega arith)

  pub take-take : (a b : ℕ) (xs : List A) → a ≤ b → take a (take b xs) ≡ take a xs
  take-take zero b xs h = refl
  take-take (suc a) zero xs h = absurd (omega arith)
  take-take (suc a) (suc b) [] h = refl
  take-take (suc a) (suc b) (x ∷ xs) h = ap (λ t. x ∷ t) (take-take a b xs (omega arith))

  drop-take : (s m : ℕ) (xs : List A) → drop s (take m xs) ≡ take (m - s) (drop s xs)
  drop-take zero m xs = let e : m ≡ m - 0 = omega arith in ap (λ t. take t xs) e
  drop-take (suc s) zero [] = sym (take-nil (0 - suc s))
  drop-take (suc s) zero (x ∷ xs) =
      let e : 0 ≡ 0 - suc s = omega arith in ap (λ t. take t (drop s xs)) e
  drop-take (suc s) (suc m) [] = sym (take-nil (suc m - suc s))
  drop-take (suc s) (suc m) (x ∷ xs) =
      let e : m - s ≡ suc m - suc s = omega arith in
      drop-take s m xs ∙ ap (λ t. take t (drop s xs)) e

  take_split : (a b c : ℕ) (xs : List A) → c ≡ a + b → take a xs ++ take b (drop a xs) ≡ take c xs
  take_split zero b c xs e = ap (λ t. take t xs) (omega arith)
  take_split (suc a) b zero xs e = absurd (omega arith)
  take_split (suc a) b (suc c) [] e = take-nil b
  take_split (suc a) b (suc c) (x ∷ xs) e = ap (λ t. x ∷ t) (take_split a b c xs (omega arith))

  -- Two parts that touch make one.
  pub slice-append :
      (xs : List A) (i j a b c : ℕ)
      → j ≡ i + a
      → c ≡ a + b
      → slice xs i a ++ slice xs j b ≡ slice xs i c
  slice-append xs i j a b c p q =
      ap (λ t. slice xs i a ++ take b t) (sym (drop-drop i a j xs p))
      ∙ take_split a b c (drop i xs) q

  -- A part of a part.
  pub slice-slice :
      (xs : List A) (i m s n k : ℕ)
      → s + n ≤ m
      → k ≡ i + s
      → slice (slice xs i m) s n ≡ slice xs k n
  slice-slice xs i m s n k h p =
      ap (take n) (drop-take s m (drop i xs))
      ∙ take-take n (m - s) (drop s (drop i xs)) (omega arith)
      ∙ ap (take n) (drop-drop i s k xs p)

  pub length-slice : (xs : List A) (i n : ℕ) → i + n ≤ length xs → length (slice xs i n) ≡ n
  length-slice xs i n h = omega (arith, length-take n (drop i xs), length-drop i xs)

  get_or-take :
      (n : ℕ) (xs : List A) (j : ℕ) (d : A) → j < n → get_or (take n xs) j d ≡ get_or xs j d
  get_or-take zero xs j d lt = absurd (omega arith)
  get_or-take (suc n) [] j d lt = refl
  get_or-take (suc n) (x ∷ xs) zero d lt = refl
  get_or-take (suc n) (x ∷ xs) (suc j) d lt = get_or-take n xs j d (omega arith)

  get_or-drop : (i : ℕ) (xs : List A) (j : ℕ) (d : A) → get_or (drop i xs) j d ≡ get_or xs (i + j) d
  get_or-drop zero xs j d = let e : j ≡ 0 + j = omega arith in ap (λ k. get_or xs k d) e
  get_or-drop (suc i) [] j d = refl
  get_or-drop (suc i) (x ∷ xs) j d =
      let e : suc (i + j) ≡ suc i + j = omega arith in
      get_or-drop i xs j d ∙ ap (λ k. get_or (x ∷ xs) k d) e

  pub get_or-slice :
      (xs : List A) (i n j : ℕ) (d : A) → j < n → get_or (slice xs i n) j d ≡ get_or xs (i + j) d
  get_or-slice xs i n j d lt = get_or-take n (drop i xs) j d lt ∙ get_or-drop i xs j d
