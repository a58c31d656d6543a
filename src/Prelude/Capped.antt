-- ===== src/Prelude/Capped.antt =====
-- A list with room for so many elements, and a mark that something was left out.
use Prim.Native.Nat.{ℕ, zero, suc, ◌+◌, ◌≤◌, ◌<◌, min}
use mathlib.Core.Path.{◌≡◌, refl, sym, ap, ◌∙◌}
use mathlib.Core.Bool.{Bool, true, false, ◌||◌}
use mathlib.Core.List.{List, [], ◌∷◌, ◌++◌, append-nil, append_assoc}
use native.Mathlib.Omega.{arith}
use tunix_boot.Prelude.Tests.{ltb}
use tunix_boot.Prelude.Lists.{length, take, length-append, length-take}

-- From `xs`, with the mark `t`, to `ys`, with the mark `u`, by adding as much of `found` as there
-- is room for.
pub record IsCapped {ℓ} {A : Type ℓ} (room : ℕ) (xs : List A) (t : Bool) (found ys : List A)
    (u : Bool) : Type ℓ where
  pub kept : ys ≡ take room (xs ++ found)
  pub cut : u ≡ (t || ltb room (length (xs ++ found)))

module _ {ℓ} {A : Type ℓ} where
  take-append-full : (n : ℕ) (xs ys : List A) → length xs ≡ n → take n (xs ++ ys) ≡ xs
  take-append-full zero [] ys e = refl
  take-append-full zero (x ∷ xs) ys e = absurd (omega arith)
  take-append-full (suc n) [] ys e = absurd (omega arith)
  take-append-full (suc n) (x ∷ xs) ys e = ap (λ t. x ∷ t) (take-append-full n xs ys (omega arith))

  take_all : (n : ℕ) (xs : List A) → length xs ≤ n → take n xs ≡ xs
  take_all zero [] le = refl
  take_all zero (x ∷ xs) le = absurd (omega arith)
  take_all (suc n) [] le = refl
  take_all (suc n) (x ∷ xs) le = ap (λ t. x ∷ t) (take_all n xs (omega arith))

  take-take-append : (n : ℕ) (xs ys : List A) → take n (take n xs ++ ys) ≡ take n (xs ++ ys)
  take-take-append zero xs ys = refl
  take-take-append (suc n) [] ys = refl
  take-take-append (suc n) (x ∷ xs) ys = ap (λ t. x ∷ t) (take-take-append n xs ys)

not_cut : (p : Bool) (room n : ℕ) → n ≤ room → p ≡ (p || ltb room n)
not_cut true room n h = refl
not_cut false room n h = ground arith

is_cut : (p : Bool) (room n : ℕ) → room < n → true ≡ (p || ltb room n)
is_cut true room n h = refl
is_cut false room n h = ground arith

-- What marks a list once marks what it is cut to as well.
cut_twice :
    (p q : Bool) (room n l w y t : ℕ)
    → q ≡ (p || ltb room n)
    → l ≡ t + y
    → w ≡ n + y
    → t ≡ min room n
    → (q || ltb room l) ≡ (p || ltb room w)
cut_twice p q room n l w y t e f g h = ground (arith, e, f, g, h)

module _ {ℓ} {A : Type ℓ} (room : ℕ) where
  pub nothing-IsCapped : (xs : List A) (t : Bool) → length xs ≤ room → IsCapped room xs t [] xs t
  nothing-IsCapped xs t le =
      let e : xs ++ [] ≡ xs = append-nil xs in
      record {
        kept = sym (ap (take room) e ∙ take_all room xs le);
        cut = not_cut t room _ (omega (arith, ap length e));
      }

  pub full-IsCapped :
      (xs : List A) (t : Bool) (x : A) → length xs ≡ room → IsCapped room xs t (x ∷ []) xs true
  full-IsCapped xs t x full = record {
    kept = sym (take-append-full room xs (x ∷ []) full);
    cut = is_cut t room _ (omega (arith, length-append xs (x ∷ []), full));
  }

  pub one-IsCapped :
      (xs : List A) (t : Bool) (x : A)
      → length xs < room
      → IsCapped room xs t (x ∷ []) (xs ++ x ∷ []) t
  one-IsCapped xs t x lt =
      let size = length-append xs (x ∷ []) in
      record {
        kept = sym (take_all room (xs ++ x ∷ []) (omega (arith, size)));
        cut = not_cut t room _ (omega (arith, size));
      }

  pub then-IsCapped :
      (xs ys zs found more : List A) (t u v : Bool)
      → IsCapped room xs t found ys u
      → IsCapped room ys u more zs v
      → IsCapped room xs t (found ++ more) zs v
  then-IsCapped xs ys zs found more t u v h k =
      let all : List A = xs ++ found in
      let assoc : (xs ++ found) ++ more ≡ xs ++ (found ++ more) = append_assoc xs found more in
      let size : length (ys ++ more) ≡ length (take room all) + length more =
        length-append ys more ∙ ap (λ s. length s + length more) h.kept in
      let whole : length (xs ++ (found ++ more)) ≡ length all + length more =
        sym (ap length assoc) ∙ length-append all more in
      record {
        kept =
            k.kept
            ∙ ap (λ s. take room (s ++ more)) h.kept
            ∙ take-take-append room all more
            ∙ ap (take room) assoc;
        cut =
            k.cut
            ∙ cut_twice t u room (length all) (length (ys ++ more)) (length (xs ++ (found ++ more)))
                (length more) (length (take room all)) h.cut size whole (length-take room all);
      }

  pub length-capped :
      (xs found ys : List A) (t u : Bool) → IsCapped room xs t found ys u → length ys ≤ room
  length-capped xs found ys t u c = omega (arith, ap length c.kept, length-take room (xs ++ found))
