-- ===== src/Util/Str/Numbers.antt =====
-- `str_to_u64` computes the number that the text denotes, or fails where there is none that fits.
use tunix_boot.Prelude.{
  ℕ, zero, suc, ◌+◌, ◌-◌, ◌*◌, ◌/◌, bit_or, ◌≡◌, ◌<◌, ◌≤◌, inl, inr, refl, sym, ap, ◌∙◌, Option,
  none, some, List, [], ◌∷◌, arith, true, ◌&&◌, ◌||◌, ◌==◌, leb, ltb, if◌then◌else◌, length, get_or,
  drop, Bool-cases, Option-cases,
}
use tunix_boot.Prelude.Bits.{bit_or_step}
use tunix_boot.Prelude.Word.{u64_mod}
use tunix_boot.Util.Checked.{checked_add, checked_mul}
use tunix_boot.Util.Str.{Str, digit_value, digits_from, has_hex_prefix, lower, str_to_u64}

-- The number that the digits denote after `value`, unbounded; `none` if one is no digit.
abbrev pub numeral : ℕ → List ℕ → ℕ → Option ℕ
numeral base [] value = some value
numeral base (c ∷ cs) value = elim (digit_value c base) [
  | none ↦ none
  | some digit ↦ numeral base cs (value * base + digit)
]

-- A number of 64 bits, or none.
abbrev pub bounded : Option ℕ → Option ℕ
bounded none = none
bounded (some n) = if ltb n u64_mod then some n else none

numeral-grows :
    (base : ℕ) (cs : List ℕ) (value n : ℕ) → 1 ≤ base → numeral base cs value ≡ some n → value ≤ n
numeral-grows base [] value n pos e = ground (arith, e)
numeral-grows base (c ∷ cs) value n pos e = elim (Option-cases (digit_value c base)) [
  | inl bad ↦ absurd (ground (arith, bad, e))
  | inr (d, ok) ↦
      let rest : value * base + d ≤ n =
        numeral-grows base cs (value * base + d) n pos (ground (arith, ok, e)) in
      grind (arith, rest, pos)
]

overflows :
    (base : ℕ) (cs : List ℕ) (value : ℕ)
    → 1 ≤ base
    → u64_mod ≤ value
    → bounded (numeral base cs value) ≡ none
overflows base cs value pos big = elim (Option-cases (numeral base cs value)) [
  | inl e ↦ ground (arith, e)
  | inr (n, e) ↦ ground (arith, e, numeral-grows base cs value n pos e)
]

drop-cons :
    (text : Str) (index next : ℕ)
    → next ≡ suc index
    → index < length text
    → drop index text ≡ get_or text index 0 ∷ drop next text
drop-cons [] index next e lt = absurd (omega arith)
drop-cons (c ∷ cs) zero next e lt = ap (λ k. c ∷ drop k (c ∷ cs)) (sym e)
drop-cons (c ∷ cs) (suc index) next e lt =
    drop-cons cs index (suc index) refl (omega arith)
    ∙ ap (λ k. get_or cs index 0 ∷ drop k (c ∷ cs)) (sym e)

numeral-cons :
    (base c d : ℕ) (cs : List ℕ) (value : ℕ)
    → digit_value c base ≡ some d
    → numeral base (c ∷ cs) value ≡ numeral base cs (value * base + d)
numeral-cons base c d cs value ok = ground (arith, ok)

digits_from-next :
    (more index base : ℕ) (text : Str) (value d : ℕ)
    → digit_value (get_or text index 0) base ≡ some d
    → value * base + d < u64_mod
    → digits_from (suc more) index base text value
      ≡ digits_from more (index + 1) base text (value * base + d)
unfolding digits_from checked_add checked_mul
digits_from-next more index base text value d ok fits = ground (arith, ok)

digits_from-overflow :
    (more index base : ℕ) (text : Str) (value d : ℕ)
    → digit_value (get_or text index 0) base ≡ some d
    → u64_mod ≤ value * base + d
    → digits_from (suc more) index base text value ≡ none
unfolding digits_from checked_add checked_mul
digits_from-overflow more index base text value d ok big = ground (arith, ok)

digits_from-done :
    (index base : ℕ) (text : Str) (value : ℕ)
    → value < u64_mod
    → digits_from 0 index base text value ≡ bounded (some value)
unfolding digits_from
digits_from-done index base text value small = ground arith

digits_from-bad :
    (more index base : ℕ) (text : Str) (value : ℕ)
    → digit_value (get_or text index 0) base ≡ none
    → digits_from (suc more) index base text value ≡ none
unfolding digits_from
digits_from-bad more index base text value bad = ground (arith, bad)

numeral-bad :
    (base c : ℕ) (cs : List ℕ) (value : ℕ)
    → digit_value c base ≡ none
    → bounded (numeral base (c ∷ cs) value) ≡ none
numeral-bad base c cs value bad = ground (arith, bad)

drop-all : (text : Str) (index : ℕ) → index ≡ length text → drop index text ≡ []
drop-all [] zero e = refl
drop-all [] (suc index) e = absurd (omega arith)
drop-all (c ∷ cs) zero e = absurd (omega arith)
drop-all (c ∷ cs) (suc index) e = drop-all cs index (omega arith)

digits_from-eq-bounded :
    (more index base : ℕ) (text : Str) (value : ℕ)
    → 1 ≤ base
    → more + index ≡ length text
    → value < u64_mod
    → digits_from more index base text value ≡ bounded (numeral base (drop index text) value)
digits_from-eq-bounded zero index base text value pos all small =
    digits_from-done index base text value small
    ∙ ap (λ t. bounded (numeral base t value)) (sym (drop-all text index (omega arith)))
digits_from-eq-bounded (suc more) index base text value pos all small =
    of_digit (λ v lt. digits_from-eq-bounded more (index + 1) base text v pos (omega arith) lt)
      (digit_value c base) refl
    ∙ ap (λ t. bounded (numeral base t value))
        (sym (drop-cons text index (index + 1) (omega arith) (omega arith)))
  where
    c : ℕ
    c = get_or text index 0

    rest : List ℕ
    rest = drop (index + 1) text

    of_digit :
        ((v : ℕ)
          → v < u64_mod
          → digits_from more (index + 1) base text v ≡ bounded (numeral base rest v))
        → (o : Option ℕ) → digit_value c base ≡ o
        → digits_from (suc more) index base text value ≡ bounded (numeral base (c ∷ rest) value)
    of_digit later none bad =
        digits_from-bad more index base text value bad ∙ sym (numeral-bad base c rest value bad)
    of_digit later (some d) ok =
        let step = ap bounded (numeral-cons base c d rest value ok) in
        elim (Bool-cases (ltb (value * base + d) u64_mod)) [
          | inl fits ↦
              digits_from-next more index base text value d ok (ground (arith, fits))
              ∙ later (value * base + d) (ground (arith, fits))
              ∙ sym step
          | inr big ↦
              digits_from-overflow more index base text value d ok (ground (arith, big))
              ∙ sym (overflows base rest (value * base + d) pos (ground (arith, big)))
              ∙ sym step
        ]

-- What a character stands for as a decimal digit, and as a hexadecimal one in either case.
abbrev pub decimal : ℕ → Option ℕ
decimal c = if leb 48 c && leb c 57 then some (c - 48) else none

abbrev pub hexadecimal : ℕ → Option ℕ
hexadecimal c =
    if leb 48 c && leb c 57
    then some (c - 48)
    else if leb 97 c && leb c 102
    then some (c - 87)
    else if leb 65 c && leb c 70
    then some (c - 55)
    else none

-- The number that a row of digits denotes, the first of them the highest; `none` if one is no digit.
abbrev pub denoted : ℕ → (ℕ → Option ℕ) → List ℕ → ℕ → Option ℕ
denoted base digit [] value = some value
denoted base digit (c ∷ cs) value = elim (digit c) [
  | none ↦ none
  | some d ↦ denoted base digit cs (value * base + d)
]

digit_value-decimal : (c : ℕ) → digit_value c 10 ≡ decimal c
unfolding digit_value
digit_value-decimal c = ground arith

digit_value-hexadecimal : (c : ℕ) → digit_value c 16 ≡ hexadecimal c
unfolding digit_value
digit_value-hexadecimal c = ground arith

numeral-denoted :
    (base : ℕ) (digit : ℕ → Option ℕ) (cs : List ℕ) (value : ℕ)
    → ((c : ℕ) → digit_value c base ≡ digit c)
    → numeral base cs value ≡ denoted base digit cs value
numeral-denoted base digit [] value same = refl
numeral-denoted base digit (c ∷ cs) value same = elim (Option-cases (digit c)) [
  | inl bad ↦ ground (arith, bad, same c)
  | inr (d, ok) ↦ ground (arith, ok, same c, numeral-denoted base digit cs (value * base + d) same)
]

-- The number that the whole text denotes: hexadecimal after `0x` or `0X`, if more follows, else
-- decimal.
abbrev pub number_of : Str → Option ℕ
number_of [] = none
number_of (a ∷ []) = denoted 10 decimal (a ∷ []) 0
number_of (a ∷ b ∷ []) = denoted 10 decimal (a ∷ b ∷ []) 0
number_of (a ∷ b ∷ c ∷ cs) =
    if (a == 48) && ((b == 120) || (b == 88))
    then denoted 16 hexadecimal (c ∷ cs) 0
    else denoted 10 decimal (a ∷ b ∷ c ∷ cs) 0

-- The same, in the words of the code.
read_number : Str → Option ℕ
read_number text = if has_hex_prefix text then numeral 16 (drop 2 text) 0 else numeral 10 text 0

-- The bit of a capital letter that `lower` sets.
bit_or_letter : (c : ℕ) → 64 ≤ c → c < 96 → bit_or c 32 ≡ c + 32
bit_or_letter c low high = omega (
  arith,
  bit_or_step c 32,
  bit_or_step (c / 2) 16,
  bit_or_step (c / 2 / 2) 8,
  bit_or_step (c / 2 / 2 / 2) 4,
  bit_or_step (c / 2 / 2 / 2 / 2) 2,
  top,
)
  where
    top : bit_or (c / 2 / 2 / 2 / 2 / 2) 1 ≡ 3
    top = (let two : c / 2 / 2 / 2 / 2 / 2 ≡ 2 = omega arith in ap (λ t. bit_or t 1) two)

lower_x : (c : ℕ) → (lower c == 120) ≡ ((c == 120) || (c == 88))
unfolding lower
lower_x c = elim (Bool-cases (ltb c 65 || ltb 90 c)) [
  | inl other ↦ ground (arith, other)
  | inr capital ↦
      ground (arith, capital, bit_or_letter c (ground (arith, capital)) (ground (arith, capital)))
]

has_hex_prefix-cons :
    (a b c : ℕ) (cs : List ℕ)
    → has_hex_prefix (a ∷ b ∷ c ∷ cs) ≡ ((a == 48) && ((b == 120) || (b == 88)))
has_hex_prefix-cons a b c cs =
    let long : ltb 2 (length (a ∷ b ∷ c ∷ cs)) ≡ true = ground arith in
    ap (λ t. t && (a == 48) && (lower b == 120)) long ∙ ap (λ t. (a == 48) && t) (lower_x b)

plain_number : (cs : List ℕ) → numeral 10 cs 0 ≡ denoted 10 decimal cs 0
plain_number cs = numeral-denoted 10 decimal cs 0 digit_value-decimal

read_number-number_of : (c : ℕ) (cs : List ℕ) → read_number (c ∷ cs) ≡ number_of (c ∷ cs)
unfolding read_number
read_number-number_of a [] = plain_number (a ∷ [])
read_number-number_of a (b ∷ []) = plain_number (a ∷ b ∷ [])
read_number-number_of a (b ∷ c ∷ cs) =
    let rest = numeral-denoted 16 hexadecimal (c ∷ cs) 0 digit_value-hexadecimal in
    ap (λ t. if t then numeral 16 (c ∷ cs) 0 else numeral 10 (a ∷ b ∷ c ∷ cs) 0)
      (has_hex_prefix-cons a b c cs)
    ∙ ap (λ t. if (a == 48) && ((b == 120) || (b == 88)) then t else numeral 10 (a ∷ b ∷ c ∷ cs) 0)
        rest
    ∙ ap
        (λ t.
          if (a == 48) && ((b == 120) || (b == 88)) then denoted 16 hexadecimal (c ∷ cs) 0 else t)
        (plain_number (a ∷ b ∷ c ∷ cs))

str_to_u64-read : (c : ℕ) (cs : List ℕ) → str_to_u64 (c ∷ cs) ≡ bounded (read_number (c ∷ cs))
unfolding str_to_u64 read_number
str_to_u64-read c cs = elim (Bool-cases (has_hex_prefix (c ∷ cs))) [
  | inl hex ↦ ground (
    arith,
    hex,
    digits_from-eq-bounded (length cs - 1) 2 16 (c ∷ cs) 0 (omega arith) (ground (arith, hex))
        (omega arith),
  )
  | inr plain ↦ ground (
    arith,
    plain,
    digits_from-eq-bounded (suc (length cs)) 0 10 (c ∷ cs) 0 (omega arith) (omega arith)
        (omega arith),
  )
]

-- `str_to_u64` returns exactly the number that the text denotes, if it denotes one below `2 ^ 64`,
-- and fails for every other text: the text is decimal, or hexadecimal in either case after `0x` or
-- `0X` with more behind it, and a character that is no digit of that base denotes nothing.
pub str_to_u64-eq-bounded : (text : Str) → str_to_u64 text ≡ bounded (number_of text)
unfolding str_to_u64
str_to_u64-eq-bounded [] = refl
str_to_u64-eq-bounded (c ∷ cs) = str_to_u64-read c cs ∙ ap bounded (read_number-number_of c cs)
