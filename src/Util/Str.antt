-- ===== src/Util/Str.antt =====
-- src/util/str.c. A `struct str` is the list of its `length` bytes; no function here looks at a NULL
-- `data` of length 0 otherwise than at an empty one. Plain `char` is signed, which only moves bytes
-- from 128 on below the ASCII ones: every test here answers alike for them either way.
pub mod Equal
pub mod Numbers
pub mod Trim
use tunix_boot.Prelude.{
  ℕ, zero, suc, ◌+◌, ◌-◌, ◌*◌, bit_or, Bool, true, false, not, ◌&&◌, ◌||◌, Option, none, some, List,
  [], ◌∷◌, ◌++◌, ltb, leb, ◌==◌, if◌then◌else◌, length, get_or, take, drop,
}
use tunix_boot.Util.Checked.{checked_add, checked_mul}

abbrev pub Str : Type 0
Str = List ℕ

unfoldable pub is_space : ℕ → Bool
is_space c = (c == 32) || (c == 9) || (c == 13) || (c == 10)

unfoldable pub lower : ℕ → ℕ
lower c = if ltb c 65 || ltb 90 c then c else bit_or c 0x20

unfoldable pub digit_value : ℕ → ℕ → Option ℕ
digit_value c base =
    let checked = λ (digit : ℕ). if leb base digit then none else some digit in
    if leb 48 c && leb c 57
    then checked (c - 48)
    else if leb 97 c && leb c 102
    then checked (c - 97 + 10)
    else if leb 65 c && leb c 70
    then checked (c - 65 + 10)
    else none

-- A C string is the bytes in memory from the pointer on; `none` is NULL.
unfoldable pub length_before_nul : List ℕ → ℕ
length_before_nul [] = 0
length_before_nul (c ∷ cs) = if c == 0 then 0 else suc (length_before_nul cs)

unfoldable pub cstr_length : Option (List ℕ) → ℕ
cstr_length none = 0
cstr_length (some cs) = length_before_nul cs

unfoldable pub str_from_cstr : Option (List ℕ) → Str
str_from_cstr none = []
str_from_cstr (some cs) = take (cstr_length (some cs)) cs

unfoldable pub str_slice : Str → ℕ → ℕ → Str
str_slice text offset count =
    if ltb (length text) offset
    then []
    else let available = length text - offset in
      take (if ltb count available then count else available) (drop offset text)

-- The loop of `str_equal`, and of `str_equal_ignore_case` with `lower` on both sides.
unfoldable pub equal_from : (ℕ → ℕ) → ℕ → ℕ → Str → Str → Bool
equal_from f zero index left right = true
equal_from f (suc more) index left right =
    if not (f (get_or left index 0) == f (get_or right index 0))
    then false
    else equal_from f more (index + 1) left right

unfoldable pub str_equal : Str → Str → Bool
str_equal left right =
    if not (length left == length right)
    then false
    else equal_from (λ c. c) (length left) 0 left right

unfoldable pub str_equal_cstr : Str → Option (List ℕ) → Bool
str_equal_cstr left right = str_equal left (str_from_cstr right)

unfoldable pub str_equal_ignore_case : Str → Str → Bool
str_equal_ignore_case left right =
    if not (length left == length right) then false else equal_from lower (length left) 0 left right

unfoldable pub str_starts_with : Str → Str → Bool
str_starts_with text prefix =
    if ltb (length text) (length prefix)
    then false
    else str_equal (str_slice text 0 (length prefix)) prefix

-- The first loop of `str_trim`, with `more` bytes between `start` and the end.
unfoldable pub skip_spaces : ℕ → Str → ℕ → ℕ
skip_spaces zero text start = start
skip_spaces (suc more) text start =
    if is_space (get_or text start 0) then skip_spaces more text (start + 1) else start

-- The second loop, with `more` bytes between the start and `end`.
unfoldable pub drop_spaces : ℕ → Str → ℕ → ℕ
drop_spaces zero text end = end
drop_spaces (suc more) text end =
    if is_space (get_or text (end - 1) 0) then drop_spaces more text (end - 1) else end

unfoldable pub str_trim : Str → Str
str_trim text =
    let start = skip_spaces (length text) text 0 in
    let end = drop_spaces (length text - start) text (length text) in
    str_slice text start (end - start)

-- The loop of `str_to_u64`; `none` is `return false`.
unfoldable pub digits_from : ℕ → ℕ → ℕ → Str → ℕ → Option ℕ
digits_from zero index base text value = some value
digits_from (suc more) index base text value = elim (digit_value (get_or text index 0) base) [
  | none ↦ none
  | some digit ↦ elim (checked_mul value base) [
    | none ↦ none
    | some scaled ↦ elim (checked_add scaled digit) [
      | none ↦ none
      | some value' ↦ digits_from more (index + 1) base text value'
    ]
  ]
]

-- Whether the text has the hexadecimal prefix.
abbrev pub has_hex_prefix : Str → Bool
has_hex_prefix text =
    ltb 2 (length text) && (get_or text 0 0 == 48) && (lower (get_or text 1 0) == 120)

unfoldable pub str_to_u64 : Str → Option ℕ
str_to_u64 text =
    if length text == 0
    then none
    else if has_hex_prefix text
    then digits_from (length text - 2) 2 16 text 0
    else digits_from (length text) 0 10 text 0

-- `none` is `false`; otherwise the bytes that are written to `out`.
unfoldable pub str_copy_cstr : Str → ℕ → Option (List ℕ)
str_copy_cstr text capacity =
    if (capacity == 0) || leb capacity (length text) then none else some (text ++ 0 ∷ [])
