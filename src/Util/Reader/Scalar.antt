-- ===== src/Util/Reader/Scalar.antt =====
-- `little_endian` is the base-256 value of the bytes that it reads.
use mathlib.Core.Path.{ap₂}
use native.Mathlib.Nat.{pow-suc}
use native.Mathlib.Numerals.{towards_suc}
use tunix_boot.Prelude.{
  ℕ, zero, suc, ◌+◌, ◌*◌, ◌/◌, ◌%◌, ◌^◌, ◌<◌, ◌≡◌, refl, sym, ap, ◌∙◌, List, [], ◌∷◌, ◌++◌, arith,
  get_or, drop, All,
}
use tunix_boot.Prelude.Bits.{bit_or_disjoint}
use tunix_boot.Util.Reader.{little_endian, little_endian_from}

abbrev pub IsByte : ℕ → Type 0
IsByte b = b < 256

-- The value of the first `width` bytes, the least significant first; missing bytes count as 0.
abbrev pub le_value : List ℕ → ℕ → ℕ
le_value bytes zero = 0
le_value bytes (suc width) = get_or bytes 0 0 + 256 * le_value (drop 1 bytes) width

-- The `width` low bytes of a value, the least significant first.
abbrev pub le_bytes : ℕ → ℕ → List ℕ
le_bytes zero value = []
le_bytes (suc width) value = value % 256 ∷ le_bytes width (value / 256)

pub All-drop : (P : ℕ → Type 0) (n : ℕ) (xs : List ℕ) → All P xs → All P (drop n xs)
All-drop P zero xs h = h
All-drop P (suc n) [] h = h
All-drop P (suc n) (x ∷ xs) h = All-drop P n xs h.1

pub get_or-IsByte : (bytes : List ℕ) (i : ℕ) → All IsByte bytes → get_or bytes i 0 < 256
get_or-IsByte [] i h = omega arith
get_or-IsByte (b ∷ bytes) zero h = h.0
get_or-IsByte (b ∷ bytes) (suc i) h = get_or-IsByte bytes i h.1

get_or-drop : (i : ℕ) (bytes : List ℕ) → get_or (drop i bytes) 0 0 ≡ get_or bytes i 0
get_or-drop zero bytes = refl
get_or-drop (suc i) [] = refl
get_or-drop (suc i) (b ∷ bytes) = get_or-drop i bytes

drop-drop : (i : ℕ) (bytes : List ℕ) → drop 1 (drop i bytes) ≡ drop (suc i) bytes
drop-drop zero bytes = refl
drop-drop (suc i) [] = refl
drop-drop (suc i) (b ∷ bytes) = drop-drop i bytes

next_byte : (i : ℕ) → 2 ^ ((i + 1) * 8) ≡ 256 * 2 ^ (i * 8)
next_byte i = ap (λ (t : ℕ). 2 ^ t) split ∙ eight (i * 8)
  where
    split : (i + 1) * 8 ≡ i * 8 + 8
    split = omega arith

    eight : (n : ℕ) → 2 ^ (n + 8) ≡ 256 * 2 ^ n
    eight n = simp towards_suc (omega arith)

little_endian_from-eq :
    (width : ℕ) (bytes : List ℕ) (i v : ℕ)
    → All IsByte bytes
    → v < 2 ^ (i * 8)
    → little_endian_from width bytes i v ≡ v + 2 ^ (i * 8) * le_value (drop i bytes) width
unfolding little_endian_from
little_endian_from-eq zero bytes i v h lt = omega arith
little_endian_from-eq (suc width) bytes i v h lt =
    rw (bit_or_disjoint (i * 8) v b lt)
      (little_endian_from-eq width bytes (i + 1) (v + b * p) h small ∙ regroup)
  where
    b : ℕ
    b = get_or bytes i 0

    p : ℕ
    p = 2 ^ (i * 8)

    small : v + b * p < 2 ^ ((i + 1) * 8)
    small = grind (arith, next_byte i, get_or-IsByte bytes i h)

    same : le_value (drop (i + 1) bytes) width ≡ le_value (drop 1 (drop i bytes)) width
    same =
        ap (λ t. le_value (drop t bytes) width) one
        ∙ ap (λ t. le_value t width) (sym (drop-drop i bytes))
      where
        one : i + 1 ≡ suc i
        one = omega arith

    regroup :
        v + b * p + 2 ^ ((i + 1) * 8) * le_value (drop (i + 1) bytes) width
        ≡ v + p * (get_or (drop i bytes) 0 0 + 256 * le_value (drop 1 (drop i bytes)) width)
    regroup = omega (arith, ap₂ ◌*◌ (next_byte i) same, ap (λ (t : ℕ). p * t) (get_or-drop i bytes))

pub little_endian-eq-le_value :
    (bytes : List ℕ) (width : ℕ)
    → All IsByte bytes
    → little_endian bytes width ≡ le_value bytes width
unfolding little_endian
little_endian-eq-le_value bytes width h =
    omega (arith, little_endian_from-eq width bytes 0 0 h (omega arith))

-- Decoding undoes encoding.
pub le_value-le_bytes :
    (width value : ℕ) (rest : List ℕ)
    → value < 256 ^ width
    → le_value (le_bytes width value ++ rest) width ≡ value
le_value-le_bytes zero value rest h = omega arith
le_value-le_bytes (suc width) value rest h =
    omega (arith, le_value-le_bytes width (value / 256) rest (omega (arith, pow-suc 256 width)))

pub le_value-lt :
    (bytes : List ℕ) (width : ℕ) → All IsByte bytes → le_value bytes width < 256 ^ width
le_value-lt bytes zero h = omega arith
le_value-lt bytes (suc width) h = omega (
  arith,
  pow-suc 256 width,
  get_or-IsByte bytes 0 h,
  le_value-lt (drop 1 bytes) width (All-drop IsByte 1 bytes h),
)

-- The loop of `little_endian` decodes what `le_bytes` encodes.
pub little_endian-le_bytes :
    (width value : ℕ) (rest : List ℕ)
    → All IsByte rest
    → value < 256 ^ width
    → little_endian (le_bytes width value ++ rest) width ≡ value
little_endian-le_bytes width value rest h lt =
    little_endian-eq-le_value (le_bytes width value ++ rest) width (le_bytes-IsByte width value)
    ∙ le_value-le_bytes width value rest lt
  where
    le_bytes-IsByte : (w v : ℕ) → All IsByte (le_bytes w v ++ rest)
    le_bytes-IsByte zero v = h
    le_bytes-IsByte (suc w) v = (omega arith, le_bytes-IsByte w (v / 256))
