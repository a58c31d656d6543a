-- ===== src/Video/Framebuffer/Pixels.antt =====
-- What the pixels show: `framebuffer_get` after `framebuffer_put` and `framebuffer_fill`.
use native.Mathlib.Nat.{mul-le-mul_right, mod-eq_of_lt}
use mathlib.Core.Path.{subst}
use tunix_boot.Prelude.{
  ℕ, zero, suc, ◌+◌, ◌*◌, ◌/◌, ◌%◌, ◌^◌, bit_or, ◌≡◌, ◌⊎◌, ◌≤◌, ◌<◌, inl, inr, refl, sym, ap, ◌∙◌,
  Bool, false, ◌&&◌, ◌||◌, arith, ltb, leb, ◌==◌, if◌then◌else◌, Bool-cases,
}
use tunix_boot.Prelude.Bits.{bit_or_disjoint}
use tunix_boot.Prelude.Word.{u8_mod, u32_mod}
use tunix_boot.Util.Mem.{Memory, store}
use tunix_boot.Video.Framebuffer.{
  Framebuffer, bytes_per_pixel, pixel_at, put_bytes, framebuffer_put, get_bytes, framebuffer_get,
}
use tunix_boot.Video.Framebuffer.Confined.{HasRows, put_bytes-IsConfined}

join :
    (k r q : ℕ) → r < 2 ^ k → q * 2 ^ k < u32_mod → bit_or r (q * 2 ^ k % u32_mod) ≡ r + q * 2 ^ k
join k r q low fits = ap (bit_or r) (mod-eq_of_lt fits) ∙ bit_or_disjoint k r q low

-- One more byte of a colour, put together with those below it.
next_byte :
    (i colour : ℕ)
    → i ≤ 3
    → bit_or (colour % 2 ^ (i * 8)) (colour / 2 ^ (i * 8) % u8_mod * 2 ^ (i * 8) % u32_mod)
      ≡ colour % 2 ^ ((i + 1) * 8)
next_byte zero colour le =
    join 0 (colour % 1) (colour / 1 % 256) (omega arith) (omega arith) ∙ omega arith
next_byte (suc zero) colour le =
    join 8 (colour % 2 ^ 8) (colour / 2 ^ 8 % 256) (omega arith) (omega arith) ∙ omega arith
next_byte (suc (suc zero)) colour le =
    join 16 (colour % 2 ^ 16) (colour / 2 ^ 16 % 256) (omega arith) (omega arith) ∙ omega arith
next_byte (suc (suc (suc zero))) colour le =
    join 24 (colour % 2 ^ 24) (colour / 2 ^ 24 % 256) (omega arith) (omega arith) ∙ omega arith
next_byte (suc (suc (suc (suc i)))) colour le = absurd (omega arith)

-- The bytes that are stored.
put_bytes-stored :
    (left index at colour : ℕ) (m : Memory) (i : ℕ)
    → index ≤ i
    → i < index + left
    → put_bytes left index at colour m (at + i) ≡ colour / 2 ^ (i * 8) % u8_mod
unfolding put_bytes
put_bytes-stored zero index at colour m i low high = absurd (omega arith)
put_bytes-stored (suc left) index at colour m i low high = elim (Bool-cases (i == index)) [
  | inl here ↦
      let same : index ≡ i = ground arith in
      (put_bytes-IsConfined left (index + 1) at colour _).kept (at + i) (inl (omega (arith, same)))
      ∙ subst
          (λ t.
            store m (at + t) (colour / 2 ^ (t * 8) % u8_mod) (at + i)
            ≡ colour / 2 ^ (i * 8) % u8_mod)
          (sym same) (ground arith)
  | inr later ↦ put_bytes-stored left (index + 1) at colour _ i (ground arith) (omega arith)
]

-- The bytes of a colour are put together again.
get_bytes-put :
    (left index at colour : ℕ) (m : Memory)
    → index + left ≤ 4
    → ((i : ℕ) → index ≤ i → i < index + left → m (at + i) ≡ colour / 2 ^ (i * 8) % u8_mod)
    → get_bytes left index at (colour % 2 ^ (index * 8)) m ≡ colour % 2 ^ ((index + left) * 8)
unfolding get_bytes
get_bytes-put zero index at colour m fits stored =
    let e : index ≡ index + 0 = omega arith in ap (λ t. colour % 2 ^ (t * 8)) e
get_bytes-put (suc left) index at colour m fits stored =
    let here = stored index (omega arith) (omega arith) in
    let end : index + 1 + left ≡ index + suc left = omega arith in
    ap
      (λ b.
        get_bytes left (index + 1) at
          (bit_or (colour % 2 ^ (index * 8)) (b * 2 ^ (index * 8) % u32_mod)) m)
      here
    ∙ ap (λ c. get_bytes left (index + 1) at c m) (next_byte index colour (omega arith))
    ∙ get_bytes-put left (index + 1) at colour m (omega arith)
        (λ i low high. stored i (omega arith) (omega arith))
    ∙ ap (λ t. colour % 2 ^ (t * 8)) end

-- What is read depends on the bytes of the pixel only, wherever they stand.
pub get_bytes-moved :
    (left index at from colour : ℕ) (m n : Memory)
    → ((i : ℕ) → index ≤ i → i < index + left → m (at + i) ≡ n (from + i))
    → get_bytes left index at colour m ≡ get_bytes left index from colour n
unfolding get_bytes
get_bytes-moved zero index at from colour m n same = refl
get_bytes-moved (suc left) index at from colour m n same =
    ap (λ b. get_bytes left (index + 1) at (bit_or colour (b * 2 ^ (index * 8) % u32_mod)) m)
      (same index (omega arith) (omega arith))
    ∙ get_bytes-moved left (index + 1) at from _ m n
        (λ i low high. same i (omega arith) (omega arith))

-- The colours that the framebuffer can show: as many of the low bits as it has bytes for.
abbrev pub shown : Framebuffer → ℕ → ℕ
shown fb colour = colour % 2 ^ (bytes_per_pixel fb * 8)

abbrev pub same_pixel : ℕ → ℕ → ℕ → ℕ → Bool
same_pixel x y px py = (x == px) && (y == py)

module _ (fb : Framebuffer) (rows : HasRows fb) where
  abbrev bpp : ℕ
  bpp = bytes_per_pixel fb

  row_before : (x y px py : ℕ) → x < fb.width → y < py → pixel_at fb x y + bpp ≤ pixel_at fb px py
  row_before x y px py in_row above =
      let across : (x + 1) * bpp ≤ fb.width * bpp = mul-le-mul_right bpp (omega arith) in
      let split : (x + 1) * bpp ≡ x * bpp + bpp = grind arith in
      let down : (y + 1) * fb.pitch ≤ py * fb.pitch = mul-le-mul_right fb.pitch (omega arith) in
      let one : (y + 1) * fb.pitch ≡ y * fb.pitch + fb.pitch = grind arith in
      omega (arith, across, split, down, one, rows.wide)

  column_before : (x y px py : ℕ) → y ≡ py → x < px → pixel_at fb x y + bpp ≤ pixel_at fb px py
  column_before x y px py level before =
      let gap : (x + 1) * bpp ≤ px * bpp = mul-le-mul_right bpp (omega arith) in
      let split : (x + 1) * bpp ≡ x * bpp + bpp = grind arith in
      omega (arith, gap, split, ap (λ t. t * fb.pitch) level)

  -- Two pixels do not share bytes.
  pixels_apart :
      (x y px py : ℕ)
      → x < fb.width
      → px < fb.width
      → same_pixel x y px py ≡ false
      → (pixel_at fb x y + bpp ≤ pixel_at fb px py) ⊎ (pixel_at fb px py + bpp ≤ pixel_at fb x y)
  pixels_apart x y px py in_row in_row' differ = elim (Bool-cases (ltb y py)) [
    | inl above ↦ inl (row_before x y px py in_row (ground arith))
    | inr not_above ↦ elim (Bool-cases (ltb py y)) [
      | inl below ↦ inr (row_before px py x y in_row' (ground arith))
      | inr not_below ↦ elim (Bool-cases (ltb x px)) [
        | inl left ↦ inl (column_before x y px py (ground arith) (ground arith))
        | inr not_left ↦ inr (column_before px py x y (ground arith) (ground (arith, differ)))
      ]
    ]
  ]

  -- A pixel that was put is read as far as its bytes go, and every other one as before.
  pub framebuffer_get-put :
      (x y px py colour : ℕ) (m : Memory)
      → x < fb.width
      → y < fb.height
      → px < fb.width
      → py < fb.height
      → framebuffer_get fb px py (framebuffer_put fb x y colour m)
        ≡ (if same_pixel x y px py then shown fb colour else framebuffer_get fb px py m)
  unfolding framebuffer_get framebuffer_put
  framebuffer_get-put x y px py colour m in_row in_column in_row' in_column' =
      let on : (leb fb.width x || leb fb.height y) ≡ false = ground arith in
      let on' : (leb fb.width px || leb fb.height py) ≡ false = ground arith in
      let at : ℕ = pixel_at fb x y in
      let after : Memory = put_bytes bpp 0 at colour m in
      elim (Bool-cases (same_pixel x y px py)) [
        | inl same ↦
            let place : at ≡ pixel_at fb px py =
              (let a : x ≡ px = ground (arith, same) in
                let b : y ≡ py = ground (arith, same) in cc) in
            let start : 0 ≡ colour % 2 ^ (0 * 8) = omega arith in
            let end : (0 + bpp) * 8 ≡ bpp * 8 = omega arith in
            rw (on, on', same)
              (ap (λ p. get_bytes bpp 0 p 0 after) (sym place)
                ∙ ap (λ c. get_bytes bpp 0 at c after) start
                ∙ get_bytes-put bpp 0 at colour after (omega (arith, rows.few_bytes))
                    (λ i low high. put_bytes-stored bpp 0 at colour m i low high)
                ∙ ap (λ t. colour % 2 ^ t) end)
        | inr differ ↦
            let apart = pixels_apart x y px py in_row in_row' differ in
            rw (on, on', differ)
              (get_bytes-moved bpp 0 (pixel_at fb px py) (pixel_at fb px py) 0 after m
                (λ i low high.
                  (put_bytes-IsConfined bpp 0 at colour m).kept (pixel_at fb px py + i)
                    (ground arith)))
      ]
