-- ===== src/Terminal/Drawn.antt =====
-- What a character leaves on the screen, pixel by pixel.
use native.Mathlib.Nat.{mod-eq_of_lt, mul-le-mul_right, zero-div}
use tunix_boot.Prelude.{
  ℕ, zero, suc, ◌+◌, ◌-◌, ◌*◌, ◌/◌, ◌%◌, ◌^◌, bit_and, inl, inr, true, not, ◌&&◌, none, some, ltb,
  leb, Option-cases, ◌≡◌, ◌≤◌, ◌<◌, refl, ap, ◌∙◌, Bool, false, ◌||◌, Option, arith, ◌==◌,
  if◌then◌else◌,
}
use tunix_boot.Prelude.Bits.{bit_and-zero, bit_and_power, div-two_pow-suc}
use tunix_boot.Prelude.Branches.{overlay}
use tunix_boot.Prelude.Word.{u32_mod}
use tunix_boot.Util.Mem.{Memory}
use tunix_boot.Video.Framebuffer.{framebuffer_put, framebuffer_get}
use tunix_boot.Video.Framebuffer.Confined.{HasRows}
use tunix_boot.Video.Framebuffer.Pixels.{shown, same_pixel, framebuffer_get-put}
use tunix_boot.Video.Framebuffer.Fill.{in_rectangle}
use tunix_boot.Terminal.{
  TerminalFont, Terminal, Screen, is_set, glyph_of, colour_of, draw_row, draw_rows, draw_glyph,
  put_glyph, wrap, terminal_put,
}
use tunix_boot.Terminal.Cursor.{IsOnScreen}

module _ (t : Terminal) (rows : HasRows t.fb) (px py : ℕ) (in_row : px < t.fb.width)
    (in_column : py < t.fb.height) where
  -- What a glyph at a place shows at the pixel.
  abbrev cell : Option (ℕ → ℕ) → ℕ → ℕ → ℕ
  cell glyph x y = shown t.fb (colour_of t glyph (py - y) (px - x))

  draw_row-get :
      (left : ℕ) (glyph : Option (ℕ → ℕ)) (x y row column : ℕ) (m : Memory)
      → x + column + left ≤ t.fb.width
      → y + row < t.fb.height
      → framebuffer_get t.fb px py (draw_row left t glyph x y row column m) ≡ (
          if in_rectangle (x + column) (y + row) left 1 px py
          then cell glyph x y
          else framebuffer_get t.fb px py m)
  unfolding draw_row
  draw_row-get zero glyph x y row column m across low =
      let out : in_rectangle (x + column) (y + row) 0 1 px py ≡ false = ground arith in rw out refl
  draw_row-get (suc left) glyph x y row column m across low =
      let colour : ℕ = colour_of t glyph row column in
      let a : (x + column) % u32_mod ≡ x + column = mod-eq_of_lt (omega (arith, rows.width)) in
      let b : (y + row) % u32_mod ≡ y + row = mod-eq_of_lt (omega (arith, rows.height)) in
      let next : Memory =
        framebuffer_put t.fb ((x + column) % u32_mod) ((y + row) % u32_mod) colour m in
      let same : next ≡ framebuffer_put t.fb (x + column) (y + row) colour m =
        ap (λ s. framebuffer_put t.fb s ((y + row) % u32_mod) colour m) a
        ∙ ap (λ s. framebuffer_put t.fb (x + column) s colour m) b in
      draw_row-get left glyph x y row (column + 1) next (omega arith) low
      ∙ ap
          (λ s.
            if in_rectangle (x + (column + 1)) (y + row) left 1 px py then cell glyph x y else s)
          (ap (framebuffer_get t.fb px py) same
            ∙ framebuffer_get-put t.fb rows (x + column) (y + row) px py colour m (omega arith) low
                in_row in_column)
      ∙ overlay (in_rectangle (x + (column + 1)) (y + row) left 1 px py)
          (same_pixel (x + column) (y + row) px py)
          (in_rectangle (x + column) (y + row) (suc left) 1 px py) _ _ _ _ (ground arith)
          (λ later. refl)
          (λ not_later here.
            let c : column ≡ px - x = ground (arith, here) in
            let r : row ≡ py - y = ground (arith, here) in
            ap (λ s. shown t.fb (colour_of t glyph row s)) c
            ∙ ap (λ s. shown t.fb (colour_of t glyph s (px - x))) r)

  draw_rows-get :
      (left : ℕ) (glyph : Option (ℕ → ℕ)) (x y row : ℕ) (m : Memory)
      → x + t.font.width ≤ t.fb.width
      → y + row + left ≤ t.fb.height
      → framebuffer_get t.fb px py (draw_rows left t glyph x y row m) ≡ (
          if in_rectangle x (y + row) t.font.width left px py
          then cell glyph x y
          else framebuffer_get t.fb px py m)
  unfolding draw_rows
  draw_rows-get zero glyph x y row m across down =
      let out : in_rectangle x (y + row) t.font.width 0 px py ≡ false = ground arith in rw out refl
  draw_rows-get (suc left) glyph x y row m across down =
      let next : Memory = draw_row t.font.width t glyph x y row 0 m in
      let start : x + 0 ≡ x = omega arith in
      draw_rows-get left glyph x y (row + 1) next across (omega arith)
      ∙ ap
          (λ s.
            if in_rectangle x (y + (row + 1)) t.font.width left px py then cell glyph x y else s)
          (draw_row-get t.font.width glyph x y row 0 m (omega arith) (omega arith)
            ∙ ap
                (λ s.
                  if in_rectangle s (y + row) t.font.width 1 px py
                  then cell glyph x y
                  else framebuffer_get t.fb px py m)
                start)
      ∙ overlay (in_rectangle x (y + (row + 1)) t.font.width left px py)
          (in_rectangle x (y + row) t.font.width 1 px py)
          (in_rectangle x (y + row) t.font.width (suc left) px py) _ _ _ _ (ground arith)
          (λ later. refl) (λ not_later here. refl)

-- Whether a character is acted on and not drawn.
abbrev pub is_control : ℕ → Bool
is_control character = (character == 10) || (character == 13) || (character == 9)

put_plain :
    (t : Terminal) (m : Memory) (character : ℕ)
    → is_control character ≡ false
    → t.column < t.columns
    → terminal_put character (t, m) ≡ put_glyph character (t, m)
unfolding terminal_put wrap
put_plain t m character plain lt = ground (arith, plain, lt)

-- Whether a pixel of the character's cell is set: by the bits of its glyph, the highest for the first
-- column, and everywhere if the font has no such glyph.
abbrev pub is_lit : TerminalFont → ℕ → ℕ → ℕ → Bool
is_lit font character row column = elim font.glyphs [
  | none ↦ true
  | some glyphs ↦
      if leb font.first character && ltb character (font.first + font.count)
      then ltb column 8
        && (glyphs ((character - font.first) * font.height + row) / 2 ^ (7 - column) % 2 == 1)
      else true
]

-- The mask of a column picks the bit.
mask_lem :
    (byte column : ℕ)
    → not (bit_and byte (0x80 / 2 ^ column) == 0)
      ≡ (ltb column 8 && (byte / 2 ^ (7 - column) % 2 == 1))
mask_lem byte zero = ground (arith, bit_and_power 7 byte)
mask_lem byte (suc zero) = ground (arith, bit_and_power 6 byte)
mask_lem byte (suc (suc zero)) = ground (arith, bit_and_power 5 byte)
mask_lem byte (suc (suc (suc zero))) = ground (arith, bit_and_power 4 byte)
mask_lem byte (suc (suc (suc (suc zero)))) = ground (arith, bit_and_power 3 byte)
mask_lem byte (suc (suc (suc (suc (suc zero))))) = ground (arith, bit_and_power 2 byte)
mask_lem byte (suc (suc (suc (suc (suc (suc zero)))))) = ground (arith, bit_and_power 1 byte)
mask_lem byte (suc (suc (suc (suc (suc (suc (suc zero))))))) = ground (arith, bit_and_power 0 byte)
mask_lem byte (suc (suc (suc (suc (suc (suc (suc (suc c)))))))) =
    let past : 0x80 / 2 ^ (suc (suc (suc (suc (suc (suc (suc (suc c)))))))) ≡ 0 = omega (
      arith,
      div-two_pow-suc 128 (suc (suc (suc (suc (suc (suc (suc c))))))),
      div-two_pow-suc 64 (suc (suc (suc (suc (suc (suc c)))))),
      div-two_pow-suc 32 (suc (suc (suc (suc (suc c))))),
      div-two_pow-suc 16 (suc (suc (suc (suc c)))),
      div-two_pow-suc 8 (suc (suc (suc c))),
      div-two_pow-suc 4 (suc (suc c)),
      div-two_pow-suc 2 (suc c),
      div-two_pow-suc 1 c,
      zero-div (2 ^ c),
    ) in
    ground (arith, past, bit_and-zero byte)

is_set-is_lit :
    (font : TerminalFont) (character row column : ℕ)
    → is_set (glyph_of font character) row column ≡ is_lit font character row column
unfolding is_set glyph_of
is_set-is_lit font character row column = elim (Option-cases font.glyphs) [
  | inl missing ↦ ground (arith, missing)
  | inr (glyphs, there) ↦
      ground (arith, there, mask_lem (glyphs ((character - font.first) * font.height + row)) column)
]

-- A character that is not a control character, with the cursor in a cell of the screen, sets the
-- pixels of that cell, and no other on the screen, to the foreground where its glyph has a bit and
-- to the background where it has none, everywhere to the foreground if the font has no such glyph;
-- and the cursor goes on by one column.
pub terminal_put-draws :
    (t : Terminal) (m : Memory) (character px py : ℕ)
    → IsOnScreen t
    → t.column < t.columns
    → is_control character ≡ false
    → px < t.fb.width
    → py < t.fb.height
    → (framebuffer_get t.fb px py (terminal_put character (t, m)).1 ≡ (
        if in_rectangle
          (t.column * t.font.width)
          (t.row * t.font.height)
          t.font.width
          t.font.height
          px
          py
        then shown t.fb (
            if is_lit t.font character (py - t.row * t.font.height) (px - t.column * t.font.width)
            then t.foreground
            else t.background)
        else framebuffer_get t.fb px py m))
      × ((terminal_put character (t, m)).0 ≡ record t { column = t.column + 1 })
unfolding put_glyph draw_glyph
terminal_put-draws t m character px py o lt plain in_row in_column =
    let x : ℕ = t.column * t.font.width in
    let y : ℕ = t.row * t.font.height in
    let right : (t.column + 1) * t.font.width ≤ t.columns * t.font.width =
      mul-le-mul_right t.font.width (omega arith) in
    let right_split : (t.column + 1) * t.font.width ≡ x + t.font.width = grind arith in
    let below : (t.row + 1) * t.font.height ≤ t.rows * t.font.height =
      mul-le-mul_right t.font.height (omega (arith, o.row_in)) in
    let below_split : (t.row + 1) * t.font.height ≡ y + t.font.height = grind arith in
    let across : x + t.font.width ≤ t.fb.width = omega (arith, right, right_split, o.across) in
    let down : y + 0 + t.font.height ≤ t.fb.height = omega (arith, below, below_split, o.down) in
    let a : x % u32_mod ≡ x = mod-eq_of_lt (omega (arith, across, o.pixels.width)) in
    let b : y % u32_mod ≡ y = mod-eq_of_lt (omega (arith, down, o.pixels.height)) in
    let c : (t.column + 1) % u32_mod ≡ t.column + 1 = mod-eq_of_lt (omega (arith, o.narrow)) in
    let glyph : Option (ℕ → ℕ) = glyph_of t.font character in
    let run : terminal_put character (t, m) ≡ (
      record t { column = t.column + 1 },
      draw_rows t.font.height t (glyph_of t.font character) x y 0 m,
    ) =
      put_plain t m character plain lt
      ∙ ap
          (λ s. (
            record t { column = s },
            draw_rows t.font.height t glyph (x % u32_mod) (y % u32_mod) 0 m,
          ))
          c
      ∙ ap
          (λ s. (
            record t { column = t.column + 1 },
            draw_rows t.font.height t glyph s (y % u32_mod) 0 m,
          ))
          a
      ∙ ap (λ s. (record t { column = t.column + 1 }, draw_rows t.font.height t glyph x s 0 m)) b in
    (
      ap (λ (s : Screen). framebuffer_get t.fb px py s.1) run
          ∙ draw_rows-get t o.pixels px py in_row in_column t.font.height
              (glyph_of t.font character) x y 0 m across down
          ∙ (let z : y + 0 ≡ y = omega arith in
              ap
                (λ s.
                  if in_rectangle x s t.font.width t.font.height px py
                  then shown t.fb (colour_of t (glyph_of t.font character) (py - y) (px - x))
                  else framebuffer_get t.fb px py m)
                z)
          ∙ ap
              (λ s.
                if in_rectangle x y t.font.width t.font.height px py
                then shown t.fb (if s then t.foreground else t.background)
                else framebuffer_get t.fb px py m)
              (is_set-is_lit t.font character (py - y) (px - x)),
      ap (λ (s : Screen). s.0) run,
    )
