-- ===== src/Terminal/Cursor.antt =====
-- The cursor stays on the screen, and nothing outside the framebuffer is drawn on.
use native.Mathlib.Nat.{div-mul-le_self, div-le_self, le-div_iff_mul-le}
use mathlib.Core.Path.{subst}
use tunix_boot.Prelude.{
  ℕ, zero, suc, ◌+◌, ◌-◌, ◌*◌, ◌/◌, ◌%◌, ◌≡◌, ◌≤◌, ◌<◌, sym, ap, true, Option, some, List, [], ◌∷◌,
  arith, ltb, leb, ◌==◌, if◌then◌else◌,
}
use tunix_boot.Prelude.Branches.{if_by}
use tunix_boot.Prelude.Word.{u32_mod}
use tunix_boot.Util.Mem.{Memory}
use tunix_boot.Video.Framebuffer.{
  Framebuffer, framebuffer_valid, framebuffer_put, framebuffer_fill, framebuffer_move_rows,
}
use tunix_boot.Video.Framebuffer.Confined.{
  HasRows, framebuffer_valid-HasRows, InsideOnly, same-IsConfined, then-IsConfined,
  framebuffer_put-InsideOnly, framebuffer_fill-InsideOnly, framebuffer_move_rows-InsideOnly,
}
use tunix_boot.Terminal.{
  TerminalFont, Terminal, terminal_init, Screen, glyph_of, colour_of, draw_row, draw_rows,
  draw_glyph, kept_rows, scroll, newline, put_glyph, wrap, terminal_put, terminal_write,
}

-- The cells of the screen lie on the framebuffer, and the cursor is in a row of them, in a column or
-- just behind the last.
pub record IsOnScreen (t : Terminal) : Type 0 where
  pub pixels : HasRows t.fb
  pub some_columns : 0 < t.columns
  pub some_rows : 0 < t.rows
  pub across : t.columns * t.font.width ≤ t.fb.width
  pub down : t.rows * t.font.height ≤ t.fb.height
  pub narrow : t.columns ≤ 16384
  pub low : t.rows ≤ 16384
  pub column_in : t.column ≤ t.columns
  pub row_in : t.row < t.rows

-- A screen on a framebuffer of which nothing but its bytes has changed since the memory was `start`.
pub record Stays (fb : Framebuffer) (start : Memory) (screen : Screen) : Type 0 where
  pub same : screen.0.fb ≡ fb
  pub on_screen : IsOnScreen screen.0
  pub inside : InsideOnly fb start screen.1

module _ (fb : Framebuffer) (start : Memory) where
  -- Moving the cursor over the screen and drawing on the framebuffer keeps them.
  moved-Stays :
      (t : Terminal) (m after : Memory) (column row foreground : ℕ)
      → Stays fb start (t, m)
      → column ≤ t.columns
      → row < t.rows
      → InsideOnly t.fb m after
      → Stays fb start (record t { column = column; row = row; foreground = foreground }, after)
  moved-Stays t m after column row foreground s in_column in_row draws =
      let o = s.on_screen in
      record {
        same = s.same;
        on_screen = record {
          pixels = o.pixels;
          some_columns = o.some_columns;
          some_rows = o.some_rows;
          across = o.across;
          down = o.down;
          narrow = o.narrow;
          low = o.low;
          column_in = in_column;
          row_in = in_row;
        };
        inside =
            then-IsConfined _ _ start m after s.inside
              (subst (λ f. InsideOnly f m after) s.same draws);
      }

  draw_row-InsideOnly :
      (left : ℕ) (t : Terminal) (glyph : Option (ℕ → ℕ)) (x y row column : ℕ) (m : Memory)
      → HasRows t.fb
      → InsideOnly t.fb m (draw_row left t glyph x y row column m)
  unfolding draw_row
  draw_row-InsideOnly zero t glyph x y row column m rows = same-IsConfined _ _ m
  draw_row-InsideOnly (suc left) t glyph x y row column m rows =
      then-IsConfined _ _ m
        (framebuffer_put t.fb ((x + column) % u32_mod) ((y + row) % u32_mod)
          (colour_of t glyph row column) m)
        _ (framebuffer_put-InsideOnly t.fb rows _ _ (colour_of t glyph row column) m)
        (draw_row-InsideOnly left t glyph x y row (column + 1) _ rows)

  draw_rows-InsideOnly :
      (left : ℕ) (t : Terminal) (glyph : Option (ℕ → ℕ)) (x y row : ℕ) (m : Memory)
      → HasRows t.fb
      → InsideOnly t.fb m (draw_rows left t glyph x y row m)
  unfolding draw_rows
  draw_rows-InsideOnly zero t glyph x y row m rows = same-IsConfined _ _ m
  draw_rows-InsideOnly (suc left) t glyph x y row m rows =
      then-IsConfined _ _ m (draw_row t.font.width t glyph x y row 0 m) _
        (draw_row-InsideOnly t.font.width t glyph x y row 0 m rows)
        (draw_rows-InsideOnly left t glyph x y (row + 1) _ rows)

  scroll-Stays :
      (t : Terminal) (m : Memory) (row : ℕ)
      → Stays fb start (t, m)
      → Stays fb start (scroll (record t { column = 0; row = row }, m))
  unfolding scroll
  scroll-Stays t m row s =
      let o = s.on_screen in
      let kept : ℕ = kept_rows t in
      let next : Memory = framebuffer_move_rows t.fb 0 t.font.height kept m in
      moved-Stays t m (framebuffer_fill t.fb 0 kept t.fb.width t.font.height t.background next) 0
        (if ltb 0 t.rows then t.rows - 1 else 0) t.foreground s (omega arith)
        (ground (arith, o.some_rows))
        (then-IsConfined _ _ m next _
          (framebuffer_move_rows-InsideOnly t.fb o.pixels 0 t.font.height kept m)
          (framebuffer_fill-InsideOnly t.fb o.pixels 0 kept t.fb.width t.font.height t.background
            next))

  -- Wherever the column is, a newline puts the cursor on the screen.
  newline-Stays :
      (t : Terminal) (m : Memory) (column : ℕ)
      → Stays fb start (t, m)
      → Stays fb start (newline (record t { column = column }, m))
  unfolding newline
  newline-Stays t m column s =
      let o = s.on_screen in
      if_by (Stays fb start) (leb t.rows ((t.row + 1) % u32_mod))
        (λ past. scroll-Stays t m ((t.row + 1) % u32_mod) s)
        (λ fits.
          moved-Stays t m m 0 ((t.row + 1) % u32_mod) t.foreground s (omega arith)
            (ground (arith, fits)) (same-IsConfined _ _ m))

  wrap-Stays :
      (t : Terminal) (m : Memory) (column : ℕ)
      → Stays fb start (t, m)
      → Stays fb start (wrap (record t { column = column }, m))
  unfolding wrap
  wrap-Stays t m column s =
      if_by (Stays fb start) (leb t.columns column) (λ past. newline-Stays t m column s)
        (λ fits.
          moved-Stays t m m column t.row t.foreground s (ground (arith, fits)) s.on_screen.row_in
            (same-IsConfined _ _ m))

  wrap_lt :
      (t : Terminal) (m : Memory) → 0 < t.columns → (wrap (t, m)).0.column < (wrap (t, m)).0.columns
  unfolding wrap newline scroll
  wrap_lt t m some_columns =
      if_by (λ (s : Screen). s.0.column < s.0.columns) (leb t.columns t.column)
        (λ past.
          if_by (λ (s : Screen). s.0.column < s.0.columns) (leb t.rows ((t.row + 1) % u32_mod))
            (λ scrolls. some_columns) (λ stays. some_columns))
        (λ fits. ground (arith, fits))

  put_glyph-Stays :
      (character : ℕ) (s : Screen)
      → Stays fb start s
      → s.0.column < s.0.columns
      → Stays fb start (put_glyph character s)
  unfolding put_glyph draw_glyph
  put_glyph-Stays character (t, m) s lt =
      let o = s.on_screen in
      moved-Stays t m _ ((t.column + 1) % u32_mod) t.row t.foreground s (omega (arith, o.narrow))
        o.row_in
        (draw_rows-InsideOnly t.font.height t (glyph_of t.font character)
          (t.column * t.font.width % u32_mod) (t.row * t.font.height % u32_mod) 0 m o.pixels)

  terminal_put-Stays :
      (character : ℕ) (s : Screen) → Stays fb start s → Stays fb start (terminal_put character s)
  unfolding terminal_put
  terminal_put-Stays character (t, m) s =
      let P : Screen → Type 0 = Stays fb start in
      if_by P (character == 10) (λ newlines. newline-Stays t m t.column s)
        (λ other.
          if_by P (character == 13)
            (λ returns.
              moved-Stays t m m 0 t.row t.foreground s (omega arith) s.on_screen.row_in
                (same-IsConfined _ _ m))
            (λ another.
              if_by P (character == 9) (λ tabs. wrap-Stays t m ((t.column / 8 + 1) * 8 % u32_mod) s)
                (λ drawn.
                  put_glyph-Stays character (wrap (t, m)) (wrap-Stays t m t.column s)
                    (wrap_lt t m s.on_screen.some_columns))))

  terminal_write_keeps :
      (text : List ℕ) (s : Screen) → Stays fb start s → Stays fb start (terminal_write text s)
  unfolding terminal_write
  terminal_write_keeps [] s h = h
  terminal_write_keeps (c ∷ text) s h =
      terminal_write_keeps text (terminal_put c s) (terminal_put-Stays c s h)

-- A terminal that `terminal_init` returns has its cursor on the screen.
terminal_init-IsOnScreen :
    (fb : Framebuffer) (font : TerminalFont) (foreground background : ℕ) (t : Terminal)
    → terminal_init fb font foreground background ≡ some t
    → (t.fb ≡ fb) × IsOnScreen t
unfolding terminal_init
terminal_init-IsOnScreen fb font foreground background t e =
    let fresh : Terminal = record {
      fb = fb;
      font = font;
      columns = fb.width / font.width;
      rows = fb.height / font.height;
      column = 0;
      row = 0;
      foreground = foreground;
      background = background;
    } in
    let same : fresh ≡ t = ground (arith, e) in
    let valid : framebuffer_valid fb ≡ true = ground (arith, e) in
    let sizes : (0 < font.width)
        × (0 < font.height)
        × (font.width ≤ fb.width)
        × (font.height ≤ fb.height) =
      (ground (arith, e), ground (arith, e), ground (arith, e), ground (arith, e)) in
    let rows = framebuffer_valid-HasRows fb valid in
    let one_column : 1 ≤ fb.width / font.width = (le-div_iff_mul-le sizes.0).1 (omega arith) in
    let one_row : 1 ≤ fb.height / font.height = (le-div_iff_mul-le sizes.1).1 (omega arith) in
    (
      ap (λ (u : Terminal). u.fb) (sym same),
      subst IsOnScreen same (record {
        pixels = rows;
        some_columns = one_column;
        some_rows = one_row;
        across = div-mul-le_self fb.width font.width;
        down = div-mul-le_self fb.height font.height;
        narrow = omega (arith, div-le_self fb.width font.width, rows.width);
        low = omega (arith, div-le_self fb.height font.height, rows.height);
        column_in = omega arith;
        row_in = omega (arith, one_row);
      }),
    )

-- Whatever is written on a terminal that `terminal_init` returned, the cursor stays on the screen,
-- in a row of it and in a column or just behind the last, and no byte outside the framebuffer
-- changes.
pub terminal_write-Stays :
    (fb : Framebuffer) (font : TerminalFont) (foreground background : ℕ) (t : Terminal) (m : Memory)
    (text : List ℕ)
    → terminal_init fb font foreground background ≡ some t
    → Stays fb m (terminal_write text (t, m))
terminal_write-Stays fb font foreground background t m text e =
    let (same, on) = terminal_init-IsOnScreen fb font foreground background t e in
    terminal_write_keeps fb m text (t, m)
      (record { same = same; on_screen = on; inside = same-IsConfined _ _ m })
