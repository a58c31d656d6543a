-- ===== src/Terminal.antt =====
-- src/terminal/terminal.c: text on a framebuffer. The glyphs of a font are a function of the offset;
-- they lie outside the memory that is drawn on.
pub mod Cursor
pub mod Drawn
pub mod Scrolled
use Prim.Native.Nat.{bit_and}
use tunix_boot.Prelude.{
  ℕ, zero, suc, ◌+◌, ◌-◌, ◌*◌, ◌/◌, ◌%◌, ◌^◌, Bool, true, false, not, ◌||◌, Option, none, some,
  List, [], ◌∷◌, ltb, leb, ◌==◌, if◌then◌else◌,
}
use tunix_boot.Prelude.Word.{u8_mod, u32_mod}
use tunix_boot.Util.Mem.{Memory}
use tunix_boot.Video.Framebuffer.{
  Framebuffer, framebuffer_valid, framebuffer_put, framebuffer_fill, framebuffer_move_rows,
}

pub record TerminalFont : Type 0 where
  pub glyphs : Option (ℕ → ℕ)
  pub width : ℕ
  pub height : ℕ
  pub first : ℕ
  pub count : ℕ

pub record Terminal : Type 0 where
  pub fb : Framebuffer
  pub font : TerminalFont
  pub columns : ℕ
  pub rows : ℕ
  pub column : ℕ
  pub row : ℕ
  pub foreground : ℕ
  pub background : ℕ

abbrev pub has_glyphs : TerminalFont → Bool
has_glyphs font = elim font.glyphs [ none ↦ false | some glyphs ↦ true ]

-- `terminal_init` of pointers that are not NULL.
unfoldable pub terminal_init : Framebuffer → TerminalFont → ℕ → ℕ → Option Terminal
terminal_init fb font foreground background =
    if not (has_glyphs font)
    then none
    else if not (framebuffer_valid fb)
    then none
    else if (font.width == 0) || ltb 8 font.width
    then none
    else if (font.height == 0) || (font.count == 0)
    then none
    else if ltb fb.width font.width || ltb fb.height font.height
    then none
    else some (record {
      fb = fb;
      font = font;
      columns = fb.width / font.width;
      rows = fb.height / font.height;
      column = 0;
      row = 0;
      foreground = foreground;
      background = background;
    })

-- A terminal and the memory it draws on.
abbrev pub Screen : Type 0
Screen = Terminal × Memory

unfoldable pub terminal_clear : Screen → Screen
terminal_clear (t, m) = (
  record t { column = 0; row = 0 },
  framebuffer_fill t.fb 0 0 t.fb.width t.fb.height t.background m,
)

unfoldable pub terminal_set_foreground : ℕ → Terminal → Terminal
terminal_set_foreground colour t = record t { foreground = colour }

-- The rows of a glyph, from its first byte on.
unfoldable pub glyph_of : TerminalFont → ℕ → Option (ℕ → ℕ)
glyph_of font character =
    if ltb character font.first
    then none
    else if leb font.count (character - font.first)
    then none
    else elim font.glyphs [
      | none ↦ none
      | some glyphs ↦ some (λ row. glyphs ((character - font.first) * font.height + row))
    ]

-- Whether a glyph has a pixel set; the replacement for a missing one is filled.
unfoldable pub is_set : Option (ℕ → ℕ) → ℕ → ℕ → Bool
is_set none row column = true
is_set (some glyph) row column = not (bit_and (glyph row) (0x80 / 2 ^ column) == 0)

abbrev pub colour_of : Terminal → Option (ℕ → ℕ) → ℕ → ℕ → ℕ
colour_of t glyph row column = if is_set glyph row column then t.foreground else t.background

-- One row of a glyph, `left` columns to go.
unfoldable pub draw_row : ℕ → Terminal → Option (ℕ → ℕ) → ℕ → ℕ → ℕ → ℕ → Memory → Memory
draw_row zero t glyph x y row column m = m
draw_row (suc left) t glyph x y row column m = draw_row left t glyph x y row (column + 1) (
    framebuffer_put t.fb ((x + column) % u32_mod) ((y + row) % u32_mod)
      (colour_of t glyph row column) m)

-- The rows, `left` to go.
unfoldable pub draw_rows : ℕ → Terminal → Option (ℕ → ℕ) → ℕ → ℕ → ℕ → Memory → Memory
draw_rows zero t glyph x y row m = m
draw_rows (suc left) t glyph x y row m =
    draw_rows left t glyph x y (row + 1) (draw_row t.font.width t glyph x y row 0 m)

unfoldable pub draw_glyph : Terminal → ℕ → ℕ → ℕ → Memory → Memory
draw_glyph t character x y m = draw_rows t.font.height t (glyph_of t.font character) x y 0 m

-- The rows of pixels that a scroll keeps.
abbrev pub kept_rows : Terminal → ℕ
kept_rows t = if ltb 0 t.rows then (t.rows - 1) * t.font.height % u32_mod else 0

unfoldable pub scroll : Screen → Screen
scroll (t, m) = (
  record t { row = if ltb 0 t.rows then t.rows - 1 else 0 },
  framebuffer_fill t.fb 0 (kept_rows t) t.fb.width t.font.height t.background
      (framebuffer_move_rows t.fb 0 t.font.height (kept_rows t) m),
)

-- The count of a `uint32_t`.
unfoldable pub newline : Screen → Screen
newline (t, m) =
    let t' = record t { column = 0; row = (t.row + 1) % u32_mod } in
    if leb t'.rows t'.row then scroll (t', m) else (t', m)

-- A character that is drawn, once the cursor is on the screen.
unfoldable pub put_glyph : ℕ → Screen → Screen
put_glyph character (t, m) = (
  record t { column = (t.column + 1) % u32_mod },
  draw_glyph t character (t.column * t.font.width % u32_mod) (t.row * t.font.height % u32_mod) m,
)

-- A newline if the cursor is past the edge.
unfoldable pub wrap : Screen → Screen
wrap (t, m) = if leb t.columns t.column then newline (t, m) else (t, m)

-- The character as an `unsigned char`.
unfoldable pub terminal_put : ℕ → Screen → Screen
terminal_put character (t, m) =
    if character == 10
    then newline (t, m)
    else if character == 13
    then (record t { column = 0 }, m)
    else if character == 9
    then wrap (record t { column = (t.column / 8 + 1) * 8 % u32_mod }, m)
    else put_glyph character (wrap (t, m))

-- The text is the bytes in front of its end.
unfoldable pub terminal_write : List ℕ → Screen → Screen
terminal_write [] screen = screen
terminal_write (c ∷ text) screen = terminal_write text (terminal_put c screen)
