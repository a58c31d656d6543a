-- ===== src/Tests/Screen.antt =====
-- src/video/framebuffer.c and src/terminal/terminal.c on a screen of six by four pixels of three bytes,
-- with a font of two by two pixels and one character, `A`.
use tunix_boot.Prelude.{ℕ, ◌≡◌, refl, some, List, [], ◌∷◌, arith, if◌then◌else◌, ◌==◌}
use tunix_boot.Util.Mem.{Memory}
use tunix_boot.Video.Framebuffer.{
  Framebuffer, bytes_per_pixel, channel_valid, framebuffer_valid, put_bytes, get_bytes,
  framebuffer_get, fill_row, fill_rows, framebuffer_fill, framebuffer_move_rows,
}
use tunix_boot.Video.Framebuffer.Confined.{HasRows, framebuffer_valid-HasRows}
use tunix_boot.Video.Framebuffer.Fill.{framebuffer_get-fill}
use tunix_boot.Video.Framebuffer.Move.{framebuffer_get-move}
use tunix_boot.Terminal.{
  TerminalFont, Terminal, terminal_init, glyph_of, is_set, terminal_put, terminal_write,
}
use tunix_boot.Terminal.Cursor.{IsOnScreen, Stays, terminal_write-Stays}
use tunix_boot.Terminal.Drawn.{terminal_put-draws}
use tunix_boot.Terminal.Scrolled.{scrolled, newline_scrolls}

abbrev screen : Framebuffer
screen = record {
  base = 1000;
  width = 6;
  height = 4;
  pitch = 20;
  bits_per_pixel = 24;
  red = record { shift = 16; bits = 8 };
  green = record { shift = 8; bits = 8 };
  blue = record { shift = 0; bits = 8 };
}

abbrev blank : Memory
blank a = 0

screen-HasRows : HasRows screen
unfolding framebuffer_valid bytes_per_pixel channel_valid
screen-HasRows = framebuffer_valid-HasRows screen refl

-- A rectangle that runs past the edge, then a row moved over its neighbour.
abbrev drawn : Memory
drawn = framebuffer_fill screen 4 1 9 2 0x1234567 blank

fill_run :
    framebuffer_get screen 5 2 drawn
      ∷ framebuffer_get screen 5 3 drawn
      ∷ framebuffer_get screen 3 1 drawn
      ∷ []
    ≡ 0x234567 ∷ 0 ∷ 0 ∷ []
unfolding framebuffer_get framebuffer_fill fill_rows fill_row put_bytes get_bytes bytes_per_pixel
fill_run = refl

framebuffer_get-fill_example :
    framebuffer_get screen 5 2 (framebuffer_fill screen 4 1 9 2 0x1234567 blank) ≡ 0x234567
unfolding bytes_per_pixel
framebuffer_get-fill_example =
    framebuffer_get-fill screen screen-HasRows 5 2 (omega arith) (omega arith) 4 1 9 2 0x1234567
      blank

framebuffer_get-move_example :
    framebuffer_get screen 5 3 (framebuffer_move_rows screen 2 1 9 drawn)
    ≡ framebuffer_get screen 5 2 drawn
framebuffer_get-move_example =
    framebuffer_get-move screen screen-HasRows 5 (omega arith) 2 1 9 3 drawn (omega arith)

abbrev glyphs : ℕ → ℕ
glyphs i = if i == 0 then 0x80 else 0x40

abbrev font : TerminalFont
font = record { glyphs = some glyphs; width = 2; height = 2; first = 65; count = 1 }

abbrev terminal : Terminal
terminal = record {
  fb = screen;
  font = font;
  columns = 3;
  rows = 2;
  column = 0;
  row = 0;
  foreground = 7;
  background = 1;
}

init_run : terminal_init screen font 7 1 ≡ some terminal
unfolding terminal_init framebuffer_valid bytes_per_pixel channel_valid
init_run = refl

-- `AA`, tab, `A`, newline, newline.
abbrev text : List ℕ
text = 65 ∷ 65 ∷ 9 ∷ 65 ∷ 10 ∷ 10 ∷ []

terminal_write-Stays_example : Stays screen blank (terminal_write text (terminal, blank))
terminal_write-Stays_example = terminal_write-Stays screen font 7 1 terminal blank text init_run

terminal-IsOnScreen : IsOnScreen terminal
terminal-IsOnScreen = record {
  pixels = screen-HasRows;
  some_columns = omega arith;
  some_rows = omega arith;
  across = omega arith;
  down = omega arith;
  narrow = omega arith;
  low = omega arith;
  column_in = omega arith;
  row_in = omega arith;
}

terminal_put-draws_example :
    (framebuffer_get screen 1 1 (terminal_put 65 (terminal, blank)).1 ≡ 7)
    × ((terminal_put 65 (terminal, blank)).0 ≡ record terminal { column = 1 })
unfolding glyph_of is_set bytes_per_pixel
terminal_put-draws_example =
    terminal_put-draws terminal blank 65 1 1 terminal-IsOnScreen (omega arith) refl (omega arith)
      (omega arith)

abbrev last_row : Terminal
last_row = record terminal { row = 1 }

last_row-IsOnScreen : IsOnScreen last_row
last_row-IsOnScreen = record {
  pixels = screen-HasRows;
  some_columns = omega arith;
  some_rows = omega arith;
  across = omega arith;
  down = omega arith;
  narrow = omega arith;
  low = omega arith;
  column_in = omega arith;
  row_in = omega arith;
}

newline_scrolls_example :
    (framebuffer_get screen 5 0 (terminal_put 10 (last_row, drawn)).1 ≡ scrolled last_row drawn 5 0)
    × ((terminal_put 10 (last_row, drawn)).0 ≡ record last_row { column = 0; row = 1 })
newline_scrolls_example =
    newline_scrolls last_row drawn 5 0 last_row-IsOnScreen refl (omega arith) (omega arith)
