-- ===== src/Terminal/Scrolled.antt =====
-- What scrolling leaves on the screen, pixel by pixel.
use native.Mathlib.Nat.{mod-eq_of_lt}
use tunix_boot.Prelude.{
  ℕ, ◌+◌, ◌-◌, ◌*◌, ◌%◌, ◌≡◌, ◌≤◌, ◌<◌, inl, inr, refl, ap, ◌∙◌, true, false, arith, ltb, leb,
  if◌then◌else◌, Bool-cases,
}
use tunix_boot.Prelude.Word.{u32_mod}
use tunix_boot.Util.Mem.{Memory}
use tunix_boot.Video.Framebuffer.{framebuffer_get, framebuffer_move_rows}
use tunix_boot.Video.Framebuffer.Pixels.{shown}
use tunix_boot.Video.Framebuffer.Fill.{in_rectangle, framebuffer_get-fill}
use tunix_boot.Video.Framebuffer.Move.{in_rows, moved_rows, framebuffer_get-move}
use tunix_boot.Terminal.{Terminal, kept_rows, scroll, newline, terminal_put}
use tunix_boot.Terminal.Cursor.{IsOnScreen}

-- The first row of pixels of the last line of text.
abbrev pub last_line : Terminal → ℕ
last_line t = (t.rows - 1) * t.font.height

-- What a pixel shows after a scroll: what stood one line below it, or the background in the last
-- line, or what it did before under the last line.
abbrev pub scrolled : Terminal → Memory → ℕ → ℕ → ℕ
scrolled t m px py =
    if ltb py (last_line t)
    then framebuffer_get t.fb px (py + t.font.height) m
    else if ltb py (last_line t + t.font.height)
    then shown t.fb t.background
    else framebuffer_get t.fb px py m

module _ (t : Terminal) (m : Memory) (o : IsOnScreen t) where
  sizes : (kept_rows t ≡ last_line t) × (last_line t + t.font.height ≤ t.fb.height)
  sizes =
      let split : (t.rows - 1 + 1) * t.font.height ≡ (t.rows - 1) * t.font.height + t.font.height =
        grind arith in
      let whole : (t.rows - 1 + 1) * t.font.height ≡ t.rows * t.font.height =
        (let e : t.rows - 1 + 1 ≡ t.rows = omega (arith, o.some_rows) in
          ap (λ r. r * t.font.height) e) in
      let fits : last_line t + t.font.height ≤ t.fb.height = omega (arith, split, whole, o.down) in
      let small : last_line t % u32_mod ≡ last_line t =
        mod-eq_of_lt (omega (arith, fits, o.pixels.height)) in
      (ground (arith, small, o.some_rows), fits)

  chosen :
      (px py : ℕ)
      → px < t.fb.width
      → (if in_rectangle 0 (last_line t) t.fb.width t.font.height px py
          then shown t.fb t.background
          else (if in_rows 0 (last_line t) py
              then framebuffer_get t.fb px (py - 0 + t.font.height) m
              else framebuffer_get t.fb px py m))
        ≡ scrolled t m px py
  chosen px py in_row = elim (Bool-cases (ltb py (last_line t))) [
    | inl above ↦
        let a : in_rectangle 0 (last_line t) t.fb.width t.font.height px py ≡ false =
          ground (arith, above) in
        let b : in_rows 0 (last_line t) py ≡ true = ground (arith, above) in
        let c : py - 0 + t.font.height ≡ py + t.font.height = omega arith in
        rw (a, b, above) (ap (λ s. framebuffer_get t.fb px s m) c)
    | inr below ↦ elim (Bool-cases (ltb py (last_line t + t.font.height))) [
      | inl last ↦
          let a : in_rectangle 0 (last_line t) t.fb.width t.font.height px py ≡ true =
            ground (arith, below, last) in
          rw (a, below, last) refl
      | inr under ↦
          let a : in_rectangle 0 (last_line t) t.fb.width t.font.height px py ≡ false =
            ground (arith, below, under) in
          let b : in_rows 0 (last_line t) py ≡ false = ground (arith, below) in
          rw (a, b, below, under) refl
    ]
  ]

  scroll-get :
      (px py : ℕ)
      → px < t.fb.width
      → py < t.fb.height
      → framebuffer_get t.fb px py (scroll (t, m)).1 ≡ scrolled t m px py
  unfolding scroll
  scroll-get px py in_row in_column =
      let (kept, fits) = sizes in
      let h : ℕ = t.font.height in
      let k : ℕ = last_line t in
      let moved : Memory = framebuffer_move_rows t.fb 0 h (kept_rows t) m in
      let count : moved_rows t.fb 0 h (kept_rows t) ≡ k =
        (let e : moved_rows t.fb 0 h k ≡ k = ground (arith, fits) in
          ap (moved_rows t.fb 0 h) kept ∙ e) in
      let move : framebuffer_get t.fb px py moved ≡ (
          if in_rows 0 k py
          then framebuffer_get t.fb px (py - 0 + h) m
          else framebuffer_get t.fb px py m) =
        framebuffer_get-move t.fb o.pixels px in_row 0 h (kept_rows t) py m in_column
        ∙ ap
            (λ n.
              if in_rows 0 n py
              then framebuffer_get t.fb px (py - 0 + h) m
              else framebuffer_get t.fb px py m)
            count in
      framebuffer_get-fill t.fb o.pixels px py in_row in_column 0 (kept_rows t) t.fb.width h
        t.background moved
      ∙ ap
          (λ n.
            if in_rectangle 0 n t.fb.width h px py
            then shown t.fb t.background
            else framebuffer_get t.fb px py moved)
          kept
      ∙ ap (λ s. if in_rectangle 0 k t.fb.width h px py then shown t.fb t.background else s) move
      ∙ chosen px py in_row

-- A newline in the last row keeps the cursor there, at its start, and moves the text one line up: a
-- pixel on the screen shows what stood one line below it, the background in the last line, and
-- what it did before under the last line.
pub newline_scrolls :
    (t : Terminal) (m : Memory) (px py : ℕ)
    → IsOnScreen t
    → t.row + 1 ≡ t.rows
    → px < t.fb.width
    → py < t.fb.height
    → (framebuffer_get t.fb px py (terminal_put 10 (t, m)).1 ≡ scrolled t m px py)
      × ((terminal_put 10 (t, m)).0 ≡ record t { column = 0; row = t.rows - 1 })
unfolding terminal_put newline scroll
newline_scrolls t m px py o last in_row in_column =
    let past : leb t.rows ((t.row + 1) % u32_mod) ≡ true = ground (arith, last, o.low) in
    let row : (if ltb 0 t.rows then t.rows - 1 else 0) ≡ t.rows - 1 = ground (arith, o.some_rows) in
    rw past
      (scroll-get t m o px py in_row in_column, ap (λ r. record t { column = 0; row = r }) row)
