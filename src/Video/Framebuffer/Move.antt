-- ===== src/Video/Framebuffer/Move.antt =====
-- `framebuffer_move_rows` moves every row, although the ranges overlap.
use native.Mathlib.Nat.{mul-le-mul_right, mod-eq_of_lt}
use tunix_boot.Prelude.{
  ℕ, zero, suc, ◌+◌, ◌-◌, ◌*◌, ◌%◌, ◌≡◌, ◌≢◌, ◌≤◌, ◌<◌, ◌⊎◌, inl, inr, refl, ap, ◌∙◌, Bool, false,
  ◌&&◌, ◌||◌, arith, ltb, leb, ◌==◌, if◌then◌else◌, Bool-cases,
}
use tunix_boot.Prelude.Branches.{overlay}
use tunix_boot.Prelude.Word.{u32_mod}
use tunix_boot.Util.Mem.{Memory}
use tunix_boot.Util.Mem.Copies.{IsMoved, memcpy-IsMoved}
use tunix_boot.Video.Framebuffer.{
  Framebuffer, bytes_per_pixel, pixel_at, framebuffer_get, clipped, copy_row, move_up, move_down,
  framebuffer_move_rows,
}
use tunix_boot.Video.Framebuffer.Confined.{HasRows}
use tunix_boot.Video.Framebuffer.Pixels.{get_bytes-moved}

-- Whether a row is one of `count` from `to` on.
abbrev pub in_rows : ℕ → ℕ → ℕ → Bool
in_rows to count py = leb to py && ltb py (to + count)

-- How many rows are moved: no more than there are from the lower of the two places on.
abbrev pub moved_rows : Framebuffer → ℕ → ℕ → ℕ → ℕ
moved_rows fb to from height =
    if leb fb.height to || leb fb.height from
    then 0
    else clipped height (if ltb from to then to else from) fb.height

module _ (fb : Framebuffer) (rows : HasRows fb) (px : ℕ) (in_row : px < fb.width) where
  abbrev bpp : ℕ
  bpp = bytes_per_pixel fb

  -- One row is copied to another.
  copy_row-get :
      (to from py : ℕ) (m : Memory)
      → to < fb.height
      → from < fb.height
      → py < fb.height
      → to ≢ from
      → framebuffer_get fb px py (copy_row fb to from m)
        ≡ (if py == to then framebuffer_get fb px from m else framebuffer_get fb px py m)
  unfolding framebuffer_get
  copy_row-get to from py m h k l differ =
      let size : ℕ = fb.width * bpp in
      let apart : (pixel_at fb 0 to ≤ pixel_at fb 0 from)
          ⊎ (pixel_at fb 0 from + size ≤ pixel_at fb 0 to) =
        rows_apart to from differ in
      let moved : IsMoved (pixel_at fb 0 to) (pixel_at fb 0 from) size m (copy_row fb to from m) =
        memcpy-IsMoved (pixel_at fb 0 to) (pixel_at fb 0 from) size m apart in
      let across : (px + 1) * bpp ≤ size = mul-le-mul_right bpp (omega arith) in
      let split : (px + 1) * bpp ≡ px * bpp + bpp = grind arith in
      let on : (leb fb.width px || leb fb.height py) ≡ false = ground arith in
      let on' : (leb fb.width px || leb fb.height from) ≡ false = ground arith in
      elim (Bool-cases (py == to)) [
        | inl here ↦
            let level : py * fb.pitch ≡ to * fb.pitch =
              ap (λ t. t * fb.pitch) (let e : py ≡ to = ground arith in e) in
            rw (on, on', here)
              (get_bytes-moved bpp 0 (pixel_at fb px py) (pixel_at fb px from) 0
                (copy_row fb to from m) m
                (λ i low high.
                  let at : pixel_at fb px py + i ≡ pixel_at fb 0 to + (px * bpp + i) =
                    omega (arith, level) in
                  let source : pixel_at fb 0 from + (px * bpp + i) ≡ pixel_at fb px from + i =
                    omega arith in
                  ap (copy_row fb to from m) at
                  ∙ moved.moved (px * bpp + i) (omega (arith, across, split))
                  ∙ ap m source))
        | inr other ↦
            let outside = rows_outside to py (ground arith) in
            rw (on, other)
              (get_bytes-moved bpp 0 (pixel_at fb px py) (pixel_at fb px py) 0
                (copy_row fb to from m) m
                (λ i low high.
                  moved.kept (pixel_at fb px py + i) (ground (arith, outside, across, split))))
      ]
    where
      row_after : (a b : ℕ) → a < b → a * fb.pitch + fb.width * bytes_per_pixel fb ≤ b * fb.pitch
      row_after a b lt =
          let down : (a + 1) * fb.pitch ≤ b * fb.pitch = mul-le-mul_right fb.pitch (omega arith) in
          let one : (a + 1) * fb.pitch ≡ a * fb.pitch + fb.pitch = grind arith in
          omega (arith, down, one, rows.wide)

      rows_outside :
          (a b : ℕ)
          → b ≢ a
          → (a * fb.pitch + fb.width * bytes_per_pixel fb ≤ b * fb.pitch)
            ⊎ (b * fb.pitch + fb.width * bytes_per_pixel fb ≤ a * fb.pitch)
      rows_outside a b ne = elim (Bool-cases (ltb a b)) [
        | inl lt ↦ inl (row_after a b (ground arith))
        | inr ge ↦ inr (row_after b a (ground arith))
      ]

      rows_apart :
          (to from : ℕ)
          → to ≢ from
          → (pixel_at fb 0 to ≤ pixel_at fb 0 from)
            ⊎ (pixel_at fb 0 from + fb.width * bytes_per_pixel fb ≤ pixel_at fb 0 to)
      rows_apart to from ne = ground (arith, rows_outside from to ne)

  move_up-get :
      (left to from row py : ℕ) (m : Memory)
      → to < from
      → from + row + left ≤ fb.height
      → py < fb.height
      → framebuffer_get fb px py (move_up left fb to from row m) ≡ (
          if in_rows (to + row) left py
          then framebuffer_get fb px (py - to + from) m
          else framebuffer_get fb px py m)
  unfolding move_up
  move_up-get zero to from row py m lt fits low =
      let out : in_rows (to + row) 0 py ≡ false = ground arith in rw out refl
  move_up-get (suc left) to from row py m lt fits low =
      let a : (to + row) % u32_mod ≡ to + row = mod-eq_of_lt (omega (arith, rows.height)) in
      let b : (from + row) % u32_mod ≡ from + row = mod-eq_of_lt (omega (arith, rows.height)) in
      let next : Memory = copy_row fb ((to + row) % u32_mod) ((from + row) % u32_mod) m in
      let copied : Memory = copy_row fb (to + row) (from + row) m in
      let same : next ≡ copied =
        ap (λ t. copy_row fb t ((from + row) % u32_mod) m) a
        ∙ ap (λ t. copy_row fb (to + row) t m) b in
      let step = copy_row-get (to + row) (from + row) in
      ap (λ n. framebuffer_get fb px py (move_up left fb to from (row + 1) n)) same
      ∙ move_up-get left to from (row + 1) py copied lt (omega arith) low
      ∙ ap
          (λ t.
            if in_rows (to + (row + 1)) left py
            then framebuffer_get fb px (py - to + from) copied
            else t)
          (step py m (omega arith) (omega arith) low (λ z. omega arith))
      ∙ overlay (in_rows (to + (row + 1)) left py) (py == to + row)
          (in_rows (to + row) (suc left) py) _ _ _ _ (ground arith)
          (λ later.
            let beyond : to + row + 1 ≤ py = ground (arith, later) in
            let inside : py < to + row + 1 + left = ground (arith, later) in
            let other : (py - to + from == to + row) ≡ false = ground arith in
            step (py - to + from) m (omega arith) (omega arith) (omega arith) (λ z. omega arith)
            ∙ (rw other refl))
          (λ not_later here.
            let e : from + row ≡ py - to + from = ground (arith, here) in
            ap (λ t. framebuffer_get fb px t m) e)

  move_down-get :
      (row to from py : ℕ) (m : Memory)
      → from < to
      → to + row ≤ fb.height
      → py < fb.height
      → framebuffer_get fb px py (move_down row fb to from m) ≡ (
          if in_rows to row py
          then framebuffer_get fb px (py - to + from) m
          else framebuffer_get fb px py m)
  unfolding move_down
  move_down-get zero to from py m lt fits low =
      let out : in_rows to 0 py ≡ false = ground arith in rw out refl
  move_down-get (suc row) to from py m lt fits low =
      let a : (to + row) % u32_mod ≡ to + row = mod-eq_of_lt (omega (arith, rows.height)) in
      let b : (from + row) % u32_mod ≡ from + row = mod-eq_of_lt (omega (arith, rows.height)) in
      let next : Memory = copy_row fb ((to + row) % u32_mod) ((from + row) % u32_mod) m in
      let copied : Memory = copy_row fb (to + row) (from + row) m in
      let same : next ≡ copied =
        ap (λ t. copy_row fb t ((from + row) % u32_mod) m) a
        ∙ ap (λ t. copy_row fb (to + row) t m) b in
      let step = copy_row-get (to + row) (from + row) in
      ap (λ n. framebuffer_get fb px py (move_down row fb to from n)) same
      ∙ move_down-get row to from py copied lt (omega arith) low
      ∙ ap (λ t. if in_rows to row py then framebuffer_get fb px (py - to + from) copied else t)
          (step py m (omega arith) (omega arith) low (λ z. omega arith))
      ∙ overlay (in_rows to row py) (py == to + row) (in_rows to (suc row) py) _ _ _ _
          (ground arith)
          (λ later.
            let from_to : to ≤ py = ground (arith, later) in
            let inside : py < to + row = ground (arith, later) in
            let other : (py - to + from == to + row) ≡ false = ground arith in
            step (py - to + from) m (omega arith) (omega arith) (omega arith) (λ z. omega arith)
            ∙ (rw other refl))
          (λ not_later here.
            let e : from + row ≡ py - to + from = ground (arith, here) in
            ap (λ t. framebuffer_get fb px t m) e)

  untouched :
      (to from count py : ℕ) (m : Memory)
      → in_rows to count py ≡ false
      → framebuffer_get fb px py m ≡ (
          if in_rows to count py
          then framebuffer_get fb px (py - to + from) m
          else framebuffer_get fb px py m)
  untouched to from count py m out = rw out refl

  unmoved :
      (to from count py : ℕ) (m : Memory)
      → to ≡ from
      → framebuffer_get fb px py m ≡ (
          if in_rows to count py
          then framebuffer_get fb px (py - to + from) m
          else framebuffer_get fb px py m)
  unmoved to from count py m same = elim (Bool-cases (in_rows to count py)) [
    | inl inside ↦
        let e : py ≡ py - to + from = ground (arith, inside) in
        rw inside (ap (λ t. framebuffer_get fb px t m) e)
    | inr out ↦ rw out refl
  ]

  -- After `framebuffer_move_rows` of a framebuffer whose rows do not overlap, a pixel on the screen
  -- shows what the row that was moved to its place showed before, and what it did itself if no row
  -- was moved there, in whichever direction the rows are moved and however much they overlap.
  pub framebuffer_get-move :
      (to from height py : ℕ) (m : Memory)
      → py < fb.height
      → framebuffer_get fb px py (framebuffer_move_rows fb to from height m) ≡ (
          if in_rows to (moved_rows fb to from height) py
          then framebuffer_get fb px (py - to + from) m
          else framebuffer_get fb px py m)
  unfolding framebuffer_move_rows
  framebuffer_get-move to from height py m low =
      let count : ℕ = moved_rows fb to from height in
      elim (Bool-cases (leb fb.height to || leb fb.height from)) [
        | inl off ↦
            let still : framebuffer_move_rows fb to from height m ≡ m = ground (arith, off) in
            let out : in_rows to count py ≡ false = ground (arith, off) in
            ap (framebuffer_get fb px py) still ∙ untouched to from count py m out
        | inr on ↦ elim (Bool-cases (to == from)) [
          | inl same ↦
              let still : framebuffer_move_rows fb to from height m ≡ m =
                ground (arith, on, same) in
              ap (framebuffer_get fb px py) still ∙ unmoved to from count py m (ground arith)
          | inr differ ↦ elim (Bool-cases (count == 0)) [
            | inl empty ↦
                let still : framebuffer_move_rows fb to from height m ≡ m =
                  ground (arith, on, differ, empty) in
                let out : in_rows to count py ≡ false = ground (arith, empty) in
                ap (framebuffer_get fb px py) still ∙ untouched to from count py m out
            | inr more ↦ elim (Bool-cases (ltb to from)) [
              | inl up ↦
                  let run : framebuffer_move_rows fb to from height m
                      ≡ move_up count fb to from 0 m =
                    ground (arith, on, differ, more, up) in
                  let start : to + 0 ≡ to = omega arith in
                  ap (framebuffer_get fb px py) run
                  ∙ move_up-get count to from 0 py m (ground arith) (ground (arith, on, up)) low
                  ∙ ap
                      (λ t.
                        if in_rows t count py
                        then framebuffer_get fb px (py - to + from) m
                        else framebuffer_get fb px py m)
                      start
              | inr down ↦
                  let run : framebuffer_move_rows fb to from height m
                      ≡ move_down count fb to from m =
                    ground (arith, on, differ, more, down) in
                  ap (framebuffer_get fb px py) run
                  ∙ move_down-get count to from py m (ground arith) (ground (arith, on, down)) low
            ]
          ]
        ]
      ]
