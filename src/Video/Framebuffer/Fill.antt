-- ===== src/Video/Framebuffer/Fill.antt =====
-- `framebuffer_fill`, which goes along each row by one pointer, puts every pixel of the rectangle.
use native.Mathlib.Nat.{mod-eq_of_lt}
use tunix_boot.Prelude.{
  ℕ, zero, suc, ◌+◌, ◌%◌, ◌≡◌, ◌≤◌, ◌<◌, inl, inr, refl, ap, ◌∙◌, Bool, false, ◌&&◌, ◌||◌, arith,
  ltb, leb, if◌then◌else◌, Bool-cases,
}
use tunix_boot.Prelude.Branches.{overlay}
use tunix_boot.Prelude.Word.{u32_mod}
use tunix_boot.Util.Mem.{Memory}
use tunix_boot.Video.Framebuffer.{
  Framebuffer, bytes_per_pixel, pixel_at, put_bytes, framebuffer_put, framebuffer_get, fill_row,
  fill_rows, clipped, framebuffer_fill,
}
use tunix_boot.Video.Framebuffer.Confined.{HasRows}
use tunix_boot.Video.Framebuffer.Pixels.{shown, same_pixel, framebuffer_get-put}

-- Whether a pixel is in the rectangle.
abbrev pub in_rectangle : ℕ → ℕ → ℕ → ℕ → ℕ → ℕ → Bool
in_rectangle x y width height px py =
    (leb x px && ltb px (x + width)) && (leb y py && ltb py (y + height))

module _ (fb : Framebuffer) (rows : HasRows fb) (px py : ℕ) (in_row : px < fb.width)
    (in_column : py < fb.height) where
  put_bytes-put :
      (x y colour : ℕ) (m : Memory)
      → x < fb.width
      → y < fb.height
      → put_bytes (bytes_per_pixel fb) 0 (pixel_at fb x y) colour m
        ≡ framebuffer_put fb x y colour m
  unfolding framebuffer_put
  put_bytes-put x y colour m h k =
      let on : (leb fb.width x || leb fb.height y) ≡ false = ground arith in rw on refl

  fill_row-get :
      (left x y colour : ℕ) (m : Memory)
      → x + left ≤ fb.width
      → y < fb.height
      → framebuffer_get fb px py (fill_row left fb (pixel_at fb x y) colour m)
        ≡ (if in_rectangle x y left 1 px py then shown fb colour else framebuffer_get fb px py m)
  unfolding fill_row
  fill_row-get zero x y colour m across low =
      let out : in_rectangle x y 0 1 px py ≡ false = ground arith in rw out refl
  fill_row-get (suc left) x y colour m across low =
      let next : Memory = put_bytes (bytes_per_pixel fb) 0 (pixel_at fb x y) colour m in
      let at : pixel_at fb x y + bytes_per_pixel fb ≡ pixel_at fb (x + 1) y = grind arith in
      ap (λ p. framebuffer_get fb px py (fill_row left fb p colour next)) at
      ∙ fill_row-get left (x + 1) y colour next (omega arith) low
      ∙ ap (λ t. if in_rectangle (x + 1) y left 1 px py then shown fb colour else t)
          (ap (framebuffer_get fb px py) (put_bytes-put x y colour m (omega arith) low)
            ∙ framebuffer_get-put fb rows x y px py colour m (omega arith) low in_row in_column)
      ∙ overlay (in_rectangle (x + 1) y left 1 px py) (same_pixel x y px py)
          (in_rectangle x y (suc left) 1 px py) (shown fb colour) (shown fb colour)
          (shown fb colour) _ (ground arith) (λ e. refl) (λ e f. refl)

  fill_rows-get :
      (left x y width row colour : ℕ) (m : Memory)
      → x + width ≤ fb.width
      → y + row + left ≤ fb.height
      → framebuffer_get fb px py (fill_rows left fb x y width row colour m) ≡ (
          if in_rectangle x (y + row) width left px py
          then shown fb colour
          else framebuffer_get fb px py m)
  unfolding fill_rows
  fill_rows-get zero x y width row colour m across down =
      let out : in_rectangle x (y + row) width 0 px py ≡ false = ground arith in rw out refl
  fill_rows-get (suc left) x y width row colour m across down =
      let same : (y + row) % u32_mod ≡ y + row = mod-eq_of_lt (omega (arith, rows.height)) in
      let next : Memory = fill_row width fb (pixel_at fb x ((y + row) % u32_mod)) colour m in
      fill_rows-get left x y width (row + 1) colour next across (omega arith)
      ∙ ap (λ t. if in_rectangle x (y + (row + 1)) width left px py then shown fb colour else t)
          (ap (λ t. framebuffer_get fb px py (fill_row width fb (pixel_at fb x t) colour m)) same
            ∙ fill_row-get width x (y + row) colour m across (omega arith))
      ∙ overlay (in_rectangle x (y + (row + 1)) width left px py)
          (in_rectangle x (y + row) width 1 px py) (in_rectangle x (y + row) width (suc left) px py)
          (shown fb colour) (shown fb colour) (shown fb colour) _ (ground arith) (λ e. refl)
          (λ e f. refl)

  -- After `framebuffer_fill` of a framebuffer whose rows do not overlap, a pixel on the screen shows
  -- the colour, as far as its bytes go, if it is in the rectangle, and what it did before if not,
  -- wherever the rectangle is and however far it runs past the edges.
  pub framebuffer_get-fill :
      (x y width height colour : ℕ) (m : Memory)
      → framebuffer_get fb px py (framebuffer_fill fb x y width height colour m) ≡ (
          if in_rectangle x y width height px py
          then shown fb colour
          else framebuffer_get fb px py m)
  unfolding framebuffer_fill
  framebuffer_get-fill x y width height colour m =
      elim (Bool-cases (leb fb.width x || leb fb.height y)) [
        | inl off ↦
            let out : in_rectangle x y width height px py ≡ false = ground arith in
            rw (off, out) refl
        | inr on ↦
            let w : ℕ = clipped width x fb.width in
            let h : ℕ = clipped height y fb.height in
            let across : x + w ≤ fb.width = ground arith in
            let down : y + 0 + h ≤ fb.height = ground arith in
            let same : in_rectangle x (y + 0) w h px py ≡ in_rectangle x y width height px py =
              ground arith in
            rw on (
              fill_rows-get h x y w 0 colour m across down
              ∙ ap (λ t. if t then shown fb colour else framebuffer_get fb px py m) same)
      ]
