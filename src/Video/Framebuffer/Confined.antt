-- ===== src/Video/Framebuffer/Confined.antt =====
-- Drawing changes nothing outside the framebuffer.
use native.Mathlib.Nat.{mul-le-mul_right, mod-eq_of_lt}
use tunix_boot.Prelude.{
  ℕ, zero, suc, ◌+◌, ◌*◌, ◌/◌, ◌%◌, ◌≡◌, ◌⊎◌, ◌≤◌, ◌<◌, refl, ◌∙◌, true, ◌||◌, arith, ltb, leb,
  ◌==◌, if◌then◌else◌,
}
use tunix_boot.Prelude.Branches.{if_by}
use tunix_boot.Prelude.Word.{u32_mod}
use tunix_boot.Util.Mem.{Memory, store}
use tunix_boot.Util.Mem.Copies.{memcpy-other}
use tunix_boot.Video.Framebuffer.{
  Framebuffer, bytes_per_pixel, framebuffer_valid, pixel_at, put_bytes, framebuffer_put, fill_row,
  fill_rows, clipped, framebuffer_fill, copy_row, move_up, move_down, framebuffer_move_rows,
}

-- Only the bytes of the range have changed.
pub record IsConfined (low high : ℕ) (before after : Memory) : Type 0 where
  pub kept : (a : ℕ) → (a < low) ⊎ (high ≤ a) → after a ≡ before a

abbrev pub same-IsConfined : (low high : ℕ) (m : Memory) → IsConfined low high m m
same-IsConfined low high m = record { kept = λ a h. refl }

pub then-IsConfined :
    (low high : ℕ) (a b c : Memory)
    → IsConfined low high a b
    → IsConfined low high b c
    → IsConfined low high a c
then-IsConfined low high a b c h k = record { kept = λ p o. k.kept p o ∙ h.kept p o }

pub wider-IsConfined :
    (low high lower higher : ℕ) (a b : Memory)
    → lower ≤ low
    → high ≤ higher
    → IsConfined low high a b
    → IsConfined lower higher a b
wider-IsConfined low high lower higher a b le ge h = record {
  kept = λ p o. h.kept p (ground arith);
}

pub put_bytes-IsConfined :
    (left index at colour : ℕ) (m : Memory)
    → IsConfined (at + index) (at + index + left) m (put_bytes left index at colour m)
unfolding put_bytes
put_bytes-IsConfined zero index at colour m = same-IsConfined (at + index) (at + index + 0) m
put_bytes-IsConfined (suc left) index at colour m = record {
  kept = λ a o.
      (put_bytes-IsConfined left (index + 1) at colour (store m (at + index) _)).kept a
        (ground arith)
      ∙ ground arith;
}

-- A framebuffer whose rows do not overlap.
pub record HasRows (fb : Framebuffer) : Type 0 where
  pub wide : fb.width * bytes_per_pixel fb ≤ fb.pitch
  pub width : fb.width ≤ 16384
  pub height : fb.height ≤ 16384
  pub some_bytes : 0 < bytes_per_pixel fb
  pub few_bytes : bytes_per_pixel fb ≤ 4

pub framebuffer_valid-HasRows : (fb : Framebuffer) → framebuffer_valid fb ≡ true → HasRows fb
unfolding framebuffer_valid bytes_per_pixel
framebuffer_valid-HasRows fb e =
    let bpp : ℕ = (fb.bits_per_pixel + 7) % u32_mod / 8 in
    let bounds : (fb.width ≤ 16384)
        × (fb.height ≤ 16384)
        × (15 ≤ fb.bits_per_pixel)
        × (fb.bits_per_pixel ≤ 32) =
      (ground (arith, e), ground (arith, e), ground (arith, e), ground (arith, e)) in
    let few : (0 < bpp) × (bpp ≤ 4) = (omega (arith, bounds), omega (arith, bounds)) in
    let product : fb.width * bpp ≤ 16384 * 4 = grind (arith, bounds, few) in
    let pitch : fb.width * bpp % u32_mod ≤ fb.pitch = ground (arith, e) in
    let kept : fb.width * bpp % u32_mod ≡ fb.width * bpp = mod-eq_of_lt (omega (arith, product)) in
    record {
      wide = omega (arith, kept, pitch);
      width = bounds.0;
      height = bounds.1;
      some_bytes = few.0;
      few_bytes = few.1;
    }

-- The bytes of the framebuffer.
abbrev pub InsideOnly : Framebuffer → Memory → Memory → Type 0
InsideOnly fb = IsConfined fb.base (fb.base + fb.height * fb.pitch)

module _ (fb : Framebuffer) (rows : HasRows fb) where
  abbrev bpp : ℕ
  bpp = bytes_per_pixel fb

  -- `k` pixels of a row lie in the framebuffer.
  pub run_inside :
      (x y k : ℕ)
      → y < fb.height
      → x + k ≤ fb.width
      → (fb.base ≤ pixel_at fb x y) × (pixel_at fb x y + k * bpp ≤ fb.base + fb.height * fb.pitch)
  run_inside x y k low fits =
      let across : (x + k) * bpp ≤ fb.width * bpp = mul-le-mul_right bpp fits in
      let split : (x + k) * bpp ≡ x * bpp + k * bpp = grind arith in
      let down : (y + 1) * fb.pitch ≤ fb.height * fb.pitch =
        mul-le-mul_right fb.pitch (omega arith) in
      let one : (y + 1) * fb.pitch ≡ y * fb.pitch + fb.pitch = grind arith in
      (omega arith, omega (arith, across, split, down, one, rows.wide))

  pub framebuffer_put-InsideOnly :
      (x y colour : ℕ) (m : Memory) → InsideOnly fb m (framebuffer_put fb x y colour m)
  unfolding framebuffer_put
  framebuffer_put-InsideOnly x y colour m =
      if_by (InsideOnly fb m) (leb fb.width x || leb fb.height y) (λ off. same-IsConfined _ _ m)
        (λ on.
          let (low, high) = run_inside x y 1 (ground (arith, on)) (ground (arith, on)) in
          wider-IsConfined _ _ _ _ m _ (omega arith) (omega arith)
            (put_bytes-IsConfined bpp 0 (pixel_at fb x y) colour m))

  fill_row-IsConfined :
      (left at colour : ℕ) (m : Memory)
      → IsConfined at (at + left * bpp) m (fill_row left fb at colour m)
  unfolding fill_row
  fill_row-IsConfined zero at colour m = same-IsConfined _ _ m
  fill_row-IsConfined (suc left) at colour m =
      let split : suc left * bpp ≡ bpp + left * bpp = grind arith in
      let next : Memory = put_bytes bpp 0 at colour m in
      then-IsConfined at (at + suc left * bpp) m next _
        (wider-IsConfined _ _ _ _ m next (omega arith) (omega (arith, split))
          (put_bytes-IsConfined bpp 0 at colour m))
        (wider-IsConfined _ _ _ _ next _ (omega arith) (omega (arith, split))
          (fill_row-IsConfined left (at + bpp) colour next))

  fill_rows-InsideOnly :
      (left x y width row colour : ℕ) (m : Memory)
      → x + width ≤ fb.width
      → y + row + left ≤ fb.height
      → InsideOnly fb m (fill_rows left fb x y width row colour m)
  unfolding fill_rows
  fill_rows-InsideOnly zero x y width row colour m across down = same-IsConfined _ _ m
  fill_rows-InsideOnly (suc left) x y width row colour m across down =
      let at : ℕ = (y + row) % u32_mod in
      let same : at ≡ y + row = mod-eq_of_lt (omega (arith, rows.height)) in
      let (low, high) = run_inside x at width (omega (arith, same)) across in
      let next : Memory = fill_row width fb (pixel_at fb x at) colour m in
      then-IsConfined _ _ m next _
        (wider-IsConfined _ _ _ _ m next low high
          (fill_row-IsConfined width (pixel_at fb x at) colour m))
        (fill_rows-InsideOnly left x y width (row + 1) colour next across (omega arith))

  pub framebuffer_fill-InsideOnly :
      (x y width height colour : ℕ) (m : Memory)
      → InsideOnly fb m (framebuffer_fill fb x y width height colour m)
  unfolding framebuffer_fill
  framebuffer_fill-InsideOnly x y width height colour m =
      if_by (InsideOnly fb m) (leb fb.width x || leb fb.height y) (λ off. same-IsConfined _ _ m)
        (λ on.
          fill_rows-InsideOnly (clipped height y fb.height) x y (clipped width x fb.width) 0 colour
            m (ground (arith, on)) (ground (arith, on)))

  copy_row-InsideOnly :
      (to from : ℕ) (m : Memory) → to < fb.height → InsideOnly fb m (copy_row fb to from m)
  copy_row-InsideOnly to from m low =
      let (start, end) = run_inside 0 to fb.width low (omega arith) in
      wider-IsConfined (pixel_at fb 0 to) (pixel_at fb 0 to + fb.width * bpp) _ _ m _ start end
        (record {
          kept = λ a o. memcpy-other (pixel_at fb 0 to) (pixel_at fb 0 from) (fb.width * bpp) m a o;
        })

  move_up-InsideOnly :
      (left to_y from_y row : ℕ) (m : Memory)
      → to_y + row + left ≤ fb.height
      → InsideOnly fb m (move_up left fb to_y from_y row m)
  unfolding move_up
  move_up-InsideOnly zero to_y from_y row m fits = same-IsConfined _ _ m
  move_up-InsideOnly (suc left) to_y from_y row m fits =
      let same : (to_y + row) % u32_mod ≡ to_y + row = mod-eq_of_lt (omega (arith, rows.height)) in
      let next : Memory = copy_row fb ((to_y + row) % u32_mod) ((from_y + row) % u32_mod) m in
      then-IsConfined _ _ m next _ (copy_row-InsideOnly _ _ m (omega (arith, same)))
        (move_up-InsideOnly left to_y from_y (row + 1) next (omega arith))

  move_down-InsideOnly :
      (row to_y from_y : ℕ) (m : Memory)
      → to_y + row ≤ fb.height
      → InsideOnly fb m (move_down row fb to_y from_y m)
  unfolding move_down
  move_down-InsideOnly zero to_y from_y m fits = same-IsConfined _ _ m
  move_down-InsideOnly (suc row) to_y from_y m fits =
      let same : (to_y + row) % u32_mod ≡ to_y + row = mod-eq_of_lt (omega (arith, rows.height)) in
      let next : Memory = copy_row fb ((to_y + row) % u32_mod) ((from_y + row) % u32_mod) m in
      then-IsConfined _ _ m next _ (copy_row-InsideOnly _ _ m (omega (arith, same)))
        (move_down-InsideOnly row to_y from_y next (omega arith))

  pub framebuffer_move_rows-InsideOnly :
      (to_y from_y height : ℕ) (m : Memory)
      → InsideOnly fb m (framebuffer_move_rows fb to_y from_y height m)
  unfolding framebuffer_move_rows
  framebuffer_move_rows-InsideOnly to_y from_y height m =
      let count : ℕ = clipped height (if ltb from_y to_y then to_y else from_y) fb.height in
      if_by (InsideOnly fb m) (leb fb.height to_y || leb fb.height from_y)
        (λ off. same-IsConfined _ _ m)
        (λ on.
          if_by (InsideOnly fb m) (to_y == from_y) (λ same. same-IsConfined _ _ m)
            (λ differ.
              if_by (InsideOnly fb m) (count == 0) (λ empty. same-IsConfined _ _ m)
                (λ more.
                  if_by (InsideOnly fb m) (ltb to_y from_y)
                    (λ up. move_up-InsideOnly count to_y from_y 0 m (ground (arith, on, up)))
                    (λ down. move_down-InsideOnly count to_y from_y m (ground (arith, on, down))))))
