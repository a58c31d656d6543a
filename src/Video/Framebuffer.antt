-- ===== src/Video/Framebuffer.antt =====
-- src/video/framebuffer.c over a memory that is read and written by address; NULL is address 0.
pub mod Confined
pub mod Pixels
pub mod Fill
pub mod Move
use Prim.Native.Nat.{bit_or}
use tunix_boot.Prelude.{
  ℕ, zero, suc, ◌+◌, ◌-◌, ◌*◌, ◌/◌, ◌%◌, ◌^◌, Bool, true, false, not, ◌||◌, ltb, leb, ◌==◌,
  if◌then◌else◌,
}
use tunix_boot.Prelude.Word.{u8_mod, u32_mod}
use tunix_boot.Util.Mem.{Memory, store, memcpy}

-- `struct framebuffer_channel`.
pub record Channel : Type 0 where
  pub shift : ℕ
  pub bits : ℕ

pub record Framebuffer : Type 0 where
  pub base : ℕ
  pub width : ℕ
  pub height : ℕ
  pub pitch : ℕ
  pub bits_per_pixel : ℕ
  pub red : Channel
  pub green : Channel
  pub blue : Channel

-- The sum is one of `uint32_t`.
unfoldable pub bytes_per_pixel : Framebuffer → ℕ
bytes_per_pixel fb = (fb.bits_per_pixel + 7) % u32_mod / 8

unfoldable pub channel_valid : Channel → ℕ → Bool
channel_valid channel bits_per_pixel =
    if (channel.bits == 0) || ltb 8 channel.bits
    then false
    else leb (channel.shift + channel.bits) bits_per_pixel

-- `framebuffer_valid` of a framebuffer that is not NULL itself.
unfoldable pub framebuffer_valid : Framebuffer → Bool
framebuffer_valid fb =
    if fb.base == 0
    then false
    else if (fb.width == 0) || (fb.height == 0)
    then false
    else if ltb 16384 fb.width || ltb 16384 fb.height
    then false
    else if ltb fb.bits_per_pixel 15 || ltb 32 fb.bits_per_pixel
    then false
    else if ltb fb.pitch (fb.width * bytes_per_pixel fb % u32_mod)
    then false
    else if not (channel_valid fb.red fb.bits_per_pixel)
        || not (channel_valid fb.green fb.bits_per_pixel)
    then false
    else channel_valid fb.blue fb.bits_per_pixel

-- A right shift of an eight-bit value, then a left shift of `uint32_t`.
unfoldable pub pack_channel : Channel → ℕ → ℕ
pack_channel channel value = value / 2 ^ (8 - channel.bits) * 2 ^ channel.shift % u32_mod

unfoldable pub framebuffer_pack : Framebuffer → ℕ → ℕ → ℕ → ℕ
framebuffer_pack fb red green blue =
    bit_or (bit_or (pack_channel fb.red red) (pack_channel fb.green green))
      (pack_channel fb.blue blue)

abbrev pub pixel_at : Framebuffer → ℕ → ℕ → ℕ
pixel_at fb x y = fb.base + y * fb.pitch + x * bytes_per_pixel fb

-- The loop that stores the bytes of a colour, `left` to go.
unfoldable pub put_bytes : ℕ → ℕ → ℕ → ℕ → Memory → Memory
put_bytes zero index at colour m = m
put_bytes (suc left) index at colour m =
    put_bytes left (index + 1) at colour (store m (at + index) (colour / 2 ^ (index * 8) % u8_mod))

unfoldable pub framebuffer_put : Framebuffer → ℕ → ℕ → ℕ → Memory → Memory
framebuffer_put fb x y colour m =
    if leb fb.width x || leb fb.height y
    then m
    else put_bytes (bytes_per_pixel fb) 0 (pixel_at fb x y) colour m

-- The loop that puts the bytes of a colour together.
unfoldable pub get_bytes : ℕ → ℕ → ℕ → ℕ → Memory → ℕ
get_bytes zero index at colour m = colour
get_bytes (suc left) index at colour m =
    get_bytes left (index + 1) at (bit_or colour (m (at + index) * 2 ^ (index * 8) % u32_mod)) m

unfoldable pub framebuffer_get : Framebuffer → ℕ → ℕ → Memory → ℕ
framebuffer_get fb x y m =
    if leb fb.width x || leb fb.height y
    then 0
    else get_bytes (bytes_per_pixel fb) 0 (pixel_at fb x y) 0 m

-- One row of `framebuffer_fill`, `left` columns to go.
unfoldable pub fill_row : ℕ → Framebuffer → ℕ → ℕ → Memory → Memory
fill_row zero fb at colour m = m
fill_row (suc left) fb at colour m =
    fill_row left fb (at + bytes_per_pixel fb) colour (put_bytes (bytes_per_pixel fb) 0 at colour m)

-- The rows from `row` on, `left` to go.
unfoldable pub fill_rows : ℕ → Framebuffer → ℕ → ℕ → ℕ → ℕ → ℕ → Memory → Memory
fill_rows zero fb x y width row colour m = m
fill_rows (suc left) fb x y width row colour m =
    fill_rows left fb x y width (row + 1) colour
      (fill_row width fb (pixel_at fb x ((y + row) % u32_mod)) colour m)

-- What is left of a length, from a place on.
abbrev pub clipped : ℕ → ℕ → ℕ → ℕ
clipped length from whole = if ltb (whole - from) length then whole - from else length

unfoldable pub framebuffer_fill : Framebuffer → ℕ → ℕ → ℕ → ℕ → ℕ → Memory → Memory
framebuffer_fill fb x y width height colour m =
    if leb fb.width x || leb fb.height y
    then m
    else fill_rows (clipped height y fb.height) fb x y (clipped width x fb.width) 0 colour m

abbrev pub copy_row : Framebuffer → ℕ → ℕ → Memory → Memory
copy_row fb to from m =
    memcpy (pixel_at fb 0 to) (pixel_at fb 0 from) (fb.width * bytes_per_pixel fb) m

-- The rows from `row` on, front to back, `left` to go.
unfoldable pub move_up : ℕ → Framebuffer → ℕ → ℕ → ℕ → Memory → Memory
move_up zero fb to_y from_y row m = m
move_up (suc left) fb to_y from_y row m =
    move_up left fb to_y from_y (row + 1)
      (copy_row fb ((to_y + row) % u32_mod) ((from_y + row) % u32_mod) m)

-- The rows back to front.
unfoldable pub move_down : ℕ → Framebuffer → ℕ → ℕ → Memory → Memory
move_down zero fb to_y from_y m = m
move_down (suc row) fb to_y from_y m =
    move_down row fb to_y from_y (copy_row fb ((to_y + row) % u32_mod) ((from_y + row) % u32_mod) m)

unfoldable pub framebuffer_move_rows : Framebuffer → ℕ → ℕ → ℕ → Memory → Memory
framebuffer_move_rows fb to_y from_y height m =
    if leb fb.height to_y || leb fb.height from_y
    then m
    else if to_y == from_y
    then m
    else let rows = clipped height (if ltb from_y to_y then to_y else from_y) fb.height in
      if rows == 0
      then m
      else if ltb to_y from_y
      then move_up rows fb to_y from_y 0 m
      else move_down rows fb to_y from_y m
