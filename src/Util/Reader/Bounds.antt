-- ===== src/Util/Reader/Bounds.antt =====
-- The cursor never leaves the buffer; a refused read moves nothing, and an accepted one returns the
-- value of exactly the bytes under the cursor.
use mathlib.Core.Path.{subst}
use mathlib.Core.Option
use native.Mathlib.Nat.{mod-eq_of_lt}
use tunix_boot.Prelude.{
  ℕ, ◌+◌, ◌-◌, ◌%◌, ◌^◌, ◌≤◌, ◌<◌, ◌≡◌, refl, sym, Option, none, some, List, arith, length, drop,
  All, leb, if◌then◌else◌,
}
use tunix_boot.Prelude.Word.{u8_mod, u16_mod, u32_mod, u64_mod}
use tunix_boot.Util.Reader.{
  Reader, Read, init, remaining, seek, skip, scalar, read_u8, read_u16, read_u32, read_u64,
  take_bytes, pure, ◌>>=◌,
}
use tunix_boot.Util.Reader.Scalar.{
  IsByte, le_value, le_value-lt, All-drop, little_endian-eq-le_value,
}

pub record IsValid (r : Reader) : Type 0 where
  pub inside : r.position ≤ r.length
  pub backed : r.length ≤ length r.base
  pub small : r.length < u64_mod
  pub bytes : All IsByte r.base

abbrev pub ahead : Reader → List ℕ
ahead r = drop r.position r.base

pub init-IsValid :
    (bytes : List ℕ) (n : ℕ)
    → All IsByte bytes
    → n ≤ length bytes
    → n < u64_mod
    → IsValid (init (some bytes) n)
unfolding init
init-IsValid bytes n h le lt = record { inside = omega arith; backed = le; small = lt; bytes = h }

-- What a fixed-width read does, for the value `v` that it should return.
pub record Reads (r : Reader) (width v : ℕ) (result : Option ℕ × Reader) : Type 0 where
  pub refused : remaining r < width → result ≡ (none, r)
  pub accepted : width ≤ remaining r → result ≡ (some v, record r { position = r.position + width })
  pub valid : IsValid result.1

scalar-Reads :
    (r : Reader) (width : ℕ) → IsValid r → Reads r width (le_value (ahead r) width) (scalar width r)
unfolding scalar remaining
scalar-Reads r width v = record {
  refused = λ h. ground arith;
  accepted = λ h. ground (
    arith,
    little_endian-eq-le_value (ahead r) width (All-drop IsByte r.position r.base v.bytes),
  );
  valid = ground arith;
}

-- The narrowing casts after `scalar` lose nothing.
le_value-narrow :
    (r : Reader) (width modulus : ℕ)
    → IsValid r
    → modulus ≡ 256 ^ width
    → le_value (ahead r) width % modulus ≡ le_value (ahead r) width
le_value-narrow r width modulus v e =
    mod-eq_of_lt (rw e (le_value-lt (ahead r) width (All-drop IsByte r.position r.base v.bytes)))

bind-map :
    (f : ℕ → ℕ) (m : Read ℕ) (r : Reader)
    → (m >>= λ value. pure (f value)) r ≡ (Option.map f (m r).0, (m r).1)
bind-map f m r = ground arith

narrow-Reads :
    {r : Reader} {width v : ℕ} (f : ℕ → ℕ) (result : Option ℕ × Reader)
    → f v ≡ v
    → Reads r width v result
    → Reads r width v (Option.map f result.0, result.1)
narrow-Reads f result e s = record {
  refused = λ h. ground (arith, s.refused h);
  accepted = λ h. ground (arith, s.accepted h);
  valid = s.valid;
}

-- Every fixed-width read of a valid reader is refused without moving the cursor when too few bytes
-- remain, and otherwise returns the little-endian value of the bytes under the cursor and steps
-- over them; the reader stays valid.
pub fixed_widths_in_bounds :
    (r : Reader)
    → IsValid r
    → Reads r 1 (le_value (ahead r) 1) (read_u8 r)
      × Reads r 2 (le_value (ahead r) 2) (read_u16 r)
      × Reads r 4 (le_value (ahead r) 4) (read_u32 r)
      × Reads r 8 (le_value (ahead r) 8) (read_u64 r)
unfolding read_u8 read_u16 read_u32 read_u64
fixed_widths_in_bounds r v =
    (narrow 1 u8_mod refl, narrow 2 u16_mod refl, narrow 4 u32_mod refl, scalar-Reads r 8 v)
  where
    narrow :
        (width modulus : ℕ)
        → modulus ≡ 256 ^ width
        → Reads r width
            (le_value (ahead r) width)
            ((scalar width >>= λ value. pure (value % modulus)) r)
    narrow width modulus e =
        subst (Reads r width (le_value (ahead r) width))
          (sym (bind-map (λ value. value % modulus) (scalar width) r))
          (narrow-Reads (λ value. value % modulus) (scalar width r)
            (le_value-narrow r width modulus v e) (scalar-Reads r width v))

-- `reader_seek`, `reader_skip` and `reader_take` move the cursor exactly when the target lies in
-- the buffer, and keep the reader valid either way.
pub moves_in_bounds :
    (r : Reader) (n : ℕ)
    → IsValid r
    → (seek n r ≡ (if leb n r.length then (some tt, record r { position = n }) else (none, r)))
      × (skip n r ≡ (
          if leb n (r.length - r.position)
          then (some tt, record r { position = r.position + n })
          else (none, r)))
      × (take_bytes n r ≡ (
          if leb n (r.length - r.position)
          then (some (ahead r), record r { position = r.position + n })
          else (none, r)))
      × IsValid (seek n r).1
      × IsValid (skip n r).1
      × IsValid (take_bytes n r).1
unfolding seek skip take_bytes
moves_in_bounds r n v =
    (ground arith, ground arith, ground arith, ground arith, ground arith, ground arith)
