-- ===== src/Util/Reader/At.antt =====
-- Reads inside the buffer, as equations: the value under the cursor, and the cursor behind it.
use tunix_boot.Prelude.{
  ℕ, ◌+◌, ◌^◌, ◌≤◌, ◌<◌, ◌≡◌, sym, ap, ◌∙◌, Option, none, some, List, arith, All, length, drop,
}
use tunix_boot.Prelude.Word.{u64_mod}
use tunix_boot.Util.Reader.{Reader, remaining, seek, read_u8, read_u16, read_u32, read_u64}
use tunix_boot.Util.Reader.Scalar.{IsByte, le_value, le_value-lt, All-drop}
use tunix_boot.Util.Reader.Bounds.{IsValid, Reads, fixed_widths_in_bounds}

-- A buffer of bytes that a reader can stand on, with `n` of them to read.
pub record IsBuffer (bytes : List ℕ) (n : ℕ) : Type 0 where
  pub octets : All IsByte bytes
  pub backed : n ≤ length bytes
  pub small : n < u64_mod

module _ (bytes : List ℕ) (n : ℕ) where
  abbrev pub cursor : ℕ → Reader
  cursor p = record { base = bytes; length = n; position = p }

  pub cursor-IsValid : (p : ℕ) → IsBuffer bytes n → p ≤ n → IsValid (cursor p)
  cursor-IsValid p b le = record {
    inside = le;
    backed = b.backed;
    small = b.small;
    bytes = b.octets;
  }

  Reads-at :
      {width v : ℕ} (p q : ℕ) (result : Option ℕ × Reader)
      → n < u64_mod
      → q ≡ p + width
      → q ≤ n
      → Reads (cursor p) width v result
      → result ≡ (some v, cursor q)
  unfolding remaining
  Reads-at {width} {v} p q result small e le s =
      s.accepted (ground (arith, e, le, small)) ∙ ap (λ t. (some v, cursor t)) (sym e)

  pub read_u32-at :
      (p q : ℕ)
      → IsBuffer bytes n
      → q ≡ p + 4
      → q ≤ n
      → read_u32 (cursor p) ≡ (some (le_value (drop p bytes) 4), cursor q)
  read_u32-at p q b e le =
      let (r1, r2, r4, r8) = fixed_widths_in_bounds (cursor p) (cursor-IsValid p b (omega arith)) in
      Reads-at p q (read_u32 (cursor p)) b.small e le r4

  pub read_u64-at :
      (p q : ℕ)
      → IsBuffer bytes n
      → q ≡ p + 8
      → q ≤ n
      → read_u64 (cursor p) ≡ (some (le_value (drop p bytes) 8), cursor q)
  read_u64-at p q b e le =
      let (r1, r2, r4, r8) = fixed_widths_in_bounds (cursor p) (cursor-IsValid p b (omega arith)) in
      Reads-at p q (read_u64 (cursor p)) b.small e le r8

  pub seek-at : (p q : ℕ) → q ≤ n → seek q (cursor p) ≡ (some tt, cursor q)
  unfolding seek
  seek-at p q le = ground arith

  pub read_u8-at :
      (p q : ℕ)
      → IsBuffer bytes n
      → q ≡ p + 1
      → q ≤ n
      → read_u8 (cursor p) ≡ (some (le_value (drop p bytes) 1), cursor q)
  read_u8-at p q b e le =
      let (r1, r2, r4, r8) = fixed_widths_in_bounds (cursor p) (cursor-IsValid p b (omega arith)) in
      Reads-at p q (read_u8 (cursor p)) b.small e le r1

  pub read_u16-at :
      (p q : ℕ)
      → IsBuffer bytes n
      → q ≡ p + 2
      → q ≤ n
      → read_u16 (cursor p) ≡ (some (le_value (drop p bytes) 2), cursor q)
  read_u16-at p q b e le =
      let (r1, r2, r4, r8) = fixed_widths_in_bounds (cursor p) (cursor-IsValid p b (omega arith)) in
      Reads-at p q (read_u16 (cursor p)) b.small e le r2

  -- What a field of the buffer can be.
  pub le_value_fits : (p width : ℕ) → IsBuffer bytes n → le_value (drop p bytes) width < 256 ^ width
  le_value_fits p width b = le_value-lt (drop p bytes) width (All-drop IsByte p bytes b.octets)

  Refuses-at :
      {width v : ℕ} (p : ℕ) (result : Option ℕ × Reader)
      → n < u64_mod
      → p ≤ n
      → n < p + width
      → Reads (cursor p) width v result
      → result ≡ (none, cursor p)
  unfolding remaining
  Refuses-at {width} {v} p result small le short s = s.refused (ground (arith, le, short, small))

  pub read_u8-past :
      (p : ℕ) → IsBuffer bytes n → p ≤ n → n < p + 1 → read_u8 (cursor p) ≡ (none, cursor p)
  read_u8-past p b le short =
      let (r1, r2, r4, r8) = fixed_widths_in_bounds (cursor p) (cursor-IsValid p b le) in
      Refuses-at p (read_u8 (cursor p)) b.small le short r1

  pub read_u32-past :
      (p : ℕ) → IsBuffer bytes n → p ≤ n → n < p + 4 → read_u32 (cursor p) ≡ (none, cursor p)
  read_u32-past p b le short =
      let (r1, r2, r4, r8) = fixed_widths_in_bounds (cursor p) (cursor-IsValid p b le) in
      Refuses-at p (read_u32 (cursor p)) b.small le short r4

  pub seek-past : (p q : ℕ) → n < q → seek q (cursor p) ≡ (none, cursor p)
  unfolding seek
  seek-past p q short = ground arith
