-- ===== src/Acpi/Collected.antt =====
-- What `acpi_collect` collects, read off the memory byte by byte: the root table, and the tables that
-- it lists.
use native.Mathlib.Nat.{div-mul-le_self}
use mathlib.Core.Path.{ap₂}
use tunix_boot.Prelude.{
  ℕ, zero, suc, ◌+◌, ◌-◌, ◌*◌, ◌/◌, ◌%◌, ◌^◌, bit_or, ◌≡◌, ◌≤◌, ◌<◌, inl, inr, refl, sym, ap, ◌∙◌,
  Bool, true, false, ◌&&◌, Option, none, some, List, [], ◌∷◌, ◌++◌, arith, length, take, drop, ltb,
  leb, ◌==◌, if◌then◌else◌, Bool-cases,
}
use tunix_boot.Prelude.Bits.{bit_or_disjoint}
use tunix_boot.Util.Mem.{Memory}
use tunix_boot.Util.Reader
use tunix_boot.Util.Reader.{Reader, seek}
use tunix_boot.Util.Reader.Scalar.{le_value}
use tunix_boot.Util.Reader.At.{cursor, seek-at}
use tunix_boot.Acpi.{
  bytes_at, table_length, table_usable, acpi_checksum, AcpiTables, max_tables, MapFn, read_pointer,
  pointer_at, root_table, acpi_collect,
}
use tunix_boot.Acpi.Scan.{sum_of_bytes, acpi_checksum_iff}
use tunix_boot.Acpi.Kept.{usable_at, usable_tables}
use tunix_boot.Acpi.Tables.{
  stride_of, pointers, listed, read_pointer-at, bytes_at-IsBuffer, table_usable-bounds,
  acpi_collect-IsCollected,
}

-- The number in so many bytes from an address on, the lowest first.
abbrev pub number_at : Memory → ℕ → ℕ → ℕ
number_at m at zero = 0
number_at m at (suc k) = m at + 256 * number_at m (at + 1) k

-- A table has from 36 bytes to a mebibyte by its own header, and they add up to a multiple of 256.
abbrev pub believable : Memory → ℕ → Bool
believable m table =
    leb 36 (number_at m (table + 4) 4)
    && leb (number_at m (table + 4) 4) 1048576
    && (sum_of_bytes m table (number_at m (table + 4) 4) % 256 == 0)

-- What the map function gives for a pointer; 0 points to nothing.
abbrev pub mapped : MapFn → ℕ → Option ℕ
mapped map pointer = if pointer == 0 then none else map pointer

-- The XSDT, with pointers of 8 bytes, if the revision has one and it is mapped; else the RSDT, with
-- pointers of 4.
abbrev pub root_of : Memory → MapFn → ℕ → Option (ℕ × Bool)
root_of m map rsdp =
    elim (if leb 2 (m (rsdp + 15)) then mapped map (number_at m (rsdp + 24) 8) else none) [
      | some xsdt ↦ some (xsdt, true)
      | none ↦ elim (mapped map (number_at m (rsdp + 16) 4)) [
        | some rsdt ↦ some (rsdt, false)
        | none ↦ none
      ]
    ]

abbrev pub if_believable : Memory → Option ℕ → List ℕ
if_believable m none = []
if_believable m (some table) = if believable m table then table ∷ [] else []

-- The tables that can be believed among those that so many pointers from an address on lead to.
abbrev pub tables_from : Memory → MapFn → ℕ → ℕ → ℕ → List ℕ
tables_from m map stride zero at = []
tables_from m map stride (suc left) at =
    if_believable m (mapped map (number_at m at stride))
    ++ tables_from m map stride left (at + stride)

abbrev pub all_tables : Memory → MapFn → ℕ → Bool → List ℕ
all_tables m map root wide =
    tables_from m map (stride_of wide) ((number_at m (root + 4) 4 - 36) / stride_of wide)
      (root + 36)

-- What a success of `acpi_collect` leaves.
pub record Collects (m : Memory) (map : MapFn) (rsdp : ℕ) (out : AcpiTables) : Type 0 where
  pub root : ℕ
  pub wide : Bool
  pub named : root_of m map rsdp ≡ some (root, wide)
  pub usable : believable m root ≡ true
  pub kept : out.entries ≡ take max_tables (all_tables m map root wide)
  pub cut : out.truncated ≡ ltb max_tables (length (all_tables m map root wide))
  pub pointer : out.rsdp ≡ some rsdp
  pub revision : out.revision ≡ m (rsdp + 15)

le_value-bytes_at :
    (m : Memory) (at n k : ℕ) → k ≤ n → le_value (bytes_at m at n) k ≡ number_at m at k
le_value-bytes_at m at n zero le = refl
le_value-bytes_at m at zero (suc k) le = absurd (omega arith)
le_value-bytes_at m at (suc n) (suc k) le =
    ap (λ (t : ℕ). m at + 256 * t) (le_value-bytes_at m (at + 1) n k (omega arith))

le_value-number_at :
    (m : Memory) (at skip n k : ℕ)
    → skip + k ≤ n
    → le_value (drop skip (bytes_at m at n)) k ≡ number_at m (at + skip) k
le_value-number_at m at zero n k le =
    let here : at ≡ at + 0 = omega arith in
    le_value-bytes_at m at n k (omega arith) ∙ ap (λ t. number_at m t k) here
le_value-number_at m at (suc skip) zero k le = absurd (omega arith)
le_value-number_at m at (suc skip) (suc n) k le =
    let here : at + 1 + skip ≡ at + suc skip = omega arith in
    le_value-number_at m (at + 1) skip n k (omega arith) ∙ ap (λ t. number_at m t k) here

-- Four bytes put together.
joined :
    (a b c d : ℕ)
    → a < 256
    → b < 256
    → c < 256
    → bit_or (bit_or (bit_or a (b * 2 ^ 8)) (c * 2 ^ 16)) (d * 2 ^ 24)
      ≡ a + 256 * (b + 256 * (c + 256 * (d + 0)))
joined a b c d la lb lc =
    ap (λ t. bit_or (bit_or t (c * 2 ^ 16)) (d * 2 ^ 24)) (bit_or_disjoint 8 a b la)
    ∙ ap (λ t. bit_or t (d * 2 ^ 24)) (bit_or_disjoint 16 (a + b * 2 ^ 8) c (omega arith))
    ∙ bit_or_disjoint 24 (a + b * 2 ^ 8 + c * 2 ^ 16) d (omega arith)
    ∙ (let e : a + b * 2 ^ 8 + c * 2 ^ 16 + d * 2 ^ 24 ≡ a + 256 * (b + 256 * (c + 256 * (d + 0))) =
          omega arith in
        e)

module _ (m : Memory) (octets : (a : ℕ) → m a < 256) where
  table_length-number_at : (table : ℕ) → table_length m table ≡ number_at m (table + 4) 4
  unfolding table_length
  table_length-number_at table = joined _ _ _ _ (octets _) (octets _) (octets _)

  checksum_same : (at n : ℕ) → acpi_checksum m at n ≡ (sum_of_bytes m at n % 256 == 0)
  checksum_same at n =
      let (there, back) = acpi_checksum_iff m at n in
      elim (Bool-cases (acpi_checksum m at n)) [
        | inl good ↦ ground (arith, good, there good)
        | inr bad ↦ ground (arith, bad, back)
      ]

  table_usable-believable : (table : ℕ) → table_usable m table ≡ believable m table
  unfolding table_usable
  table_usable-believable table =
      let e = table_length-number_at table in
      let n : ℕ = number_at m (table + 4) 4 in
      ap
        (λ n.
          if ltb n 36
          then false
          else if ltb (1024 * 1024) n
          then false
          else acpi_checksum m table n)
        e
      ∙ guards n (acpi_checksum m table n)
      ∙ ap (λ t. leb 36 n && leb n 1048576 && t) (checksum_same table n)
    where
      guards :
          (n : ℕ) (good : Bool)
          → (if ltb n 36 then false else if ltb (1024 * 1024) n then false else good)
            ≡ (leb 36 n && leb n 1048576 && good)
      guards n good = ground arith

  usable_at-if_believable : (o : Option ℕ) → usable_at m o ≡ if_believable m o
  unfolding usable_at
  usable_at-if_believable none = refl
  usable_at-if_believable (some table) =
      ap (λ t. if t then table ∷ [] else []) (table_usable-believable table)

  one_table :
      (map : MapFn) (p : ℕ)
      → (if p == 0 then [] else usable_at m (map p)) ≡ if_believable m (mapped map p)
  one_table map p = elim (Bool-cases (p == 0)) [
    | inl null ↦ rw null refl
    | inr there ↦ rw there (usable_at-if_believable (map p))
  ]

  usable_tables-tables_from :
      (map : MapFn) (wide : Bool) (root n left p : ℕ)
      → p + left * stride_of wide ≤ n
      → usable_tables m map (pointers (bytes_at m root n) wide left p)
        ≡ tables_from m map (stride_of wide) left (root + p)
  usable_tables-tables_from map wide root n zero p fits = refl
  usable_tables-tables_from map wide root n (suc left) p fits =
      let stride : ℕ = stride_of wide in
      let product : suc left * stride ≡ stride + left * stride = grind arith in
      let next : root + (p + stride) ≡ root + p + stride = omega arith in
      let rest : List ℕ =
        usable_tables m map (pointers (bytes_at m root n) wide left (p + stride)) in
      ap (λ q. (if q == 0 then [] else usable_at m (map q)) ++ rest)
        (le_value-number_at m root p n stride (omega (arith, product)))
      ∙ ap (λ (t : List ℕ). t ++ rest) (one_table map (number_at m (root + p) stride))
      ∙ ap (λ (t : List ℕ). if_believable m (mapped map (number_at m (root + p) stride)) ++ t)
          (usable_tables-tables_from map wide root n left (p + stride) (omega (arith, product))
            ∙ ap (tables_from m map stride left) next)

  listed-all_tables :
      (map : MapFn) (root : ℕ) (wide : Bool)
      → 36 ≤ table_length m root
      → listed m map root wide ≡ all_tables m map root wide
  listed-all_tables map root wide big =
      let n : ℕ = table_length m root in
      let stride : ℕ = stride_of wide in
      usable_tables-tables_from map wide root n ((n - 36) / stride) 36
        (omega (arith, big, div-mul-le_self (n - 36) stride))
      ∙ ap (λ n. tables_from m map stride ((n - 36) / stride) (root + 36))
          (table_length-number_at root)

  pointer_at-number_at :
      (rsdp offset : ℕ) (wide : Bool)
      → offset + 8 ≤ 64
      → pointer_at offset wide (cursor (bytes_at m rsdp 64) 64 0) ≡ (
          if number_at m (rsdp + offset) (stride_of wide) == 0
          then none
          else some (number_at m (rsdp + offset) (stride_of wide)))
  pointer_at-number_at rsdp offset wide fits =
      let bytes : List ℕ = bytes_at m rsdp 64 in
      let narrow : stride_of wide ≤ 8 = ground arith in
      let seeks : seek offset (cursor bytes 64 0) ≡ (some tt, cursor bytes 64 offset) =
        seek-at bytes 64 0 offset (omega arith) in
      let reads =
        read_pointer-at bytes 64 wide offset (bytes_at-IsBuffer m rsdp 64 octets (omega arith))
          (omega (arith, narrow, fits)) in
      read_at seeks reads
      ∙ ap (λ p. if p == 0 then none else some p)
          (le_value-number_at m rsdp offset 64 (stride_of wide) (omega (arith, narrow, fits)))
    where
      read_at :
          {bytes : List ℕ} {pointer : ℕ} {after : Reader}
          → seek offset (cursor bytes 64 0) ≡ (some tt, cursor bytes 64 offset)
          → read_pointer wide (cursor bytes 64 offset) ≡ (some pointer, after)
          → pointer_at offset wide (cursor bytes 64 0)
            ≡ (if pointer == 0 then none else some pointer)
      read_at seeks reads = ground (arith, seeks, reads)

-- The choice of the root table by the two pointers.
unfoldable chosen_root : MapFn → ℕ → Option ℕ → Option ℕ → Option (ℕ × Bool)
chosen_root map revision wide narrow =
    elim (if ltb revision 2 then none else elim wide [ none ↦ none | some xsdt ↦ map xsdt ]) [
      | some root ↦ some (root, true)
      | none ↦ elim narrow [
        | none ↦ none
        | some rsdt ↦ elim (map rsdt) [ none ↦ none | some root ↦ some (root, false) ]
      ]
    ]

chosen_root-mapped :
    (map : MapFn) (revision x r : ℕ)
    → chosen_root map revision (if x == 0 then none else some x) (if r == 0 then none else some r)
      ≡ elim (if leb 2 revision then mapped map x else none) as (λ _. Option (ℕ × Bool)) [
        | some xsdt ↦ some (xsdt, true)
        | none ↦ elim (mapped map r) [ some rsdt ↦ some (rsdt, false) | none ↦ none ]
      ]
unfolding chosen_root
chosen_root-mapped map revision x r = ground arith

root_table-root_of :
    (m : Memory) (octets : (a : ℕ) → m a < 256) (map : MapFn) (rsdp : ℕ)
    → root_table map (m (rsdp + 15)) (Reader.init (some (bytes_at m rsdp 64)) 64)
      ≡ root_of m map rsdp
unfolding root_table chosen_root Reader.init
root_table-root_of m octets map rsdp =
    ap₂ (chosen_root map (m (rsdp + 15))) (pointer_at-number_at m octets rsdp 24 true (omega arith))
      (pointer_at-number_at m octets rsdp 16 false (omega arith))
    ∙ chosen_root-mapped map (m (rsdp + 15)) (number_at m (rsdp + 24) 8) (number_at m (rsdp + 16) 4)

-- A success of `acpi_collect` for a root pointer structure, in a memory of bytes, keeps exactly the
-- tables that can be believed among those whose pointers, not 0, the root table lists, in their order
-- and as many as there is room for, and says whether some had to be left out. A table can be believed
-- if its header gives it from 36 bytes to a mebibyte and they add up to a multiple of 256, and so can
-- the root table, which is the XSDT where the revision has one that is mapped, and the RSDT otherwise.
pub acpi_collect-Collects :
    (m : Memory) (map : MapFn) (rsdp : ℕ) (out : AcpiTables)
    → ((a : ℕ) → m a < 256)
    → acpi_collect m (some rsdp) map ≡ (true, out)
    → Collects m map rsdp out
acpi_collect-Collects m map rsdp out octets e =
    let c = acpi_collect-IsCollected m map rsdp out octets e in
    let (big, _) = table_usable-bounds m c.root c.usable in
    let same = listed-all_tables m octets map c.root c.wide big in
    record {
      root = c.root;
      wide = c.wide;
      named = sym (root_table-root_of m octets map rsdp) ∙ c.named;
      usable = sym (table_usable-believable m octets c.root) ∙ c.usable;
      kept = c.kept ∙ ap (take max_tables) same;
      cut = c.cut ∙ ap (λ ts. ltb max_tables (length ts)) same;
      pointer = c.pointer;
      revision = c.revision;
    }
