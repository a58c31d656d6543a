-- ===== src/Acpi/Find.antt =====
-- A table that `acpi_find_table` finds among those collected.
use tunix_boot.Acpi.Tables.{stride_of, pointers, acpi_collect-IsCollected}
use mathlib.Core.Path.{subst}
use tunix_boot.Prelude.{
  ℕ, zero, suc, ◌-◌, ◌/◌, ◌≡◌, ◌<◌, inl, inr, sym, true, Option, none, some, List, [], ◌∷◌, arith,
  All, All-append, take, ◌==◌, Bool-cases,
}
use tunix_boot.Prelude.Branches.{if_by}
use tunix_boot.Util.Mem.{Memory, memcmp, is_equal}
use tunix_boot.Acpi.Kept.{usable_at, usable_tables}
use tunix_boot.Acpi.{
  bytes_at, table_length, table_usable, AcpiTables, max_tables, MapFn, acpi_collect, find_table_in,
  acpi_find_table,
}

All-take : {A : Type 0} (P : A → Type 0) (n : ℕ) (xs : List A) → All P xs → All P (take n xs)
All-take P zero xs h = tt
All-take P (suc n) [] h = tt
All-take P (suc n) (x ∷ xs) h = (h.0, All-take P n xs h.1)

usable_at-All : (m : Memory) (o : Option ℕ) → All (λ t. table_usable m t ≡ true) (usable_at m o)
unfolding usable_at
usable_at-All m none = tt
usable_at-All m (some table) =
    if_by (All (λ t. table_usable m t ≡ true)) (table_usable m table) (λ usable. (usable, tt))
      (λ useless. tt)

usable_tables-All :
    (m : Memory) (map : MapFn) (ps : List ℕ)
    → All (λ t. table_usable m t ≡ true) (usable_tables m map ps)
usable_tables-All m map [] = tt
usable_tables-All m map (p ∷ ps) =
    All-append (λ t. table_usable m t ≡ true) _ _
      (if_by (All (λ t. table_usable m t ≡ true)) (p == 0) (λ z. tt)
        (λ nz. usable_at-All m (map p)))
      (usable_tables-All m map ps)

find_table_in-All :
    (m : Memory) (P : ℕ → Type 0) (tables signature : List ℕ) (table : ℕ)
    → All P tables
    → find_table_in m tables signature ≡ some table
    → P table
unfolding find_table_in
find_table_in-All m P [] signature table h e = absurd (ground (arith, e))
find_table_in-All m P (t ∷ ts) signature table h e =
    elim (Bool-cases (is_equal (memcmp (bytes_at m t 4) signature 4))) [
      | inl here ↦ let same : t ≡ table = ground (arith, here, e) in subst P same h.0
      | inr there ↦ find_table_in-All m P ts signature table h.1 (ground (arith, there, e))
    ]

-- A table that is found among those collected has a length and a checksum that can be believed.
pub found_usable :
    (m : Memory) (map : MapFn) (rsdp table : ℕ) (tables : AcpiTables) (signature : List ℕ)
    → ((a : ℕ) → m a < 256)
    → acpi_collect m (some rsdp) map ≡ (true, tables)
    → acpi_find_table m tables signature ≡ some table
    → table_usable m table ≡ true
unfolding acpi_find_table
found_usable m map rsdp table tables signature octets collects found =
    let c = acpi_collect-IsCollected m map rsdp tables octets collects in
    let all : All (λ t. table_usable m t ≡ true) tables.entries =
      subst (All (λ t. table_usable m t ≡ true)) (sym c.kept) (
        All-take (λ t. table_usable m t ≡ true) max_tables _
          (usable_tables-All m map (
            pointers (bytes_at m c.root (table_length m c.root)) c.wide
              ((table_length m c.root - 36) / stride_of c.wide) 36))) in
    find_table_in-All m (λ t. table_usable m t ≡ true) tables.entries signature table all found
