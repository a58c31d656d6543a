-- ===== src/Acpi/Processors/Listed.antt =====
-- The records of the MADT from its 44th byte on, and what `acpi_processors` makes of them.
use mathlib.Core.Path.{subst}
use tunix_boot.Prelude.{
  ℕ, zero, suc, ◌+◌, ◌%◌, ◌≡◌, ◌≤◌, ◌<◌, refl, sym, ◌∙◌, Bool, true, not, ◌&&◌, some, List, [],
  ◌++◌, arith, length, take, drop, ltb, leb, ◌==◌,
}
use tunix_boot.Prelude.Branches.{either_by}
use tunix_boot.Prelude.Capped.{then-IsCapped, length-capped}
use tunix_boot.Prelude.Word.{u32_mod}
use tunix_boot.Util.Mem.{Memory}
use tunix_boot.Util.Reader
use tunix_boot.Util.Reader.{seek, read_u32}
use tunix_boot.Util.Reader.Scalar.{le_value}
use tunix_boot.Util.Reader.At.{IsBuffer, read_u32-at, seek-at}
use tunix_boot.Acpi.{
  bytes_at, table_length, table_usable, AcpiTables, MapFn, acpi_collect, acpi_find_table,
}
use tunix_boot.Acpi.Tables.{bytes_at-IsBuffer, table_usable-bounds}
use tunix_boot.Acpi.Find.{found_usable}
use tunix_boot.Acpi.Processors.{
  AcpiProcessor, AcpiProcessors, max_processors, take_record, madt_from, no_processors, read_madt,
  signature_madt, acpi_processors,
}
use tunix_boot.Acpi.Processors.Madt.{described_by}
use tunix_boot.Acpi.Processors.Walk.{IsAdded, nothing-IsAdded, take_record-IsAdded}

-- The processors of the records from an offset on, each record behind the one before it, up to the
-- first that is not inside the table or does not advance.
pub data RecordsFrom (m : Memory) (madt size : ℕ) : ℕ → List AcpiProcessor → Type 0 where
  ends :
      (offset : ℕ)
      → (offset + 2 ≤ size → 2 ≤ m (madt + offset + 1) → size < offset + m (madt + offset + 1))
      → RecordsFrom m madt size offset []
  goes :
      (offset : ℕ) (found : List AcpiProcessor)
      → 2 ≤ m (madt + offset + 1)
      → offset + m (madt + offset + 1) ≤ size
      → RecordsFrom m madt size (offset + m (madt + offset + 1)) found
      → RecordsFrom m madt size offset (described_by m (madt + offset) ++ found)

-- What the walk from an offset leaves.
record Walks (m : Memory) (madt size offset : ℕ) (before out : AcpiProcessors) : Type 0 where
  found : List AcpiProcessor
  records : RecordsFrom m madt size offset found
  added : IsAdded before found out

module _ (m : Memory) (octets : (a : ℕ) → m a < 256) (madt size : ℕ)
    (small : size + 256 ≤ u32_mod) where
  stops-Walks :
      (offset : ℕ) (out : AcpiProcessors)
      → length out.entries ≤ max_processors
      → (offset + 2 ≤ size → 2 ≤ m (madt + offset + 1) → size < offset + m (madt + offset + 1))
      → Walks m madt size offset out out
  stops-Walks offset out le stop = record {
    found = [];
    records = ends offset stop;
    added = nothing-IsAdded out le;
  }

  then-Walks :
      (offset : ℕ) (out next last : AcpiProcessors)
      → 2 ≤ m (madt + offset + 1)
      → offset + m (madt + offset + 1) ≤ size
      → IsAdded out (described_by m (madt + offset)) next
      → Walks m madt size (offset + m (madt + offset + 1)) next last
      → Walks m madt size offset out last
  then-Walks offset out next last big inside a w = record {
    found = described_by m (madt + offset) ++ w.found;
    records = goes offset w.found big inside w.records;
    added = record {
      capped =
          then-IsCapped max_processors out.entries next.entries last.entries
            (described_by m (madt + offset)) w.found out.truncated next.truncated last.truncated
            a.capped w.added.capped;
      same = w.added.same ∙ a.same;
    };
  }

  madt_from-Walks :
      (fuel offset : ℕ) (out : AcpiProcessors)
      → offset ≤ size
      → size ≤ offset + fuel
      → length out.entries ≤ max_processors
      → Walks m madt size offset out (madt_from fuel m madt size offset out)
  unfolding madt_from
  madt_from-Walks zero offset out inside enough le =
      stops-Walks offset out le (λ fits. absurd (omega arith))
  madt_from-Walks (suc fuel) offset out inside enough le =
      let len : ℕ = m (madt + offset + 1) in
      either_by (Walks m madt size offset out)
        (leb ((offset + 2) % u32_mod) size && leb 2 len && leb ((offset + len) % u32_mod) size)
        (λ goes_on.
          let bounds : (2 ≤ len) × (offset + len ≤ size) =
            (ground (arith, goes_on), ground (arith, goes_on, octets (madt + offset + 1))) in
          let next : AcpiProcessors = take_record m (madt + offset) out in
          let a = take_record-IsAdded m octets (madt + offset) out le in
          let at : offset + len ≡ (offset + len) % u32_mod = omega (arith, bounds) in
          then-Walks offset out next _ bounds.0 bounds.1 a (
            subst (λ t. Walks m madt size (offset + len) next (madt_from fuel m madt size t next))
              at
              (madt_from-Walks fuel (offset + len) next bounds.1 (omega (arith, bounds)) (
                length-capped max_processors out.entries (described_by m (madt + offset))
                  next.entries out.truncated next.truncated a.capped))))
        (λ stops.
          stops-Walks offset out le (λ fits big. ground (arith, stops, octets (madt + offset + 1))))

-- What `acpi_processors` returns for a MADT.
pub record IsListed (m : Memory) (madt : ℕ) (result : Bool × AcpiProcessors) : Type 0 where
  pub found : List AcpiProcessor
  pub records : RecordsFrom m madt (table_length m madt) 44 found
  pub kept : result.1.entries ≡ take max_processors found
  pub cut : result.1.truncated ≡ ltb max_processors (length found)
  pub some_found : result.0 ≡ not (length result.1.entries == 0)
  pub address :
      result.1.local_apic_address ≡ le_value (drop 36 (bytes_at m madt (table_length m madt))) 4

module _ (m : Memory) (octets : (a : ℕ) → m a < 256) (madt : ℕ) where
  read_madt-IsListed :
      table_usable m madt ≡ true → 44 ≤ table_length m madt → IsListed m madt (read_madt m madt)
  unfolding read_madt Reader.init
  read_madt-IsListed usable big =
      let n : ℕ = table_length m madt in
      let bytes : List ℕ = bytes_at m madt n in
      let (_, fits) = table_usable-bounds m madt usable in
      let b : IsBuffer bytes n = bytes_at-IsBuffer m madt n octets (omega (arith, fits)) in
      let start : AcpiProcessors = record no_processors {
        local_apic_address = le_value (drop 36 bytes) 4;
      } in
      let w =
        madt_from-Walks m octets madt n (omega (arith, fits)) n 44 start big (omega arith)
          (omega arith) in
      let out : AcpiProcessors = madt_from n m madt n 44 start in
      let reads : read_madt m madt ≡ (not (length out.entries == 0), out) = ground (
        arith,
        big,
        seek-at bytes n 0 36 (omega (arith, big)),
        read_u32-at bytes n 36 40 b refl (omega (arith, big)),
      ) in
      subst (IsListed m madt) (sym reads) (record {
        found = w.found;
        records = w.records;
        kept = w.added.capped.kept;
        cut = w.added.capped.cut;
        some_found = refl;
        address = w.added.same;
      })

  found_processors :
      (tables : AcpiTables)
      → acpi_find_table m tables signature_madt ≡ some madt
      → acpi_processors m tables ≡ read_madt m madt
  unfolding acpi_processors
  found_processors tables found = ground (arith, found)

-- For the tables that `acpi_collect` has collected in a memory of bytes, with a MADT of at least 44
-- bytes among them, `acpi_processors` lists exactly the processors of the records of the MADT, from
-- its 44th byte on up to the first record that is not inside the table or does not advance, in
-- their order and as many as there is room for; it says whether some had to be left out, reports
-- the address of the local APIC, and succeeds when there is a processor. The walk always ends.
pub acpi_processors-IsListed :
    (m : Memory) (map : MapFn) (rsdp madt : ℕ) (tables : AcpiTables)
    → ((a : ℕ) → m a < 256)
    → acpi_collect m (some rsdp) map ≡ (true, tables)
    → acpi_find_table m tables signature_madt ≡ some madt
    → 44 ≤ table_length m madt
    → IsListed m madt (acpi_processors m tables)
acpi_processors-IsListed m map rsdp madt tables octets collects found big =
    let usable = found_usable m map rsdp madt tables signature_madt octets collects found in
    subst (IsListed m madt) (sym (found_processors m octets madt tables found))
      (read_madt-IsListed m octets madt usable big)
