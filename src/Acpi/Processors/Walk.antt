-- ===== src/Acpi/Processors/Walk.antt =====
-- The walk over the records of the MADT: what it adds, and that it ends.
use mathlib.Core.Path.{subst}
use tunix_boot.Prelude.{
  ℕ, ◌+◌, ◌≡◌, ◌≤◌, ◌<◌, inl, inr, refl, sym, ◌∙◌, true, false, ◌||◌, Option, none, some, List, [],
  ◌∷◌, arith, length, drop, leb, ◌==◌, Bool-cases,
}
use tunix_boot.Prelude.Capped.{IsCapped, nothing-IsCapped, full-IsCapped, one-IsCapped}
use tunix_boot.Prelude.Branches.{if_by, either_option_by}
use tunix_boot.Util.Mem.{Memory}
use tunix_boot.Util.Reader
use tunix_boot.Util.Reader.{seek, read_u8, read_u32}
use tunix_boot.Util.Reader.Scalar.{le_value}
use tunix_boot.Util.Reader.At.{IsBuffer, cursor}
use tunix_boot.Acpi.Tables.{bytes_at-IsBuffer}
use tunix_boot.Acpi.Processors.{
  AcpiProcessor, AcpiProcessors, max_processors, add_processor, processor_fields, take_record,
}
use tunix_boot.Acpi.Processors.Madt.{
  bytes_of, processor_with, described_by, local_apic-fields, local_apic-short, local_x2apic-fields,
  local_x2apic-short,
}

-- The processors, as many as there is room for, and the address that stays.
pub record IsAdded (before : AcpiProcessors) (found : List AcpiProcessor) (out : AcpiProcessors)
    : Type 0 where
  pub capped :
      IsCapped max_processors before.entries before.truncated found out.entries out.truncated
  pub same : out.local_apic_address ≡ before.local_apic_address

pub nothing-IsAdded :
    (out : AcpiProcessors) → length out.entries ≤ max_processors → IsAdded out [] out
nothing-IsAdded out le = record {
  capped = nothing-IsCapped max_processors out.entries out.truncated le;
  same = refl;
}

add_processor-IsAdded :
    (apic_id flags : ℕ) (out : AcpiProcessors)
    → length out.entries ≤ max_processors
    → IsAdded out (processor_with apic_id flags ∷ []) (add_processor apic_id flags out)
unfolding add_processor
add_processor-IsAdded apic_id flags out le =
    elim (Bool-cases (length out.entries == max_processors)) [
      | inl full ↦ rw full (record {
        capped =
            full-IsCapped max_processors out.entries out.truncated (processor_with apic_id flags)
              (ground arith);
        same = refl;
      })
      | inr room ↦ rw room (record {
        capped =
            one-IsCapped max_processors out.entries out.truncated (processor_with apic_id flags)
              (ground arith);
        same = refl;
      })
    ]

module _ (m : Memory) (octets : (a : ℕ) → m a < 256) where
  unknown-IsAdded :
      (entry : ℕ) (out : AcpiProcessors)
      → length out.entries ≤ max_processors
      → ((m entry == 0) || (m entry == 9)) ≡ false
      → IsAdded out [] (take_record m entry out)
  unfolding take_record
  unknown-IsAdded entry out le e = rw e (nothing-IsAdded out le)

  -- A record whose fields cannot be read adds nothing.
  ignored-IsAdded :
      (entry : ℕ) (out : AcpiProcessors)
      → length out.entries ≤ max_processors
      → (processor_fields (m entry) (cursor (bytes_of m entry) (m (entry + 1)) 0)).0 ≡ none
      → IsAdded out [] (take_record m entry out)
  unfolding take_record Reader.init
  ignored-IsAdded entry out le e =
      if_by (IsAdded out []) ((m entry == 0) || (m entry == 9))
        (λ known.
          either_option_by (IsAdded out []) _ (λ fails. nothing-IsAdded out le)
            (λ fields reads. absurd (let contra = sym e ∙ reads in cc)))
        (λ unknown. nothing-IsAdded out le)

  taken-IsAdded :
      (entry apic_id flags : ℕ) (out : AcpiProcessors)
      → length out.entries ≤ max_processors
      → ((m entry == 0) || (m entry == 9)) ≡ true
      → (processor_fields (m entry) (cursor (bytes_of m entry) (m (entry + 1)) 0)).0
        ≡ some (apic_id, flags)
      → IsAdded out (processor_with apic_id flags ∷ []) (take_record m entry out)
  unfolding take_record Reader.init
  taken-IsAdded entry apic_id flags out le known e =
      let same : take_record m entry out ≡ add_processor apic_id flags out =
        ground (arith, known, e) in
      subst (IsAdded out (processor_with apic_id flags ∷ [])) (sym same)
        (add_processor-IsAdded apic_id flags out le)

  -- A record adds what it describes.
  pub take_record-IsAdded :
      (entry : ℕ) (out : AcpiProcessors)
      → length out.entries ≤ max_processors
      → IsAdded out (described_by m entry) (take_record m entry out)
  unfolding described_by
  take_record-IsAdded entry out le =
      let n : ℕ = m (entry + 1) in
      let bytes : List ℕ = bytes_of m entry in
      let b : IsBuffer bytes n =
        bytes_at-IsBuffer m entry n octets (omega (arith, octets (entry + 1))) in
      let Q : ℕ → Option (ℕ × ℕ) → Type 0 =
        (λ t o. (processor_fields t (cursor bytes n 0)).0 ≡ o) in
      let P : List AcpiProcessor → Type 0 =
        (λ found. IsAdded out found (take_record m entry out)) in
      if_by P (m entry == 0)
        (λ local.
          let type : 0 ≡ m entry = ground (arith, local) in
          if_by P (leb 8 n)
            (λ long. taken-IsAdded entry _ _ out le (ground (arith, local)) (
              subst (λ t. Q t (some (le_value (drop 3 bytes) 1, le_value (drop 4 bytes) 4))) type
                (local_apic-fields bytes n b (ground (arith, long)))))
            (λ short.
              ignored-IsAdded entry out le
                (subst (λ t. Q t none) type (local_apic-short bytes n b (ground (arith, short))))))
        (λ other.
          if_by P (m entry == 9)
            (λ extended.
              let type : 9 ≡ m entry = ground (arith, extended) in
              if_by P (leb 12 n)
                (λ long. taken-IsAdded entry _ _ out le (ground (arith, extended)) (
                  subst (λ t. Q t (some (le_value (drop 4 bytes) 4, le_value (drop 8 bytes) 4)))
                    type (local_x2apic-fields bytes n b (ground (arith, long)))))
                (λ short. ignored-IsAdded entry out le (
                  subst (λ t. Q t none) type
                    (local_x2apic-short bytes n b (ground (arith, short))))))
            (λ unknown. unknown-IsAdded entry out le (ground (arith, other, unknown))))
