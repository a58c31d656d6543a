-- ===== src/Acpi/Kept.antt =====
-- Keeping usable tables, as many as there is room for.
use tunix_boot.Prelude.{
  ℕ, ◌≡◌, ◌≤◌, inl, inr, refl, ◌∙◌, Option, none, some, List, [], ◌∷◌, ◌++◌, arith, length, ◌==◌,
  if◌then◌else◌, Bool-cases,
}
use tunix_boot.Prelude.Capped.{
  IsCapped, nothing-IsCapped, full-IsCapped, one-IsCapped, then-IsCapped,
}
use tunix_boot.Util.Mem.{Memory}
use tunix_boot.Acpi.{table_usable, AcpiTables, max_tables, keep, MapFn}

-- The tables at those pointers that are usable.
unfoldable pub usable_at : Memory → Option ℕ → List ℕ
usable_at m none = []
usable_at m (some table) = if table_usable m table then table ∷ [] else []

abbrev pub usable_tables : Memory → MapFn → List ℕ → List ℕ
usable_tables m map [] = []
usable_tables m map (p ∷ ps) =
    (if p == 0 then [] else usable_at m (map p)) ++ usable_tables m map ps

-- Tables with room for 64, of those there are.
pub record IsKept (before : AcpiTables) (found : List ℕ) (out : AcpiTables) : Type 0 where
  pub capped : IsCapped max_tables before.entries before.truncated found out.entries out.truncated
  pub same : (out.rsdp ≡ before.rsdp) × (out.revision ≡ before.revision)

pub nothing-IsKept : (out : AcpiTables) → length out.entries ≤ max_tables → IsKept out [] out
nothing-IsKept out le = record {
  capped = nothing-IsCapped max_tables out.entries out.truncated le;
  same = (refl, refl);
}

pub keep-IsKept :
    (m : Memory) (o : Option ℕ) (out : AcpiTables)
    → length out.entries ≤ max_tables
    → IsKept out (usable_at m o) (keep m o out)
unfolding keep usable_at
keep-IsKept m none out le = nothing-IsKept out le
keep-IsKept m (some table) out le = elim (Bool-cases (table_usable m table)) [
  | inr useless ↦ rw useless (nothing-IsKept out le)
  | inl usable ↦ elim (Bool-cases (length out.entries == max_tables)) [
    | inl full ↦
        rw (usable, full)
          (record {
            capped = full-IsCapped max_tables out.entries out.truncated table (ground arith);
            same = (refl, refl);
          })
    | inr room ↦
        rw (usable, room)
          (record {
            capped = one-IsCapped max_tables out.entries out.truncated table (ground arith);
            same = (refl, refl);
          })
  ]
]

pub then-IsKept :
    (a b c : AcpiTables) (xs ys : List ℕ) → IsKept a xs b → IsKept b ys c → IsKept a (xs ++ ys) c
then-IsKept a b c xs ys h k = record {
  capped =
      then-IsCapped max_tables a.entries b.entries c.entries xs ys a.truncated b.truncated
        c.truncated h.capped k.capped;
  same = (k.same.0 ∙ h.same.0, k.same.1 ∙ h.same.1);
}
