-- ===== src/Acpi/Tables.antt =====
-- What `acpi_collect` keeps: the usable ones of the tables that the root lists, as many as there is
-- room for.
use native.Mathlib.Nat.{div-mul-le_self}
use mathlib.Core.Path.{subst}
use tunix_boot.Prelude.{
  ℕ, zero, suc, ◌+◌, ◌-◌, ◌*◌, ◌/◌, ◌≡◌, ◌≤◌, ◌<◌, inl, inr, refl, sym, ap, ◌∙◌, Bool, true, false,
  some, List, [], ◌∷◌, arith, All, length, take, drop, ltb, ◌==◌, if◌then◌else◌, Bool-cases,
  Option-cases,
}
use tunix_boot.Prelude.Capped.{length-capped}
use tunix_boot.Prelude.Word.{u64_mod}
use tunix_boot.Util.Mem.{Memory}
use tunix_boot.Util.Reader
use tunix_boot.Util.Reader.{Reader, seek, read_u32, read_u64}
use tunix_boot.Util.Reader.Scalar.{IsByte, le_value}
use tunix_boot.Util.Reader.At.{IsBuffer, cursor, read_u32-at, read_u64-at, seek-at}
use tunix_boot.Acpi.Kept.{
  usable_at, usable_tables, IsKept, nothing-IsKept, keep-IsKept, then-IsKept,
}
use tunix_boot.Acpi.{
  bytes_at, table_length, table_usable, AcpiTables, max_tables, keep, MapFn, read_pointer,
  collect_entries, collect_root, root_table, no_tables, acpi_rsdp_valid, acpi_collect,
}

abbrev pub stride_of : Bool → ℕ
stride_of wide = if wide then 8 else 4

-- The pointers of a root table, by their offsets.
abbrev pub pointers : List ℕ → Bool → ℕ → ℕ → List ℕ
pointers bytes wide zero offset = []
pointers bytes wide (suc k) offset =
    le_value (drop offset bytes) (stride_of wide) ∷ pointers bytes wide k (offset + stride_of wide)

-- One pointer, as an equation.
pub read_pointer-at :
    (bytes : List ℕ) (n : ℕ) (wide : Bool) (p : ℕ)
    → IsBuffer bytes n
    → p + stride_of wide ≤ n
    → read_pointer wide (cursor bytes n p)
      ≡ (some (le_value (drop p bytes) (stride_of wide)), cursor bytes n (p + stride_of wide))
read_pointer-at bytes n true p b le = read_u64-at bytes n p (p + 8) b refl le
read_pointer-at bytes n false p b le = read_u32-at bytes n p (p + 4) b refl le

module _ (m : Memory) (map : MapFn) (wide : Bool) (bytes : List ℕ) (n : ℕ)
    (b : IsBuffer bytes n) where
  collect_entries-step :
      (left p : ℕ) (out : AcpiTables)
      → p + stride_of wide ≤ n
      → collect_entries (suc left) m map wide (cursor bytes n p) out
        ≡ collect_entries left m map wide (cursor bytes n (p + stride_of wide)) (
            if le_value (drop p bytes) (stride_of wide) == 0
            then out
            else keep m (map (le_value (drop p bytes) (stride_of wide))) out)
  unfolding collect_entries
  collect_entries-step left p out le = ground (arith, read_pointer-at bytes n wide p b le)

  pointer-IsKept :
      (pointer : ℕ) (out : AcpiTables)
      → length out.entries ≤ max_tables
      → IsKept out
          (if pointer == 0 then [] else usable_at m (map pointer))
          (if pointer == 0 then out else keep m (map pointer) out)
  pointer-IsKept pointer out le = elim (Bool-cases (pointer == 0)) [
    | inl z ↦ rw z (nothing-IsKept out le)
    | inr nz ↦ rw nz (keep-IsKept m (map pointer) out le)
  ]

  collect_entries-IsKept :
      (left p : ℕ) (out : AcpiTables)
      → p + left * stride_of wide ≤ n
      → length out.entries ≤ max_tables
      → IsKept out
          (usable_tables m map (pointers bytes wide left p))
          (collect_entries left m map wide (cursor bytes n p) out)
  unfolding collect_entries
  collect_entries-IsKept zero p out fits le = nothing-IsKept out le
  collect_entries-IsKept (suc left) p out fits le =
      let pointer : ℕ = le_value (drop p bytes) (stride_of wide) in
      let next : AcpiTables = (if pointer == 0 then out else keep m (map pointer) out) in
      let here = pointer-IsKept pointer out le in
      let room : length next.entries ≤ max_tables =
        length-capped max_tables out.entries _ next.entries out.truncated next.truncated
          here.capped in
      let product : suc left * stride_of wide ≡ stride_of wide + left * stride_of wide =
        grind arith in
      let later =
        collect_entries-IsKept left (p + stride_of wide) next (omega (arith, product)) room in
      subst (IsKept out _) (sym (collect_entries-step left p out (omega (arith, product))))
        (then-IsKept out next _ _ _ here later)

bytes_at-All : (m : Memory) (at n : ℕ) → ((a : ℕ) → m a < 256) → All IsByte (bytes_at m at n)
bytes_at-All m at zero h = tt
bytes_at-All m at (suc n) h = (h at, bytes_at-All m (at + 1) n h)

pub length-bytes_at : (m : Memory) (at n : ℕ) → length (bytes_at m at n) ≡ n
length-bytes_at m at zero = refl
length-bytes_at m at (suc n) = omega (arith, length-bytes_at m (at + 1) n)

pub bytes_at-IsBuffer :
    (m : Memory) (at n : ℕ) → ((a : ℕ) → m a < 256) → n < u64_mod → IsBuffer (bytes_at m at n) n
bytes_at-IsBuffer m at n h small = record {
  octets = bytes_at-All m at n h;
  backed = omega (arith, length-bytes_at m at n);
  small = small;
}

-- The tables that a root table lists, by the pointers that stand in it.
abbrev pub listed : Memory → MapFn → ℕ → Bool → List ℕ
listed m map root wide = usable_tables m map (
    pointers (bytes_at m root (table_length m root)) wide
      ((table_length m root - 36) / stride_of wide) 36)

-- What a success of `acpi_collect` leaves.
pub record IsCollected (m : Memory) (map : MapFn) (rsdp : ℕ) (out : AcpiTables) : Type 0 where
  pub root : ℕ
  pub wide : Bool
  pub named :
      root_table map (m (rsdp + 15)) (Reader.init (some (bytes_at m rsdp 64)) 64)
      ≡ some (root, wide)
  pub usable : table_usable m root ≡ true
  pub kept : out.entries ≡ take max_tables (listed m map root wide)
  pub cut : out.truncated ≡ ltb max_tables (length (listed m map root wide))
  pub pointer : out.rsdp ≡ some rsdp
  pub revision : out.revision ≡ m (rsdp + 15)

pub table_usable-bounds :
    (m : Memory) (table : ℕ)
    → table_usable m table ≡ true
    → (36 ≤ table_length m table) × (table_length m table ≤ 1024 * 1024)
unfolding table_usable
table_usable-bounds m table e = (ground (arith, e), ground (arith, e))

collect_root-eq :
    (m : Memory) (map : MapFn) (root : ℕ) (wide : Bool) (out : AcpiTables)
    → table_usable m root ≡ true
    → seek 36 (cursor (bytes_at m root (table_length m root)) (table_length m root) 0)
      ≡ (some tt, cursor (bytes_at m root (table_length m root)) (table_length m root) 36)
    → collect_root m map (root, wide) out ≡ (
      true,
      collect_entries
          ((table_length m root - 36) / stride_of wide)
          m
          map
          wide
          (cursor (bytes_at m root (table_length m root)) (table_length m root) 36)
          out,
    )
unfolding collect_root Reader.init
collect_root-eq m map root wide out usable e = ground (arith, usable, e)

collect_root_usable :
    (m : Memory) (map : MapFn) (root : ℕ) (wide : Bool) (start out : AcpiTables)
    → collect_root m map (root, wide) start ≡ (true, out)
    → table_usable m root ≡ true
unfolding collect_root
collect_root_usable m map root wide start out e = elim (Bool-cases (table_usable m root)) [
  | inl usable ↦ usable
  | inr bad ↦ absurd (ground (arith, bad, e))
]

-- A success of `acpi_collect` for a root pointer structure, in a memory of bytes, keeps exactly the
-- tables with a length and a checksum that can be believed among those whose pointers, not 0, the
-- root table lists, in their order and as many as there is room for, and says whether some had to
-- be left out. The root table is usable itself.
pub acpi_collect-IsCollected :
    (m : Memory) (map : MapFn) (rsdp : ℕ) (out : AcpiTables)
    → ((a : ℕ) → m a < 256)
    → acpi_collect m (some rsdp) map ≡ (true, out)
    → IsCollected m map rsdp out
unfolding acpi_collect
acpi_collect-IsCollected m map rsdp out octets e =
    let start : AcpiTables = record no_tables { rsdp = some rsdp; revision = m (rsdp + 15) } in
    elim (Bool-cases (acpi_rsdp_valid m rsdp)) [
      | inr bad ↦ absurd (ground (arith, bad, e))
      | inl valid ↦
          elim (Option-cases
            (root_table map (m (rsdp + 15)) (Reader.init (some (bytes_at m rsdp 64)) 64))) [
              | inl none_named ↦ absurd (ground (arith, valid, none_named, e))
              | inr (found, named) ↦
                  let collected : collect_root m map found start ≡ (true, out) =
                    ground (arith, valid, named, e) in
                  of_root found.0 found.1 start refl named collected
            ]
    ]
  where
    of_root :
        (root : ℕ) (wide : Bool) (start : AcpiTables)
        → start ≡ record no_tables { rsdp = some rsdp; revision = m (rsdp + 15) }
        → root_table map (m (rsdp + 15)) (Reader.init (some (bytes_at m rsdp 64)) 64)
          ≡ some (root, wide)
        → collect_root m map (root, wide) start ≡ (true, out)
        → IsCollected m map rsdp out
    of_root root wide start s named c =
        let usable : table_usable m root ≡ true = collect_root_usable m map root wide start out c in
        let (big, fits) = table_usable-bounds m root usable in
        let n : ℕ = table_length m root in
        let bytes : List ℕ = bytes_at m root n in
        let b = bytes_at-IsBuffer m root n octets (omega (arith, fits)) in
        let run = collect_root-eq m map root wide start usable (seek-at bytes n 0 36 big) in
        let left : ℕ = (n - 36) / stride_of wide in
        let k =
          collect_entries-IsKept m map wide bytes n b left 36 start
            (omega (arith, big, div-mul-le_self (n - 36) (stride_of wide)))
            (let z = ap (λ (t : AcpiTables). length t.entries) s in omega (arith, z)) in
        let all : collect_entries left m map wide (cursor bytes n 36) start ≡ out =
          (let q = sym run ∙ c in ap (λ (t : Bool × AcpiTables). t.1) q) in
        let kept : IsKept (record no_tables { rsdp = some rsdp; revision = m (rsdp + 15) })
            (usable_tables m map (pointers bytes wide left 36)) out =
          subst (λ t. IsKept t (usable_tables m map (pointers bytes wide left 36)) out) s
            (subst (IsKept start (usable_tables m map (pointers bytes wide left 36))) all k) in
        record {
          root = root;
          wide = wide;
          named = named;
          usable = usable;
          kept = kept.capped.kept;
          cut = kept.capped.cut;
          pointer = kept.same.0;
          revision = kept.same.1;
        }
