-- ===== src/Firmware/UefiMemory/Claims.antt =====
-- What the firmware's descriptors claim, read off the buffer at the stride that it reports, and the
-- map that `uefi_memory_parse` makes of them.
use mathlib.Core.Path.{subst, ap₂}
use native.Mathlib.Nat.{div-mul-le_self, lt-div-mul-add, div-le_self, suc-mul}
use tunix_boot.Prelude.{
  ℕ, zero, suc, ◌+◌, ◌*◌, ◌/◌, ◌≤◌, ◌<◌, ◌≡◌, ◌≢◌, refl, sym, ap, ◌∙◌, Bool, false, Option, none,
  some, List, [], ◌∷◌, ◌++◌, true, inl, inr, ◌||◌, take, ltb, leb, ◌==◌, if◌then◌else◌, Bool-cases,
  arith, All, length, length-drop, drop,
}
use tunix_boot.Prelude.Capped.{
  IsCapped, nothing-IsCapped, full-IsCapped, one-IsCapped, then-IsCapped, length-capped,
}
use tunix_boot.Prelude.Word.{u64_mod, add64}
use tunix_boot.Util.Checked.{checked_add, checked_mul}
use tunix_boot.Util.Reader
use tunix_boot.Util.Reader.{Reader}
use tunix_boot.Util.Reader.Scalar.{IsByte, le_value, All-drop}
use tunix_boot.Util.Reader.At.{IsBuffer, cursor, read_u32-at, read_u64-at, seek-at}
use tunix_boot.Memory.Map.{
  MemoryKind, usable, bootloader_reclaimable, acpi_reclaimable, acpi_nvs, reserved, bad,
  MemoryRegion, MemoryMap, max_regions, add, clear,
}
use tunix_boot.Memory.Map.Coverage.{IsWellFormed, add-IsWellFormed}
use tunix_boot.Memory.Map.Finalize.{IsFinal, finalize-IsFinal}
use tunix_boot.Firmware.E820.{finish}
use tunix_boot.Firmware.UefiMemory.{
  UefiPhase, before_exit, after_exit, Descriptor, descriptor_fields, take_descriptor,
  uefi_memory_kind, uefi_descriptors, uefi_memory_parse,
}

-- The descriptor that begins a buffer.
abbrev pub descriptor_of : List ℕ → Descriptor
descriptor_of bytes = record {
  type = le_value bytes 4;
  physical = le_value (drop 8 bytes) 8;
  pages = le_value (drop 24 bytes) 8;
}

-- The claims of `left` descriptors, one every `size` bytes from `offset` on.
abbrev pub described : UefiPhase → List ℕ → ℕ → ℕ → ℕ → MemoryMap → MemoryMap
described phase bytes size zero offset out = out
described phase bytes size (suc left) offset out =
    described phase bytes size left (offset + size)
      (take_descriptor phase out (descriptor_of (drop offset bytes)))

descriptor_fields_lem :
    (bytes : List ℕ) (n : ℕ)
    → IsBuffer bytes n
    → 32 ≤ n
    → (descriptor_fields (cursor bytes n 0)).0 ≡ some (descriptor_of bytes)
unfolding descriptor_fields
descriptor_fields_lem bytes n b fits = ground (
  arith,
  read_u32-at bytes n 0 4 b refl (omega arith),
  seek-at bytes n 4 8 (omega arith),
  read_u64-at bytes n 8 16 b refl (omega arith),
  seek-at bytes n 16 24 (omega arith),
  read_u64-at bytes n 24 32 b refl (omega arith),
)

module _ (phase : UefiPhase) (bytes : List ℕ) (total size : ℕ) where
  uefi_descriptors-done :
      (fuel offset : ℕ) (out : MemoryMap)
      → total < offset + size
      → offset + size < u64_mod
      → uefi_descriptors fuel bytes total size phase offset out ≡ out
  unfolding uefi_descriptors
  uefi_descriptors-done zero offset out past small = refl
  uefi_descriptors-done (suc fuel) offset out past small = ground arith

  uefi_descriptors-more :
      (fuel offset : ℕ) (out : MemoryMap) (d : Descriptor)
      → offset + size ≤ total
      → total < u64_mod
      → (descriptor_fields (cursor (drop offset bytes) size 0)).0 ≡ some d
      → uefi_descriptors (suc fuel) bytes total size phase offset out
        ≡ uefi_descriptors fuel bytes total size phase (offset + size) (take_descriptor phase out d)
  unfolding uefi_descriptors Reader.init
  uefi_descriptors-more fuel offset out d inside small found =
      let same : add64 offset size ≡ offset + size = omega arith in ground (arith, found, same)

  uefi_descriptors-described :
      (left fuel offset : ℕ) (out : MemoryMap)
      → All IsByte bytes
      → total ≤ length bytes
      → 40 ≤ size
      → total + size < u64_mod
      → left ≤ fuel
      → offset + left * size ≤ total
      → total < offset + left * size + size
      → uefi_descriptors fuel bytes total size phase offset out
        ≡ described phase bytes size left offset out
  uefi_descriptors-described zero fuel offset out octets held big small enough low high =
      uefi_descriptors-done fuel offset out (omega (arith, high)) (omega (arith, low, small))
  uefi_descriptors-described (suc left) zero offset out octets held big small enough low high =
      absurd (omega arith)
  uefi_descriptors-described (suc left) (suc fuel) offset out octets held big small enough low
        high =
      let e : suc left * size ≡ left * size + size = suc-mul left size in
      uefi_descriptors-more fuel offset out (descriptor_of (drop offset bytes))
        (omega (arith, e, low)) (omega (arith, small))
        (descriptor_fields_lem (drop offset bytes) size
          (record {
            octets = All-drop IsByte offset bytes octets;
            backed = omega (arith, length-drop offset bytes, e, low, held);
            small = omega (arith, small);
          })
          (omega arith))
      ∙ uefi_descriptors-described left fuel (offset + size)
          (take_descriptor phase out (descriptor_of (drop offset bytes))) octets held big small
          (omega arith) (omega (arith, e, low)) (omega (arith, e, high))

-- What a type says of the memory, as long as boot services run.
abbrev pub lasting_kind : ℕ → MemoryKind
lasting_kind type =
    if type == 7
    then usable
    else if (type == 1) || (type == 2)
    then bootloader_reclaimable
    else if type == 8
    then bad
    else if type == 9
    then acpi_reclaimable
    else if type == 10
    then acpi_nvs
    else reserved

-- What the firmware's type says of the memory, by the phase: its own code and heap are free once
-- boot services are gone.
abbrev pub claimed_kind : UefiPhase → ℕ → MemoryKind
claimed_kind before_exit type = lasting_kind type
claimed_kind after_exit type = if (type == 3) || (type == 4) then usable else lasting_kind type

-- The region that a descriptor claims: whole pages of 4096 bytes, at least one, that do not wrap.
abbrev pub with_region : UefiPhase → Descriptor → List MemoryRegion → List MemoryRegion
with_region phase d rest =
    if (d.pages == 0) || leb u64_mod (d.pages * 4096) || leb u64_mod (d.physical + d.pages * 4096)
    then rest
    else record { base = d.physical; length = d.pages * 4096; kind = claimed_kind phase d.type }
      ∷ rest

-- The regions of `left` descriptors, one every `size` bytes from `offset` on.
abbrev pub regions_from : UefiPhase → List ℕ → ℕ → ℕ → ℕ → List MemoryRegion
regions_from phase bytes size zero offset = []
regions_from phase bytes size (suc left) offset =
    with_region phase (descriptor_of (drop offset bytes)) []
    ++ regions_from phase bytes size left (offset + size)

-- The claims of the whole descriptors in the buffer; a map has room for the first 128 and is marked
-- if there are more.
abbrev pub uefi_claims : UefiPhase → List ℕ → ℕ → ℕ → MemoryMap
uefi_claims phase bytes total size = record {
  regions = take max_regions (regions_from phase bytes size (total / size) 0);
  truncated = ltb max_regions (length (regions_from phase bytes size (total / size) 0));
}

uefi_memory_kind-claimed_kind :
    (phase : UefiPhase) (type : ℕ) → uefi_memory_kind type phase ≡ claimed_kind phase type
unfolding uefi_memory_kind
uefi_memory_kind-claimed_kind before_exit type = ground arith
uefi_memory_kind-claimed_kind after_exit type = ground arith

-- From one map to the next by claiming regions, as far as there is room.
abbrev Claims : MemoryMap → List MemoryRegion → MemoryMap → Type 0
Claims before found after =
    IsCapped max_regions before.regions before.truncated found after.regions after.truncated

-- A region that `add` refuses.
abbrev is_refused : ℕ → ℕ → Bool
is_refused base bytes = (bytes == 0) || leb u64_mod (base + bytes)

module _ (out : MemoryMap) (base bytes : ℕ) (kind : MemoryKind) where
  abbrev region : MemoryRegion
  region = record { base = base; length = bytes; kind = kind }

  add_refused : is_refused base bytes ≡ true → (add out base bytes kind).1 ≡ out
  unfolding add checked_add
  add_refused e = ground (arith, e)

  add_full :
      is_refused base bytes ≡ false
      → (length out.regions == max_regions) ≡ true
      → (add out base bytes kind).1 ≡ record out { truncated = true }
  unfolding add checked_add
  add_full e full = ground (arith, e, full)

  add_room :
      is_refused base bytes ≡ false
      → (length out.regions == max_regions) ≡ false
      → (add out base bytes kind).1 ≡ record out { regions = out.regions ++ region ∷ [] }
  unfolding add checked_add
  add_room e room = ground (arith, e, room)

  add-Claims :
      length out.regions ≤ max_regions
      → Claims out (if is_refused base bytes then [] else region ∷ []) (add out base bytes kind).1
  add-Claims le = elim (Bool-cases (is_refused base bytes)) [
    | inl refused ↦
        subst (Claims out (if is_refused base bytes then [] else region ∷ []))
          (sym (add_refused refused))
          (rw refused (nothing-IsCapped max_regions out.regions out.truncated le))
    | inr taken ↦ elim (Bool-cases (length out.regions == max_regions)) [
      | inl full ↦
          subst (Claims out (if is_refused base bytes then [] else region ∷ []))
            (sym (add_full taken full))
            (rw taken
              (full-IsCapped max_regions out.regions out.truncated region (ground (arith, full))))
      | inr room ↦
          subst (Claims out (if is_refused base bytes then [] else region ∷ []))
            (sym (add_room taken room))
            (rw taken
              (one-IsCapped max_regions out.regions out.truncated region (ground (arith, room))))
    ]
  ]

module _ (phase : UefiPhase) (out : MemoryMap) (d : Descriptor) where
  take_descriptor_long : u64_mod ≤ d.pages * 4096 → take_descriptor phase out d ≡ out
  unfolding take_descriptor checked_mul
  take_descriptor_long long = ground (arith, long)

  take_descriptor-add :
      d.pages * 4096 < u64_mod
      → take_descriptor phase out d
        ≡ (add out d.physical (d.pages * 4096) (uefi_memory_kind d.type phase)).1
  unfolding take_descriptor checked_mul
  take_descriptor-add short = ground (arith, short)

  with_region_long : u64_mod ≤ d.pages * 4096 → with_region phase d [] ≡ []
  with_region_long long = ground (arith, long)

  with_region_short :
      d.pages * 4096 < u64_mod
      → (if is_refused d.physical (d.pages * 4096)
          then []
          else region out d.physical (d.pages * 4096) (uefi_memory_kind d.type phase) ∷ [])
        ≡ with_region phase d []
  with_region_short short =
      ap
        (λ k.
          if is_refused d.physical (d.pages * 4096)
          then []
          else region out d.physical (d.pages * 4096) k ∷ [])
        (uefi_memory_kind-claimed_kind phase d.type)
      ∙ ground (arith, short)

  take_descriptor-Claims :
      length out.regions ≤ max_regions
      → Claims out (with_region phase d []) (take_descriptor phase out d)
  take_descriptor-Claims le = elim (Bool-cases (leb u64_mod (d.pages * 4096))) [
    | inl long ↦
        subst (λ found. Claims out found (take_descriptor phase out d))
          (sym (with_region_long (ground (arith, long))))
          (subst (Claims out []) (sym (take_descriptor_long (ground (arith, long))))
            (nothing-IsCapped max_regions out.regions out.truncated le))
    | inr short ↦
        subst (λ found. Claims out found (take_descriptor phase out d))
          (with_region_short (ground (arith, short)))
          (subst (Claims out _) (sym (take_descriptor-add (ground (arith, short))))
            (add-Claims out d.physical (d.pages * 4096) (uefi_memory_kind d.type phase) le))
  ]

described-Claims :
    (phase : UefiPhase) (bytes : List ℕ) (size left offset : ℕ) (out : MemoryMap)
    → length out.regions ≤ max_regions
    → Claims out
        (regions_from phase bytes size left offset)
        (described phase bytes size left offset out)
described-Claims phase bytes size zero offset out le =
    nothing-IsCapped max_regions out.regions out.truncated le
described-Claims phase bytes size (suc left) offset out le =
    let d : Descriptor = descriptor_of (drop offset bytes) in
    let next : MemoryMap = take_descriptor phase out d in
    let last : MemoryMap = described phase bytes size left (offset + size) next in
    let here = take_descriptor-Claims phase out d le in
    let room =
      length-capped max_regions out.regions (with_region phase d []) next.regions out.truncated
        next.truncated here in
    then-IsCapped max_regions out.regions next.regions last.regions (with_region phase d [])
      (regions_from phase bytes size left (offset + size)) out.truncated next.truncated
      last.truncated here (described-Claims phase bytes size left (offset + size) next room)

described-uefi_claims :
    (phase : UefiPhase) (bytes : List ℕ) (total size : ℕ)
    → described phase bytes size (total / size) 0 (record { regions = []; truncated = false })
      ≡ uefi_claims phase bytes total size
described-uefi_claims phase bytes total size =
    let c =
      described-Claims phase bytes size (total / size) 0
        (record { regions = []; truncated = false }) (omega arith) in
    ap₂ map_with c.kept c.cut
  where
    map_with : List MemoryRegion → Bool → MemoryMap
    map_with rs t = record { regions = rs; truncated = t }

take_descriptor-IsWellFormed :
    (phase : UefiPhase) (out : MemoryMap) (d : Descriptor)
    → IsWellFormed out
    → IsWellFormed (take_descriptor phase out d)
unfolding take_descriptor
take_descriptor-IsWellFormed phase out d w = of_length (checked_mul d.pages 4096)
  where
    of_length :
        (o : Option ℕ)
        → IsWellFormed (elim o as (λ _. MemoryMap) [
          | none ↦ out
          | some bytes ↦ (add out d.physical bytes (uefi_memory_kind d.type phase)).1
        ])
    of_length none = w
    of_length (some bytes) = add-IsWellFormed out d.physical bytes (uefi_memory_kind d.type phase) w

described-IsWellFormed :
    (phase : UefiPhase) (bytes : List ℕ) (size left offset : ℕ) (out : MemoryMap)
    → IsWellFormed out
    → IsWellFormed (described phase bytes size left offset out)
described-IsWellFormed phase bytes size zero offset out w = w
described-IsWellFormed phase bytes size (suc left) offset out w =
    described-IsWellFormed phase bytes size left (offset + size) _
      (take_descriptor-IsWellFormed phase out (descriptor_of (drop offset bytes)) w)

-- The loop of `uefi_memory_parse` reads every whole descriptor of the buffer at the stride that the
-- firmware reports, and no more, and ends: the result is the final map of their claims, and a
-- success exactly when some of it is usable. The stride is from 40 to 1024 bytes.
pub uefi_memory_parse-eq-finish :
    (phase : UefiPhase) (bytes : List ℕ) (total size : ℕ)
    → All IsByte bytes
    → total ≢ 0
    → total ≤ length bytes
    → 40 ≤ size
    → size ≤ 1024
    → total + size < u64_mod
    → uefi_memory_parse (some bytes) total size phase ≡ finish (uefi_claims phase bytes total size)
unfolding uefi_memory_parse clear
uefi_memory_parse-eq-finish phase bytes total size octets nz held low high small =
    let all : uefi_descriptors total bytes total size phase 0 clear
        ≡ uefi_claims phase bytes total size =
      uefi_descriptors-described phase bytes total size (total / size) total 0 clear octets held low
        small (div-le_self total size) (omega (arith, div-mul-le_self total size))
        (omega (arith, lt-div-mul-add {a = total} {b = size} (omega arith)))
      ∙ described-uefi_claims phase bytes total size in
    ground (arith, all)

-- The map of `uefi_memory_parse` is final for the claims of the whole descriptors in the buffer: the
-- first 128 of those that have pages and do not wrap, each with the kind that its type has in the
-- phase, and a mark if there are more. The stride is from 40 to 1024 bytes and the buffer not empty.
pub uefi_memory_parse-IsFinal :
    (phase : UefiPhase) (bytes : List ℕ) (total size : ℕ)
    → All IsByte bytes
    → total ≢ 0
    → total ≤ length bytes
    → 40 ≤ size
    → size ≤ 1024
    → total + size < u64_mod
    → IsFinal
        (uefi_claims phase bytes total size)
        (uefi_memory_parse (some bytes) total size phase).1
uefi_memory_parse-IsFinal phase bytes total size octets nz held low high small =
    subst (λ (r : Bool × MemoryMap). IsFinal (uefi_claims phase bytes total size) r.1)
      (sym (uefi_memory_parse-eq-finish phase bytes total size octets nz held low high small))
      (finalize-IsFinal (uefi_claims phase bytes total size) (
        subst IsWellFormed (described-uefi_claims phase bytes total size) (
          described-IsWellFormed phase bytes size (total / size) 0 _
            (record { regions = tt; room = omega arith }))))
