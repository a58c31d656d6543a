-- ===== src/Firmware/E820/Claims.antt =====
-- What the firmware's entries claim, read off the buffer without a cursor, and the map that
-- `e820_parse` makes of them.
use mathlib.Core.Path.{subst}
use Prim.Native.Nat.{bit_and}
use mathlib.Core.List.{append-nil, append_assoc}
use native.Mathlib.Nat.{le_trans}
use tunix_boot.Prelude.{
  ℕ, zero, suc, ◌+◌, ◌*◌, ◌≤◌, ◌<◌, ◌≡◌, ◌≢◌, refl, sym, ap, ◌∙◌, Bool, false, some, List, [], ◌∷◌,
  ◌++◌, arith, All, length, length-append, drop, ltb, ◌==◌, if◌then◌else◌,
}
use tunix_boot.Prelude.Word.{u64_mod}
use tunix_boot.Util.Checked.{checked_add, checked_mul, checked_mul_fits}
use tunix_boot.Util.Reader
use tunix_boot.Util.Reader.{Reader, read_u32, read_u64, ◌>>=◌, pure}
use tunix_boot.Util.Reader.Scalar.{IsByte, le_value}
use tunix_boot.Util.Reader.At.{IsBuffer, cursor, read_u32-at, read_u64-at}
use tunix_boot.Memory.Map.{MemoryRegion, MemoryMap, add, clear, max_regions}
use tunix_boot.Memory.Map.Coverage.{IsRegion, IsWellFormed}
use tunix_boot.Memory.Map.Finalize.{IsFinal, finalize-IsFinal}
use tunix_boot.Firmware.E820.{
  Entry, e820_kind, entry_fields, take_entry, e820_entries, bounded_count, finish, e820_parse,
}

-- The entry at the place in the buffer.
abbrev pub entry_at : List ℕ → ℕ → Entry
entry_at bytes at = record {
  base = le_value (drop at bytes) 8;
  length = le_value (drop (at + 8) bytes) 8;
  type = le_value (drop (at + 16) bytes) 4;
  attributes = le_value (drop (at + 20) bytes) 4;
}

-- An entry counts if it is marked as valid, is not empty and does not wrap.
abbrev pub with_claim : Entry → List MemoryRegion → List MemoryRegion
with_claim e rest =
    if bit_and e.attributes 1 == 0
    then rest
    else if e.length == 0
    then rest
    else if ltb (e.base + e.length) u64_mod
    then record { base = e.base; length = e.length; kind = e820_kind e.type } ∷ rest
    else rest

abbrev pub claims_from : ℕ → List ℕ → ℕ → List MemoryRegion
claims_from zero bytes at = []
claims_from (suc left) bytes at = with_claim (entry_at bytes at) (claims_from left bytes (at + 24))

entry_fields_lem :
    (bytes : List ℕ) (n p : ℕ)
    → IsBuffer bytes n
    → p + 24 ≤ n
    → entry_fields (cursor bytes n p) ≡ (some (entry_at bytes p), cursor bytes n (p + 24))
unfolding entry_fields
entry_fields_lem bytes n p b fits = ground (
  arith,
  read_u64-at bytes n p (p + 8) b refl (omega arith),
  read_u64-at bytes n (p + 8) (p + 16) b (omega arith) (omega arith),
  read_u32-at bytes n (p + 16) (p + 20) b (omega arith) (omega arith),
  read_u32-at bytes n (p + 20) (p + 24) b (omega arith) (omega arith),
)

-- A map with the claims of the rest of the buffer behind its own.
abbrev pub extended : MemoryMap → List MemoryRegion → MemoryMap
extended out rs = record out { regions = out.regions ++ rs }

with_claim-append :
    (e : Entry) (rest : List MemoryRegion) → with_claim e [] ++ rest ≡ with_claim e rest
with_claim-append e rest = ground arith

length-with_claim :
    (e : Entry) (rest : List MemoryRegion) → length (with_claim e rest) ≤ 1 + length rest
length-with_claim e rest = ground arith

take_entry_lem :
    (out : MemoryMap) (e : Entry)
    → length out.regions < max_regions
    → take_entry out e ≡ extended out (with_claim e [])
unfolding take_entry add checked_add
take_entry_lem out e room = ground (arith, append-nil out.regions)

e820_entries-next :
    (left : ℕ) (r r' : Reader) (e : Entry) (out : MemoryMap)
    → entry_fields r ≡ (some e, r')
    → e820_entries (suc left) r out ≡ e820_entries left r' (take_entry out e)
unfolding e820_entries
e820_entries-next left r r' e out step = ground (arith, step)

e820_entries_lem :
    (left : ℕ) (bytes : List ℕ) (n p : ℕ) (out : MemoryMap)
    → IsBuffer bytes n
    → p + left * 24 ≤ n
    → length out.regions + left ≤ max_regions
    → e820_entries left (cursor bytes n p) out ≡ extended out (claims_from left bytes p)
e820_entries_lem zero bytes n p out b fits room =
    unfold e820_entries in
    ap (λ (rs : List MemoryRegion). record out { regions = rs }) (sym (append-nil out.regions))
e820_entries_lem (suc left) bytes n p out b fits room =
    let e = entry_at bytes p in
    let own : List MemoryRegion = with_claim e [] in
    let rest : List MemoryRegion = claims_from left bytes (p + 24) in
    e820_entries-next left (cursor bytes n p) (cursor bytes n (p + 24)) e out
      (entry_fields_lem bytes n p b (omega arith))
    ∙ ap (e820_entries left (cursor bytes n (p + 24))) (take_entry_lem out e (omega arith))
    ∙ e820_entries_lem left bytes n (p + 24) (extended out own) b (omega arith)
        (omega (arith, room, length-append out.regions own, length-with_claim e []))
    ∙ ap (λ (rs : List MemoryRegion). record out { regions = rs })
        (append_assoc out.regions own rest
          ∙ ap (λ (rs : List MemoryRegion). out.regions ++ rs) (with_claim-append e rest))

-- The claims of the whole buffer.
abbrev pub claims : List ℕ → ℕ → MemoryMap
claims bytes count = record {
  regions = claims_from (bounded_count count) bytes 0;
  truncated = false;
}

claims_from-IsRegion : (left : ℕ) (bytes : List ℕ) (p : ℕ) → All IsRegion (claims_from left bytes p)
claims_from-IsRegion zero bytes p = tt
claims_from-IsRegion (suc left) bytes p = ground (arith, claims_from-IsRegion left bytes (p + 24))

length-claims_from : (left : ℕ) (bytes : List ℕ) (p : ℕ) → length (claims_from left bytes p) ≤ left
length-claims_from zero bytes p = omega arith
length-claims_from (suc left) bytes p = ground (arith, length-claims_from left bytes (p + 24))

bounded_count_le : (count : ℕ) → bounded_count count ≤ max_regions
bounded_count_le count = ground arith

claims-IsWellFormed : (bytes : List ℕ) (count : ℕ) → IsWellFormed (claims bytes count)
claims-IsWellFormed bytes count = record {
  regions = claims_from-IsRegion (bounded_count count) bytes 0;
  room = le_trans (length-claims_from (bounded_count count) bytes 0) (bounded_count_le count);
}

-- The map that `e820_parse` leaves behind is the final map of the claims of the first 128 entries:
-- those that are marked as valid, are not empty and do not wrap. It succeeds exactly when some of
-- that map is usable. The buffer holds `count` entries.
pub e820_parse-eq-finish :
    (bytes : List ℕ) (count : ℕ)
    → All IsByte bytes
    → count ≢ 0
    → bounded_count count * 24 ≤ length bytes
    → e820_parse (some bytes) count ≡ finish (claims bytes count)
unfolding e820_parse Reader.init clear
e820_parse-eq-finish bytes count octets some_entries held = ground (
  arith,
  small,
  e820_entries_lem (bounded_count count) bytes (bounded_count count * 24) 0 clear
      (record { octets = octets; backed = held; small = ground arith }) (omega arith)
      (ground arith),
)
  where
    small : checked_mul (bounded_count count) 24 ≡ some (bounded_count count * 24)
    small = checked_mul_fits (bounded_count count) 24 (ground arith)

-- For a buffer that holds `count` entries, at least one, the map of `e820_parse` is final for the
-- claims of the first 128: it reports an address as of some kind only if that is the strongest
-- claim of the entries that are marked as valid, are not empty and do not wrap.
pub e820_parse-IsFinal :
    (bytes : List ℕ) (count : ℕ)
    → All IsByte bytes
    → count ≢ 0
    → bounded_count count * 24 ≤ length bytes
    → IsFinal (claims bytes count) (e820_parse (some bytes) count).1
e820_parse-IsFinal bytes count octets some_entries held =
    subst (λ (r : Bool × MemoryMap). IsFinal (claims bytes count) r.1)
      (sym (e820_parse-eq-finish bytes count octets some_entries held))
      (finalize-IsFinal (claims bytes count) (claims-IsWellFormed bytes count))
