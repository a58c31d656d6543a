-- ===== src/Fs/Fat/Name.antt =====
-- src/fs/fat.c: the names of a directory entry, its 8.3 name and the fragments of its long name.
use Prim.Native.Nat.{bit_and}
use tunix_boot.Prelude.{
  ℕ, zero, suc, ◌+◌, ◌-◌, ◌*◌, ◌/◌, ◌%◌, ◌^◌, Bool, true, false, not, ◌&&◌, ◌||◌, List, [], ◌∷◌,
  ltb, leb, ◌==◌, if◌then◌else◌, length, get_or, set, replicate,
}
use tunix_boot.Prelude.Flow.{Flow, stop, next, continue}
use tunix_boot.Prelude.LittleEndian.{u16_at}
use tunix_boot.Prelude.Word.{u8_mod}

unfoldable pub upper : ℕ → ℕ
upper value = if leb 97 value && leb value 122 then value - 97 + 65 else value

-- The loop that looks for the dot, with `more` characters to go.
unfoldable pub base_length : ℕ → List ℕ → ℕ → ℕ
base_length zero name base = base
base_length (suc more) name base =
    if not (get_or name base 0 == 46) then base_length more name (base + 1) else base

-- The loops that store characters: `count` from `name + from` on at `wanted + to`.
unfoldable pub store_upper : ℕ → List ℕ → ℕ → ℕ → List ℕ → List ℕ
store_upper zero name from to wanted = wanted
store_upper (suc count) name from to wanted =
    store_upper count name (from + 1) (to + 1) (set wanted to (upper (get_or name from 0)))

-- The loop that compares, with `left` characters to go.
unfoldable pub same_upper : ℕ → ℕ → List ℕ → List ℕ → Bool
same_upper zero index entry_name wanted = true
same_upper (suc left) index entry_name wanted =
    if not (upper (get_or entry_name index 0) == get_or wanted index 0)
    then false
    else same_upper left (index + 1) entry_name wanted

abbrev pub padding : List ℕ
padding = replicate 11 32

unfoldable pub name_matches : List ℕ → List ℕ → Bool
name_matches entry_name name =
    let base = base_length (length name) name 0 in
    let wanted = store_upper base name 0 0 padding in
    let extension = length name - base - 1 in
    if ltb 8 base
    then false
    else if ltb base (length name)
    then if ltb 3 extension
      then false
      else same_upper 11 0 entry_name (store_upper extension name (base + 1) 8 wanted)
    else same_upper 11 0 entry_name wanted

abbrev pub long_name_offsets : List ℕ
long_name_offsets = 1 ∷ 3 ∷ 5 ∷ 7 ∷ 9 ∷ 14 ∷ 16 ∷ 18 ∷ 20 ∷ 22 ∷ 24 ∷ 28 ∷ 30 ∷ []

-- `struct long_name`; `text` is the array, which is not cleared before its first use.
pub record LongName : Type 0 where
  pub text : ℕ → ℕ
  pub length : ℕ
  pub checksum : ℕ
  pub valid : Bool

abbrev pub long_name_max : ℕ
long_name_max = 260

-- The loop of `short_name_checksum`, with `left` bytes to go.
unfoldable pub checksum_from : ℕ → ℕ → List ℕ → ℕ → ℕ
checksum_from zero index name sum = sum
checksum_from (suc left) index name sum =
    checksum_from left (index + 1) name
      ((bit_and sum 1 * 2 ^ 7 + sum / 2 + get_or name index 0) % u8_mod)

unfoldable pub short_name_checksum : List ℕ → ℕ
short_name_checksum name = checksum_from 11 0 name 0

unfoldable pub long_name_reset : LongName → LongName
long_name_reset pending = record pending { length = 0; valid = false }

-- One round of the loop over the characters of a fragment; `stop` is a `return`.
unfoldable pub take_unit : List ℕ → ℕ → ℕ → LongName → Flow LongName
take_unit entry base index pending =
    let unit = u16_at entry (get_or long_name_offsets index 0) in
    let position = base + index in
    if leb long_name_max position
    then stop (long_name_reset pending)
    else if (unit == 0) || (unit == 0xFFFF)
    then next
        (if ltb position pending.length then record pending { length = position } else pending)
    else if ltb 0x7F unit
    then stop (long_name_reset pending)
    else next (record pending { text = λ i. if i == position then unit else pending.text i })

-- The loop, with `left` characters to go.
unfoldable pub take_units : ℕ → List ℕ → ℕ → ℕ → LongName → LongName
take_units zero entry base index pending = pending
take_units (suc left) entry base index pending =
    continue (take_unit entry base index pending)
      (λ pending'. take_units left entry base (index + 1) pending')

-- The number of the fragment.
abbrev pub sequence_of : List ℕ → ℕ
sequence_of entry = bit_and (get_or entry 0 0) 0x1F

-- The first fragment in the directory begins the name.
abbrev pub begin_name : LongName → List ℕ → LongName
begin_name pending entry =
    if not (bit_and (get_or entry 0 0) 0x40 == 0)
    then record pending {
      length = sequence_of entry * 13;
      checksum = get_or entry 13 0;
      valid = true;
    }
    else pending

-- `long_name_accumulate` once the name may have begun.
unfoldable pub take_fragment : LongName → List ℕ → LongName
take_fragment pending entry =
    if not pending.valid
    then pending
    else if not (get_or entry 13 0 == pending.checksum)
    then long_name_reset pending
    else take_units 13 entry ((sequence_of entry - 1) * 13) 0 pending

unfoldable pub long_name_accumulate : LongName → List ℕ → LongName
long_name_accumulate pending entry =
    if (sequence_of entry == 0) || ltb 20 (sequence_of entry)
    then long_name_reset pending
    else take_fragment (begin_name pending entry) entry

-- The loop of `long_name_matches`, with `left` characters to go.
unfoldable pub text_matches : ℕ → ℕ → (ℕ → ℕ) → List ℕ → Bool
text_matches zero index text name = true
text_matches (suc left) index text name =
    if not (upper (text index) == upper (get_or name index 0))
    then false
    else text_matches left (index + 1) text name

unfoldable pub long_name_matches : LongName → List ℕ → Bool
long_name_matches pending name =
    if not pending.valid || not (pending.length == length name)
    then false
    else text_matches (length name) 0 pending.text name
