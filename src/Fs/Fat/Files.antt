-- ===== src/Fs/Fat/Files.antt =====
-- src/fs/fat.c: looking a path up, and reading a file. A file refers to the one volume, which the
-- calls take and return beside it.
use Prim.Native.Nat.{bit_and}
use tunix_boot.Prelude.{
  ℕ, zero, suc, ◌+◌, ◌-◌, ◌*◌, ◌/◌, ◌%◌, ◌^◌, bit_or, Bool, true, false, not, ◌&&◌, ◌||◌, Option,
  none, some, List, [], ltb, leb, ◌==◌, if◌then◌else◌, length, get_or,
}
use tunix_boot.Prelude.LittleEndian.{u16_at, u32_at}
use tunix_boot.Prelude.Slices.{slice}
use tunix_boot.Prelude.Word.{u32_mod, add64, mul64}
use tunix_boot.Util.Checked.{checked_add}
use tunix_boot.Fs.Fat.{FatVolume, FatWalk, read_chain}
use tunix_boot.Fs.Fat.Name.{
  LongName, long_name_reset, long_name_accumulate, long_name_matches, short_name_checksum,
  name_matches,
}

-- `struct fat_file`, without the pointer to the volume.
pub record FatFile : Type 0 where
  pub first_cluster : ℕ
  pub size : ℕ
  pub directory : Bool
  pub walk : FatWalk

-- `walk.valid = false`; the other fields are then never read.
abbrev pub no_walk : FatWalk
no_walk = record { offset = 0; cluster = 0; valid = false }

abbrev pub file_of : List ℕ → FatFile
file_of entry = record {
  first_cluster = bit_or (u16_at entry 20 * 2 ^ 16 % u32_mod) (u16_at entry 26);
  size = u32_at entry 28;
  directory = not (bit_and (get_or entry 11 0) 0x10 == 0);
  walk = no_walk;
}

-- What an entry of the directory means for the search.
pub data Looked : Type 0 where
  ended : Looked
  passed : LongName → Looked
  found : FatFile → Looked

-- Whether the entry has the name, by either of its names.
abbrev pub entry_matches : LongName → List ℕ → List ℕ → Bool
entry_matches pending entry name =
    (pending.valid
      && (pending.checksum == short_name_checksum entry)
      && long_name_matches pending name)
    || name_matches entry name

-- The body of the loop of `find_in_directory` for an entry that was read.
unfoldable pub look_at : LongName → List ℕ → List ℕ → Looked
look_at pending entry name =
    if get_or entry 0 0 == 0
    then ended
    else if get_or entry 0 0 == 0xE5
    then passed (long_name_reset pending)
    else if get_or entry 11 0 == 0x0F
    then passed (long_name_accumulate pending entry)
    else if not (bit_and (get_or entry 11 0) 0x08 == 0)
    then passed (long_name_reset pending)
    else if entry_matches pending entry name
    then found (file_of entry)
    else passed (long_name_reset pending)

-- The loop, with `left` entries to go.
unfoldable pub find_from : ℕ → ℕ → List ℕ → ℕ → LongName → FatVolume → Option FatFile × FatVolume
find_from zero cluster name offset pending v = (none, v)
find_from (suc left) cluster name offset pending v =
    elim (read_chain v cluster offset 32 none).bytes [
      | none ↦ (none, (read_chain v cluster offset 32 none).volume)
      | some entry ↦ elim (look_at pending entry name) [
        | ended ↦ (none, (read_chain v cluster offset 32 none).volume)
        | found file ↦ (some file, (read_chain v cluster offset 32 none).volume)
        | passed pending' ↦
            find_from left cluster name (add64 offset 32) pending'
              (read_chain v cluster offset 32 none).volume
      ]
    ]

-- `find_in_directory`; `stack` is what the text of the pending name holds before it is written.
unfoldable pub find_in_directory : (ℕ → ℕ) → ℕ → List ℕ → FatVolume → Option FatFile × FatVolume
find_in_directory stack cluster name v =
    find_from (mul64 v.geometry.cluster_count v.geometry.cluster_bytes / 32) cluster name 0
      (record { text = stack; length = 0; checksum = 0; valid = false }) v

-- The path is the bytes from the pointer on; past its end it is taken to be terminated.
unfoldable pub skip_separators : ℕ → List ℕ → ℕ → ℕ
skip_separators zero path index = index
skip_separators (suc more) path index =
    if get_or path index 0 == 47 then skip_separators more path (index + 1) else index

unfoldable pub component_end : ℕ → List ℕ → ℕ → ℕ
component_end zero path index = index
component_end (suc more) path index =
    if not (get_or path index 0 == 0) && not (get_or path index 0 == 47)
    then component_end more path (index + 1)
    else index

-- The main loop of `fat_open`: every round consumes a component, so as many rounds as there are
-- bytes are enough.
unfoldable pub open_from :
    ℕ → (ℕ → ℕ) → List ℕ → ℕ → FatFile → FatVolume → Option FatFile × FatVolume
open_from zero stack path index current v = (none, v)
open_from (suc fuel) stack path index current v = elim (get_or path index 0 == 0) [
  | true ↦ (some current, v)
  | false ↦
      let end = component_end (length path - index) path index in
      let name = slice path index (end - index) in
      elim (leb 256 index || not current.directory || (end - index == 0) || ltb 260 (end - index)) [
        | true ↦ (none, v)
        | false ↦ elim (find_in_directory stack current.first_cluster name v).0 [
          | none ↦ (none, (find_in_directory stack current.first_cluster name v).1)
          | some file ↦
              open_from fuel stack path (skip_separators (length path - end) path end) file
                (find_in_directory stack current.first_cluster name v).1
        ]
      ]
]

abbrev pub root_of : FatVolume → FatFile
root_of v = record {
  first_cluster = v.geometry.root_cluster;
  size = 0;
  directory = true;
  walk = no_walk;
}

unfoldable pub fat_open : (ℕ → ℕ) → FatVolume → List ℕ → Option FatFile × FatVolume
fat_open stack v path =
    open_from (suc (length path)) stack path (skip_separators (length path) path 0) (root_of v) v

-- What `fat_read` returns, the volume, and the file.
pub record FileRead : Type 0 where
  pub bytes : Option (List ℕ)
  pub volume : FatVolume
  pub file : FatFile

-- The walk that `read_chain` leaves in the file.
abbrev pub file_after : FatFile → Option FatWalk → FatFile
file_after file none = file
file_after file (some walk) = record file { walk = walk }

unfoldable pub fat_read : FatVolume → FatFile → ℕ → ℕ → FileRead
fat_read v file offset count =
    if file.directory
    then record { bytes = none; volume = v; file = file }
    else if count == 0
    then record { bytes = some []; volume = v; file = file }
    else elim (checked_add offset count) [
      | none ↦ record { bytes = none; volume = v; file = file }
      | some end ↦
          if ltb file.size end
          then record { bytes = none; volume = v; file = file }
          else let r = read_chain v file.first_cluster offset count (some file.walk) in
            record { bytes = r.bytes; volume = r.volume; file = file_after file r.walk }
    ]
