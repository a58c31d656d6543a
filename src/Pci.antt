-- ===== src/Pci.antt =====
-- src/pci/pci.c. The configuration read is a function of the bus, the device, the function and the
-- offset. The arrays of `struct walk` are functions of the bus.
pub mod Ends
pub mod Found
pub mod Visits
pub mod Complete
use Prim.Native.Nat.{bit_and}
use tunix_boot.Prelude.{
  ℕ, zero, suc, ◌+◌, ◌*◌, ◌/◌, ◌%◌, ◌^◌, bit_or, Bool, true, false, not, List, [], ◌∷◌, ◌++◌, ltb,
  ◌==◌, if◌then◌else◌, length,
}
use tunix_boot.Prelude.Word.{u8_mod, u16_mod, u32_mod}

-- `pci_config_read_fn`.
abbrev pub ConfigRead : Type 0
ConfigRead = ℕ → ℕ → ℕ → ℕ → ℕ

-- `struct pci_device`.
pub record PciDevice : Type 0 where
  pub bus : ℕ
  pub device : ℕ
  pub function : ℕ
  pub vendor : ℕ
  pub identifier : ℕ
  pub class_code : ℕ
  pub subclass : ℕ
  pub interface : ℕ

-- `struct pci_devices`: the entries below `count`.
pub record PciDevices : Type 0 where
  pub entries : List PciDevice
  pub truncated : Bool

-- `struct walk`, without the read function.
pub record Walk : Type 0 where
  pub out : PciDevices
  pub pending : ℕ → Bool
  pub seen : ℕ → Bool

abbrev pub max_devices : ℕ
max_devices = 64

abbrev pub buses : ℕ
buses = 256

unfoldable pub pci_config_address : ℕ → ℕ → ℕ → ℕ → ℕ
pci_config_address bus device function offset =
    bit_or
      (bit_or (bit_or (bit_or 0x80000000 (bus * 2 ^ 16 % u32_mod)) (device * 2 ^ 11 % u32_mod))
        (function * 2 ^ 8 % u32_mod))
      (bit_and offset 0xFC)

-- `flags[index] = value`.
abbrev pub update : (ℕ → Bool) → ℕ → Bool → ℕ → Bool
update flags index value i = if i == index then value else flags i

abbrev pub device_of : ℕ → ℕ → ℕ → ℕ → ℕ → PciDevice
device_of bus device function identity class_word = record {
  bus = bus;
  device = device;
  function = function;
  vendor = bit_and identity 0xFFFF % u16_mod;
  identifier = identity / 2 ^ 16 % u16_mod;
  class_code = bit_and (class_word / 2 ^ 24) 0xFF % u8_mod;
  subclass = bit_and (class_word / 2 ^ 16) 0xFF % u8_mod;
  interface = bit_and (class_word / 2 ^ 8) 0xFF % u8_mod;
}

-- `record`.
unfoldable pub record_device : Walk → PciDevice → Bool × Walk
record_device walk entry =
    if length walk.out.entries == max_devices
    then (false, record walk { out = record walk.out { truncated = true } })
    else (true, record walk { out = record walk.out { entries = walk.out.entries ++ entry ∷ [] } })

-- The header type of a function.
abbrev pub header_of : ConfigRead → ℕ → ℕ → ℕ → ℕ
header_of read bus device function = bit_and (read bus device function 0x0C / 2 ^ 16) 0xFF % u8_mod

-- The bus behind a bridge is put down for later.
abbrev pub put_down : Walk → ℕ → Walk
put_down walk secondary =
    if not (walk.seen secondary)
    then record walk { pending = update walk.pending secondary true }
    else walk

-- `visit_function` once the function is recorded.
unfoldable pub follow_bridge : ConfigRead → ℕ → ℕ → ℕ → Walk → Walk
follow_bridge read bus device function walk =
    if not (bit_and (header_of read bus device function) 0x7F == 0x01)
    then walk
    else put_down walk (bit_and (read bus device function 0x18 / 2 ^ 8) 0xFF % u8_mod)

unfoldable pub visit_function : ConfigRead → ℕ → ℕ → ℕ → Walk → Walk
visit_function read bus device function walk =
    if bit_and (read bus device function 0x00) 0xFFFF == 0xFFFF
    then walk
    else let (recorded, walk') = record_device walk (
        device_of bus device function (read bus device function 0x00)
          (read bus device function 0x08)) in
      if not recorded then walk' else follow_bridge read bus device function walk'

-- The loop of `visit_device`, with `left` functions to go.
unfoldable pub visit_functions : ConfigRead → ℕ → ℕ → ℕ → ℕ → Walk → Walk
visit_functions read bus device zero function walk = walk
visit_functions read bus device (suc left) function walk =
    visit_functions read bus device left (function + 1)
      (visit_function read bus device function walk)

unfoldable pub visit_device : ConfigRead → ℕ → ℕ → Walk → Walk
visit_device read bus device walk =
    if bit_and (read bus device 0 0x00) 0xFFFF == 0xFFFF
    then walk
    else let walk' = visit_function read bus device 0 walk in
      if bit_and (header_of read bus device 0) 0x80 == 0
      then walk'
      else visit_functions read bus device 7 1 walk'

-- The loop over the devices of a bus, with `left` to go.
unfoldable pub visit_devices : ConfigRead → ℕ → ℕ → ℕ → Walk → Walk
visit_devices read bus zero device walk = walk
visit_devices read bus (suc left) device walk =
    visit_devices read bus left (device + 1) (visit_device read bus device walk)

-- The first bus that is pending, with `left` to look at from `index` on; 256 is none.
unfoldable pub first_pending : ℕ → ℕ → (ℕ → Bool) → ℕ
first_pending zero index pending = buses
first_pending (suc left) index pending =
    if pending index then index else first_pending left (index + 1) pending

-- The body of the outer loop for a bus.
unfoldable pub visit_bus : ConfigRead → ℕ → Walk → Walk
visit_bus read bus walk =
    visit_devices read (bus % u8_mod) 32 0
      (record walk { pending = update walk.pending bus false; seen = update walk.seen bus true })

-- The outer loop. A round sees a bus for the first time, so as many rounds as there are buses are
-- enough.
unfoldable pub visit_buses : ConfigRead → ℕ → Walk → Walk
visit_buses read zero walk = walk
visit_buses read (suc fuel) walk = elim (first_pending 256 0 walk.pending == buses) [
  | true ↦ walk
  | false ↦ visit_buses read fuel (visit_bus read (first_pending 256 0 walk.pending) walk)
]

abbrev pub fresh_walk : Walk
fresh_walk = record {
  out = record { entries = []; truncated = false };
  pending = update (λ _. false) 0 true;
  seen = λ _. false;
}

unfoldable pub pci_enumerate : ConfigRead → ℕ × PciDevices
pci_enumerate read =
    let walk = visit_buses read 256 fresh_walk in (length walk.out.entries, walk.out)
