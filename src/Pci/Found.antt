-- ===== src/Pci/Found.antt =====
-- What `pci_enumerate` reports: at most 64 functions, each of which answered.
use mathlib.Core.Path.{subst}
use Prim.Native.Nat.{bit_and}
use tunix_boot.Prelude.{
  ℕ, zero, suc, ◌+◌, ◌/◌, ◌%◌, ◌^◌, ◌≤◌, ◌<◌, ◌≡◌, ◌≢◌, inl, inr, refl, sym, Bool, true, false, not,
  [], ◌∷◌, arith, All, All-append, length, length-append, ◌==◌, if◌then◌else◌, Bool-cases,
}
use tunix_boot.Prelude.Word.{u8_mod}
use tunix_boot.Pci.{
  ConfigRead, PciDevice, PciDevices, Walk, buses, max_devices, device_of, record_device, header_of,
  put_down, follow_bridge, visit_function, visit_functions, visit_device, visit_devices,
  first_pending, visit_bus, visit_buses, fresh_walk, pci_enumerate,
}

-- The entry is what the function at its place answers, and that is not "nothing here".
pub record Answers (read : ConfigRead) (d : PciDevice) : Type 0 where
  pub bus : d.bus < 256
  pub device : d.device < 32
  pub function : d.function < 8
  pub there : bit_and (read d.bus d.device d.function 0x00) 0xFFFF ≢ 0xFFFF
  pub same :
      d
      ≡ device_of d.bus d.device d.function
          (read d.bus d.device d.function 0x00)
          (read d.bus d.device d.function 0x08)

pub record IsReport (read : ConfigRead) (out : PciDevices) : Type 0 where
  pub room : length out.entries ≤ max_devices
  pub found : All (Answers read) out.entries
  pub full : out.truncated ≡ true → length out.entries ≡ max_devices

module _ (read : ConfigRead) where
  record_device-IsReport :
      (walk : Walk) (entry : PciDevice)
      → IsReport read walk.out
      → Answers read entry
      → IsReport read (record_device walk entry).1.out
  unfolding record_device
  record_device-IsReport walk entry r a =
      elim (Bool-cases (length walk.out.entries == max_devices)) [
        | inl full ↦
            rw full (record { room = r.room; found = r.found; full = λ e. ground (arith, full) })
        | inr free ↦ rw free (record {
          room = omega (arith, r.room, apart free, length-append walk.out.entries (entry ∷ []));
          found = All-append (Answers read) walk.out.entries (entry ∷ []) r.found (a, tt);
          full = λ e. absurd (ground (arith, r.full e, apart free));
        })
      ]
    where
      apart :
          (length walk.out.entries == max_devices) ≡ false → length walk.out.entries ≢ max_devices
      apart h = ground (arith, h)

  put_down-out : (walk : Walk) (secondary : ℕ) → (put_down walk secondary).out ≡ walk.out
  put_down-out walk secondary = elim (Bool-cases (walk.seen secondary)) [
    | inl seen ↦ rw seen refl
    | inr unseen ↦ rw unseen refl
  ]

  follow_bridge-out :
      (bus device function : ℕ) (walk : Walk)
      → (follow_bridge read bus device function walk).out ≡ walk.out
  unfolding follow_bridge
  follow_bridge-out bus device function walk =
      elim (Bool-cases (not (bit_and (header_of read bus device function) 0x7F == 0x01))) [
        | inl plain ↦ rw plain refl
        | inr bridge ↦
            rw bridge
              (put_down-out walk (bit_and (read bus device function 0x18 / 2 ^ 8) 0xFF % u8_mod))
      ]

  visit_function-IsReport :
      (bus device function : ℕ) (walk : Walk)
      → bus < 256
      → device < 32
      → function < 8
      → IsReport read walk.out
      → IsReport read (visit_function read bus device function walk).out
  unfolding visit_function
  visit_function-IsReport bus device function walk lb ld lf r =
      elim (Bool-cases (bit_and (read bus device function 0x00) 0xFFFF == 0xFFFF)) [
        | inl empty ↦ rw empty r
        | inr there ↦ rw there (
            of_record (record_device walk entry) (
              record_device-IsReport walk entry r (record {
                bus = lb;
                device = ld;
                function = lf;
                there = ground (arith, there);
                same = refl;
              })))
      ]
    where
      entry : PciDevice
      entry =
          device_of bus device function (read bus device function 0x00)
            (read bus device function 0x08)

      of_record :
          (p : Bool × Walk)
          → IsReport read p.1.out
          → IsReport read (if not p.0 then p.1 else follow_bridge read bus device function p.1).out
      of_record (true, walk') h =
          subst (IsReport read) (sym (follow_bridge-out bus device function walk')) h
      of_record (false, walk') h = h

  visit_functions-IsReport :
      (left bus device function : ℕ) (walk : Walk)
      → bus < 256
      → device < 32
      → function + left ≤ 8
      → IsReport read walk.out
      → IsReport read (visit_functions read bus device left function walk).out
  unfolding visit_functions
  visit_functions-IsReport zero bus device function walk lb ld lf r = r
  visit_functions-IsReport (suc left) bus device function walk lb ld lf r =
      visit_functions-IsReport left bus device (function + 1)
        (visit_function read bus device function walk) lb ld (omega arith)
        (visit_function-IsReport bus device function walk lb ld (omega arith) r)

  visit_device-IsReport :
      (bus device : ℕ) (walk : Walk)
      → bus < 256
      → device < 32
      → IsReport read walk.out
      → IsReport read (visit_device read bus device walk).out
  unfolding visit_device
  visit_device-IsReport bus device walk lb ld r =
      let first : IsReport read (visit_function read bus device 0 walk).out =
        visit_function-IsReport bus device 0 walk lb ld (omega arith) r in
      elim (Bool-cases (bit_and (read bus device 0 0x00) 0xFFFF == 0xFFFF)) [
        | inl empty ↦ rw empty r
        | inr there ↦
            rw there (elim (Bool-cases (bit_and (header_of read bus device 0) 0x80 == 0)) [
              | inl single ↦ rw single first
              | inr several ↦ rw several (
                  visit_functions-IsReport 7 bus device 1 (visit_function read bus device 0 walk) lb
                    ld (omega arith) first)
            ])
      ]

  visit_devices-IsReport :
      (left bus device : ℕ) (walk : Walk)
      → bus < 256
      → device + left ≤ 32
      → IsReport read walk.out
      → IsReport read (visit_devices read bus left device walk).out
  unfolding visit_devices
  visit_devices-IsReport zero bus device walk lb ld r = r
  visit_devices-IsReport (suc left) bus device walk lb ld r =
      visit_devices-IsReport left bus (device + 1) (visit_device read bus device walk) lb
        (omega arith) (visit_device-IsReport bus device walk lb (omega arith) r)

  visit_bus-IsReport :
      (bus : ℕ) (walk : Walk) → IsReport read walk.out → IsReport read (visit_bus read bus walk).out
  unfolding visit_bus
  visit_bus-IsReport bus walk r =
      visit_devices-IsReport 32 (bus % u8_mod) 0 _ (omega arith) (omega arith) r

  visit_buses-IsReport :
      (fuel : ℕ) (walk : Walk)
      → IsReport read walk.out
      → IsReport read (visit_buses read fuel walk).out
  unfolding visit_buses
  visit_buses-IsReport zero walk r = r
  visit_buses-IsReport (suc fuel) walk r =
      of_test (first_pending 256 0 walk.pending == buses)
        (visit_buses-IsReport fuel (visit_bus read next walk) (visit_bus-IsReport next walk r))
    where
      next : ℕ
      next = first_pending 256 0 walk.pending

      of_test :
          (b : Bool)
          → IsReport read (visit_buses read fuel (visit_bus read next walk)).out
          → IsReport read
              (elim b as (λ _. Walk) [
                | true ↦ walk
                | false ↦ visit_buses read fuel (visit_bus read next walk)
              ]).out
      of_test true h = r
      of_test false h = h

  -- Whatever the machine answers, `pci_enumerate` reports at most 64 functions, each at a place that
  -- exists, each of which answered with what its entry says; it returns their number, and the report
  -- is marked as truncated only if it is full.
  pub pci_enumerate-IsReport :
      IsReport read (pci_enumerate read).1
      × ((pci_enumerate read).0 ≡ length (pci_enumerate read).1.entries)
  unfolding pci_enumerate
  pci_enumerate-IsReport = (
    visit_buses-IsReport 256 fresh_walk
        (record { room = omega arith; found = tt; full = λ e. absurd cc }),
    refl,
  )
