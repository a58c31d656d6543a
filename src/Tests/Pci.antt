-- ===== src/Tests/Pci.antt =====
-- src/pci on a machine with a bridge from bus 0 to bus 3 and a device behind it.
use tunix_boot.Prelude.{◌≡◌, refl, [], ◌∷◌, ◌&&◌, ◌==◌, if◌then◌else◌}
use tunix_boot.Pci.{
  ConfigRead, record_device, follow_bridge, visit_function, visit_functions, visit_device,
  visit_devices, first_pending, visit_bus, visit_buses, pci_enumerate,
}
use tunix_boot.Pci.Complete.{described, Reports, pci_enumerate-Reports}

abbrev machine : ConfigRead
machine bus device function offset =
    if (bus == 0) && (device == 2) && (function == 0)
    then if offset == 0x0C then 0x00010000 else if offset == 0x18 then 0x00000300 else 0x12348086
    else if (bus == 3) && (device == 0) && (function == 0)
    then if offset == 0 then 0x10001AF4 else 0
    else 0xFFFFFFFF

pci_enumerate_run :
    (pci_enumerate machine).1.entries ≡ described machine 0 2 0 ∷ described machine 3 0 0 ∷ []
unfolding pci_enumerate visit_buses visit_bus visit_devices visit_device visit_functions
    visit_function follow_bridge record_device first_pending
pci_enumerate_run = refl

pci_enumerate-Reports_example : Reports machine (pci_enumerate machine).0 (pci_enumerate machine).1
pci_enumerate-Reports_example = pci_enumerate-Reports machine
