-- ===== src/Pci/Complete.antt =====
-- What `pci_enumerate` reports: at most 64 functions, each of which answered, and with room in the
-- report all of them that can be reached.
use mathlib.Core.Path.{subst, ap₂}
use mathlib.Core.List.{Memᴰ}
use native.Mathlib.Decide.{ℕ_discrete}
use native.Mathlib.Nat.{mod-lt}
use Prim.Native.Nat.{bit_and}
use tunix_boot.Prelude.{
  ℕ, zero, suc, ◌*◌, ◌/◌, ◌%◌, ◌^◌, ◌≤◌, ◌<◌, ◌≡◌, ◌≢◌, ◌⊎◌, inl, inr, refl, sym, ap, ◌∙◌, Bool,
  true, false, arith, All, All-imp, length,
}
use tunix_boot.Prelude.Bits.{bit_and_low, bit_and_power}
use tunix_boot.Prelude.Word.{u8_mod, u16_mod}
use tunix_boot.Pci.{
  ConfigRead, PciDevice, PciDevices, Walk, max_devices, update, header_of, visit_devices,
  first_pending, visit_bus, visit_buses, fresh_walk, pci_enumerate,
}
use tunix_boot.Pci.Ends.{
  Waits, visit_bus-Waits, first_pending-lem, visit_buses-more, visit_buses-done, pci_enumerate_ends,
}
use tunix_boot.Pci.Found.{Answers, pci_enumerate-IsReport}
use tunix_boot.Pci.Visits.{
  Known, Grows, nothing-Grows, then-Grows, IsThere, IsBridge, IsLooked, second, entry, IsFound,
  grown-IsFound, Finds, Places, visit_devices-Grows, visit_devices-Finds,
}

-- The machine as the bus specification reads it: a function answers if its vendor is not 0xFFFF.
module _ (read : ConfigRead) where
  abbrev pub Answering : ℕ → ℕ → ℕ → Type 0
  Answering b d f = read b d f 0x00 % 2 ^ 16 ≢ 0xFFFF

  abbrev pub header_type : ℕ → ℕ → ℕ → ℕ
  header_type b d f = read b d f 0x0C / 2 ^ 16 % 2 ^ 8

  -- A function at a place that exists, behind a first function that answers, and the first itself or one
  -- of a device whose first function says that it has several.
  pub record Present (b d f : ℕ) : Type 0 where
    pub device : d < 32
    pub function : f < 8
    pub first : Answering b d 0
    pub answers : Answering b d f
    pub several : (f ≡ 0) ⊎ (128 ≤ header_type b d 0)

  -- The buses that can be reached: bus 0, and what a bridge on such a bus names.
  pub data Reachable : ℕ → Type 0 where
    root : Reachable 0
    behind :
        (b d f : ℕ)
        → Reachable b
        → Present b d f
        → header_type b d f % 128 ≡ 1
        → Reachable (read b d f 0x18 / 2 ^ 8 % 2 ^ 8)

  -- The entry of a function by the fields of its configuration space.
  abbrev pub described : ℕ → ℕ → ℕ → PciDevice
  described b d f = record {
    bus = b;
    device = d;
    function = f;
    vendor = read b d f 0x00 % 2 ^ 16;
    identifier = read b d f 0x00 / 2 ^ 16 % 2 ^ 16;
    class_code = read b d f 0x08 / 2 ^ 24 % 2 ^ 8;
    subclass = read b d f 0x08 / 2 ^ 16 % 2 ^ 8;
    interface = read b d f 0x08 / 2 ^ 8 % 2 ^ 8;
  }

  -- A place with a function that answers, and the entry that says what.
  pub record IsEntry (e : PciDevice) : Type 0 where
    pub bus : e.bus < 256
    pub device : e.device < 32
    pub function : e.function < 8
    pub answers : Answering e.bus e.device e.function
    pub same : e ≡ described e.bus e.device e.function

  pub record Reports (count : ℕ) (out : PciDevices) : Type 0 where
    pub counted : count ≡ length out.entries
    pub room : length out.entries ≤ max_devices
    pub sound : All IsEntry out.entries
    pub full : out.truncated ≡ true → length out.entries ≡ max_devices
    pub complete :
        out.truncated ≡ false
        → (b d f : ℕ) → Reachable b
        → Present b d f
        → Memᴰ (described b d f) out.entries

  visit_bus-Grows : (bus : ℕ) (w : Walk) → bus < 256 → Grows w (visit_bus read bus w)
  unfolding visit_bus
  visit_bus-Grows bus w lt =
      then-Grows
        (record {
          marks = λ e. e;
          keeps = λ e m. m;
          known = λ b k. elim (ℕ_discrete b bus) [
            | yes here ↦ inl (ground (arith, here))
            | no other ↦ elim k [
              | inl seen ↦ inl (ground (arith, other, seen))
              | inr waits ↦ inr (ground (arith, other, waits))
            ]
          ];
        })
        (visit_devices-Grows read 32 (bus % u8_mod) 0
          (record w { pending = update w.pending bus false; seen = update w.seen bus true }))

  visit_bus-Finds :
      (bus : ℕ) (w : Walk) (d : ℕ)
      → bus < 256
      → d < 32
      → Finds read bus d (Places read bus d) (visit_bus read bus w)
  unfolding visit_bus
  visit_bus-Finds bus w d lt ld =
      let same : bus % u8_mod ≡ bus = omega arith in
      subst
        (λ k. Finds read bus d (Places read bus d) (
          visit_devices read k 32 0
            (record w { pending = update w.pending bus false; seen = update w.seen bus true })))
        (sym same) (visit_devices-Finds read 32 bus 0 _ d (omega arith) (omega arith))

  -- Everything is found on the buses that have been visited, unless something was left out.
  abbrev Covered : Walk → Type 0
  Covered w = (b d : ℕ) → w.seen b ≡ true → d < 32 → Finds read b d (Places read b d) w

  visit_bus-Covered :
      (bus : ℕ) (seen : ℕ → Bool) (w : Walk)
      → bus < 256
      → Waits seen w
      → Covered w
      → Covered (visit_bus read bus w)
  visit_bus-Covered bus seen w lt waits covered b d at ld room f place there =
      let grows = visit_bus-Grows bus w lt in
      let after = visit_bus-Waits read seen bus w waits in
      elim (ℕ_discrete b bus) [
        | yes here ↦
            subst (λ k. Finds read k d (Places read k d) (visit_bus read bus w)) (sym here)
              (visit_bus-Finds bus w d lt ld) room f place there
        | no other ↦ grown-IsFound read b d f grows (
            covered b d (waits.same b ∙ ground (arith, other, sym (after.same b) ∙ at)) ld
              (grows.marks room) f place there)
      ]

  visit_buses-Covered :
      (fuel : ℕ) (seen : ℕ → Bool) (w : Walk)
      → Waits seen w
      → Covered w
      → Grows w (visit_buses read fuel w) × Covered (visit_buses read fuel w)
  visit_buses-Covered zero seen w waits covered = unfold visit_buses in (nothing-Grows w, covered)
  visit_buses-Covered (suc fuel) seen w waits covered =
      let bus : ℕ = first_pending 256 0 w.pending in
      let P : Walk → Type 0 = λ v. Grows w v × Covered v in
      elim (first_pending-lem 256 0 w.pending refl) [
        | inl (stop, _) ↦
            subst P (sym (visit_buses-done read (suc fuel) w stop)) (nothing-Grows w, covered)
        | inr (_, high, found) ↦
            let (grows, covers) =
              visit_buses-Covered fuel (update seen bus true) (visit_bus read bus w)
                (visit_bus-Waits read seen bus w waits)
                (visit_bus-Covered bus seen w high waits covered) in
            subst P (sym (visit_buses-more read fuel w high))
              (then-Grows (visit_bus-Grows bus w high) grows, covers)
      ]

  low_byte : (x : ℕ) → bit_and x 0xFF % u8_mod ≡ x % 2 ^ 8
  low_byte x = omega (arith, bit_and_low 8 x)

  entry-described : (b d f : ℕ) → entry read b d f ≡ described b d f
  entry-described b d f =
      let class_word : ℕ = read b d f 0x08 in
      let vendor : bit_and (read b d f 0x00) 0xFFFF % u16_mod ≡ read b d f 0x00 % 2 ^ 16 =
        omega (arith, bit_and_low 16 (read b d f 0x00)) in
      ap
        (λ v.
          with_fields v (bit_and (class_word / 2 ^ 24) 0xFF % u8_mod)
            (bit_and (class_word / 2 ^ 16) 0xFF % u8_mod)
            (bit_and (class_word / 2 ^ 8) 0xFF % u8_mod))
        vendor
      ∙ ap
          (λ c.
            with_fields (read b d f 0x00 % 2 ^ 16) c (bit_and (class_word / 2 ^ 16) 0xFF % u8_mod)
              (bit_and (class_word / 2 ^ 8) 0xFF % u8_mod))
          (low_byte (class_word / 2 ^ 24))
      ∙ ap₂ (with_fields (read b d f 0x00 % 2 ^ 16) (class_word / 2 ^ 24 % 2 ^ 8))
          (low_byte (class_word / 2 ^ 16)) (low_byte (class_word / 2 ^ 8))
    where
      with_fields : ℕ → ℕ → ℕ → ℕ → PciDevice
      with_fields v c s i = record {
        bus = b;
        device = d;
        function = f;
        vendor = v;
        identifier = read b d f 0x00 / 2 ^ 16 % u16_mod;
        class_code = c;
        subclass = s;
        interface = i;
      }

  IsThere-Answering :
      (b d f : ℕ)
      → (Answering b d f → IsThere read b d f)
        × (bit_and (read b d f 0x00) 0xFFFF ≢ 0xFFFF → Answering b d f)
  IsThere-Answering b d f =
      let low = bit_and_low 16 (read b d f 0x00) in
      (λ a. ground (arith, low, a), λ a. ground (arith, low, a))

  header-low : (b d f : ℕ) → header_of read b d f ≡ header_type b d f
  header-low b d f = low_byte (read b d f 0x0C / 2 ^ 16)

  header_type-IsBridge : (b d f : ℕ) → header_type b d f % 128 ≡ 1 → IsBridge read b d f
  header_type-IsBridge b d f e =
      ground (arith, e, header-low b d f, bit_and_low 7 (header_of read b d f))

  several-IsLooked : (b d f : ℕ) → (f ≡ 0) ⊎ (128 ≤ header_type b d 0) → IsLooked read b d f
  several-IsLooked b d f (inl e) = inl e
  several-IsLooked b d f (inr big) = inr (
      let h : ℕ = header_of read b d 0 in
      let bit : bit_and h 0x80 ≡ h / 128 % 2 * 128 = bit_and_power 7 h in
      ground (arith, bit, header-low b d 0, big))

  Present-Places : (b d f : ℕ) → Present b d f → Places read b d f
  Present-Places b d f p =
      (p.function, (IsThere-Answering b d 0).0 p.first, several-IsLooked b d f p.several)

  abbrev last : Walk
  last = visit_buses read 256 fresh_walk

  fresh-Covered : Covered fresh_walk
  fresh-Covered b d e = absurd cc

  walked : Grows fresh_walk last × Covered last
  walked =
      visit_buses-Covered 256 (λ _. false) fresh_walk
        (record { same = λ i. refl; unseen = λ i e. refl }) fresh-Covered

  Known-seen : (b : ℕ) → b < 256 → Known last b → last.seen b ≡ true
  Known-seen b lt (inl seen) = seen
  Known-seen b lt (inr waits) = absurd (let contra = sym waits ∙ pci_enumerate_ends read b lt in cc)

  reached-IsFound :
      (b d f : ℕ)
      → last.out.truncated ≡ false
      → last.seen b ≡ true
      → Present b d f
      → IsFound read b d f last
  reached-IsFound b d f room seen p =
      walked.1 b d seen p.device room f (Present-Places b d f p)
        ((IsThere-Answering b d f).0 p.answers)

  Reachable-seen : (b : ℕ) → last.out.truncated ≡ false → Reachable b → last.seen b ≡ true
  Reachable-seen _ room root = Known-seen 0 (omega arith) (walked.0.known 0 (inr refl))
  Reachable-seen _ room (behind b d f from p bridge) =
      let found = reached-IsFound b d f room (Reachable-seen b room from) p in
      let same : second read b d f ≡ read b d f 0x18 / 2 ^ 8 % 2 ^ 8 =
        low_byte (read b d f 0x18 / 2 ^ 8) in
      Known-seen (read b d f 0x18 / 2 ^ 8 % 2 ^ 8) (mod-lt (read b d f 0x18 / 2 ^ 8) (omega arith))
        (subst (Known last) same (found.behind (header_type-IsBridge b d f bridge)))

  Answers-IsEntry : (e : PciDevice) → Answers read e → IsEntry e
  Answers-IsEntry e a = record {
    bus = a.bus;
    device = a.device;
    function = a.function;
    answers = (IsThere-Answering e.bus e.device e.function).1 a.there;
    same = a.same ∙ entry-described e.bus e.device e.function;
  }

  -- Whatever the machine answers, `pci_enumerate` reports at most 64 functions and returns their
  -- number. Each is at a place that exists and answered with the vendor, the device and the class that
  -- its entry says. The report is marked as truncated only if it is full, and unless it is marked it
  -- has every function that answers on bus 0 and on the buses behind the bridges that it can reach from
  -- there, where a function other than the first counts only if the first has the bit for several.
  pub pci_enumerate-Reports : Reports (pci_enumerate read).0 (pci_enumerate read).1
  unfolding pci_enumerate
  pci_enumerate-Reports =
      let (report, counted) = pci_enumerate-IsReport read in
      record {
        counted = counted;
        room = report.room;
        sound = All-imp (Answers read) IsEntry Answers-IsEntry _ report.found;
        full = report.full;
        complete = λ room b d f reach p.
            subst (λ e. Memᴰ e last.out.entries) (entry-described b d f)
              (reached-IsFound b d f room (Reachable-seen b room reach) p).listed;
      }
