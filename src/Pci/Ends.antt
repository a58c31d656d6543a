-- ===== src/Pci/Ends.antt =====
-- The walk over the buses comes to an end with no bus left to visit.
use native.Mathlib.Decide.{ℕ_discrete}
use Prim.Native.Nat.{bit_and}
use tunix_boot.Prelude.{
  ℕ, zero, suc, ◌+◌, ◌/◌, ◌%◌, ◌^◌, ◌≤◌, ◌<◌, ◌≡◌, ◌⊎◌, inl, inr, refl, sym, ap, ◌∙◌, Bool, true,
  false, not, arith, length, ◌==◌, if◌then◌else◌, Bool-cases,
}
use tunix_boot.Prelude.Word.{u8_mod}
use tunix_boot.Pci.{
  ConfigRead, PciDevice, Walk, buses, max_devices, update, device_of, record_device, header_of,
  put_down, follow_bridge, visit_function, visit_functions, visit_device, visit_devices,
  first_pending, visit_bus, visit_buses, fresh_walk,
}

-- A bus that waits has not been visited; the buses that have been are `seen`.
pub record Waits (seen : ℕ → Bool) (walk : Walk) : Type 0 where
  pub same : (b : ℕ) → walk.seen b ≡ seen b
  pub unseen : (b : ℕ) → walk.pending b ≡ true → walk.seen b ≡ false

put_down-Waits :
    (seen : ℕ → Bool) (walk : Walk) (secondary : ℕ)
    → Waits seen walk
    → Waits seen (put_down walk secondary)
put_down-Waits seen walk secondary w = elim (Bool-cases (walk.seen secondary)) [
  | inl old ↦ rw old w
  | inr new ↦ rw new (record {
    same = w.same;
    unseen = λ b e. elim (ℕ_discrete b secondary) [
      | yes here ↦ ap walk.seen here ∙ new
      | no other ↦ w.unseen b (ground (arith, e))
    ];
  })
]

module _ (read : ConfigRead) (seen : ℕ → Bool) where
  follow_bridge-Waits :
      (bus device function : ℕ) (walk : Walk)
      → Waits seen walk
      → Waits seen (follow_bridge read bus device function walk)
  unfolding follow_bridge
  follow_bridge-Waits bus device function walk w =
      elim (Bool-cases (not (bit_and (header_of read bus device function) 0x7F == 0x01))) [
        | inl plain ↦ rw plain w
        | inr bridge ↦ rw bridge (
            put_down-Waits seen walk (bit_and (read bus device function 0x18 / 2 ^ 8) 0xFF % u8_mod)
              w)
      ]

  record_device-Waits :
      (walk : Walk) (entry : PciDevice) → Waits seen walk → Waits seen (record_device walk entry).1
  unfolding record_device
  record_device-Waits walk entry w = elim (Bool-cases (length walk.out.entries == max_devices)) [
    | inl full ↦ rw full (record { same = w.same; unseen = w.unseen })
    | inr free ↦ rw free (record { same = w.same; unseen = w.unseen })
  ]

  visit_function-Waits :
      (bus device function : ℕ) (walk : Walk)
      → Waits seen walk
      → Waits seen (visit_function read bus device function walk)
  unfolding visit_function
  visit_function-Waits bus device function walk w =
      elim (Bool-cases (bit_and (read bus device function 0x00) 0xFFFF == 0xFFFF)) [
        | inl empty ↦ rw empty w
        | inr there ↦
            rw there (of_record (record_device walk entry) (record_device-Waits walk entry w))
      ]
    where
      entry : PciDevice
      entry =
          device_of bus device function (read bus device function 0x00)
            (read bus device function 0x08)

      of_record :
          (p : Bool × Walk)
          → Waits seen p.1
          → Waits seen (if not p.0 then p.1 else follow_bridge read bus device function p.1)
      of_record (true, walk') h = follow_bridge-Waits bus device function walk' h
      of_record (false, walk') h = h

  visit_functions-Waits :
      (left bus device function : ℕ) (walk : Walk)
      → Waits seen walk
      → Waits seen (visit_functions read bus device left function walk)
  unfolding visit_functions
  visit_functions-Waits zero bus device function walk w = w
  visit_functions-Waits (suc left) bus device function walk w =
      visit_functions-Waits left bus device (function + 1) _
        (visit_function-Waits bus device function walk w)

  visit_device-Waits :
      (bus device : ℕ) (walk : Walk)
      → Waits seen walk
      → Waits seen (visit_device read bus device walk)
  unfolding visit_device
  visit_device-Waits bus device walk w =
      let first : Waits seen (visit_function read bus device 0 walk) =
        visit_function-Waits bus device 0 walk w in
      elim (Bool-cases (bit_and (read bus device 0 0x00) 0xFFFF == 0xFFFF)) [
        | inl empty ↦ rw empty w
        | inr there ↦
            rw there (elim (Bool-cases (bit_and (header_of read bus device 0) 0x80 == 0)) [
              | inl single ↦ rw single first
              | inr several ↦ rw several (visit_functions-Waits 7 bus device 1 _ first)
            ])
      ]

  visit_devices-Waits :
      (left bus device : ℕ) (walk : Walk)
      → Waits seen walk
      → Waits seen (visit_devices read bus left device walk)
  unfolding visit_devices
  visit_devices-Waits zero bus device walk w = w
  visit_devices-Waits (suc left) bus device walk w =
      visit_devices-Waits left bus (device + 1) _ (visit_device-Waits bus device walk w)

pub visit_bus-Waits :
    (read : ConfigRead) (seen : ℕ → Bool) (bus : ℕ) (walk : Walk)
    → Waits seen walk
    → Waits (update seen bus true) (visit_bus read bus walk)
unfolding visit_bus
visit_bus-Waits read seen bus walk w =
    visit_devices-Waits read (update seen bus true) 32 (bus % u8_mod) 0
      (record walk { pending = update walk.pending bus false; seen = update walk.seen bus true })
      (record {
        same = λ b. ap (λ t. if b == bus then true else t) (w.same b);
        unseen = λ b e. elim (ℕ_discrete b bus) [
          | yes here ↦ absurd (ground (arith, e, here))
          | no other ↦ ground (arith, w.unseen b (ground (arith, e)))
        ];
      })

-- How many buses from `index` on have not been visited.
unseen_count : ℕ → ℕ → (ℕ → Bool) → ℕ
unseen_count zero index seen = 0
unseen_count (suc left) index seen =
    (if seen index then 0 else 1) + unseen_count left (index + 1) seen

unseen_count-pos :
    (left index b : ℕ) (seen : ℕ → Bool)
    → index ≤ b
    → b < index + left
    → seen b ≡ false
    → 1 ≤ unseen_count left index seen
unfolding unseen_count
unseen_count-pos zero index b seen le lt e = absurd (omega arith)
unseen_count-pos (suc left) index b seen le lt e = elim (ℕ_discrete b index) [
  | yes here ↦ let first : seen index ≡ false = ap seen (sym here) ∙ e in rw first (omega arith)
  | no other ↦ omega (arith, unseen_count-pos left (index + 1) b seen (omega arith) (omega arith) e)
]

unseen_count_outside :
    (left index b : ℕ) (seen : ℕ → Bool)
    → b < index
    → unseen_count left index (update seen b true) ≡ unseen_count left index seen
unfolding unseen_count
unseen_count_outside zero index b seen lt = refl
unseen_count_outside (suc left) index b seen lt =
    ground (arith, unseen_count_outside left (index + 1) b seen (omega arith))

unseen_count-update :
    (left index b : ℕ) (seen : ℕ → Bool)
    → index ≤ b
    → b < index + left
    → seen b ≡ false
    → unseen_count left index (update seen b true) + 1 ≡ unseen_count left index seen
unfolding unseen_count
unseen_count-update zero index b seen le lt e = absurd (omega arith)
unseen_count-update (suc left) index b seen le lt e = elim (ℕ_discrete b index) [
  | yes here ↦ ground (
    arith,
    here,
    ap seen (sym here) ∙ e,
    unseen_count_outside left (index + 1) b seen (omega arith),
  )
  | no other ↦
      ground
        (arith, other, unseen_count-update left (index + 1) b seen (omega arith) (omega arith) e)
]

-- `first_pending` finds a bus that waits, or there is none.
pub first_pending-lem :
    (left index : ℕ) (pending : ℕ → Bool)
    → index + left ≡ buses
    → ((first_pending left index pending ≡ buses)
        × ((b : ℕ) → index ≤ b → b < buses → pending b ≡ false))
      ⊎ ((index ≤ first_pending left index pending)
          × (first_pending left index pending < buses)
          × (pending (first_pending left index pending) ≡ true))
unfolding first_pending
first_pending-lem zero index pending e = inl (refl, λ b le lt. absurd (omega arith))
first_pending-lem (suc left) index pending e = elim (Bool-cases (pending index)) [
  | inl here ↦ rw here (inr (omega arith, omega arith, here))
  | inr next ↦ rw next (elim (first_pending-lem left (index + 1) pending (omega arith)) [
    | inl (none_left, all) ↦ inl (
      none_left,
      λ b le lt. elim (ℕ_discrete b index) [
        | yes same ↦ ap pending same ∙ next
        | no other ↦ all b (omega arith) lt
      ],
    )
    | inr (low, high, found) ↦ inr (omega (arith, low), high, found)
  ])
]

pub visit_buses-more :
    (read : ConfigRead) (fuel : ℕ) (walk : Walk)
    → first_pending 256 0 walk.pending < buses
    → visit_buses read (suc fuel) walk
      ≡ visit_buses read fuel (visit_bus read (first_pending 256 0 walk.pending) walk)
unfolding visit_buses
visit_buses-more read fuel walk lt = ground arith

pub visit_buses-done :
    (read : ConfigRead) (fuel : ℕ) (walk : Walk)
    → first_pending 256 0 walk.pending ≡ buses
    → visit_buses read fuel walk ≡ walk
unfolding visit_buses
visit_buses-done read zero walk e = refl
visit_buses-done read (suc fuel) walk e = ground (arith, e)

visit_buses_end :
    (read : ConfigRead) (fuel : ℕ) (seen : ℕ → Bool) (walk : Walk)
    → Waits seen walk
    → unseen_count 256 0 seen ≤ fuel
    → (b : ℕ) → b < buses
    → (visit_buses read fuel walk).pending b ≡ false
visit_buses_end read zero seen walk w enough b lt =
    elim (first_pending-lem 256 0 walk.pending refl) [
      | inl (stop, all) ↦
          ap (λ (v : Walk). v.pending b) (visit_buses-done read 0 walk stop)
          ∙ all b (omega arith) lt
      | inr (low, high, found) ↦ absurd (
          omega (
            arith,
            enough,
            unseen_count-pos 256 0 (first_pending 256 0 walk.pending) seen low high
                (sym (w.same _) ∙ w.unseen _ found),
          ))
    ]
visit_buses_end read (suc fuel) seen walk w enough b lt =
    elim (first_pending-lem 256 0 walk.pending refl) [
      | inl (stop, all) ↦
          ap (λ (v : Walk). v.pending b) (visit_buses-done read (suc fuel) walk stop)
          ∙ all b (omega arith) lt
      | inr (low, high, found) ↦
          let bus = first_pending 256 0 walk.pending in
          ap (λ (v : Walk). v.pending b) (visit_buses-more read fuel walk high)
          ∙ visit_buses_end read fuel (update seen bus true) (visit_bus read bus walk)
              (visit_bus-Waits read seen bus walk w)
              (omega (
                arith,
                enough,
                unseen_count-update 256 0 bus seen low high (sym (w.same bus) ∙ w.unseen bus found),
              ))
              b lt
    ]

unseen_count_le : (left index : ℕ) (seen : ℕ → Bool) → unseen_count left index seen ≤ left
unfolding unseen_count
unseen_count_le zero index seen = omega arith
unseen_count_le (suc left) index seen = ground (arith, unseen_count_le left (index + 1) seen)

-- The walk of `pci_enumerate` ends by itself, whatever the bridges say: after as many rounds as
-- there are buses, no bus is left that a bridge named and that was not visited.
pub pci_enumerate_ends :
    (read : ConfigRead) (b : ℕ) → b < buses → (visit_buses read 256 fresh_walk).pending b ≡ false
pci_enumerate_ends read b lt =
    visit_buses_end read 256 (λ _. false) fresh_walk
      (record { same = λ i. refl; unseen = λ i e. refl }) (unseen_count_le 256 0 (λ _. false)) b lt
