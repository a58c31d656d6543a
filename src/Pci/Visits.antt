-- ===== src/Pci/Visits.antt =====
-- What the walk finds on a bus that it visits, as long as there is room in the report.
use mathlib.Core.Path.{subst}
use mathlib.Core.List.Memᴰ as Memᴰ
use mathlib.Core.List.{Memᴰ}
use native.Mathlib.Decide.{ℕ_discrete}
use Prim.Native.Nat.{bit_and}
use tunix_boot.Prelude.{
  ℕ, zero, suc, ◌+◌, ◌/◌, ◌%◌, ◌^◌, ◌≤◌, ◌<◌, ◌≡◌, ◌⊎◌, inl, inr, refl, sym, ◌∙◌, true, false, not,
  [], ◌∷◌, arith, length, ◌==◌, Bool-cases,
}
use tunix_boot.Prelude.Branches.{if_by}
use tunix_boot.Prelude.Word.{u8_mod}
use tunix_boot.Pci.{
  ConfigRead, PciDevice, Walk, max_devices, device_of, record_device, header_of, put_down,
  follow_bridge, visit_function, visit_functions, visit_device, visit_devices,
}

-- A bus that has been visited, or will be.
abbrev pub Known : Walk → ℕ → Type 0
Known w b = (w.seen b ≡ true) ⊎ (w.pending b ≡ true)

-- What a walk keeps as it goes on.
pub record Grows (w w' : Walk) : Type 0 where
  pub marks : w'.out.truncated ≡ false → w.out.truncated ≡ false
  pub keeps : (e : PciDevice) → Memᴰ e w.out.entries → Memᴰ e w'.out.entries
  pub known : (b : ℕ) → Known w b → Known w' b

pub nothing-Grows : (w : Walk) → Grows w w
nothing-Grows w = record { marks = λ e. e; keeps = λ e m. m; known = λ b k. k }

pub then-Grows : {a b c : Walk} → Grows a b → Grows b c → Grows a c
then-Grows g h = record {
  marks = λ e. g.marks (h.marks e);
  keeps = λ e m. h.keeps e (g.keeps e m);
  known = λ b k. h.known b (g.known b k);
}

module _ (read : ConfigRead) where
  -- The tests of the code on one function.
  abbrev pub IsThere : ℕ → ℕ → ℕ → Type 0
  IsThere b d f = (bit_and (read b d f 0x00) 0xFFFF == 0xFFFF) ≡ false

  abbrev pub IsBridge : ℕ → ℕ → ℕ → Type 0
  IsBridge b d f = (bit_and (header_of read b d f) 0x7F == 0x01) ≡ true

  abbrev pub IsLooked : ℕ → ℕ → ℕ → Type 0
  IsLooked b d f = (f ≡ 0) ⊎ ((bit_and (header_of read b d 0) 0x80 == 0) ≡ false)

  abbrev pub second : ℕ → ℕ → ℕ → ℕ
  second b d f = bit_and (read b d f 0x18 / 2 ^ 8) 0xFF % u8_mod

  abbrev pub entry : ℕ → ℕ → ℕ → PciDevice
  entry b d f = device_of b d f (read b d f 0x00) (read b d f 0x08)

  -- The function is in the report, and the bus behind it, if it is a bridge, is known.
  pub record IsFound (b d f : ℕ) (w : Walk) : Type 0 where
    pub listed : Memᴰ (entry b d f) w.out.entries
    pub behind : IsBridge b d f → Known w (second b d f)

  pub grown-IsFound : (b d f : ℕ) {w w' : Walk} → Grows w w' → IsFound b d f w → IsFound b d f w'
  grown-IsFound b d f g h = record {
    listed = g.keeps _ h.listed;
    behind = λ e. g.known _ (h.behind e);
  }

  put_down-Grows : (w : Walk) (s : ℕ) → Grows w (put_down w s)
  put_down-Grows w s =
      if_by (Grows w) (not (w.seen s))
        (λ fresh. record {
          marks = λ e. e;
          keeps = λ e m. m;
          known = λ b k. elim k [ inl seen ↦ inl seen | inr waits ↦ inr (ground (arith, waits)) ];
        })
        (λ old. nothing-Grows w)

  put_down-Known : (w : Walk) (s : ℕ) → Known (put_down w s) s
  put_down-Known w s = elim (Bool-cases (w.seen s)) [
    | inl old ↦ rw old (inl old)
    | inr fresh ↦ rw fresh (inr (ground arith))
  ]

  follow_bridge-Grows : (b d f : ℕ) (w : Walk) → Grows w (follow_bridge read b d f w)
  unfolding follow_bridge
  follow_bridge-Grows b d f w =
      if_by (Grows w) (not (bit_and (header_of read b d f) 0x7F == 0x01)) (λ plain. nothing-Grows w)
        (λ bridge. put_down-Grows w (second b d f))

  follow_bridge-Known :
      (b d f : ℕ) (w : Walk) → IsBridge b d f → Known (follow_bridge read b d f w) (second b d f)
  unfolding follow_bridge
  follow_bridge-Known b d f w e = rw e (put_down-Known w (second b d f))

  record_device-Grows : (w : Walk) (e : PciDevice) → Grows w (record_device w e).1
  unfolding record_device
  record_device-Grows w e = elim (Bool-cases (length w.out.entries == max_devices)) [
    | inl full ↦ rw full (record { marks = λ z. absurd cc; keeps = λ e m. m; known = λ b k. k })
    | inr free ↦
        rw free
          (record { marks = λ z. z; keeps = λ x m. Memᴰ.append_left (e ∷ []) m; known = λ b k. k })
  ]

  record_device_kept :
      (w : Walk) (e : PciDevice)
      → ((record_device w e).0 ≡ true) × Memᴰ e (record_device w e).1.out.entries
        ⊎ ((record_device w e).0 ≡ false) × ((record_device w e).1.out.truncated ≡ true)
  unfolding record_device
  record_device_kept w e = elim (Bool-cases (length w.out.entries == max_devices)) [
    | inl full ↦ rw full (inr (refl, refl))
    | inr free ↦ rw free (inl (refl, Memᴰ.append_right w.out.entries (Memᴰ.head refl)))
  ]

  -- Some of the functions of a device are found, unless something was left out.
  abbrev pub Finds : ℕ → ℕ → (ℕ → Type 0) → Walk → Type 0
  Finds b d places w =
      w.out.truncated ≡ false → (f : ℕ) → places f → IsThere b d f → IsFound b d f w

  visit_function-Grows : (b d f : ℕ) (w : Walk) → Grows w (visit_function read b d f w)
  unfolding visit_function
  visit_function-Grows b d f w =
      if_by (Grows w) (bit_and (read b d f 0x00) 0xFFFF == 0xFFFF) (λ empty. nothing-Grows w)
        (λ there.
          let r = record_device w (entry b d f) in
          if_by (Grows w) (not r.0) (λ full. record_device-Grows w (entry b d f))
            (λ kept.
              then-Grows (record_device-Grows w (entry b d f)) (follow_bridge-Grows b d f r.1)))

  visit_function-IsFound :
      (b d f : ℕ) (w : Walk)
      → (visit_function read b d f w).out.truncated ≡ false
      → IsThere b d f
      → IsFound b d f (visit_function read b d f w)
  unfolding visit_function
  visit_function-IsFound b d f w room there =
      let r = record_device w (entry b d f) in
      let P : Walk → Type 0 = λ v. v.out.truncated ≡ false → IsFound b d f v in
      if_by P (bit_and (read b d f 0x00) 0xFFFF == 0xFFFF)
        (λ empty. absurd (let contra = sym empty ∙ there in cc))
        (λ _. elim (record_device_kept w (entry b d f)) [
          | inl (kept, listed) ↦
              if_by P (not r.0) (λ full. absurd (ground (arith, kept, full)))
                (λ _ _. record {
                  listed = (follow_bridge-Grows b d f r.1).keeps _ listed;
                  behind = follow_bridge-Known b d f r.1;
                })
          | inr (full, marked) ↦
              if_by P (not r.0) (λ _ e. absurd (let contra = sym marked ∙ e in cc))
                (λ kept. absurd (ground (arith, kept, full)))
        ])
        room

  visit_functions-Grows : (left b d f : ℕ) (w : Walk) → Grows w (visit_functions read b d left f w)
  unfolding visit_functions
  visit_functions-Grows zero b d f w = nothing-Grows w
  visit_functions-Grows (suc left) b d f w =
      then-Grows (visit_function-Grows b d f w)
        (visit_functions-Grows left b d (f + 1) (visit_function read b d f w))

  visit_functions-Finds :
      (left b d f : ℕ) (w : Walk)
      → Finds b d (λ g. (f ≤ g) × (g < f + left)) (visit_functions read b d left f w)
  unfolding visit_functions
  visit_functions-Finds zero b d f w room g (low, high) there = absurd (omega (arith, low, high))
  visit_functions-Finds (suc left) b d f w room g (low, high) there =
      let next : Walk = visit_function read b d f w in
      let later = visit_functions-Grows left b d (f + 1) next in
      elim (ℕ_discrete g f) [
        | yes here ↦
            subst (λ k. IsFound b d k (visit_functions read b d left (f + 1) next)) (sym here)
              (grown-IsFound b d f later (
                visit_function-IsFound b d f w (later.marks room) (subst (IsThere b d) here there)))
        | no other ↦
            visit_functions-Finds left b d (f + 1) next room g
              (omega (arith, low, other), omega (arith, high)) there
      ]

  visit_device-Grows : (b d : ℕ) (w : Walk) → Grows w (visit_device read b d w)
  unfolding visit_device
  visit_device-Grows b d w =
      let first = visit_function-Grows b d 0 w in
      if_by (Grows w) (bit_and (read b d 0 0x00) 0xFFFF == 0xFFFF) (λ empty. nothing-Grows w)
        (λ there.
          if_by (Grows w) (bit_and (header_of read b d 0) 0x80 == 0) (λ single. first)
            (λ several.
              then-Grows first (visit_functions-Grows 7 b d 1 (visit_function read b d 0 w))))

  -- The functions of a device that are to be found: the first if it is there, and the others if that one
  -- says that there are several.
  abbrev pub Places : ℕ → ℕ → ℕ → Type 0
  Places b d f = (f < 8) × IsThere b d 0 × IsLooked b d f

  visit_device-Finds : (b d : ℕ) (w : Walk) → Finds b d (Places b d) (visit_device read b d w)
  unfolding visit_device
  visit_device-Finds b d w room f (lt, first, looked) there =
      let next : Walk = visit_function read b d 0 w in
      let P : Walk → Type 0 = λ v. v.out.truncated ≡ false → IsFound b d f v in
      if_by P (bit_and (read b d 0 0x00) 0xFFFF == 0xFFFF)
        (λ empty. absurd (let contra = sym empty ∙ first in cc))
        (λ _.
          if_by P (bit_and (header_of read b d 0) 0x80 == 0)
            (λ single free. elim looked [
              | inl zeroth ↦
                  subst (λ k. IsFound b d k next) (sym zeroth)
                    (visit_function-IsFound b d 0 w free first)
              | inr several ↦ absurd (let contra = sym single ∙ several in cc)
            ])
            (λ several free. elim (ℕ_discrete f 0) [
              | yes zeroth ↦
                  let later = visit_functions-Grows 7 b d 1 next in
                  subst (λ k. IsFound b d k (visit_functions read b d 7 1 next)) (sym zeroth)
                    (grown-IsFound b d 0 later
                      (visit_function-IsFound b d 0 w (later.marks free) first))
              | no other ↦
                  visit_functions-Finds 7 b d 1 next free f
                    (omega (arith, other), omega (arith, lt)) there
            ]))
        room

  pub visit_devices-Grows : (left b d : ℕ) (w : Walk) → Grows w (visit_devices read b left d w)
  unfolding visit_devices
  visit_devices-Grows zero b d w = nothing-Grows w
  visit_devices-Grows (suc left) b d w =
      then-Grows (visit_device-Grows b d w)
        (visit_devices-Grows left b (d + 1) (visit_device read b d w))

  pub visit_devices-Finds :
      (left b d : ℕ) (w : Walk) (e : ℕ)
      → d ≤ e
      → e < d + left
      → Finds b e (Places b e) (visit_devices read b left d w)
  unfolding visit_devices
  visit_devices-Finds zero b d w e low high room f place there = absurd (omega arith)
  visit_devices-Finds (suc left) b d w e low high room f place there =
      let next : Walk = visit_device read b d w in
      let later = visit_devices-Grows left b (d + 1) next in
      elim (ℕ_discrete e d) [
        | yes here ↦ grown-IsFound b e f later (
            subst (λ k. Finds b e (Places b e) (visit_device read b k w)) here
              (visit_device-Finds b e w) (later.marks room) f place there)
        | no other ↦
            visit_devices-Finds left b (d + 1) next e (omega (arith, other)) (omega arith) room f
              place there
      ]
