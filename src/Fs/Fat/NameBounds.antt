-- ===== src/Fs/Fat/NameBounds.antt =====
-- The long name that is put together stays inside its array of 260 characters.
use tunix_boot.Prelude.{
  ℕ, zero, suc, ◌+◌, ◌-◌, ◌*◌, ◌≡◌, ◌≤◌, not, ◌||◌, bit_and, List, arith, get_or, ltb, leb, ◌==◌,
}
use tunix_boot.Prelude.LittleEndian.{u16_at}
use tunix_boot.Prelude.Branches.{if_by}
use tunix_boot.Prelude.Flow.{Flow, next, stop, continue}
use tunix_boot.Fs.Fat.Name.{
  LongName, long_name_max, long_name_offsets, long_name_reset, take_unit, take_units, take_fragment,
  begin_name, sequence_of, long_name_accumulate,
}

-- The length is inside the array, and nothing outside it has been written.
pub record IsInside (text : ℕ → ℕ) (pending : LongName) : Type 0 where
  pub room : pending.length ≤ long_name_max
  pub untouched : (i : ℕ) → long_name_max ≤ i → pending.text i ≡ text i

abbrev unit_of : List ℕ → ℕ → ℕ
unit_of entry index = u16_at entry (get_or long_name_offsets index 0)

module _ (text : ℕ → ℕ) where
  long_name_reset-IsInside :
      (pending : LongName) → IsInside text pending → IsInside text (long_name_reset pending)
  unfolding long_name_reset
  long_name_reset-IsInside pending s = record { room = omega arith; untouched = s.untouched }

  data FlowsInside : Flow LongName → Type 0 where
    stops_inside : (p : LongName) → IsInside text p → FlowsInside (stop p)
    goes_inside : (p : LongName) → IsInside text p → FlowsInside (next p)

  take_unit-FlowsInside :
      (entry : List ℕ) (base index : ℕ) (pending : LongName)
      → IsInside text pending
      → FlowsInside (take_unit entry base index pending)
  unfolding take_unit
  take_unit-FlowsInside entry base index pending s =
      if_by FlowsInside (leb long_name_max (base + index))
        (λ past. stops_inside _ (long_name_reset-IsInside pending s))
        (λ inside.
          if_by FlowsInside ((unit_of entry index == 0) || (unit_of entry index == 0xFFFF))
            (λ ends. goes_inside _ (
              if_by (IsInside text) (ltb (base + index) pending.length)
                (λ shorter. record { room = ground (arith, inside); untouched = s.untouched })
                (λ longer. s)))
            (λ more.
              if_by FlowsInside (ltb 0x7F (unit_of entry index))
                (λ foreign. stops_inside _ (long_name_reset-IsInside pending s))
                (λ ascii. goes_inside _ (record {
                  room = s.room;
                  untouched = λ i le. ground (arith, inside, s.untouched i le);
                }))))

  take_units-IsInside :
      (left : ℕ) (entry : List ℕ) (base index : ℕ) (pending : LongName)
      → IsInside text pending
      → IsInside text (take_units left entry base index pending)
  unfolding take_units
  take_units-IsInside zero entry base index pending s = s
  take_units-IsInside (suc left) entry base index pending s =
      of_flow (λ p h. take_units-IsInside left entry base (index + 1) p h)
        (take_unit entry base index pending) (take_unit-FlowsInside entry base index pending s)
    where
      of_flow :
          ((p : LongName)
            → IsInside text p
            → IsInside text (take_units left entry base (index + 1) p))
          → (f : Flow LongName) → FlowsInside f
          → IsInside text (continue f (λ p. take_units left entry base (index + 1) p))
      of_flow later _ (stops_inside p h) = h
      of_flow later _ (goes_inside p h) = later p h

  -- The array is never written past its end, and the length of the name that is put together stays
  -- inside it, whatever the entries say.
  pub long_name_accumulate-IsInside :
      (pending : LongName) (entry : List ℕ)
      → IsInside text pending
      → IsInside text (long_name_accumulate pending entry)
  unfolding long_name_accumulate take_fragment
  long_name_accumulate-IsInside pending entry s =
      if_by (IsInside text) ((sequence_of entry == 0) || ltb 20 (sequence_of entry))
        (λ bad. long_name_reset-IsInside pending s)
        (λ good.
          let begun : IsInside text (begin_name pending entry) =
            if_by (IsInside text) (not (bit_and (get_or entry 0 0) 0x40 == 0))
              (λ first. record { room = ground (arith, good); untouched = s.untouched })
              (λ later. s) in
          if_by (IsInside text) (not (begin_name pending entry).valid) (λ none. begun)
            (λ valid.
              if_by (IsInside text) (not (get_or entry 13 0 == (begin_name pending entry).checksum))
                (λ other. long_name_reset-IsInside _ begun)
                (λ same. take_units-IsInside 13 entry ((sequence_of entry - 1) * 13) 0 _ begun)))
