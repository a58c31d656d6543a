-- ===== src/Protocol/Answered.antt =====
-- Every answer keeps what is placed in the arena, and changes no word of the image but the response of
-- its request.
use tunix_boot.Prelude.{ℕ, ◌+◌, ◌*◌, ◌≡◌, ◌≢◌, refl, ap, Option, arith, length, length-map, ◌==◌}
use tunix_boot.Prelude.Act.{Act}
use tunix_boot.Prelude.Branches.{if_by, either_option}
use tunix_boot.Memory.Arena.{allocate, allocate_array}
use tunix_boot.Protocol.{
  Object, BootFacts, Handover, allocate_response, allocate_entries, place, respond, entry_of,
  processor_of, regions_of, answer_one, answer_two, answer_memory_map, answer_kernel_address,
  answer_command_line, answer_framebuffer, answer_acpi, answer_processors, answer_modules,
  answer_loader_info, answer_as, answer,
}
use tunix_boot.Protocol.Placed.{size_of, IsPlaced, answer_one-IsPlaced, answer_two-IsPlaced}

-- What an answer to a request leaves.
pub record Leaves (request : ℕ) (s t : Handover) : Type 0 where
  pub placed : IsPlaced s → IsPlaced t
  pub kept : (offset : ℕ) → offset ≢ request + 32 → t.image offset ≡ s.image offset

same-Leaves : (request : ℕ) (s : Handover) → Leaves request s s
same-Leaves request s = record { placed = λ h. h; kept = λ offset differ. refl }

answer_one-Leaves :
    (size request : ℕ) (object : Object) (s : Handover)
    → ((h : IsPlaced s) → IsPlaced (answer_one size object request s).1)
    → Leaves request s (answer_one size object request s).1
unfolding answer_one allocate_response place respond
answer_one-Leaves size request object s h = record {
  placed = h;
  kept = λ offset differ.
      either_option (λ (r : Option (Unit {0}) × Handover). r.1.image offset ≡ s.image offset)
        (allocate s.arena size).0 refl (λ at. ground arith);
}

answer_two-Leaves :
    (size count each request : ℕ) (object : ℕ → Object) (entries : Object) (s : Handover)
    → ((h : IsPlaced s) → IsPlaced (answer_two size object count each entries request s).1)
    → Leaves request s (answer_two size object count each entries request s).1
unfolding answer_two allocate_response allocate_entries place respond
answer_two-Leaves size count each request object entries s h = record {
  placed = h;
  kept = λ offset differ.
      either_option (λ (r : Option (Unit {0}) × Handover). r.1.image offset ≡ s.image offset)
        (allocate s.arena size).0 refl
        (λ at.
          either_option (λ (r : Option (Unit {0}) × Handover). r.1.image offset ≡ s.image offset)
            (allocate_array (allocate s.arena size).1 count each).0 refl (λ array. ground arith));
}

module _ (request revision : ℕ) (facts : BootFacts) (s : Handover) where
  abbrev P : Option (Unit {0}) × Handover → Type 0
  P r = Leaves request s r.1

  one : (size : ℕ) (object : Object) → size_of object ≡ size → P (answer_one size object request s)
  one size object e =
      answer_one-Leaves size request object s (λ h. answer_one-IsPlaced size request object s e h)

  two :
      (size count each : ℕ) (object : ℕ → Object) (entries : Object)
      → ((array : ℕ) → size_of (object array) ≡ size)
      → size_of entries ≡ count * each
      → P (answer_two size object count each entries request s)
  two size count each object entries e f =
      answer_two-Leaves size count each request object entries s
        (λ h. answer_two-IsPlaced size count each request object entries s e f h)

  memory_map-Leaves : P (answer_memory_map request revision facts s)
  unfolding answer_memory_map
  memory_map-Leaves =
      if_by (λ (f : Act Handover (Unit {0})). P (f s)) (length (regions_of facts.memory) == 0)
        (λ none_there. one 24 _ refl)
        (λ some_there.
          two 24 _ 24 _ _ (λ array. refl)
            (ap (λ n. n * 24) (length-map entry_of (regions_of facts.memory))))

  answer_framebuffer-Leaves : P (answer_framebuffer request revision facts s)
  unfolding answer_framebuffer
  answer_framebuffer-Leaves =
      either_option (λ (f : Act Handover (Unit {0})). P (f s)) facts.screen (same-Leaves request s)
        (λ screen. one 40 _ refl)

  answer_acpi-Leaves : P (answer_acpi request revision facts s)
  unfolding answer_acpi
  answer_acpi-Leaves =
      either_option (λ (f : Act Handover (Unit {0})). P (f s)) facts.rsdp (same-Leaves request s)
        (λ rsdp. one 16 _ refl)

  answer_processors-Leaves : P (answer_processors request revision facts s)
  unfolding answer_processors
  answer_processors-Leaves =
      either_option (λ (f : Act Handover (Unit {0})). P (f s)) facts.processors
        (same-Leaves request s)
        (λ processors.
          if_by (λ (f : Act Handover (Unit {0})). P (f s)) (length processors.entries == 0)
            (λ none_there. same-Leaves request s)
            (λ some_there.
              two 32 _ 8 _ _ (λ array. refl)
                (ap (λ n. n * 8) (length-map processor_of processors.entries))))

  answer_modules-Leaves : P (answer_modules request revision facts s)
  unfolding answer_modules
  answer_modules-Leaves =
      either_option (λ (f : Act Handover (Unit {0})). P (f s)) facts.modules (same-Leaves request s)
        (λ modules.
          if_by (λ (f : Act Handover (Unit {0})). P (f s)) (length modules == 0)
            (λ none_there. same-Leaves request s)
            (λ some_there. two 24 _ 24 _ _ (λ array. refl) refl))

  answer_as-Leaves : (id : ℕ) → P (answer_as id request revision facts s)
  unfolding answer_as answer_kernel_address answer_command_line answer_loader_info
  answer_as-Leaves id =
      let Q : Act Handover (Unit {0}) → Type 0 = (λ f. P (f s)) in
      if_by Q (id == 1) (λ e. memory_map-Leaves)
        (λ e.
          if_by Q (id == 2) (λ e. one 24 _ refl)
            (λ e.
              if_by Q (id == 3) (λ e. one 16 _ refl)
                (λ e.
                  if_by Q (id == 4) (λ e. one 24 _ refl)
                    (λ e.
                      if_by Q (id == 5) (λ e. answer_framebuffer-Leaves)
                        (λ e.
                          if_by Q (id == 6) (λ e. answer_acpi-Leaves)
                            (λ e.
                              if_by Q (id == 7) (λ e. answer_processors-Leaves)
                                (λ e.
                                  if_by Q (id == 8) (λ e. answer_modules-Leaves)
                                    (λ e. same-Leaves request s))))))))

-- An answer keeps what is placed in the arena, and changes no word of the image but the response of
-- its request, whether it succeeds or not.
pub answer-Leaves :
    (request : ℕ) (facts : BootFacts) (s : Handover) → Leaves request s (answer request facts s).1
unfolding answer
answer-Leaves request facts s =
    answer_as-Leaves request (s.image (request + 24)) facts s (s.image (request + 16))
