-- ===== src/Tests/Protocol.antt =====
-- src/protocol/protocol.c on an image with two requests, for the kernel's address and for the screen of
-- a machine that has none.
use tunix_boot.Prelude.{ℕ, ◌≡◌, refl, Option, none, some, [], ◌∷◌, arith, ◌==◌, if◌then◌else◌}
use tunix_boot.Util.Checked.{checked_add, clear_low}
use tunix_boot.Memory.Arena.{is_power_of_two, allocate_aligned, allocate}
use tunix_boot.Protocol.{
  kernel_address_response, BootFacts, Handover, agreed_revision, allocate_response, place, respond,
  answer_one, answer_kernel_address, answer_framebuffer, answer_as, answer, answer_from,
  protocol_answer,
}
use tunix_boot.Protocol.Scan.{HandsOver, protocol_answer-HandsOver}

-- Requests at 8 and at 56 of an image of 104 bytes.
abbrev image : ℕ → ℕ
image p =
    if p == 8
    then 0x5449554e49582d31
    else if p == 16
    then 0x424f4f54503a3031
    else if p == 24
    then 2
    else if p == 56
    then 0x5449554e49582d31
    else if p == 64
    then 0x424f4f54503a3031
    else if p == 72
    then 5
    else 0

abbrev facts : BootFacts
facts = record {
  memory = none;
  kernel_physical_base = 0x200000;
  kernel_virtual_base = 0x80000000;
  command_line = none;
  screen = none;
  rsdp = none;
  processors = none;
  modules = none;
}

abbrev start : Handover
start = record {
  image = image;
  arena = record { base = 0x1000; capacity = 100; used = 0 };
  objects = [];
}

abbrev answered : Option ℕ × Handover
answered = protocol_answer 104 facts start

protocol_answer_run :
    (answered.0 ≡ some 2)
    × (answered.1.objects ≡ (0x1000, kernel_address_response 0 0x200000 0x80000000) ∷ [])
    × (answered.1.image 40 ∷ answered.1.image 88 ∷ [] ≡ 0x1000 ∷ 0 ∷ [])
unfolding protocol_answer answer_from answer answer_as answer_kernel_address answer_framebuffer
    answer_one allocate_response place respond allocate allocate_aligned is_power_of_two clear_low
    checked_add agreed_revision
protocol_answer_run = (refl, refl, refl)

protocol_answer-HandsOver_example : HandsOver facts start 64 0 0 (protocol_answer 104 facts start)
protocol_answer-HandsOver_example =
    protocol_answer-HandsOver 104 facts start (omega arith) (omega arith)
