-- ===== src/Protocol.antt =====
-- src/protocol/protocol.c: the requests in the kernel's image and the answers to them. The image is
-- read and written by words of 64 bits at a byte offset; an object that is placed in the arena is an
-- address with what stands there. The arena and the image are different memory.
pub mod Placed
pub mod Answered
pub mod Scan
use tunix_boot.Prelude.{
  ℕ, zero, suc, ◌+◌, ◌-◌, ◌*◌, ◌/◌, ◌%◌, Bool, true, false, not, ◌&&◌, ◌||◌, Option, none, some,
  List, [], ◌∷◌, map, ltb, leb, ◌==◌, if◌then◌else◌, length,
}
use tunix_boot.Prelude.Act.{Act, ◌>>=◌, ◌>>◌, pure, fail}
use tunix_boot.Prelude.Word.{add64}
use tunix_boot.Memory.Map.{
  MemoryKind, usable, bootloader_reclaimable, acpi_reclaimable, acpi_nvs, framebuffer, kernel,
  reserved, bad, MemoryRegion, MemoryMap,
}
use tunix_boot.Memory.Arena.{Arena, allocate, allocate_array}
use tunix_boot.Video.Framebuffer.{Framebuffer}
use tunix_boot.Acpi.Processors.{AcpiProcessor, AcpiProcessors}

unfoldable pub protocol_memory_kind : MemoryKind → ℕ
protocol_memory_kind usable = 0
protocol_memory_kind bootloader_reclaimable = 1
protocol_memory_kind acpi_reclaimable = 2
protocol_memory_kind acpi_nvs = 3
protocol_memory_kind framebuffer = 4
protocol_memory_kind kernel = 5
protocol_memory_kind reserved = 6
protocol_memory_kind bad = 7

abbrev pub protocol_revision : ℕ
protocol_revision = 0

unfoldable pub agreed_revision : ℕ → ℕ
agreed_revision requested = if ltb protocol_revision requested then protocol_revision else requested

pub record BootMemoryEntry : Type 0 where
  pub base : ℕ
  pub length : ℕ
  pub kind : ℕ

pub record BootProcessor : Type 0 where
  pub apic_id : ℕ
  pub startable : ℕ

pub record BootModule : Type 0 where
  pub base : ℕ
  pub bytes : ℕ
  pub path : List ℕ

-- What can stand at an address of the arena: the responses, and the arrays that they point to. The
-- pointer to the entries of a memory map is NULL when there are none.
pub data Object : Type 0 where
  memory_map_response : ℕ → ℕ → Option ℕ → Object
  memory_entries : List BootMemoryEntry → Object
  kernel_address_response : ℕ → ℕ → ℕ → Object
  command_line_response : ℕ → List ℕ → Object
  framebuffer_response : ℕ → Framebuffer → Object
  acpi_response : ℕ → ℕ → Object
  processors_response : ℕ → ℕ → ℕ → ℕ → Object
  processor_entries : List BootProcessor → Object
  modules_response : ℕ → ℕ → ℕ → Object
  module_entries : List BootModule → Object
  loader_info_response : ℕ → List ℕ → List ℕ → Object

-- `struct boot_facts`; the modules are a list with its count.
pub record BootFacts : Type 0 where
  pub memory : Option MemoryMap
  pub kernel_physical_base : ℕ
  pub kernel_virtual_base : ℕ
  pub command_line : Option (List ℕ)
  pub screen : Option Framebuffer
  pub rsdp : Option ℕ
  pub processors : Option AcpiProcessors
  pub modules : Option (List BootModule)

-- What the calls change: the words of the image, the arena, and what has been placed in it.
pub record Handover : Type 0 where
  pub image : ℕ → ℕ
  pub arena : Arena
  pub objects : List (ℕ × Object)

-- `arena_allocate_zeroed(arena, size)`; every field of a response is then written.
unfoldable pub allocate_response : ℕ → Act Handover ℕ
allocate_response size s =
    let (at, arena) = allocate s.arena size in (at, record s { arena = arena })

-- `arena_allocate_array(arena, count, size)`.
unfoldable pub allocate_entries : ℕ → ℕ → Act Handover ℕ
allocate_entries count size s =
    let (at, arena) = allocate_array s.arena count size in (at, record s { arena = arena })

unfoldable pub place : ℕ → Object → Act Handover (Unit {0})
place at object s = (some tt, record s { objects = (at, object) ∷ s.objects })

-- `request->response = response`.
unfoldable pub respond : ℕ → ℕ → Act Handover (Unit {0})
respond request at s =
    (some tt, record s { image = λ offset. if offset == request + 32 then at else s.image offset })

abbrev pub entry_of : MemoryRegion → BootMemoryEntry
entry_of r = record { base = r.base; length = r.length; kind = protocol_memory_kind r.kind }

abbrev pub processor_of : AcpiProcessor → BootProcessor
processor_of p = record { apic_id = p.apic_id; startable = if p.enabled then 1 else 0 }

abbrev pub regions_of : Option MemoryMap → List MemoryRegion
regions_of none = []
regions_of (some m) = m.regions

-- A response of a size, and the pointer to it in the request.
unfoldable pub answer_one : ℕ → Object → ℕ → Act Handover (Unit {0})
answer_one size object request = do at ← allocate_response size; place at object; respond request at

-- A response of a size that points to an array of `count` entries.
unfoldable pub answer_two : ℕ → (ℕ → Object) → ℕ → ℕ → Object → ℕ → Act Handover (Unit {0})
answer_two size object count each entries request = do
  at ← allocate_response size
  array ← allocate_entries count each
  place array entries
  place at (object array)
  respond request at

unfoldable pub answer_memory_map : ℕ → ℕ → BootFacts → Act Handover (Unit {0})
answer_memory_map request revision facts =
    let regions = regions_of facts.memory in
    if length regions == 0
    then answer_one 24 (memory_map_response (agreed_revision revision) 0 none) request
    else answer_two 24
        (λ array. memory_map_response (agreed_revision revision) (length regions) (some array))
        (length regions) 24 (memory_entries (map entry_of regions)) request

unfoldable pub answer_kernel_address : ℕ → ℕ → BootFacts → Act Handover (Unit {0})
answer_kernel_address request revision facts =
    answer_one 24
      (kernel_address_response (agreed_revision revision) facts.kernel_physical_base
        facts.kernel_virtual_base)
      request

abbrev pub line_of : Option (List ℕ) → List ℕ
line_of none = []
line_of (some line) = line

unfoldable pub answer_command_line : ℕ → ℕ → BootFacts → Act Handover (Unit {0})
answer_command_line request revision facts =
    answer_one 16 (command_line_response (agreed_revision revision) (line_of facts.command_line))
      request

unfoldable pub answer_framebuffer : ℕ → ℕ → BootFacts → Act Handover (Unit {0})
answer_framebuffer request revision facts = elim facts.screen [
  | none ↦ pure tt
  | some screen ↦ answer_one 40 (framebuffer_response (agreed_revision revision) screen) request
]

unfoldable pub answer_acpi : ℕ → ℕ → BootFacts → Act Handover (Unit {0})
answer_acpi request revision facts = elim facts.rsdp [
  | none ↦ pure tt
  | some rsdp ↦ answer_one 16 (acpi_response (agreed_revision revision) rsdp) request
]

unfoldable pub answer_processors : ℕ → ℕ → BootFacts → Act Handover (Unit {0})
answer_processors request revision facts = elim facts.processors [
  | none ↦ pure tt
  | some processors ↦
      if length processors.entries == 0
      then pure tt
      else answer_two 32
          (λ array.
            processors_response (agreed_revision revision) (length processors.entries)
              processors.local_apic_address array)
          (length processors.entries) 8 (processor_entries (map processor_of processors.entries))
          request
]

unfoldable pub answer_modules : ℕ → ℕ → BootFacts → Act Handover (Unit {0})
answer_modules request revision facts = elim facts.modules [
  | none ↦ pure tt
  | some modules ↦
      if length modules == 0
      then pure tt
      else answer_two 24
          (λ array. modules_response (agreed_revision revision) (length modules) array)
          (length modules) 24 (module_entries modules) request
]

-- `"tunix-boot"` and `"0.1.0"`.
abbrev pub loader_name : List ℕ
loader_name = 116 ∷ 117 ∷ 110 ∷ 105 ∷ 120 ∷ 45 ∷ 98 ∷ 111 ∷ 111 ∷ 116 ∷ []

abbrev pub loader_version : List ℕ
loader_version = 48 ∷ 46 ∷ 49 ∷ 46 ∷ 48 ∷ []

unfoldable pub answer_loader_info : ℕ → ℕ → Act Handover (Unit {0})
answer_loader_info request revision =
    answer_one 24 (loader_info_response (agreed_revision revision) loader_name loader_version)
      request

-- `answer` of a request with its identifier and revision.
unfoldable pub answer_as : ℕ → ℕ → ℕ → BootFacts → Act Handover (Unit {0})
answer_as id request revision facts =
    if id == 1
    then answer_memory_map request revision facts
    else if id == 2
    then answer_kernel_address request revision facts
    else if id == 3
    then answer_command_line request revision facts
    else if id == 4
    then answer_loader_info request revision
    else if id == 5
    then answer_framebuffer request revision facts
    else if id == 6
    then answer_acpi request revision facts
    else if id == 7
    then answer_processors request revision facts
    else if id == 8
    then answer_modules request revision facts
    else pure tt

unfoldable pub answer : ℕ → BootFacts → Act Handover (Unit {0})
answer request facts s = answer_as (s.image (request + 16)) request (s.image (request + 24)) facts s

abbrev pub is_request : (ℕ → ℕ) → ℕ → Bool
is_request image offset =
    (image offset == 0x5449554e49582d31) && (image (offset + 8) == 0x424f4f54503a3031)

-- The loop of `protocol_answer`, on fuel; `none` is -1. Past a request the scan goes on behind it.
unfoldable pub answer_from : ℕ → ℕ → ℕ → ℕ → BootFacts → Act Handover ℕ
answer_from zero last offset answered facts s = (none, s)
answer_from (suc fuel) last offset answered facts s = elim (leb offset last) [
  | false ↦ (some answered, s)
  | true ↦ elim (is_request s.image offset) [
    | false ↦ answer_from fuel last (add64 offset 8) answered facts s
    | true ↦ elim (answered == 64) [
      | true ↦ (none, s)
      | false ↦ elim (answer offset facts s).0 [
        | none ↦ (none, (answer offset facts s).1)
        | some _ ↦
            answer_from fuel last (add64 (add64 offset 32) 8) (answered + 1) facts
              (answer offset facts s).1
      ]
    ]
  ]
]

-- `protocol_answer` of pointers that are not NULL; every round goes 8 bytes on.
unfoldable pub protocol_answer : ℕ → BootFacts → Act Handover ℕ
protocol_answer bytes facts s =
    if ltb bytes 40 then (some 0, s) else answer_from (suc (bytes / 8)) (bytes - 40) 0 0 facts s
