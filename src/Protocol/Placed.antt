-- ===== src/Protocol/Placed.antt =====
-- The answers lie in the arena, apart from one another.
use mathlib.Core.Path.{subst}
use tunix_boot.Prelude.{
  ℕ, ◌+◌, ◌*◌, ◌≡◌, ◌⊎◌, ◌≤◌, inl, inr, refl, sym, ◌∙◌, Option, List, [], ◌∷◌, arith, All, All-imp,
  length,
}
use tunix_boot.Prelude.Branches.{either_option_by}
use tunix_boot.Util.Checked.{checked_mul, checked_mul-eq-some}
use tunix_boot.Memory.Arena.{Arena, allocate, allocate_array}
use tunix_boot.Memory.Arena.Bounds.{IsValid, Allocates, allocate_aligned-Allocates}
use tunix_boot.Protocol.{
  Object, memory_map_response, memory_entries, kernel_address_response, command_line_response,
  framebuffer_response, acpi_response, processors_response, processor_entries, modules_response,
  module_entries, loader_info_response, Handover, allocate_response, allocate_entries, place,
  respond, answer_one, answer_two,
}

-- The bytes that an object takes.
abbrev pub size_of : Object → ℕ
size_of (memory_map_response revision count entries) = 24
size_of (memory_entries entries) = length entries * 24
size_of (kernel_address_response revision physical virtual) = 24
size_of (command_line_response revision line) = 16
size_of (framebuffer_response revision screen) = 40
size_of (acpi_response revision rsdp) = 16
size_of (processors_response revision count address entries) = 32
size_of (processor_entries entries) = length entries * 8
size_of (modules_response revision count entries) = 24
size_of (module_entries entries) = length entries * 24
size_of (loader_info_response revision name version) = 24

-- Between two addresses.
abbrev pub Within : ℕ → ℕ → ℕ × Object → Type 0
Within low high p = (low ≤ p.0) × (p.0 + size_of p.1 ≤ high)

abbrev pub Disjoint : ℕ × Object → ℕ × Object → Type 0
Disjoint p q = (p.0 + size_of p.1 ≤ q.0) ⊎ (q.0 + size_of q.1 ≤ p.0)

abbrev pub Apart : List (ℕ × Object) → Type 0
Apart [] = Unit
Apart (p ∷ ps) = All (Disjoint p) ps × Apart ps

abbrev end_of : Arena → ℕ
end_of a = a.base + a.used

-- The objects lie in the used part of the arena and do not overlap.
pub record IsPlaced (s : Handover) : Type 0 where
  pub valid : IsValid s.arena
  pub inside : All (Within s.arena.base (s.arena.base + s.arena.used)) s.objects
  pub apart : Apart s.objects

wider :
    (low high higher : ℕ) (ps : List (ℕ × Object))
    → high ≤ higher
    → All (Within low high) ps
    → All (Within low higher) ps
wider low high higher ps le h =
    All-imp (Within low high) (Within low higher) (λ p w. (w.0, omega (arith, w.1))) ps h

above :
    (low high : ℕ) (p : ℕ × Object) (ps : List (ℕ × Object))
    → high ≤ p.0
    → All (Within low high) ps
    → All (Disjoint p) ps
above low high p ps le h =
    All-imp (Within low high) (Disjoint p) (λ q w. inr (omega (arith, w.1))) ps h

-- The arena after an allocation, in the words of the arena before it.
record Grows (a b : Arena) : Type 0 where
  base : b.base ≡ a.base
  used : a.used ≤ b.used
  valid : IsValid b

Allocates-Grows :
    (a : Arena) (size alignment : ℕ) (out : Option ℕ × Arena)
    → Allocates a size alignment out
    → Grows a out.1
Allocates-Grows a size alignment out h = record {
  base = h.kept.0;
  used = h.kept.2;
  valid = h.valid;
}

allocate-Allocates : (a : Arena) (size : ℕ) → IsValid a → Allocates a size 16 (allocate a size)
unfolding allocate
allocate-Allocates a size v = allocate_aligned-Allocates a size 16 (omega arith) v

-- An array takes the bytes of its entries.
allocate_array-Allocates :
    (a : Arena) (count each : ℕ)
    → IsValid a
    → Allocates a (count * each) 16 (allocate_array a count each)
unfolding allocate_array
allocate_array-Allocates a count each v =
    either_option_by (Allocates a (count * each) 16) (checked_mul count each)
      (λ over. record {
        kept = (refl, refl, omega arith);
        valid = v;
        refused = λ e. refl;
        placed = λ at e. absurd cc;
      })
      (λ total m.
        subst (λ n. Allocates a n 16 (allocate a total)) (checked_mul-eq-some count each total m).0
          (allocate-Allocates a total v))

-- Growing the arena keeps what is placed.
grown-IsPlaced :
    (s : Handover) (b : Arena) (image : ℕ → ℕ)
    → IsPlaced s
    → Grows s.arena b
    → IsPlaced (record s { arena = b; image = image })
grown-IsPlaced s b image h g = record {
  valid = g.valid;
  inside =
      subst (λ t. All (Within t (b.base + b.used)) s.objects) (sym g.base)
        (wider s.arena.base (end_of s.arena) (end_of b) s.objects (omega (arith, g.base, g.used))
          h.inside);
  apart = h.apart;
}

-- Placing an object in what the arena has grown by.
add_object-IsPlaced :
    (s : Handover) (b : Arena) (image : ℕ → ℕ) (p : ℕ × Object)
    → IsPlaced s
    → Grows s.arena b
    → end_of s.arena ≤ p.0
    → p.0 + size_of p.1 ≤ end_of b
    → IsPlaced (record { image = image; arena = b; objects = p ∷ s.objects })
add_object-IsPlaced s b image p h g low high =
    let k = grown-IsPlaced s b image h g in
    record {
      valid = g.valid;
      inside = ((omega (arith, g.base), high), k.inside);
      apart = (above s.arena.base (end_of s.arena) p s.objects low h.inside, h.apart);
    }

pub answer_one-IsPlaced :
    (size request : ℕ) (object : Object) (s : Handover)
    → size_of object ≡ size
    → IsPlaced s
    → IsPlaced (answer_one size object request s).1
unfolding answer_one allocate_response place respond
answer_one-IsPlaced size request object s e h =
    let a = allocate-Allocates s.arena size h.valid in
    let g = Allocates-Grows s.arena size 16 (allocate s.arena size) a in
    either_option_by (λ (r : Option (Unit {0}) × Handover). IsPlaced r.1) (allocate s.arena size).0
      (λ fails. grown-IsPlaced s (allocate s.arena size).1 s.image h g)
      (λ at some_at.
        let (_, low, high) = a.placed at some_at in
        add_object-IsPlaced s (allocate s.arena size).1 _ (at, object) h g low
          (omega (arith, high, e)))

pub answer_two-IsPlaced :
    (size count each request : ℕ) (object : ℕ → Object) (entries : Object) (s : Handover)
    → ((array : ℕ) → size_of (object array) ≡ size)
    → size_of entries ≡ count * each
    → IsPlaced s
    → IsPlaced (answer_two size object count each entries request s).1
unfolding answer_two allocate_response allocate_entries place respond
answer_two-IsPlaced size count each request object entries s e f h =
    let a = allocate-Allocates s.arena size h.valid in
    let b : Arena = (allocate s.arena size).1 in
    let g : Grows s.arena b = Allocates-Grows s.arena size 16 (allocate s.arena size) a in
    let c = allocate_array-Allocates b count each g.valid in
    let d : Arena = (allocate_array b count each).1 in
    let k : Grows b d = Allocates-Grows b (count * each) 16 (allocate_array b count each) c in
    let whole : Grows s.arena d = record {
      base = k.base ∙ g.base;
      used = omega (arith, g.used, k.used);
      valid = k.valid;
    } in
    either_option_by (λ (r : Option (Unit {0}) × Handover). IsPlaced r.1) (allocate s.arena size).0
      (λ fails. grown-IsPlaced s b s.image h g)
      (λ at some_at.
        let (_, low, high) = a.placed at some_at in
        either_option_by (λ (r : Option (Unit {0}) × Handover). IsPlaced r.1)
          (allocate_array b count each).0 (λ fails. grown-IsPlaced s d s.image h whole)
          (λ array some_array.
            let (_, low', high') = c.placed array some_array in
            let next : IsPlaced
                (record { image = s.image; arena = d; objects = (array, entries) ∷ s.objects }) =
              add_object-IsPlaced s d s.image (array, entries) h whole
                (omega (arith, low', g.used, g.base)) (omega (arith, high', f)) in
            record {
              valid = k.valid;
              inside = (
                (omega (arith, low, whole.base), omega (arith, high, e array, k.used, k.base)),
                next.inside,
              );
              apart = (
                (
                  inl (omega (arith, high, e array, low')),
                  above s.arena.base (end_of s.arena) (at, object array) s.objects low h.inside,
                ),
                next.apart,
              );
            }))
