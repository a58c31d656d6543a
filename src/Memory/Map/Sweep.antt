-- ===== src/Memory/Map/Sweep.antt =====
-- The loop of `memory_map_finalize`: after the boundaries up to `s`, the result says of every address
-- below `s` what the input says, and its regions are in order.
use mathlib.Core.Path.{subst}
use native.Mathlib.Decide.{dec_lt}
use tunix_boot.Prelude.{
  ℕ, suc, ◌+◌, ◌≤◌, ◌<◌, ◌≡◌, ◌⊎◌, inl, inr, refl, sym, ◌∙◌, Bool, true, false, ◌&&◌, Option, none,
  some, List, [], ◌∷◌, arith, ◌==◌, if◌then◌else◌, All, All-imp, length, Bool-cases, Option-cases,
}
use tunix_boot.Prelude.Word.{u64_mod, add64, sub64}
use tunix_boot.Memory.Map.{
  MemoryKind, MemoryRegion, MemoryMap, rank, same_kind, region_end, interval_kind, push_interval,
  sweep, max_regions,
}
use tunix_boot.Memory.Map.Coverage.{
  IsRegion, covers, strongest, IsElementary, interval_from-eq-strongest, strongest_from-none,
}
use tunix_boot.Memory.Map.Boundaries.{Has, StrictFrom}

-- The kind at an address according to the result so far, whose last region comes first.
abbrev pub found : List MemoryRegion → ℕ → Option MemoryKind
found [] a = none
found (r ∷ rs) a = elim (found rs a) [
  | none ↦ if covers r a then some r.kind else none
  | some k ↦ some k
]

-- Ascending, disjoint, and no two that touch share a kind; the last region comes first.
abbrev pub Descends : List MemoryRegion → Type 0
Descends [] = Unit
Descends (r ∷ []) = Unit
Descends (r ∷ q ∷ rs) =
    (region_end q ≤ r.base)
    × (region_end q ≡ r.base → same_kind q.kind r.kind ≡ false)
    × Descends (q ∷ rs)

-- The result lies below `s` and is in order.
pub record IsResult (s : ℕ) (acc : List MemoryRegion) : Type 0 where
  pub regions : All IsRegion acc
  pub below : All (λ r. region_end r ≤ s) acc
  pub order : Descends acc
  pub room : length acc ≤ max_regions

found-none :
    (s a : ℕ) (acc : List MemoryRegion)
    → All IsRegion acc
    → All (λ r. region_end r ≤ s) acc
    → s ≤ a
    → found acc a ≡ none
found-none s a [] w h le = refl
found-none s a (r ∷ rs) w h le = ground (arith, found-none s a rs w.1 h.1 le, w.0, h.0)

-- What one more interval does to the result.
record Pushed (start end : ℕ) (kind : MemoryKind) (acc acc' : List MemoryRegion) : Type 0 where
  result : IsResult end acc'
  before : (a : ℕ) → a < start → found acc' a ≡ found acc a
  inside : (a : ℕ) → start ≤ a → a < end → found acc' a ≡ some kind

abbrev interval : ℕ → ℕ → MemoryKind → MemoryRegion
interval start end kind = record { base = start; length = sub64 end start; kind = kind }

abbrev grown : MemoryRegion → ℕ → ℕ → MemoryRegion
grown r start end = record r { length = add64 r.length (sub64 end start) }

pub same_kind→eq : (a b : MemoryKind) → same_kind a b ≡ true → a ≡ b
unfolding rank
same_kind→eq a b h = ground arith

grow-Pushed :
    (start end : ℕ) (kind : MemoryKind) (r : MemoryRegion) (rs : List MemoryRegion)
    → start < end
    → end < u64_mod
    → IsResult start (r ∷ rs)
    → r.kind ≡ kind
    → region_end r ≡ start
    → Pushed start end kind (r ∷ rs) (grown r start end ∷ rs)
grow-Pushed start end kind r rs lt small h k e = record {
  result = record {
    regions = ((ground (arith, h.regions.0), ground (arith, h.regions.0)), h.regions.1);
    below = (ground (arith, h.regions.0), All-imp _ _ (λ q p. omega arith) rs h.below.1);
    order = same_order rs h.order;
    room = h.room;
  };
  before = λ a p. ground (arith, h.regions.0);
  inside = λ a p q. ground (arith, h.regions.0, found-none start a rs h.regions.1 h.below.1 p);
}
  where
    same_order : (qs : List MemoryRegion) → Descends (r ∷ qs) → Descends (grown r start end ∷ qs)
    same_order [] d = tt
    same_order (q ∷ qs) d = d

fresh-Pushed :
    (start end : ℕ) (kind : MemoryKind) (acc : List MemoryRegion)
    → start < end
    → end < u64_mod
    → IsResult start acc
    → suc (length acc) ≤ max_regions
    → Descends (interval start end kind ∷ acc)
    → Pushed start end kind acc (interval start end kind ∷ acc)
fresh-Pushed start end kind acc lt small h room order = record {
  result = record {
    regions = ((omega arith, omega arith), h.regions);
    below = (omega arith, All-imp _ _ (λ q p. omega arith) acc h.below);
    order = order;
    room = room;
  };
  before = λ a p. ground arith;
  inside = λ a p q. ground (arith, found-none start a acc h.regions h.below p);
}

push_interval-Pushed :
    (start end : ℕ) (kind : MemoryKind) (acc : List MemoryRegion) {acc' : List MemoryRegion}
    → start < end
    → end < u64_mod
    → IsResult start acc
    → push_interval acc start end kind ≡ some acc'
    → Pushed start end kind acc acc'
unfolding push_interval
push_interval-Pushed start end kind [] lt small h e =
    subst (Pushed start end kind []) (first e)
      (fresh-Pushed start end kind [] lt small h (omega arith) tt)
  where
    first :
        {acc' : List MemoryRegion}
        → some (interval start end kind ∷ []) ≡ some acc'
        → interval start end kind ∷ [] ≡ acc'
    first p = cc
push_interval-Pushed start end kind (r ∷ rs) {acc'} lt small h e =
    elim (Bool-cases (same_kind r.kind kind && (region_end r == start))) [
      | inl merge ↦ subst (Pushed start end kind (r ∷ rs)) (merged merge) (
          grow-Pushed start end kind r rs lt small h (same_kind→eq r.kind kind (ground arith))
            (ground arith))
      | inr apart ↦ subst (Pushed start end kind (r ∷ rs)) (placed apart) (
          fresh-Pushed start end kind (r ∷ rs) lt small h (ground arith)
            (h.below.0, (λ touch. ground arith), h.order))
    ]
  where
    merged :
        (same_kind r.kind kind && (region_end r == start)) ≡ true → grown r start end ∷ rs ≡ acc'
    merged m = ground arith

    placed :
        (same_kind r.kind kind && (region_end r == start)) ≡ false
        → interval start end kind ∷ r ∷ rs ≡ acc'
    placed m = ground arith

-- An edge is behind the sweep or one of the boundaries to come.
abbrev OnGrid : ℕ → List ℕ → ℕ → Type 0
OnGrid start ends x = (x ≤ start) ⊎ Has x ends

abbrev RegionOnGrid : ℕ → List ℕ → MemoryRegion → Type 0
RegionOnGrid start ends r = OnGrid start ends r.base × OnGrid start ends (region_end r)

pub strict_le : (x start : ℕ) (ends : List ℕ) → StrictFrom start ends → Has x ends → start < x
strict_le x start [] s h = absurd h
strict_le x start (e ∷ ends) s (inl p) = omega arith
strict_le x start (e ∷ ends) s (inr p) = omega (arith, strict_le x e ends s.1 p)

grid_next :
    (start end : ℕ) (ends : List ℕ) (x : ℕ)
    → start < end
    → OnGrid start (end ∷ ends) x
    → OnGrid end ends x
grid_next start end ends x lt (inl p) = inl (omega arith)
grid_next start end ends x lt (inr (inl p)) = inl (omega arith)
grid_next start end ends x lt (inr (inr p)) = inr p

grid_apart :
    (start end : ℕ) (ends : List ℕ) (x : ℕ)
    → StrictFrom end ends
    → OnGrid start (end ∷ ends) x
    → (x ≤ start) ⊎ (end ≤ x)
grid_apart start end ends x s (inl p) = inl p
grid_apart start end ends x s (inr (inl p)) = inr (omega arith)
grid_apart start end ends x s (inr (inr p)) = inr (omega (arith, strict_le x end ends s p))

-- What the sweep owes for the input regions: its output is in order, it says nothing that the input
-- does not say, and it says everything unless it ran out of room.
pub record Swept (input : List MemoryRegion) (out : List MemoryRegion × Bool) : Type 0 where
  pub regions : All IsRegion out.0
  pub order : Descends out.0
  pub room : length out.0 ≤ max_regions
  pub sound : (a : ℕ) (k : MemoryKind) → found out.0 a ≡ some k → strongest input a ≡ some k
  pub exact : out.1 ≡ false → (a : ℕ) → found out.0 a ≡ strongest input a

module _ (m : MemoryMap) (start end : ℕ) (ends : List ℕ) (acc : List MemoryRegion)
    (flag : Bool) where
  sweep-gap :
      interval_kind m start end ≡ none
      → sweep m start (end ∷ ends) acc flag ≡ sweep m end ends acc flag
  unfolding sweep
  sweep-gap e = rw (e, sweep)

  sweep-full :
      (kind : MemoryKind)
      → interval_kind m start end ≡ some kind
      → push_interval acc start end kind ≡ none
      → sweep m start (end ∷ ends) acc flag ≡ (acc, true)
  unfolding sweep
  sweep-full kind e p = rw (e, p, sweep)

  sweep-push :
      (kind : MemoryKind) (acc' : List MemoryRegion)
      → interval_kind m start end ≡ some kind
      → push_interval acc start end kind ≡ some acc'
      → sweep m start (end ∷ ends) acc flag ≡ sweep m end ends acc' flag
  unfolding sweep
  sweep-push kind acc' e p = rw (e, p, sweep)

module _ (m : MemoryMap) (w : All IsRegion m.regions) where
  strongest-past :
      (s : ℕ) → All (RegionOnGrid s []) m.regions → (a : ℕ) → s ≤ a → strongest m.regions a ≡ none
  strongest-past s grid a le = strongest_from-none m.regions a none (past m.regions w grid)
    where
      past :
          (rs : List MemoryRegion)
          → All IsRegion rs
          → All (RegionOnGrid s []) rs
          → All (λ r. (a < r.base) ⊎ (r.base + r.length ≤ a)) rs
      past [] v g = tt
      past (r ∷ rs) v ((b, inl p), g) = (inr (omega (arith, v.0)), past rs v.1 g)
      past (r ∷ rs) v ((b, inr p), g) = absurd p

  strongest-interval :
      (start end : ℕ) (ends : List ℕ)
      → StrictFrom end ends
      → All (RegionOnGrid start (end ∷ ends)) m.regions
      → (a : ℕ) → start ≤ a
      → a < end
      → interval_kind m start end ≡ strongest m.regions a
  unfolding interval_kind
  strongest-interval start end ends strict grid a le lt =
      interval_from-eq-strongest m.regions start end a none w
        (All-imp (RegionOnGrid start (end ∷ ends)) (IsElementary start end)
          (λ r h. (
            grid_apart start end ends r.base strict h.0,
            grid_apart start end ends (region_end r) strict h.1,
          ))
          m.regions grid)
        le lt

  pub sweep-Swept :
      (start : ℕ) (ends : List ℕ) (acc : List MemoryRegion) (flag : Bool)
      → StrictFrom start ends
      → All (λ x. x < u64_mod) ends
      → All (RegionOnGrid start ends) m.regions
      → IsResult start acc
      → ((a : ℕ) → a < start → found acc a ≡ strongest m.regions a)
      → Swept m.regions (sweep m start ends acc flag)
  unfolding sweep
  sweep-Swept start [] acc flag strict small grid h before = record {
    regions = h.regions;
    order = h.order;
    room = h.room;
    sound = λ a k e. sym (all a) ∙ e;
    exact = λ f a. all a;
  }
    where
      all : (a : ℕ) → found acc a ≡ strongest m.regions a
      all a = elim (dec_lt a start) [
        | yes lt ↦ before a lt
        | no ge ↦
            found-none start a acc h.regions h.below (omega arith)
            ∙ sym (strongest-past start grid a (omega arith))
      ]
  sweep-Swept start (end ∷ ends) acc flag strict small grid h before =
      elim (Option-cases (interval_kind m start end)) [
        | inl gap ↦ rw (sweep-gap m start end ends acc flag gap) (
            sweep-Swept end ends acc flag strict.1 small.1 further (passed h) (
              upto acc before
                (λ a le lt. found-none start a acc h.regions h.below le ∙ sym gap ∙ here a le lt)))
        | inr (kind, e) ↦ (elim (Option-cases (push_interval acc start end kind)) [
          | inl full ↦ rw (sweep-full m start end ends acc flag kind e full) (stopped h)
          | inr (acc', p) ↦ rw (sweep-push m start end ends acc flag kind acc' e p) (
              let q : Pushed start end kind acc acc' =
                push_interval-Pushed start end kind acc strict.0 small.0 h p in
              sweep-Swept end ends acc' flag strict.1 small.1 further q.result (
                upto acc' (λ a lt. q.before a lt ∙ before a lt)
                  (λ a le lt. q.inside a le lt ∙ sym e ∙ here a le lt)))
        ])
      ]
    where
      further : All (RegionOnGrid end ends) m.regions
      further =
          All-imp (RegionOnGrid start (end ∷ ends)) (RegionOnGrid end ends)
            (λ r g. (
              grid_next start end ends r.base strict.0 g.0,
              grid_next start end ends (region_end r) strict.0 g.1,
            ))
            m.regions grid

      here : (a : ℕ) → start ≤ a → a < end → interval_kind m start end ≡ strongest m.regions a
      here a le lt = strongest-interval start end ends strict.1 grid a le lt

      upto :
          (out : List MemoryRegion)
          → ((a : ℕ) → a < start → found out a ≡ strongest m.regions a)
          → ((a : ℕ) → start ≤ a → a < end → found out a ≡ strongest m.regions a)
          → (a : ℕ) → a < end
          → found out a ≡ strongest m.regions a
      upto out low high a lt = elim (dec_lt a start) [
        | yes p ↦ low a p
        | no p ↦ high a (omega arith) lt
      ]

      passed : IsResult start acc → IsResult end acc
      passed r = record {
        regions = r.regions;
        below = All-imp _ _ (λ q p. omega arith) acc r.below;
        order = r.order;
        room = r.room;
      }

      stopped : IsResult start acc → Swept m.regions (acc, true)
      stopped r = record {
        regions = r.regions;
        order = r.order;
        room = r.room;
        sound = λ a k e. elim (dec_lt a start) [
          | yes lt ↦ sym (before a lt) ∙ e
          | no ge ↦ cc (found-none start a acc r.regions r.below (omega arith))
        ];
        exact = λ f. cc;
      }
