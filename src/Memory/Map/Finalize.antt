-- ===== src/Memory/Map/Finalize.antt =====
-- `memory_map_finalize`: the result is sorted, disjoint and merged, and gives each address the most
-- restrictive kind that the input claims for it.
use mathlib.Core.Path.{subst}
use mathlib.Core.Option
use tunix_boot.Prelude.{
  ℕ, ◌+◌, ◌≤◌, ◌<◌, ◌≡◌, ◌⊎◌, inl, inr, refl, sym, ap, ◌∙◌, Bool, true, false, Option, none, some,
  List, [], ◌∷◌, arith, ltb, All, All-imp, All-rev_append, length-rev_append, rev_append,
  Bool-cases,
}
use tunix_boot.Memory.Map.{
  MemoryKind, MemoryRegion, MemoryMap, rank, same_kind, take_stronger, region_end,
  collect_boundaries, sweep_all, finalize, find_in, find,
}
use tunix_boot.Memory.Map.Coverage.{
  IsRegion, IsWellFormed, covers, strongest, strongest_from, strongest_from-none,
}
use tunix_boot.Memory.Map.Boundaries.{Has, Boundaries, collect_boundaries-Boundaries}
use tunix_boot.Memory.Map.Sweep.{strict_le, found, Descends, Swept, sweep-Swept}

-- Ascending, disjoint, and no two that touch share a kind.
abbrev pub Ascends : List MemoryRegion → Type 0
Ascends [] = Unit
Ascends (q ∷ []) = Unit
Ascends (q ∷ r ∷ rs) =
    (region_end q ≤ r.base)
    × (region_end q ≡ r.base → same_kind q.kind r.kind ≡ false)
    × Ascends (r ∷ rs)

abbrev Links : List MemoryRegion → List MemoryRegion → Type 0
Links [] ys = Unit
Links (x ∷ xs) [] = Unit
Links (x ∷ xs) (y ∷ ys) =
    (region_end x ≤ y.base) × (region_end x ≡ y.base → same_kind x.kind y.kind ≡ false)

rev_append-Ascends :
    (xs ys : List MemoryRegion)
    → Descends xs
    → Ascends ys
    → Links xs ys
    → Ascends (rev_append xs ys)
rev_append-Ascends [] ys d a l = a
rev_append-Ascends (x ∷ []) [] d a l = tt
rev_append-Ascends (x ∷ []) (y ∷ ys) d a l = (l.0, l.1, a)
rev_append-Ascends (x ∷ x' ∷ xs) [] d a l = rev_append-Ascends (x' ∷ xs) (x ∷ []) d.2 tt (d.0, d.1)
rev_append-Ascends (x ∷ x' ∷ xs) (y ∷ ys) d a l =
    rev_append-Ascends (x' ∷ xs) (x ∷ y ∷ ys) d.2 (l.0, l.1, a) (d.0, d.1)

abbrev pub kind_in : List MemoryRegion → ℕ → Option MemoryKind
kind_in rs a = Option.map (λ r. r.kind) (find_in rs a)

-- The kind of memory that a map reports for an address.
abbrev pub kind_at : MemoryMap → ℕ → Option MemoryKind
kind_at m a = Option.map (λ r. r.kind) (find m a)

kind_in-rev_append :
    (a : ℕ) (xs ys : List MemoryRegion)
    → All IsRegion xs
    → kind_in (rev_append xs ys) a ≡ elim (found xs a) [ none ↦ kind_in ys a | some k ↦ some k ]
unfolding find_in
kind_in-rev_append a [] ys w = refl
kind_in-rev_append a (x ∷ xs) ys w = kind_in-rev_append a xs (x ∷ ys) w.1 ∙ ground (arith, w.0)

-- What `memory_map_finalize` promises about a well-formed map.
pub record IsFinal (input output : MemoryMap) : Type 0 where
  pub formed : IsWellFormed output
  pub order : Ascends output.regions
  pub sound :
      (a : ℕ) (k : MemoryKind) → kind_at output a ≡ some k → strongest input.regions a ≡ some k
  pub exact : output.truncated ≡ false → (a : ℕ) → kind_at output a ≡ strongest input.regions a

kind_in-reverse :
    (acc : List MemoryRegion) (a : ℕ)
    → All IsRegion acc
    → kind_in (rev_append acc []) a ≡ found acc a
unfolding find_in
kind_in-reverse acc a w = kind_in-rev_append a acc [] w ∙ ground arith

Swept-IsFinal :
    (m : MemoryMap) (out : List MemoryRegion × Bool)
    → Swept m.regions out
    → IsFinal m (record { regions = rev_append out.0 []; truncated = out.1 })
unfolding find
Swept-IsFinal m out s = record {
  formed = record {
    regions = All-rev_append IsRegion out.0 [] s.regions tt;
    room = omega (arith, s.room, length-rev_append out.0 []);
  };
  order = rev_append-Ascends out.0 [] s.order tt (link out.0);
  sound = λ a k e. s.sound a k (sym (kind_in-reverse out.0 a s.regions) ∙ e);
  exact = λ f a. kind_in-reverse out.0 a s.regions ∙ s.exact f a;
}
  where
    link : (xs : List MemoryRegion) → Links xs []
    link [] = tt
    link (x ∷ xs) = tt

sweep_all-Swept :
    (m : MemoryMap) (xs : List ℕ)
    → All IsRegion m.regions
    → Boundaries m xs
    → Swept m.regions (sweep_all m xs)
sweep_all-Swept m [] w b = record {
  regions = tt;
  order = tt;
  room = omega arith;
  sound = λ a k e. cc;
  exact = λ f a. rw b refl;
}
sweep_all-Swept m (start ∷ ends) w b =
    sweep-Swept m w start ends [] m.truncated b.strict b.small.1
      (All-imp _ _ (λ r h. (place r.base h.0, place (region_end r) h.1)) m.regions b.complete)
      (record { regions = tt; below = tt; order = tt; room = omega arith })
      (λ a lt. sym (strongest_from-none m.regions a none (ahead a lt m.regions w b.complete)))
  where
    place : (x : ℕ) → (x ≡ start) ⊎ Has x ends → (x ≤ start) ⊎ Has x ends
    place x (inl p) = inl (omega arith)
    place x (inr p) = inr p

    before : (a x : ℕ) → a < start → (x ≡ start) ⊎ Has x ends → a < x
    before a x lt (inl p) = omega arith
    before a x lt (inr p) = omega (arith, strict_le x start ends b.strict p)

    ahead :
        (a : ℕ)
        → a < start
        → (rs : List MemoryRegion) → All IsRegion rs
        → All
            (λ r.
              ((r.base ≡ start) ⊎ Has r.base ends)
              × ((region_end r ≡ start) ⊎ Has (region_end r) ends))
            rs
        → All (λ r. (a < r.base) ⊎ (r.base + r.length ≤ a)) rs
    ahead a lt [] v c = tt
    ahead a lt (r ∷ rs) v c = (inl (before a r.base lt c.0.0), ahead a lt rs v.1 c.1)

abbrev swept_map : MemoryMap → MemoryMap
swept_map m =
    let out = sweep_all m (collect_boundaries m) in
    record { regions = rev_append out.0 []; truncated = out.1 }

abbrev finalized : MemoryMap → List MemoryRegion → MemoryMap
finalized m [] = m
finalized m (_ ∷ _) = swept_map m

finalize-nil : (m : MemoryMap) → m.regions ≡ [] → finalize m ≡ m
unfolding finalize
finalize-nil m e = ap (finalized m) e

finalize-cons :
    (m : MemoryMap) (r : MemoryRegion) (rs : List MemoryRegion)
    → m.regions ≡ r ∷ rs
    → finalize m ≡ swept_map m
unfolding finalize
finalize-cons m r rs e = ap (finalized m) e

empty-IsFinal : (m : MemoryMap) → IsWellFormed m → m.regions ≡ [] → IsFinal m m
unfolding find find_in
empty-IsFinal m w e = record {
  formed = w;
  order = subst Ascends (sym e) tt;
  sound = λ a k p. cc (e, p);
  exact = λ f a. ap (λ rs. kind_in rs a) e ∙ sym (ap (λ rs. strongest rs a) e);
}

-- The result of `memory_map_finalize` is well formed, ascending, disjoint and merged. It never
-- reports a kind for an address that is not the strongest claim of the input, and unless it is
-- marked as truncated it reports exactly the strongest claim, for every address.
pub finalize-IsFinal : (m : MemoryMap) → IsWellFormed m → IsFinal m (finalize m)
finalize-IsFinal m w = go m.regions refl
  where
    go : (rs : List MemoryRegion) → m.regions ≡ rs → IsFinal m (finalize m)
    go [] e = subst (IsFinal m) (sym (finalize-nil m e)) (empty-IsFinal m w e)
    go (r ∷ rs) e = subst (IsFinal m) (sym (finalize-cons m r rs e)) (
        Swept-IsFinal m (sweep_all m (collect_boundaries m)) (
          sweep_all-Swept m (collect_boundaries m) w.regions
            (collect_boundaries-Boundaries m w.regions)))

-- Some region that contains the address has the kind.
abbrev pub Claimed : List MemoryRegion → ℕ → MemoryKind → Type 0
Claimed [] a k = ⊥
Claimed (r ∷ rs) a k = ((covers r a ≡ true) × (r.kind ≡ k)) ⊎ Claimed rs a k

take_stronger-lem :
    (out : Option MemoryKind) (q : MemoryKind)
    → (j : MemoryKind) × (take_stronger out q ≡ some j)
      × ((out ≡ some j) ⊎ (q ≡ j))
      × (rank q ≤ rank j)
      × ((i : MemoryKind) → out ≡ some i → rank i ≤ rank j)
unfolding take_stronger
take_stronger-lem none q = (q, refl, inr refl, omega arith, λ i e. cc)
take_stronger-lem (some p) q = elim (Bool-cases (ltb (rank p) (rank q))) [
  | inl lt ↦ (q, rw lt, inr refl, omega arith, λ i e. ground arith)
  | inr ge ↦ (p, rw ge, inl refl, ground arith, λ i e. ground arith)
]

strongest_from-lem :
    (rs : List MemoryRegion) (a : ℕ) (out : Option MemoryKind) (k : MemoryKind)
    → strongest_from rs a out ≡ some k
    → ((out ≡ some k) ⊎ Claimed rs a k)
      × All (λ r. covers r a ≡ true → rank r.kind ≤ rank k) rs
      × ((j : MemoryKind) → out ≡ some j → rank j ≤ rank k)
strongest_from-lem [] a out k e = (inl e, tt, λ j p. ground arith)
strongest_from-lem (r ∷ rs) a out k e = elim (Bool-cases (covers r a)) [
  | inr miss ↦
      let (claim, rest, older) = strongest_from-lem rs a out k (rw miss at e) in
      (elim claim [ inl p ↦ inl p | inr c ↦ inr (inr c) ], ((λ hit. cc), rest), older)
  | inl hit ↦
      let (claim, rest, older) =
        strongest_from-lem rs a (take_stronger out r.kind) k (rw hit at e) in
      let (j, is, from, above, others) = take_stronger-lem out r.kind in
      (
        elim claim [
          | inl p ↦ elim from [
            | inl q ↦ inl (cc (p, q, is))
            | inr q ↦ inr (inl (hit, cc (p, q, is)))
          ]
          | inr c ↦ inr (inr c)
        ],
        ((λ _. omega (arith, older j is)), rest),
        λ i p. omega (arith, others i p, older j is),
      )
]

-- `strongest` is what it says: claimed by a region that contains the address, and no region that
-- contains the address claims a stronger kind.
pub strongest-lem :
    (rs : List MemoryRegion) (a : ℕ) (k : MemoryKind)
    → strongest rs a ≡ some k
    → Claimed rs a k × All (λ r. covers r a ≡ true → rank r.kind ≤ rank k) rs
strongest-lem rs a k e =
    let (claim, rest, older) = strongest_from-lem rs a none k e in
    (elim claim [ inl p ↦ cc | inr c ↦ c ], rest)
