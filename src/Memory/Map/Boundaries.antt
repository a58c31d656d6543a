-- ===== src/Memory/Map/Boundaries.antt =====
-- The boundaries are the edges of the regions, strictly ascending.
use tunix_boot.Prelude.{
  ℕ, ◌≤◌, ◌<◌, ◌≡◌, ◌⊎◌, inl, inr, refl, sym, Option, none, some, List, [], ◌∷◌, arith, ltb, ◌==◌,
  All, All-imp, All-rev_append, rev_append, Bool-cases, ==_iff, ◌∙◌,
}
use tunix_boot.Prelude.Word.{u64_mod}
use tunix_boot.Memory.Map.Coverage.{IsRegion}
use tunix_boot.Memory.Map.{
  MemoryRegion, MemoryMap, region_end, edges, insert_down, sort_down, unique_after,
  collect_boundaries,
}

abbrev pub Has : ℕ → List ℕ → Type 0
Has x [] = ⊥
Has x (y ∷ ys) = (x ≡ y) ⊎ Has x ys

abbrev IsDescending : List ℕ → Type 0
IsDescending [] = Unit
IsDescending (x ∷ xs) = All (λ y. y ≤ x) xs × IsDescending xs

abbrev IsAscending : List ℕ → Type 0
IsAscending [] = Unit
IsAscending (x ∷ xs) = All (λ y. x ≤ y) xs × IsAscending xs

-- Strictly ascending from `x` on.
abbrev pub StrictFrom : ℕ → List ℕ → Type 0
StrictFrom x [] = Unit
StrictFrom x (y ∷ ys) = (x < y) × StrictFrom y ys

module _ (P : ℕ → Type 0) where
  insert_down-All : (v : ℕ) (xs : List ℕ) → P v → All P xs → All P (insert_down v xs)
  unfolding insert_down
  insert_down-All v [] p h = (p, tt)
  insert_down-All v (x ∷ xs) p h = elim (Bool-cases (ltb v x)) [
    | inl e ↦ rw e (h.0, insert_down-All v xs p h.1)
    | inr e ↦ rw e (p, h)
  ]

  sort_down-All : (sorted xs : List ℕ) → All P sorted → All P xs → All P (sort_down sorted xs)
  unfolding sort_down
  sort_down-All sorted [] h k = h
  sort_down-All sorted (x ∷ xs) h k =
      sort_down-All (insert_down x sorted) xs (insert_down-All x sorted k.0 h) k.1

  unique_after-All : (last : Option ℕ) (xs : List ℕ) → All P xs → All P (unique_after last xs)
  unfolding unique_after
  unique_after-All last [] h = tt
  unique_after-All none (x ∷ xs) h = (h.0, unique_after-All (some x) xs h.1)
  unique_after-All (some y) (x ∷ xs) h = elim (Bool-cases (y == x)) [
    | inl e ↦ rw e (unique_after-All (some y) xs h.1)
    | inr e ↦ rw e (h.0, unique_after-All (some x) xs h.1)
  ]

insert_down-Has : (a v : ℕ) (xs : List ℕ) → (a ≡ v) ⊎ Has a xs → Has a (insert_down v xs)
unfolding insert_down
insert_down-Has a v [] h = h
insert_down-Has a v (x ∷ xs) h = elim (Bool-cases (ltb v x)) [
  | inl e ↦ rw e (later (insert_down-Has a v xs) h)
  | inr e ↦ rw e h
]
  where
    later :
        ((a ≡ v) ⊎ Has a xs → Has a (insert_down v xs))
        → (a ≡ v) ⊎ ((a ≡ x) ⊎ Has a xs)
        → (a ≡ x) ⊎ Has a (insert_down v xs)
    later rest (inl p) = inr (rest (inl p))
    later rest (inr (inl p)) = inl p
    later rest (inr (inr p)) = inr (rest (inr p))

sort_down-Has : (a : ℕ) (sorted xs : List ℕ) → Has a sorted ⊎ Has a xs → Has a (sort_down sorted xs)
unfolding sort_down
sort_down-Has a sorted [] (inl h) = h
sort_down-Has a sorted [] (inr h) = absurd h
sort_down-Has a sorted (x ∷ xs) (inl h) =
    sort_down-Has a (insert_down x sorted) xs (inl (insert_down-Has a x sorted (inr h)))
sort_down-Has a sorted (x ∷ xs) (inr (inl h)) =
    sort_down-Has a (insert_down x sorted) xs (inl (insert_down-Has a x sorted (inl h)))
sort_down-Has a sorted (x ∷ xs) (inr (inr h)) = sort_down-Has a (insert_down x sorted) xs (inr h)

rev_append-Has : (a : ℕ) (xs ys : List ℕ) → Has a xs ⊎ Has a ys → Has a (rev_append xs ys)
rev_append-Has a [] ys (inl h) = absurd h
rev_append-Has a [] ys (inr h) = h
rev_append-Has a (x ∷ xs) ys (inl (inl e)) = rev_append-Has a xs (x ∷ ys) (inr (inl e))
rev_append-Has a (x ∷ xs) ys (inl (inr h)) = rev_append-Has a xs (x ∷ ys) (inl h)
rev_append-Has a (x ∷ xs) ys (inr h) = rev_append-Has a xs (x ∷ ys) (inr (inr h))

unique_after-Has : (a y : ℕ) (xs : List ℕ) → Has a xs → (a ≡ y) ⊎ Has a (unique_after (some y) xs)
unfolding unique_after
unique_after-Has a y [] h = absurd h
unique_after-Has a y (x ∷ xs) h = elim (Bool-cases (y == x)) [
  | inl e ↦
      rw e (elim h [ inl p ↦ inl (p ∙ sym ((==_iff y x).0 e)) | inr p ↦ unique_after-Has a y xs p ])
  | inr e ↦ rw e (inr (elim h [ inl p ↦ inl p | inr p ↦ unique_after-Has a x xs p ]))
]

insert_down-IsDescending : (v : ℕ) (xs : List ℕ) → IsDescending xs → IsDescending (insert_down v xs)
unfolding insert_down
insert_down-IsDescending v [] h = (tt, tt)
insert_down-IsDescending v (x ∷ xs) h = elim (Bool-cases (ltb v x)) [
  | inl e ↦
      rw e (insert_down-All (λ y. y ≤ x) v xs (ground arith) h.0, insert_down-IsDescending v xs h.1)
  | inr e ↦ rw e ((ground arith, All-imp (λ y. y ≤ x) (λ y. y ≤ v) (λ y p. ground arith) xs h.0), h)
]

sort_down-IsDescending :
    (sorted xs : List ℕ) → IsDescending sorted → IsDescending (sort_down sorted xs)
unfolding sort_down
sort_down-IsDescending sorted [] h = h
sort_down-IsDescending sorted (x ∷ xs) h =
    sort_down-IsDescending (insert_down x sorted) xs (insert_down-IsDescending x sorted h)

rev_append-IsAscending :
    (xs ys : List ℕ)
    → IsDescending xs
    → IsAscending ys
    → All (λ x. All (λ y. x ≤ y) ys) xs
    → IsAscending (rev_append xs ys)
rev_append-IsAscending [] ys h k below = k
rev_append-IsAscending (x ∷ xs) ys h k below =
    rev_append-IsAscending xs (x ∷ ys) h.1 (below.0, k) (both xs h.0 below.1)
  where
    both :
        (zs : List ℕ)
        → All (λ y. y ≤ x) zs
        → All (λ z. All (λ y. z ≤ y) ys) zs
        → All (λ z. All (λ y. z ≤ y) (x ∷ ys)) zs
    both [] p q = tt
    both (z ∷ zs) p q = ((p.0, q.0), both zs p.1 q.1)

unique_after-StrictFrom :
    (y : ℕ) (xs : List ℕ) → IsAscending (y ∷ xs) → StrictFrom y (unique_after (some y) xs)
unfolding unique_after
unique_after-StrictFrom y [] h = tt
unique_after-StrictFrom y (x ∷ xs) h = elim (Bool-cases (y == x)) [
  | inl e ↦ rw e (unique_after-StrictFrom y xs (h.0.1, h.1.1))
  | inr e ↦ rw e (ground arith, unique_after-StrictFrom x xs h.1)
]

edges-Has :
    (rs : List MemoryRegion) → All (λ r. Has r.base (edges rs) × Has (region_end r) (edges rs)) rs
unfolding edges
edges-Has [] = tt
edges-Has (r ∷ rs) = (
  (inl refl, inr (inl refl)),
  All-imp _ _ (λ q h. (inr (inr h.0), inr (inr h.1))) rs (edges-Has rs),
)

edges-All :
    (P : ℕ → Type 0) (rs : List MemoryRegion)
    → All (λ r. P r.base × P (region_end r)) rs
    → All P (edges rs)
unfolding edges
edges-All P [] h = tt
edges-All P (r ∷ rs) h = (h.0.0, (h.0.1, edges-All P rs h.1))

-- What the sweep needs to know of the boundaries.
pub record IsGrid (m : MemoryMap) (start : ℕ) (ends : List ℕ) : Type 0 where
  pub strict : StrictFrom start ends
  pub complete :
      All
        (λ r.
          ((r.base ≡ start) ⊎ Has r.base ends) × ((region_end r ≡ start) ⊎ Has (region_end r) ends))
        m.regions
  pub small : All (λ x. x < u64_mod) (start ∷ ends)

-- The empty map has no boundaries; any other has a first one and a grid from there.
abbrev pub Boundaries : MemoryMap → List ℕ → Type 0
Boundaries m [] = m.regions ≡ []
Boundaries m (start ∷ ends) = IsGrid m start ends

grid_of :
    (m : MemoryMap) (xs : List ℕ)
    → IsAscending xs
    → All (λ x. x < u64_mod) xs
    → All (λ r. Has r.base xs × Has (region_end r) xs) m.regions
    → Boundaries m (unique_after none xs)
unfolding unique_after
grid_of m [] asc small has = none_left m.regions has
  where
    none_left : (rs : List MemoryRegion) → All (λ r. ⊥ × ⊥) rs → rs ≡ []
    none_left [] h = refl
    none_left (r ∷ rs) h = absurd h.0.0
grid_of m (x ∷ xs) asc small has = record {
  strict = unique_after-StrictFrom x xs asc;
  complete = All-imp _ _ (λ r h. (place h.0, place h.1)) m.regions has;
  small = (small.0, unique_after-All (λ y. y < u64_mod) (some x) xs small.1);
}
  where
    place : {a : ℕ} → Has a (x ∷ xs) → (a ≡ x) ⊎ Has a (unique_after (some x) xs)
    place (inl p) = inl p
    place {a} (inr p) = unique_after-Has a x xs p

pub collect_boundaries-Boundaries :
    (m : MemoryMap) → All IsRegion m.regions → Boundaries m (collect_boundaries m)
unfolding collect_boundaries
collect_boundaries-Boundaries m w =
    grid_of m (rev_append sorted [])
      (rev_append-IsAscending sorted [] (sort_down-IsDescending [] (edges m.regions) tt) tt
        (All-imp (λ x. x < u64_mod) (λ x. Unit) (λ x h. tt) sorted sorted_small))
      (All-rev_append (λ x. x < u64_mod) sorted [] sorted_small tt)
      (All-imp _ _ (λ r h. (kept r.base h.0, kept (region_end r) h.1)) m.regions
        (edges-Has m.regions))
  where
    sorted : List ℕ
    sorted = sort_down [] (edges m.regions)

    small : (r : MemoryRegion) → IsRegion r → (r.base < u64_mod) × (region_end r < u64_mod)
    small r h = (omega arith, omega arith)

    sorted_small : All (λ x. x < u64_mod) sorted
    sorted_small =
        sort_down-All (λ x. x < u64_mod) [] (edges m.regions) tt
          (edges-All (λ x. x < u64_mod) m.regions (All-imp IsRegion _ small m.regions w))

    kept : (a : ℕ) → Has a (edges m.regions) → Has a (rev_append sorted [])
    kept a h = rev_append-Has a sorted [] (inl (sort_down-Has a [] (edges m.regions) (inr h)))
