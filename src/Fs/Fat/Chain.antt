-- ===== src/Fs/Fat/Chain.antt =====
-- The chain of clusters that the FAT on the device describes, and `advance` along it.
use mathlib.Core.Path.{subst}
use tunix_boot.Prelude.{
  ℕ, zero, suc, ◌+◌, ◌≡◌, inl, inr, refl, sym, ap, ◌∙◌, Bool, true, false, not, ◌&&◌, Option, none,
  some, arith, if◌then◌else◌, Option-cases,
}
use tunix_boot.Fs.Fat.{
  Geometry, FatVolume, next_cluster, is_end_of_chain, cluster_in_range, good_link, advance_from,
  advance,
}
use tunix_boot.Fs.Fat.Entry.{Succeeded, fat_entry, Holds, Answers, next_cluster-Answers}

-- Whether the entry names a cluster.
abbrev pub is_cluster : Geometry → ℕ → Bool
is_cluster g next = not (is_end_of_chain next) && cluster_in_range g next

abbrev pub only_clusters : Geometry → Option ℕ → Option ℕ
only_clusters g none = none
only_clusters g (some next) = if is_cluster g next then some next else none

-- The cluster that follows.
unfoldable pub link : Geometry → ℕ → Option ℕ
link g cluster = only_clusters g (fat_entry g cluster)

-- The cluster `k` links on.
abbrev pub chain_at : Geometry → ℕ → ℕ → Option ℕ
chain_at g cluster zero = some cluster
chain_at g cluster (suc k) = elim (link g cluster) [ none ↦ none | some next ↦ chain_at g next k ]

pub chain_at-link :
    (g : Geometry) (cluster next k : ℕ)
    → link g cluster ≡ some next
    → chain_at g cluster (suc k) ≡ chain_at g next k
chain_at-link g cluster next k e = ground (arith, e)

pub link-fat_entry :
    (g : Geometry) (cluster next : ℕ)
    → fat_entry g cluster ≡ some next
    → is_cluster g next ≡ true
    → link g cluster ≡ some next
unfolding link
link-fat_entry g cluster next e good = ground (arith, e, good)

pub link-eq-some :
    (g : Geometry) (cluster next : ℕ)
    → link g cluster ≡ some next
    → (fat_entry g cluster ≡ some next) × (is_cluster g next ≡ true)
unfolding link
link-eq-some g cluster next e = elim (Option-cases (fat_entry g cluster)) [
  | inl ends ↦ absurd (ground (arith, ends, e))
  | inr (entry, f) ↦ (ground (arith, f, e), ground (arith, f, e))
]

-- A chain from a link of another one is the rest of that one.
pub chain_at-add :
    (g : Geometry) (cluster i k mid : ℕ)
    → chain_at g cluster i ≡ some mid
    → chain_at g cluster (i + k) ≡ chain_at g mid k
chain_at-add g cluster zero k mid e =
    let same : cluster ≡ mid = cc in
    let at : 0 + k ≡ k = omega arith in ap (chain_at g cluster) at ∙ ap (λ c. chain_at g c k) same
chain_at-add g cluster (suc i) k mid e = elim (Option-cases (link g cluster)) [
  | inl ends ↦ absurd (ground (arith, ends, e))
  | inr (next, l) ↦
      let same : suc i + k ≡ suc (i + k) = omega arith in
      ap (chain_at g cluster) same
      ∙ chain_at-link g cluster next (i + k) l
      ∙ chain_at-add g next i k mid (sym (chain_at-link g cluster next i l) ∙ e)
]

-- What `advance` leaves.
pub record Advances (v : FatVolume) (cluster count : ℕ) (result : Option ℕ × FatVolume)
    : Type 0 where
  pub reached : (c : ℕ) → result.0 ≡ some c → chain_at v.geometry cluster count ≡ some c
  pub same : result.1.geometry ≡ v.geometry
  pub holds : Succeeded result.0 → Holds result.1

advance_from-Advances :
    (count steps cluster : ℕ) (v : FatVolume)
    → Holds v
    → Advances v cluster count (advance_from count steps cluster v)
unfolding advance_from
advance_from-Advances zero steps cluster v h = record {
  reached = λ c e. e;
  same = refl;
  holds = λ _. h;
}
advance_from-Advances (suc count) steps cluster v h =
    of_next (λ w hw next. advance_from-Advances count (steps + 1) next w hw)
      (next_cluster cluster v) (next_cluster-Answers v cluster h)
  where
    of_next :
        ((w : FatVolume)
          → Holds w
          → (next : ℕ) → Advances w next count (advance_from count (steps + 1) next w))
        → (r : Option ℕ × FatVolume) → Answers v (fat_entry v.geometry cluster) r
        → Advances v cluster (suc count) (elim r.0 as (λ _. Option ℕ × FatVolume) [
          | none ↦ (none, r.1)
          | some next ↦ elim (good_link v.geometry steps next) [
            | false ↦ (none, r.1)
            | true ↦ advance_from count (steps + 1) next r.1
          ]
        ])
    of_next later (none, w) a = record {
      reached = λ c e. absurd cc;
      same = a.same;
      holds = λ z. absurd z;
    }
    of_next later (some next, w) a = of_test (good_link v.geometry steps next) refl
      where
        of_test :
            (b : Bool)
            → good_link v.geometry steps next ≡ b
            → Advances v cluster (suc count) (elim b as (λ _. Option ℕ × FatVolume) [
              | false ↦ (none, w)
              | true ↦ advance_from count (steps + 1) next w
            ])
        of_test false e = record {
          reached = λ c e. absurd cc;
          same = a.same;
          holds = λ z. absurd z;
        }
        of_test true e =
            let r = later w (a.holds tt) next in
            let l : link v.geometry cluster ≡ some next =
              link-fat_entry v.geometry cluster next (sym a.answer) (ground (arith, e)) in
            record {
              reached = λ c d.
                  chain_at-link v.geometry cluster next count l
                  ∙ subst (λ (g : Geometry). chain_at g next count ≡ some c) a.same (r.reached c d);
              same = r.same ∙ a.same;
              holds = r.holds;
            }

-- `advance` stays on the chain that the FAT on the device describes.
pub advance-Advances :
    (v : FatVolume) (cluster count : ℕ)
    → Holds v
    → Advances v cluster count (advance cluster count v)
unfolding advance
advance-Advances v cluster count h = advance_from-Advances count 0 cluster v h
