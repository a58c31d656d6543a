-- ===== src/Fs/Fat/Clusters.antt =====
-- The loop of `read_chain`: one round of it, what a success returns, and that it ends.
use mathlib.Core.Path.{subst}
use tunix_boot.Prelude.{
  ℕ, zero, suc, ◌+◌, ◌-◌, ◌≡◌, ◌≢◌, ◌≤◌, ◌<◌, inl, inr, refl, sym, ap, ◌∙◌, true, false, not, ◌&&◌,
  Option, none, some, List, ◌++◌, arith, length, length-append, leb, ◌==◌, Bool-cases, Option-cases,
}
use tunix_boot.Prelude.Branches.{either, either_option, either_option_by}
use tunix_boot.Prelude.Slices.{slice}
use tunix_boot.Util.Checked.{checked_add, checked_mul, checked_add-eq-some, checked_mul-eq-some}
use tunix_boot.Block.Device.Disk.{IsHonest, Returns}
use tunix_boot.Block.Device.Ranges.{block_read_bytes-Returns}
use tunix_boot.Fs.Fat.{
  Geometry, FatVolume, cluster_in_range, cluster_sector, next_cluster, is_end_of_chain, part_of,
  read_part, read_clusters, prepend_first,
}
use tunix_boot.Fs.Fat.Entry.{
  Succeeded, some-Succeeded, fat_entry, Holds, Answers, next_cluster-Answers,
}
use tunix_boot.Fs.Fat.Chain.{link, link-fat_entry}
use tunix_boot.Fs.Fat.Content.{cluster_start, Covers, part-Covers, append-Covers}

pub read_part-Returns :
    (g : Geometry) (disk : List ℕ) (cluster into n : ℕ)
    → IsHonest g.device disk
    → n ≢ 0
    → Returns disk (cluster_start g cluster + into) n (read_part g cluster into n)
unfolding read_part
read_part-Returns g disk cluster into n honest nz ys e =
    elim (Option-cases (checked_mul (cluster_sector g cluster) g.bytes_per_sector)) [
      | inl over ↦ absurd (ground (arith, over, e))
      | inr (start, m) ↦ elim (Option-cases (checked_add start into)) [
        | inl over ↦ absurd (ground (arith, m, over, e))
        | inr (at, s) ↦
            let place : at ≡ cluster_start g cluster + into =
              omega (arith, checked_mul-eq-some _ _ start m, checked_add-eq-some _ _ at s) in
            let (same, inside) =
              block_read_bytes-Returns g.device disk at n honest (λ z. absurd (nz z)) ys
                (ground (arith, m, s, e)) in
            (same ∙ ap (λ t. slice disk t n) place, omega (arith, place, inside))
      ]
    ]

-- One successful round.
data Round (v : FatVolume) (fuel cluster into walked n : ℕ) (out : List ℕ) : Type 0 where
  last :
      cluster_in_range v.geometry cluster ≡ true
      → n ≤ part_of v.geometry into n
      → read_part v.geometry cluster into (part_of v.geometry into n) ≡ some out
      → Round v fuel cluster into walked n out
  more :
      (xs ys : List ℕ) (next : ℕ)
      → cluster_in_range v.geometry cluster ≡ true
      → part_of v.geometry into n < n
      → read_part v.geometry cluster into (part_of v.geometry into n) ≡ some xs
      → (next_cluster cluster v).0 ≡ some next
      → is_end_of_chain next ≡ false
      → (read_clusters fuel next 0
          (walked + 1)
          (n - part_of v.geometry into n)
          (next_cluster cluster v).1).0
        ≡ some ys
      → out ≡ xs ++ ys
      → Round v fuel cluster into walked n out

read_clusters-Round :
    (v : FatVolume) (fuel cluster into walked n : ℕ) (out : List ℕ)
    → (read_clusters (suc fuel) cluster into walked n v).0 ≡ some out
    → Round v fuel cluster into walked n out
unfolding read_clusters
read_clusters-Round v fuel cluster into walked n out e =
    elim (Bool-cases (cluster_in_range v.geometry cluster)) [
      | inr stray ↦ absurd (ground (arith, stray, e))
      | inl proper ↦
          elim (Option-cases (read_part v.geometry cluster into (part_of v.geometry into n))) [
            | inl fails ↦ absurd (ground (arith, proper, fails, e))
            | inr (xs, r) ↦ elim (Bool-cases (n - part_of v.geometry into n == 0)) [
              | inl done ↦ last proper (ground arith) (r ∙ ground (arith, proper, r, done, e))
              | inr left ↦ elim (Option-cases (next_cluster cluster v).0) [
                | inl fails ↦ absurd (ground (arith, proper, r, left, fails, e))
                | inr (next, a) ↦
                    elim (Bool-cases
                      (not (is_end_of_chain next) && leb (walked + 1) v.geometry.cluster_count)) [
                        | inr bad ↦ absurd (ground (arith, proper, r, left, a, bad, e))
                        | inl good ↦
                            elim (Option-cases
                              (read_clusters fuel next 0 (walked + 1)
                                (n - part_of v.geometry into n) (next_cluster cluster v).1).0) [
                                  | inl fails ↦
                                      absurd (ground (arith, proper, r, left, a, good, fails, e))
                                  | inr (ys, rest) ↦
                                      more xs ys next proper (ground arith) r a (ground arith) rest
                                        (ground (arith, proper, r, left, a, good, rest, e))
                                ]
                      ]
              ]
            ]
          ]
    ]

-- The cluster that a successful read begins in has its number in range.
read_clusters_in_range :
    (v : FatVolume) (fuel cluster into walked n : ℕ) (out : List ℕ)
    → (read_clusters fuel cluster into walked n v).0 ≡ some out
    → cluster_in_range v.geometry cluster ≡ true
unfolding read_clusters
read_clusters_in_range v zero cluster into walked n out e = absurd (ground (arith, e))
read_clusters_in_range v (suc fuel) cluster into walked n out e =
    elim (read_clusters-Round v fuel cluster into walked n out e) [
      | last proper _ _ ↦ proper
      | more _ _ _ proper _ _ _ _ _ _ ↦ proper
    ]

module _ (disk : List ℕ) where
  -- What a success returns is the chain from the place on, as many bytes as were asked for.
  pub read_clusters-Covers :
      (v : FatVolume) (fuel cluster into walked n : ℕ) (out : List ℕ)
      → IsHonest v.geometry.device disk
      → Holds v
      → into < v.geometry.cluster_bytes
      → n ≢ 0
      → (read_clusters fuel cluster into walked n v).0 ≡ some out
      → (length out ≡ n) × Covers v.geometry disk cluster into out
  unfolding read_clusters
  read_clusters-Covers v zero cluster into walked n out honest h lt nz e =
      absurd (ground (arith, e))
  read_clusters-Covers v (suc fuel) cluster into walked n out honest h lt nz e =
      elim (read_clusters-Round v fuel cluster into walked n out e) [
        | last proper all r ↦
            let k : ℕ = part_of v.geometry into n in
            let whole : k ≡ n = ground arith in
            let (size, covers) = part-Covers v.geometry disk cluster into k out (ground arith) (
              read_part-Returns v.geometry disk cluster into k honest (λ z. nz (omega arith)) out
                r) in
            (omega arith, covers)
        | more xs ys next proper less r a goes_on rest same ↦
            let g : Geometry = v.geometry in
            let k : ℕ = part_of g into n in
            let full : (into + k ≡ g.cluster_bytes) × (k ≢ 0) = (ground arith, ground arith) in
            let (size, covers) =
              part-Covers g disk cluster into k xs (omega arith)
                (read_part-Returns g disk cluster into k honest full.1 xs r) in
            let b : Answers v (fat_entry g cluster) (next_cluster cluster v) =
              next_cluster-Answers v cluster h in
            let w : FatVolume = (next_cluster cluster v).1 in
            let proper' : cluster_in_range g next ≡ true =
              subst (λ (t : Geometry). cluster_in_range t next ≡ true) b.same
                (read_clusters_in_range w fuel next 0 (walked + 1) (n - k) ys rest) in
            let (size', covers') =
              read_clusters-Covers w fuel next 0 (walked + 1) (n - k) ys
                (subst (λ (t : Geometry). IsHonest t.device disk) (sym b.same) honest)
                (b.holds (some-Succeeded next a))
                (subst (λ (t : Geometry). 0 < t.cluster_bytes) (sym b.same) (omega arith))
                (λ z. omega arith) rest in
            let l : link g cluster ≡ some next =
              link-fat_entry g cluster next (sym b.answer ∙ a) (ground (arith, goes_on, proper')) in
            (
              ap length same ∙ length-append xs ys ∙ omega arith,
              subst (Covers g disk cluster into) (sym same) (
                  append-Covers g disk cluster into next xs ys (omega arith) (omega arith) l covers
                    (subst (λ (t : Geometry). Covers t disk next 0 ys) b.same covers')),
            )
      ]

-- What an action with that answer leaves of the volume: the geometry, and if it succeeded a cache that
-- holds what the device does.
pub record Keeps {ℓ} {A : Type ℓ} (v : FatVolume) (answer : Option A) (w : FatVolume) : Type ℓ where
  pub same : w.geometry ≡ v.geometry
  pub holds : Succeeded answer → Holds w

pub then-Keeps {ℓ} :
    {A : Type ℓ} {answer : Option A} {v w u : FatVolume}
    → w.geometry ≡ v.geometry
    → Keeps w answer u
    → Keeps v answer u
then-Keeps same b = record { same = b.same ∙ same; holds = b.holds }

pub fails-Keeps {ℓ} :
    {A : Type ℓ} {v w : FatVolume} → w.geometry ≡ v.geometry → Keeps {A = A} v none w
fails-Keeps same = record { same = same; holds = λ z. absurd z }

prepend_first-Keeps :
    (bytes : List ℕ) (v : FatVolume) (p : Option (List ℕ) × FatVolume)
    → Keeps v p.0 p.1
    → Keeps v (prepend_first bytes p).0 (prepend_first bytes p).1
prepend_first-Keeps bytes v (none, w) k = fails-Keeps k.same
prepend_first-Keeps bytes v (some xs, w) k = record { same = k.same; holds = λ _. k.holds tt }

-- The loop keeps them.
pub read_clusters-Keeps :
    (fuel cluster into walked n : ℕ) (v : FatVolume)
    → Holds v
    → Keeps v
        (read_clusters fuel cluster into walked n v).0
        (read_clusters fuel cluster into walked n v).1
unfolding read_clusters
read_clusters-Keeps zero cluster into walked n v h = fails-Keeps refl
read_clusters-Keeps (suc fuel) cluster into walked n v h =
    let P : Option (List ℕ) × FatVolume → Type 0 = λ p. Keeps v p.0 p.1 in
    let a = next_cluster-Answers v cluster h in
    either P (cluster_in_range v.geometry cluster)
      (either_option P (read_part v.geometry cluster into (part_of v.geometry into n))
        (fails-Keeps refl)
        (λ xs.
          either P (n - part_of v.geometry into n == 0) (record { same = refl; holds = λ _. h })
            (either_option_by P (next_cluster cluster v).0 (λ _. fails-Keeps a.same)
              (λ next e.
                either P (not (is_end_of_chain next) && leb (walked + 1) v.geometry.cluster_count)
                  (prepend_first-Keeps xs v _ (
                    then-Keeps a.same (
                      read_clusters-Keeps fuel next 0 (walked + 1) (n - part_of v.geometry into n)
                        (next_cluster cluster v).1 (a.holds (some-Succeeded next e)))))
                  (fails-Keeps a.same)))))
      (fails-Keeps refl)
