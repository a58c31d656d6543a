-- ===== src/Fs/Fat/Content.antt =====
-- What the chain of a file holds, byte by byte, independent of how `read_chain` gets there.
use native.Mathlib.Nat.{div-eq_of_lt, mod-eq_of_lt, add-mul-div_right, add-mul-mod_self_right}
use mathlib.Core.Path.{ap₂, subst}
use tunix_boot.Prelude.{
  ℕ, zero, suc, ◌+◌, ◌-◌, ◌*◌, ◌/◌, ◌%◌, ◌≡◌, ◌≤◌, ◌<◌, inl, inr, refl, sym, ap, ◌∙◌, some, List,
  [], ◌∷◌, ◌++◌, arith, length, length-append, get_or, ltb, Bool-cases,
}
use tunix_boot.Prelude.Slices.{slice, length-slice, get_or-slice}
use tunix_boot.Fs.Fat.{Geometry, cluster_sector}
use tunix_boot.Fs.Fat.Chain.{chain_at, chain_at-add, chain_at-link, link}

-- Where the bytes of a cluster begin on the disk.
abbrev pub cluster_start : Geometry → ℕ → ℕ
cluster_start g cluster = cluster_sector g cluster * g.bytes_per_sector

-- Byte `at` of the chain from `first`: it stands in the cluster that many links on.
pub record ByteAt (g : Geometry) (disk : List ℕ) (first at byte : ℕ) : Type 0 where
  pub cluster : ℕ
  pub reached : chain_at g first (at / g.cluster_bytes) ≡ some cluster
  pub inside : cluster_start g cluster + at % g.cluster_bytes < length disk
  pub stored : byte ≡ get_or disk (cluster_start g cluster + at % g.cluster_bytes) 0

-- The bytes are those of the chain from the offset on.
abbrev pub Covers : Geometry → List ℕ → ℕ → ℕ → List ℕ → Type 0
Covers g disk first offset bytes =
    (i : ℕ) → i < length bytes → ByteAt g disk first (offset + i) (get_or bytes i 0)

get_or-append-left :
    (xs ys : List ℕ) (i : ℕ) → i < length xs → get_or (xs ++ ys) i 0 ≡ get_or xs i 0
get_or-append-left [] ys i h = absurd (omega arith)
get_or-append-left (x ∷ xs) ys zero h = refl
get_or-append-left (x ∷ xs) ys (suc i) h = get_or-append-left xs ys i (omega arith)

get_or-append-right : (xs ys : List ℕ) (i : ℕ) → get_or (xs ++ ys) (length xs + i) 0 ≡ get_or ys i 0
get_or-append-right [] ys i = let e : 0 + i ≡ i = omega arith in ap (λ j. get_or ys j 0) e
get_or-append-right (x ∷ xs) ys i =
    let e : suc (length xs) + i ≡ suc (length xs + i) = omega arith in
    ap (λ j. get_or (x ∷ (xs ++ ys)) j 0) e ∙ get_or-append-right xs ys i

module _ (g : Geometry) (disk : List ℕ) where
  abbrev cb : ℕ
  cb = g.cluster_bytes

  -- The bytes of one cluster.
  pub part-Covers :
      (cluster into n : ℕ) (xs : List ℕ)
      → into + n ≤ cb
      → (xs ≡ slice disk (cluster_start g cluster + into) n)
        × (cluster_start g cluster + into + n ≤ length disk)
      → (length xs ≡ n) × Covers g disk cluster into xs
  part-Covers cluster into n xs h (same, inside) =
      let size : length xs ≡ n =
        ap length same ∙ length-slice disk (cluster_start g cluster + into) n inside in
      (
        size,
        λ i lt.
            let here : (into + i) / cb ≡ 0 = div-eq_of_lt (omega arith) in
            let rest : (into + i) % cb ≡ into + i = mod-eq_of_lt (omega arith) in
            record {
              cluster = cluster;
              reached = ap (chain_at g cluster) here;
              inside = omega arith;
              stored =
                  ap (λ t. get_or t i 0) same
                  ∙ get_or-slice disk (cluster_start g cluster + into) n i 0 (omega arith)
                  ∙ (let e : cluster_start g cluster + into + i
                          ≡ cluster_start g cluster + (into + i) % cb =
                        omega arith in
                      ap (λ j. get_or disk j 0) e);
            },
      )

  -- A byte behind a link of the chain.
  later-ByteAt :
      (first k mid at whole byte : ℕ)
      → 0 < cb
      → chain_at g first k ≡ some mid
      → whole ≡ at + k * cb
      → ByteAt g disk mid at byte
      → ByteAt g disk first whole byte
  later-ByteAt first k mid at whole byte pos c e b =
      let far : whole / cb ≡ k + at / cb =
        omega (arith, ap (λ t. t / cb) e, add-mul-div_right at k pos) in
      let same : at % cb ≡ whole % cb =
        omega (arith, ap (λ t. t % cb) e, add-mul-mod_self_right at k cb) in
      let place : cluster_start g b.cluster + at % cb ≡ cluster_start g b.cluster + whole % cb =
        omega (arith, same) in
      record {
        cluster = b.cluster;
        reached = ap (chain_at g first) far ∙ chain_at-add g first k (at / cb) mid c ∙ b.reached;
        inside = omega (arith, place, b.inside);
        stored = b.stored ∙ ap (λ j. get_or disk j 0) place;
      }

  pub later-Covers :
      (first k mid into offset : ℕ) (xs : List ℕ)
      → 0 < cb
      → chain_at g first k ≡ some mid
      → offset ≡ into + k * cb
      → Covers g disk mid into xs
      → Covers g disk first offset xs
  later-Covers first k mid into offset xs pos c e covers i lt =
      later-ByteAt first k mid (into + i) (offset + i) _ pos c (omega arith) (covers i lt)

  -- The end of a cluster, then the chain from the next one on.
  pub append-Covers :
      (cluster into next : ℕ) (xs ys : List ℕ)
      → 0 < cb
      → into + length xs ≡ cb
      → link g cluster ≡ some next
      → Covers g disk cluster into xs
      → Covers g disk next 0 ys
      → Covers g disk cluster into (xs ++ ys)
  append-Covers cluster into next xs ys pos full l here there i lt =
      elim (Bool-cases (ltb i (length xs))) [
        | inl near_by ↦
            let near : i < length xs = ground arith in
            subst (ByteAt g disk cluster (into + i)) (sym (get_or-append-left xs ys i near))
              (here i near)
        | inr far ↦
            let le : length xs ≤ i = ground arith in
            let j : ℕ = i - length xs in
            let at : length xs + j ≡ i = omega arith in
            let value : get_or ys j 0 ≡ get_or (xs ++ ys) i 0 =
              sym (get_or-append-right xs ys j) ∙ ap (λ t. get_or (xs ++ ys) t 0) at in
            subst (ByteAt g disk cluster (into + i)) value (
              later-ByteAt cluster 1 next (0 + j) (into + i) _ pos
                (chain_at-link g cluster next 0 l) (omega arith)
                (there j (omega (arith, length-append xs ys))))
      ]

  -- Two readings of the same bytes agree.
  ByteAt-unique : (first at a b : ℕ) → ByteAt g disk first at a → ByteAt g disk first at b → a ≡ b
  ByteAt-unique first at a b x y =
      let same : x.cluster ≡ y.cluster = (let e = sym x.reached ∙ y.reached in cc) in
      x.stored ∙ ap (λ c. get_or disk (cluster_start g c + at % cb) 0) same ∙ sym y.stored

ext-get_or :
    (xs ys : List ℕ)
    → length xs ≡ length ys
    → ((i : ℕ) → i < length xs → get_or xs i 0 ≡ get_or ys i 0)
    → xs ≡ ys
ext-get_or [] [] e same = refl
ext-get_or [] (y ∷ ys) e same = absurd (omega arith)
ext-get_or (x ∷ xs) [] e same = absurd (omega arith)
ext-get_or (x ∷ xs) (y ∷ ys) e same =
    ap₂ ◌∷◌ (same 0 (omega arith))
      (ext-get_or xs ys (omega arith) (λ i lt. same (suc i) (omega arith)))

-- The bytes of a chain are determined by the device, the first cluster and the range.
pub Covers-unique :
    (g : Geometry) (disk : List ℕ) (first offset : ℕ) (xs ys : List ℕ)
    → length xs ≡ length ys
    → Covers g disk first offset xs
    → Covers g disk first offset ys
    → xs ≡ ys
Covers-unique g disk first offset xs ys e a b =
    ext-get_or xs ys e
      (λ i lt. ByteAt-unique g disk first (offset + i) _ _ (a i lt) (b i (omega arith)))
