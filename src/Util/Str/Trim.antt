-- ===== src/Util/Str/Trim.antt =====
-- `str_trim` cuts off exactly the white space at both ends.
use native.Mathlib.Decide.{ℕ_discrete}
use tunix_boot.Prelude.{
  ℕ, zero, suc, ◌+◌, ◌-◌, ◌≡◌, ◌<◌, ◌≤◌, inl, inr, ap, ◌∙◌, Bool, true, false, arith, ltb,
  if◌then◌else◌, length, get_or, Bool-cases,
}
use tunix_boot.Prelude.Slices.{slice}
use tunix_boot.Util.Str.{Str, is_space, skip_spaces, drop_spaces, str_slice, str_trim}

abbrev space_at : Str → ℕ → Bool
space_at text i = is_space (get_or text i 0)

-- `out` is the text from `start` to `finish`: only white space is before and behind it, and it
-- neither begins nor ends with white space.
pub record IsTrimmed (text out : Str) : Type 0 where
  pub start : ℕ
  pub finish : ℕ
  pub ordered : start ≤ finish
  pub inside : finish ≤ length text
  pub part : out ≡ slice text start (finish - start)
  pub before : (i : ℕ) → i < start → is_space (get_or text i 0) ≡ true
  pub behind : (i : ℕ) → finish ≤ i → i < length text → is_space (get_or text i 0) ≡ true
  pub first : start < finish → is_space (get_or text start 0) ≡ false
  pub last : start < finish → is_space (get_or text (finish - 1) 0) ≡ false

record Skips (text : Str) (from limit out : ℕ) : Type 0 where
  low : from ≤ out
  high : out ≤ limit
  passed : (i : ℕ) → from ≤ i → i < out → space_at text i ≡ true
  stopped : out < limit → space_at text out ≡ false

skip_spaces-Skips :
    (more : ℕ) (text : Str) (from limit : ℕ)
    → from + more ≡ limit
    → Skips text from limit (skip_spaces more text from)
unfolding skip_spaces
skip_spaces-Skips zero text from limit e = record {
  low = omega arith;
  high = omega arith;
  passed = λ i le lt. absurd (omega arith);
  stopped = λ lt. absurd (omega arith);
}
skip_spaces-Skips (suc more) text from limit e = elim (Bool-cases (space_at text from)) [
  | inr stop ↦ rw stop (record {
    low = omega arith;
    high = omega arith;
    passed = λ i le lt. absurd (omega arith);
    stopped = λ lt. stop;
  })
  | inl go ↦
      let r : Skips text (from + 1) limit (skip_spaces more text (from + 1)) =
        skip_spaces-Skips more text (from + 1) limit (omega arith) in
      rw go (record {
        low = omega (arith, r.low);
        high = r.high;
        passed = λ i le lt. elim (ℕ_discrete i from) [
          | yes same ↦ ap (space_at text) same ∙ go
          | no other ↦ r.passed i (omega arith) lt
        ];
        stopped = r.stopped;
      })
]

record Drops (text : Str) (low from out : ℕ) : Type 0 where
  above : low ≤ out
  below : out ≤ from
  passed : (i : ℕ) → out ≤ i → i < from → space_at text i ≡ true
  stopped : low < out → space_at text (out - 1) ≡ false

drop_spaces-Drops :
    (more : ℕ) (text : Str) (low from : ℕ)
    → low + more ≡ from
    → Drops text low from (drop_spaces more text from)
unfolding drop_spaces
drop_spaces-Drops zero text low from e = record {
  above = omega arith;
  below = omega arith;
  passed = λ i le lt. absurd (omega arith);
  stopped = λ lt. absurd (omega arith);
}
drop_spaces-Drops (suc more) text low from e = elim (Bool-cases (space_at text (from - 1))) [
  | inr stop ↦ rw stop (record {
    above = omega arith;
    below = omega arith;
    passed = λ i le lt. absurd (omega arith);
    stopped = λ lt. stop;
  })
  | inl go ↦
      let r : Drops text low (from - 1) (drop_spaces more text (from - 1)) =
        drop_spaces-Drops more text low (from - 1) (omega arith) in
      rw go (record {
        above = r.above;
        below = omega (arith, r.below);
        passed = λ i le lt. elim (ℕ_discrete i (from - 1)) [
          | yes same ↦ ap (space_at text) same ∙ go
          | no other ↦ r.passed i le (omega arith)
        ];
        stopped = r.stopped;
      })
]

str_slice-eq-slice :
    (text : Str) (start finish : ℕ)
    → start ≤ finish
    → finish ≤ length text
    → str_slice text start (finish - start) ≡ slice text start (finish - start)
unfolding str_slice
str_slice-eq-slice text start finish le inside =
    let e : (if ltb (finish - start) (length text - start)
          then finish - start
          else length text - start)
        ≡ finish - start =
      ground arith in
    ground (arith, e)

-- `str_trim` returns the text without the white space at both ends, and no less of it.
pub str_trim-IsTrimmed : (text : Str) → IsTrimmed text (str_trim text)
str_trim-IsTrimmed text = record {
  start = s;
  finish = f;
  ordered = d.above;
  inside = d.below;
  part = unfold str_trim in str_slice-eq-slice text s f d.above d.below;
  before = λ i lt. r.passed i (omega arith) lt;
  behind = d.passed;
  first = λ lt. r.stopped (omega (arith, lt, d.below));
  last = d.stopped;
}
  where
    s : ℕ
    s = skip_spaces (length text) text 0

    r : Skips text 0 (length text) s
    r = skip_spaces-Skips (length text) text 0 (length text) (omega arith)

    f : ℕ
    f = drop_spaces (length text - s) text (length text)

    d : Drops text s (length text) f
    d = drop_spaces-Drops (length text - s) text s (length text) (omega (arith, r.high))
