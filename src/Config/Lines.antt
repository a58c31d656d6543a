-- ===== src/Config/Lines.antt =====
-- The loop over the lines comes to an end: more rounds than there are bytes change nothing.
use mathlib.Core.Path.{subst}
use tunix_boot.Prelude.{
  ℕ, zero, suc, ◌+◌, ◌-◌, ◌≡◌, ◌≤◌, ◌<◌, inl, inr, refl, sym, ◌∙◌, not, ◌&&◌, List, arith, length,
  ltb, ◌==◌, get_or, Bool-cases,
}
use tunix_boot.Util.Str.{str_trim}
use tunix_boot.Config.{Config, Outcome, ok, refused, line_end, next_line, take_line, config_lines}

line_end-bounds :
    (more : ℕ) (text : List ℕ) (end : ℕ)
    → end ≤ length text
    → (end ≤ line_end more text end) × (line_end more text end ≤ length text)
unfolding line_end
line_end-bounds zero text end le = (omega arith, le)
line_end-bounds (suc more) text end le =
    elim (Bool-cases (ltb end (length text) && not (get_or text end 0 == 10))) [
      | inr stop ↦ rw stop (omega arith, le)
      | inl go ↦
          let r : (end + 1 ≤ line_end more text (end + 1))
              × (line_end more text (end + 1) ≤ length text) =
            line_end-bounds more text (end + 1) (ground (arith, go)) in
          rw go (omega (arith, r), r.1)
    ]

next_line-moves :
    (text : List ℕ) (offset : ℕ)
    → offset < length text
    → (offset < (next_line text offset).1) × ((next_line text offset).1 ≤ length text)
unfolding next_line
next_line-moves text offset lt =
    let (low, high) = line_end-bounds (length text - offset) text offset (omega arith) in
    (ground (arith, low, high), ground (arith, low, high))

config_lines-done :
    (fuel : ℕ) (text : List ℕ) (offset n : ℕ) (c : Config)
    → length text ≤ offset
    → config_lines fuel text offset n c ≡ ok c
unfolding config_lines
config_lines-done zero text offset n c le = refl
config_lines-done (suc fuel) text offset n c le = ground arith

-- What the loop does with the outcome of a line, with `fuel` rounds to go.
abbrev following : ℕ → List ℕ → ℕ → ℕ → Outcome Config → Outcome Config
following fuel text offset n (refused line reason) = refused line reason
following fuel text offset n (ok out) = config_lines fuel text offset n out

config_lines-more :
    (fuel rounds : ℕ) (text : List ℕ) (offset n : ℕ) (c : Config)
    → rounds ≡ suc fuel
    → offset < length text
    → config_lines rounds text offset n c
      ≡ following fuel text
          (next_line text offset).1
          (n + 1)
          (take_line c (str_trim (next_line text offset).0) (n + 1))
unfolding config_lines
config_lines-more fuel zero text offset n c e lt = absurd (omega arith)
config_lines-more fuel (suc rounds) text offset n c e lt =
    let same : rounds ≡ fuel = omega arith in
    subst
      (λ f.
        config_lines (suc rounds) text offset n c
        ≡ following f text (next_line text offset).1 (n + 1)
            (take_line c (str_trim (next_line text offset).0) (n + 1)))
      same (of_line (take_line c (str_trim (next_line text offset).0) (n + 1)) refl)
  where
    of_line :
        (o : Outcome Config)
        → take_line c (str_trim (next_line text offset).0) (n + 1) ≡ o
        → config_lines (suc rounds) text offset n c
          ≡ following rounds text
              (next_line text offset).1
              (n + 1)
              (take_line c (str_trim (next_line text offset).0) (n + 1))
    of_line (ok out) same = ground (arith, same)
    of_line (refused line reason) same = ground (arith, same)

-- Any number of rounds from the number of bytes that are left on gives the same result.
pub config_lines_enough :
    (fuel more : ℕ) (text : List ℕ) (offset n : ℕ) (c : Config)
    → length text ≤ offset + fuel
    → offset ≤ length text
    → config_lines (fuel + more) text offset n c ≡ config_lines fuel text offset n c
config_lines_enough zero more text offset n c enough le =
    config_lines-done (0 + more) text offset n c (omega arith)
    ∙ sym (config_lines-done 0 text offset n c (omega arith))
config_lines_enough (suc fuel) more text offset n c enough le =
    elim (Bool-cases (ltb offset (length text))) [
      | inr done ↦
          config_lines-done (suc fuel + more) text offset n c (ground (arith, done))
          ∙ sym (config_lines-done (suc fuel) text offset n c (ground (arith, done)))
      | inl further ↦
          let lt : offset < length text = ground (arith, further) in
          let (moved, inside) = next_line-moves text offset lt in
          config_lines-more (fuel + more) (suc fuel + more) text offset n c (omega arith) lt
          ∙ same_following
              (λ c'.
                config_lines_enough fuel more text (next_line text offset).1 (n + 1) c'
                  (omega (arith, moved, enough)) inside)
              (take_line c (str_trim (next_line text offset).0) (n + 1))
          ∙ sym (config_lines-more fuel (suc fuel) text offset n c refl lt)
    ]
  where
    same_following :
        ((c' : Config)
          → config_lines (fuel + more) text (next_line text offset).1 (n + 1) c'
            ≡ config_lines fuel text (next_line text offset).1 (n + 1) c')
        → (o : Outcome Config)
        → following (fuel + more) text (next_line text offset).1 (n + 1) o
          ≡ following fuel text (next_line text offset).1 (n + 1) o
    same_following later (ok c') = later c'
    same_following later (refused line reason) = refl
