-- ===== src/Protocol/Scan.antt =====
-- The scan of `protocol_answer` over the image.
use native.Mathlib.Nat.{lt-div-mul-add}
use mathlib.Core.Path.{subst}
use tunix_boot.Prelude.{
  ℕ, zero, suc, ◌+◌, ◌-◌, ◌*◌, ◌/◌, ◌≡◌, ◌≢◌, ◌≤◌, ◌<◌, refl, sym, ap, ◌∙◌, true, false, ◌&&◌,
  Option, none, some, List, [], ◌∷◌, arith, All, length, ltb, leb, ◌==◌,
}
use tunix_boot.Prelude.Branches.{either_by, either_option_by}
use tunix_boot.Prelude.Word.{u64_mod, add64}
use tunix_boot.Protocol.{BootFacts, Handover, answer, is_request, answer_from, protocol_answer}
use tunix_boot.Protocol.Placed.{IsPlaced}
use tunix_boot.Protocol.Answered.{Leaves, answer-Leaves}

-- How a scan ends: all of the image is behind it, there is one request too many, or an answer failed.
pub data Outcome : Type 0 where
  all_met too_many refused : Outcome

-- The requests of an image that a scan from an offset meets: it goes 8 bytes on where there is none,
-- and behind a request where there is one.
pub data Scans (image : ℕ → ℕ) (last : ℕ) : Outcome → ℕ → List ℕ → Type 0 where
  scanned : (offset : ℕ) → last < offset → Scans image last all_met offset []
  one_more :
      (offset : ℕ)
      → offset ≤ last
      → is_request image offset ≡ true
      → Scans image last too_many offset []
  gave_up : (offset : ℕ) → Scans image last refused offset []
  passed :
      (outcome : Outcome) (offset : ℕ) (found : List ℕ)
      → offset ≤ last
      → is_request image offset ≡ false
      → Scans image last outcome (offset + 8) found
      → Scans image last outcome offset found
  met :
      (outcome : Outcome) (offset : ℕ) (found : List ℕ)
      → offset ≤ last
      → is_request image offset ≡ true
      → Scans image last outcome (offset + 40) found
      → Scans image last outcome offset (offset ∷ found)

-- Answering the requests in their order, each in the state that the one before it has left, with so
-- many answered before. It fails at the first answer that fails, or with 64 behind it.
pub data Answering (facts : BootFacts)
    : ℕ → Handover → List ℕ → Outcome → Option ℕ × Handover → Type 0 where
  answered_all : (n : ℕ) (s : Handover) → Answering facts n s [] all_met (some n, s)
  had_enough : (s : Handover) → Answering facts 64 s [] too_many (none, s)
  fails :
      (n : ℕ) (s : Handover) (request : ℕ)
      → (answer request facts s).0 ≡ none
      → Answering facts n s (request ∷ []) refused (none, (answer request facts s).1)
  answers :
      (n : ℕ) (s : Handover) (request : ℕ) (rest : List ℕ) (outcome : Outcome)
      (r : Option ℕ × Handover)
      → (answer request facts s).0 ≡ some tt
      → Answering facts (n + 1) (answer request facts s).1 rest outcome r
      → Answering facts n s (request ∷ rest) outcome r

is_request_same :
    (image before : ℕ → ℕ) (offset : ℕ)
    → ((p : ℕ) → offset ≤ p → image p ≡ before p)
    → is_request before offset ≡ is_request image offset
is_request_same image before offset same =
    ap (λ t. (t == 0x5449554e49582d31) && (before (offset + 8) == 0x424f4f54503a3031))
      (sym (same offset (omega arith)))
    ∙ ap (λ t. (image offset == 0x5449554e49582d31) && (t == 0x424f4f54503a3031))
        (sym (same (offset + 8) (omega arith)))

-- A scan sees nothing of the image in front of where it begins.
rescan :
    (image before : ℕ → ℕ) (last : ℕ) (outcome : Outcome) (offset : ℕ) (found : List ℕ)
    → ((p : ℕ) → offset ≤ p → image p ≡ before p)
    → Scans image last outcome offset found
    → Scans before last outcome offset found
rescan image before last _ _ _ same (gave_up offset) = gave_up offset
rescan image before last _ _ _ same (one_more offset le there) =
    one_more offset le (is_request_same image before offset same ∙ there)
rescan image before last _ _ _ same (scanned offset past) = scanned offset past
rescan image before last _ _ _ same (passed outcome offset found le none_there rest) =
    passed outcome offset found le (is_request_same image before offset same ∙ none_there)
      (rescan image before last outcome (offset + 8) found (λ p low. same p (omega arith)) rest)
rescan image before last _ _ _ same (met outcome offset found le there rest) =
    met outcome offset found le (is_request_same image before offset same ∙ there)
      (rescan image before last outcome (offset + 40) found (λ p low. same p (omega arith)) rest)

-- What the scan from an offset leaves, with `answered` requests behind it.
pub record HandsOver (facts : BootFacts) (s : Handover) (last offset answered : ℕ)
    (r : Option ℕ × Handover) : Type 0 where
  pub found : List ℕ
  pub outcome : Outcome
  pub scans : Scans s.image last outcome offset found
  pub answers : Answering facts answered s found outcome r
  pub count : (n : ℕ) → r.0 ≡ some n → n ≡ answered + length found
  pub few : answered + length found ≤ 64
  pub kept : (p : ℕ) → All (λ request. p ≢ request + 32) found → r.1.image p ≡ s.image p
  pub placed : IsPlaced s → IsPlaced r.1

module _ (facts : BootFacts) (last : ℕ) (small : last + 80 < u64_mod) where
  -- Nothing there, and the scan goes on.
  passed-HandsOver :
      (s : Handover) (offset answered : ℕ) (r : Option ℕ × Handover)
      → offset ≤ last
      → is_request s.image offset ≡ false
      → HandsOver facts s last (offset + 8) answered r
      → HandsOver facts s last offset answered r
  passed-HandsOver s offset answered r le none_there h = record {
    found = h.found;
    outcome = h.outcome;
    scans = passed h.outcome offset h.found le none_there h.scans;
    answers = h.answers;
    count = h.count;
    few = h.few;
    kept = h.kept;
    placed = h.placed;
  }

  -- A request that is answered, and the scan goes on behind it.
  met-HandsOver :
      (s : Handover) (offset answered : ℕ) (r : Option ℕ × Handover)
      → offset ≤ last
      → is_request s.image offset ≡ true
      → (answer offset facts s).0 ≡ some tt
      → Leaves offset s (answer offset facts s).1
      → HandsOver facts (answer offset facts s).1 last (offset + 40) (answered + 1) r
      → HandsOver facts s last offset answered r
  met-HandsOver s offset answered r le there done leaves h = record {
    found = offset ∷ h.found;
    outcome = h.outcome;
    answers = answers answered s offset h.found h.outcome r done h.answers;
    scans = met h.outcome offset h.found le there (
        rescan (answer offset facts s).1.image s.image last h.outcome (offset + 40) h.found
          (λ p low. leaves.kept p (λ e. omega arith)) h.scans);
    count = λ n e. omega (arith, h.count n e);
    few = omega (arith, h.few);
    kept = λ p others. h.kept p others.1 ∙ leaves.kept p others.0;
    placed = λ before. h.placed (leaves.placed before);
  }

  answer_from-HandsOver :
      (fuel offset answered : ℕ) (s : Handover)
      → offset ≤ last + 40
      → last + 40 < offset + fuel * 8
      → answered ≤ 64
      → HandsOver facts s last offset answered (answer_from fuel last offset answered facts s)
  unfolding answer_from
  answer_from-HandsOver zero offset answered s near enough le = absurd (omega arith)
  answer_from-HandsOver (suc fuel) offset answered s near enough le =
      let Q : Option ℕ × Handover → Type 0 = HandsOver facts s last offset answered in
      let t : Handover = (answer offset facts s).1 in
      let leaves = answer-Leaves offset facts s in
      let next : add64 offset 8 ≡ offset + 8 = omega arith in
      either_by Q (leb offset last)
        (λ inside.
          either_by Q (is_request s.image offset)
            (λ there.
              either_by Q (answered == 64)
                (λ full. record {
                  found = [];
                  outcome = too_many;
                  scans = one_more offset (ground (arith, inside)) there;
                  answers =
                      (let e : 64 ≡ answered = ground (arith, full) in
                        subst (λ n. Answering facts n s [] too_many (none, s)) e (had_enough s));
                  count = λ n e. absurd cc;
                  few = omega arith;
                  kept = λ p others. refl;
                  placed = λ h. h;
                })
                (λ room.
                  either_option_by Q (answer offset facts s).0
                    (λ failed. record {
                      found = offset ∷ [];
                      outcome = refused;
                      scans =
                          met refused offset [] (ground (arith, inside)) there
                            (gave_up (offset + 40));
                      answers = fails answered s offset failed;
                      count = λ n e. absurd cc;
                      few = ground (arith, room);
                      kept = λ p others. leaves.kept p others.0;
                      placed = leaves.placed;
                    })
                    (λ done e.
                      let le' : offset ≤ last = ground (arith, inside) in
                      let behind : offset + 40 ≡ add64 (add64 offset 32) 8 = omega (arith, le') in
                      met-HandsOver s offset answered _ le' there e leaves (
                        subst
                          (λ o.
                            HandsOver facts t last (offset + 40) (answered + 1)
                              (answer_from fuel last o (answered + 1) facts t))
                          behind
                          (answer_from-HandsOver fuel (offset + 40) (answered + 1) t
                            (omega (arith, le')) (omega arith) (ground (arith, room)))))))
            (λ none_there.
              let le' : offset ≤ last = ground (arith, inside) in
              passed-HandsOver s offset answered _ le' none_there (
                subst
                  (λ o.
                    HandsOver facts s last (offset + 8) answered
                      (answer_from fuel last o answered facts s))
                  (sym next)
                  (answer_from-HandsOver fuel (offset + 8) answered s (omega (arith, le'))
                    (omega arith) le))))
        (λ past. record {
          found = [];
          outcome = all_met;
          scans = scanned offset (ground (arith, past));
          answers = answered_all answered s;
          count = λ n e. (let same : answered ≡ n = cc in omega (arith, same));
          few = omega arith;
          kept = λ p others. refl;
          placed = λ h. h;
        })

-- `protocol_answer` of an image of 40 bytes at least meets the requests of the image one behind the
-- other and answers them in that order, each in the state that the one before has left. Either it has
-- met all of them and returns their number, at most 64; or there is one more behind 64, and it fails
-- with the state as they have left it; or it fails with the first answer that fails. It changes no
-- word of the image but the responses of the requests that it met, and whatever it returns, what it
-- has placed in the arena lies in the used part of it, apart from one another and from what was placed
-- before. The scan always ends.
pub protocol_answer-HandsOver :
    (bytes : ℕ) (facts : BootFacts) (s : Handover)
    → 40 ≤ bytes
    → bytes + 40 < u64_mod
    → HandsOver facts s (bytes - 40) 0 0 (protocol_answer bytes facts s)
unfolding protocol_answer
protocol_answer-HandsOver bytes facts s big small =
    let long : ltb bytes 40 ≡ false = ground arith in
    rw long (
      answer_from-HandsOver facts (bytes - 40) (omega arith) (suc (bytes / 8)) 0 0 s (omega arith)
        (omega (arith, lt-div-mul-add {a = bytes} {b = 8} (omega arith))) (omega arith))
