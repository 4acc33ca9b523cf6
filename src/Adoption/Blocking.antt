-- ===== src/Adoption/Blocking.antt =====
-- hub/coherence/adoption.py: `blocked` and the enforcements that the verdict shows.
use dev_gate_agentic_framewo.Common.{ℕ, ◌≡◌, refl, String, Bool, List, [], ◌∷◌, any, ◌||◌, arith}
use dev_gate_agentic_framewo.Ledger.{
  Row, Finding, Outcome, satisfied, violated, unresolved, is_block,
}
use dev_gate_agentic_framewo.Adoption.Shelter.{
  Ladder, enforce_as, enforce, enforce_findings, print_finding,
}
use dev_gate_agentic_framewo.Adoption.Mirror.{mirror, findings_of, enforce_outcome, enforce_ledger}
use dev_gate_agentic_framewo.Adoption.Evaluate.{Verdict, apply_ladder}

abbrev pub finding_blocks : Finding → Bool
finding_blocks f = is_block f.enforcement

abbrev pub row_blocks : Row → Bool
row_blocks e = is_block e.enforcement

enforce_as-flag :
    (l : Ladder) (fp : String) (f : Finding)
    → (enforce_as l fp f).1 ≡ finding_blocks (enforce_as l fp f).0
unfolding enforce_as
enforce_as-flag l fp f = ground arith

pub enforce_findings-flag :
    (l : Ladder) (fs : List Finding)
    → (enforce_findings l fs).1 ≡ any finding_blocks (enforce_findings l fs).0
unfolding enforce_findings enforce
enforce_findings-flag l [] = refl
enforce_findings-flag l (f ∷ fs) =
    rw (enforce_as-flag l (print_finding l f) f, enforce_findings-flag l fs)

mirror-flag : (fs : List Finding) (e : Row) → (mirror fs e).1 ≡ row_blocks (mirror fs e).0
unfolding mirror
mirror-flag [] e = refl
mirror-flag (f ∷ fs) e = refl

enforce_outcome-flag :
    (stage : ℕ) (fs : List Finding) (o : Outcome) (e : Row)
    → (enforce_outcome stage fs o e).1 ≡ row_blocks (enforce_outcome stage fs o e).0
unfolding enforce_outcome
enforce_outcome-flag stage fs satisfied e = refl
enforce_outcome-flag stage fs violated e = mirror-flag (findings_of e.assertion_id fs) e
enforce_outcome-flag stage fs unresolved e = refl

enforce_ledger-flag :
    (stage : ℕ) (fs : List Finding) (es : List Row)
    → (enforce_ledger stage fs es).1 ≡ any row_blocks (enforce_ledger stage fs es).0
unfolding enforce_ledger
enforce_ledger-flag stage fs [] = refl
enforce_ledger-flag stage fs (e ∷ es) =
    rw (enforce_outcome-flag stage fs e.outcome e, enforce_ledger-flag stage fs es)

-- The ladder's verdict blocks exactly when the findings or the rows that it returns show a BLOCK:
-- no block is hidden from the report, and none is reported without blocking.
pub apply_ladder-blocked :
    (l : Ladder) (ledger : List Row) (findings : List Finding)
    → let v : Verdict = apply_ladder l ledger findings in
      v.blocked ≡ (any finding_blocks v.findings || any row_blocks v.ledger)
unfolding apply_ladder
apply_ladder-blocked l ledger findings = rw (
  enforce_findings-flag l findings,
  enforce_ledger-flag l.stage (enforce_findings l findings).0 ledger,
)
