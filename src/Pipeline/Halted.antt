-- ===== src/Pipeline/Halted.antt =====
-- hub/coherence/__main__.py: error conditions and the decision of `run`.
use dev_gate_agentic_framewo.Common.{
  ℕ, ◌<◌, ◌≡◌, refl, String, true, false, Option, none, some, is_some, List, [], ◌∷◌, any, arith,
  Bool-cases, inl, inr,
}
use mathlib.Core.Path.{subst}
use dev_gate_agentic_framewo.Common.Result.{ok, >>=-ok, ok_injective}
use dev_gate_agentic_framewo.Ledger.{
  Row, Finding, Enforcement, Reason, Outcome, satisfied, violated, unresolved,
}
use dev_gate_agentic_framewo.Evaluation.{Halt}
use dev_gate_agentic_framewo.Evaluation.Turns.{is_halting, Signs}
use dev_gate_agentic_framewo.Evaluation.Halts.{row_halts, run-Flagged}
use dev_gate_agentic_framewo.Adoption.Sets.{validate_exceptions, cover_of}
use dev_gate_agentic_framewo.Adoption.Mirror.{
  mirror_reason, mirror, enforce_outcome, enforce_ledger, findings_of,
}
use dev_gate_agentic_framewo.Adoption.Evaluate.{Setting, Verdict, apply_ladder, parse_now, evaluate}
use dev_gate_agentic_framewo.Pipeline.{Inputs, exited, run_request}
use dev_gate_agentic_framewo.Pipeline.Codes.{run_request-Decided}

mirror_reason-halting :
    (top : Enforcement) (fs : List Finding) (old : Option Reason)
    → is_halting old ≡ false
    → is_halting (mirror_reason top fs old) ≡ false
mirror_reason-halting top fs old h = ground arith

mirror-halting :
    (fs : List Finding) (e : Row) → row_halts e ≡ false → row_halts (mirror fs e).0 ≡ false
unfolding mirror
mirror-halting [] e h = refl
mirror-halting (f ∷ fs) e h = mirror_reason-halting _ (f ∷ fs) e.reason h

enforce_outcome-halting :
    (stage : ℕ) (fs : List Finding) (o : Outcome) (e : Row)
    → row_halts e ≡ false
    → row_halts (enforce_outcome stage fs o e).0 ≡ false
unfolding enforce_outcome
enforce_outcome-halting stage fs satisfied e h = h
enforce_outcome-halting stage fs violated e h = mirror-halting (findings_of e.assertion_id fs) e h
enforce_outcome-halting stage fs unresolved e h = h

enforce_ledger-halting :
    (stage : ℕ) (fs : List Finding) (es : List Row)
    → any row_halts es ≡ false
    → any row_halts (enforce_ledger stage fs es).0 ≡ false
unfolding enforce_ledger
enforce_ledger-halting stage fs [] h = refl
enforce_ledger-halting stage fs (e ∷ es) h =
    ground (arith, enforce_outcome-halting stage fs e.outcome e, enforce_ledger-halting stage fs es)

evaluate-halting :
    (parse : String → Option ℕ) (s : Setting) (ledger : List Row) (findings : List Finding)
    (v : Verdict)
    → evaluate parse s ledger findings ≡ ok v
    → any row_halts ledger ≡ false
    → any row_halts v.ledger ≡ false
unfolding evaluate apply_ladder
evaluate-halting parse s ledger findings v h clean =
    let (_, h1, _) = >>=-ok (validate_exceptions s.exceptions) h in
    let (_, h2, _) = >>=-ok (parse_now parse s.evaluation_time) h1 in
    let (_, h3, _) = >>=-ok (cover_of parse _ _ s.exceptions) h2 in
    subst (λ (x : Verdict). any row_halts x.ledger ≡ false) (ok_injective h3)
      (enforce_ledger-halting s.stage _ ledger clean)

-- Where the evaluators sign their findings, a run that exits with a decision (below 30: PASS,
-- ADVISORY or FAIL) carries a ledger without a row that was blocked by a dependency, whose evaluator
-- crashed, or whose subject drifted: such a condition is never made advisory.
pub run_request-halting :
    (parse : String → Option ℕ) (i : Inputs) (code : ℕ) (l : Option (List Row))
    → Signs i.engine
    → code < 30
    → run_request parse i ≡ exited code l
    → (rows : List Row) × (l ≡ some rows) × (any row_halts rows ≡ false)
run_request-halting parse i code l signs small h =
    let d = run_request-Decided parse i code l small h in
    (
      d.verdict.ledger,
      d.is_ledger,
      evaluate-halting parse _ d.outcome.ledger d.outcome.findings d.verdict d.is_verdict (
          unflagged d.outcome.ledger d.outcome.error d.no_halt
            (run-Flagged i.engine d.planned d.outcome signs d.is_run)),
    )
  where
    unflagged :
        (es : List Row) (o : Option Halt)
        → o ≡ none
        → (any row_halts es ≡ true → is_some o ≡ true)
        → any row_halts es ≡ false
    unflagged es o n f = elim (Bool-cases (any row_halts es)) [
      | inl h ↦ absurd (ground (arith, f h))
      | inr h ↦ h
    ]
