-- ===== src/Pipeline/Upheld.antt =====
-- hub/coherence/__main__.py: what an exit code of 0 says of every assertion of the package.
use dev_gate_agentic_framewo.Common.{
  ℕ, ◌≡◌, ◌∙◌, refl, sym, String, true, false, Option, none, some, List, [], ◌∷◌, all, contains,
  arith, All, Bool-cases, inl, inr, string_eq, ◌==◌,
}
use mathlib.Core.Path.{subst}
use dev_gate_agentic_framewo.Common.Result.{ok, >>=-ok, ok_injective}
use dev_gate_agentic_framewo.Ledger.{Row, Finding, Outcome, satisfied, violated, unresolved}
use dev_gate_agentic_framewo.Plan.{Assertion, ids, find_assertion, has_duplicates}
use dev_gate_agentic_framewo.Plan.Ordering.{order-Ordered}
use dev_gate_agentic_framewo.Plan.Visits.{IsOwn}
use dev_gate_agentic_framewo.Plan.Admission.{plan_approved}
use dev_gate_agentic_framewo.Pipeline.Codes.{run_request-Decided}
use dev_gate_agentic_framewo.Pipeline.Passes.{plan-order}
use dev_gate_agentic_framewo.Evaluation.Held.{Held, run-Held}
use dev_gate_agentic_framewo.Adoption.Sets.{validate_exceptions, cover_of}
use dev_gate_agentic_framewo.Adoption.Mirror.{mirror, enforce_outcome, enforce_ledger, findings_of}
use dev_gate_agentic_framewo.Adoption.Evaluate.{Setting, Verdict, apply_ladder, parse_now, evaluate}
use dev_gate_agentic_framewo.Decision.{row_satisfied}
use dev_gate_agentic_framewo.Decision.Matrix.{decide-pass_iff}
use dev_gate_agentic_framewo.Pipeline.{Inputs, exited, run_request}

mirror-outcome : (fs : List Finding) (e : Row) → (mirror fs e).0.outcome ≡ e.outcome
unfolding mirror
mirror-outcome [] e = refl
mirror-outcome (f ∷ fs) e = refl

enforce_outcome-outcome :
    (stage : ℕ) (fs : List Finding) (o : Outcome) (e : Row)
    → (enforce_outcome stage fs o e).0.outcome ≡ e.outcome
unfolding enforce_outcome
enforce_outcome-outcome stage fs satisfied e = refl
enforce_outcome-outcome stage fs violated e = mirror-outcome (findings_of e.assertion_id fs) e
enforce_outcome-outcome stage fs unresolved e = refl

-- The ladder makes no row SATISFIED that the run did not.
enforce_ledger-satisfied :
    (stage : ℕ) (fs : List Finding) (es : List Row)
    → all row_satisfied (enforce_ledger stage fs es).0 ≡ all row_satisfied es
unfolding enforce_ledger
enforce_ledger-satisfied stage fs [] = refl
enforce_ledger-satisfied stage fs (e ∷ es) =
    rw (enforce_outcome-outcome stage fs e.outcome e, enforce_ledger-satisfied stage fs es)

evaluate-satisfied :
    (parse : String → Option ℕ) (s : Setting) (ledger : List Row) (findings : List Finding)
    (v : Verdict)
    → evaluate parse s ledger findings ≡ ok v
    → all row_satisfied v.ledger ≡ all row_satisfied ledger
unfolding evaluate apply_ladder
evaluate-satisfied parse s ledger findings v h =
    let (_, h1, _) = >>=-ok (validate_exceptions s.exceptions) h in
    let (_, h2, _) = >>=-ok (parse_now parse s.evaluation_time) h1 in
    let (_, h3, _) = >>=-ok (cover_of parse _ _ s.exceptions) h2 in
    subst (λ (x : Verdict). all row_satisfied x.ledger ≡ all row_satisfied ledger) (ok_injective h3)
      (enforce_ledger-satisfied s.stage _ ledger)

-- An assertion of the same list with another id in front is found as before.
IsOwn-cons :
    (x : Assertion) (xs zs : List Assertion)
    → contains (ids zs) x.id ≡ false
    → All (IsOwn xs) zs
    → All (IsOwn (x ∷ xs)) zs
unfolding find_assertion
IsOwn-cons x xs [] h own = tt
IsOwn-cons x xs (z ∷ zs) h own = (ground (arith, own.0), IsOwn-cons x xs zs (ground arith) own.1)

All-IsOwn : (xs : List Assertion) → has_duplicates (ids xs) ≡ false → All (IsOwn xs) xs
unfolding find_assertion has_duplicates
All-IsOwn [] h = tt
All-IsOwn (x ∷ xs) h =
    (ground arith, IsOwn-cons x xs xs (ground arith) (All-IsOwn xs (ground arith)))

module _ (P : Assertion → Type 0) (as' : List Assertion) where
  find-planned :
      (planned : List Assertion) (k : String)
      → All (IsOwn as') planned
      → All P planned
      → contains (ids planned) k ≡ true
      → (b : Assertion) × (find_assertion k as' ≡ some b) × P b
  find-planned [] k own held c = absurd (ground arith)
  find-planned (b ∷ bs) k own held c = elim (Bool-cases (k == b.id)) [
    | inl e ↦ (b, rw (id-eq k b.id e) own.0, held.0)
    | inr e ↦ find-planned bs k own.1 held.1 (ground arith)
  ]
    where
      id-eq : (a b : String) → (a == b) ≡ true → a ≡ b
      id-eq a b e = ground arith

  -- What holds of every planned assertion holds of every assertion of the package.
  all-planned :
      (planned xs : List Assertion)
      → All (IsOwn as') planned
      → All P planned
      → All (IsOwn as') xs
      → all (contains (ids planned)) (ids xs) ≡ true
      → All P xs
  all-planned planned [] own held mine whole = tt
  all-planned planned (x ∷ xs) own held mine whole =
      let (b, there, holds) = find-planned planned x.id own held (ground arith) in
      (
        subst P (assertion_injective (sym there ∙ mine.0)) holds,
        all-planned planned xs own held mine.1 (ground arith),
      )
    where
      assertion_injective : {a b : Assertion} → ◌≡◌ {A = Option Assertion} (some a) (some b) → a ≡ b
      assertion_injective h = cc

-- A run of `run` exits 0 only when the evaluator of every assertion of the package is built in, was
-- shown all the captured facts that the assertion declares, and found nothing on them, and the package
-- has every assertion that central policy requires.
pub run_request-Held :
    (parse : String → Option ℕ) (i : Inputs) (l : Option (List Row))
    → run_request parse i ≡ exited 0 l
    → All (Held i.engine) i.assertions × (all (contains (ids i.assertions)) i.required ≡ true)
run_request-Held parse i l h =
    let d = run_request-Decided parse i 0 l (omega arith) h in
    let clean =
      (decide-pass_iff d.verdict.ledger d.setting.stage none (some d.verdict.blocked)).0
        (sym d.is_code) in
    let rows =
      sym (evaluate-satisfied parse _ d.outcome.ledger d.outcome.findings d.verdict d.is_verdict)
      ∙ clean.2 in
    let ordered = order-Ordered i.assertions d.planned (plan-order i d.planned d.is_plan) in
    let approved = plan_approved i.assertions i.required i.requirements d.planned d.is_plan in
    (
      all-planned (Held i.engine) i.assertions d.planned i.assertions ordered.2
          (run-Held i.engine d.planned d.outcome d.is_run rows) (All-IsOwn i.assertions approved.1)
          ordered.3,
      approved.2,
    )
