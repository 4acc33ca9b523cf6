-- ===== src/Pipeline/Passes.antt =====
-- hub/coherence/__main__.py: what an exit code of 0 says of the package.
use dev_gate_agentic_framewo.Common.{
  ℕ, ◌≡◌, ◌∙◌, refl, sym, String, true, Option, none, some, List, [], ◌∷◌, all, contains, arith,
  Bool-cases, inl, inr, string_eq,
}
use mathlib.Core.Path.{subst}
use dev_gate_agentic_framewo.Common.Result.{ok, >>=-ok, ok_injective}
use dev_gate_agentic_framewo.Ledger.{Row, Finding, Outcome, satisfied, violated, unresolved}
use dev_gate_agentic_framewo.Plan.{
  Assertion, ids, plan, order, check_assertions, check_optional, check_required, has_duplicates,
}
use dev_gate_agentic_framewo.Plan.Ordering.{order-Ordered}
use dev_gate_agentic_framewo.Plan.Admission.{plan_approved}
use dev_gate_agentic_framewo.Pipeline.Codes.{run_request-Decided}
use dev_gate_agentic_framewo.Evaluation.Turns.{Signs}
use dev_gate_agentic_framewo.Evaluation.Rows.{row_ids, run-rows}
use dev_gate_agentic_framewo.Evaluation.Dependencies.{passed}
use dev_gate_agentic_framewo.Adoption.Sets.{validate_exceptions, cover_of}
use dev_gate_agentic_framewo.Adoption.Mirror.{mirror, enforce_outcome, enforce_ledger, findings_of}
use dev_gate_agentic_framewo.Adoption.Evaluate.{Setting, Verdict, apply_ladder, parse_now, evaluate}
use dev_gate_agentic_framewo.Decision.{row_satisfied}
use dev_gate_agentic_framewo.Decision.Matrix.{decide-pass_iff}
use dev_gate_agentic_framewo.Pipeline.{Inputs, exited, run_request}

mirror-id : (fs : List Finding) (e : Row) → (mirror fs e).0.assertion_id ≡ e.assertion_id
unfolding mirror
mirror-id [] e = refl
mirror-id (f ∷ fs) e = refl

enforce_outcome-id :
    (stage : ℕ) (fs : List Finding) (o : Outcome) (e : Row)
    → (enforce_outcome stage fs o e).0.assertion_id ≡ e.assertion_id
unfolding enforce_outcome
enforce_outcome-id stage fs satisfied e = refl
enforce_outcome-id stage fs violated e = mirror-id (findings_of e.assertion_id fs) e
enforce_outcome-id stage fs unresolved e = refl

-- The ladder keeps a row for each row, under the same id.
enforce_ledger-row_ids :
    (stage : ℕ) (fs : List Finding) (es : List Row)
    → row_ids (enforce_ledger stage fs es).0 ≡ row_ids es
unfolding enforce_ledger
enforce_ledger-row_ids stage fs [] = refl
enforce_ledger-row_ids stage fs (e ∷ es) =
    rw (enforce_outcome-id stage fs e.outcome e, enforce_ledger-row_ids stage fs es)

evaluate-row_ids :
    (parse : String → Option ℕ) (s : Setting) (ledger : List Row) (findings : List Finding)
    (v : Verdict)
    → evaluate parse s ledger findings ≡ ok v
    → row_ids v.ledger ≡ row_ids ledger
unfolding evaluate apply_ladder
evaluate-row_ids parse s ledger findings v h =
    let (_, h1, _) = >>=-ok (validate_exceptions s.exceptions) h in
    let (_, h2, _) = >>=-ok (parse_now parse s.evaluation_time) h1 in
    let (_, h3, _) = >>=-ok (cover_of parse _ _ s.exceptions) h2 in
    subst (λ (x : Verdict). row_ids x.ledger ≡ row_ids ledger) (ok_injective h3)
      (enforce_ledger-row_ids s.stage _ ledger)

passed-contains :
    (k : String) (es : List Row)
    → all row_satisfied es ≡ true
    → contains (row_ids es) k ≡ true
    → passed es k ≡ true
passed-contains k [] h c = absurd (ground arith)
passed-contains k (e ∷ es) h c = ground (arith, passed-contains k es)

all-passed :
    (es : List Row) (ks : List String)
    → all row_satisfied es ≡ true
    → all (contains (row_ids es)) ks ≡ true
    → all (passed es) ks ≡ true
all-passed es [] h c = refl
all-passed es (k ∷ ks) h c = ground (arith, passed-contains k es, all-passed es ks)

contains-all :
    (ys xs : List String) (k : String)
    → all (contains ys) xs ≡ true
    → contains xs k ≡ true
    → contains ys k ≡ true
contains-all ys [] k h c = absurd (ground arith)
contains-all ys (x ∷ xs) k h c = ground (arith, contains-all ys xs k)

all-contains_trans :
    (xs ys ks : List String)
    → all (contains ys) xs ≡ true
    → all (contains xs) ks ≡ true
    → all (contains ys) ks ≡ true
all-contains_trans xs ys [] h k = refl
all-contains_trans xs ys (x ∷ ks) h k =
    ground (arith, contains-all ys xs x h, all-contains_trans xs ys ks h)

pub plan-order :
    (i : Inputs) (planned : List Assertion)
    → plan i.assertions i.required i.requirements ≡ ok planned
    → order i.assertions ≡ ok planned
unfolding plan
plan-order i planned h =
    let (_, h1, _) = >>=-ok (check_assertions i.assertions) h in
    let (_, h2, _) = >>=-ok (check_optional i.assertions i.requirements) h1 in
    elim (Bool-cases (has_duplicates (ids i.assertions))) [
      | inl twice ↦ absurd (ground arith)
      | inr once ↦ (>>=-ok (check_required (ids i.assertions) i.required) (rw once at h2)).1
    ]

-- A run of `run` exits 0 only with a ledger in which every assertion of the package, and every id
-- that central policy requires, has a SATISFIED row; the evaluators sign their findings.
pub run_request-passed :
    (parse : String → Option ℕ) (i : Inputs) (l : Option (List Row))
    → Signs i.engine
    → run_request parse i ≡ exited 0 l
    → (rows : List Row) × (l ≡ some rows)
      × (all (passed rows) (ids i.assertions) ≡ true)
      × (all (passed rows) i.required ≡ true)
run_request-passed parse i l signs h =
    let d = run_request-Decided parse i 0 l (omega arith) h in
    let rows = d.verdict.ledger in
    let clean =
      (decide-pass_iff rows d.setting.stage none (some d.verdict.blocked)).0 (sym d.is_code) in
    let same =
      evaluate-row_ids parse _ d.outcome.ledger d.outcome.findings d.verdict d.is_verdict
      ∙ run-rows i.engine d.planned d.outcome signs d.is_run in
    let whole = (order-Ordered i.assertions d.planned (plan-order i d.planned d.is_plan)).3 in
    let known = (plan_approved i.assertions i.required i.requirements d.planned d.is_plan).2 in
    let held = subst (λ ks. all (contains ks) (ids i.assertions) ≡ true) (sym same) whole in
    (
      rows,
      d.is_ledger,
      all-passed rows (ids i.assertions) clean.2 held,
      all-passed rows i.required clean.2
          (all-contains_trans (ids i.assertions) (row_ids rows) i.required held known),
    )
