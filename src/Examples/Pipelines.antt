-- ===== src/Examples/Pipelines.antt =====
-- A whole run of a package of two assertions that both hold.
use dev_gate_agentic_framewo.Common.{
  ℕ, ◌≡◌, refl, String, true, false, Option, none, some, List, [], ◌∷◌, if◌then◌else◌, contains,
  any, string_eq, nat_eq, arith,
}
use dev_gate_agentic_framewo.Common.Dict.{lookup, insert}
use dev_gate_agentic_framewo.Ledger.{Row, satisfied, advisory}
use dev_gate_agentic_framewo.Plan.{
  builtins, plan, check_assertions, check_assertion, check_required, has_duplicates, order, visit,
  visit_all, enter, find_assertion,
}
use dev_gate_agentic_framewo.Evaluation.{
  Evaluator, found, Engine, run, evaluate_all, evaluate_one, call, mediate, declared_facts, settle,
  draft, record_row, is_blocked,
}
use dev_gate_agentic_framewo.Evaluation.Turns.{Signs}
use dev_gate_agentic_framewo.Evaluation.Halts.{row_halts}
use dev_gate_agentic_framewo.Adoption.Sets.{validate_exceptions, cover_of}
use dev_gate_agentic_framewo.Adoption.Shelter.{enforce_findings}
use dev_gate_agentic_framewo.Adoption.Mirror.{enforce_ledger, enforce_outcome}
use dev_gate_agentic_framewo.Adoption.Evaluate.{Setting, evaluate, apply_ladder}
use dev_gate_agentic_framewo.Decision.{decide, decide_rows}
use dev_gate_agentic_framewo.Pipeline.{
  Inputs, exited, run_request, run_planned, weigh_run, weigh, adopt, conclude_verdict, conclude,
}
use dev_gate_agentic_framewo.Pipeline.Halted.{run_request-halting}
use dev_gate_agentic_framewo.Examples.Plans.{identity, trace}

abbrev content : Evaluator
content a facts = found []

abbrev engine : Engine
engine = record {
  builtin = λ name. if contains builtins name then some content else none;
  captured_facts = [];
  max_evaluators = 10000;
  mutation = λ a. none;
}

engine-Signs : Signs engine
engine-Signs name fn a facts [] known ran = tt
engine-Signs name fn a facts (f ∷ fs) known ran = absurd (ground arith)

abbrev pub at_2026 : String → Option ℕ
at_2026 text = if contains ("2026" ∷ []) text then some 2026 else none

abbrev pub setting : Setting
setting = record {
  planned = [];
  baseline = [];
  exceptions = [];
  stage = 3;
  evaluation_time = "2026";
  core_classes = none;
  severity_floor = [];
  advisory_expired = false;
}

abbrev inputs : Inputs
inputs = record {
  assertions = identity ∷ trace ∷ [];
  required = "trace" ∷ [];
  requirements = none;
  engine = engine;
  setting = some setting;
  seals = λ fs. true;
  attests = λ v. true;
}

abbrev pub row : String → Row
row id = record {
  assertion_id = id;
  version = 1;
  outcome = satisfied;
  reason = none;
  enforcement = advisory;
}

inputs-passed : run_request at_2026 inputs ≡ exited 0 (some (row "trace" ∷ row "identity" ∷ []))
unfolding run_request run_planned weigh_run weigh adopt conclude_verdict conclude plan
    check_assertions check_assertion check_required has_duplicates order visit visit_all enter
    find_assertion lookup insert run evaluate_all evaluate_one call mediate declared_facts settle
    draft record_row is_blocked evaluate validate_exceptions cover_of apply_ladder enforce_findings
    enforce_ledger enforce_outcome decide decide_rows string_eq nat_eq
inputs-passed = refl

run_request-halting_example :
    (rows : List Row) × (some (row "trace" ∷ row "identity" ∷ []) ≡ some rows)
    × (any row_halts rows ≡ false)
run_request-halting_example =
    run_request-halting at_2026 inputs 0 (some (row "trace" ∷ row "identity" ∷ [])) engine-Signs
      (omega arith) inputs-passed
