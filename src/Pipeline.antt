-- ===== src/Pipeline.antt =====
-- hub/coherence/__main__.py: `run`, from the loaded assertions to the exit code.
pub mod Passes
pub mod Halted
pub mod Codes
pub mod Upheld
use dev_gate_agentic_framewo.Common.{
  ℕ, String, Bool, true, false, Option, none, some, List, [], map, if◌then◌else◌,
}
use dev_gate_agentic_framewo.Common.Result.{Result, ok, err}
use dev_gate_agentic_framewo.Ledger.{Row, Finding}
use dev_gate_agentic_framewo.Plan.{Assertion, PlanError, Requirement, plan}
use dev_gate_agentic_framewo.Evaluation.{Engine, Run, Halt, Fault, limit_exceeded, no_fact_id, run}
use dev_gate_agentic_framewo.Adoption.Sets.{Planned, Problem}
use dev_gate_agentic_framewo.Adoption.Evaluate.{Setting, Verdict, evaluate}
use dev_gate_agentic_framewo.Decision.{decide}

-- What the stages before have loaded. `setting` is the baseline, the exceptions and the policy's
-- part of the ladder's arguments, or none where loading them raises. `seals` says whether
-- `evidence.seal` takes the findings, and `attests` whether `attest.seal_run` signs and writes.
pub record Inputs : Type 0 where
  pub assertions : List Assertion
  pub required : List String
  pub requirements : Option (List Requirement)
  pub engine : Engine
  pub setting : Option Setting
  pub seals : List Finding → Bool
  pub attests : Verdict → Bool

-- An exit code with the ledger that the result or the error envelope carries, or an exception that
-- nothing catches.
pub data Exit : Type 0 where
  exited : ℕ → Option (List Row) → Exit
  uncaught : Exit

-- `_fail(...)`
unfoldable pub stop : String → Option (List Row) → Exit
stop error_class ledger = exited (decide [] 0 (some error_class) none).1 ledger

-- The assertions as the ladder reads them.
abbrev pub planned_of : Assertion → Planned
planned_of a = record { id = a.id; version = some a.version; evaluator = some a.evaluator }

-- The evidence, the attestation and the decision.
unfoldable pub conclude : Inputs → ℕ → Verdict → Exit
unfolding stop
conclude i stage v =
    if i.seals v.findings
    then (if i.attests v
        then exited (decide v.ledger stage none (some v.blocked)).1 (some v.ledger)
        else stop "attestation" (some v.ledger))
    else stop "evidence" none

unfoldable pub conclude_verdict : Inputs → ℕ → Result Problem Verdict → Exit
conclude_verdict i stage (err p) = stop "policy-resolution" none
conclude_verdict i stage (ok v) = conclude i stage v

-- The adoption ladder, on a run without an error.
unfoldable pub adopt : (String → Option ℕ) → Inputs → List Assertion → Run → Option Setting → Exit
adopt parse i planned r none = stop "policy-resolution" none
adopt parse i planned r (some s) =
    conclude_verdict i s.stage
      (evaluate parse (record s { planned = map planned_of planned }) r.ledger r.findings)

-- An ERROR-execution condition ends the run before the ladder.
unfoldable pub weigh : (String → Option ℕ) → Inputs → List Assertion → Run → Option Halt → Exit
weigh parse i planned r (some halt) = stop "execution" (some r.ledger)
weigh parse i planned r none = adopt parse i planned r i.setting

unfoldable pub weigh_run : (String → Option ℕ) → Inputs → List Assertion → Result Fault Run → Exit
weigh_run parse i planned (err (limit_exceeded n m)) = stop "execution" none
weigh_run parse i planned (err no_fact_id) = uncaught
weigh_run parse i planned (ok r) = weigh parse i planned r r.error

unfoldable pub run_planned : (String → Option ℕ) → Inputs → Result PlanError (List Assertion) → Exit
run_planned parse i (err e) = stop "invalid-input" none
run_planned parse i (ok planned) = weigh_run parse i planned (run i.engine planned)

-- The parse of a time is the first argument.
unfoldable pub run_request : (String → Option ℕ) → Inputs → Exit
run_request parse i = run_planned parse i (plan i.assertions i.required i.requirements)
