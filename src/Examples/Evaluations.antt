-- ===== src/Examples/Evaluations.antt =====
-- A run of two assertions: the first one's evaluator finds a violation, and the second depends on it.
use dev_gate_agentic_framewo.Common.{
  ◌≡◌, refl, true, Option, none, some, List, [], ◌∷◌, ◌==◌, string_eq, if◌then◌else◌, all, contains,
  All, arith, Bool-cases, inl, inr,
}
use dev_gate_agentic_framewo.Common.Dict.{lookup, insert}
use dev_gate_agentic_framewo.Common.Result.{Result, ok, err}
use dev_gate_agentic_framewo.Ledger.{Finding, block}
use dev_gate_agentic_framewo.Plan.{Assertion, builtins}
use dev_gate_agentic_framewo.Plan.Order.{NodupIds}
use dev_gate_agentic_framewo.Evaluation.{
  Evaluator, found, Engine, Run, run, evaluate_all, nothing_run, Fault, evaluate_one, call, mediate,
  declared_facts, settle, draft, record_row, is_blocked,
}
use dev_gate_agentic_framewo.Evaluation.Turns.{IsAbout, Signs}
use dev_gate_agentic_framewo.Evaluation.Findings.{IsExplained, run-IsExplained}
use dev_gate_agentic_framewo.Evaluation.Dependencies.{rests_on_passed, run-rests}
use dev_gate_agentic_framewo.Examples.Plans.{identity, trace}

abbrev finding_of : Assertion → Finding
finding_of a = record {
  assertion_id = a.id;
  finding_key = "k";
  violation_class = "unmarked";
  subject_locations = [];
  severity = a.severity;
  enforcement = block;
  fingerprint = none;
  exception_id = none;
  reason = none;
}

-- Finds a violation in the assertion "trace" only.
abbrev inspect : Evaluator
inspect a facts = found (if a.id == "trace" then finding_of a ∷ [] else [])

abbrev engine : Engine
engine = record {
  builtin = λ name. if contains builtins name then some inspect else none;
  captured_facts = [];
  max_evaluators = 256;
  mutation = λ a. none;
}

found_injective : (fs gs : List Finding) → found fs ≡ found gs → gs ≡ fs
found_injective fs gs h = cc

some_injective : (f g : Evaluator) → ◌≡◌ {A = Option Evaluator} (some f) (some g) → g ≡ f
some_injective f g h = cc

inspect-IsAbout :
    (a : Assertion) → All (IsAbout a) (if a.id == "trace" then finding_of a ∷ [] else [])
inspect-IsAbout a = elim (Bool-cases (a.id == "trace")) [
  | inl h ↦ rw h (refl, tt)
  | inr h ↦ rw h tt
]

engine-Signs : Signs engine
engine-Signs name fn a facts fs known ran = elim (Bool-cases (contains builtins name)) [
  | inr h ↦ absurd (ground arith)
  | inl h ↦
      rw (found_injective _ fs (rw (some_injective inspect fn (rw h at known)) at ran))
        (inspect-IsAbout a)
]

abbrev both : List Assertion
both = trace ∷ identity ∷ []

abbrev or_nothing : Result Fault Run → Run
or_nothing (ok r) = r
or_nothing (err f) = nothing_run

abbrev outcome_of_both : Run
outcome_of_both = or_nothing (run engine both)

both-run : run engine both ≡ ok outcome_of_both
unfolding run evaluate_all evaluate_one call mediate declared_facts string_eq lookup insert settle
    draft record_row is_blocked
both-run = refl

both-NodupIds : NodupIds both
unfolding string_eq
both-NodupIds = (refl, (refl, tt))

run-IsExplained_example : All (IsExplained outcome_of_both.findings) outcome_of_both.ledger
run-IsExplained_example =
    run-IsExplained engine both outcome_of_both engine-Signs both-NodupIds both-run

run-rests_example : all (rests_on_passed outcome_of_both.ledger) both ≡ true
run-rests_example = run-rests engine both outcome_of_both engine-Signs both-NodupIds both-run

-- An assertion on a captured fact without an id.
abbrev unnamed : Assertion
unnamed = record trace {
  subjects = record { kind = "captured-fact"; path = none; selector = none; fact_id = none } ∷ [];
}
