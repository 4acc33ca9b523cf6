-- ===== src/Evaluation.antt =====
-- hub/coherence/evaluate.py: the run of the planned assertions, to a ledger and findings.
pub mod Turns
pub mod Rows
pub mod Dependencies
pub mod Findings
pub mod Faults
pub mod Halts
pub mod Held
use dev_gate_agentic_framewo.Common.{
  ℕ, String, Bool, true, false, not, ◌&&◌, ◌||◌, Option, none, some, is_some, List, [], ◌∷◌, ◌++◌,
  ◌==◌, ◌!=◌, string_eq, if◌then◌else◌, ltb, length, contains,
}
use dev_gate_agentic_framewo.Common.Json.{Json}
use dev_gate_agentic_framewo.Common.Dict.{Dict, lookup, insert}
use dev_gate_agentic_framewo.Common.Result.{Result, ok, err, ◌>>=◌}
use dev_gate_agentic_framewo.Ledger.{
  Row, Finding, Outcome, satisfied, violated, unresolved, Enforcement, advisory, block,
  is_satisfied, Reason, unapproved_evaluator, dependency_blocked, captured_fact_missing,
  unresolved_input, evaluator_crash, input_mutation,
}
use dev_gate_agentic_framewo.Plan.{Assertion, Selector}

-- What an evaluator's call comes to: findings, `Unresolved` with its reason, or another exception
-- with the name of its type.
pub data Ran : Type 0 where
  found : List Finding → Ran
  undecided : String → Ran
  crashed : String → Ran

-- An evaluator, on the package and the subject root of the run. It is given an assertion and the
-- captured facts that the assertion declares.
abbrev pub Evaluator : Type 0
Evaluator = Assertion → Dict Json → Ran

-- What a run works with: the built-in evaluators, the captured facts, the limit, and what
-- `manifest.first_mutation` says after an assertion's call (none where no subject is given).
pub record Engine : Type 0 where
  pub builtin : String → Option Evaluator
  pub captured_facts : Dict Json
  pub max_evaluators : ℕ
  pub mutation : Assertion → Option String

-- The reasons of an ERROR-execution condition.
pub data Halt : Type 0 where
  blocked_at : String → Halt
  crashed_at : String → String → Halt
  mutated : String → Halt

-- What `run` raises: EvaluatorError, and the KeyError of a captured fact that has no id.
pub data Fault : Type 0 where
  limit_exceeded : ℕ → ℕ → Fault
  no_fact_id : Fault

pub record Run : Type 0 where
  pub ledger : List Row
  pub findings : List Finding
  pub done : Dict Outcome
  pub error : Option Halt

abbrev pub first_error : Option Halt → Halt → Option Halt
first_error none h = some h
first_error (some old) h = some old

-- [s.get("fact_id") for s in a["subjects"] if s.get("kind") == "captured-fact"]
unfoldable pub declared_facts : List Selector → List (Option String)
declared_facts [] = []
declared_facts (s ∷ ss) =
    let rest = declared_facts ss in if s.kind == "captured-fact" then s.fact_id ∷ rest else rest

-- The facts that an evaluator is shown, or the first declared one that is not bound. Where that one
-- has no id, it is the None that `next` gives for no such fact, and `captured_facts[None]` raises.
pub data Mediated : Type 0 where
  nameless : Mediated
  missing : String → Mediated
  shown : Dict Json → Mediated

unfoldable pub mediate : Dict Json → List (Option String) → Dict Json → Mediated
mediate facts [] seen = shown seen
mediate facts (none ∷ ids) seen = nameless
mediate facts (some id ∷ ids) seen = elim (lookup id facts) [
  | none ↦ missing id
  | some content ↦ mediate facts ids (insert id content seen)
]

-- done.get(d) == "SATISFIED"
abbrev pub has_passed : Dict Outcome → String → Bool
has_passed done d = elim (lookup d done) [ none ↦ false | some o ↦ is_satisfied o ]

unfoldable pub is_blocked : Dict Outcome → List String → Bool
is_blocked done [] = false
is_blocked done (d ∷ ds) = not (has_passed done d) || is_blocked done ds

-- "BLOCK" if outcome != "SATISFIED" else "ADVISORY"
abbrev pub enforcement_of : Outcome → Enforcement
enforcement_of satisfied = advisory
enforcement_of _ = block

unfoldable pub record_row :
    Assertion → Outcome → Option Reason → List Finding → Option Halt → Run → Run
record_row a outcome reason fs error r = record {
  ledger =
      r.ledger
      ++ (record {
        assertion_id = a.id;
        version = a.version;
        outcome = outcome;
        reason = reason;
        enforcement = enforcement_of outcome;
      }
          ∷ []);
  findings = r.findings ++ fs;
  done = insert a.id outcome r.done;
  error = error;
}

-- What a call came to, before the subject is verified again.
pub record Draft : Type 0 where
  pub outcome : Outcome
  pub reason : Option Reason
  pub findings : List Finding
  pub error : Option Halt

unfoldable pub draft : Assertion → Option Halt → Ran → Draft
draft a error (found []) = record {
  outcome = satisfied;
  reason = none;
  findings = [];
  error = error;
}
draft a error (found (f ∷ fs)) = record {
  outcome = violated;
  reason = none;
  findings = f ∷ fs;
  error = error;
}
draft a error (undecided why) = record {
  outcome = unresolved;
  reason = some (unresolved_input why);
  findings = [];
  error = error;
}
draft a error (crashed name) = record {
  outcome = unresolved;
  reason = some (evaluator_crash name);
  findings = [];
  error = first_error error (crashed_at name a.id);
}

-- A drift of the subject drops the call's result and its findings.
unfoldable pub settle : Assertion → Run → Draft → Option String → Run
settle a r d none = record_row a d.outcome d.reason d.findings d.error r
settle a r d (some path) =
    record_row a unresolved (some (input_mutation path)) [] (first_error d.error (mutated path)) r

-- An approved evaluator's turn, once its facts are known.
unfoldable pub call : Engine → Evaluator → Assertion → Mediated → Run → Result Fault Run
call e fn a nameless r = err no_fact_id
call e fn a (missing id) r =
    ok (record_row a unresolved (some (captured_fact_missing id)) [] r.error r)
call e fn a (shown facts) r =
    if is_blocked r.done a.dependencies
    then ok (
        record_row a unresolved (some dependency_blocked) [] (first_error r.error (blocked_at a.id))
          r)
    else ok (settle a r (draft a r.error (fn a facts)) (e.mutation a))

abbrev pub facts_of : Engine → Assertion → Mediated
facts_of e a = mediate e.captured_facts (declared_facts a.subjects) []

-- The body of the loop over the planned assertions.
unfoldable pub evaluate_one : Engine → Assertion → Run → Result Fault Run
evaluate_one e a r = elim (e.builtin a.evaluator) [
  | none ↦ ok (record_row a unresolved (some unapproved_evaluator) [] r.error r)
  | some fn ↦ call e fn a (facts_of e a) r
]

unfoldable pub evaluate_all : Engine → List Assertion → Run → Result Fault Run
evaluate_all e [] r = ok r
evaluate_all e (a ∷ as') r = evaluate_one e a r >>= evaluate_all e as'

abbrev pub nothing_run : Run
nothing_run = record { ledger = []; findings = []; done = []; error = none }

unfoldable pub run : Engine → List Assertion → Result Fault Run
run e planned =
    if ltb e.max_evaluators (length planned)
    then err (limit_exceeded (length planned) e.max_evaluators)
    else evaluate_all e planned nothing_run
