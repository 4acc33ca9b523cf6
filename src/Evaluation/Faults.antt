-- ===== src/Evaluation/Faults.antt =====
-- hub/coherence/evaluate.py: the runs that raise, and those that return.
use dev_gate_agentic_framewo.Common.{
  ◌≡◌, String, Bool, true, false, ◌&&◌, Option, none, some, is_some, List, [], ◌∷◌, string_eq,
}
use dev_gate_agentic_framewo.Common.Json.{Json}
use dev_gate_agentic_framewo.Common.Dict.{Dict, lookup}
use dev_gate_agentic_framewo.Common.Result.{Result, ok, err}
use dev_gate_agentic_framewo.Plan.{Assertion}
use dev_gate_agentic_framewo.Evaluation.{Engine, Run, Fault, no_fact_id, declared_facts}

-- The first declared fact that is not bound has no id.
abbrev pub lacks_id : Dict Json → List (Option String) → Bool
lacks_id facts [] = false
lacks_id facts (none ∷ ids) = true
lacks_id facts (some id ∷ ids) = is_some (lookup id facts) && lacks_id facts ids

-- The assertion's evaluator is a built-in, and its first fact that is not bound has no id.
abbrev pub is_nameless : Engine → Assertion → Bool
is_nameless e a =
    is_some (e.builtin a.evaluator) && lacks_id e.captured_facts (declared_facts a.subjects)

-- The run raises for want of an id if the flag is set, and returns if it is not.
abbrev Raises : Bool → Result Fault Run → Type 0
Raises true m = m ≡ err no_fact_id
Raises false m = (r : Run) × (m ≡ ok r)
