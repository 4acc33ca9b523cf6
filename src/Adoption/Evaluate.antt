-- ===== src/Adoption/Evaluate.antt =====
-- hub/coherence/adoption.py: `evaluate`, the ladder on a run's ledger and findings.
use dev_gate_agentic_framewo.Common.{
  ℕ, String, Bool, Option, none, some, List, [], ◌∷◌, string_eq, nat_eq, option_eq, ◌||◌,
}
use dev_gate_agentic_framewo.Common.Dict.{Dict}
use dev_gate_agentic_framewo.Common.Result.{Result, ok, err, ◌>>=◌, ◌>>◌}
use dev_gate_agentic_framewo.Ledger.{Row, Finding}
use dev_gate_agentic_framewo.Adoption.Sets.{
  BaselineEntry, ExceptionEntry, Planned, Problem, validate_exceptions, baseline_prints,
  escalated_prints, cover_of, bad_time,
}
use dev_gate_agentic_framewo.Adoption.Shelter.{Ladder, enforce_findings}
use dev_gate_agentic_framewo.Adoption.Mirror.{enforce_ledger}

pub record Verdict : Type 0 where
  pub ledger : List Row
  pub findings : List Finding
  pub blocked : Bool

-- The two loops of `evaluate`, once its sets are built.
unfoldable pub apply_ladder : Ladder → List Row → List Finding → Verdict
apply_ladder l ledger findings =
    let (fs, b) = enforce_findings l findings in
    let (rows, c) = enforce_ledger l.stage fs ledger in
    record { ledger = rows; findings = fs; blocked = b || c }

-- policy.DEFAULT_ENFORCED_CORE
abbrev pub default_enforced_core : List String
default_enforced_core =
    "devgate.builtin.identity-consistency" ∷ "devgate.builtin.traceability-completeness"
    ∷ "devgate.builtin.release-claim-consistency" ∷ []

abbrev pub or_core : Option (List String) → List String
or_core none = default_enforced_core
or_core (some cs) = cs

-- The arguments of `evaluate` beside the ledger and the findings.
pub record Setting : Type 0 where
  pub planned : List Planned
  pub baseline : List BaselineEntry
  pub exceptions : List ExceptionEntry
  pub stage : ℕ
  pub evaluation_time : String
  pub core_classes : Option (List String)
  pub severity_floor : Dict String
  pub advisory_expired : Bool

abbrev pub parse_now : (String → Option ℕ) → String → Result Problem ℕ
parse_now parse ts = elim (parse ts) [ none ↦ err (bad_time ts) | some t ↦ ok t ]

unfoldable pub evaluate :
    (String → Option ℕ) → Setting → List Row → List Finding → Result Problem Verdict
evaluate parse s ledger findings = do
  validate_exceptions s.exceptions
  now ← parse_now parse s.evaluation_time
  cover ← cover_of parse now (record { expired = []; active = [] }) s.exceptions
  ok (
      apply_ladder
        (record {
          stage = s.stage;
          planned = s.planned;
          core_classes = or_core s.core_classes;
          baseline = baseline_prints s.baseline;
          escalated = escalated_prints s.severity_floor s.baseline;
          cover = cover;
          advisory_expired = s.advisory_expired;
        })
        ledger findings)
