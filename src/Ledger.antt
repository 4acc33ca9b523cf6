-- ===== src/Ledger.antt =====
-- The rows and findings that hub/coherence passes between its evaluation, its adoption ladder and
-- its result: one row for each planned assertion, any number of findings.
use dev_gate_agentic_framewo.Common.{ℕ, String, Bool, true, false, Option, List}

pub data Outcome : Type 0 where
  satisfied violated unresolved : Outcome

-- "ADVISORY", "EXCEPTION-ADVISORY", "BLOCK"
pub data Enforcement : Type 0 where
  advisory exception_advisory block : Enforcement

abbrev pub is_satisfied : Outcome → Bool
is_satisfied satisfied = true
is_satisfied _ = false

abbrev pub is_violated : Outcome → Bool
is_violated violated = true
is_violated _ = false

abbrev pub is_unresolved : Outcome → Bool
is_unresolved unresolved = true
is_unresolved _ = false

abbrev pub is_block : Enforcement → Bool
is_block block = true
is_block _ = false

-- Why a row or a finding reads as it does, with what the sentences interpolate.
pub data Reason : Type 0 where
  unapproved_evaluator dependency_blocked : Reason
  captured_fact_missing : String → Reason
  unresolved_input evaluator_crash input_mutation : String → Reason
  violation_without_finding_detail : Reason
  multi_finding : ℕ → Enforcement → List (Enforcement × ℕ) → Reason
  advisory_expired_existing_debt advisory_expired_severity_escalated : Reason

pub record Row : Type 0 where
  pub assertion_id : String
  pub version : ℕ
  pub outcome : Outcome
  pub reason : Option Reason
  pub enforcement : Enforcement

-- A finding as the evaluators make it, with what the ladder writes on it.
pub record Finding : Type 0 where
  pub assertion_id : String
  pub finding_key : String
  pub violation_class : String
  pub subject_locations : List String
  pub severity : String
  pub enforcement : Enforcement
  pub fingerprint : Option String
  pub exception_id : Option String
  pub reason : Option Reason
