-- ===== src/Examples/Builtins.antt =====
-- A package whose identity, captured fact and requirements all hold.
use dev_gate_agentic_framewo.Common.{
  ◌≡◌, ◌↔◌, refl, String, Bool, true, false, none, some, List, [], ◌∷◌, contains, string_eq, nat_eq,
  ◌==◌, All, all,
}
use dev_gate_agentic_framewo.Common.Json.{
  Json, str, obj, arr, bool, Fields, end, field, cons, nil, get_field, truthy,
}
use dev_gate_agentic_framewo.Common.Dict.{Dict, lookup, insert}
use dev_gate_agentic_framewo.Ledger.{Row}
use dev_gate_agentic_framewo.Plan.{
  Assertion, Selector, ids, plan, check_assertions, check_assertion, check_required, has_duplicates,
  order, visit, visit_all, enter, find_assertion,
}
use dev_gate_agentic_framewo.Evaluation.{
  found, Engine, run, evaluate_all, evaluate_one, call, mediate, declared_facts, settle, draft,
  record_row, is_blocked,
}
use dev_gate_agentic_framewo.Adoption.Sets.{validate_exceptions, cover_of}
use dev_gate_agentic_framewo.Adoption.Shelter.{enforce_findings}
use dev_gate_agentic_framewo.Adoption.Mirror.{enforce_ledger, enforce_outcome}
use dev_gate_agentic_framewo.Adoption.Evaluate.{evaluate, apply_ladder}
use dev_gate_agentic_framewo.Decision.{decide, decide_rows}
use dev_gate_agentic_framewo.Pipeline.{
  Inputs, exited, run_request, run_planned, weigh_run, weigh, adopt, conclude_verdict, conclude,
}
use dev_gate_agentic_framewo.Common.Result.{ok}
use dev_gate_agentic_framewo.Evaluators.{
  Sources, builtin, identity_consistency, captured_fact_consistency, traceability_completeness,
  has_colon, after_colon, split_dots, dig_parts, dig, loc, extract, see_extracted, compare_all,
  use_approved, with_approved, observe_identity, see_field, field_of, observe_fact, items,
  requirements_of, scan, scan_markers, trace_all,
}
use dev_gate_agentic_framewo.Evaluators.Compared.{IsApprovedValue}
use dev_gate_agentic_framewo.Evaluators.Satisfied.{
  HoldsApproved, identity_consistency-satisfied_iff,
}
use dev_gate_agentic_framewo.Evaluators.Facts.{FactAgrees, captured_fact_consistency-satisfied_iff}
use dev_gate_agentic_framewo.Evaluators.Traced.{Traced, traceability_completeness-satisfied_iff}
use dev_gate_agentic_framewo.Evaluators.Whole.{Upholds, run_request-Upholds}
use dev_gate_agentic_framewo.Examples.Pipelines.{at_2026, setting, row}

abbrev same_text : Json → Json → Bool
same_text (str a) (str b) = a == b
same_text _ _ = false

abbrev sources : Sources
sources = record {
  same = same_text;
  text = λ j. "";
  subject_root = ".";
  identity_line = λ path. ok none;
  markers = none;
}

-- The package names the product twice, and has one testable requirement.
abbrev content : Fields
content = field "product" (obj (field "name" (str "devgate") (field "title" (str "devgate") end))) (
    field "normative_requirements"
      (obj (
        field "R-1"
          (obj (
            field "testable" (bool true)
              (field "assertion_ids" (arr (cons (str "named") nil)) end)))
          end))
      end)

abbrev reference : Fields
reference = field "approved_value_ref" (str "product.name") end

abbrev title : Selector
title = record {
  kind = "artifact-metadata";
  path = none;
  selector = some "product.title";
  fact_id = none;
}

abbrev product : Selector
product = record { kind = "captured-fact"; path = none; selector = none; fact_id = some "f" }

abbrev assertion : String → String → Fields → List Selector → Assertion
assertion id evaluator parameters subjects = record {
  id = id;
  version = 1;
  schema_ok = true;
  evaluator = evaluator;
  severity = "high";
  parameters = parameters;
  subjects = subjects;
  requirement_refs = [];
  dependencies = [];
}

abbrev named_assertion : Assertion
named_assertion = assertion "named" "devgate.builtin.identity-consistency" reference (title ∷ [])

abbrev captured : Assertion
captured = assertion "captured" "devgate.builtin.captured-fact-consistency" reference (product ∷ [])

abbrev traced : Assertion
traced = assertion "traced" "devgate.builtin.traceability-completeness" end []

abbrev facts : Dict Json
facts = ("f", obj (field "value" (str "devgate") end)) ∷ []

abbrev engine : Engine
engine = record {
  builtin = builtin sources content;
  captured_facts = facts;
  max_evaluators = 10;
  mutation = λ a. none;
}

abbrev inputs : Inputs
inputs = record {
  assertions = named_assertion ∷ captured ∷ traced ∷ [];
  required = "named" ∷ [];
  requirements = none;
  engine = engine;
  setting = some setting;
  seals = λ fs. true;
  attests = λ v. true;
}

abbrev rows : List Row
rows = row "named" ∷ row "captured" ∷ row "traced" ∷ []

inputs-passed : run_request at_2026 inputs ≡ exited 0 (some rows)
unfolding run_request run_planned weigh_run weigh adopt conclude_verdict conclude plan
    check_assertions check_assertion check_required has_duplicates order visit visit_all enter
    find_assertion lookup insert run evaluate_all evaluate_one call mediate declared_facts settle
    draft record_row is_blocked evaluate validate_exceptions cover_of apply_ladder enforce_findings
    enforce_ledger enforce_outcome decide decide_rows string_eq nat_eq builtin identity_consistency
    captured_fact_consistency traceability_completeness has_colon after_colon split_dots dig_parts
    dig loc extract compare_all use_approved with_approved observe_identity see_extracted see_field
    field_of observe_fact items requirements_of scan scan_markers trace_all get_field truthy
inputs-passed = refl

run_request-Upholds_example :
    All (Upholds sources content facts) inputs.assertions
    × (all (contains (ids inputs.assertions)) inputs.required ≡ true)
run_request-Upholds_example =
    run_request-Upholds at_2026 sources content inputs (some rows) refl inputs-passed

identity_consistency-satisfied_iff_example :
    (identity_consistency sources content named_assertion [] ≡ found []) ↔ (
      (approved : Json) × IsApprovedValue content named_assertion approved
      × All (HoldsApproved sources content approved) named_assertion.subjects)
identity_consistency-satisfied_iff_example =
    identity_consistency-satisfied_iff sources content named_assertion []

captured_fact_consistency-satisfied_iff_example :
    (captured_fact_consistency sources content captured facts ≡ found []) ↔ (
      (approved : Json) × IsApprovedValue content captured approved
      × All (FactAgrees sources captured facts approved) captured.subjects)
captured_fact_consistency-satisfied_iff_example =
    captured_fact_consistency-satisfied_iff sources content captured facts

traceability_completeness-satisfied_iff_example :
    (traceability_completeness sources content traced [] ≡ found []) ↔ Traced sources content traced
traceability_completeness-satisfied_iff_example =
    traceability_completeness-satisfied_iff sources content traced []
