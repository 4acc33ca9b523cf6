-- ===== src/Examples/Packages.antt =====
-- A package with one adopted finding and one new one, at several stages of the ladder.
use dev_gate_agentic_framewo.Common.{
  ℕ, ◌≡◌, ◌↔◌, refl, String, true, false, none, List, [], ◌∷◌, all, string_eq, nat_eq, arith,
}
use dev_gate_agentic_framewo.Common.Dict.{lookup}
use dev_gate_agentic_framewo.Ledger.{Row, Finding, satisfied, violated, advisory}
use dev_gate_agentic_framewo.Decision.{decide, is_blocked, row_satisfied}
use dev_gate_agentic_framewo.Decision.Matrix.{no_error, decide-pass_iff}
use dev_gate_agentic_framewo.Adoption.Sets.{fingerprint}
use dev_gate_agentic_framewo.Adoption.Shelter.{
  Ladder, enforce, enforce_as, enforce_findings, is_sheltered, print_finding, shelter_ends,
}
use dev_gate_agentic_framewo.Adoption.Mirror.{enforce_ledger, enforce_outcome, mirror, findings_of}
use dev_gate_agentic_framewo.Adoption.Evaluate.{apply_ladder, default_enforced_core}
use dev_gate_agentic_framewo.Adoption.Stages.{at_stage, apply_ladder_mono}

abbrev ladder_at : ℕ → Ladder
ladder_at n = record {
  stage = n;
  planned = [];
  core_classes = default_enforced_core;
  baseline = "A-1|v1|README.md|missing" ∷ [];
  escalated = [];
  cover = record { expired = []; active = [] };
  advisory_expired = false;
}

abbrev finding_at : String → Finding
finding_at location = record {
  assertion_id = "A-1";
  finding_key = "A-1|readme|missing";
  violation_class = "missing";
  subject_locations = location ∷ [];
  severity = "high";
  enforcement = advisory;
  fingerprint = none;
  exception_id = none;
  reason = none;
}

abbrev findings : List Finding
findings = finding_at "README.md" ∷ finding_at "setup.py" ∷ []

abbrev row_of : String → Row
row_of id = record {
  assertion_id = id;
  version = 1;
  outcome = violated;
  reason = none;
  enforcement = advisory;
}

abbrev ledger : List Row
ledger = row_of "A-1" ∷ record (row_of "A-2") { outcome = satisfied } ∷ []

decide-pass_iff_example : ((decide ledger 1 none none).1 ≡ 0) ↔ (
    (no_error none ≡ true) × (is_blocked ledger 1 none ≡ false) × (all row_satisfied ledger ≡ true))
decide-pass_iff_example = decide-pass_iff ledger 1 none none

stage_2-blocks : (apply_ladder (at_stage 2 (ladder_at 0)) ledger findings).blocked ≡ true
unfolding apply_ladder enforce_findings enforce enforce_as print_finding is_sheltered enforce_ledger
    enforce_outcome mirror findings_of shelter_ends string_eq nat_eq lookup fingerprint
stage_2-blocks = refl

apply_ladder_mono_example : (apply_ladder (at_stage 4 (ladder_at 0)) ledger findings).blocked ≡ true
apply_ladder_mono_example =
    apply_ladder_mono 2 4 (ladder_at 0) ledger findings (omega arith) stage_2-blocks
