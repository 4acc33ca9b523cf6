-- ===== src/Examples/Emissions.antt =====
-- The claim of a run whose context was not loaded.
use dev_gate_agentic_framewo.Common.{◌≡◌, ◌≢◌, String, none, some}
use dev_gate_agentic_framewo.Common.Dict.{Dict}
use dev_gate_agentic_framewo.Claim.{observed, verified, revalidate}
use dev_gate_agentic_framewo.Emission.{Decided, emit_decision_claim}
use dev_gate_agentic_framewo.Emission.Observed.{emit_decision_claim-observed}

abbrev decided : Decided
decided = record {
  subject_digest = some "sha256:1";
  openspec_digest = some "sha256:2";
  policy_digest = some "sha256:3";
  context_digest = none;
  evidence_digest = "sha256:4";
  decision_digest = "sha256:5";
  claim_id = "coherence-decision:sha256:1";
  requirement = "spec-coherence decision for subject sha256:1";
  ledger_reason = "assertion ledger complete (2 entries)";
  decision_reason = "decision PASS sealed with evidence";
}

emit_decision_claim-observed_example :
    ((emit_decision_claim decided).raised ≡ none)
    × ((emit_decision_claim decided).claim.state ≡ observed)
    × ((emit_decision_claim decided).claim.independent_verification ≡ none)
    × ((seen : Dict String) → revalidate (emit_decision_claim decided).claim seen ≢ verified)
emit_decision_claim-observed_example = emit_decision_claim-observed decided
