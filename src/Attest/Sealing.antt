-- ===== src/Attest/Sealing.antt =====
-- hub/coherence/attest.py: `seal_run`, the decision, its attestation and the envelope, in that order.
use dev_gate_agentic_framewo.Common.{
  ℕ, String, Bool, true, false, not, ◌||◌, Option, none, List, if◌then◌else◌, ◌==◌, string_eq,
}
use dev_gate_agentic_framewo.Common.Json.{Json, null, bool, int, str, obj, pos, Fields, end, field}
use dev_gate_agentic_framewo.Common.Dict.{insert}
use dev_gate_agentic_framewo.Common.Result.{Result, ok, err}
use dev_gate_agentic_framewo.Ledger.{Row}
use dev_gate_agentic_framewo.Decision.{decide}
use dev_gate_agentic_framewo.Canon.{CanonError, canon}
use dev_gate_agentic_framewo.Evidence.{Files, is_emitted}
use dev_gate_agentic_framewo.Attest.{Host, SignError, required, sign}

-- The arguments of `seal_run`: the built result and its decision's name, the ledger and the ladder's
-- verdict, the identities, the evidence's digest, and the entries of the context.
pub record Job : Type 0 where
  pub stage : ℕ
  pub semantics : String
  pub time : String
  pub result : Json
  pub decision : String
  pub ledger : List Row
  pub blocked : Option Bool
  pub identities : Fields
  pub evidence : String

pub data SealError : Type 0 where
  unsigned : SignError → SealError
  not_canonical : CanonError → SealError
  attestation_emit_failed envelope_emit_failed decision_emit_failed : SealError

-- What is left on disk, and the exit code or what is raised.
pub record Sealing : Type 0 where
  pub files : Files
  pub outcome : Result SealError ℕ

-- {**identities, k: v}
unfoldable pub set_field : String → Json → Fields → Fields
set_field k v end = field k v end
set_field k v (field j w rest) =
    let later = set_field k v rest in if k == j then field j v rest else field j w later

-- `emit_with_fallback` on the run's directory: `emit` may put the file there and raise after that,
-- where the directory cannot be synced.
abbrev pub emit_decision : Host → String → Files → Files
emit_decision h bytes files =
    if h.disk.is_writable "result.json" then insert "result.json" bytes files else files

-- The decision is in the run's directory or, where `emit` raised, in a fallback directory.
abbrev pub is_decision_kept : Host → Bool
is_decision_kept h = is_emitted h.disk "result.json" || h.has_fallback

abbrev pub exit_code : Job → ℕ
exit_code j = (decide j.ledger j.stage none j.blocked).1

abbrev pub attestation_name : Bool → Json
attestation_name true = str "attestation.json"
attestation_name false = null

abbrev pub envelope : Job → Bool → Json
envelope j signed = obj (
    field "api_version" (str "devgate.spec-coherence.envelope/v1") (
      field "decision" (str j.decision) (
        field "exit_code" (int (pos (exit_code j))) (
          field "stage" (int (pos j.stage)) (
            field "semantics" (str j.semantics) (
              field "attestation_required" (bool (required j.stage j.semantics)) (
                field "signed" (bool signed) (
                  field "artifacts"
                    (obj (
                      field "result" (str "result.json") (
                        field "evidence_manifest" (str "evidence-manifest.json")
                          (field "attestation" (attestation_name signed) end))))
                    end))))))))

unfoldable pub write_envelope : Host → Job → Files → Result CanonError String → Sealing
write_envelope h j files (err e) = record { files = files; outcome = err (not_canonical e) }
write_envelope h j files (ok bytes) =
    if h.disk.is_writable "run-envelope.json"
    then record {
      files = insert "run-envelope.json" bytes files;
      outcome =
          if h.disk.is_synced "run-envelope.json"
          then ok (exit_code j)
          else err envelope_emit_failed;
    }
    else record { files = files; outcome = err envelope_emit_failed }

-- `emit_envelope`, and the exit code
unfoldable pub emit_envelope : Host → Job → Bool → Files → Sealing
emit_envelope h j signed files = write_envelope h j files (canon h.disk.codec (envelope j signed))

unfoldable pub write_attestation : Host → Job → Files → Result CanonError String → Sealing
write_attestation h j files (err e) = record { files = files; outcome = err (not_canonical e) }
write_attestation h j files (ok bytes) =
    if h.disk.is_writable "attestation.json"
    then (if h.disk.is_synced "attestation.json"
        then emit_envelope h j true (insert "attestation.json" bytes files)
        else record {
          files = insert "attestation.json" bytes files;
          outcome = err attestation_emit_failed;
        })
    else record { files = files; outcome = err attestation_emit_failed }

unfoldable pub emit_attestation : Host → Job → Files → Result SignError Fields → Sealing
emit_attestation h j files (err e) = record { files = files; outcome = err (unsigned e) }
emit_attestation h j files (ok attestation) =
    write_attestation h j files (canon h.disk.codec (obj attestation))

abbrev pub sign_run : Host → Job → String → Result SignError Fields
sign_run h j payload =
    sign h payload (set_field "evidence_manifest_digest" (str j.evidence) j.identities) j.time

unfoldable pub seal_decision : Host → Job → Files → Result CanonError String → Sealing
seal_decision h j files (err e) = record { files = files; outcome = err (not_canonical e) }
seal_decision h j files (ok payload) =
    if not (is_decision_kept h)
    then record { files = emit_decision h payload files; outcome = err decision_emit_failed }
    else if required j.stage j.semantics
    then emit_attestation h j (emit_decision h payload files) (sign_run h j payload)
    else emit_envelope h j false (emit_decision h payload files)

unfoldable pub seal_run : Host → Job → Files → Sealing
seal_run h j files = seal_decision h j files (canon h.disk.codec j.result)
