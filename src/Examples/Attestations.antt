-- ===== src/Examples/Attestations.antt =====
-- A decision that is sealed with its attestation, and promoted.
use dev_gate_agentic_framewo.Common.{
  ◌≡◌, refl, ◌⊎◌, String, ◌<>◌, Bool, true, false, none, some, [], ◌∷◌, if◌then◌else◌, string_eq,
  nat_eq, ◌==◌,
}
use dev_gate_agentic_framewo.Common.Json.{
  Json, str, obj, Fields, end, field, get_field, to_list, of_list,
}
use dev_gate_agentic_framewo.Common.Text.{text_le, codes_le}
use dev_gate_agentic_framewo.Common.Dict.{lookup, insert}
use dev_gate_agentic_framewo.Common.Result.{Result, ok, err}
use dev_gate_agentic_framewo.Canon.{Codec, check, canon, digest, digest_obj, nul, is_int64}
use dev_gate_agentic_framewo.Decision.{decide, decide_rows}
use dev_gate_agentic_framewo.Evidence.Check
use dev_gate_agentic_framewo.Evidence.{ReadError, not_json, Files, contained, manifest_of}
use dev_gate_agentic_framewo.Evidence.Check.{check_entries, check_manifest_digest, verify_manifest}
use dev_gate_agentic_framewo.Attest.{Host, refused, required, need, signer_key, bind, sign}
use dev_gate_agentic_framewo.Attest.Checks.{
  Signer, SignerSet, check_signer, without, compare_digest, check_signature, check_statement,
  verify_attestation, check_bound, load_artifacts, check_decision, verify, check_candidate,
  verify_promotion,
}
use dev_gate_agentic_framewo.Attest.Signed.{IsEnrolled, verify_attestation-one_decision}
use dev_gate_agentic_framewo.Attest.Promoted.{IsPromotable, verify_promotion-IsPromotable}
use dev_gate_agentic_framewo.Attest.Sealing.{
  Job, unsigned, envelope_emit_failed, set_field, write_envelope, emit_envelope, write_attestation,
  emit_attestation, seal_decision, seal_run,
}
use dev_gate_agentic_framewo.Attest.Ends.{HasEnvelope, SameEnvelope, IsSealed}
use dev_gate_agentic_framewo.Attest.Ordered.{
  seal_run-returns, seal_run-raises, seal_run-verify_attestation,
}

-- A document is told by one of its keys.
abbrev if_has : String → Fields → String → String → String
if_has key fields yes' no' = elim (get_field key fields) [ none ↦ no' | some j ↦ yes' ]

abbrev dumps : Json → String
dumps (obj fields) =
    if_has "objects" fields "manifest" (
      if_has "statement_digest" fields "attestation"
        (if_has "artifacts" fields "envelope" "result"))
dumps _ = "scalar"

abbrev codec : Codec
codec = record { dumps = dumps; sha256 = λ s. s }

abbrev evidence_digest : String
evidence_digest = "sha256:evidence-manifest/v1" <> (nul <> "manifest")

abbrev statement : String
statement = "sha256:decision/v1" <> (nul <> "result")

abbrev identities : Fields
identities = field "subject_digest" (str "D1") (
    field "openspec_digest" (str "O") (
      field "policy_digest" (str "P")
        (field "context_digest" (str "C") (field "evaluator_image_digest" (str "E") end))))

abbrev bound : Fields
bound = field "evidence_manifest_digest" (str evidence_digest) identities

abbrev attestation : Fields
attestation = field "statement_digest" (str statement) (
    field "bound" (obj bound) (
      field "signer" (obj (field "key_id" (str "k1") (field "identity" (str "pilot") end)))
        (field "signature" (str "hmac-sha256:00") end)))

-- The result has the identities that are bound.
abbrev read_text : String → Result ReadError Json
read_text text =
    if text == "manifest"
    then ok (manifest_of [])
    else if text == "attestation"
    then ok (obj attestation)
    else if text == "result"
    then ok (obj bound)
    else err not_json

abbrev same_text : Json → Json → Bool
same_text (str a) (str b) = a == b
same_text _ _ = false

abbrev host : Host
host = record {
  disk = record {
    codec = codec;
    replace = λ s secret. s;
    text = λ j. "";
    loads = read_text;
    is_inside = λ path. true;
    is_writable = λ path. true;
    is_synced = λ path. true;
  };
  from_hex = λ s. some s;
  hmac = λ key bytes. "00";
  schema_errors = λ j. [];
  same = same_text;
  raw_key = "ab";
  key_id = "k1";
  identity = "pilot";
  has_fallback = true;
}

abbrev signer : Signer
signer = record {
  key_id = "k1";
  identity = "pilot";
  key = "ab";
  valid_from = "2025";
  valid_until = "2027";
  revoked = false;
}

abbrev set : SignerSet
set = record { signers = signer ∷ []; as_of = "2026" }

abbrev files : Files
files =
    ("result.json", "result")
    ∷ ("attestation.json", "attestation")
    ∷ ("evidence-manifest.json", "manifest")
    ∷ []

promoted : verify_promotion host set "D1" files ≡ ok tt
unfolding verify_promotion verify load_artifacts check_signer check_signature check_decision
    check_statement check_bound check_candidate without compare_digest canon check digest digest_obj
    contained Check.verify verify_manifest check_entries check_manifest_digest lookup get_field
    to_list of_list string_eq nat_eq text_le codes_le
promoted = refl

verify_promotion-IsPromotable_example : IsPromotable host set "D1" files
verify_promotion-IsPromotable_example = verify_promotion-IsPromotable host set "D1" files promoted

abbrev result_bytes : String
result_bytes = "result"

result-accepted : verify_attestation host result_bytes attestation set ≡ ok tt
unfolding verify_attestation check_signer check_signature check_statement without compare_digest
    canon check digest get_field string_eq nat_eq text_le codes_le
result-accepted = refl

verify_attestation-one_decision_example : result_bytes ≡ result_bytes
verify_attestation-one_decision_example =
    verify_attestation-one_decision host result_bytes result_bytes attestation set set (λ e. e)
      result-accepted result-accepted

abbrev job : Job
job = record {
  stage = 2;
  semantics = "fresh-promotion";
  time = "2026";
  result = obj bound;
  decision = "PASS";
  ledger = [];
  blocked = some false;
  identities = identities;
  evidence = evidence_digest;
}

job-returns : (seal_run host job []).outcome ≡ ok 0
unfolding seal_run seal_decision emit_attestation write_attestation emit_envelope write_envelope
    sign signer_key bind need set_field canon check is_int64 digest get_field insert decide
    decide_rows string_eq nat_eq
job-returns = refl

seal_run-returns_example :
    (payload : String) × (canon host.disk.codec job.result ≡ ok payload)
    × HasEnvelope host job (required job.stage job.semantics) 0 (seal_run host job []).files
seal_run-returns_example = seal_run-returns host job [] 0 job-returns

-- The same job where no key is configured.
abbrev keyless : Host
keyless = record host { raw_key = "" }

keyless-raises :
    (seal_run keyless job []).outcome ≡ err (unsigned (refused "signer-key-not-configured"))
unfolding seal_run seal_decision emit_attestation sign signer_key canon check digest get_field
    insert string_eq nat_eq
keyless-raises = refl

seal_run-raises_example :
    SameEnvelope [] (seal_run keyless job []).files
    ⊎ ((unsigned (refused "signer-key-not-configured") ≡ envelope_emit_failed)
        × IsSealed keyless job (seal_run keyless job []).files)
seal_run-raises_example =
    seal_run-raises keyless job [] (unsigned (refused "signer-key-not-configured")) keyless-raises

job-required : required job.stage job.semantics ≡ true
unfolding string_eq nat_eq
job-required = refl

host-IsEnrolled : IsEnrolled host set
unfolding string_eq nat_eq text_le codes_le
host-IsEnrolled = record {
  entry = signer;
  listed = refl;
  identified = refl;
  keyed = refl;
  in_force = refl;
  begun = refl;
  unexpired = refl;
}

seal_run-verify_attestation_example :
    (payload : String) × (attested : Fields) × (bytes : String) × (canon host.disk.codec job.result
      ≡ ok payload)
    × (canon host.disk.codec (obj attested) ≡ ok bytes)
    × (lookup "attestation.json" (seal_run host job []).files ≡ some bytes)
    × (verify_attestation host payload attested set ≡ ok tt)
seal_run-verify_attestation_example =
    seal_run-verify_attestation host job [] 0 set job-returns job-required host-IsEnrolled
      (λ key bytes. refl)
