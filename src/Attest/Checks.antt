-- ===== src/Attest/Checks.antt =====
-- hub/coherence/attest.py: the checks of a signer, a signature and what an attestation binds.
use dev_gate_agentic_framewo.Common.{
  String, ◌<>◌, Bool, true, false, not, ◌&&◌, Option, none, some, List, [], ◌∷◌, all, find, ◌==◌,
  string_eq, if◌then◌else◌, ltb,
}
use dev_gate_agentic_framewo.Common.Json.{Json, str, obj, Fields, end, field, get_field, or_null}
use dev_gate_agentic_framewo.Common.Text.{text_le, codes}
use dev_gate_agentic_framewo.Common.Dict.{lookup}
use dev_gate_agentic_framewo.Common.Result.{Result, ok, err, ◌>>=◌, ◌>>◌}
use dev_gate_agentic_framewo.Canon.{CanonError, canon, digest_bytes}
use dev_gate_agentic_framewo.Evidence.Check
use dev_gate_agentic_framewo.Evidence.{ReadError, not_json, not_utf8, Files}
use dev_gate_agentic_framewo.Evidence.Check.{Crash, raised, equals_text}
use dev_gate_agentic_framewo.Attest.{Host, signature}

-- A signer of a set in the shape of signer-set.schema.json.
pub record Signer : Type 0 where
  pub key_id : String
  pub identity : String
  pub key : String
  pub valid_from : String
  pub valid_until : String
  pub revoked : Bool

pub record SignerSet : Type 0 where
  pub signers : List Signer
  pub as_of : String

-- What a verification that does not accept comes to: a reason, or an exception that nothing catches.
pub data Refusal : Type 0 where
  reason : String → Refusal
  uncaught : String → Refusal

abbrev pub refuse_if : Bool → String → Result Refusal (Unit {0})
refuse_if true why = err (reason why)
refuse_if false why = ok tt

-- x.get(name, {}), of which a `get` is taken
abbrev pub as_fields : Option Json → Result Refusal Fields
as_fields none = ok end
as_fields (some (obj fields)) = ok fields
as_fields (some _) = err (uncaught "AttributeError")

abbrev pub or_empty : Option Json → Json
or_empty none = str ""
or_empty (some v) = v

abbrev pub member : Option Signer → Result Refusal Signer
member none = err (reason "signer-not-in-set")
member (some s) = ok s

-- `a < b` on texts
abbrev pub text_lt : String → String → Bool
text_lt a b = not (text_le b a)

-- _check_signer
unfoldable pub check_signer : SignerSet → Fields → Result Refusal Signer
check_signer set attestation = do
  signer ← as_fields (get_field "signer" attestation)
  entry ←
      member (find (λ s. equals_text (or_empty (get_field "key_id" signer)) s.key_id) set.signers)
  refuse_if (not (equals_text (or_null (get_field "identity" signer)) entry.identity))
      "signer-identity-mismatch"
  refuse_if entry.revoked "signer-revoked"
  refuse_if (text_lt set.as_of entry.valid_from) "signer-not-yet-valid"
  refuse_if (text_lt entry.valid_until set.as_of) "signer-expired"
  ok entry

-- unsigned.pop("signature", None)
unfoldable pub without : String → Fields → Fields
without k end = end
without k (field j v rest) = let later = without k rest in if k == j then later else field j v later

abbrev pub or_raise {ℓ} : {A : Type ℓ} → String → Option A → Result Refusal A
or_raise name none = err (uncaught name)
or_raise name (some a) = ok a

abbrev pub caught : Result CanonError String → Result Refusal String
caught (ok s) = ok s
caught (err e) = err (uncaught "CanonError")

abbrev pub is_ascii : String → Bool
is_ascii s = all (λ c. ltb c 128) (codes s)

-- hmac.compare_digest, which takes ASCII texts only
unfoldable pub compare_digest : String → Json → Result Refusal (Unit {0})
compare_digest expected (str s) =
    if is_ascii expected && is_ascii s
    then refuse_if (not (expected == s)) "signature-mismatch"
    else err (uncaught "TypeError")
compare_digest expected _ = err (uncaught "TypeError")

-- _check_signature
unfoldable pub check_signature : Host → Fields → Signer → Result Refusal (Unit {0})
check_signature h attestation entry = do
  key ← or_raise "ValueError" (h.from_hex entry.key)
  bytes ← caught (canon h.disk.codec (obj (without "signature" attestation)))
  compare_digest (signature h key bytes) (or_empty (get_field "signature" attestation))

unfoldable pub check_statement : Host → String → Fields → Result Refusal (Unit {0})
check_statement h decision attestation = do
  statement ← caught (digest_bytes h.disk.codec "decision/v1" decision)
  refuse_if (not (equals_text (or_null (get_field "statement_digest" attestation)) statement))
      "decision-digest-mismatch"

unfoldable pub verify_attestation : Host → String → Fields → SignerSet → Result Refusal (Unit {0})
verify_attestation h decision attestation set = do
  entry ← check_signer set attestation
  check_signature h attestation entry
  check_statement h decision attestation

abbrev pub bound_names : List String
bound_names =
    "subject_digest" ∷ "openspec_digest" ∷ "policy_digest" ∷ "context_digest"
    ∷ "evaluator_image_digest" ∷ "evidence_manifest_digest" ∷ []

unfoldable pub check_bound : Host → Fields → Fields → List String → Result Refusal (Unit {0})
check_bound h result bound [] = ok tt
check_bound h result bound (k ∷ ks) = do
  refuse_if (not (h.same (or_null (get_field k result)) (or_null (get_field k bound))))
      ("bound-digest-mismatch:" <> k)
  check_bound h result bound ks

abbrev pub as_object : Json → Result Refusal Fields
as_object (obj fields) = ok fields
as_object _ = err (uncaught "AttributeError")

abbrev pub untampered : Result Crash Bool → Result Refusal (Unit {0})
untampered (ok true) = ok tt
untampered (ok false) = err (reason "evidence-tamper")
untampered (err (raised name)) = err (uncaught name)

abbrev pub or_reason {ℓ} : {A : Type ℓ} → String → Option A → Result Refusal A
or_reason why none = err (reason why)
or_reason why (some a) = ok a

-- The `except` clauses around `json.loads` of a file's text, which let a UnicodeDecodeError pass
abbrev pub read_document : Result ReadError Json → Result Refusal Json
read_document (ok j) = ok j
read_document (err not_json) = err (reason "unparseable-artifact")
read_document (err not_utf8) = err (uncaught "UnicodeDecodeError")

-- The three artifacts, of which the first is read as bytes again. A file that is there can be read.
pub record Artifacts : Type 0 where
  pub decision : String
  pub result : Json
  pub attestation : Json

unfoldable pub load_artifacts : Host → Files → Result Refusal Artifacts
load_artifacts h files = do
  result_text ← or_reason "missing-artifact" (lookup "result.json" files)
  attestation_text ← or_reason "missing-artifact" (lookup "attestation.json" files)
  manifest_text ← or_reason "missing-artifact" (lookup "evidence-manifest.json" files)
  result ← read_document (h.disk.loads result_text)
  attestation ← read_document (h.disk.loads attestation_text)
  read_document (h.disk.loads manifest_text)
  ok (record { decision = result_text; result = result; attestation = attestation })

-- The decision against the attestation, and what the attestation binds.
unfoldable pub check_decision : Host → Files → Artifacts → Fields → Result Refusal (Unit {0})
check_decision h files a attestation = do
  check_statement h a.decision attestation
  result ← as_object a.result
  bound ← as_fields (get_field "bound" attestation)
  check_bound h result bound bound_names
  expected ← or_raise "KeyError" (get_field "evidence_manifest_digest" bound)
  untampered (Check.verify h.disk files expected)

unfoldable pub verify : Host → SignerSet → Files → Result Refusal (Unit {0})
verify h set files = do
  a ← load_artifacts h files
  attestation ← as_object a.attestation
  entry ← check_signer set attestation
  check_signature h attestation entry
  check_decision h files a attestation

-- The candidate against what the attestation binds.
unfoldable pub check_candidate : Host → Files → String → Result Refusal (Unit {0})
check_candidate h files candidate = do
  text ← or_reason "unparseable-artifact" (lookup "attestation.json" files)
  read ← read_document (h.disk.loads text)
  attestation ← as_object read
  bound ← as_fields (get_field "bound" attestation)
  refuse_if (not (equals_text (or_null (get_field "subject_digest" bound)) candidate))
      "candidate-digest-mismatch"

unfoldable pub verify_promotion : Host → SignerSet → String → Files → Result Refusal (Unit {0})
verify_promotion h set candidate files = do verify h set files; check_candidate h files candidate
