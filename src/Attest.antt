-- ===== src/Attest.antt =====
-- hub/coherence/attest.py: detached attestations, signed and verified.
pub mod Checks
pub mod Accepted
pub mod Promoted
pub mod Signed
pub mod Sealing
pub mod Ends
pub mod Ordered
use dev_gate_agentic_framewo.Common.{
  ℕ, String, ◌<>◌, Bool, true, false, not, ◌&&◌, ◌||◌, Option, none, some, List, [], ◌∷◌, all,
  contains, find, ◌==◌, string_eq, if◌then◌else◌, leb, ltb,
}
use dev_gate_agentic_framewo.Common.Json.{
  Json, null, str, obj, Fields, end, field, get_field, or_null,
}
use dev_gate_agentic_framewo.Common.Text.{text_le, codes}
use dev_gate_agentic_framewo.Common.Dict.{lookup}
use dev_gate_agentic_framewo.Common.Result.{Result, ok, err, ◌>>=◌, ◌>>◌}
use dev_gate_agentic_framewo.Canon.{CanonError, Codec, canon, digest_bytes}
use dev_gate_agentic_framewo.Evidence.Check
use dev_gate_agentic_framewo.Evidence.{Disk, Files}
use dev_gate_agentic_framewo.Evidence.Check.{Crash, raised, equals_text}

-- The standard library, the schema and the process's environment: `bytes.fromhex`, the hexadecimal
-- HMAC-SHA256, the violations of attestation.schema.json, Python's `==` of JSON values, the stripped
-- signer key, the names of the signer, and whether a fresh temporary directory takes the decision.
pub record Host : Type 0 where
  pub disk : Disk
  pub from_hex : String → Option String
  pub hmac : String → String → String
  pub schema_errors : Json → List String
  pub same : Json → Json → Bool
  pub raw_key : String
  pub key_id : String
  pub identity : String
  pub has_fallback : Bool

-- required(stage, semantics)
abbrev pub required : ℕ → String → Bool
required stage semantics = leb 2 stage && semantics == "fresh-promotion"

-- What `sign` raises: an AttestationError, or the KeyError or CanonError that nothing here catches.
pub data SignError : Type 0 where
  refused : String → SignError
  schema_failed : List String → SignError
  missing : String → SignError
  not_canonical : CanonError → SignError

unfoldable pub signer_key : Host → Result SignError (Option String)
signer_key h = if h.raw_key == "" then ok none else elim (h.from_hex h.raw_key) [
  | none ↦ err (refused "signer-key-not-configured")
  | some k ↦ ok (some k)
]

abbrev pub configured : Option String → Result SignError String
configured none = err (refused "signer-key-not-configured")
configured (some k) = ok k

-- identities[name]
unfoldable pub need : String → Fields → Result SignError Json
need name identities = elim (get_field name identities) [
  | none ↦ err (missing name)
  | some v ↦ ok v
]

abbrev pub present : Json → Result SignError Json
present null = err (refused "evaluator-image-digest-required-for-attestation")
present v = ok v

abbrev pub lift {ℓ} : {A : Type ℓ} → Result CanonError A → Result SignError A
lift (ok a) = ok a
lift (err e) = err (not_canonical e)

abbrev pub no_errors : List String → Result SignError (Unit {0})
no_errors [] = ok tt
no_errors (e ∷ es) = err (schema_failed (e ∷ es))

-- The six identities that an attestation binds.
pub record Bound : Type 0 where
  pub subject : Json
  pub openspec : Json
  pub policy : Json
  pub context : Json
  pub image : Json
  pub evidence : Json

abbrev pub bound_fields : Bound → Fields
bound_fields b = field "subject_digest" b.subject (
    field "openspec_digest" b.openspec (
      field "policy_digest" b.policy (
        field "context_digest" b.context (
          field "evaluator_image_digest" b.image
            (field "evidence_manifest_digest" b.evidence end)))))

unfoldable pub bind : Fields → Result SignError Bound
bind identities = do
  image ← present (or_null (get_field "evaluator_image_digest" identities))
  subject ← need "subject_digest" identities
  openspec ← need "openspec_digest" identities
  policy ← need "policy_digest" identities
  context ← need "context_digest" identities
  evidence ← need "evidence_manifest_digest" identities
  ok (record {
    subject = subject;
    openspec = openspec;
    policy = policy;
    context = context;
    image = image;
    evidence = evidence;
  })

-- The attestation's entries, followed by those given.
abbrev pub attestation_with : Host → String → Bound → String → Fields → Fields
attestation_with h statement b time rest =
    field "api_version" (str "devgate.spec-coherence.attestation/v1") (
      field "statement_digest" (str statement) (
        field "bound" (obj (bound_fields b)) (
          field "signer"
            (obj (field "key_id" (str h.key_id) (field "identity" (str h.identity) end)))
            (field "issued_at" (str time) rest))))

-- SIGNATURE_PREFIX + hmac(...)
abbrev pub signature : Host → String → String → String
signature h key bytes = "hmac-sha256:" <> h.hmac key bytes

unfoldable pub sign : Host → String → Fields → String → Result SignError Fields
sign h decision identities time = do
  configured_key ← signer_key h
  key ← configured configured_key
  bound ← bind identities
  statement ← lift (digest_bytes h.disk.codec "decision/v1" decision)
  bytes ← lift (canon h.disk.codec (obj (attestation_with h statement bound time end)))
  let signed =
      attestation_with h statement bound time (field "signature" (str (signature h key bytes)) end)
  no_errors (h.schema_errors (obj signed))
  ok signed
