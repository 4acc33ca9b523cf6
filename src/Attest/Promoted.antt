-- ===== src/Attest/Promoted.antt =====
-- hub/coherence/attest.py: what an accepted promotion says of the run's files.
use dev_gate_agentic_framewo.Common.{
  ◌≡◌, ◌∙◌, refl, sym, ap, String, Bool, true, false, not, Option, some, List, [], ◌∷◌, string_eq,
  All, arith,
}
use mathlib.Core.Path.{subst}
use dev_gate_agentic_framewo.Common.Json.{Json, str, obj, Fields, get_field, or_null}
use dev_gate_agentic_framewo.Common.Dict.{lookup}
use dev_gate_agentic_framewo.Common.Result.{Result, ok, err, ok_injective, >>=-ok}
use dev_gate_agentic_framewo.Evidence.Check
use dev_gate_agentic_framewo.Evidence.{Files}
use dev_gate_agentic_framewo.Evidence.Check.{Crash, raised, equals_text}
use dev_gate_agentic_framewo.Attest.{Host}
use dev_gate_agentic_framewo.Attest.Checks.{
  Signer, SignerSet, refuse_if, as_fields, check_signer, or_raise, check_signature, check_statement,
  bound_names, check_bound, as_object, untampered, or_reason, read_document, Artifacts,
  load_artifacts, check_decision, verify, check_candidate, verify_promotion,
}
use dev_gate_agentic_framewo.Attest.Accepted.{
  refuse_if-ok, not-false, or_raise-ok, or_reason-ok, read_document-ok, as_object-ok,
  equals_text-some, IsTrusted, check_signer-IsTrusted, IsSignedBy, check_signature-IsSignedBy,
  States, check_statement-States,
}

-- The entries of the result and of what the attestation binds are the same.
abbrev pub IsBound : Host → Fields → Fields → String → Type 0
IsBound h result bound k =
    h.same (or_null (get_field k result)) (or_null (get_field k bound)) ≡ true

check_bound-IsBound :
    (h : Host) (result bound : Fields) (ks : List String) (u : Unit {0})
    → check_bound h result bound ks ≡ ok u
    → All (IsBound h result bound) ks
unfolding check_bound
check_bound-IsBound h result bound [] u r = tt
check_bound-IsBound h result bound (k ∷ ks) u r =
    let (v, r1, one) =
      >>=-ok
        (refuse_if (not (h.same (or_null (get_field k result)) (or_null (get_field k bound)))) _)
        r in
    (not-false _ (refuse_if-ok _ _ v one), check_bound-IsBound h result bound ks u r1)

untampered-ok : (r : Result Crash Bool) (u : Unit {0}) → untampered r ≡ ok u → r ≡ ok true
untampered-ok (ok true) u h = refl
untampered-ok (ok false) u h = absurd (ground arith)
untampered-ok (err (raised name)) u h = absurd (ground arith)

abbrev pub HasEvidence : Host → Files → Fields → Type 0
HasEvidence h files bound =
    (expected : Json) × (get_field "evidence_manifest_digest" bound ≡ some expected)
    × (Check.verify h.disk files expected ≡ ok true)

-- What `verify` has checked of the files of a run that it accepts.
pub record IsAccepted (h : Host) (set : SignerSet) (files : Files) : Type 0 where
  pub decision : String
  pub attested : String
  pub result : Fields
  pub attestation : Fields
  pub bound : Fields
  pub signer : Signer
  pub is_decision : lookup "result.json" files ≡ some decision
  pub is_result : h.disk.loads decision ≡ ok (obj result)
  pub is_attested : lookup "attestation.json" files ≡ some attested
  pub is_attestation : h.disk.loads attested ≡ ok (obj attestation)
  pub binds : as_fields (get_field "bound" attestation) ≡ ok bound
  pub trusted : IsTrusted set attestation signer
  pub signed : IsSignedBy h attestation signer
  pub states : States h decision attestation
  pub agrees : All (IsBound h result bound) bound_names
  pub evidence : HasEvidence h files bound

record IsLoaded (h : Host) (files : Files) (a : Artifacts) : Type 0 where
  attested : String
  is_decision : lookup "result.json" files ≡ some a.decision
  is_result : h.disk.loads a.decision ≡ ok a.result
  is_attested : lookup "attestation.json" files ≡ some attested
  is_attestation : h.disk.loads attested ≡ ok a.attestation

load_artifacts-IsLoaded :
    (h : Host) (files : Files) (a : Artifacts) → load_artifacts h files ≡ ok a → IsLoaded h files a
unfolding load_artifacts
load_artifacts-IsLoaded h files a r =
    let (t1, r1, c1) = >>=-ok (or_reason "missing-artifact" (lookup "result.json" files)) r in
    let (t2, r2, c2) = >>=-ok (or_reason "missing-artifact" (lookup "attestation.json" files)) r1 in
    let (t3, r3, c3) =
      >>=-ok (or_reason "missing-artifact" (lookup "evidence-manifest.json" files)) r2 in
    let (j1, r4, c4) = >>=-ok (read_document (h.disk.loads t1)) r3 in
    let (j2, r5, c5) = >>=-ok (read_document (h.disk.loads t2)) r4 in
    let (j3, r6, c6) = >>=-ok (read_document (h.disk.loads t3)) r5 in
    subst (IsLoaded h files) (ok_injective r6) (record {
      attested = t2;
      is_decision = or_reason-ok "missing-artifact" (lookup "result.json" files) t1 c1;
      is_result = read_document-ok (h.disk.loads t1) j1 c4;
      is_attested = or_reason-ok "missing-artifact" (lookup "attestation.json" files) t2 c2;
      is_attestation = read_document-ok (h.disk.loads t2) j2 c5;
    })

-- A run is accepted only with a decision and an attestation that are there and objects, a signer of
-- the set that is in force, its signature of the whole attestation, the decision's own digest as its
-- statement, the six bound identities as the result has them, and untampered evidence under the bound
-- digest.
pub verify-IsAccepted :
    (h : Host) (set : SignerSet) (files : Files)
    → verify h set files ≡ ok tt
    → IsAccepted h set files
unfolding verify check_decision
verify-IsAccepted h set files r =
    let (a, r1, loaded) = >>=-ok (load_artifacts h files) r in
    let (attestation, r2, c2) = >>=-ok (as_object a.attestation) r1 in
    let (entry, r3, c3) = >>=-ok (check_signer set attestation) r2 in
    let (u4, r4, c4) = >>=-ok (check_signature h attestation entry) r3 in
    let (u5, r5, c5) = >>=-ok (check_statement h a.decision attestation) r4 in
    let (result, r6, c6) = >>=-ok (as_object a.result) r5 in
    let (bound, r7, c7) = >>=-ok (as_fields (get_field "bound" attestation)) r6 in
    let (u8, r8, c8) = >>=-ok (check_bound h result bound bound_names) r7 in
    let (expected, r9, c9) =
      >>=-ok (or_raise "KeyError" (get_field "evidence_manifest_digest" bound)) r8 in
    let l = load_artifacts-IsLoaded h files a loaded in
    record {
      decision = a.decision;
      attested = l.attested;
      result = result;
      attestation = attestation;
      bound = bound;
      signer = entry;
      is_decision = l.is_decision;
      is_result = l.is_result ∙ ap (λ j. ok j) (as_object-ok a.result result c6);
      is_attested = l.is_attested;
      is_attestation =
          l.is_attestation ∙ ap (λ j. ok j) (as_object-ok a.attestation attestation c2);
      binds = c7;
      trusted = check_signer-IsTrusted set attestation entry c3;
      signed = check_signature-IsSignedBy h attestation entry u4 c4;
      states = check_statement-States h a.decision attestation u5 c5;
      agrees = check_bound-IsBound h result bound bound_names u8 c8;
      evidence = (
        expected,
        or_raise-ok "KeyError" (get_field "evidence_manifest_digest" bound) expected c9,
        untampered-ok (Check.verify h.disk files expected) tt r9,
      );
    }

-- The run is accepted, and its attestation and its result are about the candidate.
abbrev pub IsPromotable : Host → SignerSet → String → Files → Type 0
IsPromotable h set candidate files =
    (a : IsAccepted h set files) × (get_field "subject_digest" a.bound ≡ some (str candidate))
    × (h.same (or_null (get_field "subject_digest" a.result)) (str candidate) ≡ true)

check_candidate-bound :
    (h : Host) (set : SignerSet) (files : Files) (candidate : String) (a : IsAccepted h set files)
    → check_candidate h files candidate ≡ ok tt
    → get_field "subject_digest" a.bound ≡ some (str candidate)
unfolding check_candidate
check_candidate-bound h set files candidate a r =
    let (text, r1, c1) =
      >>=-ok (or_reason "unparseable-artifact" (lookup "attestation.json" files)) r in
    let (read, r2, c2) = >>=-ok (read_document (h.disk.loads text)) r1 in
    let (attestation, r3, c3) = >>=-ok (as_object read) r2 in
    let (bound, r4, c4) = >>=-ok (as_fields (get_field "bound" attestation)) r3 in
    let text_same =
      some_injective (sym a.is_attested ∙ or_reason-ok "unparseable-artifact" _ text c1) in
    let read_same =
      ok_injective
        (sym a.is_attestation ∙ (ap h.disk.loads text_same ∙ read_document-ok _ read c2)) in
    let same = obj_injective (read_same ∙ as_object-ok read attestation c3) in
    let bound_same =
      ok_injective (sym a.binds ∙ (ap (λ f. as_fields (get_field "bound" f)) same ∙ c4)) in
    ap (get_field "subject_digest") bound_same
    ∙ equals_text-some (get_field "subject_digest" bound) candidate
        (not-false _ (refuse_if-ok _ _ tt r4))
  where
    some_injective : {A : Type 0} {x y : A} → ◌≡◌ {A = Option A} (some x) (some y) → x ≡ y
    some_injective e = cc

    obj_injective : {x y : Fields} → obj x ≡ obj y → x ≡ y
    obj_injective e = cc

-- A promotion is accepted only of a run that `verify` accepts and whose attestation and result are of
-- the candidate that is promoted: a valid attestation of another subject is refused.
pub verify_promotion-IsPromotable :
    (h : Host) (set : SignerSet) (candidate : String) (files : Files)
    → verify_promotion h set candidate files ≡ ok tt
    → IsPromotable h set candidate files
unfolding verify_promotion
verify_promotion-IsPromotable h set candidate files r =
    let (u, r1, c1) = >>=-ok (verify h set files) r in
    let a = verify-IsAccepted h set files c1 in
    let bound = check_candidate-bound h set files candidate a r1 in
    (
      a,
      bound,
      ap (λ (o : Option Json). h.same (or_null (get_field "subject_digest" a.result)) (or_null o))
            (sym bound)
          ∙ a.agrees.0,
    )
