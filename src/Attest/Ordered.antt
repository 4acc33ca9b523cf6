-- ===== src/Attest/Ordered.antt =====
-- hub/coherence/attest.py: what `seal_run` leaves on disk, whether it returns or raises.
use dev_gate_agentic_framewo.Common.{
  ◌≡◌, ◌∙◌, sym, ◌⊎◌, ℕ, String, true, false, some, string_eq, arith, inl, inr,
}
use mathlib.Core.Path.{subst}
use dev_gate_agentic_framewo.Common.Json.{obj, Fields}
use dev_gate_agentic_framewo.Common.Dict.{lookup}
use dev_gate_agentic_framewo.Common.Result.{Result, ok, err, ok_injective}
use dev_gate_agentic_framewo.Canon.{canon}
use dev_gate_agentic_framewo.Evidence.{Files}
use dev_gate_agentic_framewo.Attest.{Host, required, signature}
use dev_gate_agentic_framewo.Attest.Checks.{SignerSet, verify_attestation, is_ascii}
use dev_gate_agentic_framewo.Attest.Signed.{IsEnrolled, sign-verify_attestation}
use dev_gate_agentic_framewo.Attest.Sealing.{
  Job, SealError, envelope_emit_failed, exit_code, seal_run,
}
use dev_gate_agentic_framewo.Attest.Ends.{
  HasEnvelope, HasAttestation, SameEnvelope, IsSealed, Ends, seal_run-Ends,
}

seal_run-IsSealed :
    (h : Host) (j : Job) (files : Files) (code : ℕ)
    → (seal_run h j files).outcome ≡ ok code
    → (code ≡ exit_code j) × IsSealed h j (seal_run h j files).files
seal_run-IsSealed h j files code r = go (seal_run-Ends h j files)
  where
    go :
        Ends h j (IsSealed h j) files (seal_run h j files)
        → (code ≡ exit_code j) × IsSealed h j (seal_run h j files).files
    go (inl (w, e, kept)) = absurd (clash (sym r ∙ e))
      where
        clash : {v : SealError} → ◌≡◌ {A = Result SealError ℕ} (ok code) (err v) → ⊥
        clash e = cc
    go (inr (inr e, p)) = absurd (clash (sym r ∙ e))
      where
        clash : {v : SealError} → ◌≡◌ {A = Result SealError ℕ} (ok code) (err v) → ⊥
        clash e = cc
    go (inr (inl e, p)) = (ok_injective (sym r ∙ e), p)

-- `seal_run` returns a code only where the result is canonical and an envelope is on disk that carries
-- the code, which is the decision's, and says that the run is signed exactly when the stage and the
-- semantics require it.
pub seal_run-returns :
    (h : Host) (j : Job) (files : Files) (code : ℕ)
    → (seal_run h j files).outcome ≡ ok code
    → (payload : String) × (canon h.disk.codec j.result ≡ ok payload)
      × HasEnvelope h j (required j.stage j.semantics) code (seal_run h j files).files
seal_run-returns h j files code r =
    let (same, (payload, made, has, attested)) = seal_run-IsSealed h j files code r in
    (
      payload,
      made,
      subst (λ n. HasEnvelope h j (required j.stage j.semantics) n (seal_run h j files).files)
          (sym same) has,
    )

-- A required attestation is on disk where `seal_run` returns.
seal_run-HasAttestation :
    (h : Host) (j : Job) (files : Files) (code : ℕ)
    → (seal_run h j files).outcome ≡ ok code
    → required j.stage j.semantics ≡ true
    → (payload : String) × (canon h.disk.codec j.result ≡ ok payload)
      × HasAttestation h j payload (seal_run h j files).files
seal_run-HasAttestation h j files code r needed =
    let (same, (payload, made, has, attested)) = seal_run-IsSealed h j files code r in
    (payload, made, there attested)
  where
    there : {P : Type 0} → (required j.stage j.semantics ≡ false) ⊎ P → P
    there (inl free) = absurd (ground (arith, free, needed))
    there (inr p) = p

-- Where `seal_run` raises, whether the signer has no key, the attestation breaks its schema, or a file
-- or its directory cannot be written or synced, the envelope on disk is as it was; or else what it
-- raises is envelope-emit-failed, and the disk holds the whole of this run: its own envelope, with the
-- decision's code, and the attestation of the canonical decision where one is required.
pub seal_run-raises :
    (h : Host) (j : Job) (files : Files) (w : SealError)
    → (seal_run h j files).outcome ≡ err w
    → SameEnvelope files (seal_run h j files).files
      ⊎ ((w ≡ envelope_emit_failed) × IsSealed h j (seal_run h j files).files)
seal_run-raises h j files w r = go (seal_run-Ends h j files)
  where
    clash : {c : ℕ} → ◌≡◌ {A = Result SealError ℕ} (err w) (ok c) → ⊥
    clash e = cc

    same_error : {v : SealError} → ◌≡◌ {A = Result SealError ℕ} (err w) (err v) → w ≡ v
    same_error e = cc

    go :
        Ends h j (IsSealed h j) files (seal_run h j files)
        → SameEnvelope files (seal_run h j files).files
          ⊎ ((w ≡ envelope_emit_failed) × IsSealed h j (seal_run h j files).files)
    go (inl (v, e, kept)) = inl kept
    go (inr (inl e, p)) = absurd (clash (sym r ∙ e))
    go (inr (inr e, p)) = inr (same_error (sym r ∙ e), p)

-- A sealed run that authorises a promotion is accepted by its consumers: where `seal_run` returns and
-- the stage and the semantics require an attestation, the one on disk passes `verify_attestation` for
-- the canonical decision, with every signer set that has the signer in force.
pub seal_run-verify_attestation :
    (h : Host) (j : Job) (files : Files) (code : ℕ) (set : SignerSet)
    → (seal_run h j files).outcome ≡ ok code
    → required j.stage j.semantics ≡ true
    → IsEnrolled h set
    → ((key bytes : String) → is_ascii (signature h key bytes) ≡ true)
    → (payload : String) × (attestation : Fields) × (bytes : String) × (canon h.disk.codec j.result
        ≡ ok payload)
      × (canon h.disk.codec (obj attestation) ≡ ok bytes)
      × (lookup "attestation.json" (seal_run h j files).files ≡ some bytes)
      × (verify_attestation h payload attestation set ≡ ok tt)
seal_run-verify_attestation h j files code set r needed enrolled ascii =
    let (payload, made, attested) = seal_run-HasAttestation h j files code r needed in
    let (attestation, bytes, signed, dumped, there) = attested in
    (
      payload,
      attestation,
      bytes,
      made,
      dumped,
      there,
      sign-verify_attestation h payload _ j.time attestation set signed enrolled ascii,
    )
