-- ===== src/Attest/Ends.antt =====
-- hub/coherence/attest.py: how each step of `seal_run` ends, and what it has left on disk.
use dev_gate_agentic_framewo.Common.{
  ◌≡◌, ◌∙◌, refl, sym, ◌⊎◌, ℕ, String, Bool, true, false, not, some, ◌==◌, string_eq, if◌then◌else◌,
  arith, Bool-cases, inl, inr,
}
use mathlib.Core.Path.{subst}
use dev_gate_agentic_framewo.Common.Json.{obj, Fields}
use dev_gate_agentic_framewo.Common.Dict.{lookup, insert, lookup-insert}
use dev_gate_agentic_framewo.Common.Result.{Result, ok, err}
use dev_gate_agentic_framewo.Canon.{CanonError, canon}
use dev_gate_agentic_framewo.Evidence.{Files}
use dev_gate_agentic_framewo.Attest.{Host, SignError, required}
use dev_gate_agentic_framewo.Attest.Sealing.{
  Job, SealError, envelope_emit_failed, Sealing, is_decision_kept, emit_decision, exit_code,
  envelope, write_envelope, emit_envelope, write_attestation, emit_attestation, sign_run,
  seal_decision, seal_run,
}

lookup-other :
    (k l v : String) (files : Files)
    → (k == l) ≡ false
    → lookup k (insert l v files) ≡ lookup k files
lookup-other k l v files other = lookup-insert k l v files ∙ ground (arith, other)

lookup-own : (k v : String) (files : Files) → lookup k (insert k v files) ≡ some v
lookup-own k v files = lookup-insert k k v files ∙ ground arith

-- The envelope is on disk, saying whether the run is signed, with the decision's code.
abbrev pub HasEnvelope : Host → Job → Bool → ℕ → Files → Type 0
HasEnvelope h j signed code files =
    (bytes : String) × (canon h.disk.codec (envelope j signed) ≡ ok bytes)
    × (lookup "run-envelope.json" files ≡ some bytes)
    × (code ≡ exit_code j)

-- The run's attestation of the decision is on disk.
abbrev pub HasAttestation : Host → Job → String → Files → Type 0
HasAttestation h j payload files =
    (attestation : Fields) × (bytes : String) × (sign_run h j payload ≡ ok attestation)
    × (canon h.disk.codec (obj attestation) ≡ ok bytes)
    × (lookup "attestation.json" files ≡ some bytes)

if-true : (b : Bool) (x y : Sealing) → b ≡ true → (if b then x else y) ≡ x
if-true b x y e = rw e refl

if-false : (b : Bool) (x y : Sealing) → b ≡ false → (if b then x else y) ≡ y
if-false b x y e = rw e refl

-- The envelope is as it was.
abbrev pub SameEnvelope : Files → Files → Type 0
SameEnvelope before after = lookup "run-envelope.json" after ≡ lookup "run-envelope.json" before

module _ (h : Host) (j : Job) where
  -- Every file is written: the decision's code is returned, or the directory of the envelope could not
  -- be synced.
  abbrev pub IsFinished : Result SealError ℕ → Type 0
  IsFinished r = (r ≡ ok (exit_code j)) ⊎ (r ≡ err envelope_emit_failed)

  -- An error that leaves the envelope as it was, or an end that leaves the files as described.
  abbrev pub Ends : (Files → Type 0) → Files → Sealing → Type 0
  Ends P files s =
      ((w : SealError) × (s.outcome ≡ err w) × SameEnvelope files s.files)
      ⊎ (IsFinished s.outcome × P s.files)

  Ends-if :
      (P : Files → Type 0) (files : Files) (b : Bool) (x y : Sealing)
      → (b ≡ true → Ends P files x)
      → (b ≡ false → Ends P files y)
      → Ends P files (if b then x else y)
  Ends-if P files b x y yes' no' = elim (Bool-cases b) [
    | inl e ↦ subst (Ends P files) (sym (if-true b x y e)) (yes' e)
    | inr e ↦ subst (Ends P files) (sym (if-false b x y e)) (no' e)
  ]

  -- What came before kept the envelope.
  Ends-after :
      (P Q : Files → Type 0) (before files : Files) (s : Sealing)
      → SameEnvelope before files
      → ((after : Files) → P after → Q after)
      → Ends P files s
      → Ends Q before s
  Ends-after P Q before files s same map' (inl (w, e, kept)) = inl (w, e, kept ∙ same)
  Ends-after P Q before files s same map' (inr (done, p)) = inr (done, map' s.files p)

  -- The envelope is written, and the attestation left as it was.
  abbrev Enveloped : Bool → Files → Files → Type 0
  Enveloped signed files after =
      HasEnvelope h j signed (exit_code j) after
      × (lookup "attestation.json" after ≡ lookup "attestation.json" files)

  -- The envelope and the attestation are written.
  abbrev Attested : String → Files → Type 0
  Attested payload after =
      HasEnvelope h j true (exit_code j) after × HasAttestation h j payload after

  write_envelope-Ends :
      (signed : Bool) (files : Files) (r : Result CanonError String)
      → canon h.disk.codec (envelope j signed) ≡ r
      → Ends (Enveloped signed files) files (write_envelope h j files r)
  unfolding write_envelope
  write_envelope-Ends signed files (err e) made = inl (_, refl, refl)
  write_envelope-Ends signed files (ok bytes) made =
      Ends-if (Enveloped signed files) files (h.disk.is_writable "run-envelope.json") _ _
        (λ e. inr (
          finished (h.disk.is_synced "run-envelope.json"),
          (
            (bytes, made, lookup-own "run-envelope.json" bytes files, refl),
            lookup-other "attestation.json" "run-envelope.json" bytes files
                (unfold string_eq in refl),
          ),
        ))
        (λ e. inl (_, refl, refl))
    where
      finished : (b : Bool) → IsFinished (if b then ok (exit_code j) else err envelope_emit_failed)
      finished true = inl refl
      finished false = inr refl

  write_attestation-Ends :
      (payload : String) (attestation : Fields) (files : Files) (r : Result CanonError String)
      → sign_run h j payload ≡ ok attestation
      → canon h.disk.codec (obj attestation) ≡ r
      → Ends (Attested payload) files (write_attestation h j files r)
  unfolding write_attestation emit_envelope
  write_attestation-Ends payload attestation files (err e) signed made = inl (_, refl, refl)
  write_attestation-Ends payload attestation files (ok bytes) signed made =
      Ends-if (Attested payload) files (h.disk.is_writable "attestation.json") _ _
        (λ e.
          Ends-if (Attested payload) files (h.disk.is_synced "attestation.json") _ _
            (λ e'.
              Ends-after (Enveloped true (insert "attestation.json" bytes files)) (Attested payload)
                files (insert "attestation.json" bytes files) _ same
                (λ after p. (
                  p.0,
                  (
                    attestation,
                    bytes,
                    signed,
                    made,
                    p.1 ∙ lookup-own "attestation.json" bytes files,
                  ),
                ))
                (write_envelope-Ends true (insert "attestation.json" bytes files) _ refl))
            (λ e'. inl (_, refl, same)))
        (λ e. inl (_, refl, refl))
    where
      same : SameEnvelope files (insert "attestation.json" bytes files)
      same =
          lookup-other "run-envelope.json" "attestation.json" bytes files (unfold string_eq in refl)

  emit_attestation-Ends :
      (payload : String) (files : Files) (r : Result SignError Fields)
      → sign_run h j payload ≡ r
      → Ends (Attested payload) files (emit_attestation h j files r)
  unfolding emit_attestation
  emit_attestation-Ends payload files (err e) signed = inl (_, refl, refl)
  emit_attestation-Ends payload files (ok attestation) signed =
      write_attestation-Ends payload attestation files _ signed refl

  emit_decision-SameEnvelope :
      (payload : String) (files : Files) → SameEnvelope files (emit_decision h payload files)
  emit_decision-SameEnvelope payload files = elim (Bool-cases (h.disk.is_writable "result.json")) [
    | inl e ↦
        rw e
          (lookup-other "run-envelope.json" "result.json" payload files (unfold string_eq in refl))
    | inr e ↦ rw e refl
  ]

  -- What a run that ends has left: the envelope, which says whether it is signed, and the attestation
  -- of the canonical decision where one is required.
  abbrev pub IsSealed : Files → Type 0
  IsSealed after =
      (payload : String) × (canon h.disk.codec j.result ≡ ok payload)
      × HasEnvelope h j (required j.stage j.semantics) (exit_code j) after
      × ((required j.stage j.semantics ≡ false) ⊎ HasAttestation h j payload after)

  seal_decision-Ends :
      (files : Files) (r : Result CanonError String)
      → canon h.disk.codec j.result ≡ r
      → Ends IsSealed files (seal_decision h j files r)
  unfolding seal_decision emit_envelope
  seal_decision-Ends files (err e) made = inl (_, refl, refl)
  seal_decision-Ends files (ok payload) made =
      Ends-if IsSealed files (not (is_decision_kept h)) _ _ (λ e. inl (_, refl, same))
        (λ e.
          Ends-if IsSealed files (required j.stage j.semantics) _ _
            (λ needed.
              Ends-after (Attested payload) IsSealed files (emit_decision h payload files) _ same
                (λ after p. (
                  payload,
                  made,
                  subst (λ b. HasEnvelope h j b (exit_code j) after) (sym needed) p.0,
                  inr p.1,
                ))
                (emit_attestation-Ends payload (emit_decision h payload files) _ refl))
            (λ free.
              Ends-after (Enveloped false (emit_decision h payload files)) IsSealed files
                (emit_decision h payload files) _ same
                (λ after p. (
                  payload,
                  made,
                  subst (λ b. HasEnvelope h j b (exit_code j) after) (sym free) p.0,
                  inl free,
                ))
                (write_envelope-Ends false (emit_decision h payload files) _ refl)))
    where
      same : SameEnvelope files (emit_decision h payload files)
      same = emit_decision-SameEnvelope payload files

  pub seal_run-Ends : (files : Files) → Ends IsSealed files (seal_run h j files)
  unfolding seal_run
  seal_run-Ends files = seal_decision-Ends files _ refl
