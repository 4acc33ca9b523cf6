-- ===== src/Adoption/Early.antt =====
-- hub/coherence/adoption.py: the ladder before stage 2.
use dev_gate_agentic_framewo.Common.{
  ℕ, ◌≡◌, refl, ◌∙◌, String, Bool, false, List, [], ◌∷◌, any, ◌&&◌, arith, not, Bool-cases, inl,
  inr, ◌<◌, string_eq, ◌==◌,
}
use dev_gate_agentic_framewo.Ledger.{
  Row, Finding, Outcome, satisfied, violated, unresolved, is_violated,
}
use dev_gate_agentic_framewo.Adoption.Shelter.{Ladder, enforce_findings}
use dev_gate_agentic_framewo.Adoption.Mirror.{mirror, findings_of, enforce_outcome, enforce_ledger}
use dev_gate_agentic_framewo.Adoption.Evaluate.{apply_ladder}
use dev_gate_agentic_framewo.Adoption.Blocking.{finding_blocks, enforce_findings-flag}
use dev_gate_agentic_framewo.Adoption.Stages.{
  enforce-blocks, enforce-assertion_id, strictest-blocks,
}

-- Some finding is about the assertion.
abbrev pub is_about : String → Finding → Bool
is_about aid f = aid == f.assertion_id

-- A VIOLATED row on which there is no finding at all.
abbrev pub is_bare : List Finding → Row → Bool
is_bare fs e = is_violated e.outcome && not (any (is_about e.assertion_id) fs)

enforce_findings-early :
    (l : Ladder) (fs : List Finding)
    → l.stage < 2
    → any finding_blocks (enforce_findings l fs).0 ≡ false
unfolding enforce_findings
enforce_findings-early l [] h = refl
enforce_findings-early l (f ∷ fs) h =
    ground (arith, enforce-blocks l f, enforce_findings-early l fs h)

about-enforce_findings :
    (aid : String) (l : Ladder) (fs : List Finding)
    → any (is_about aid) (enforce_findings l fs).0 ≡ any (is_about aid) fs
unfolding enforce_findings
about-enforce_findings aid l [] = refl
about-enforce_findings aid l (f ∷ fs) =
    rw (enforce-assertion_id l f, about-enforce_findings aid l fs)

blocks-findings_of :
    (aid : String) (fs : List Finding)
    → any finding_blocks fs ≡ false
    → any finding_blocks (findings_of aid fs) ≡ false
unfolding findings_of
blocks-findings_of aid [] h = h
blocks-findings_of aid (f ∷ fs) h = ground (arith, blocks-findings_of aid fs)

mirror-quiet :
    (f : Finding) (fs : List Finding) (e : Row)
    → any finding_blocks (f ∷ fs) ≡ false
    → (mirror (f ∷ fs) e).1 ≡ false
unfolding mirror
mirror-quiet f fs e h = strictest-blocks f.enforcement fs ∙ h

mirror-early :
    (aid : String) (fs : List Finding) (e : Row)
    → any finding_blocks fs ≡ false
    → (mirror (findings_of aid fs) e).1 ≡ not (any (is_about aid) fs)
unfolding findings_of mirror
mirror-early aid [] e h = refl
mirror-early aid (f ∷ fs) e h = elim (Bool-cases (aid == f.assertion_id)) [
  | inl y ↦ rw y (mirror-quiet f (findings_of aid fs) e (ground (arith, blocks-findings_of aid fs)))
  | inr n ↦ rw n (mirror-early aid fs e (ground arith))
]

enforce_outcome-early :
    (stage : ℕ) (fs : List Finding) (o : Outcome) (e : Row)
    → stage < 2
    → any finding_blocks fs ≡ false
    → (enforce_outcome stage fs o e).1 ≡ (is_violated o && not (any (is_about e.assertion_id) fs))
unfolding enforce_outcome
enforce_outcome-early stage fs satisfied e h q = refl
enforce_outcome-early stage fs violated e h q = mirror-early e.assertion_id fs e q
enforce_outcome-early stage fs unresolved e h q = ground arith

enforce_ledger-early :
    (stage : ℕ) (fs : List Finding) (es : List Row)
    → stage < 2
    → any finding_blocks fs ≡ false
    → (enforce_ledger stage fs es).1 ≡ any (is_bare fs) es
unfolding enforce_ledger
enforce_ledger-early stage fs [] h q = refl
enforce_ledger-early stage fs (e ∷ es) h q =
    rw (enforce_outcome-early stage fs e.outcome e h q, enforce_ledger-early stage fs es h q)

any-is_bare :
    (fs gs : List Finding) (es : List Row)
    → ((aid : String) → any (is_about aid) fs ≡ any (is_about aid) gs)
    → any (is_bare fs) es ≡ any (is_bare gs) es
any-is_bare fs gs [] h = refl
any-is_bare fs gs (e ∷ es) h = rw (h e.assertion_id, any-is_bare fs gs es h)

-- At stage 0 or 1 a run is blocked exactly when some assertion is VIOLATED and no finding at all is
-- about it; no finding and no unresolved assertion blocks there.
pub apply_ladder-early :
    (l : Ladder) (ledger : List Row) (findings : List Finding)
    → l.stage < 2
    → (apply_ladder l ledger findings).blocked ≡ any (is_bare findings) ledger
unfolding apply_ladder
apply_ladder-early l ledger findings h =
    let quiet = enforce_findings-early l findings h in
    rw (enforce_findings-flag l findings, quiet, enforce_ledger-early l.stage _ ledger h quiet)
      (any-is_bare _ findings ledger (λ aid. about-enforce_findings aid l findings))
