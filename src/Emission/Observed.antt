-- ===== src/Emission/Observed.antt =====
-- hub/coherence/__main__.py: the state of the claim that `_emit_decision_claim` writes.
use dev_gate_agentic_framewo.Common.{
  ◌≡◌, ◌≢◌, ◌∙◌, refl, sym, ap, String, Bool, true, false, Option, none, List, [], ◌∷◌, all, ◌==◌,
  ◌!=◌, string_eq, arith, Bool-cases, inl, inr,
}
use mathlib.Core.Path.{subst}
use dev_gate_agentic_framewo.Common.Dict.{Dict}
use dev_gate_agentic_framewo.Common.Result.{ok}
use dev_gate_agentic_framewo.Claim.{
  State, state_eq, requested, observed, verified, unknown, can_transition, Claim, Verdict, Effect,
  returns, new_claim, moved, apply_table, transition, bind, attach_evidence, is_stale, revalidate,
}
use dev_gate_agentic_framewo.Emission.{
  Decided, ◌then_do◌, roles, bind_all, stages, walk, emit_decision_claim,
}

-- A chain that has not raised, on a claim in this state with this verdict.
abbrev Stands : State → Option Verdict → Effect → Type 0
Stands s v e = (e.raised ≡ none) × (e.claim.state ≡ s) × (e.claim.independent_verification ≡ v)

then_do-Stands :
    (s : State) (v : Option Verdict) (e : Effect) (f : Claim → Effect)
    → e.raised ≡ none
    → Stands s v (f e.claim)
    → Stands s v (e then_do f)
then_do-Stands s v e f h k = rw h k

abbrev is_named : String × String → Bool
is_named (role, digest) = role != ""

bind_all-Stands :
    (rs : List (String × String)) (c : Claim)
    → all is_named rs ≡ true
    → Stands c.state c.independent_verification (bind_all rs c)
unfolding bind_all bind
bind_all-Stands [] c h = (refl, refl, refl)
bind_all-Stands ((role, digest) ∷ rs) c h = elim (Bool-cases (digest == "")) [
  | inl blank ↦ rw blank (bind_all-Stands rs c (ground arith))
  | inr given ↦ elim (Bool-cases (role == "")) [
    | inl e ↦ absurd (ground arith)
    | inr e ↦ rw (given, e) (bind_all-Stands rs _ (ground arith))
  ]
]

transition-moved :
    (s t : State) (why : String) (c : Claim)
    → c.state ≡ s
    → can_transition s t ≡ ok true
    → (t == verified) ≡ false
    → transition c t why false ≡ returns (moved c t why)
unfolding transition apply_table
transition-moved s t why c here allowed other =
    rw other (ap (apply_table c t why) (ap (λ x. can_transition x t) here ∙ allowed))

-- The stages lead from one state to another by moves that the table allows, none to VERIFIED.
abbrev IsPath : State → List (State × String) → State → Type 0
IsPath s [] t = s ≡ t
IsPath s ((m, why) ∷ ms) t =
    (can_transition s m ≡ ok true) × ((m == verified) ≡ false) × IsPath m ms t

walk-Stands :
    (s t : State) (ms : List (State × String)) (c : Claim)
    → c.state ≡ s
    → IsPath s ms t
    → Stands t c.independent_verification (walk ms c)
unfolding walk moved
walk-Stands s t [] c here path = (refl, here ∙ path, refl)
walk-Stands s t ((m, why) ∷ ms) c here (allowed, other, path) =
    subst (λ e. Stands t c.independent_verification (e then_do walk ms))
      (sym (transition-moved s m why c here allowed other))
      (walk-Stands m t ms (moved c m why) refl path)

stages-IsPath : (d : Decided) → IsPath requested (stages d) observed
unfolding can_transition state_eq
stages-IsPath d = (refl, refl, (refl, refl, (refl, refl, (refl, refl, (refl, refl, refl)))))

attach_evidence-Stands :
    (s : State) (v : Option Verdict) (c : Claim)
    → c.state ≡ s
    → c.independent_verification ≡ v
    → Stands s v (attach_evidence c "evidence-manifest.json")
unfolding attach_evidence string_eq
attach_evidence-Stands s v c h k = (refl, h, k)

emit_decision_claim-Stands : (d : Decided) → Stands observed none (emit_decision_claim d)
unfolding emit_decision_claim new_claim string_eq
emit_decision_claim-Stands d =
    let c = new_claim d.claim_id d.requirement d.subject_digest "devgate-coherence" in
    let bound = bind_all-Stands (roles d) c refl in
    let walked = then_do-Stands observed none (bind_all (roles d) c) (walk (stages d)) bound.0 (
      subst (λ v. Stands observed v (walk (stages d) (bind_all (roles d) c).claim)) bound.2
        (walk-Stands requested observed (stages d) (bind_all (roles d) c).claim bound.1
          (stages-IsPath d))) in
    then_do-Stands observed none (bind_all (roles d) c then_do walk (stages d))
      (λ x. attach_evidence x "evidence-manifest.json") walked.0
      (attach_evidence-Stands observed none (bind_all (roles d) c then_do walk (stages d)).claim
        walked.1 walked.2)

revalidate-verified :
    (c : Claim) (seen : Dict String) → c.state ≡ observed → revalidate c seen ≢ verified
unfolding revalidate
revalidate-verified c seen h k = elim (Bool-cases (is_stale c seen)) [
  | inl old ↦ no_unknown (rw old at k)
  | inr new ↦ no_observed (sym h ∙ rw new at k)
]
  where
    no_unknown : unknown ≢ verified
    no_unknown e = cc

    no_observed : observed ≢ verified
    no_observed e = cc

-- Whatever the run's identities and digests are, the claim that it emits meets no refusal, ends in
-- OBSERVED without an independent verdict, and never counts as verified, whatever digests are
-- observed later.
pub emit_decision_claim-observed :
    (d : Decided)
    → ((emit_decision_claim d).raised ≡ none)
      × ((emit_decision_claim d).claim.state ≡ observed)
      × ((emit_decision_claim d).claim.independent_verification ≡ none)
      × ((seen : Dict String) → revalidate (emit_decision_claim d).claim seen ≢ verified)
emit_decision_claim-observed d =
    let h = emit_decision_claim-Stands d in
    (h.0, h.1, h.2, λ seen. revalidate-verified (emit_decision_claim d).claim seen h.1)
