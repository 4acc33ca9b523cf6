-- ===== src/Emission.antt =====
-- hub/coherence/__main__.py: `_emit_decision_claim`, the claim that a decided run leaves.
pub mod Observed
use dev_gate_agentic_framewo.Common.{
  String, Bool, true, false, Option, none, some, List, [], ◌∷◌, ◌==◌, string_eq, if◌then◌else◌,
  ◌<>◌,
}
use dev_gate_agentic_framewo.Claim.{
  State, attempted, executed, completed, tested, observed, Claim, Effect, raises, returns,
  new_claim, transition, bind, attach_evidence,
}

-- What the run knows: its identities (none where one could not be computed), the digest of the
-- evidence manifest, the digest of the decision's payload, and the texts of the claim.
pub record Decided : Type 0 where
  pub subject_digest : Option String
  pub openspec_digest : Option String
  pub policy_digest : Option String
  pub context_digest : Option String
  pub evidence_digest : String
  pub decision_digest : String
  pub claim_id : String
  pub requirement : String
  pub ledger_reason : String
  pub decision_reason : String

-- One call after another; the first that raises ends the chain.
infixl 10 ◌then_do◌
abbrev pub ◌then_do◌ : Effect → (Claim → Effect) → Effect
e then_do f = elim e.raised [ none ↦ f e.claim | some p ↦ raises e.claim p ]

abbrev pub or_blank : Option String → String
or_blank none = ""
or_blank (some s) = s

abbrev pub roles : Decided → List (String × String)
roles d =
    ("subject", or_blank d.subject_digest)
    ∷ ("openspec", or_blank d.openspec_digest)
    ∷ ("policy", or_blank d.policy_digest)
    ∷ ("context", or_blank d.context_digest)
    ∷ ("evidence-manifest", d.evidence_digest)
    ∷ ("decision", d.decision_digest)
    ∷ []

-- `if digest: verification.bind(claim, role, digest)`
unfoldable pub bind_all : List (String × String) → Claim → Effect
bind_all [] c = returns c
bind_all ((role, digest) ∷ rest) c =
    let later = bind_all rest c in
    if digest == "" then later else bind c role digest then_do bind_all rest

abbrev pub stages : Decided → List (State × String)
stages d =
    (attempted, "request accepted, identities computed")
    ∷ (executed, "assertions executed")
    ∷ (completed, "decision computed")
    ∷ (tested, d.ledger_reason)
    ∷ (observed, d.decision_reason)
    ∷ []

unfoldable pub walk : List (State × String) → Claim → Effect
walk [] c = returns c
walk ((state, reason) ∷ rest) c = transition c state reason false then_do walk rest

unfoldable pub emit_decision_claim : Decided → Effect
emit_decision_claim d =
    bind_all (roles d) (new_claim d.claim_id d.requirement d.subject_digest "devgate-coherence")
    then_do walk (stages d)
    then_do λ c. attach_evidence c "evidence-manifest.json"
