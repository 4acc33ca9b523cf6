-- ===== src/Evaluators/Satisfied.antt =====
-- hub/coherence/evaluators.py: when `identity_consistency` finds nothing.
use dev_gate_agentic_framewo.Common.{
  ◌≡◌, ◌↔◌, refl, String, true, false, [], string_eq, All, arith, Bool-cases, inl, inr,
}
use dev_gate_agentic_framewo.Common.Json.{Json, Fields}
use dev_gate_agentic_framewo.Common.Dict.{Dict}
use dev_gate_agentic_framewo.Common.Result.{Result, ok, err, ok_injective}
use dev_gate_agentic_framewo.Plan.{Assertion, Selector}
use dev_gate_agentic_framewo.Evaluation.{found}
use dev_gate_agentic_framewo.Evaluators.{
  Sources, is_none, compare_all, extract, see_extracted, observe_identity, identity_consistency,
}
use dev_gate_agentic_framewo.Evaluators.Compared.{
  Agrees, Raises, compare_all-nil_iff, IsApprovedValue, with_approved-nil_iff, All-iff,
}

-- A value is extracted at the subject, and it is the approved one.
abbrev pub HoldsApproved : Sources → Fields → Json → Selector → Type 0
HoldsApproved h p approved s =
    (v : Json) × (extract h p s ≡ ok v) × (is_none v ≡ false) × (h.same v approved ≡ true)

see_extracted-Raises : (s : Selector) (r : Result String Json) → Raises (see_extracted s r)
unfolding see_extracted
see_extracted-Raises s (err name) = tt
see_extracted-Raises s (ok v) = elim (Bool-cases (is_none v)) [ inl e ↦ rw e tt | inr e ↦ rw e tt ]

observe_identity-Raises :
    (h : Sources) (p : Fields) (s : Selector) → Raises (observe_identity h p s)
unfolding observe_identity
observe_identity-Raises h p s = see_extracted-Raises s (extract h p s)

-- What is extracted is the approved value.
abbrev IsApproved : Sources → Json → Result String Json → Type 0
IsApproved h approved r = (v : Json) × (r ≡ ok v) × (is_none v ≡ false) × (h.same v approved ≡ true)

Agrees-IsApproved :
    (h : Sources) (approved : Json) (s : Selector) (r : Result String Json)
    → Agrees h approved (see_extracted s r) ↔ IsApproved h approved r
unfolding see_extracted
Agrees-IsApproved h approved s (err name) = (λ k. absurd k, λ k. absurd (ground (arith, k.1)))
Agrees-IsApproved h approved s (ok v) = elim (Bool-cases (is_none v)) [
  | inl e ↦ rw e (λ k. absurd k, λ (w, same, some', k). absurd (ground (arith, same)))
  | inr e ↦ rw e (λ k. (v, refl, e, k), λ (w, same, some', k). rw (ok_injective same) k)
]

Agrees-HoldsApproved :
    (h : Sources) (p : Fields) (approved : Json) (s : Selector)
    → Agrees h approved (observe_identity h p s) ↔ HoldsApproved h p approved s
unfolding observe_identity
Agrees-HoldsApproved h p approved s = Agrees-IsApproved h approved s (extract h p s)

-- The identity evaluator is satisfied exactly when the package has the approved value that the
-- parameters refer to, and at every subject a value is extracted and equals it.
pub identity_consistency-satisfied_iff :
    (h : Sources) (p : Fields) (a : Assertion) (facts : Dict Json)
    → (identity_consistency h p a facts ≡ found []) ↔ (
        (approved : Json) × IsApprovedValue p a approved
        × All (HoldsApproved h p approved) a.subjects)
unfolding identity_consistency
identity_consistency-satisfied_iff h p a facts =
    let value_iff = with_approved-nil_iff h p a _ in
    (
      λ r.
          let (approved, is, nothing) = value_iff.0 r in
          (approved, is, (all_iff approved).0 ((loop_iff approved).0 nothing)),
      λ (approved, is, agree).
          value_iff.1 (approved, is, (loop_iff approved).1 ((all_iff approved).1 agree)),
    )
  where
    loop_iff :
        (approved : Json)
        → (compare_all h a "identity-mismatch" approved (observe_identity h p) a.subjects
            ≡ found [])
          ↔ All (λ s. Agrees h approved (observe_identity h p s)) a.subjects
    loop_iff approved =
        compare_all-nil_iff h a "identity-mismatch" approved (observe_identity h p) a.subjects
          (observe_identity-Raises h p)

    all_iff :
        (approved : Json)
        → All (λ s. Agrees h approved (observe_identity h p s)) a.subjects
          ↔ All (HoldsApproved h p approved) a.subjects
    all_iff approved =
        All-iff (λ s. Agrees h approved (observe_identity h p s)) (HoldsApproved h p approved)
          a.subjects (Agrees-HoldsApproved h p approved)
