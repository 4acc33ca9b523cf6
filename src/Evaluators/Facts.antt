-- ===== src/Evaluators/Facts.antt =====
-- hub/coherence/evaluators.py: when `captured_fact_consistency` finds nothing.
use dev_gate_agentic_framewo.Common.{
  ◌≡◌, ◌↔◌, ◌⊎◌, refl, ap, ◌∙◌, true, false, Option, none, some, [], ◌==◌, string_eq, All, arith,
  Bool-cases, inl, inr,
}
use dev_gate_agentic_framewo.Common.Json.{Json, obj, Fields}
use dev_gate_agentic_framewo.Common.Dict.{Dict}
use dev_gate_agentic_framewo.Plan.{Assertion, Selector}
use dev_gate_agentic_framewo.Evaluation.{found}
use dev_gate_agentic_framewo.Evaluators.{
  Sources, dig, is_none, compare_all, response_field, fact_of, see_field, field_of, observe_fact,
  captured_fact_consistency,
}
use dev_gate_agentic_framewo.Evaluators.Compared.{
  Agrees, Raises, compare_all-nil_iff, IsApprovedValue, with_approved-nil_iff, All-iff,
}

-- The subject is no captured fact, or its fact is an object whose response field is the approved
-- value.
abbrev pub FactAgrees : Sources → Assertion → Dict Json → Json → Selector → Type 0
FactAgrees h a facts approved s =
    ((s.kind == "captured-fact") ≡ false)
    ⊎ ((fields : Fields) × (v : Json) × (fact_of facts s.fact_id ≡ obj fields)
        × (dig (obj fields) (response_field a) ≡ some v)
        × (is_none v ≡ false)
        × (h.same v approved ≡ true))

-- What is seen in a fact when the loop goes on with an approved value.
see_field-Agrees_iff :
    (h : Sources) (f approved : Json) (o : Option Json)
    → Agrees h approved (see_field h f o)
      ↔ ((v : Json) × (o ≡ some v) × (is_none v ≡ false) × (h.same v approved ≡ true))
unfolding see_field
see_field-Agrees_iff h f approved none = (λ k. absurd k, λ k. absurd (ground arith))
see_field-Agrees_iff h f approved (some v) = elim (Bool-cases (is_none v)) [
  | inl e ↦ rw e (λ k. absurd k, λ k. absurd (ground arith))
  | inr e ↦ rw e (λ k. (v, refl, e, k), λ k. ground arith)
]

-- The fact is an object whose response field is the approved value.
abbrev FieldAgrees : Sources → Json → Json → Json → Type 0
FieldAgrees h f approved fact =
    (fields : Fields) × (v : Json) × (fact ≡ obj fields)
    × (dig (obj fields) f ≡ some v)
    × (is_none v ≡ false)
    × (h.same v approved ≡ true)

field_of-Agrees_iff :
    (h : Sources) (f approved fact : Json)
    → Agrees h approved (field_of h f fact) ↔ FieldAgrees h f approved fact
unfolding field_of
field_of-Agrees_iff h f approved (obj fields) =
    let seen = see_field-Agrees_iff h f approved (dig (obj fields) f) in
    (
      λ k. let (v, there, some', same) = seen.0 k in (fields, v, refl, there, some', same),
      λ (other, v, is, there, some', same). seen.1 (v, ap (λ x. dig x f) is ∙ there, some', same),
    )
field_of-Agrees_iff h f approved _ = (λ k. absurd k, λ k. absurd (ground arith))

observe_fact-Agrees_iff :
    (h : Sources) (a : Assertion) (facts : Dict Json) (approved : Json) (s : Selector)
    → Agrees h approved (observe_fact h a facts s) ↔ FactAgrees h a facts approved s
unfolding observe_fact
observe_fact-Agrees_iff h a facts approved s = elim (Bool-cases (s.kind == "captured-fact")) [
  | inr e ↦ rw e (λ k. inl refl, λ k. tt)
  | inl e ↦ elim (Bool-cases (is_none (fact_of facts s.fact_id))) [
    | inl n ↦
        rw (e, n)
          (
            λ k. absurd k,
            λ k. elim k [
              | inl f ↦ absurd (ground arith)
              | inr has ↦ no_fields (fact_of facts s.fact_id) n has
            ],
          )
    | inr n ↦
        rw (e, n)
          (
            λ k.
                inr (
                  (field_of-Agrees_iff h (response_field a) approved (fact_of facts s.fact_id)).0
                    k),
            λ k. elim k [
              | inl f ↦ absurd (ground arith)
              | inr has ↦
                  (field_of-Agrees_iff h (response_field a) approved (fact_of facts s.fact_id)).1
                    has
            ],
          )
  ]
]
  where
    no_fields :
        (fact : Json) → is_none fact ≡ true → FieldAgrees h (response_field a) approved fact → ⊥
    no_fields fact n (fields, v, is, there, some', same) = ground (arith, ap is_none is)

see_field-Raises : (h : Sources) (f : Json) (o : Option Json) → Raises (see_field h f o)
unfolding see_field
see_field-Raises h f none = tt
see_field-Raises h f (some v) = elim (Bool-cases (is_none v)) [ inl e ↦ rw e tt | inr e ↦ rw e tt ]

field_of-Raises : (h : Sources) (f fact : Json) → Raises (field_of h f fact)
unfolding field_of
field_of-Raises h f (obj fields) = see_field-Raises h f (dig (obj fields) f)
field_of-Raises h f _ = tt

observe_fact-Raises :
    (h : Sources) (a : Assertion) (facts : Dict Json) (s : Selector)
    → Raises (observe_fact h a facts s)
unfolding observe_fact
observe_fact-Raises h a facts s = elim (Bool-cases (s.kind == "captured-fact")) [
  | inr e ↦ rw e tt
  | inl e ↦ elim (Bool-cases (is_none (fact_of facts s.fact_id))) [
    | inl n ↦ rw (e, n) tt
    | inr n ↦ rw (e, n) (field_of-Raises h (response_field a) (fact_of facts s.fact_id))
  ]
]

-- The captured-fact evaluator is satisfied exactly when the package has the approved value that the
-- parameters refer to, and the fact of every captured-fact subject is an object whose response field
-- is there and equals it. Subjects of any other kind are not looked at.
pub captured_fact_consistency-satisfied_iff :
    (h : Sources) (p : Fields) (a : Assertion) (facts : Dict Json)
    → (captured_fact_consistency h p a facts ≡ found []) ↔ (
        (approved : Json) × IsApprovedValue p a approved
        × All (FactAgrees h a facts approved) a.subjects)
unfolding captured_fact_consistency
captured_fact_consistency-satisfied_iff h p a facts =
    let value_iff = with_approved-nil_iff h p a _ in
    (
      λ r.
          let (approved, is, nothing) = value_iff.0 r in
          (approved, is, (all_iff approved).0 ((loop_iff approved).0 nothing)),
      λ (approved, is, agree).
          value_iff.1 (approved, is, (loop_iff approved).1 ((all_iff approved).1 agree)),
    )
  where
    loop_iff :
        (approved : Json)
        → (compare_all h a "captured-fact-mismatch" approved (observe_fact h a facts) a.subjects
            ≡ found [])
          ↔ All (λ s. Agrees h approved (observe_fact h a facts s)) a.subjects
    loop_iff approved =
        compare_all-nil_iff h a "captured-fact-mismatch" approved (observe_fact h a facts)
          a.subjects (observe_fact-Raises h a facts)

    all_iff :
        (approved : Json)
        → All (λ s. Agrees h approved (observe_fact h a facts s)) a.subjects
          ↔ All (FactAgrees h a facts approved) a.subjects
    all_iff approved =
        All-iff (λ s. Agrees h approved (observe_fact h a facts s)) (FactAgrees h a facts approved)
          a.subjects (observe_fact-Agrees_iff h a facts approved)
