-- ===== src/Evaluators/Whole.antt =====
-- hub/coherence/__main__.py with evaluators.py: what an exit code of 0 says of the package itself.
use dev_gate_agentic_framewo.Common.{
  ℕ, ◌≡◌, ◌∙◌, refl, sym, ap, String, true, Option, none, some, List, [], ◌∷◌, All, all, contains,
  string_eq, ◌==◌, ◌⊎◌, inl, inr, Bool-cases, arith,
}
use mathlib.Core.Path.{subst}
use dev_gate_agentic_framewo.Common.Json.{Json, Fields, or_null}
use dev_gate_agentic_framewo.Common.Dict.{Dict}
use dev_gate_agentic_framewo.Ledger.{Row}
use dev_gate_agentic_framewo.Plan.{Assertion, Selector, ids}
use dev_gate_agentic_framewo.Evaluation.{found, Evaluator}
use dev_gate_agentic_framewo.Evaluation.Held.{Held, IsAsBound, SeesBound, shown-SeesBound}
use dev_gate_agentic_framewo.Pipeline.{Inputs, exited, run_request}
use dev_gate_agentic_framewo.Pipeline.Upheld.{run_request-Held}
use dev_gate_agentic_framewo.Evaluators.{
  Sources, fact_of, identity_consistency, captured_fact_consistency, traceability_completeness,
  release_claim_consistency, builtin,
}
use dev_gate_agentic_framewo.Evaluators.Compared.{IsApprovedValue}
use dev_gate_agentic_framewo.Evaluators.Satisfied.{
  HoldsApproved, identity_consistency-satisfied_iff,
}
use dev_gate_agentic_framewo.Evaluators.Facts.{FactAgrees, captured_fact_consistency-satisfied_iff}
use dev_gate_agentic_framewo.Evaluators.Traced.{
  Traced, traceability_completeness-satisfied_iff, Released,
  release_claim_consistency-satisfied_iff,
}

-- The package has the approved value, and every subject's value or captured fact is it.
abbrev pub UpholdsIdentity : Sources → Fields → Assertion → Type 0
UpholdsIdentity h p a =
    (approved : Json) × IsApprovedValue p a approved × All (HoldsApproved h p approved) a.subjects

abbrev pub UpholdsFacts : Sources → Fields → Dict Json → Assertion → Type 0
UpholdsFacts h p bound a =
    (approved : Json) × IsApprovedValue p a approved
    × All (FactAgrees h a bound approved) a.subjects

-- What the assertion states holds, by the evaluator that it names.
pub data Upholds (h : Sources) (p : Fields) (bound : Dict Json) (a : Assertion) : Type 0 where
  identity :
      a.evaluator ≡ "devgate.builtin.identity-consistency"
      → UpholdsIdentity h p a
      → Upholds h p bound a
  fact :
      a.evaluator ≡ "devgate.builtin.captured-fact-consistency"
      → UpholdsFacts h p bound a
      → Upholds h p bound a
  traced :
      a.evaluator ≡ "devgate.builtin.traceability-completeness" → Traced h p a → Upholds h p bound a
  released :
      a.evaluator ≡ "devgate.builtin.release-claim-consistency" → Released h p → Upholds h p bound a

fact_of-IsAsBound :
    (bound facts : Dict Json) (id : Option String)
    → IsAsBound bound facts id
    → fact_of facts id ≡ fact_of bound id
fact_of-IsAsBound bound facts none h = absurd h
fact_of-IsAsBound bound facts (some id) h = ap or_null h

FactAgrees-bound :
    (h : Sources) (a : Assertion) (bound facts : Dict Json) (approved : Json) (ss : List Selector)
    → All (SeesBound bound facts) ss
    → All (FactAgrees h a facts approved) ss
    → All (FactAgrees h a bound approved) ss
FactAgrees-bound h a bound facts approved [] sees agree = tt
FactAgrees-bound h a bound facts approved (s ∷ ss) sees agree = (
  elim (Bool-cases (s.kind == "captured-fact")) [
    | inr e ↦ inl e
    | inl captured ↦ elim agree.0 [
      | inl e ↦ inl e
      | inr (fields, v, is, there, some', same) ↦ inr (
        fields,
        v,
        sym (fact_of-IsAsBound bound facts s.fact_id (sees.0 captured)) ∙ is,
        there,
        some',
        same,
      )
    ]
  ],
  FactAgrees-bound h a bound facts approved ss sees.1 agree.1,
)

module _ (h : Sources) (p : Fields) where
  builtin-identity :
      builtin h p "devgate.builtin.identity-consistency" ≡ some (identity_consistency h p)
  unfolding builtin string_eq
  builtin-identity = refl

  builtin-traceability :
      builtin h p "devgate.builtin.traceability-completeness" ≡ some (traceability_completeness h p)
  unfolding builtin string_eq
  builtin-traceability = refl

  builtin-release :
      builtin h p "devgate.builtin.release-claim-consistency" ≡ some (release_claim_consistency h p)
  unfolding builtin string_eq
  builtin-release = refl

  builtin-captured_fact :
      builtin h p "devgate.builtin.captured-fact-consistency" ≡ some (captured_fact_consistency h p)
  unfolding builtin string_eq
  builtin-captured_fact = refl

  -- The evaluator that was called is the one of the name.
  called :
      (name : String) (fn gn : Evaluator) (a : Assertion) (facts : Dict Json)
      → builtin h p name ≡ some gn
      → a.evaluator ≡ name
      → builtin h p a.evaluator ≡ some fn
      → fn a facts ≡ found []
      → gn a facts ≡ found []
  called name fn gn a facts known is called' nothing =
      subst (λ (f : Evaluator). f a facts ≡ found [])
        (evaluator_injective (sym called' ∙ (ap (builtin h p) is ∙ known))) nothing
    where
      evaluator_injective : {f g : Evaluator} → ◌≡◌ {A = Option Evaluator} (some f) (some g) → f ≡ g
      evaluator_injective e = cc

  -- Only the four names have an evaluator.
  Named : String → Type 0
  Named name =
      (name ≡ "devgate.builtin.identity-consistency")
      ⊎ ((name ≡ "devgate.builtin.traceability-completeness")
          ⊎ ((name ≡ "devgate.builtin.release-claim-consistency")
              ⊎ (name ≡ "devgate.builtin.captured-fact-consistency")))

  builtin-Named : (name : String) (fn : Evaluator) → builtin h p name ≡ some fn → Named name
  unfolding builtin Named
  builtin-Named name fn known = elim (Bool-cases (name == "devgate.builtin.identity-consistency")) [
    | inl e ↦ inl (equal name _ e)
    | inr e1 ↦ elim (Bool-cases (name == "devgate.builtin.traceability-completeness")) [
      | inl e ↦ inr (inl (equal name _ e))
      | inr e2 ↦ elim (Bool-cases (name == "devgate.builtin.release-claim-consistency")) [
        | inl e ↦ inr (inr (inl (equal name _ e)))
        | inr e3 ↦ elim (Bool-cases (name == "devgate.builtin.captured-fact-consistency")) [
          | inl e ↦ inr (inr (inr (equal name _ e)))
          | inr e4 ↦ absurd (no_evaluator (rw (e1, e2, e3, e4) at known))
        ]
      ]
    ]
  ]
    where
      equal : (a b : String) → (a == b) ≡ true → a ≡ b
      equal a b e = ground arith

      no_evaluator : {f : Evaluator} → ◌≡◌ {A = Option Evaluator} none (some f) → ⊥
      no_evaluator e = ground arith

  Held-Upholds :
      (i : Inputs) (a : Assertion)
      → i.engine.builtin ≡ builtin h p
      → Held i.engine a
      → Upholds h p i.engine.captured_facts a
  unfolding Named
  Held-Upholds i a same (fn, facts, known, seen, nothing) =
      let known' = ap (λ b. b a.evaluator) (sym same) ∙ known in
      elim (builtin-Named a.evaluator fn known') [
        | inl is ↦ identity is (
            (identity_consistency-satisfied_iff h p a facts).0
              (called _ fn _ a facts builtin-identity is known' nothing))
        | inr (inl is) ↦ traced is (
            (traceability_completeness-satisfied_iff h p a facts).0
              (called _ fn _ a facts builtin-traceability is known' nothing))
        | inr (inr (inl is)) ↦ released is (
            (release_claim_consistency-satisfied_iff h p a facts).0
              (called _ fn _ a facts builtin-release is known' nothing))
        | inr (inr (inr is)) ↦
            let (approved, has, agree) =
              (captured_fact_consistency-satisfied_iff h p a facts).0
                (called _ fn _ a facts builtin-captured_fact is known' nothing) in
            fact is (
              approved,
              has,
              FactAgrees-bound h a i.engine.captured_facts facts approved a.subjects
                  (shown-SeesBound i.engine a facts seen) agree,
            )
      ]

  All-Upholds :
      (i : Inputs) (as' : List Assertion)
      → i.engine.builtin ≡ builtin h p
      → All (Held i.engine) as'
      → All (Upholds h p i.engine.captured_facts) as'
  All-Upholds i [] same held = tt
  All-Upholds i (a ∷ as') same held = (Held-Upholds i a same held.0, All-Upholds i as' same held.1)

-- A run of `run` with the four built-in evaluators exits 0 only when every assertion of the package
-- names one of them and holds of the package: at each subject of an identity assertion the approved
-- value is extracted, at each captured-fact subject of a captured-fact assertion the bound fact's
-- response field is the approved value, each testable requirement names its assertions and, where
-- asked for, has a marker in the sources, and the release manifest is an object that does not claim
-- its own payload's digest. The package then has every assertion that central policy requires.
pub run_request-Upholds :
    (parse : String → Option ℕ) (h : Sources) (p : Fields) (i : Inputs) (l : Option (List Row))
    → i.engine.builtin ≡ builtin h p
    → run_request parse i ≡ exited 0 l
    → All (Upholds h p i.engine.captured_facts) i.assertions
      × (all (contains (ids i.assertions)) i.required ≡ true)
run_request-Upholds parse h p i l same passed =
    let (held, whole) = run_request-Held parse i l passed in
    (All-Upholds h p i i.assertions same held, whole)
