-- ===== src/Plan/Admission.antt =====
-- hub/coherence/plan.py: which packages `plan` refuses.
use dev_gate_agentic_framewo.Common.{
  ◌≡◌, refl, String, Bool, true, false, ◌&&◌, Option, List, [], ◌∷◌, all, contains, string_eq,
  arith, Bool-cases, inl, inr,
}
use dev_gate_agentic_framewo.Common.Result.{Result, ok, err, ◌>>◌}
use dev_gate_agentic_framewo.Plan.{
  Assertion, PlanError, builtins, ids, check_assertion, check_assertions, check_required,
  check_optional, Requirement, has_duplicates, order, plan,
}

-- The assertion passes its schema and runs a built-in evaluator.
abbrev pub is_approved : Assertion → Bool
is_approved a = a.schema_ok && contains builtins a.evaluator

check_assertions_approved :
    (as' : List Assertion) (u : Unit {0}) → check_assertions as' ≡ ok u → all is_approved as' ≡ true
unfolding check_assertions check_assertion
check_assertions_approved [] u h = refl
check_assertions_approved (a ∷ as') u h = ground (arith, check_assertions_approved as' u)

check_required_known :
    (known reqs : List String) (u : Unit {0})
    → check_required known reqs ≡ ok u
    → all (contains known) reqs ≡ true
unfolding check_required
check_required_known known [] u h = refl
check_required_known known (r ∷ reqs) u h = ground (arith, check_required_known known reqs u)

then_first :
    {A : Type 0} (m : Result PlanError (Unit {0})) (k : Result PlanError A) (a : A)
    → (m >> k) ≡ ok a
    → (m ≡ ok tt) × (k ≡ ok a)
then_first (ok u) k a h = (refl, h)
then_first (err e) k a h = absurd (ground arith)

-- A plan is made only of a package whose assertions all pass their schema and run built-in
-- evaluators, have different ids, and include every id that central policy requires.
pub plan_approved :
    (assertions : List Assertion) (required : List String)
    (requirements : Option (List Requirement)) (planned : List Assertion)
    → plan assertions required requirements ≡ ok planned
    → (all is_approved assertions ≡ true)
      × (has_duplicates (ids assertions) ≡ false)
      × (all (contains (ids assertions)) required ≡ true)
unfolding plan
plan_approved assertions required requirements planned h =
    let (shapes, rest) = then_first (check_assertions assertions) _ planned h in
    let (traced, last) = then_first (check_optional assertions requirements) _ planned rest in
    elim (Bool-cases (has_duplicates (ids assertions))) [
      | inl twice ↦ absurd (ground arith)
      | inr once ↦
          let (known, _) =
            then_first (check_required (ids assertions) required) (order assertions) planned
              (rw once at last) in
          (
            check_assertions_approved assertions tt shapes,
            once,
            check_required_known (ids assertions) required tt known,
          )
    ]
