-- ===== src/Evaluation/Turns.antt =====
-- hub/coherence/evaluate.py: the turns of a run's loop.
use dev_gate_agentic_framewo.Common.{
  ◌≡◌, refl, String, Bool, true, false, ◌&&◌, ◌||◌, Option, none, some, is_some, List, [], ◌∷◌,
  arith, string_eq, All, Bool-cases, inl, inr,
}
use mathlib.Core.Path.{subst}
use dev_gate_agentic_framewo.Common.Dict.{Dict}
use dev_gate_agentic_framewo.Common.Json.{Json}
use dev_gate_agentic_framewo.Common.Result.{Result, ok, ok_injective, >>=-ok}
use dev_gate_agentic_framewo.Ledger.{
  Finding, Outcome, satisfied, violated, unresolved, is_violated, is_satisfied, Reason,
  unapproved_evaluator, dependency_blocked, evaluator_crash, input_mutation, captured_fact_missing,
  unresolved_input,
}
use dev_gate_agentic_framewo.Plan.{Assertion}
use dev_gate_agentic_framewo.Evaluation.{
  Ran, found, undecided, crashed, Evaluator, Engine, Run, Mediated, nameless, missing, shown,
  facts_of, record_row, draft, settle, call, evaluate_one, evaluate_all, nothing_run, run, Halt,
  is_blocked, Fault, first_error,
}

abbrev pub is_nonempty : List Finding → Bool
is_nonempty [] = false
is_nonempty (f ∷ fs) = true

abbrev pub IsAbout : Assertion → Finding → Type 0
IsAbout a f = f.assertion_id ≡ a.id

-- The evaluators name their own assertion in their findings, as `_mk` does.
abbrev pub Signs : Engine → Type 0
Signs e =
    (name : String) (fn : Evaluator) (a : Assertion) (facts : Dict Json) (fs : List Finding)
    → e.builtin name ≡ some fn
    → fn a facts ≡ found fs
    → All (IsAbout a) fs

-- The reasons of an ERROR-execution condition.
abbrev pub is_halting : Option Reason → Bool
is_halting (some dependency_blocked) = true
is_halting (some (evaluator_crash name)) = true
is_halting (some (input_mutation path)) = true
is_halting _ = false

-- One turn of the loop: a row for the assertion, whose findings are its own, are there exactly when
-- it is VIOLATED, and which is SATISFIED only if nothing that it depends on blocks it. An error is kept, and set for a
-- reason of one.
pub record Turn (a : Assertion) (r : Run) (r' : Run) : Type 0 where
  pub outcome : Outcome
  pub reason : Option Reason
  pub findings : List Finding
  pub error : Option Halt
  pub is_record : r' ≡ record_row a outcome reason findings error r
  pub violated_iff : is_violated outcome ≡ is_nonempty findings
  pub own : All (IsAbout a) findings
  pub unblocked : (is_satisfied outcome && is_blocked r.done a.dependencies) ≡ false
  pub halts : (is_some r.error || is_halting reason) ≡ true → is_some error ≡ true

-- The turns of the assertions, one after the other.
abbrev pub Turns : List Assertion → Run → Run → Type 0
Turns [] r r' = r ≡ r'
Turns (a ∷ as') r r' = (m : Run) × Turn a r m × Turns as' m r'

first_error-some : (o : Option Halt) (h : Halt) → is_some (first_error o h) ≡ true
first_error-some none h = refl
first_error-some (some old) h = refl

unresolved-Turn :
    (a : Assertion) (r : Run) (why : Option Reason) (er : Option Halt)
    → ((is_some r.error || is_halting why) ≡ true → is_some er ≡ true)
    → Turn a r (record_row a unresolved why [] er r)
unresolved-Turn a r why er halts = record {
  outcome = unresolved;
  reason = why;
  findings = [];
  error = er;
  is_record = refl;
  violated_iff = refl;
  own = tt;
  unblocked = refl;
  halts = halts;
}

settle-Turn :
    (a : Assertion) (r : Run) (ran : Ran) (o : Option String)
    → is_blocked r.done a.dependencies ≡ false
    → ((fs : List Finding) → ran ≡ found fs → All (IsAbout a) fs)
    → Turn a r (settle a r (draft a r.error ran) o)
unfolding settle draft
settle-Turn a r (found []) none free own = record {
  outcome = satisfied;
  reason = none;
  findings = [];
  error = r.error;
  is_record = refl;
  violated_iff = refl;
  own = tt;
  unblocked = free;
  halts = λ h. ground arith;
}
settle-Turn a r (found (f ∷ fs)) none free own = record {
  outcome = violated;
  reason = none;
  findings = f ∷ fs;
  error = r.error;
  is_record = refl;
  violated_iff = refl;
  own = own (f ∷ fs) refl;
  unblocked = refl;
  halts = λ h. ground arith;
}
settle-Turn a r (undecided why) none free own =
    unresolved-Turn a r (some (unresolved_input why)) r.error (λ h. ground arith)
settle-Turn a r (crashed name) none free own = unresolved-Turn a r _ _ (λ h. first_error-some _ _)
settle-Turn a r (found []) (some p) free own = unresolved-Turn a r _ _ (λ h. first_error-some _ _)
settle-Turn a r (found (f ∷ fs)) (some p) free own =
    unresolved-Turn a r _ _ (λ h. first_error-some _ _)
settle-Turn a r (undecided why) (some p) free own =
    unresolved-Turn a r _ _ (λ h. first_error-some _ _)
settle-Turn a r (crashed name) (some p) free own =
    unresolved-Turn a r _ _ (λ h. first_error-some _ _)

module _ (e : Engine) (signs : Signs e) where
  call-Turn :
      (name : String) (fn : Evaluator) (a : Assertion) (m : Mediated) (r r' : Run)
      → e.builtin name ≡ some fn
      → call e fn a m r ≡ ok r'
      → Turn a r r'
  unfolding call
  call-Turn name fn a nameless r r' known h = absurd (ground arith)
  call-Turn name fn a (missing id) r r' known h =
      subst (Turn a r) (ok_injective h)
        (unresolved-Turn a r (some (captured_fact_missing id)) r.error (λ k. ground arith))
  call-Turn name fn a (shown facts) r r' known h =
      elim (Bool-cases (is_blocked r.done a.dependencies)) [
        | inl b ↦
            subst (Turn a r) (ok_injective (rw b at h))
              (unresolved-Turn a r _ _ (λ h. first_error-some _ _))
        | inr free ↦ subst (Turn a r) (ok_injective (rw free at h)) (
            settle-Turn a r (fn a facts) (e.mutation a) free (λ fs. signs name fn a facts fs known))
      ]

  evaluate_one-Turn : (a : Assertion) (r r' : Run) → evaluate_one e a r ≡ ok r' → Turn a r r'
  unfolding evaluate_one
  evaluate_one-Turn a r r' = go (e.builtin a.evaluator) refl
    where
      go :
          (o : Option Evaluator)
          → e.builtin a.evaluator ≡ o
          → (elim o as (λ x. Result Fault Run) [
            | none ↦ ok (record_row a unresolved (some unapproved_evaluator) [] r.error r)
            | some fn ↦ call e fn a (facts_of e a) r
          ])
            ≡ ok r'
          → Turn a r r'
      go none known h =
          subst (Turn a r) (ok_injective h)
            (unresolved-Turn a r (some unapproved_evaluator) r.error (λ k. ground arith))
      go (some fn) known h = call-Turn a.evaluator fn a _ r r' known h

  evaluate_all-Turns :
      (as' : List Assertion) (r r' : Run) → evaluate_all e as' r ≡ ok r' → Turns as' r r'
  unfolding evaluate_all
  evaluate_all-Turns [] r r' h = ok_injective h
  evaluate_all-Turns (a ∷ as') r r' h =
      let (m, rest, one) = >>=-ok (evaluate_one e a r) h in
      (m, evaluate_one-Turn a r m one, evaluate_all-Turns as' m r' rest)

pub run-Turns :
    (e : Engine) (planned : List Assertion) (r : Run)
    → Signs e
    → run e planned ≡ ok r
    → Turns planned nothing_run r
unfolding run
run-Turns e planned r signs h = evaluate_all-Turns e signs planned nothing_run r (ground arith)
