-- ===== src/Pipeline/Codes.antt =====
-- hub/coherence/__main__.py: the runs of `run` that end in a decision.
use dev_gate_agentic_framewo.Common.{
  ℕ, ◌<◌, ◌≡◌, refl, sym, String, false, Option, none, some, List, map, arith, Bool-cases, inl, inr,
  string_eq, ◌==◌,
}
use dev_gate_agentic_framewo.Common.Result.{Result, ok, err}
use dev_gate_agentic_framewo.Ledger.{Row}
use dev_gate_agentic_framewo.Plan.{Assertion, PlanError, plan}
use dev_gate_agentic_framewo.Evaluation.{Run, Fault, limit_exceeded, no_fact_id, Halt, run}
use dev_gate_agentic_framewo.Adoption.Sets.{Problem}
use dev_gate_agentic_framewo.Adoption.Evaluate.{Setting, Verdict, evaluate}
use dev_gate_agentic_framewo.Decision.{decide}
use dev_gate_agentic_framewo.Decision.Matrix.{exit_of_class-bounds}
use dev_gate_agentic_framewo.Pipeline.{
  Inputs, exited, stop, conclude, conclude_verdict, adopt, planned_of, weigh, weigh_run,
  run_planned, run_request,
}

-- The stages of a run that ended with an exit code and a ledger: each of them succeeded.
pub record Decided (parse : String → Option ℕ) (i : Inputs) (code : ℕ) (ledger : Option (List Row))
    : Type 0 where
  pub planned : List Assertion
  pub outcome : Run
  pub setting : Setting
  pub verdict : Verdict
  pub is_plan : plan i.assertions i.required i.requirements ≡ ok planned
  pub is_run : run i.engine planned ≡ ok outcome
  pub no_halt : outcome.error ≡ none
  pub is_verdict :
      evaluate parse
        (record setting { planned = map planned_of planned })
        outcome.ledger
        outcome.findings
      ≡ ok verdict
  pub is_ledger : ledger ≡ some verdict.ledger
  pub is_code : code ≡ (decide verdict.ledger setting.stage none (some verdict.blocked)).1

exited-code : {a b : ℕ} {l m : Option (List Row)} → exited a l ≡ exited b m → a ≡ b
exited-code h = cc

exited-ledger : {a b : ℕ} {l m : Option (List Row)} → exited a l ≡ exited b m → l ≡ m
exited-ledger h = cc

-- A stop with an error class exits with 30 or more.
stop-bounds :
    (c : String) (ledger : Option (List Row)) (code : ℕ) (l : Option (List Row))
    → (c == "") ≡ false
    → stop c ledger ≡ exited code l
    → code < 30
    → ⊥
unfolding stop decide
stop-bounds c ledger code l named h small =
    omega (arith, exit_of_class-bounds c, exited-code (rw named at h))

module _ (parse : String → Option ℕ) (i : Inputs) (code : ℕ) (l : Option (List Row))
    (small : code < 30) where
  conclude-code :
      (stage : ℕ) (v : Verdict)
      → conclude i stage v ≡ exited code l
      → (l ≡ some v.ledger) × (code ≡ (decide v.ledger stage none (some v.blocked)).1)
  unfolding conclude string_eq
  conclude-code stage v h = elim (Bool-cases (i.seals v.findings)) [
    | inr no' ↦ absurd (stop-bounds "evidence" none code l refl (rw no' at h) small)
    | inl yes' ↦ elim (Bool-cases (i.attests v)) [
      | inr no' ↦ absurd (stop-bounds "attestation" _ code l refl (rw (yes', no') at h) small)
      | inl done ↦ let h' = rw (yes', done) at h in (sym (exited-ledger h'), sym (exited-code h'))
    ]
  ]

  adopt-Decided :
      (planned : List Assertion) (r : Run) (o : Option Setting)
      → plan i.assertions i.required i.requirements ≡ ok planned
      → run i.engine planned ≡ ok r
      → r.error ≡ none
      → adopt parse i planned r o ≡ exited code l
      → Decided parse i code l
  unfolding adopt conclude_verdict string_eq
  adopt-Decided planned r none p q n h =
      absurd (stop-bounds "policy-resolution" none code l refl h small)
  adopt-Decided planned r (some s) p q n h =
      go (evaluate parse (record s { planned = map planned_of planned }) r.ledger r.findings) refl h
    where
      go :
          (m : Result Problem Verdict)
          → evaluate parse (record s { planned = map planned_of planned }) r.ledger r.findings ≡ m
          → conclude_verdict i s.stage m ≡ exited code l
          → Decided parse i code l
      go (err e) is_m h = absurd (stop-bounds "policy-resolution" none code l refl h small)
      go (ok v) is_m h = record {
        planned = planned;
        outcome = r;
        setting = s;
        verdict = v;
        is_plan = p;
        is_run = q;
        no_halt = n;
        is_verdict = is_m;
        is_ledger = (conclude-code s.stage v h).0;
        is_code = (conclude-code s.stage v h).1;
      }

  weigh-Decided :
      (planned : List Assertion) (r : Run) (o : Option Halt)
      → plan i.assertions i.required i.requirements ≡ ok planned
      → run i.engine planned ≡ ok r
      → r.error ≡ o
      → weigh parse i planned r o ≡ exited code l
      → Decided parse i code l
  unfolding weigh string_eq
  weigh-Decided planned r none p q n h = adopt-Decided planned r i.setting p q n h
  weigh-Decided planned r (some halt) p q n h =
      absurd (stop-bounds "execution" _ code l refl h small)

  weigh_run-Decided :
      (planned : List Assertion) (m : Result Fault Run)
      → plan i.assertions i.required i.requirements ≡ ok planned
      → run i.engine planned ≡ m
      → weigh_run parse i planned m ≡ exited code l
      → Decided parse i code l
  unfolding weigh_run string_eq
  weigh_run-Decided planned (err (limit_exceeded a b)) p q h =
      absurd (stop-bounds "execution" none code l refl h small)
  weigh_run-Decided planned (err no_fact_id) p q h = absurd (ground arith)
  weigh_run-Decided planned (ok r) p q h = weigh-Decided planned r r.error p q refl h

-- Below 30, every stage of the run has succeeded, and the code is the decision on the ladder's
-- verdict.
pub run_request-Decided :
    (parse : String → Option ℕ) (i : Inputs) (code : ℕ) (l : Option (List Row))
    → code < 30
    → run_request parse i ≡ exited code l
    → Decided parse i code l
unfolding run_request run_planned string_eq
run_request-Decided parse i code l small = go (plan i.assertions i.required i.requirements) refl
  where
    go :
        (m : Result PlanError (List Assertion))
        → plan i.assertions i.required i.requirements ≡ m
        → run_planned parse i m ≡ exited code l
        → Decided parse i code l
    go (err e) p h = absurd (stop-bounds "invalid-input" none code l refl h small)
    go (ok planned) p h =
        weigh_run-Decided parse i code l small planned (run i.engine planned) p refl h
