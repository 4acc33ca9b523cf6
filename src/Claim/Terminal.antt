-- ===== src/Claim/Terminal.antt =====
-- hub/coherence/verification.py: BLOCKED, FAILED and UNKNOWN over sequences of calls.
use dev_gate_agentic_framewo.Common.{
  ◌≡◌, refl, inl, inr, Bool, true, false, not, ◌&&◌, contains, ◌==◌, ◌!=◌, string_eq, List, [], ◌∷◌,
  String, Bool-cases,
}
use dev_gate_agentic_framewo.Common.Result.{Result, ok, err}
use dev_gate_agentic_framewo.Claim.{
  State, verified, terminal, can_transition, state_eq, Problem, Claim, Answer, moved, apply_table,
  transition, verify_independently, record_answer, stale_now,
}
use dev_gate_agentic_framewo.Claim.Table.{can_transition-terminal}
use dev_gate_agentic_framewo.Claim.History.{
  Op, move, anchor, attach, certify, effect, run, noted, bind-fields, attach_evidence-fields,
}

apply_table-terminal :
    (c : Claim) (t : State) (why : String) (r : Result Problem Bool)
    → can_transition c.state t ≡ r
    → contains terminal c.state ≡ true
    → contains terminal (apply_table c t why r).claim.state ≡ true
unfolding apply_table moved
apply_table-terminal c t why (err p) e h = h
apply_table-terminal c t why (ok false) e h = h
apply_table-terminal c t why (ok true) e h = can_transition-terminal c.state t h e

transition-terminal :
    (c : Claim) (t : State) (why : String) (who : Bool)
    → contains terminal c.state ≡ true
    → contains terminal (transition c t why who).claim.state ≡ true
unfolding transition
transition-terminal c t why who h =
    elim (Bool-cases (t == verified && c.state != verified && not who)) [
      | inl e ↦ rw e h
      | inr e ↦ rw e (apply_table-terminal c t why (can_transition c.state t) refl h)
    ]

record_answer-terminal :
    (c : Claim) (a : Answer) (why : String)
    → contains terminal c.state ≡ true
    → contains terminal (record_answer c a why).claim.state ≡ true
unfolding record_answer
record_answer-terminal c a why h = elim (Bool-cases a.ok) [
  | inl yes' ↦ elim (Bool-cases (stale_now (noted c a) a.observed_after)) [
    | inl old ↦ rw (old, yes') (transition-terminal _ _ _ _ h)
    | inr new ↦ rw (new, yes') (transition-terminal _ _ _ _ h)
  ]
  | inr no' ↦ rw no' (transition-terminal _ _ _ _ h)
]

effect-terminal :
    (op : Op) (c : Claim)
    → contains terminal c.state ≡ true
    → contains terminal (effect op c).claim.state ≡ true
unfolding verify_independently
effect-terminal (move t why) c h = transition-terminal c t why false h
effect-terminal (anchor role digest) c h = rw (bind-fields c role digest).0 h
effect-terminal (attach ref) c h = rw (attach_evidence-fields c ref).0 h
effect-terminal (certify verifier seen why) c h = elim (Bool-cases (stale_now c seen)) [
  | inl old ↦ rw (old, verify_independently) h
  | inr new ↦ rw (new, verify_independently) (record_answer-terminal c (verifier c) why h)
]

-- A claim that is BLOCKED, FAILED or UNKNOWN stays in one of these states, whatever is called on
-- it: no sequence of calls, independent verification included, brings it back to the ladder.
pub run-terminal :
    (ops : List Op) (c : Claim)
    → contains terminal c.state ≡ true
    → contains terminal (run c ops).state ≡ true
run-terminal [] c h = h
run-terminal (op ∷ ops) c h = run-terminal ops (effect op c).claim (effect-terminal op c h)
