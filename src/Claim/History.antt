-- ===== src/Claim/History.antt =====
-- hub/coherence/verification.py: sequences of calls on a claim.
use dev_gate_agentic_framewo.Common.{
  ◌≡◌, refl, ◌≢◌, inl, inr, Bool, true, false, not, ◌&&◌, contains, ◌==◌, ◌!=◌, string_eq, arith,
  List, [], ◌∷◌, ◌++◌, Option, some, String, Bool-cases,
}
use dev_gate_agentic_framewo.Common.Dict.{Dict}
use dev_gate_agentic_framewo.Common.Result.{Result, ok, err}
use dev_gate_agentic_framewo.Claim.{
  State, requested, verified, failed, unknown, terminal, can_transition, state_eq, Problem, Claim,
  Move, Verdict, Answer, Effect, new_claim, moved, apply_table, transition, bind, attach_evidence,
  verify_independently, record_answer, stale_now, or_none, or_object,
}

-- The calls that change a claim. Callers leave `_independent` at its default.
pub data Op : Type 0 where
  move : State → String → Op
  anchor : String → String → Op
  attach : String → Op
  certify : (Claim → Answer) → Option (Dict String) → String → Op

abbrev pub effect : Op → Claim → Effect
effect (move target reason) c = transition c target reason false
effect (anchor role digest) c = bind c role digest
effect (attach ref) c = attach_evidence c ref
effect (certify verifier seen reason) c = verify_independently c verifier seen reason

-- The claim after a list of calls; a caller may go on after an error.
abbrev pub run : Claim → List Op → Claim
run c [] = c
run c (op ∷ ops) = run (effect op c).claim ops

-- The logged states lead from one state to another by moves that the table allows.
abbrev pub Legal : State → List Move → State → Type 0
Legal s [] t = s ≡ t
Legal s (m ∷ ms) t = (can_transition s m.to ≡ ok true) × Legal m.to ms t

abbrev pub IsHistory : List Move → State → Type 0
IsHistory [] t = ⊥
IsHistory (m ∷ ms) t = (m.to ≡ requested) × Legal requested ms t

Legal-snoc :
    (s t u : State) (ms : List Move) (why : Option String)
    → Legal s ms t
    → can_transition t u ≡ ok true
    → Legal s (ms ++ (record { to = u; reason = why } ∷ [])) u
Legal-snoc s t u [] why h k = (cc, refl)
Legal-snoc s t u (m ∷ ms) why h k = (h.0, Legal-snoc m.to t u ms why h.1 k)

IsHistory-snoc :
    (t u : State) (ms : List Move) (why : Option String)
    → IsHistory ms t
    → can_transition t u ≡ ok true
    → IsHistory (ms ++ (record { to = u; reason = why } ∷ [])) u
IsHistory-snoc t u [] why h k = absurd h
IsHistory-snoc t u (m ∷ ms) why h k = (h.0, Legal-snoc requested t u ms why h.1 k)

-- The claim carries an independent verdict that said yes.
abbrev pub HasVerdict : Claim → Type 0
HasVerdict c = (v : Verdict) × (c.independent_verification ≡ some v) × (v.ok ≡ true)

abbrev pub IsWitnessed : Claim → Type 0
IsWitnessed c = c.state ≡ verified → HasVerdict c

apply_table-IsHistory :
    (c : Claim) (t : State) (why : String) (r : Result Problem Bool)
    → can_transition c.state t ≡ r
    → IsHistory c.transitions c.state
    → IsHistory (apply_table c t why r).claim.transitions (apply_table c t why r).claim.state
unfolding apply_table moved
apply_table-IsHistory c t why (err p) e h = h
apply_table-IsHistory c t why (ok false) e h = h
apply_table-IsHistory c t why (ok true) e h =
    IsHistory-snoc c.state t c.transitions (or_none why) h e

transition-IsHistory :
    (c : Claim) (t : State) (why : String) (who : Bool)
    → IsHistory c.transitions c.state
    → IsHistory (transition c t why who).claim.transitions (transition c t why who).claim.state
unfolding transition
transition-IsHistory c t why who h =
    elim (Bool-cases (t == verified && c.state != verified && not who)) [
      | inl e ↦ rw e h
      | inr e ↦ rw e (apply_table-IsHistory c t why (can_transition c.state t) refl h)
    ]

transition-verified :
    (c : Claim) (t : State) (why : String)
    → (transition c t why false).claim.state ≡ verified
    → c.state ≡ verified
unfolding transition apply_table moved
transition-verified c t why h = ground arith

transition-verdict :
    (c : Claim) (t : State) (why : String) (who : Bool)
    → (transition c t why who).claim.independent_verification ≡ c.independent_verification
unfolding transition apply_table moved
transition-verdict c t why who = ground arith

-- A move to a terminal state never leaves a claim verified.
demotion-ne-verified :
    (c : Claim) (t : State) (why : String)
    → contains terminal t ≡ true
    → (transition c t why false).claim.state ≢ verified
unfolding transition apply_table moved can_transition state_eq
demotion-ne-verified c t why h = ground arith

failed-terminal : contains terminal failed ≡ true
unfolding state_eq
failed-terminal = refl

unknown-terminal : contains terminal unknown ≡ true
unfolding state_eq
unknown-terminal = refl

abbrev pub noted : Claim → Answer → Claim
noted c a = record c {
  independent_verification =
      some (record { verifier = a.name; ok = a.ok; observation = or_object a.observation });
}

record_answer-IsWitnessed :
    (c : Claim) (a : Answer) (why : String) → IsWitnessed (record_answer c a why).claim
unfolding record_answer
record_answer-IsWitnessed c a why = elim (Bool-cases a.ok) [
  | inl yes' ↦ elim (Bool-cases (stale_now (noted c a) a.observed_after)) [
    | inl old ↦ rw (old, yes') (λ h. absurd (demotion-ne-verified _ _ _ unknown-terminal h))
    | inr new ↦
        rw (new, yes')
          (λ h. (
            record { verifier = a.name; ok = true; observation = or_object a.observation },
            transition-verdict _ _ _ _,
            refl,
          ))
  ]
  | inr no' ↦ rw no' (λ h. absurd (demotion-ne-verified _ _ _ failed-terminal h))
]

pub bind-fields :
    (c : Claim) (role digest : String)
    → ((bind c role digest).claim.state ≡ c.state)
      × ((bind c role digest).claim.independent_verification ≡ c.independent_verification)
      × ((bind c role digest).claim.transitions ≡ c.transitions)
unfolding bind
bind-fields c role digest = ground arith

pub attach_evidence-fields :
    (c : Claim) (ref : String)
    → ((attach_evidence c ref).claim.state ≡ c.state)
      × ((attach_evidence c ref).claim.independent_verification ≡ c.independent_verification)
      × ((attach_evidence c ref).claim.transitions ≡ c.transitions)
unfolding attach_evidence
attach_evidence-fields c ref = ground arith

effect-IsWitnessed : (op : Op) (c : Claim) → IsWitnessed c → IsWitnessed (effect op c).claim
unfolding verify_independently
effect-IsWitnessed (move t why) c w = λ h. rw transition-verdict (w (transition-verified c t why h))
effect-IsWitnessed (anchor role digest) c w =
    rw ((bind-fields c role digest).0, (bind-fields c role digest).1) w
effect-IsWitnessed (attach ref) c w =
    rw ((attach_evidence-fields c ref).0, (attach_evidence-fields c ref).1) w
effect-IsWitnessed (certify verifier seen why) c w = elim (Bool-cases (stale_now c seen)) [
  | inl old ↦ rw (old, verify_independently) w
  | inr new ↦ rw (new, verify_independently) (record_answer-IsWitnessed c (verifier c) why)
]

record_answer-IsHistory :
    (c : Claim) (a : Answer) (why : String)
    → IsHistory c.transitions c.state
    → IsHistory (record_answer c a why).claim.transitions (record_answer c a why).claim.state
unfolding record_answer
record_answer-IsHistory c a why h = elim (Bool-cases a.ok) [
  | inl yes' ↦ elim (Bool-cases (stale_now (noted c a) a.observed_after)) [
    | inl old ↦ rw (old, yes') (transition-IsHistory _ _ _ _ h)
    | inr new ↦ rw (new, yes') (transition-IsHistory _ _ _ _ h)
  ]
  | inr no' ↦ rw no' (transition-IsHistory _ _ _ _ h)
]

effect-IsHistory :
    (op : Op) (c : Claim)
    → IsHistory c.transitions c.state
    → IsHistory (effect op c).claim.transitions (effect op c).claim.state
unfolding verify_independently
effect-IsHistory (move t why) c h = transition-IsHistory c t why false h
effect-IsHistory (anchor role digest) c h =
    rw ((bind-fields c role digest).0, (bind-fields c role digest).2) h
effect-IsHistory (attach ref) c h =
    rw ((attach_evidence-fields c ref).0, (attach_evidence-fields c ref).2) h
effect-IsHistory (certify verifier seen why) c h = elim (Bool-cases (stale_now c seen)) [
  | inl old ↦ rw (old, verify_independently) h
  | inr new ↦ rw (new, verify_independently) (record_answer-IsHistory c (verifier c) why h)
]

run-IsWitnessed_from : (ops : List Op) (c : Claim) → IsWitnessed c → IsWitnessed (run c ops)
run-IsWitnessed_from [] c w = w
run-IsWitnessed_from (op ∷ ops) c w =
    run-IsWitnessed_from ops (effect op c).claim (effect-IsWitnessed op c w)

run-IsHistory_from :
    (ops : List Op) (c : Claim)
    → IsHistory c.transitions c.state
    → IsHistory (run c ops).transitions (run c ops).state
run-IsHistory_from [] c h = h
run-IsHistory_from (op ∷ ops) c h =
    run-IsHistory_from ops (effect op c).claim (effect-IsHistory op c h)

-- However a claim is worked on after its creation, failed calls included: when its state is VERIFIED,
-- it carries the record of an independent verifier that said yes.
pub run-verified :
    (id req who : String) (subject : Option String) (ops : List Op)
    → (run (new_claim id req subject who) ops).state ≡ verified
    → HasVerdict (run (new_claim id req subject who) ops)
unfolding new_claim
run-verified id req who subject ops = run-IsWitnessed_from ops _ (λ h. cc)

-- The transition log of every claim starts at REQUESTED, each entry is a move that the table allows
-- from the entry before it, and the last entry is the claim's state: calls that raise log nothing.
pub run-IsHistory :
    (id req who : String) (subject : Option String) (ops : List Op)
    → IsHistory
        (run (new_claim id req subject who) ops).transitions
        (run (new_claim id req subject who) ops).state
unfolding new_claim
run-IsHistory id req who subject ops = run-IsHistory_from ops _ (refl, refl)
