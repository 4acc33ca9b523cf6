-- ===== src/Claim/Table.antt =====
-- The transition table: which moves of a claim's state it allows.
use dev_gate_agentic_framewo.Common.{
  ℕ, suc, ◌≡◌, true, ◌||◌, ◌&&◌, contains, ◌==◌, string_eq, arith, nat_eq,
}
use dev_gate_agentic_framewo.Common.Result.{ok}
use dev_gate_agentic_framewo.Claim.{
  State, requested, planned, attempted, executed, completed, tested, observed, verified, ladder,
  terminal, can_transition, state_eq,
}

-- The place of a state on the ladder.
abbrev pub rung : State → ℕ
rung requested = 0
rung planned = 1
rung attempted = 2
rung executed = 3
rung completed = 4
rung tested = 5
rung observed = 6
rung verified = 7
rung _ = 8

-- No move leaves the terminal states.
pub can_transition-terminal :
    (s t : State)
    → contains terminal s ≡ true
    → can_transition s t ≡ ok true
    → contains terminal t ≡ true
unfolding can_transition state_eq
can_transition-terminal s t h k = ground arith

-- Between two states of the ladder the table allows a move exactly when the target is the same
-- state, the next rung, ATTEMPTED from REQUESTED, or VERIFIED; no other rung is skipped or left
-- downwards.
pub can_transition-ladder :
    (s t : State)
    → contains ladder s ≡ true
    → contains ladder t ≡ true
    → can_transition s t
      ≡ ok (s == t || rung t == suc (rung s) || (s == requested && t == attempted) || t == verified)
unfolding can_transition state_eq nat_eq
can_transition-ladder s t h k = ground arith
