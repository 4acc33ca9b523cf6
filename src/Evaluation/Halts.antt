-- ===== src/Evaluation/Halts.antt =====
-- hub/coherence/evaluate.py: the rows of an ERROR-execution condition, and the run's error.
use dev_gate_agentic_framewo.Common.{
  ◌≡◌, sym, Bool, true, ◌||◌, is_some, List, [], ◌∷◌, ◌++◌, any, arith,
}
use mathlib.Core.Path.{subst}
use dev_gate_agentic_framewo.Common.Result.{ok}
use dev_gate_agentic_framewo.Ledger.{Row}
use dev_gate_agentic_framewo.Plan.{Assertion}
use dev_gate_agentic_framewo.Evaluation.{Engine, Run, record_row, nothing_run, run, enforcement_of}
use dev_gate_agentic_framewo.Evaluation.Turns.{is_halting, Signs, Turn, Turns, run-Turns}

abbrev pub row_halts : Row → Bool
row_halts e = is_halting e.reason

any-snoc :
    (es : List Row) (e : Row) → any row_halts (es ++ (e ∷ [])) ≡ (any row_halts es || row_halts e)
any-snoc [] e = ground arith
any-snoc (x ∷ es) e = ground (arith, any-snoc es e)

-- A row of an error condition is only there if the error is set.
abbrev Flagged : Run → Type 0
Flagged r = any row_halts r.ledger ≡ true → is_some r.error ≡ true

Turn-Flagged : (a : Assertion) (r r' : Run) → Turn a r r' → Flagged r → Flagged r'
unfolding record_row
Turn-Flagged a r r' t h = subst Flagged (sym t.is_record) (λ k. ground (
  arith,
  t.halts,
  h,
  any-snoc r.ledger (record {
    assertion_id = a.id;
    version = a.version;
    outcome = t.outcome;
    reason = t.reason;
    enforcement = enforcement_of t.outcome;
  }),
))

Turns-Flagged : (as' : List Assertion) (r r' : Run) → Turns as' r r' → Flagged r → Flagged r'
Turns-Flagged [] r r' t h = subst Flagged t h
Turns-Flagged (a ∷ as') r r' (m, t, ts) h = Turns-Flagged as' m r' ts (Turn-Flagged a r m t h)

pub run-Flagged :
    (e : Engine) (planned : List Assertion) (r : Run)
    → Signs e
    → run e planned ≡ ok r
    → any row_halts r.ledger ≡ true
    → is_some r.error ≡ true
run-Flagged e planned r signs h =
    Turns-Flagged planned nothing_run r (run-Turns e planned r signs h) (λ k. absurd (ground arith))
