-- ===== src/Evaluation/Rows.antt =====
-- hub/coherence/evaluate.py: the rows of a run.
use dev_gate_agentic_framewo.Common.{◌≡◌, ◌∙◌, refl, sym, ap, String, List, [], ◌∷◌, ◌++◌, map}
use mathlib.Core.List.{append-nil, append_assoc}
use dev_gate_agentic_framewo.Common.Result.{ok}
use dev_gate_agentic_framewo.Ledger.{Row}
use dev_gate_agentic_framewo.Plan.{Assertion, ids}
use dev_gate_agentic_framewo.Evaluation.{Engine, Run, record_row, nothing_run, run}
use dev_gate_agentic_framewo.Evaluation.Turns.{Signs, Turn, Turns, run-Turns}

abbrev pub row_ids : List Row → List String
row_ids es = map (λ (e : Row). e.assertion_id) es

pub row_ids-snoc :
    (es : List Row) (e : Row) → row_ids (es ++ (e ∷ [])) ≡ row_ids es ++ (e.assertion_id ∷ [])
row_ids-snoc [] e = refl
row_ids-snoc (x ∷ es) e = ap (λ l. x.assertion_id ∷ l) (row_ids-snoc es e)

pub Turn-row_ids :
    (a : Assertion) (r r' : Run) → Turn a r r' → row_ids r'.ledger ≡ row_ids r.ledger ++ (a.id ∷ [])
Turn-row_ids a r r' t =
    ap (λ (x : Run). row_ids x.ledger) t.is_record ∙ unfold record_row in row_ids-snoc r.ledger _

Turns-row_ids :
    (as' : List Assertion) (r r' : Run)
    → Turns as' r r'
    → row_ids r'.ledger ≡ row_ids r.ledger ++ ids as'
Turns-row_ids [] r r' t = ap (λ (x : Run). row_ids x.ledger) (sym t) ∙ sym (append-nil _)
Turns-row_ids (a ∷ as') r r' (m, t, ts) =
    Turns-row_ids as' m r' ts
    ∙ (ap (λ (l : List String). l ++ ids as') (Turn-row_ids a r m t)
        ∙ append_assoc (row_ids r.ledger) (a.id ∷ []) (ids as'))

-- A run that returns records one row for each planned assertion, in their order: none is dropped,
-- whether it is unapproved, blocked, undecided, crashed or drifted.
pub run-rows :
    (e : Engine) (planned : List Assertion) (r : Run)
    → Signs e
    → run e planned ≡ ok r
    → row_ids r.ledger ≡ ids planned
run-rows e planned r signs h = Turns-row_ids planned nothing_run r (run-Turns e planned r signs h)
