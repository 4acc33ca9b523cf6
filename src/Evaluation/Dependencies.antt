-- ===== src/Evaluation/Dependencies.antt =====
-- hub/coherence/evaluate.py: SATISFIED rows and what their assertions depend on.
use mathlib.Core.Path.{subst}
use dev_gate_agentic_framewo.Common.{
  ◌≡◌, ◌∙◌, refl, sym, ap, String, Bool, true, false, not, ◌&&◌, ◌||◌, Option, List, [], ◌∷◌, ◌++◌,
  all, any, contains, arith, string_eq, ◌==◌, Bool-cases, inl, inr,
}
use mathlib.Core.List.{append_assoc, append-nil}
use dev_gate_agentic_framewo.Common.Dict.{Dict, lookup, insert, lookup-insert}
use dev_gate_agentic_framewo.Common.Result.{ok}
use dev_gate_agentic_framewo.Ledger.{Row, Outcome, Reason, is_satisfied}
use dev_gate_agentic_framewo.Plan.{Assertion, ids}
use dev_gate_agentic_framewo.Plan.Order.{NodupIds}
use dev_gate_agentic_framewo.Evaluation.{
  Engine, Run, enforcement_of, record_row, has_passed, is_blocked, nothing_run, run,
}
use dev_gate_agentic_framewo.Evaluation.Turns.{Signs, Turn, Turns, run-Turns}
use dev_gate_agentic_framewo.Evaluation.Rows.{row_ids, Turn-row_ids}
use dev_gate_agentic_framewo.Evaluation.Findings.{IsFresh, planned-IsFresh}

-- The ledger has a SATISFIED row for the id.
abbrev pub passes : String → Row → Bool
passes k e = k == e.assertion_id && is_satisfied e.outcome

abbrev pub passed : List Row → String → Bool
passed es k = any (passes k) es

-- The assertion did not pass, or all that it depends on did.
abbrev pub rests_on_passed : List Row → Assertion → Bool
rests_on_passed es a = not (passed es a.id) || all (passed es) a.dependencies

passed-snoc :
    (k : String) (es : List Row) (e : Row) → passed (es ++ (e ∷ [])) k ≡ (passed es k || passes k e)
passed-snoc k [] e = ground arith
passed-snoc k (x ∷ es) e = ground (arith, passed-snoc k es e)

passed-has_row :
    (k : String) (es : List Row) → contains (row_ids es) k ≡ false → passed es k ≡ false
passed-has_row k [] h = refl
passed-has_row k (e ∷ es) h = ground (arith, passed-has_row k es)

all-passed_snoc :
    (es : List Row) (e : Row) (ds : List String)
    → all (passed es) ds ≡ true
    → all (passed (es ++ (e ∷ []))) ds ≡ true
all-passed_snoc es e [] h = refl
all-passed_snoc es e (d ∷ ds) h = ground (arith, passed-snoc d es e, all-passed_snoc es e ds)

is_blocked-false :
    (done : Dict Outcome) (es : List Row) (ds : List String)
    → ((k : String) → has_passed done k ≡ passed es k)
    → is_blocked done ds ≡ false
    → all (passed es) ds ≡ true
unfolding is_blocked
is_blocked-false done es [] same h = refl
is_blocked-false done es (d ∷ ds) same h = ground (arith, same d, is_blocked-false done es ds same)

-- Older assertions keep resting on passed ones when a new row comes.
rests-snoc :
    (es : List Row) (e : Row) (as' : List Assertion)
    → contains (ids as') e.assertion_id ≡ false
    → all (rests_on_passed es) as' ≡ true
    → all (rests_on_passed (es ++ (e ∷ []))) as' ≡ true
rests-snoc es e [] fresh h = refl
rests-snoc es e (a ∷ as') fresh h =
    ground (arith, passed-snoc a.id es e, all-passed_snoc es e a.dependencies, rests-snoc es e as')

-- What holds once the assertions `seen` have had their turns.
abbrev Rested : List Assertion → Run → Type 0
Rested seen r =
    (row_ids r.ledger ≡ ids seen)
    × ((k : String) → has_passed r.done k ≡ passed r.ledger k)
    × (all (rests_on_passed r.ledger) seen ≡ true)

all-append :
    (p : Assertion → Bool) (xs ys : List Assertion) → all p (xs ++ ys) ≡ (all p xs && all p ys)
all-append p [] ys = refl
all-append p (x ∷ xs) ys = ground (arith, all-append p xs ys)

ids-append : (xs ys : List Assertion) → ids (xs ++ ys) ≡ ids xs ++ ids ys
ids-append [] ys = refl
ids-append (x ∷ xs) ys = ap (λ l. x.id ∷ l) (ids-append xs ys)

abbrev row_of : Assertion → Outcome → Option Reason → Row
row_of a o why = record {
  assertion_id = a.id;
  version = a.version;
  outcome = o;
  reason = why;
  enforcement = enforcement_of o;
}

-- The newest assertion passes only if all that it depends on did.
newest-rests :
    (a : Assertion) (r r' : Run) (t : Turn a r r')
    → ((k : String) → has_passed r.done k ≡ passed r.ledger k)
    → passed r.ledger a.id ≡ false
    → rests_on_passed (r.ledger ++ (row_of a t.outcome t.reason ∷ [])) a ≡ true
newest-rests a r r' t same old = elim (Bool-cases (is_satisfied t.outcome)) [
  | inl yes' ↦ ground (
    arith,
    t.unblocked,
    all-passed_snoc r.ledger (row_of a t.outcome t.reason) a.dependencies
        (is_blocked-false r.done r.ledger a.dependencies same (ground (arith, t.unblocked))),
  )
  | inr no' ↦ ground (arith, passed-snoc a.id r.ledger (row_of a t.outcome t.reason))
]

Turn-Rested :
    (seen : List Assertion) (a : Assertion) (r r' : Run)
    → Turn a r r'
    → row_ids r'.ledger ≡ row_ids r.ledger ++ (a.id ∷ [])
    → contains (row_ids r.ledger) a.id ≡ false
    → Rested seen r
    → Rested (seen ++ (a ∷ [])) r'
unfolding record_row
Turn-Rested seen a r r' t rows fresh h = (
  rows ∙ (ap (λ l. l ++ (a.id ∷ [])) h.0 ∙ sym (ids-append seen (a ∷ []))),
  subst (λ (x : Run). (k : String) → has_passed x.done k ≡ passed x.ledger k) (sym t.is_record)
      same,
  subst (λ (x : Run). all (rests_on_passed x.ledger) (seen ++ (a ∷ [])) ≡ true) (sym t.is_record)
      rested,
)
  where
    old : passed r.ledger a.id ≡ false
    old = passed-has_row a.id r.ledger fresh

    same :
        (k : String)
        → has_passed (insert a.id t.outcome r.done) k
          ≡ passed (r.ledger ++ (row_of a t.outcome t.reason ∷ [])) k
    same k = ground (
      arith,
      lookup-insert k a.id t.outcome r.done,
      passed-snoc k r.ledger (row_of a t.outcome t.reason),
      h.1 k,
      old,
    )

    rested :
        all (rests_on_passed (r.ledger ++ (row_of a t.outcome t.reason ∷ []))) (seen ++ (a ∷ []))
        ≡ true
    rested = ground (
      arith,
      all-append (rests_on_passed (r.ledger ++ (row_of a t.outcome t.reason ∷ []))) seen (a ∷ []),
      rests-snoc r.ledger (row_of a t.outcome t.reason) seen
          (ap (λ l. contains l a.id) (sym h.0) ∙ fresh) h.2,
      newest-rests a r r' t h.1 old,
    )

Turns-Rested :
    (as' seen : List Assertion) (r r' : Run)
    → Turns as' r r'
    → IsFresh (row_ids r.ledger) as'
    → Rested seen r
    → Rested (seen ++ as') r'
Turns-Rested [] seen r r' t fresh h =
    subst (Rested (seen ++ [])) t (subst (λ l. Rested l r) (sym (append-nil seen)) h)
Turns-Rested (a ∷ as') seen r r' (m, t, ts) fresh h =
    subst (λ l. Rested l r') (append_assoc seen (a ∷ []) as')
      (Turns-Rested as' (seen ++ (a ∷ [])) m r' ts
        (subst (λ ks. IsFresh ks as') (sym (Turn-row_ids a r m t)) fresh.1)
        (Turn-Rested seen a r m t (Turn-row_ids a r m t) fresh.0 h))

-- Where the planned ids differ and the evaluators sign their findings, an assertion passes in a run
-- only if every assertion that it depends on has passed too: a failed, undecided or unplanned
-- dependency lets nothing pass that rests on it.
pub run-rests :
    (e : Engine) (planned : List Assertion) (r : Run)
    → Signs e
    → NodupIds planned
    → run e planned ≡ ok r
    → all (rests_on_passed r.ledger) planned ≡ true
unfolding lookup
run-rests e planned r signs u h =
    (Turns-Rested planned [] nothing_run r (run-Turns e planned r signs h)
      (planned-IsFresh planned u) (refl, λ k. refl, refl)).2
