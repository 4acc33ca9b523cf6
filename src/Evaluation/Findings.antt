-- ===== src/Evaluation/Findings.antt =====
-- hub/coherence/evaluate.py: the findings of a run and its VIOLATED rows.
use dev_gate_agentic_framewo.Common.{
  ◌≡◌, ◌∙◌, refl, sym, String, Bool, true, false, ◌&&◌, ◌||◌, List, [], ◌∷◌, ◌++◌, any, contains,
  arith, string_eq, ◌==◌, All, All-append,
}
use mathlib.Core.Path.{subst}
use dev_gate_agentic_framewo.Common.Result.{ok}
use dev_gate_agentic_framewo.Ledger.{Row, Finding, is_violated}
use dev_gate_agentic_framewo.Plan.{Assertion, ids}
use dev_gate_agentic_framewo.Plan.Order.{NodupIds}
use dev_gate_agentic_framewo.Evaluation.{enforcement_of, Engine, Run, record_row, nothing_run, run}
use dev_gate_agentic_framewo.Evaluation.Turns.{is_nonempty, IsAbout, Signs, Turn, Turns, run-Turns}
use dev_gate_agentic_framewo.Evaluation.Rows.{row_ids, row_ids-snoc, Turn-row_ids}

abbrev pub names_id : String → Finding → Bool
names_id k f = k == f.assertion_id

abbrev pub IsExplained : List Finding → Row → Type 0
IsExplained fs e = is_violated e.outcome ≡ any (names_id e.assertion_id) fs

any-append :
    (k : String) (fs gs : List Finding)
    → any (names_id k) (fs ++ gs) ≡ (any (names_id k) fs || any (names_id k) gs)
any-append k [] gs = refl
any-append k (f ∷ fs) gs = ground (arith, any-append k fs gs)

-- Findings of one assertion, seen from any id.
any-own :
    (k : String) (a : Assertion) (fs : List Finding)
    → All (IsAbout a) fs
    → any (names_id k) fs ≡ (k == a.id && is_nonempty fs)
any-own k a [] h = ground arith
any-own k a (f ∷ fs) h = ground (arith, any-own k a fs h.1)

-- A new assertion's findings leave the older rows as they were.
IsExplained-append :
    (a : Assertion) (fs gs : List Finding) (es : List Row)
    → All (IsAbout a) gs
    → contains (row_ids es) a.id ≡ false
    → All (IsExplained fs) es
    → All (IsExplained (fs ++ gs)) es
IsExplained-append a fs gs [] own fresh h = tt
IsExplained-append a fs gs (e ∷ es) own fresh h = (
  ground (arith, any-append e.assertion_id fs gs, any-own e.assertion_id a gs own, h.0),
  IsExplained-append a fs gs es own (ground arith) h.1,
)

-- Every row is explained, and no finding names an id without a row.
abbrev Explained : Run → Type 0
Explained r =
    All (IsExplained r.findings) r.ledger
    × ((k : String) → contains (row_ids r.ledger) k ≡ false → any (names_id k) r.findings ≡ false)

pub contains-snoc :
    (k x : String) (xs : List String) → contains (xs ++ (x ∷ [])) k ≡ (contains xs k || k == x)
contains-snoc k x [] = ground arith
contains-snoc k x (y ∷ xs) = ground (arith, contains-snoc k x xs)

Turn-Explained :
    (a : Assertion) (r r' : Run)
    → Turn a r r'
    → contains (row_ids r.ledger) a.id ≡ false
    → Explained r
    → Explained r'
unfolding record_row
Turn-Explained a r r' t fresh h = subst Explained (sym t.is_record) (
  All-append (IsExplained (r.findings ++ t.findings)) r.ledger _
      (IsExplained-append a r.findings t.findings r.ledger t.own fresh h.0)
      (
        t.violated_iff
            ∙ ground (
              arith,
              any-append a.id r.findings t.findings,
              any-own a.id a t.findings t.own,
              h.1 a.id fresh,
            ),
        tt,
      ),
  λ k e. ground (
    arith,
    any-append k r.findings t.findings,
    any-own k a t.findings t.own,
    h.1 k,
    row_ids-snoc r.ledger (record {
      assertion_id = a.id;
      version = a.version;
      outcome = t.outcome;
      reason = t.reason;
      enforcement = enforcement_of t.outcome;
    }),
    contains-snoc k a.id (row_ids r.ledger),
  ),
)

-- The ids of the assertions to come are new, and differ from one another.
abbrev pub IsFresh : List String → List Assertion → Type 0
IsFresh seen [] = Unit
IsFresh seen (a ∷ as') = (contains seen a.id ≡ false) × IsFresh (seen ++ (a.id ∷ [])) as'

NodupIds-IsFresh :
    (seen : List String) (as' : List Assertion)
    → NodupIds as'
    → ((k : String) → contains (ids as') k ≡ true → contains seen k ≡ false)
    → IsFresh seen as'
NodupIds-IsFresh seen [] u new = tt
NodupIds-IsFresh seen (a ∷ as') u new = (
  new a.id (ground arith),
  NodupIds-IsFresh (seen ++ (a.id ∷ [])) as' u.1
      (λ k c. ground (arith, contains-snoc k a.id seen, new k)),
)

pub planned-IsFresh : (as' : List Assertion) → NodupIds as' → IsFresh [] as'
planned-IsFresh as' u = NodupIds-IsFresh [] as' u (λ k c. refl)

Turns-Explained :
    (as' : List Assertion) (r r' : Run)
    → Turns as' r r'
    → IsFresh (row_ids r.ledger) as'
    → Explained r
    → Explained r'
Turns-Explained [] r r' t fresh h = subst Explained t h
Turns-Explained (a ∷ as') r r' (m, t, ts) fresh h =
    Turns-Explained as' m r' ts
      (subst (λ seen. IsFresh seen as') (sym (Turn-row_ids a r m t)) fresh.1)
      (Turn-Explained a r m t fresh.0 h)

-- Where the planned ids differ and the evaluators sign their findings, a row of the run is VIOLATED
-- exactly when some finding of the run is about its assertion; so the findings of an assertion that
-- crashed, was undecided or whose subject drifted are dropped with it.
pub run-IsExplained :
    (e : Engine) (planned : List Assertion) (r : Run)
    → Signs e
    → NodupIds planned
    → run e planned ≡ ok r
    → All (IsExplained r.findings) r.ledger
run-IsExplained e planned r signs u h =
    (Turns-Explained planned nothing_run r (run-Turns e planned r signs h)
      (planned-IsFresh planned u) (tt, λ k e. refl)).0
