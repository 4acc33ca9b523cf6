-- ===== src/Evaluation/Held.antt =====
-- hub/coherence/evaluate.py: what an evaluator saw where every row of a run is SATISFIED.
use dev_gate_agentic_framewo.Common.{
  ◌≡◌, ◌∙◌, refl, sym, String, Bool, true, false, ◌&&◌, Option, none, some, List, [], ◌∷◌, ◌++◌,
  all, arith, string_eq, All, Bool-cases, inl, inr, ◌==◌,
}
use mathlib.Core.Path.{subst}
use dev_gate_agentic_framewo.Common.Dict.{Dict, lookup, insert, lookup-insert}
use dev_gate_agentic_framewo.Common.Json.{Json}
use dev_gate_agentic_framewo.Common.Result.{Result, ok, ok_injective, >>=-ok}
use dev_gate_agentic_framewo.Ledger.{
  Row, Finding, Outcome, Reason, is_satisfied, unresolved, unapproved_evaluator,
}
use dev_gate_agentic_framewo.Plan.{Assertion, Selector}
use dev_gate_agentic_framewo.Decision.{row_satisfied}
use dev_gate_agentic_framewo.Evaluation.{
  Ran, found, undecided, crashed, Evaluator, Engine, Run, Mediated, nameless, missing, shown,
  facts_of, record_row, draft, settle, call, evaluate_one, evaluate_all, nothing_run, run, Halt,
  is_blocked, Fault, mediate, declared_facts, enforcement_of,
}

-- The assertion's evaluator is built in, every fact that the assertion declares is bound, and the
-- evaluator finds nothing on them.
abbrev pub Held : Engine → Assertion → Type 0
Held e a =
    (fn : Evaluator) × (facts : Dict Json) × (e.builtin a.evaluator ≡ some fn)
    × (facts_of e a ≡ shown facts)
    × (fn a facts ≡ found [])

all_satisfied-snoc :
    (es : List Row) (e : Row)
    → all row_satisfied (es ++ (e ∷ [])) ≡ (all row_satisfied es && row_satisfied e)
all_satisfied-snoc [] e = ground arith
all_satisfied-snoc (x ∷ es) e = ground (arith, all_satisfied-snoc es e)

and-split : (a b : Bool) → (a && b) ≡ true → (a ≡ true) × (b ≡ true)
and-split a b h = ground arith

record_row-satisfied :
    (a : Assertion) (o : Outcome) (why : Option Reason) (fs : List Finding) (er : Option Halt)
    (r : Run)
    → all row_satisfied (record_row a o why fs er r).ledger ≡ true
    → (all row_satisfied r.ledger ≡ true) × (is_satisfied o ≡ true)
unfolding record_row
record_row-satisfied a o why fs er r h =
    let row : Row = record {
      assertion_id = a.id;
      version = a.version;
      outcome = o;
      reason = why;
      enforcement = enforcement_of o;
    } in
    and-split (all row_satisfied r.ledger) (is_satisfied o)
      (sym (all_satisfied-snoc r.ledger row) ∙ h)

settle-satisfied :
    (a : Assertion) (r : Run) (ran : Ran) (drift : Option String)
    → all row_satisfied (settle a r (draft a r.error ran) drift).ledger ≡ true
    → (all row_satisfied r.ledger ≡ true) × (ran ≡ found [])
unfolding settle draft
settle-satisfied a r (found []) none h = ((record_row-satisfied a _ _ _ _ r h).0, refl)
settle-satisfied a r (found (f ∷ fs)) none h =
    absurd (ground (arith, record_row-satisfied a _ _ _ _ r h))
settle-satisfied a r (undecided w) none h =
    absurd (ground (arith, record_row-satisfied a _ _ _ _ r h))
settle-satisfied a r (crashed w) none h =
    absurd (ground (arith, record_row-satisfied a _ _ _ _ r h))
settle-satisfied a r ran (some p) h = absurd (ground (arith, record_row-satisfied a _ _ _ _ r h))

-- A turn that leaves only SATISFIED rows started with only such rows, and its assertion held.
abbrev Passing : Engine → Assertion → Run → Run → Type 0
Passing e a r r' =
    all row_satisfied r'.ledger ≡ true → (all row_satisfied r.ledger ≡ true) × Held e a

unsatisfied-Passing :
    (e : Engine) (a : Assertion) (r r' : Run) (o : Outcome) (why : Option Reason) (er : Option Halt)
    → is_satisfied o ≡ false
    → ◌≡◌ {A = Result Fault Run} (ok (record_row a o why [] er r)) (ok r')
    → Passing e a r r'
unsatisfied-Passing e a r r' o why er not_passed h k = absurd (
    ground (
      arith,
      record_row-satisfied a o why [] er r
          (subst (λ (x : Run). all row_satisfied x.ledger ≡ true) (sym (ok_injective h)) k),
    ))

call-Passing :
    (e : Engine) (fn : Evaluator) (a : Assertion) (m : Mediated) (r r' : Run)
    → e.builtin a.evaluator ≡ some fn
    → facts_of e a ≡ m
    → call e fn a m r ≡ ok r'
    → Passing e a r r'
unfolding call
call-Passing e fn a nameless r r' known seen h = absurd (ground arith)
call-Passing e fn a (missing id) r r' known seen h = unsatisfied-Passing e a r r' _ _ _ refl h
call-Passing e fn a (shown facts) r r' known seen h =
    elim (Bool-cases (is_blocked r.done a.dependencies)) [
      | inl b ↦ unsatisfied-Passing e a r r' _ _ _ refl (rw b at h)
      | inr free ↦ λ k.
          let (before, nothing) = settle-satisfied a r (fn a facts) (e.mutation a) (
            subst (λ (x : Run). all row_satisfied x.ledger ≡ true)
              (sym (ok_injective (rw free at h))) k) in
          (before, (fn, facts, known, seen, nothing))
    ]

evaluate_one-Passing :
    (e : Engine) (a : Assertion) (r r' : Run) → evaluate_one e a r ≡ ok r' → Passing e a r r'
unfolding evaluate_one
evaluate_one-Passing e a r r' = go (e.builtin a.evaluator) refl
  where
    go :
        (o : Option Evaluator)
        → e.builtin a.evaluator ≡ o
        → (elim o as (λ x. Result Fault Run) [
          | none ↦ ok (record_row a unresolved (some unapproved_evaluator) [] r.error r)
          | some fn ↦ call e fn a (facts_of e a) r
        ])
          ≡ ok r'
        → Passing e a r r'
    go none known h = unsatisfied-Passing e a r r' _ _ _ refl h
    go (some fn) known h = call-Passing e fn a (facts_of e a) r r' known refl h

evaluate_all-Held :
    (e : Engine) (as' : List Assertion) (r r' : Run)
    → evaluate_all e as' r ≡ ok r'
    → all row_satisfied r'.ledger ≡ true
    → (all row_satisfied r.ledger ≡ true) × All (Held e) as'
unfolding evaluate_all
evaluate_all-Held e [] r r' h k =
    (subst (λ (x : Run). all row_satisfied x.ledger ≡ true) (sym (ok_injective h)) k, tt)
evaluate_all-Held e (a ∷ as') r r' h k =
    let (m, rest, one) = >>=-ok (evaluate_one e a r) h in
    let (between, later) = evaluate_all-Held e as' m r' rest k in
    let (before, now) = evaluate_one-Passing e a r m one between in (before, (now, later))

-- Where every row of a run is SATISFIED, each planned assertion's evaluator was built in, was shown
-- all the facts that the assertion declares, and found nothing on them.
pub run-Held :
    (e : Engine) (planned : List Assertion) (r : Run)
    → run e planned ≡ ok r
    → all row_satisfied r.ledger ≡ true
    → All (Held e) planned
unfolding run
run-Held e planned r h k = (evaluate_all-Held e planned nothing_run r (ground arith) k).1

-- The id is one, and is looked up as in the bound facts.
abbrev pub IsAsBound : Dict Json → Dict Json → Option String → Type 0
IsAsBound bound facts none = ⊥
IsAsBound bound facts (some id) = lookup id facts ≡ lookup id bound

shown_injective : {a b : Dict Json} → shown a ≡ shown b → a ≡ b
shown_injective h = cc

mediate-lookup :
    (bound : Dict Json) (ids : List (Option String)) (seen facts : Dict Json) (k : String)
    → mediate bound ids seen ≡ shown facts
    → lookup k seen ≡ lookup k bound
    → lookup k facts ≡ lookup k bound
unfolding mediate
mediate-lookup bound [] seen facts k h same =
    subst (λ (d : Dict Json). lookup k d ≡ lookup k bound) (shown_injective h) same
mediate-lookup bound (none ∷ ids) seen facts k h same = absurd (ground arith)
mediate-lookup bound (some id ∷ ids) seen facts k h same =
    go (lookup id bound) refl h (λ c. mediate-lookup bound ids (insert id c seen) facts k)
  where
    go :
        (o : Option Json)
        → lookup id bound ≡ o
        → (elim o as (λ x. Mediated) [
          | none ↦ missing id
          | some content ↦ mediate bound ids (insert id content seen)
        ])
          ≡ shown facts
        → ((c : Json)
            → mediate bound ids (insert id c seen) ≡ shown facts
            → lookup k (insert id c seen) ≡ lookup k bound
            → lookup k facts ≡ lookup k bound)
        → lookup k facts ≡ lookup k bound
    go none there k' later = absurd (ground arith)
    go (some content) there k' later = later content k' (elim (Bool-cases (k == id)) [
      | inl e ↦ lookup-insert k id content seen ∙ ground (arith, there, e, same)
      | inr e ↦ lookup-insert k id content seen ∙ ground (arith, e, same)
    ])

mediate-known :
    (bound : Dict Json) (ids : List (Option String)) (seen facts : Dict Json)
    → mediate bound ids seen ≡ shown facts
    → All (IsAsBound bound facts) ids
unfolding mediate
mediate-known bound [] seen facts h = tt
mediate-known bound (none ∷ ids) seen facts h = absurd (ground arith)
mediate-known bound (some id ∷ ids) seen facts h =
    go (lookup id bound) refl h (λ c. mediate-known bound ids (insert id c seen) facts)
  where
    go :
        (o : Option Json)
        → lookup id bound ≡ o
        → (elim o as (λ x. Mediated) [
          | none ↦ missing id
          | some content ↦ mediate bound ids (insert id content seen)
        ])
          ≡ shown facts
        → ((c : Json)
            → mediate bound ids (insert id c seen) ≡ shown facts
            → All (IsAsBound bound facts) ids)
        → All (IsAsBound bound facts) (some id ∷ ids)
    go none there k' later = absurd (ground arith)
    go (some content) there k' later = (
      mediate-lookup bound ids (insert id content seen) facts id k'
          (lookup-insert id id content seen ∙ ground (arith, there)),
      later content k',
    )

-- A subject that declares a captured fact names one, and is shown the fact that is bound.
abbrev pub SeesBound : Dict Json → Dict Json → Selector → Type 0
SeesBound bound facts s = (s.kind == "captured-fact") ≡ true → IsAsBound bound facts s.fact_id

declared-SeesBound :
    (bound facts : Dict Json) (ss : List Selector)
    → All (IsAsBound bound facts) (declared_facts ss)
    → All (SeesBound bound facts) ss
unfolding declared_facts
declared-SeesBound bound facts [] h = tt
declared-SeesBound bound facts (s ∷ ss) h = elim (Bool-cases (s.kind == "captured-fact")) [
  | inl e ↦
      let (now, later) = split s.fact_id (declared_facts ss) (rw e at h) in
      (λ k. now, declared-SeesBound bound facts ss later)
  | inr e ↦ (λ k. absurd (ground arith), declared-SeesBound bound facts ss (rw e at h))
]
  where
    split :
        (id : Option String) (ids : List (Option String))
        → All (IsAsBound bound facts) (id ∷ ids)
        → IsAsBound bound facts id × All (IsAsBound bound facts) ids
    split id ids k = k

-- The facts that an evaluator is shown are the ones bound for the subjects that declare one.
pub shown-SeesBound :
    (e : Engine) (a : Assertion) (facts : Dict Json)
    → facts_of e a ≡ shown facts
    → All (SeesBound e.captured_facts facts) a.subjects
shown-SeesBound e a facts h =
    declared-SeesBound e.captured_facts facts a.subjects
      (mediate-known e.captured_facts (declared_facts a.subjects) [] facts h)
