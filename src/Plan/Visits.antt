-- ===== src/Plan/Visits.antt =====
-- hub/coherence/plan.py: what holds between the calls of `visit`, and its fuel.
use dev_gate_agentic_framewo.Common.{
  ℕ, zero, suc, ◌<◌, ◌≡◌, ◌↔◌, ◌∙◌, refl, ap, String, true, false, Option, none, some, List, [],
  ◌∷◌, contains, ◌==◌, string_eq, ◌||◌, arith, All, All-append,
}
use dev_gate_agentic_framewo.Common.Dict.{lookup, lookup-insert}
use dev_gate_agentic_framewo.Common.Result.{Result, ok, err, ◌>>=◌}
use dev_gate_agentic_framewo.Plan.{
  Assertion, PlanError, ids, Mark, active, done, Visit, set_mark, find_assertion, visit_all, finish,
  enter, visit, dependency_cycle, out_of_fuel,
}
use dev_gate_agentic_framewo.Plan.Order.{
  Ordered, NodupIds, contains-ids-snoc, Ordered-snoc, NodupIds-snoc,
}
use dev_gate_agentic_framewo.Plan.Unmarked.{
  Keeps, unmarked, unmarked-le_of_Keeps, unmarked-insert_lt, find_assertion-id,
}

abbrev pub IsOwn : List Assertion → Assertion → Type 0
IsOwn as' a = find_assertion a.id as' ≡ some a

-- What holds of the plan and the marks between the calls.
abbrev pub IsSound : List Assertion → Visit → Type 0
IsSound as' st =
    Ordered [] st.planned
    × NodupIds st.planned
    × All (IsOwn as') st.planned
    × ((k : String) → (lookup k st.marks ≡ some done) ↔ (contains (ids st.planned) k ≡ true))

abbrev pub IsRefusal : PlanError → Type 0
IsRefusal out_of_fuel = ⊥
IsRefusal _ = Unit

-- A visit of an id ends with the id planned, or refuses the package.
abbrev pub Visited : List Assertion → String → Visit → Result PlanError Visit → Type 0
Visited as' k st (err e) = IsRefusal e
Visited as' k st (ok st') =
    IsSound as' st' × (lookup k st'.marks ≡ some done) × Keeps st.marks st'.marks

abbrev pub IsDone : Visit → String → Type 0
IsDone st k = lookup k st.marks ≡ some done

abbrev pub VisitedAll : List Assertion → List String → Visit → Result PlanError Visit → Type 0
VisitedAll as' ks st (err e) = IsRefusal e
VisitedAll as' ks st (ok st') = IsSound as' st' × All (IsDone st') ks × Keeps st.marks st'.marks

module _ (as' : List Assertion) (n : ℕ) (go : String → Visit → Result PlanError Visit)
    (goes : (k : String) (st : Visit)
      → IsSound as' st
      → unmarked as' st.marks < n
      → Visited as' k st (go k st)) where
  pub visit_all-VisitedAll :
      (ks : List String) (st : Visit)
      → IsSound as' st
      → unmarked as' st.marks < n
      → VisitedAll as' ks st (visit_all go ks st)
  unfolding visit_all
  visit_all-VisitedAll [] st h lt = (h, tt, λ k m e. e)
  visit_all-VisitedAll (k ∷ ks) st h lt =
      first (go k st) (goes k st h lt) (λ st'. visit_all-VisitedAll ks st')
    where
      then_rest :
          (st' : Visit)
          → Visited as' k st (ok st')
          → (r : Result PlanError Visit) → VisitedAll as' ks st' r
          → VisitedAll as' (k ∷ ks) st r
      then_rest st' v (err e) w = w
      then_rest st' v (ok st'') w = (w.0, (w.2 k done v.1, w.1), λ j m e. w.2 j m (v.2 j m e))

      first :
          (r : Result PlanError Visit)
          → Visited as' k st r
          → ((st' : Visit)
              → IsSound as' st'
              → unmarked as' st'.marks < n
              → VisitedAll as' ks st' (visit_all go ks st'))
          → VisitedAll as' (k ∷ ks) st (r >>= visit_all go ks)
      first (err e) v ih = v
      first (ok st') v ih =
          then_rest st' v (visit_all go ks st')
            (ih st' v.0 (omega (arith, unmarked-le_of_Keeps as' st.marks st'.marks v.2)))

-- Marking an id as active leaves the plan as it is.
pub set_mark-IsSound :
    (as' : List Assertion) (k : String) (st : Visit)
    → IsSound as' st
    → lookup k st.marks ≡ none
    → IsSound as' (set_mark k active st)
set_mark-IsSound as' k st h e = (
  h.0,
  h.1,
  h.2,
  λ j. (
    λ p. ground (arith, lookup-insert j k active st.marks, (h.3 j).0),
    λ c. ground (arith, lookup-insert j k active st.marks, (h.3 j).1),
  ),
)

-- The dependencies that are done stand in the plan.
dependencies-planned :
    (as' : List Assertion) (st : Visit) (ds : List String)
    → IsSound as' st
    → All (IsDone st) ds
    → All (λ d. (contains (ids st.planned) d || contains {A = String} [] d) ≡ true) ds
dependencies-planned as' st [] h k = tt
dependencies-planned as' st (d ∷ ds) h k =
    (ground (arith, (h.3 d).0), dependencies-planned as' st ds h k.1)

-- An id that is still active stands nowhere in the plan.
active-unplanned :
    (as' : List Assertion) (k : String) (st : Visit)
    → IsSound as' st
    → lookup k st.marks ≡ some active
    → contains (ids st.planned) k ≡ false
active-unplanned as' k st h e = ground (arith, (h.3 k).1)

finish-IsSound :
    (as' : List Assertion) (k : String) (a : Assertion) (st : Visit)
    → a.id ≡ k
    → IsOwn as' a
    → IsSound as' st
    → lookup k st.marks ≡ some active
    → All (IsDone st) a.dependencies
    → IsSound as' (finish k a st)
finish-IsSound as' k a st is own h e deps = (
  Ordered-snoc [] st.planned a h.0 (dependencies-planned as' st a.dependencies h deps),
  NodupIds-snoc st.planned a h.1 (rw is (active-unplanned as' k st h e)),
  All-append (IsOwn as') st.planned (a ∷ []) h.2 (own, tt),
  λ j. (
    λ p.
        ground
          (arith, contains-ids-snoc j st.planned a, lookup-insert j k done st.marks, (h.3 j).0),
    λ c.
        ground
          (arith, contains-ids-snoc j st.planned a, lookup-insert j k done st.marks, (h.3 j).1),
  ),
)

finish-Visited :
    (as' : List Assertion) (k : String) (a : Assertion) (st st' : Visit)
    → a.id ≡ k
    → IsOwn as' a
    → lookup k st.marks ≡ none
    → VisitedAll as' a.dependencies (set_mark k active st) (ok st')
    → Visited as' k st (ok (finish k a st'))
finish-Visited as' k a st st' is own e v = (
  finish-IsSound as' k a st' is own v.0 (v.2 k active (rw lookup-insert (ground arith))) v.1,
  rw lookup-insert (ground arith),
  λ j m q. keep j m q,
)
  where
    other : (j : String) (m : Mark) → lookup j st.marks ≡ some m → (j == k) ≡ false
    other j m q = ground arith

    keep :
        (j : String) (m : Mark)
        → lookup j st.marks ≡ some m
        → lookup j (finish k a st').marks ≡ some m
    keep j m q = rw (lookup-insert, other j m q) (v.2 j m (rw (lookup-insert, other j m q) q))

enter-Visited :
    (as' : List Assertion) (n : ℕ) (go : String → Visit → Result PlanError Visit)
    (goes : (k : String) (st : Visit)
      → IsSound as' st
      → unmarked as' st.marks < n
      → Visited as' k st (go k st))
    (k : String) (st : Visit)
    → lookup k st.marks ≡ none
    → IsSound as' st
    → unmarked as' st.marks < suc n
    → Visited as' k st (enter go k (find_assertion k as') st)
unfolding enter
enter-Visited as' n go goes k st e h lt = start (find_assertion k as') refl
  where
    end_of :
        (a : Assertion)
        → find_assertion k as' ≡ some a
        → (r : Result PlanError Visit) → VisitedAll as' a.dependencies (set_mark k active st) r
        → Visited as' k st (r >>= λ st'. ok (finish k a st'))
    end_of a f (err p) v = v
    end_of a f (ok st') v =
        let is = (find_assertion-id k as' a f).0 in
        finish-Visited as' k a st st' is (ap (λ j. find_assertion j as') is ∙ f) e v

    start : (o : Option Assertion) → find_assertion k as' ≡ o → Visited as' k st (enter go k o st)
    start none f = tt
    start (some a) f = end_of a f (visit_all go a.dependencies (set_mark k active st)) (
        visit_all-VisitedAll as' n go goes a.dependencies (set_mark k active st)
          (set_mark-IsSound as' k st h e)
          (omega
            (arith, unmarked-insert_lt as' k active st.marks (find_assertion-id k as' a f).1 e)))

pub visit-Visited :
    (as' : List Assertion) (n : ℕ) (k : String) (st : Visit)
    → IsSound as' st
    → unmarked as' st.marks < n
    → Visited as' k st (visit as' n k st)
unfolding visit
visit-Visited as' zero k st h lt = absurd (omega arith)
visit-Visited as' (suc n) k st h lt =
    go (lookup k st.marks) refl (enter-Visited as' n (visit as' n) (visit-Visited as' n) k st)
  where
    go :
        (o : Option Mark)
        → lookup k st.marks ≡ o
        → (lookup k st.marks ≡ none
            → IsSound as' st
            → unmarked as' st.marks < suc n
            → Visited as' k st (enter (visit as' n) k (find_assertion k as') st))
        → Visited as' k st (elim o as (λ x. Result PlanError Visit) [
          | some done ↦ ok st
          | some active ↦ err (dependency_cycle k)
          | none ↦ enter (visit as' n) k (find_assertion k as') st
        ])
    go none e ih = ih e h lt
    go (some done) e ih = (h, e, λ j m q. q)
    go (some active) e ih = tt
