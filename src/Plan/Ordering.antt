-- ===== src/Plan/Ordering.antt =====
-- hub/coherence/plan.py: the result of `order`.
use dev_gate_agentic_framewo.Common.{
  ◌≡◌, ◌≢◌, ◌↔◌, refl, String, true, some, List, [], ◌∷◌, contains, string_eq, arith, All, all,
}
use dev_gate_agentic_framewo.Common.Dict.{lookup}
use dev_gate_agentic_framewo.Common.Result.{Result, ok, err, ◌>>=◌, ok_injective}
use dev_gate_agentic_framewo.Plan.{
  Assertion, PlanError, ids, done, Visit, unvisited, visit_all, visit, order, fuel_for, out_of_fuel,
}
use dev_gate_agentic_framewo.Plan.Order.{Ordered, NodupIds}
use dev_gate_agentic_framewo.Plan.Unmarked.{unmarked-nil}
use dev_gate_agentic_framewo.Plan.Visits.{
  IsOwn, IsSound, IsDone, VisitedAll, visit_all-VisitedAll, visit-Visited,
}

pub unvisited-IsSound : (as' : List Assertion) → IsSound as' unvisited
unfolding lookup
unvisited-IsSound as' = (tt, tt, tt, λ k. (λ p. cc, λ c. cc))

order-VisitedAll :
    (as' : List Assertion)
    → VisitedAll as' (ids as') unvisited (visit_all (visit as' (fuel_for as')) (ids as') unvisited)
order-VisitedAll as' =
    visit_all-VisitedAll as' (fuel_for as') (visit as' (fuel_for as'))
      (visit-Visited as' (fuel_for as')) (ids as') unvisited (unvisited-IsSound as')
      (omega (arith, unmarked-nil as'))

all-done :
    (st : Visit) (ks : List String)
    → ((k : String) → (lookup k st.marks ≡ some done) ↔ (contains (ids st.planned) k ≡ true))
    → All (IsDone st) ks
    → all (contains (ids st.planned)) ks ≡ true
all-done st [] h k = refl
all-done st (x ∷ ks) h k = ground (arith, (h x).0, all-done st ks h k.1)

-- However deep or cyclic the dependencies are, the fuel of one more than the number of assertions
-- is enough: the depth-first search returns a plan or refuses the package, and never runs out.
pub order-terminates : (assertions : List Assertion) → order assertions ≢ err out_of_fuel
unfolding order
order-terminates as' =
    go (visit_all (visit as' (fuel_for as')) (ids as') unvisited) (order-VisitedAll as')
  where
    go :
        (r : Result PlanError Visit)
        → VisitedAll as' (ids as') unvisited r
        → (r >>= λ st. ok st.planned) ≢ err out_of_fuel
    go (ok st) v h = ground arith
    go (err out_of_fuel) v h = v
    go (err _) v h = ground arith

-- The plan holds the package's own assertions, each id once and every id of the package, and each
-- assertion stands after all that it depends on.
pub order-Ordered :
    (assertions planned : List Assertion)
    → order assertions ≡ ok planned
    → Ordered [] planned
      × NodupIds planned
      × All (IsOwn assertions) planned
      × (all (contains (ids planned)) (ids assertions) ≡ true)
unfolding order
order-Ordered as' planned =
    go (visit_all (visit as' (fuel_for as')) (ids as') unvisited) (order-VisitedAll as')
  where
    go :
        (r : Result PlanError Visit)
        → VisitedAll as' (ids as') unvisited r
        → (r >>= λ st. ok st.planned) ≡ ok planned
        → Ordered [] planned
          × NodupIds planned
          × All (IsOwn as') planned
          × (all (contains (ids planned)) (ids as') ≡ true)
    go (err e) v h = absurd (ground arith)
    go (ok st) v h = rw (← ok_injective h) (v.0.0, v.0.1, v.0.2, all-done st (ids as') v.0.3 v.1)
