-- ===== src/Plan/Acyclic.antt =====
-- hub/coherence/plan.py: packages whose dependencies have no cycle.
use dev_gate_agentic_framewo.Common.{
  ℕ, zero, suc, ◌<◌, ◌≡◌, refl, String, true, Option, none, some, List, [], ◌∷◌, contains, ◌==◌,
  string_eq, arith, All, Bool-cases, inl, inr,
}
use mathlib.Core.Path.{subst}
use dev_gate_agentic_framewo.Common.Dict.{lookup, lookup-insert}
use dev_gate_agentic_framewo.Common.Result.{Result, ok, err, ◌>>=◌}
use dev_gate_agentic_framewo.Plan.{
  Assertion, PlanError, ids, Mark, active, done, Visit, unvisited, set_mark, find_assertion,
  visit_all, finish, enter, visit, order, fuel_for, dependency_cycle,
}
use dev_gate_agentic_framewo.Plan.Unmarked.{
  unmarked, unmarked-le_of_Keeps, unmarked-insert_lt, unmarked-nil, find_assertion-id,
}
use dev_gate_agentic_framewo.Plan.Visits.{IsSound, Visited, visit-Visited, set_mark-IsSound}
use dev_gate_agentic_framewo.Plan.Ordering.{unvisited-IsSound}

module _ (rank : String → ℕ) (as' : List Assertion) where
  -- The dependency is an assertion of the package with a smaller rank.
  abbrev pub DependsDown : Assertion → String → Type 0
  DependsDown a d = (contains (ids as') d ≡ true) × (rank d < rank a.id)

  -- Every dependency leads to an assertion of the package with a smaller rank.
  abbrev pub IsRanked : Type 0
  IsRanked = All (λ a. All (DependsDown a) a.dependencies) as'

abbrev pub IsActive : Visit → String → Type 0
IsActive st j = lookup j st.marks ≡ some active

-- Every id on the stack has a greater rank.
abbrev IsUnder : (String → ℕ) → Visit → String → Type 0
IsUnder rank st k = (j : String) → IsActive st j → rank k < rank j

-- The visit succeeds, and no id is left on the stack that was not there.
abbrev Served : Visit → Result PlanError Visit → Type 0
Served st (err e) = ⊥
Served st (ok st') = (j : String) → IsActive st' j → IsActive st j

some_inj : {a b : Assertion} → ◌≡◌ {A = Option Assertion} (some a) (some b) → a ≡ b
some_inj h = cc

find_assertion-All :
    (P : Assertion → Type 0) (k : String) (as' : List Assertion) (a : Assertion)
    → All P as'
    → find_assertion k as' ≡ some a
    → P a
unfolding find_assertion
find_assertion-All P k [] a h e = absurd (ground arith)
find_assertion-All P k (b ∷ as') a h e = elim (Bool-cases (k == b.id)) [
  | inl here ↦ subst P (some_inj (rw here at e)) h.0
  | inr there ↦ find_assertion-All P k as' a h.1 (rw there at e)
]

find_assertion-known :
    (k : String) (as' : List Assertion)
    → contains (ids as') k ≡ true
    → (a : Assertion) × (find_assertion k as' ≡ some a)
unfolding find_assertion
find_assertion-known k [] h = absurd (ground arith)
find_assertion-known k (b ∷ as') h = elim (Bool-cases (k == b.id)) [
  | inl here ↦ (b, rw here)
  | inr there ↦ rw there (find_assertion-known k as' (ground arith))
]

module _ (rank : String → ℕ) (as' : List Assertion) (n : ℕ)
    (go : String → Visit → Result PlanError Visit)
    (visits : (k : String) (st : Visit)
      → IsSound as' st
      → unmarked as' st.marks < n
      → Visited as' k st (go k st))
    (serves : (k : String) (st : Visit)
      → IsSound as' st
      → unmarked as' st.marks < n
      → contains (ids as') k ≡ true
      → IsUnder rank st k
      → Served st (go k st)) where
  visit_all-Served :
      (ks : List String) (st : Visit)
      → IsSound as' st
      → unmarked as' st.marks < n
      → All (λ k. (contains (ids as') k ≡ true) × IsUnder rank st k) ks
      → Served st (visit_all go ks st)
  unfolding visit_all
  visit_all-Served [] st h lt under = λ j a. a
  visit_all-Served (k ∷ ks) st h lt under =
      first (go k st) (visits k st h lt) (serves k st h lt under.0.0 under.0.1)
        (visit_all-Served ks)
    where
      under_after :
          (st' : Visit) (js : List String)
          → Served st (ok st')
          → All (λ j. (contains (ids as') j ≡ true) × IsUnder rank st j) js
          → All (λ j. (contains (ids as') j ≡ true) × IsUnder rank st' j) js
      under_after st' [] q u = tt
      under_after st' (j ∷ js) q u = ((u.0.0, λ i a. u.0.1 i (q i a)), under_after st' js q u.1)

      then_rest :
          (st' : Visit)
          → Served st (ok st')
          → (r : Result PlanError Visit) → Served st' r
          → Served st r
      then_rest st' q (err e) w = w
      then_rest st' q (ok st'') w = λ j a. q j (w j a)

      first :
          (r : Result PlanError Visit)
          → Visited as' k st r
          → Served st r
          → ((st' : Visit)
              → IsSound as' st'
              → unmarked as' st'.marks < n
              → All (λ j. (contains (ids as') j ≡ true) × IsUnder rank st' j) ks
              → Served st' (visit_all go ks st'))
          → Served st (r >>= visit_all go ks)
      first (err e) v q ih = q
      first (ok st') v q ih = then_rest st' q (visit_all go ks st') (
          ih st' v.0 (omega (arith, unmarked-le_of_Keeps as' st.marks st'.marks v.2))
            (under_after st' ks q under.1))

-- What the dependencies of an assertion find on the stack.
set_mark-IsUnder :
    (rank : String → ℕ) (as' : List Assertion) (k : String) (a : Assertion) (st : Visit)
    → a.id ≡ k
    → IsUnder rank st k
    → (ds : List String) → All (DependsDown rank as' a) ds
    → All (λ d. (contains (ids as') d ≡ true) × IsUnder rank (set_mark k active st) d) ds
set_mark-IsUnder rank as' k a st is u [] h = tt
set_mark-IsUnder rank as' k a st is u (d ∷ ds) h =
    ((h.0.0, below), set_mark-IsUnder rank as' k a st is u ds h.1)
  where
    lower : rank d < rank k
    lower = rw is at h.0.1

    below : IsUnder rank (set_mark k active st) d
    below j e = elim (Bool-cases (j == k)) [
      | inl same ↦ ground arith
      | inr other ↦ omega (arith, lower, u j (ground (arith, lookup-insert j k active st.marks)))
    ]

module _ (rank : String → ℕ) (as' : List Assertion) (ranked : IsRanked rank as') where
  enter-Served :
      (n : ℕ) (go : String → Visit → Result PlanError Visit)
      (visits : (k : String) (st : Visit)
        → IsSound as' st
        → unmarked as' st.marks < n
        → Visited as' k st (go k st))
      (serves : (k : String) (st : Visit)
        → IsSound as' st
        → unmarked as' st.marks < n
        → contains (ids as') k ≡ true
        → IsUnder rank st k
        → Served st (go k st))
      (k : String) (st : Visit)
      → lookup k st.marks ≡ none
      → IsSound as' st
      → unmarked as' st.marks < suc n
      → contains (ids as') k ≡ true
      → IsUnder rank st k
      → Served st (enter go k (find_assertion k as') st)
  unfolding enter
  enter-Served n go visits serves k st e h lt here under =
      let (a, f) = find_assertion-known k as' here in
      rw f (
        end_of a (visit_all go a.dependencies (set_mark k active st)) (
          visit_all-Served rank as' n go visits serves a.dependencies (set_mark k active st)
            (set_mark-IsSound as' k st h e)
            (omega (arith, unmarked-insert_lt as' k active st.marks here e))
            (set_mark-IsUnder rank as' k a st (find_assertion-id k as' a f).0 under a.dependencies (
              find_assertion-All (λ b. All (DependsDown rank as' b) b.dependencies) k as' a ranked
                f))))
    where
      end_of :
          (a : Assertion) (r : Result PlanError Visit)
          → Served (set_mark k active st) r
          → Served st (r >>= λ st'. ok (finish k a st'))
      end_of a (err p) q = q
      end_of a (ok st') q = λ j x. elim (Bool-cases (j == k)) [
        | inl same ↦ absurd (ground (arith, lookup-insert j k done st'.marks))
        | inr other ↦
            ground (arith, lookup-insert j k done st'.marks, q j, lookup-insert j k active st.marks)
      ]

  visit-Served :
      (n : ℕ) (k : String) (st : Visit)
      → IsSound as' st
      → unmarked as' st.marks < n
      → contains (ids as') k ≡ true
      → IsUnder rank st k
      → Served st (visit as' n k st)
  unfolding visit
  visit-Served zero k st h lt here under = absurd (omega arith)
  visit-Served (suc n) k st h lt here under =
      go (lookup k st.marks) refl
        (enter-Served n (visit as' n) (visit-Visited as' n) (visit-Served n) k st)
    where
      go :
          (o : Option Mark)
          → lookup k st.marks ≡ o
          → (lookup k st.marks ≡ none
              → IsSound as' st
              → unmarked as' st.marks < suc n
              → contains (ids as') k ≡ true
              → IsUnder rank st k
              → Served st (enter (visit as' n) k (find_assertion k as') st))
          → Served st (elim o as (λ x. Result PlanError Visit) [
            | some done ↦ ok st
            | some active ↦ err (dependency_cycle k)
            | none ↦ enter (visit as' n) k (find_assertion k as') st
          ])
      go none e ih = ih e h lt here under
      go (some done) e ih = λ j a. a
      go (some active) e ih = absurd (omega (arith, under k e))

All-IsUnder :
    (rank : String → ℕ) (as' bs : List Assertion)
    → ((k : String) → contains (ids bs) k ≡ true → contains (ids as') k ≡ true)
    → All (λ k. (contains (ids as') k ≡ true) × IsUnder rank unvisited k) (ids bs)
unfolding lookup
All-IsUnder rank as' [] h = tt
All-IsUnder rank as' (b ∷ bs) h = (
  (h b.id (ground arith), λ j a. absurd (ground arith)),
  All-IsUnder rank as' bs (λ k e. h k (ground arith)),
)

-- When every dependency is an assertion of the package and none leads back, shown by a rank that
-- falls along each, the depth-first search succeeds and returns a plan.
pub order-accepts :
    (rank : String → ℕ) (assertions : List Assertion)
    → IsRanked rank assertions
    → (planned : List Assertion) × (order assertions ≡ ok planned)
unfolding order
order-accepts rank as' ranked = go (visit_all (visit as' (fuel_for as')) (ids as') unvisited) (
    visit_all-Served rank as' (fuel_for as') (visit as' (fuel_for as'))
      (visit-Visited as' (fuel_for as')) (visit-Served rank as' ranked (fuel_for as')) (ids as')
      unvisited (unvisited-IsSound as') (omega (arith, unmarked-nil as'))
      (All-IsUnder rank as' as' (λ k e. e)))
  where
    go :
        (r : Result PlanError Visit)
        → Served unvisited r
        → (planned : List Assertion) × ((r >>= λ st. ok st.planned) ≡ ok planned)
    go (ok st) q = (st.planned, refl)
    go (err e) q = absurd q
