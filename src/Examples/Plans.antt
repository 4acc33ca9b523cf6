-- ===== src/Examples/Plans.antt =====
-- A package of two assertions, the first of which depends on the second.
use dev_gate_agentic_framewo.Common.{
  ℕ, ◌≡◌, ◌≢◌, refl, String, true, List, [], ◌∷◌, all, contains, ◌==◌, string_eq, if◌then◌else◌,
  All, arith,
}
use dev_gate_agentic_framewo.Common.Json.{end}
use dev_gate_agentic_framewo.Common.Dict.{lookup, insert}
use dev_gate_agentic_framewo.Common.Result.{ok, err}
use dev_gate_agentic_framewo.Plan.{
  Assertion, ids, order, visit, visit_all, enter, find_assertion, out_of_fuel,
}
use dev_gate_agentic_framewo.Plan.Order.{Ordered, NodupIds}
use dev_gate_agentic_framewo.Plan.Visits.{IsOwn}
use dev_gate_agentic_framewo.Plan.Ordering.{order-terminates, order-Ordered}
use dev_gate_agentic_framewo.Plan.Acyclic.{IsRanked, order-accepts}

abbrev pub identity : Assertion
identity = record {
  id = "identity";
  version = 1;
  schema_ok = true;
  evaluator = "devgate.builtin.identity-consistency";
  severity = "high";
  parameters = end;
  subjects = [];
  requirement_refs = "R-1" ∷ [];
  dependencies = "trace" ∷ [];
}

abbrev pub trace : Assertion
trace = record {
  id = "trace";
  version = 1;
  schema_ok = true;
  evaluator = "devgate.builtin.traceability-completeness";
  severity = "high";
  parameters = end;
  subjects = [];
  requirement_refs = "R-1" ∷ [];
  dependencies = [];
}

abbrev two : List Assertion
two = identity ∷ trace ∷ []

two-ordered : order two ≡ ok (trace ∷ identity ∷ [])
unfolding order visit visit_all enter find_assertion lookup insert string_eq
two-ordered = refl

order-terminates_example : order two ≢ err out_of_fuel
order-terminates_example = order-terminates two

order-Ordered_example :
    Ordered [] (trace ∷ identity ∷ [])
    × NodupIds (trace ∷ identity ∷ [])
    × All (IsOwn two) (trace ∷ identity ∷ [])
    × (all (contains (ids (trace ∷ identity ∷ []))) (ids two) ≡ true)
order-Ordered_example = order-Ordered two (trace ∷ identity ∷ []) two-ordered

-- What depends on nothing has the least rank.
abbrev height : String → ℕ
height k = if k == "identity" then 1 else 0

two-IsRanked : IsRanked height two
unfolding string_eq
two-IsRanked = (((refl, omega arith), tt), (tt, tt))

order-accepts_example : (planned : List Assertion) × (order two ≡ ok planned)
order-accepts_example = order-accepts height two two-IsRanked
