-- ===== src/Plan.antt =====
-- hub/coherence/plan.py: the checks on a package's assertions, and their order of evaluation.
pub mod Order
pub mod Unmarked
pub mod Visits
pub mod Ordering
pub mod Acyclic
pub mod Admission
use dev_gate_agentic_framewo.Common.{
  ℕ, zero, suc, ◌+◌, String, Bool, true, false, not, Option, none, some, is_some, List, [], ◌∷◌,
  ◌++◌, map, any, all, length, count, contains, ◌==◌, string_eq, if◌then◌else◌, ◌&&◌, ◌||◌, leb,
  ltb,
}
use dev_gate_agentic_framewo.Common.Json.{Fields}
use dev_gate_agentic_framewo.Common.Dict.{Dict, lookup, insert}
use dev_gate_agentic_framewo.Common.Result.{Result, ok, err, ◌>>=◌, ◌>>◌}

-- A selector of subjects, in the shape of assertion.schema.json.
pub record Selector : Type 0 where
  pub kind : String
  pub path : Option String
  pub selector : Option String
  pub fact_id : Option String

-- A package's assertion, as far as the code reads it; `schema_ok` is what schemacheck says of it
-- against assertion.schema.json.
pub record Assertion : Type 0 where
  pub id : String
  pub version : ℕ
  pub schema_ok : Bool
  pub evaluator : String
  pub severity : String
  pub parameters : Fields
  pub subjects : List Selector
  pub requirement_refs : List String
  pub dependencies : List String

pub data PlanError : Type 0 where
  schema_violation unapproved_evaluator duplicate_ids : PlanError
  unknown_requirement orphan_requirement required_omitted : String → PlanError
  dependency_cycle unknown_dependency : String → PlanError
  out_of_fuel : PlanError

-- evaluators.BUILTINS
abbrev pub builtins : List String
builtins =
    "devgate.builtin.identity-consistency" ∷ "devgate.builtin.traceability-completeness"
    ∷ "devgate.builtin.release-claim-consistency" ∷ "devgate.builtin.captured-fact-consistency" ∷ []

unfoldable pub check_assertion : Assertion → Result PlanError (Unit {0})
check_assertion a =
    if not a.schema_ok
    then err schema_violation
    else if not (contains builtins a.evaluator)
    then err unapproved_evaluator
    else ok tt

unfoldable pub check_assertions : List Assertion → Result PlanError (Unit {0})
check_assertions [] = ok tt
check_assertions (a ∷ as') = check_assertion a >> check_assertions as'

-- A requirement and whether it is marked testable.
abbrev pub Requirement : Type 0
Requirement = String × Bool

abbrev pub requirement_ids : List Requirement → List String
requirement_ids rs = map (λ (id, _). id) rs

abbrev pub is_empty : List String → Bool
is_empty [] = true
is_empty (x ∷ xs) = false

-- `known and ref not in known`
unfoldable pub check_refs : List String → List String → Result PlanError (Unit {0})
check_refs known [] = ok tt
check_refs known (ref ∷ refs) =
    let rest = check_refs known refs in
    if not (is_empty known) && not (contains known ref) then err (unknown_requirement ref) else rest

unfoldable pub check_all_refs : List String → List Assertion → Result PlanError (Unit {0})
check_all_refs known [] = ok tt
check_all_refs known (a ∷ as') = check_refs known a.requirement_refs >> check_all_refs known as'

abbrev pub claims : String → Assertion → Bool
claims rid a = contains a.requirement_refs rid

unfoldable pub check_claimed : List Assertion → List Requirement → Result PlanError (Unit {0})
check_claimed assertions [] = ok tt
check_claimed assertions ((rid, testable) ∷ rs) =
    let rest = check_claimed assertions rs in
    if testable && not (any (claims rid) assertions) then err (orphan_requirement rid) else rest

unfoldable pub check_traceability : List Assertion → List Requirement → Result PlanError (Unit {0})
check_traceability assertions requirements =
    check_all_refs (requirement_ids requirements) assertions
    >> check_claimed assertions requirements

abbrev pub id_of : Assertion → String
id_of a = a.id

abbrev pub ids : List Assertion → List String
ids as' = map id_of as'

unfoldable pub has_duplicates : List String → Bool
has_duplicates [] = false
has_duplicates (x ∷ xs) = contains xs x || has_duplicates xs

unfoldable pub check_required : List String → List String → Result PlanError (Unit {0})
check_required known [] = ok tt
check_required known (req ∷ reqs) =
    let rest = check_required known reqs in
    if contains known req then rest else err (required_omitted req)

-- Visited and still on the stack, or done.
pub data Mark : Type 0 where
  active done : Mark

pub record Visit : Type 0 where
  pub marks : Dict Mark
  pub planned : List Assertion

abbrev pub unvisited : Visit
unvisited = record { marks = []; planned = [] }

abbrev pub set_mark : String → Mark → Visit → Visit
set_mark aid m st = record st { marks = insert aid m st.marks }

-- by_id[aid]
unfoldable pub find_assertion : String → List Assertion → Option Assertion
find_assertion aid [] = none
find_assertion aid (a ∷ as') =
    let rest = find_assertion aid as' in if aid == a.id then some a else rest

unfoldable pub visit_all :
    (String → Visit → Result PlanError Visit) → List String → Visit → Result PlanError Visit
visit_all go [] st = ok st
visit_all go (d ∷ ds) st = go d st >>= visit_all go ds

abbrev pub finish : String → Assertion → Visit → Visit
finish aid a st = record { marks = insert aid done st.marks; planned = st.planned ++ (a ∷ []) }

-- What `visit` does with an id that has no mark yet, given how it calls itself.
unfoldable pub enter :
    (String → Visit → Result PlanError Visit)
    → String
    → Option Assertion
    → Visit
    → Result PlanError Visit
enter go aid none st = err (unknown_dependency aid)
enter go aid (some a) st = do
  st' ← visit_all go a.dependencies (set_mark aid active st)
  ok (finish aid a st')

-- `visit(aid, stack)`; the fuel bounds the depth of the stack.
unfoldable pub visit : List Assertion → ℕ → String → Visit → Result PlanError Visit
visit assertions zero aid st = err out_of_fuel
visit assertions (suc f) aid st = elim (lookup aid st.marks) [
  | some done ↦ ok st
  | some active ↦ err (dependency_cycle aid)
  | none ↦ enter (visit assertions f) aid (find_assertion aid assertions) st
]

-- One more than the number of assertions is enough: each level of the stack has an id of its own.
abbrev pub fuel_for : List Assertion → ℕ
fuel_for assertions = suc (length assertions)

unfoldable pub order : List Assertion → Result PlanError (List Assertion)
order assertions = do
  st ← visit_all (visit assertions (fuel_for assertions)) (ids assertions) unvisited
  ok st.planned

abbrev pub check_optional : List Assertion → Option (List Requirement) → Result PlanError (Unit {0})
check_optional assertions none = ok tt
check_optional assertions (some requirements) = check_traceability assertions requirements

unfoldable pub plan :
    List Assertion → List String → Option (List Requirement) → Result PlanError (List Assertion)
plan assertions central_required requirements = do
  check_assertions assertions
  check_optional assertions requirements
  if has_duplicates (ids assertions)
      then err duplicate_ids
      else do check_required (ids assertions) central_required; order assertions
