-- ===== src/Overlay.antt =====
-- hub/coherence/policy.py: `apply_overlay`, a repository's changes to its package's assertions.
pub mod Table
pub mod Required
pub mod Strength
use dev_gate_agentic_framewo.Common.{
  ℕ, String, Bool, true, false, not, ◌&&◌, Option, none, some, is_some, List, [], ◌∷◌, ◌++◌, map,
  ◌==◌, string_eq, if◌then◌else◌, ltb, contains,
}
use dev_gate_agentic_framewo.Common.Json.{
  Json, str, arr, obj, Fields, end, field, get_field, truthy?, to_list,
}
use dev_gate_agentic_framewo.Common.Dict.{Dict, lookup, insert, erase}
use dev_gate_agentic_framewo.Common.Result.{Result, ok, err, ◌>>=◌, ◌>>◌}
use dev_gate_agentic_framewo.Adoption.Sets.{severity_rank}

-- An assertion as the JSON object that it is, with its `id`.
pub record Entry : Type 0 where
  pub id : String
  pub fields : Fields

-- The central policy, as far as the overlay meets it.
pub record Central : Type 0 where
  pub approved : List String
  pub floors : Dict String
  pub required : List String

-- The reasons of OverlayError; `unhashable` is the TypeError of `new not in _SEVERITY_RANK` and
-- `unknown_floor` the KeyError of a floor that is no severity.
pub data OverlayError : Type 0 where
  not_an_object bad_entry bad_addition capability_grant unhashable : OverlayError
  not_an_array disables_required unknown_assertion unknown_severity lowers_severity :
      String → OverlayError
  malformed_evaluator redefines unknown_floor : String → OverlayError
  unapproved_evaluator : String → String → OverlayError

-- `target[key] = value`
unfoldable pub set_field : String → Json → Fields → Fields
set_field k v end = field k v end
set_field k v (field j w rest) = if k == j then field j v rest else field j w (set_field k v rest)

-- by_id
unfoldable pub table_of : List Entry → Dict Fields → Dict Fields
table_of [] t = t
table_of (a ∷ as') t = table_of as' (insert a.id a.fields t)

-- `overlay.get(key, [])`, where it is a list
unfoldable pub array_of : String → Fields → Result OverlayError (List Json)
array_of key overlay = elim (get_field key overlay) [
  | none ↦ ok []
  | some (arr items) ↦ ok (to_list items)
  | some _ ↦ err (not_an_array key)
]

-- An entry of the overlay that is an object with a text `id`.
unfoldable pub entry_of : OverlayError → Json → Result OverlayError Entry
entry_of refusal (obj fields) = elim (get_field "id" fields) [
  | some (str id) ↦ ok (record { id = id; fields = fields })
  | _ ↦ err refusal
]
entry_of refusal _ = err refusal

-- A known severity of this rank, against the floor.
unfoldable pub check_floor : String → ℕ → Option String → Result OverlayError (Unit {0})
check_floor aid rank none = ok tt
check_floor aid rank (some floor) = if floor == "" then ok tt else elim (severity_rank floor) [
  | none ↦ err (unknown_floor aid)
  | some least ↦ if ltb rank least then err (lowers_severity aid) else ok tt
]

unfoldable pub check_severity : Central → String → Json → Result OverlayError (Unit {0})
check_severity c aid (str new) = elim (severity_rank new) [
  | none ↦ err (unknown_severity aid)
  | some rank ↦ check_floor aid rank (lookup aid c.floors)
]
check_severity c aid (arr items) = err unhashable
check_severity c aid (obj fields) = err unhashable
check_severity c aid _ = err (unknown_severity aid)

abbrev pub is_none_approved : List String → Bool
is_none_approved [] = true
is_none_approved (e ∷ es) = false

unfoldable pub check_evaluator_id : Central → String → String → Result OverlayError (Unit {0})
check_evaluator_id c aid eid =
    if eid == ""
    then err (malformed_evaluator aid)
    else if not (is_none_approved c.approved) && not (contains c.approved eid)
    then err (unapproved_evaluator eid aid)
    else ok tt

unfoldable pub check_evaluator : Central → String → Json → Result OverlayError (Unit {0})
check_evaluator c aid (obj fields) = elim (get_field "id" fields) [
  | some (str eid) ↦ check_evaluator_id c aid eid
  | _ ↦ err (malformed_evaluator aid)
]
check_evaluator c aid _ = err (malformed_evaluator aid)

-- `if key in changed:` the check, and the assignment to the target.
unfoldable pub change_field :
    String
    → (Json → Result OverlayError (Unit {0}))
    → Option Json
    → Fields
    → Result OverlayError Fields
change_field key check none target = ok target
change_field key check (some new) target = do check new; ok (set_field key new target)

unfoldable pub change_target : Central → Entry → Fields → Result OverlayError Fields
change_target c changed target =
    change_field "severity" (check_severity c changed.id) (get_field "severity" changed.fields)
      target
    >>= change_field "evaluator" (check_evaluator c changed.id)
        (get_field "evaluator" changed.fields)

-- The body of the loop over `overlay["assertions"]`, on an entry of the right shape.
unfoldable pub change_entry : Central → Entry → Dict Fields → Result OverlayError (Dict Fields)
change_entry c changed t =
    if truthy? (get_field "disabled" changed.fields)
    then (if contains c.required changed.id
        then err (disables_required changed.id)
        else ok (erase changed.id t))
    else elim (lookup changed.id t) [
      | none ↦ err (unknown_assertion changed.id)
      | some target ↦ change_target c changed target >>= λ f. ok (insert changed.id f t)
    ]

unfoldable pub change_all : Central → List Json → Dict Fields → Result OverlayError (Dict Fields)
change_all c [] t = ok t
change_all c (j ∷ js) t = do
  changed ← entry_of bad_entry j
  t' ← change_entry c changed t
  change_all c js t'

unfoldable pub add_entry : Entry → Dict Fields → Result OverlayError (Dict Fields)
add_entry added t =
    if is_some (lookup added.id t)
    then err (redefines added.id)
    else ok (insert added.id added.fields t)

-- The loop over `overlay["add_assertions"]`, with the entries that it has added.
unfoldable pub add_all : List Json → Dict Fields → Result OverlayError (Dict Fields × List Entry)
add_all [] t = ok (t, [])
add_all (j ∷ js) t = do
  added ← entry_of bad_addition j
  t' ← add_entry added t
  (last, more) ← add_all js t'
  ok (last, added ∷ more)

-- [by_id[a["id"]] for a in assertions if a["id"] in by_id]
unfoldable pub pick : Dict Fields → List Entry → List Entry
pick t [] = []
pick t (a ∷ as') = elim (lookup a.id t) [
  | none ↦ pick t as'
  | some f ↦ record { id = a.id; fields = f } ∷ pick t as'
]

unfoldable pub apply_overlay : Central → Json → List Entry → Result OverlayError (List Entry)
apply_overlay c (obj overlay) assertions = do
  changes ← array_of "assertions" overlay
  additions ← array_of "add_assertions" overlay
  changed ← change_all c changes (table_of assertions [])
  (t, added) ← add_all additions changed
  if truthy? (get_field "capability_grants" overlay)
      then err capability_grant
      else if truthy? (get_field "network" overlay)
      then err capability_grant
      else ok (pick t assertions ++ added)
apply_overlay c _ assertions = err not_an_object
