-- ===== src/Examples/Overlays.antt =====
-- An overlay that raises a severity, swaps an evaluator and disables an assertion.
use dev_gate_agentic_framewo.Common.{◌≡◌, refl, String, true, List, [], ◌∷◌, contains, string_eq}
use dev_gate_agentic_framewo.Common.Json.{
  Json, bool, str, obj, arr, nil, cons, Fields, end, field, get_field, truthy, to_list,
}
use dev_gate_agentic_framewo.Common.Dict.{lookup, insert, erase}
use dev_gate_agentic_framewo.Common.Result.{ok}
use dev_gate_agentic_framewo.Adoption.Sets.{severity_rank}
use dev_gate_agentic_framewo.Overlay.{
  Entry, Central, set_field, table_of, array_of, entry_of, check_floor, check_severity,
  check_evaluator, check_evaluator_id, change_field, change_target, change_entry, change_all,
  add_entry, add_all, pick, apply_overlay,
}
use dev_gate_agentic_framewo.Overlay.Required.{entry_ids, apply_overlay-required}

abbrev entry : String → String → Entry
entry id severity = record {
  id = id;
  fields = field "id" (str id) (field "severity" (str severity) end);
}

abbrev from_package : List Entry
from_package = entry "A-1" "medium" ∷ entry "A-2" "low" ∷ []

abbrev central : Central
central = record {
  approved = "devgate.builtin.identity-consistency" ∷ [];
  floors = ("A-1", "medium") ∷ [];
  required = "A-1" ∷ [];
}

abbrev change : Json
change = obj (
    field "id" (str "A-1") (
      field "severity" (str "high") (
        field "evaluator" (obj (field "id" (str "devgate.builtin.identity-consistency") end)) end)))

abbrev disabling : Json
disabling = obj (field "id" (str "A-2") (field "disabled" (bool true) end))

abbrev addition : Entry
addition = entry "A-3" "low"

abbrev overlay : Fields
overlay =
    field "assertions" (arr (cons change (cons disabling nil)))
      (field "add_assertions" (arr (cons (obj addition.fields) nil)) end)

abbrev strengthened : Entry
strengthened = record {
  id = "A-1";
  fields = field "id" (str "A-1") (
      field "severity" (str "high") (
        field "evaluator" (obj (field "id" (str "devgate.builtin.identity-consistency") end)) end));
}

overlay-applied :
    apply_overlay central (obj overlay) from_package ≡ ok (strengthened ∷ addition ∷ [])
unfolding apply_overlay array_of table_of change_all change_entry change_target change_field
    check_severity check_floor check_evaluator check_evaluator_id set_field severity_rank add_all
    add_entry entry_of pick get_field truthy to_list lookup insert erase string_eq
overlay-applied = refl

one-required : contains (entry_ids from_package) "A-1" ≡ true
unfolding string_eq
one-required = refl

central-required : contains central.required "A-1" ≡ true
unfolding string_eq
central-required = refl

apply_overlay-required_example : contains (entry_ids (strengthened ∷ addition ∷ [])) "A-1" ≡ true
apply_overlay-required_example =
    apply_overlay-required central overlay from_package (strengthened ∷ addition ∷ []) "A-1"
      overlay-applied central-required one-required
