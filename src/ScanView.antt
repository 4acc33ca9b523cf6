-- ===== src/ScanView.antt =====
-- hub/scan_view.py: the alerts that one runner's stored scan state earns. The sentences of an alert
-- are data here: a constructor for each sentence, with the values that it interpolates.
pub mod Silence
use dev_gate_agentic_framewo.Common.{
  ℕ, String, Bool, true, false, Option, none, some, List, [], ◌∷◌, ◌++◌, map, keep, ◌==◌, string_eq,
  if◌then◌else◌, ◌||◌, not,
}
use dev_gate_agentic_framewo.Common.Json.{
  Json, null, bool, int, pos, str, arr, obj, Items, Fields, to_list, or_null, truthy, get_field,
}
use dev_gate_agentic_framewo.Registry.{Runner, scan_state_unknown}

pub data CheckClass : Type 0 where
  runner_scan_unknown runner_scan_findings : CheckClass

-- One repository with uncovered secrets: its name and its two counts.
pub record Leak : Type 0 where
  pub name : String
  pub uncovered : Json
  pub total : Json

-- Why there is no verdict on a repository.
pub data Blind : Type 0 where
  no_entry : String → Blind
  swept : String → Json → Json → Blind
  strange : String → Json → Blind

pub data Detail : Type 0 where
  unreadable : Json → Detail
  no_repositories not_reported : Detail
  leaks : List Leak → Detail
  no_verdict : List Blind → Detail

-- `value == text` for a JSON value
abbrev pub is_str : String → Json → Bool
is_str s (str t) = t == s
is_str s _ = false

-- `record.get(key)` of what may be no object: null.
unfoldable pub entry : String → Json → Json
entry key (obj fields) = or_null (get_field key fields)
entry key _ = null

-- `record.get(key, 0)`
unfoldable pub entry_or_zero : String → Json → Json
entry_or_zero key (obj fields) = elim (get_field key fields) [ none ↦ int (pos 0) | some v ↦ v ]
entry_or_zero key _ = int (pos 0)

-- The name for a record whose "name" is this value.
abbrev pub name_or_unnamed : Json → String
name_or_unnamed (str s) = if s == "" then "<unnamed repository>" else s
name_or_unnamed _ = "<unnamed repository>"

unfoldable pub name_of : Json → String
name_of record' = name_or_unnamed (entry "name" record')

unfoldable pub leak_of : Json → Leak
leak_of record' = record {
  name = name_of record';
  uncovered = entry_or_zero "uncovered" record';
  total = entry_or_zero "findings" record';
}

-- `reason or "no reason recorded"`
abbrev pub reason_or : Json → Json
reason_or reason = if truthy reason then reason else str "no reason recorded"

unfoldable pub blind_of : Json → Blind
blind_of (obj fields) =
    let state : Json = or_null (get_field "state" fields) in
    if is_str "unfetchable" state || is_str "unscannable" state
    then swept (name_of (obj fields)) state (reason_or (or_null (get_field "reason" fields)))
    else strange (name_of (obj fields)) state
blind_of record' = no_entry (name_of record')

-- The two buckets of the walk. A record whose state is "clean" goes into neither.
abbrev pub has_findings : Json → Bool
has_findings record' = is_str "findings" (entry "state" record')

abbrev pub is_clean : Json → Bool
is_clean record' = is_str "clean" (entry "state" record')

unfoldable pub found_in : List Json → List Json
found_in [] = []
found_in (r ∷ rs) = let rest = found_in rs in if has_findings r then r ∷ rest else rest

unfoldable pub unknown_in : List Json → List Json
unknown_in [] = []
unknown_in (r ∷ rs) =
    let rest = unknown_in rs in
    if has_findings r then rest else if is_clean r then rest else r ∷ rest

-- The sentence for a state that is no usable verdict.
unfoldable pub unknown_detail : Json → Detail
unknown_detail (obj fields) =
    let reason : Json = or_null (get_field "unreadable" fields) in
    if truthy reason then unreadable reason else no_repositories
unknown_detail _ = not_reported

-- `runner["scan_state"]["repos"]`, which is a list where the state is usable.
abbrev pub list_of : Json → List Json
list_of (arr items) = to_list items
list_of _ = []

unfoldable pub repos_of : Runner → List Json
repos_of r = list_of (entry "repos" r.scan_state)

-- The alert on the found bucket, and the one on the unknown bucket; an empty bucket has none.
abbrev pub findings_alert : List Json → List (CheckClass × Detail)
findings_alert [] = []
findings_alert (r ∷ rs) = (runner_scan_findings, leaks (map leak_of (r ∷ rs))) ∷ []

abbrev pub unknown_alert : List Json → List (CheckClass × Detail)
unknown_alert [] = []
unknown_alert (r ∷ rs) = (runner_scan_unknown, no_verdict (map blind_of (r ∷ rs))) ∷ []

unfoldable pub scan_alerts : Runner → List (CheckClass × Detail)
scan_alerts r =
    if scan_state_unknown r
    then (runner_scan_unknown, unknown_detail r.scan_state) ∷ []
    else findings_alert (found_in (repos_of r)) ++ unknown_alert (unknown_in (repos_of r))
