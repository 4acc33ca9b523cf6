-- ===== src/Examples/Policies.antt =====
-- A bundle that the control plane has bound, and one that a grandfather window covers.
use dev_gate_agentic_framewo.Common.{
  ℕ, ◌≡◌, refl, String, Option, none, some, string_eq, ◌==◌, if◌then◌else◌,
}
use dev_gate_agentic_framewo.Common.Json.{
  ℤ, Json, int, str, obj, arr, nil, cons, Fields, end, field, get_field, to_list,
}
use dev_gate_agentic_framewo.Common.Result.{ok}
use dev_gate_agentic_framewo.Policy.{
  check_anti_rollback, check_expected, check_other, matching, read_record, any_unexpired,
  judge_windows, grandfathers_of,
}
use dev_gate_agentic_framewo.Policy.Rollback.{Authorized, check_anti_rollback-Authorized}

abbrev year_only : String → Option ℕ
year_only text = if text == "2025" then some 2025 else if text == "2026" then some 2026 else none

abbrev bundle : Fields
bundle = field "bundle_epoch" (int (ℤ.pos 4)) end

abbrev window : Json
window = obj (field "bundle_digest" (str "old") (field "valid_until" (str "2026") end))

abbrev binding : Fields
binding =
    field "expected_digest" (str "new")
      (field "min_bundle_epoch" (int (ℤ.pos 3)) (field "grandfathers" (arr (cons window nil)) end))

old-accepted : check_anti_rollback year_only "old" bundle (obj binding) (some "2025") ≡ ok tt
unfolding check_anti_rollback check_expected check_other matching read_record any_unexpired
    judge_windows grandfathers_of get_field string_eq to_list
old-accepted = refl

check_anti_rollback-Authorized_example : Authorized year_only "old" bundle binding (some "2025")
check_anti_rollback-Authorized_example =
    check_anti_rollback-Authorized year_only "old" bundle binding (some "2025") old-accepted
