-- ===== src/Policy.antt =====
-- hub/coherence/policy.py: whether a policy bundle is the one that the control plane has bound.
pub mod Rollback
use dev_gate_agentic_framewo.Common.{
  ℕ, String, Bool, true, false, not, ◌&&◌, ◌||◌, Option, none, some, is_some, List, [], ◌∷◌, ◌==◌,
  string_eq, if◌then◌else◌, ltb, leb, any,
}
use dev_gate_agentic_framewo.Common.Json.{
  ℤ, Json, null, bool, int, real, str, arr, obj, Fields, Items, end, field, get_field, or_null,
  truthy, to_list,
}
use dev_gate_agentic_framewo.Common.Result.{Result, ok, err, ◌>>=◌, ◌>>◌}

-- The messages of `PolicyError`, and the TypeError of a loop over what is no sequence.
pub data Refusal : Type 0 where
  no_binding no_expected_digest malformed_grandfather not_covered : Refusal
  no_evaluation_time bad_evaluation_time bad_window window_expired : Refusal
  bad_epoch bad_floor below_floor not_iterable : Refusal

-- `_is_int(v) and v >= 0`
abbrev pub natural : Json → Option ℕ
natural (int (ℤ.pos n)) = some n
natural _ = none

abbrev pub is_text : String → Json → Bool
is_text s (str t) = t == s
is_text s _ = false

-- One grandfather record: its `valid_until`, and whether it names the digest.
unfoldable pub read_record : String → Json → Result Refusal (String × Bool)
read_record digest (obj fields) = elim (or_null (get_field "valid_until" fields)) [
  | str until ↦ ok (until, is_text digest (or_null (get_field "bundle_digest" fields)))
  | _ ↦ err malformed_grandfather
]
read_record digest _ = err malformed_grandfather

-- The `valid_until` of the records that name the digest.
unfoldable pub matching : String → List Json → Result Refusal (List String)
matching digest [] = ok []
matching digest (g ∷ gs) = do
  (until, named) ← read_record digest g
  more ← matching digest gs
  ok (if named then until ∷ more else more)

abbrev pub no_records : Json → Refusal
no_records (str _) = malformed_grandfather
no_records (obj _) = malformed_grandfather
no_records _ = not_iterable

-- `for g in binding.get("grandfathers") or []`: the characters of a text and the keys of an object
-- are no records.
unfoldable pub grandfathers_of : Json → Result Refusal (List Json)
grandfathers_of (arr items) = ok (to_list items)
grandfathers_of value = if truthy value then err (no_records value) else ok []

-- [_parse(g["valid_until"]) > now for g in matches], and whether any is true.
unfoldable pub any_unexpired : (String → Option ℕ) → ℕ → List String → Result Refusal Bool
any_unexpired parse now [] = ok false
any_unexpired parse now (u ∷ us) = elim (parse u) [
  | none ↦ err bad_window
  | some t ↦ any_unexpired parse now us >>= λ more. ok (ltb now t || more)
]

-- Whether a window that is open at the evaluation time covers the digest.
unfoldable pub judge_windows :
    (String → Option ℕ) → Option String → List String → Result Refusal (Unit {0})
judge_windows parse time [] = err not_covered
judge_windows parse none (u ∷ us) = err no_evaluation_time
judge_windows parse (some ts) (u ∷ us) = elim (parse ts) [
  | none ↦ err bad_evaluation_time
  | some now ↦ do
    open_now ← any_unexpired parse now (u ∷ us)
    if open_now then ok tt else err window_expired
]

-- binding.get("min_bundle_epoch", 0)
abbrev pub or_zero : Option Json → Json
or_zero none = int (ℤ.pos 0)
or_zero (some v) = v

unfoldable pub check_epoch : Option ℕ → Option ℕ → Result Refusal (Unit {0})
check_epoch none floor = err bad_epoch
check_epoch (some epoch) none = err bad_floor
check_epoch (some epoch) (some floor) = if ltb epoch floor then err below_floor else ok tt

abbrev pub epoch_of : Fields → Option ℕ
epoch_of bundle = natural (or_null (get_field "bundle_epoch" bundle))

abbrev pub floor_of : Fields → Option ℕ
floor_of binding = natural (or_zero (get_field "min_bundle_epoch" binding))

unfoldable pub check_other :
    (String → Option ℕ) → String → Fields → Option String → Result Refusal (Unit {0})
check_other parse digest binding time = do
  records ← grandfathers_of (or_null (get_field "grandfathers" binding))
  matches ← matching digest records
  judge_windows parse time matches

-- The checks once the expected digest is known to be a text.
unfoldable pub check_expected :
    (String → Option ℕ)
    → String
    → Fields
    → Fields
    → Option String
    → Json
    → Result Refusal (Unit {0})
check_expected parse digest bundle binding time (str expected) =
    if expected == ""
    then err no_expected_digest
    else if digest == expected
    then check_epoch (epoch_of bundle) (floor_of binding)
    else check_other parse digest binding time
check_expected parse digest bundle binding time _ = err no_expected_digest

-- The parse of a time is the first argument.
unfoldable pub check_anti_rollback :
    (String → Option ℕ) → String → Fields → Json → Option String → Result Refusal (Unit {0})
check_anti_rollback parse digest bundle (obj (field k v rest)) time =
    check_expected parse digest bundle (field k v rest) time
      (or_null (get_field "expected_digest" (field k v rest)))
check_anti_rollback parse digest bundle _ time = err no_binding
