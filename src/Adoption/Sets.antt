-- ===== src/Adoption/Sets.antt =====
-- hub/coherence/adoption.py: fingerprints, the baseline and the exceptions, as sets of fingerprints.
-- The sets come in the shape that hub/coherence/policy.py has checked against its schemas.
use dev_gate_agentic_framewo.Common.{
  ℕ, String, Bool, true, false, Option, none, some, List, [], ◌∷◌, ◌<>◌, ◌==◌, string_eq, nat_eq,
  option_eq, if◌then◌else◌, ◌&&◌, ◌||◌, leb, ltb,
}
use dev_gate_agentic_framewo.Common.Dict.{Dict, lookup, insert}
use dev_gate_agentic_framewo.Common.Decimal.{show}
use dev_gate_agentic_framewo.Common.Result.{Result, ok, err}

-- "|".join([id, f"v{version}", location, vclass])
unfoldable pub fingerprint : String → ℕ → String → String → String
unfolding show
fingerprint id version location vclass =
    id <> ("|v" <> (show version <> ("|" <> (location <> ("|" <> vclass)))))

-- The four parts that a baseline entry or an exception names.
pub record Print : Type 0 where
  pub assertion_id : String
  pub assertion_version : ℕ
  pub subject_location : String
  pub violation_key : String

abbrev pub print_of : Print → String
print_of p = fingerprint p.assertion_id p.assertion_version p.subject_location p.violation_key

pub record BaselineEntry : Type 0 where
  pub print : Print
  pub status : Option String
  pub severity : Option String

pub record ExceptionEntry : Type 0 where
  pub exception_id : String
  pub assertion_id : Option String
  pub subject_ref : Option String
  pub print : Print
  pub expires_at : String

-- A planned assertion, as far as the ladder reads it.
pub record Planned : Type 0 where
  pub id : String
  pub version : Option ℕ
  pub evaluator : Option String

pub data Problem : Type 0 where
  no_assertion_scope no_subject_scope : Problem
  bad_time : String → Problem

-- `scope in (None, "*", "")`
abbrev pub is_wildcard : Option String → Bool
is_wildcard none = true
is_wildcard (some s) = s == "*" || s == ""

unfoldable pub validate_exceptions : List ExceptionEntry → Result Problem (Unit {0})
validate_exceptions [] = ok tt
validate_exceptions (ex ∷ exs) =
    let rest = validate_exceptions exs in
    if is_wildcard ex.assertion_id
    then err no_assertion_scope
    else if is_wildcard ex.subject_ref
    then err no_subject_scope
    else rest

-- policy._SEVERITY_RANK
unfoldable pub severity_rank : String → Option ℕ
severity_rank s =
    if s == "low"
    then some 0
    else if s == "medium"
    then some 1
    else if s == "high"
    then some 2
    else if s == "critical"
    then some 3
    else none

-- `rank[floor] > rank[adopted]`, for two known severities.
abbrev pub outranks : Option ℕ → Option ℕ → Bool
outranks (some floor) (some adopted) = ltb adopted floor
outranks _ _ = false

abbrev pub rank_of : Option String → Option ℕ
rank_of none = none
rank_of (some s) = severity_rank s

-- b.get("status", "open") == "open"
abbrev pub is_open : BaselineEntry → Bool
is_open b = elim b.status [ none ↦ true | some s ↦ s == "open" ]

abbrev pub prints_of : (BaselineEntry → Bool) → List BaselineEntry → List String
prints_of p [] = []
prints_of p (b ∷ bs) = let rest = prints_of p bs in if p b then print_of b.print ∷ rest else rest

unfoldable pub baseline_prints : List BaselineEntry → List String
baseline_prints = prints_of is_open

-- An open entry whose assertion's floor has risen above the severity at adoption.
abbrev pub is_escalated : Dict String → BaselineEntry → Bool
is_escalated floors b =
    is_open b && outranks (rank_of (lookup b.print.assertion_id floors)) (rank_of b.severity)

unfoldable pub escalated_prints : Dict String → List BaselineEntry → List String
escalated_prints floors = prints_of (is_escalated floors)

-- The exceptions by fingerprint: the expired ones, and the active ones with their ids.
pub record Cover : Type 0 where
  pub expired : List String
  pub active : Dict String

-- `_parse(expires_at) <= now`, where the parse of a time is the caller's.
unfoldable pub cover_of :
    (String → Option ℕ) → ℕ → Cover → List ExceptionEntry → Result Problem Cover
cover_of parse now cover [] = ok cover
cover_of parse now cover (ex ∷ exs) = elim (parse ex.expires_at) [
  | none ↦ err (bad_time ex.expires_at)
  | some t ↦
      let past =
        cover_of parse now (record cover { expired = print_of ex.print ∷ cover.expired }) exs in
      let ahead =
        cover_of parse now
          (record cover { active = insert (print_of ex.print) ex.exception_id cover.active }) exs in
      if leb t now then past else ahead
]
