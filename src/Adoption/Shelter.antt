-- ===== src/Adoption/Shelter.antt =====
-- hub/coherence/adoption.py: what the ladder decides on each finding.
use dev_gate_agentic_framewo.Common.{
  ℕ, ◌+◌, String, Bool, true, false, not, Option, none, some, List, [], ◌∷◌, contains, ◌==◌,
  string_eq, nat_eq, option_eq, if◌then◌else◌, ◌&&◌, ◌||◌, leb, ltb,
}
use Prim.Native.Char.{code}
use dev_gate_agentic_framewo.Common.Dict.{lookup}
use dev_gate_agentic_framewo.Ledger.{
  Finding, advisory, exception_advisory, block, Reason, advisory_expired_existing_debt,
  advisory_expired_severity_escalated,
}
use dev_gate_agentic_framewo.Adoption.Sets.{fingerprint, Planned, Cover}

-- What the ladder knows when it comes to the findings.
pub record Ladder : Type 0 where
  pub stage : ℕ
  pub planned : List Planned
  pub core_classes : List String
  pub baseline : List String
  pub escalated : List String
  pub cover : Cover
  pub advisory_expired : Bool

abbrev pub or_one : Option ℕ → ℕ
or_one none = 1
or_one (some v) = v

-- versions.get(aid, 1), of a dict whose later entries win.
unfoldable pub version_of : List Planned → String → ℕ → ℕ
version_of [] aid default = default
version_of (a ∷ as') aid default =
    version_of as' aid (if aid == a.id then or_one a.version else default)

unfoldable pub evaluator_of : List Planned → String → Option String → Option String
evaluator_of [] aid default = default
evaluator_of (a ∷ as') aid default =
    evaluator_of as' aid (if aid == a.id then a.evaluator else default)

-- `evaluator in core_classes`
abbrev pub in_core : List String → Option String → Bool
in_core core none = false
in_core core (some e) = contains core e

unfoldable pub shelter_ends : Ladder → String → Bool
unfolding evaluator_of
shelter_ends l aid =
    if leb 4 l.stage
    then true
    else if l.stage == 3
    then in_core l.core_classes (evaluator_of l.planned aid none)
    else false

abbrev pub first_location : List String → String
first_location [] = "?"
first_location (x ∷ xs) = x

-- finding_key.split("|"): how many bars it has, and the text after the last one.
unfoldable pub bars : String → ℕ
bars String.[] = 0
bars (String.◌∷◌ c s) = (if code c == b'|' then 1 else 0) + bars s

unfoldable pub last_part : String → String → String
last_part part String.[] = part
last_part part (String.◌∷◌ c s) = last_part (if code c == b'|' then s else part) s

-- `_vclass`: the class that the finding names, or the last part of its key.
unfoldable pub vclass : Finding → String
unfolding bars last_part
vclass f =
    if f.violation_class == ""
    then if leb 2 (bars f.finding_key) then last_part f.finding_key f.finding_key else "unknown"
    else f.violation_class

unfoldable pub print_finding : Ladder → Finding → String
unfolding version_of vclass
print_finding l f =
    fingerprint f.assertion_id (version_of l.planned f.assertion_id 1)
      (first_location f.subject_locations) (vclass f)

-- The baseline still excuses this fingerprint of this assertion.
unfoldable pub is_sheltered : Ladder → String → String → Bool
is_sheltered l aid fp =
    contains l.baseline fp
    && not (contains l.escalated fp)
    && not l.advisory_expired
    && not (shelter_ends l aid)

abbrev pub expiry_reason : Ladder → String → Option Reason → Option Reason
expiry_reason l fp old =
    if l.advisory_expired && contains l.baseline fp
    then some (
        if contains l.escalated fp
        then advisory_expired_severity_escalated
        else advisory_expired_existing_debt)
    else old

-- The body of the loop over the findings, for the finding's fingerprint: the finding as written,
-- and whether the loop sets `blocked`.
unfoldable pub enforce_as : Ladder → String → Finding → Finding × Bool
enforce_as l fp f =
    let marked : Finding = record f { fingerprint = some fp } in
    if ltb l.stage 2
    then (record marked { enforcement = advisory }, false)
    else if contains l.cover.expired fp
    then (record marked { enforcement = block }, true)
    else elim (lookup fp l.cover.active) [
      | some id ↦
          (record marked { enforcement = exception_advisory; exception_id = some id }, false)
      | none ↦
          if is_sheltered l f.assertion_id fp
          then (record marked { enforcement = advisory }, false)
          else (record marked { enforcement = block; reason = expiry_reason l fp f.reason }, true)
    ]

unfoldable pub enforce : Ladder → Finding → Finding × Bool
enforce l f = enforce_as l (print_finding l f) f

unfoldable pub enforce_findings : Ladder → List Finding → List Finding × Bool
enforce_findings l [] = ([], false)
enforce_findings l (f ∷ fs) =
    let (f', b) = enforce l f in let (fs', bs) = enforce_findings l fs in (f' ∷ fs', b || bs)
