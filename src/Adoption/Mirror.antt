-- ===== src/Adoption/Mirror.antt =====
-- hub/coherence/adoption.py: the row of each assertion mirrors its findings.
use dev_gate_agentic_framewo.Common.{
  ℕ, String, Bool, true, false, Option, some, List, [], ◌∷◌, ◌++◌, keep, length, count, ◌==◌,
  string_eq, nat_eq, option_eq, if◌then◌else◌, ◌||◌, leb, ltb,
}
use dev_gate_agentic_framewo.Ledger.{
  Row, Finding, Outcome, satisfied, violated, unresolved, Enforcement, advisory, exception_advisory,
  block, is_block, Reason, violation_without_finding_detail, multi_finding,
}

-- _ENFORCEMENT_ORDER
abbrev pub order : Enforcement → ℕ
order advisory = 0
order exception_advisory = 1
order block = 2

-- by_aid.get(aid, [])
unfoldable pub findings_of : String → List Finding → List Finding
findings_of aid = keep (λ f. aid == f.assertion_id)

-- The stricter of two; the first of equals wins.
abbrev pub louder : Enforcement → Enforcement → Enforcement
louder best e = if ltb (order best) (order e) then e else best

-- max(fs, key=order), of which only the enforcement is read.
unfoldable pub strictest : Enforcement → List Finding → Enforcement
strictest best [] = best
strictest best (f ∷ fs) = strictest (louder best f.enforcement) fs

unfoldable pub same_enforcement : Enforcement → Enforcement → Bool
unfolding nat_eq
same_enforcement a b = order a == order b

unfoldable pub count_enforced : Enforcement → List Finding → ℕ
count_enforced e = count (λ f. same_enforcement e f.enforcement)

-- The softer classes in their order, with their counts.
abbrev pub softer_one : Enforcement → Enforcement → List Finding → List (Enforcement × ℕ)
softer_one top e fs =
    if same_enforcement top e || count_enforced e fs == 0 then [] else (e, count_enforced e fs) ∷ []

unfoldable pub softer : Enforcement → List Finding → List (Enforcement × ℕ)
unfolding count_enforced same_enforcement
softer top fs =
    softer_one top advisory fs ++ (softer_one top exception_advisory fs ++ softer_one top block fs)

abbrev pub mirror_reason : Enforcement → List Finding → Option Reason → Option Reason
mirror_reason top fs old = elim (softer top fs) [
  | [] ↦ old
  | _ ∷ _ ↦ some (multi_finding (length fs) top (softer top fs))
]

-- The row of a VIOLATED assertion, from its findings, and whether it sets `blocked`.
unfoldable pub mirror : List Finding → Row → Row × Bool
mirror [] e =
    (record e { enforcement = block; reason = some violation_without_finding_detail }, true)
mirror (f ∷ fs) e =
    let top : Enforcement = strictest f.enforcement fs in
    (record e { enforcement = top; reason = mirror_reason top (f ∷ fs) e.reason }, is_block top)

abbrev pub open_enforcement : ℕ → Enforcement
open_enforcement stage = if leb 2 stage then block else advisory

-- The body of the loop over the ledger, by the row's outcome.
unfoldable pub enforce_outcome : ℕ → List Finding → Outcome → Row → Row × Bool
enforce_outcome stage fs satisfied e = (record e { enforcement = advisory }, false)
enforce_outcome stage fs violated e = mirror (findings_of e.assertion_id fs) e
enforce_outcome stage fs unresolved e =
    (record e { enforcement = open_enforcement stage }, is_block (open_enforcement stage))

unfoldable pub enforce_ledger : ℕ → List Finding → List Row → List Row × Bool
enforce_ledger stage fs [] = ([], false)
enforce_ledger stage fs (e ∷ es) =
    let (e', b) = enforce_outcome stage fs e.outcome e in
    let (es', bs) = enforce_ledger stage fs es in (e' ∷ es', b || bs)
