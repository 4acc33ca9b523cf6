-- ===== src/Evaluators.antt =====
-- hub/coherence/evaluators.py: the four built-in evaluators.
pub mod Signed
pub mod Compared
pub mod Satisfied
pub mod Facts
pub mod Traced
pub mod Whole
use dev_gate_agentic_framewo.Common.{
  ℕ, String, ◌<>◌, Bool, true, false, not, ◌&&◌, ◌||◌, Option, none, some, List, [], ◌∷◌, ◌++◌, map,
  ◌==◌, string_eq, nat_eq, if◌then◌else◌, contains,
}
use Prim.Native.Char.{code}
use dev_gate_agentic_framewo.Common.Json.{
  Json, null, str, obj, Fields, end, field, get_field, or_null, truthy, truthy?,
}
use dev_gate_agentic_framewo.Common.Dict.{Dict, lookup}
use dev_gate_agentic_framewo.Common.Result.{Result, ok, err, ◌>>=◌}
use dev_gate_agentic_framewo.Ledger.{Finding, block}
use dev_gate_agentic_framewo.Plan.{Assertion, Selector}
use dev_gate_agentic_framewo.Evaluation.{Ran, found, undecided, crashed, Evaluator}

-- What the evaluators read besides their arguments: Python's `==` and `str` of JSON values, the
-- identity line of a file under the subject root (`_IDENTITY_RE`, none where there is no such file
-- or line, and the exception where what is there cannot be read, as a directory), and the ids of the spec markers in its sources (none where there is no such directory).
pub record Sources : Type 0 where
  pub same : Json → Json → Bool
  pub text : Json → String
  pub subject_root : String
  pub identity_line : String → Result String (Option String)
  pub markers : Option (List String)

-- s.split(":")[-1]
unfoldable pub has_colon : String → Bool
has_colon String.[] = false
has_colon (String.◌∷◌ c s) = code c == 58 || has_colon s

unfoldable pub after_colon : String → String
after_colon String.[] = ""
after_colon (String.◌∷◌ c s) =
    let rest = after_colon s in
    if has_colon s then rest else if code c == 58 then s else String.◌∷◌ c s

-- s.split(".")
abbrev pub onto_first : String → List String → List String
onto_first s [] = s ∷ []
onto_first s (w ∷ ws) = (s <> w) ∷ ws

unfoldable pub split_dots : String → List String
split_dots String.[] = "" ∷ []
split_dots (String.◌∷◌ c s) =
    let rest = split_dots s in
    if code c == 46 then "" ∷ rest else onto_first (String.◌∷◌ c String.[]) rest

-- The value at a path of keys; None reads as null.
unfoldable pub dig_parts : List String → Json → Json
dig_parts [] cur = cur
dig_parts (part ∷ parts) (obj fields) = elim (get_field part fields) [
  | none ↦ null
  | some v ↦ dig_parts parts v
]
dig_parts (part ∷ parts) _ = null

-- `_dig(obj, ref)`; a reference that is truthy and no text has no `split` (none).
unfoldable pub dig : Json → Json → Option Json
dig cur (str ref) =
    if ref == "" then some null else some (dig_parts (split_dots (after_colon ref)) cur)
dig cur ref = if truthy ref then none else some null

abbrev pub is_none : Json → Bool
is_none null = true
is_none _ = false

abbrev pub or_empty : Option String → String
or_empty none = ""
or_empty (some s) = s

-- sel.get("path") or sel.get("selector") or "?"
unfoldable pub loc : Selector → String
loc s =
    if or_empty s.path == ""
    then (if or_empty s.selector == "" then "?" else or_empty s.selector)
    else or_empty s.path

abbrev pub or_subjects : Assertion → List String → List String
or_subjects a [] = map loc a.subjects
or_subjects a (l ∷ ls) = l ∷ ls

abbrev pub first_or : String → List String → String
first_or default [] = default
first_or default (l ∷ ls) = l

-- `_mk`, less `expected` and `observed`
unfoldable pub mk : Assertion → String → List String → Finding
unfolding loc
mk a violation_class locations = record {
  assertion_id = a.id;
  finding_key =
      a.id <> ("|" <> (first_or "?" (or_subjects a locations) <> ("|" <> violation_class)));
  violation_class = violation_class;
  subject_locations = or_subjects a locations;
  severity = a.severity;
  enforcement = block;
  fingerprint = none;
  exception_id = none;
  reason = none;
}

abbrev pub text_or_null : Option String → Json
text_or_null none = null
text_or_null (some line) = str line

-- `_extract(selector, subject_root, package)`
unfoldable pub extract : Sources → Fields → Selector → Result String Json
unfolding dig
extract h package' s =
    if s.kind == "artifact-metadata"
    then ok (or_null (dig (obj package') (str (or_empty s.selector))))
    else if s.kind == "file"
    then (if or_empty s.path == ""
        then ok null
        else h.identity_line (or_empty s.path) >>= λ line. ok (text_or_null line))
    else ok null

-- What a loop over the subjects sees at one of them.
pub data Observed : Type 0 where
  skipped : Observed
  stopped : Ran → Observed
  value : Json → Observed

-- A finding that goes before the rest's; what the rest raises is raised.
abbrev pub and_found : Bool → Finding → Ran → Ran
and_found true f (found fs) = found (f ∷ fs)
and_found _ f rest = rest

-- The loops of `identity_consistency` and `captured_fact_consistency`: each observed value that is
-- not the approved one is a finding.
unfoldable pub compare_all :
    Sources → Assertion → String → Json → (Selector → Observed) → List Selector → Ran
compare_all h a violation_class approved observe [] = found []
compare_all h a violation_class approved observe (s ∷ ss) =
    let rest = compare_all h a violation_class approved observe ss in
    elim (observe s) [
      | skipped ↦ rest
      | stopped r ↦ r
      | value v ↦ and_found (not (h.same v approved)) (mk a violation_class (loc s ∷ [])) rest
    ]

-- What follows once the reference of `approved_value_ref` is dug.
unfoldable pub use_approved : Sources → Assertion → (Json → Ran) → Option Json → Ran
use_approved h a k none = crashed "AttributeError"
use_approved h a k (some approved) =
    if is_none approved
    then undecided (
        "approved-value-missing:" <> h.text (or_null (get_field "approved_value_ref" a.parameters)))
    else k approved

-- The approved value of the package that the assertion's parameters refer to.
unfoldable pub with_approved : Sources → Fields → Assertion → (Json → Ran) → Ran
with_approved h package' a k =
    use_approved h a k (dig (obj package') (or_null (get_field "approved_value_ref" a.parameters)))

unfoldable pub see_extracted : Selector → Result String Json → Observed
see_extracted s (err name) = stopped (crashed name)
see_extracted s (ok v) =
    if is_none v then stopped (undecided ("selector-empty:" <> loc s)) else value v

unfoldable pub observe_identity : Sources → Fields → Selector → Observed
observe_identity h package' s = see_extracted s (extract h package' s)

unfoldable pub identity_consistency : Sources → Fields → Evaluator
identity_consistency h package' a facts = with_approved h package' a (λ approved.
    compare_all h a "identity-mismatch" approved (observe_identity h package') a.subjects)

-- parameters.get("response_field", "value")
abbrev pub response_field : Assertion → Json
response_field a = elim (get_field "response_field" a.parameters) [
  | none ↦ str "value"
  | some f ↦ f
]

abbrev pub fact_text : Option String → String
fact_text none = "None"
fact_text (some id) = id

-- `facts.get(fact_id)`
abbrev pub fact_of : Dict Json → Option String → Json
fact_of facts none = null
fact_of facts (some id) = or_null (lookup id facts)

unfoldable pub see_field : Sources → Json → Option Json → Observed
see_field h field' none = stopped (crashed "AttributeError")
see_field h field' (some v) =
    if is_none v
    then stopped (undecided ("captured-fact-field-empty:" <> h.text field'))
    else value v

-- The response field of a captured fact; a fact that is no object has none.
unfoldable pub field_of : Sources → Json → Json → Observed
field_of h field' (obj fields) = see_field h field' (dig (obj fields) field')
field_of h field' fact = stopped (undecided ("captured-fact-field-empty:" <> h.text field'))

unfoldable pub observe_fact : Sources → Assertion → Dict Json → Selector → Observed
observe_fact h a facts s =
    if s.kind == "captured-fact"
    then (if is_none (fact_of facts s.fact_id)
        then stopped (undecided ("captured-fact-missing:" <> fact_text s.fact_id))
        else field_of h (response_field a) (fact_of facts s.fact_id))
    else skipped

unfoldable pub captured_fact_consistency : Sources → Fields → Evaluator
captured_fact_consistency h package' a facts = with_approved h package' a (λ approved.
    compare_all h a "captured-fact-mismatch" approved (observe_fact h a facts) a.subjects)

-- The entries of an object, in their order.
unfoldable pub items : Fields → List (String × Json)
items end = []
items (field k v rest) = (k, v) ∷ items rest

-- `package.get("normative_requirements") or {}`; what is truthy and no object has no `items` (none).
unfoldable pub requirements_of : Json → Option (List (String × Json))
requirements_of (obj fields) = some (items fields)
requirements_of reqs = if truthy reqs then none else some []

-- A loop over the requirements: one finding for each that the test picks.
unfoldable pub scan : (String → Fields → Bool) → (String → Finding) → List (String × Json) → Ran
scan picks make [] = found []
scan picks make ((rid, obj meta) ∷ rs) =
    let rest = scan picks make rs in and_found (picks rid meta) (make rid) rest
scan picks make ((rid, _) ∷ rs) = crashed "AttributeError"

-- Two loops, one after the other.
abbrev pub and_then : Ran → Ran → Ran
and_then (found fs) (found gs) = found (fs ++ gs)
and_then (found fs) rest = rest
and_then first rest = first

abbrev pub is_testable : Fields → Bool
is_testable meta = truthy? (get_field "testable" meta)

abbrev pub is_orphan : String → Fields → Bool
is_orphan rid meta = is_testable meta && not (truthy? (get_field "assertion_ids" meta))

abbrev pub is_unmarked : List String → String → Fields → Bool
is_unmarked marked rid meta = is_testable meta && not (contains marked rid)

unfoldable pub scan_marked : Sources → Assertion → List (String × Json) → Option (List String) → Ran
scan_marked h a reqs none = undecided ("subject-root-missing:" <> h.subject_root)
scan_marked h a reqs (some marked) =
    scan (is_unmarked marked) (λ rid. mk a "unmarked-requirement" (rid ∷ [])) reqs

-- The half of `parameters.marker_scan`.
unfoldable pub scan_markers : Sources → Assertion → List (String × Json) → Ran
scan_markers h a reqs =
    if truthy? (get_field "marker_scan" a.parameters)
    then scan_marked h a reqs h.markers
    else found []

unfoldable pub trace_all : Sources → Assertion → Option (List (String × Json)) → Ran
trace_all h a none = crashed "AttributeError"
trace_all h a (some reqs) =
    and_then (scan is_orphan (λ rid. mk a "orphan-requirement" []) reqs) (scan_markers h a reqs)

unfoldable pub traceability_completeness : Sources → Fields → Evaluator
traceability_completeness h package' a facts =
    trace_all h a (requirements_of (or_null (get_field "normative_requirements" package')))

-- A release manifest that claims the digest of what contains it.
abbrev pub is_self_referential : Sources → Fields → Bool
is_self_referential h m =
    truthy? (get_field "subject_digest" m)
    && h.same (or_null (get_field "subject_digest" m)) (or_null (get_field "payload_digest" m))

unfoldable pub check_manifest : Sources → Assertion → Json → Ran
check_manifest h a null = found (mk a "selector-empty" [] ∷ [])
check_manifest h a (obj m) =
    found (if is_self_referential h m then mk a "self-referential-release" [] ∷ [] else [])
check_manifest h a _ = crashed "AttributeError"

unfoldable pub release_claim_consistency : Sources → Fields → Evaluator
release_claim_consistency h package' a facts =
    check_manifest h a (or_null (get_field "release_manifest" package'))

-- BUILTINS
unfoldable pub builtin : Sources → Fields → String → Option Evaluator
builtin h package' name =
    if name == "devgate.builtin.identity-consistency"
    then some (identity_consistency h package')
    else if name == "devgate.builtin.traceability-completeness"
    then some (traceability_completeness h package')
    else if name == "devgate.builtin.release-claim-consistency"
    then some (release_claim_consistency h package')
    else if name == "devgate.builtin.captured-fact-consistency"
    then some (captured_fact_consistency h package')
    else none
