-- ===== src/Evaluators/Signed.antt =====
-- hub/coherence/evaluators.py: the assertion that the findings of the built-in evaluators name.
use dev_gate_agentic_framewo.Common.{
  ◌≡◌, refl, sym, ap, ◌∙◌, String, Bool, true, false, not, Option, none, some, List, [], ◌∷◌, ◌==◌,
  string_eq, if◌then◌else◌, All, All-append, arith, Bool-cases, inl, inr,
}
use mathlib.Core.Path.{subst}
use dev_gate_agentic_framewo.Common.Json.{Json, null, obj, Fields, get_field, or_null, truthy?}
use dev_gate_agentic_framewo.Common.Dict.{Dict}
use dev_gate_agentic_framewo.Common.Result.{Result, ok, err}
use dev_gate_agentic_framewo.Plan.{Assertion, Selector}
use dev_gate_agentic_framewo.Evaluation.{Ran, found, undecided, crashed, Evaluator, Engine}
use dev_gate_agentic_framewo.Evaluation.Turns.{IsAbout, Signs}
use dev_gate_agentic_framewo.Evaluators.{
  Sources, dig, is_none, loc, mk, Observed, skipped, stopped, value, and_found, compare_all,
  with_approved, observe_identity, identity_consistency, response_field, fact_of, field_of,
  observe_fact, captured_fact_consistency, requirements_of, scan, and_then, is_orphan, is_unmarked,
  scan_markers, traceability_completeness, extract, see_extracted, use_approved, see_field,
  scan_marked, trace_all, check_manifest, is_self_referential, release_claim_consistency, builtin,
}

-- Whatever is found is about the assertion.
abbrev IsOwn : Assertion → Ran → Type 0
IsOwn a (found fs) = All (IsAbout a) fs
IsOwn a _ = Unit

abbrev SeesOwn : Assertion → Observed → Type 0
SeesOwn a (stopped r) = IsOwn a r
SeesOwn a _ = Unit

mk-IsAbout : (a : Assertion) (c : String) (ls : List String) → IsAbout a (mk a c ls)
unfolding mk
mk-IsAbout a c ls = refl

and_found-IsOwn :
    (a : Assertion) (b : Bool) (c : String) (ls : List String) (r : Ran)
    → IsOwn a r
    → IsOwn a (and_found b (mk a c ls) r)
and_found-IsOwn a true c ls (found fs) h = (mk-IsAbout a c ls, h)
and_found-IsOwn a true c ls (undecided w) h = h
and_found-IsOwn a true c ls (crashed w) h = h
and_found-IsOwn a false c ls r h = h

and_then-IsOwn : (a : Assertion) (r q : Ran) → IsOwn a r → IsOwn a q → IsOwn a (and_then r q)
and_then-IsOwn a (found fs) (found gs) h k = All-append (IsAbout a) fs gs h k
and_then-IsOwn a (found fs) (undecided w) h k = tt
and_then-IsOwn a (found fs) (crashed w) h k = tt
and_then-IsOwn a (undecided w) q h k = tt
and_then-IsOwn a (crashed w) q h k = tt

compare_all-IsOwn :
    (h : Sources) (a : Assertion) (c : String) (approved : Json) (observe : Selector → Observed)
    (ss : List Selector)
    → ((s : Selector) → SeesOwn a (observe s))
    → IsOwn a (compare_all h a c approved observe ss)
unfolding compare_all
compare_all-IsOwn h a c approved observe [] own = tt
compare_all-IsOwn h a c approved observe (s ∷ ss) own =
    go (observe s) (own s) (compare_all-IsOwn h a c approved observe ss own)
  where
    go :
        (o : Observed)
        → SeesOwn a o
        → IsOwn a (compare_all h a c approved observe ss)
        → IsOwn a (elim o as (λ x. Ran) [
          | skipped ↦ compare_all h a c approved observe ss
          | stopped r ↦ r
          | value v ↦
              and_found
                (not (h.same v approved))
                (mk a c (loc s ∷ []))
                (compare_all h a c approved observe ss)
        ])
    go skipped own rest = rest
    go (stopped r) own rest = own
    go (value v) own rest = and_found-IsOwn a (not (h.same v approved)) c (loc s ∷ []) _ rest

use_approved-IsOwn :
    (h : Sources) (a : Assertion) (k : Json → Ran) (o : Option Json)
    → ((approved : Json) → IsOwn a (k approved))
    → IsOwn a (use_approved h a k o)
unfolding use_approved
use_approved-IsOwn h a k none own = tt
use_approved-IsOwn h a k (some approved) own = elim (Bool-cases (is_none approved)) [
  | inl e ↦ rw e tt
  | inr e ↦ rw e (own approved)
]

see_extracted-SeesOwn :
    (a : Assertion) (s : Selector) (r : Result String Json) → SeesOwn a (see_extracted s r)
unfolding see_extracted
see_extracted-SeesOwn a s (err name) = tt
see_extracted-SeesOwn a s (ok v) = elim (Bool-cases (is_none v)) [
  | inl e ↦ rw e tt
  | inr e ↦ rw e tt
]

observe_identity-SeesOwn :
    (h : Sources) (p : Fields) (a : Assertion) (s : Selector) → SeesOwn a (observe_identity h p s)
unfolding observe_identity
observe_identity-SeesOwn h p a s = see_extracted-SeesOwn a s (extract h p s)

see_field-SeesOwn :
    (h : Sources) (a : Assertion) (f : Json) (o : Option Json) → SeesOwn a (see_field h f o)
unfolding see_field
see_field-SeesOwn h a f none = tt
see_field-SeesOwn h a f (some v) = elim (Bool-cases (is_none v)) [
  | inl e ↦ rw e tt
  | inr e ↦ rw e tt
]

field_of-SeesOwn : (h : Sources) (a : Assertion) (f fact : Json) → SeesOwn a (field_of h f fact)
unfolding field_of
field_of-SeesOwn h a f (obj fields) = see_field-SeesOwn h a f (dig (obj fields) f)
field_of-SeesOwn h a f _ = tt

observe_fact-SeesOwn :
    (h : Sources) (a b : Assertion) (facts : Dict Json) (s : Selector)
    → SeesOwn a (observe_fact h b facts s)
unfolding observe_fact
observe_fact-SeesOwn h a b facts s = elim (Bool-cases (s.kind == "captured-fact")) [
  | inr e ↦ rw e tt
  | inl e ↦ elim (Bool-cases (is_none (fact_of facts s.fact_id))) [
    | inl n ↦ rw (e, n) tt
    | inr n ↦ rw (e, n) (field_of-SeesOwn h a (response_field b) (fact_of facts s.fact_id))
  ]
]

scan-IsOwn :
    (a : Assertion) (picks : String → Fields → Bool) (c : String) (where' : String → List String)
    (reqs : List (String × Json))
    → IsOwn a (scan picks (λ rid. mk a c (where' rid)) reqs)
unfolding scan
scan-IsOwn a picks c where' [] = tt
scan-IsOwn a picks c where' ((rid, obj meta) ∷ rs) =
    and_found-IsOwn a (picks rid meta) c (where' rid) _ (scan-IsOwn a picks c where' rs)
scan-IsOwn a picks c where' ((rid, _) ∷ rs) = tt

scan_marked-IsOwn :
    (h : Sources) (a : Assertion) (reqs : List (String × Json)) (o : Option (List String))
    → IsOwn a (scan_marked h a reqs o)
unfolding scan_marked
scan_marked-IsOwn h a reqs none = tt
scan_marked-IsOwn h a reqs (some marked) =
    scan-IsOwn a (is_unmarked marked) "unmarked-requirement" (λ rid. rid ∷ []) reqs

trace_all-IsOwn :
    (h : Sources) (a : Assertion) (o : Option (List (String × Json))) → IsOwn a (trace_all h a o)
unfolding trace_all scan_markers
trace_all-IsOwn h a none = tt
trace_all-IsOwn h a (some reqs) =
    and_then-IsOwn a (scan is_orphan (λ rid. mk a "orphan-requirement" []) reqs)
      (scan_markers h a reqs) (scan-IsOwn a is_orphan "orphan-requirement" (λ rid. []) reqs)
      (elim (Bool-cases (truthy? (get_field "marker_scan" a.parameters))) [
        | inl e ↦ rw e (scan_marked-IsOwn h a reqs h.markers)
        | inr e ↦ rw e tt
      ])

check_manifest-IsOwn : (h : Sources) (a : Assertion) (m : Json) → IsOwn a (check_manifest h a m)
unfolding check_manifest
check_manifest-IsOwn h a null = (mk-IsAbout a "selector-empty" [], tt)
check_manifest-IsOwn h a (obj m) = elim (Bool-cases (is_self_referential h m)) [
  | inl e ↦ rw e (mk-IsAbout a "self-referential-release" [], tt)
  | inr e ↦ rw e tt
]
check_manifest-IsOwn h a _ = tt

-- An evaluator whose findings name its assertion.
abbrev SignsOwn : Evaluator → Type 0
SignsOwn fn = (a : Assertion) (facts : Dict Json) → IsOwn a (fn a facts)

identity-SignsOwn : (h : Sources) (p : Fields) → SignsOwn (identity_consistency h p)
unfolding identity_consistency with_approved
identity-SignsOwn h p a facts =
    use_approved-IsOwn h a _ (dig (obj p) (or_null (get_field "approved_value_ref" a.parameters)))
      (λ approved.
        compare_all-IsOwn h a "identity-mismatch" approved (observe_identity h p) a.subjects
          (observe_identity-SeesOwn h p a))

captured_fact-SignsOwn : (h : Sources) (p : Fields) → SignsOwn (captured_fact_consistency h p)
unfolding captured_fact_consistency with_approved
captured_fact-SignsOwn h p a facts =
    use_approved-IsOwn h a _ (dig (obj p) (or_null (get_field "approved_value_ref" a.parameters)))
      (λ approved.
        compare_all-IsOwn h a "captured-fact-mismatch" approved (observe_fact h a facts) a.subjects
          (observe_fact-SeesOwn h a a facts))

some_injective : {f g : Evaluator} → ◌≡◌ {A = Option Evaluator} (some f) (some g) → f ≡ g
some_injective h = cc

choice-SignsOwn :
    (b : Bool) (f fn : Evaluator) (rest : Option Evaluator)
    → SignsOwn f
    → (rest ≡ some fn → SignsOwn fn)
    → (if b then some f else rest) ≡ some fn
    → SignsOwn fn
choice-SignsOwn true f fn rest own later k = subst SignsOwn (some_injective k) own
choice-SignsOwn false f fn rest own later k = later k

none_known : {fn : Evaluator} → ◌≡◌ {A = Option Evaluator} none (some fn) → SignsOwn fn
none_known k = absurd (ground arith)

builtin-SignsOwn :
    (h : Sources) (p : Fields) (name : String) (fn : Evaluator)
    → builtin h p name ≡ some fn
    → SignsOwn fn
unfolding builtin traceability_completeness release_claim_consistency
builtin-SignsOwn h p name fn =
    choice-SignsOwn (name == "devgate.builtin.identity-consistency") (identity_consistency h p) fn _
      (identity-SignsOwn h p)
      (choice-SignsOwn (name == "devgate.builtin.traceability-completeness")
        (traceability_completeness h p) fn _
        (λ a facts.
          trace_all-IsOwn h a (requirements_of (or_null (get_field "normative_requirements" p))))
        (choice-SignsOwn (name == "devgate.builtin.release-claim-consistency")
          (release_claim_consistency h p) fn _
          (λ a facts. check_manifest-IsOwn h a (or_null (get_field "release_manifest" p)))
          (choice-SignsOwn (name == "devgate.builtin.captured-fact-consistency")
            (captured_fact_consistency h p) fn none (captured_fact-SignsOwn h p) none_known)))

-- The built-in evaluators name their own assertion in every finding.
pub builtin-Signs : (h : Sources) (p : Fields) (e : Engine) → e.builtin ≡ builtin h p → Signs e
builtin-Signs h p e same name fn a facts fs known ran =
    subst (IsOwn a) ran (builtin-SignsOwn h p name fn (ap (λ b. b name) (sym same) ∙ known) a facts)
