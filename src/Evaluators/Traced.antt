-- ===== src/Evaluators/Traced.antt =====
-- hub/coherence/evaluators.py: when `traceability_completeness` and `release_claim_consistency` find
-- nothing.
use dev_gate_agentic_framewo.Common.{
  ◌≡◌, ◌↔◌, ◌⊎◌, refl, sym, ap, String, Bool, true, false, Option, none, some, List, [], ◌∷◌,
  string_eq, All, arith, Bool-cases, inl, inr,
}
use mathlib.Core.Path.{subst}
use dev_gate_agentic_framewo.Common.Json.{Json, obj, Fields, get_field, or_null, truthy?}
use dev_gate_agentic_framewo.Common.Dict.{Dict}
use dev_gate_agentic_framewo.Ledger.{Finding}
use dev_gate_agentic_framewo.Plan.{Assertion}
use dev_gate_agentic_framewo.Evaluation.{Ran, found, undecided, crashed}
use dev_gate_agentic_framewo.Evaluators.{
  Sources, mk, and_found, and_then, scan, is_orphan, is_unmarked, scan_marked, scan_markers,
  requirements_of, trace_all, traceability_completeness, check_manifest, is_self_referential,
  release_claim_consistency,
}
use dev_gate_agentic_framewo.Evaluators.Compared.{and_found-nil}

obj_injective : {a b : Fields} → obj a ≡ obj b → a ≡ b
obj_injective h = cc

list_injective : {a b : List String} → ◌≡◌ {A = Option (List String)} (some a) (some b) → a ≡ b
list_injective h = cc

is_object : Json → Bool
is_object (obj fields) = true
is_object _ = false

-- The requirement is an object that the test does not pick.
abbrev pub Passes : (String → Fields → Bool) → String × Json → Type 0
Passes picks (rid, meta) = (fields : Fields) × (meta ≡ obj fields) × (picks rid fields ≡ false)

scan-nil_iff :
    (picks : String → Fields → Bool) (make : String → Finding) (reqs : List (String × Json))
    → (scan picks make reqs ≡ found []) ↔ All (Passes picks) reqs
unfolding scan is_object
scan-nil_iff picks make [] = (λ k. tt, λ k. refl)
scan-nil_iff picks make ((rid, obj fields) ∷ rs) =
    let rest = scan-nil_iff picks make rs in
    (
      λ k.
          let (missed, nothing) = and_found-nil (picks rid fields) (make rid) _ k in
          ((fields, refl, missed), rest.0 nothing),
      λ ((other, is, missed), later). passed other is missed (rest.1 later),
    )
  where
    passed :
        (other : Fields)
        → obj fields ≡ obj other
        → picks rid other ≡ false
        → scan picks make rs ≡ found []
        → and_found (picks rid fields) (make rid) (scan picks make rs) ≡ found []
    passed other is missed nothing = let same = obj_injective is in rw (same, missed) nothing
scan-nil_iff picks make ((rid, _) ∷ rs) =
    (λ k. absurd (ground arith), λ k. absurd (ground (arith, ap is_object k.0.1)))

and_then-nil : (r q : Ran) → and_then r q ≡ found [] → (r ≡ found []) × (q ≡ found [])
and_then-nil (found []) (found gs) h = (refl, h)
and_then-nil (found (f ∷ fs)) (found gs) h = absurd (ground arith)
and_then-nil (found fs) (undecided w) h = absurd (ground arith)
and_then-nil (found fs) (crashed w) h = absurd (ground arith)
and_then-nil (undecided w) q h = absurd (ground arith)
and_then-nil (crashed w) q h = absurd (ground arith)

-- The sources are there and mark every testable requirement.
abbrev pub Marked : Sources → List (String × Json) → Type 0
Marked h reqs =
    (marked : List String) × (h.markers ≡ some marked) × All (Passes (is_unmarked marked)) reqs

scan_marked-nil_iff :
    (h : Sources) (a : Assertion) (reqs : List (String × Json)) (o : Option (List String))
    → (scan_marked h a reqs o ≡ found [])
      ↔ ((marked : List String) × (o ≡ some marked) × All (Passes (is_unmarked marked)) reqs)
unfolding scan_marked
scan_marked-nil_iff h a reqs none = (λ k. absurd (ground arith), λ k. absurd (ground arith))
scan_marked-nil_iff h a reqs (some marked) =
    let pass =
      scan-nil_iff (is_unmarked marked) (λ rid. mk a "unmarked-requirement" (rid ∷ [])) reqs in
    (
      λ k. (marked, refl, pass.0 k),
      λ (other, is, all_pass).
          pass.1
            (subst (λ ms. All (Passes (is_unmarked ms)) reqs) (sym (list_injective is)) all_pass),
    )

scan_markers-nil_iff :
    (h : Sources) (a : Assertion) (reqs : List (String × Json))
    → (scan_markers h a reqs ≡ found [])
      ↔ ((truthy? (get_field "marker_scan" a.parameters) ≡ false) ⊎ Marked h reqs)
unfolding scan_markers
scan_markers-nil_iff h a reqs = elim (Bool-cases (truthy? (get_field "marker_scan" a.parameters))) [
  | inl e ↦ rw e (
    λ k. inr ((scan_marked-nil_iff h a reqs h.markers).0 k),
    λ k. elim k [
      | inl f ↦ absurd (ground arith)
      | inr marked ↦ (scan_marked-nil_iff h a reqs h.markers).1 marked
    ],
  )
  | inr e ↦ rw e (λ k. inl refl, λ k. refl)
]

-- Every testable requirement of the package has assertions and, where the parameters ask for it, a
-- marker in the sources.
abbrev pub Traced : Sources → Fields → Assertion → Type 0
Traced h p a =
    (reqs : List (String × Json)) × (requirements_of
        (or_null (get_field "normative_requirements" p))
      ≡ some reqs)
    × All (Passes is_orphan) reqs
    × ((truthy? (get_field "marker_scan" a.parameters) ≡ false) ⊎ Marked h reqs)

-- The traceability evaluator is satisfied exactly when the package's requirements, if any, are
-- objects of which each testable one names assertions and, where the parameters ask for a marker
-- scan, has a marker in the sources under the subject root.
pub traceability_completeness-satisfied_iff :
    (h : Sources) (p : Fields) (a : Assertion) (facts : Dict Json)
    → (traceability_completeness h p a facts ≡ found []) ↔ Traced h p a
unfolding traceability_completeness trace_all
traceability_completeness-satisfied_iff h p a facts =
    go (requirements_of (or_null (get_field "normative_requirements" p)))
  where
    reqs_injective :
        {xs ys : List (String × Json)}
        → ◌≡◌ {A = Option (List (String × Json))} (some xs) (some ys)
        → xs ≡ ys
    reqs_injective k = cc

    both : {r q : Ran} → r ≡ found [] → q ≡ found [] → and_then r q ≡ found []
    both k l = rw (k, l) refl

    go :
        (o : Option (List (String × Json)))
        → (trace_all h a o ≡ found []) ↔ (
            (reqs : List (String × Json)) × (o ≡ some reqs)
            × All (Passes is_orphan) reqs
            × ((truthy? (get_field "marker_scan" a.parameters) ≡ false) ⊎ Marked h reqs))
    go none = (λ k. absurd (ground arith), λ k. absurd (ground arith))
    go (some reqs) =
        let orphans = scan-nil_iff is_orphan (λ rid. mk a "orphan-requirement" []) reqs in
        let markers = scan_markers-nil_iff h a reqs in
        (
          λ k.
              let (first, second) = and_then-nil _ _ k in
              (reqs, refl, orphans.0 first, markers.0 second),
          λ (other, is, named, marked).
              let same = reqs_injective is in
              both (orphans.1 (subst (All (Passes is_orphan)) (sym same) named)) (
                markers.1 (
                  subst
                    (λ rs. (truthy? (get_field "marker_scan" a.parameters) ≡ false) ⊎ Marked h rs)
                    (sym same) marked)),
        )

-- The release manifest is an object that does not claim the digest of what contains it.
abbrev pub Released : Sources → Fields → Type 0
Released h p =
    (m : Fields) × (or_null (get_field "release_manifest" p) ≡ obj m)
    × (is_self_referential h m ≡ false)

-- The release evaluator is satisfied exactly when the package has a release manifest that is an
-- object and whose subject digest, where it has one, is not the digest of its own payload.
pub release_claim_consistency-satisfied_iff :
    (h : Sources) (p : Fields) (a : Assertion) (facts : Dict Json)
    → (release_claim_consistency h p a facts ≡ found []) ↔ Released h p
unfolding release_claim_consistency check_manifest
release_claim_consistency-satisfied_iff h p a facts = go (or_null (get_field "release_manifest" p))
  where
    go :
        (j : Json)
        → (check_manifest h a j ≡ found [])
          ↔ ((m : Fields) × (j ≡ obj m) × (is_self_referential h m ≡ false))
    go (obj m) = elim (Bool-cases (is_self_referential h m)) [
      | inl e ↦
          rw e (λ k. absurd (ground arith), λ (other, is, not_own). absurd (own other is not_own e))
      | inr e ↦ rw e (λ k. (m, refl, e), λ k. refl)
    ]
      where
        own :
            (other : Fields)
            → obj m ≡ obj other
            → is_self_referential h other ≡ false
            → is_self_referential h m ≡ true
            → ⊥
        own other is not_own e =
            absurd (ground (arith, ap (is_self_referential h) (obj_injective is)))
    go _ = (λ k. absurd (ground arith), λ k. absurd (ground (arith, ap is_object k.1)))
