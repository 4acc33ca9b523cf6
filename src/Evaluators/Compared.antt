-- ===== src/Evaluators/Compared.antt =====
-- hub/coherence/evaluators.py: when a loop over the subjects finds nothing.
use dev_gate_agentic_framewo.Common.{
  ◌≡◌, ◌↔◌, refl, String, Bool, true, false, not, Option, none, some, List, [], ◌∷◌, string_eq, All,
  arith, Bool-cases, inl, inr,
}
use dev_gate_agentic_framewo.Common.Json.{Json, obj, Fields, get_field, or_null}
use dev_gate_agentic_framewo.Ledger.{Finding}
use dev_gate_agentic_framewo.Plan.{Assertion, Selector}
use dev_gate_agentic_framewo.Evaluation.{Ran, found, undecided, crashed}
use dev_gate_agentic_framewo.Evaluators.{
  Sources, dig, is_none, loc, mk, Observed, skipped, stopped, value, and_found, compare_all,
  use_approved, with_approved,
}

-- The subject is passed over, or its value is the approved one.
abbrev pub Agrees : Sources → Json → Observed → Type 0
Agrees h approved skipped = Unit
Agrees h approved (stopped r) = ⊥
Agrees h approved (value v) = h.same v approved ≡ true

-- Whoever stops the loop has found nothing: it raises.
abbrev pub Raises : Observed → Type 0
Raises (stopped (found fs)) = ⊥
Raises _ = Unit

pub and_found-nil :
    (b : Bool) (f : Finding) (r : Ran) → and_found b f r ≡ found [] → (b ≡ false) × (r ≡ found [])
and_found-nil true f (found fs) h = absurd (ground arith)
and_found-nil true f (undecided w) h = absurd (ground arith)
and_found-nil true f (crashed w) h = absurd (ground arith)
and_found-nil false f r h = (refl, h)

not-false : (b : Bool) → not b ≡ false → b ≡ true
not-false b h = ground arith

module _ (h : Sources) (a : Assertion) (c : String) (approved : Json)
    (observe : Selector → Observed) where
  compare_one : Selector → Ran → Observed → Ran
  compare_one s rest o = elim o [
    | skipped ↦ rest
    | stopped r ↦ r
    | value v ↦ and_found (not (h.same v approved)) (mk a c (loc s ∷ [])) rest
  ]

  compare_one-nil :
      (s : Selector) (rest : Ran) (o : Observed)
      → Raises o
      → compare_one s rest o ≡ found []
      → Agrees h approved o × (rest ≡ found [])
  unfolding compare_one
  compare_one-nil s rest skipped raising k = (tt, k)
  compare_one-nil s rest (stopped (found fs)) raising k = absurd raising
  compare_one-nil s rest (stopped (undecided w)) raising k = absurd (ground arith)
  compare_one-nil s rest (stopped (crashed w)) raising k = absurd (ground arith)
  compare_one-nil s rest (value v) raising k =
      let (same, nothing) = and_found-nil (not (h.same v approved)) (mk a c (loc s ∷ [])) rest k in
      (not-false (h.same v approved) same, nothing)

  compare_one-Agrees :
      (s : Selector) (rest : Ran) (o : Observed)
      → Agrees h approved o
      → rest ≡ found []
      → compare_one s rest o ≡ found []
  unfolding compare_one
  compare_one-Agrees s rest skipped agree k = k
  compare_one-Agrees s rest (stopped r) agree k = absurd agree
  compare_one-Agrees s rest (value v) agree k = rw agree k

  pub compare_all-nil_iff :
      (ss : List Selector)
      → ((s : Selector) → Raises (observe s))
      → (compare_all h a c approved observe ss ≡ found [])
        ↔ All (λ s. Agrees h approved (observe s)) ss
  unfolding compare_all compare_one
  compare_all-nil_iff [] raising = (λ k. tt, λ k. refl)
  compare_all-nil_iff (s ∷ ss) raising =
      let rest = compare_all-nil_iff ss raising in
      (
        λ k.
            let (agree, nothing) = compare_one-nil s _ (observe s) (raising s) k in
            (agree, rest.0 nothing),
        λ k. compare_one-Agrees s _ (observe s) k.0 (rest.1 k.1),
      )

-- The parameters refer to a value of the package, and it is this one.
abbrev pub IsApprovedValue : Fields → Assertion → Json → Type 0
IsApprovedValue p a approved =
    (dig (obj p) (or_null (get_field "approved_value_ref" a.parameters)) ≡ some approved)
    × (is_none approved ≡ false)

use_approved-nil :
    (h : Sources) (a : Assertion) (k : Json → Ran) (o : Option Json)
    → use_approved h a k o ≡ found []
    → (approved : Json) × (o ≡ some approved) × (is_none approved ≡ false) × (k approved ≡ found [])
unfolding use_approved
use_approved-nil h a k none r = absurd (ground arith)
use_approved-nil h a k (some approved) r = elim (Bool-cases (is_none approved)) [
  | inl e ↦ absurd (not_found (rw e at r))
  | inr e ↦ (approved, refl, e, rw e at r)
]
  where
    not_found : {w : String} → undecided w ≡ found [] → ⊥
    not_found e = cc

use_approved-found :
    (h : Sources) (a : Assertion) (k : Json → Ran) (o : Option Json) (approved : Json)
    → o ≡ some approved
    → is_none approved ≡ false
    → k approved ≡ found []
    → use_approved h a k o ≡ found []
unfolding use_approved
use_approved-found h a k o approved there some' r = rw (there, some') r

pub with_approved-nil_iff :
    (h : Sources) (p : Fields) (a : Assertion) (k : Json → Ran)
    → (with_approved h p a k ≡ found [])
      ↔ ((approved : Json) × IsApprovedValue p a approved × (k approved ≡ found []))
unfolding with_approved
with_approved-nil_iff h p a k = (
  λ r.
      let (approved, there, some', nothing) = use_approved-nil h a k _ r in
      (approved, (there, some'), nothing),
  λ (approved, (there, some'), nothing). use_approved-found h a k _ approved there some' nothing,
)

pub All-iff :
    {A : Type 0} (P Q : A → Type 0) (xs : List A) → ((x : A) → P x ↔ Q x) → All P xs ↔ All Q xs
All-iff P Q [] h = (λ k. tt, λ k. tt)
All-iff P Q (x ∷ xs) h =
    let rest = All-iff P Q xs h in (λ k. ((h x).0 k.0, rest.0 k.1), λ k. ((h x).1 k.0, rest.1 k.1))
