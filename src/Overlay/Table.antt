-- ===== src/Overlay/Table.antt =====
-- hub/coherence/policy.py: fields that `apply_overlay` sets, and the checks before it does.
use dev_gate_agentic_framewo.Common.{
  ℕ, ◌≡◌, ◌∙◌, refl, sym, ◌⊎◌, inl, inr, String, Bool, true, false, ◌||◌, Option, none, some, ◌==◌,
  string_eq, if◌then◌else◌, leb, contains, arith, Bool-cases,
}
use mathlib.Core.Path.{subst}
use dev_gate_agentic_framewo.Common.Json.{Json, str, obj, Fields, end, field, get_field}
use dev_gate_agentic_framewo.Common.Dict.{lookup}
use dev_gate_agentic_framewo.Common.Result.{Result, ok, err, ok_injective, >>=-ok}
use dev_gate_agentic_framewo.Adoption.Sets.{severity_rank}
use dev_gate_agentic_framewo.Overlay.{
  Entry, Central, OverlayError, set_field, check_floor, check_severity, is_none_approved,
  check_evaluator_id, check_evaluator, change_field, change_target,
}

pub get_field-set_field :
    (j k : String) (v : Json) (f : Fields)
    → get_field j (set_field k v f) ≡ (if j == k then some v else get_field j f)
unfolding get_field set_field
get_field-set_field j k v end = refl
get_field-set_field j k v (field i w rest) = ground (arith, get_field-set_field j k v rest)

-- The rank is no lower than the floor.
abbrev pub reaches : ℕ → Option String → Bool
reaches rank none = true
reaches rank (some floor) =
    floor == "" || (elim (severity_rank floor) [ none ↦ false | some least ↦ leb least rank ])

abbrev pub reaches_floor : Central → String → ℕ → Bool
reaches_floor c aid rank = reaches rank (lookup aid c.floors)

-- The value is a known severity that reaches the floor.
abbrev pub MeetsFloor : Central → String → Json → Type 0
MeetsFloor c aid new =
    (s : String) × (rank : ℕ) × (new ≡ str s)
    × (severity_rank s ≡ some rank)
    × (reaches_floor c aid rank ≡ true)

-- The value names an evaluator that central policy approves, if it lists any.
abbrev pub IsApproved : Central → Json → Type 0
IsApproved c ev =
    (eid : String) × (fields : Fields) × (ev ≡ obj fields)
    × (get_field "id" fields ≡ some (str eid))
    × ((is_none_approved c.approved || contains c.approved eid) ≡ true)

check_floor-reaches :
    (aid : String) (rank : ℕ) (o : Option String) (u : Unit {0})
    → check_floor aid rank o ≡ ok u
    → reaches rank o ≡ true
unfolding check_floor
check_floor-reaches aid rank none u h = refl
check_floor-reaches aid rank (some floor) u h = ground arith

pub check_severity-MeetsFloor :
    (c : Central) (aid : String) (new : Json) (u : Unit {0})
    → check_severity c aid new ≡ ok u
    → MeetsFloor c aid new
unfolding check_severity
check_severity-MeetsFloor c aid (str s) u h = go (severity_rank s) refl h
  where
    go :
        (o : Option ℕ)
        → severity_rank s ≡ o
        → (elim o as (λ x. Result OverlayError (Unit {0})) [
          | none ↦ err (OverlayError.unknown_severity aid)
          | some rank ↦ check_floor aid rank (lookup aid c.floors)
        ])
          ≡ ok u
        → MeetsFloor c aid (str s)
    go none k h = absurd (ground arith)
    go (some rank) k h = (s, rank, refl, k, check_floor-reaches aid rank (lookup aid c.floors) u h)
check_severity-MeetsFloor c aid _ u h = absurd (ground arith)

pub check_evaluator-IsApproved :
    (c : Central) (aid : String) (ev : Json) (u : Unit {0})
    → check_evaluator c aid ev ≡ ok u
    → IsApproved c ev
unfolding check_evaluator check_evaluator_id
check_evaluator-IsApproved c aid (obj fields) u h = go (get_field "id" fields) refl h
  where
    go :
        (o : Option Json)
        → get_field "id" fields ≡ o
        → (elim o as (λ x. Result OverlayError (Unit {0})) [
          | some (str eid) ↦ check_evaluator_id c aid eid
          | _ ↦ err (OverlayError.malformed_evaluator aid)
        ])
          ≡ ok u
        → IsApproved c (obj fields)
    go (some (str eid)) k h = (eid, fields, refl, k, ground arith)
    go _ k h = absurd (ground arith)
check_evaluator-IsApproved c aid _ u h = absurd (ground arith)

-- A change leaves the target as it is, or sets a value that has passed its check.
change_field-cases :
    (key : String) (check : Json → Result OverlayError (Unit {0})) (o : Option Json) (f g : Fields)
    → change_field key check o f ≡ ok g
    → (g ≡ f) ⊎ ((v : Json) × (check v ≡ ok tt) × (g ≡ set_field key v f))
unfolding change_field
change_field-cases key check none f g h = inl (sym (ok_injective h))
change_field-cases key check (some v) f g h =
    let (u, done, passed) = >>=-ok (check v) h in inr (v, passed, sym (ok_injective done))

abbrev pub severity_of : Fields → Option Json
severity_of f = get_field "severity" f

abbrev pub evaluator_of : Fields → Option Json
evaluator_of f = get_field "evaluator" f

-- Every field but the two that an overlay may set is the old one.
abbrev pub SameElsewhere : Fields → Fields → Type 0
SameElsewhere f g =
    (key : String)
    → (key ≡ "severity") ⊎ ((key ≡ "evaluator") ⊎ (get_field key g ≡ get_field key f))

SameElsewhere-set_field :
    (k : String) (v : Json) (f : Fields)
    → (k ≡ "severity") ⊎ (k ≡ "evaluator")
    → SameElsewhere f (set_field k v f)
SameElsewhere-set_field k v f named key = elim (Bool-cases (key == k)) [
  | inl e ↦ elim named [
    | inl p ↦ inl (same_text key k e ∙ p)
    | inr p ↦ inr (inl (same_text key k e ∙ p))
  ]
  | inr e ↦ inr (inr (get_field-set_field key k v f ∙ rw e refl))
]
  where
    same_text : (a b : String) → (a == b) ≡ true → a ≡ b
    same_text a b h = ground arith

SameElsewhere-trans : (f g h : Fields) → SameElsewhere f g → SameElsewhere g h → SameElsewhere f h
SameElsewhere-trans f g h p q key = go (p key) (q key)
  where
    go :
        (key ≡ "severity") ⊎ ((key ≡ "evaluator") ⊎ (get_field key g ≡ get_field key f))
        → (key ≡ "severity") ⊎ ((key ≡ "evaluator") ⊎ (get_field key h ≡ get_field key g))
        → (key ≡ "severity") ⊎ ((key ≡ "evaluator") ⊎ (get_field key h ≡ get_field key f))
    go (inr (inr a)) (inr (inr b)) = inr (inr (b ∙ a))
    go (inl a) _ = inl a
    go (inr (inl a)) _ = inr (inl a)
    go _ (inl b) = inl b
    go _ (inr (inl b)) = inr (inl b)

-- The severity is the old one or a new one that reaches the floor, the evaluator is the old one or a
-- new one that is approved, and every other field is the old one.
abbrev pub Kept : Central → String → Fields → Fields → Type 0
Kept c k f g =
    ((severity_of g ≡ severity_of f) ⊎ ((v : Json) × (severity_of g ≡ some v) × MeetsFloor c k v))
    × ((evaluator_of g ≡ evaluator_of f)
        ⊎ ((v : Json) × (evaluator_of g ≡ some v) × IsApproved c v))
    × SameElsewhere f g

pub Kept-refl : (c : Central) (k : String) (f : Fields) → Kept c k f f
Kept-refl c k f = (inl refl, inl refl, λ key. inr (inr refl))

either_trans :
    {x y z : Option Json} (P : Json → Type 0)
    → (y ≡ x) ⊎ ((v : Json) × (y ≡ some v) × P v)
    → (z ≡ y) ⊎ ((v : Json) × (z ≡ some v) × P v)
    → (z ≡ x) ⊎ ((v : Json) × (z ≡ some v) × P v)
either_trans P _ (inr new) = inr new
either_trans P (inl p) (inl q) = inl (q ∙ p)
either_trans P (inr (v, p, k)) (inl q) = inr (v, q ∙ p, k)

pub Kept-trans :
    (c : Central) (k : String) (f g h : Fields) → Kept c k f g → Kept c k g h → Kept c k f h
Kept-trans c k f g h p q = (
  either_trans (MeetsFloor c k) p.0 q.0,
  either_trans (IsApproved c) p.1 q.1,
  SameElsewhere-trans f g h p.2 q.2,
)

pub change_target-Kept :
    (c : Central) (x : Entry) (f g : Fields) → change_target c x f ≡ ok g → Kept c x.id f g
unfolding change_target string_eq
change_target-Kept c x f g h =
    let (m, second, first) =
      >>=-ok (change_field "severity" (check_severity c x.id) (get_field "severity" x.fields) f)
        h in
    Kept-trans c x.id f m g (severity_step m (change_field-cases "severity" _ _ f m first))
      (evaluator_step m (change_field-cases "evaluator" _ _ m g second))
  where
    severity_step :
        (m : Fields)
        → (m ≡ f)
          ⊎ ((v : Json) × (check_severity c x.id v ≡ ok tt) × (m ≡ set_field "severity" v f))
        → Kept c x.id f m
    severity_step m (inl p) = subst (Kept c x.id f) (sym p) (Kept-refl c x.id f)
    severity_step m (inr (v, k, p)) = subst (Kept c x.id f) (sym p) (
      inr (
        v,
        get_field-set_field "severity" "severity" v f,
        check_severity-MeetsFloor c x.id v tt k,
      ),
      inl (get_field-set_field "evaluator" "severity" v f),
      SameElsewhere-set_field "severity" v f (inl refl),
    )

    evaluator_step :
        (m : Fields)
        → (g ≡ m)
          ⊎ ((v : Json) × (check_evaluator c x.id v ≡ ok tt) × (g ≡ set_field "evaluator" v m))
        → Kept c x.id m g
    evaluator_step m (inl p) = subst (Kept c x.id m) (sym p) (Kept-refl c x.id m)
    evaluator_step m (inr (v, k, p)) = subst (Kept c x.id m) (sym p) (
      inl (get_field-set_field "severity" "evaluator" v m),
      inr (
        v,
        get_field-set_field "evaluator" "evaluator" v m,
        check_evaluator-IsApproved c x.id v tt k,
      ),
      SameElsewhere-set_field "evaluator" v m (inr refl),
    )
