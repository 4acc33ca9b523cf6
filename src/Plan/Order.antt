-- ===== src/Plan/Order.antt =====
-- hub/coherence/plan.py: lists of assertions in the order of their dependencies.
use dev_gate_agentic_framewo.Common.{
  ◌≡◌, refl, String, true, false, List, [], ◌∷◌, ◌++◌, contains, ◌==◌, string_eq, ◌||◌, arith, All,
}
use dev_gate_agentic_framewo.Plan.{Assertion, ids}

-- Every dependency of every assertion stands before it, or among those seen.
abbrev pub Ordered : List String → List Assertion → Type 0
Ordered seen [] = Unit
Ordered seen (a ∷ as') =
    All (λ d. contains seen d ≡ true) a.dependencies × Ordered (a.id ∷ seen) as'

abbrev pub NodupIds : List Assertion → Type 0
NodupIds [] = Unit
NodupIds (a ∷ as') = (contains (ids as') a.id ≡ false) × NodupIds as'

pub contains-ids-snoc :
    (k : String) (as' : List Assertion) (a : Assertion)
    → contains (ids (as' ++ (a ∷ []))) k ≡ (contains (ids as') k || k == a.id)
contains-ids-snoc k [] a = ground arith
contains-ids-snoc k (b ∷ as') a = ground (arith, contains-ids-snoc k as' a)

pub Ordered-snoc :
    (seen : List String) (as' : List Assertion) (a : Assertion)
    → Ordered seen as'
    → All (λ d. (contains (ids as') d || contains seen d) ≡ true) a.dependencies
    → Ordered seen (as' ++ (a ∷ []))
Ordered-snoc seen [] a h k = (k, tt)
Ordered-snoc seen (b ∷ as') a h k =
    (h.0, Ordered-snoc (b.id ∷ seen) as' a h.1 (shift a.dependencies k))
  where
    shift :
        (ds : List String)
        → All (λ d. (contains (ids (b ∷ as')) d || contains seen d) ≡ true) ds
        → All (λ d. (contains (ids as') d || contains (b.id ∷ seen) d) ≡ true) ds
    shift [] h = tt
    shift (d ∷ ds) h = (ground arith, shift ds h.1)

pub NodupIds-snoc :
    (as' : List Assertion) (a : Assertion)
    → NodupIds as'
    → contains (ids as') a.id ≡ false
    → NodupIds (as' ++ (a ∷ []))
NodupIds-snoc [] a h k = (refl, tt)
NodupIds-snoc (b ∷ as') a h k =
    (rw contains-ids-snoc (ground arith), NodupIds-snoc as' a h.1 (ground arith))
