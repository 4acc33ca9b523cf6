-- ===== src/Plan/Unmarked.antt =====
-- hub/coherence/plan.py: the assertions that `visit` has not marked yet, as a measure.
use dev_gate_agentic_framewo.Common.{
  ℕ, ◌≤◌, ◌<◌, ◌≡◌, String, Bool, true, not, none, some, is_some, List, [], ◌∷◌, count,
  count-le-length, length, contains, string_eq, arith, Option-cases, inl, inr,
}
use dev_gate_agentic_framewo.Common.Dict.{Dict, lookup, insert, lookup-insert}
use dev_gate_agentic_framewo.Plan.{Assertion, ids, Mark, find_assertion}

-- Marks are never taken back.
abbrev pub Keeps : Dict Mark → Dict Mark → Type 0
Keeps d d' = (k : String) (m : Mark) → lookup k d ≡ some m → lookup k d' ≡ some m

abbrev pub is_unmarked : Dict Mark → Assertion → Bool
is_unmarked d a = not (is_some (lookup a.id d))

abbrev pub unmarked : List Assertion → Dict Mark → ℕ
unmarked as' d = count (is_unmarked d) as'

pub unmarked-le_of_Keeps :
    (as' : List Assertion) (d d' : Dict Mark) → Keeps d d' → unmarked as' d' ≤ unmarked as' d
unmarked-le_of_Keeps [] d d' h = omega arith
unmarked-le_of_Keeps (a ∷ as') d d' h = elim (Option-cases (lookup a.id d)) [
  | inl e ↦ ground (arith, unmarked-le_of_Keeps as' d d' h)
  | inr (m, e) ↦ rw (e, h a.id m e) (omega (arith, unmarked-le_of_Keeps as' d d' h))
]

pub unmarked-insert_le :
    (as' : List Assertion) (k : String) (m : Mark) (d : Dict Mark)
    → unmarked as' (insert k m d) ≤ unmarked as' d
unmarked-insert_le [] k m d = omega arith
unmarked-insert_le (a ∷ as') k m d =
    ground (arith, lookup-insert a.id k m d, unmarked-insert_le as' k m d)

-- Marking an assertion that had no mark leaves fewer without one.
pub unmarked-insert_lt :
    (as' : List Assertion) (k : String) (m : Mark) (d : Dict Mark)
    → contains (ids as') k ≡ true
    → lookup k d ≡ none
    → unmarked as' (insert k m d) < unmarked as' d
unmarked-insert_lt [] k m d h e = absurd (ground arith)
unmarked-insert_lt (a ∷ as') k m d h e =
    ground
      (arith, lookup-insert a.id k m d, unmarked-insert_le as' k m d, unmarked-insert_lt as' k m d)

pub unmarked-nil : (as' : List Assertion) → unmarked as' [] ≤ length as'
unmarked-nil as' = count-le-length (is_unmarked []) as'

-- `by_id[aid]` is an assertion of the package, with that id.
pub find_assertion-id :
    (k : String) (as' : List Assertion) (a : Assertion)
    → find_assertion k as' ≡ some a
    → (a.id ≡ k) × (contains (ids as') k ≡ true)
unfolding find_assertion
find_assertion-id k [] a h = absurd (ground arith)
find_assertion-id k (b ∷ as') a h = ground (arith, find_assertion-id k as' a)
