-- ===== src/Registry/Rows.antt =====
-- Rows by name: what a search finds after a row was written or added.
use dev_gate_agentic_framewo.Common.{
  ◌≡◌, refl, Option, none, some, List, [], ◌∷◌, ◌++◌, map, length, String, ◌==◌, string_eq, arith,
  if◌then◌else◌, Bool-cases, inl, inr,
}
use dev_gate_agentic_framewo.Common.Json.{Json, str}
use dev_gate_agentic_framewo.Registry.{Runner, named, find_in, update_in}

abbrev pub row_name : Runner → String
row_name r = r.name

abbrev pub names : List Runner → List String
names rs = map row_name rs

-- Every two rows have different names.
abbrev pub NodupNames : List Runner → Type 0
NodupNames [] = Unit
NodupNames (r ∷ rs) = (find_in (str r.name) rs ≡ none) × NodupNames rs

abbrev pub on_row : (Runner → Runner) → Option Runner → Option Runner
on_row f none = none
on_row f (some r) = some (f r)

abbrev pub or_else : Option Runner → Option Runner → Option Runner
or_else none b = b
or_else (some r) b = some r

pub find_in-append :
    (x : Json) (rs ss : List Runner) → find_in x (rs ++ ss) ≡ or_else (find_in x rs) (find_in x ss)
unfolding find_in
find_in-append x [] ss = refl
find_in-append x (r ∷ rs) ss = ground (arith, find_in-append x rs ss)

module _ (f : Runner → Runner) (same_name : (r : Runner) → (f r).name ≡ r.name) where
  named-same_name : (y : Json) (r : Runner) → named y (f r) ≡ named y r
  unfolding named
  named-same_name (str s) r = rw same_name
  named-same_name _ r = refl

  pub find_in-update_in :
      (x y : String) (rs : List Runner)
      → find_in (str x) (update_in (str y) f rs)
        ≡ (if x == y then on_row f (find_in (str x) rs) else find_in (str x) rs)
  unfolding find_in update_in named
  find_in-update_in x y [] = ground arith
  find_in-update_in x y (r ∷ rs) = ground (arith, find_in-update_in x y rs, same_name r)

  find_in-none_update :
      (x y : Json) (rs : List Runner) → find_in x rs ≡ none → find_in x (update_in y f rs) ≡ none
  unfolding find_in update_in
  find_in-none_update x y [] h = refl
  find_in-none_update x y (r ∷ rs) h =
      ground (arith, find_in-none_update x y rs, named-same_name x r)

  pub update_in-NodupNames :
      (y : Json) (rs : List Runner) → NodupNames rs → NodupNames (update_in y f rs)
  unfolding update_in
  update_in-NodupNames y [] u = tt
  update_in-NodupNames y (r ∷ rs) (fresh, u) = elim (Bool-cases (named y r)) [
    | inl here ↦ rw here (rw same_name fresh, u)
    | inr there ↦
        rw there (find_in-none_update (str r.name) y rs fresh, update_in-NodupNames y rs u)
  ]

pub names-update_in :
    (y : Json) (f : Runner → Runner) (rs : List Runner)
    → ((r : Runner) → (f r).name ≡ r.name)
    → names (update_in y f rs) ≡ names rs
unfolding update_in
names-update_in y f [] same_name = refl
names-update_in y f (r ∷ rs) same_name = elim (Bool-cases (named y r)) [
  | inl here ↦ rw (here, same_name) refl
  | inr there ↦ rw (there, names-update_in y f rs same_name) refl
]

pub length-update_in :
    (y : Json) (f : Runner → Runner) (rs : List Runner) → length (update_in y f rs) ≡ length rs
unfolding update_in
length-update_in y f [] = refl
length-update_in y f (r ∷ rs) = ground (arith, length-update_in y f rs)

find_in-snoc_none :
    (x : String) (rs : List Runner) (r : Runner)
    → find_in (str x) rs ≡ none
    → (r.name ≡ x → ⊥)
    → find_in (str x) (rs ++ (r ∷ [])) ≡ none
unfolding find_in named
find_in-snoc_none x [] r h ne = ground arith
find_in-snoc_none x (s ∷ rs) r h ne = ground (arith, find_in-snoc_none x rs r)

pub append-NodupNames :
    (rs : List Runner) (r : Runner)
    → find_in (str r.name) rs ≡ none
    → NodupNames rs
    → NodupNames (rs ++ (r ∷ []))
unfolding find_in named
append-NodupNames [] r h u = (refl, tt)
append-NodupNames (s ∷ rs) r h (fresh, u) = elim (Bool-cases (r.name == s.name)) [
  | inl same ↦ ground arith
  | inr other ↦ (
    find_in-snoc_none s.name rs r fresh (λ e. ground arith),
    append-NodupNames rs r (ground arith) u,
  )
]
