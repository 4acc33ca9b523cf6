-- ===== src/Adoption/Stages.antt =====
-- hub/coherence/adoption.py: the ladder at different stages.
use dev_gate_agentic_framewo.Common.{
  ℕ, ◌≡◌, refl, String, Bool, true, false, List, [], ◌∷◌, any, ◌||◌, ◌&&◌, arith, leb, not,
  Bool-cases, inl, inr, ◌≤◌, is_some, ◌∙◌, sym, contains, string_eq, nat_eq, ◌==◌,
}
use dev_gate_agentic_framewo.Common.Dict.{lookup}
use dev_gate_agentic_framewo.Ledger.{
  Row, Finding, Outcome, satisfied, violated, unresolved, Enforcement, advisory, exception_advisory,
  block, is_block,
}
use dev_gate_agentic_framewo.Adoption.Shelter.{
  Ladder, enforce_as, enforce, enforce_findings, print_finding, is_sheltered, shelter_ends,
}
use dev_gate_agentic_framewo.Adoption.Mirror.{
  mirror, findings_of, enforce_outcome, enforce_ledger, strictest, louder,
}
use dev_gate_agentic_framewo.Adoption.Evaluate.{apply_ladder}
use dev_gate_agentic_framewo.Adoption.Blocking.{finding_blocks, enforce_findings-flag}

abbrev pub at_stage : ℕ → Ladder → Ladder
at_stage n l = record l { stage = n }

-- When a finding blocks, said without the order of the code's tests.
abbrev pub must_block : Ladder → Finding → Bool
must_block l f =
    leb 2 l.stage
    && (contains l.cover.expired (print_finding l f)
        || (not (is_some (lookup (print_finding l f) l.cover.active))
            && not (is_sheltered l f.assertion_id (print_finding l f))))

-- From stage 2 on, a finding blocks exactly when an expired exception names it, or no active
-- exception covers it and the baseline does not shelter it; before stage 2 none does.
pub enforce-blocks : (l : Ladder) (f : Finding) → finding_blocks (enforce l f).0 ≡ must_block l f
unfolding enforce enforce_as
enforce-blocks l f = ground arith

print_finding-at_stage :
    (n : ℕ) (l : Ladder) (f : Finding) → print_finding (at_stage n l) f ≡ print_finding l f
unfolding print_finding
print_finding-at_stage n l f = refl

shelter_ends_mono :
    (m n : ℕ) (l : Ladder) (aid : String)
    → m ≤ n
    → shelter_ends (at_stage m l) aid ≡ true
    → shelter_ends (at_stage n l) aid ≡ true
unfolding shelter_ends nat_eq
shelter_ends_mono m n l aid h k = ground arith

enforce_mono :
    (m n : ℕ) (l : Ladder) (f : Finding)
    → m ≤ n
    → finding_blocks (enforce (at_stage m l) f).0 ≡ true
    → finding_blocks (enforce (at_stage n l) f).0 ≡ true
unfolding is_sheltered
enforce_mono m n l f h k =
    rw (enforce-blocks, print_finding-at_stage)
      (mono (print_finding l f) (rw (enforce-blocks, print_finding-at_stage) at k))
  where
    mono :
        (fp : String)
        → (leb 2 m
            && (contains l.cover.expired fp
                || (not (is_some (lookup fp l.cover.active))
                    && not (is_sheltered (at_stage m l) f.assertion_id fp))))
          ≡ true
        → (leb 2 n
            && (contains l.cover.expired fp
                || (not (is_some (lookup fp l.cover.active))
                    && not (is_sheltered (at_stage n l) f.assertion_id fp))))
          ≡ true
    mono fp b = ground (arith, shelter_ends_mono m n l f.assertion_id h)

pub enforce-assertion_id :
    (l : Ladder) (f : Finding) → (enforce l f).0.assertion_id ≡ f.assertion_id
unfolding enforce enforce_as
enforce-assertion_id l f = ground arith

-- The same findings, of which the second list blocks wherever the first does.
abbrev Sharper : List Finding → List Finding → Type 0
Sharper [] [] = Unit
Sharper (f ∷ fs) (g ∷ gs) =
    (f.assertion_id ≡ g.assertion_id)
    × (finding_blocks f ≡ true → finding_blocks g ≡ true)
    × Sharper fs gs
Sharper _ _ = ⊥

enforce_findings-Sharper :
    (m n : ℕ) (l : Ladder) (fs : List Finding)
    → m ≤ n
    → Sharper (enforce_findings (at_stage m l) fs).0 (enforce_findings (at_stage n l) fs).0
unfolding enforce_findings
enforce_findings-Sharper m n l [] h = tt
enforce_findings-Sharper m n l (f ∷ fs) h = (
  enforce-assertion_id (at_stage m l) f ∙ sym (enforce-assertion_id (at_stage n l) f),
  enforce_mono m n l f h,
  enforce_findings-Sharper m n l fs h,
)

findings_of-Sharper :
    (aid : String) (fs gs : List Finding)
    → Sharper fs gs
    → Sharper (findings_of aid fs) (findings_of aid gs)
unfolding findings_of
findings_of-Sharper aid [] [] h = tt
findings_of-Sharper aid [] (g ∷ gs) h = absurd h
findings_of-Sharper aid (f ∷ fs) [] h = absurd h
findings_of-Sharper aid (f ∷ fs) (g ∷ gs) (e, b, rest) = elim (Bool-cases (aid == f.assertion_id)) [
  | inl y ↦
      let z : (aid == g.assertion_id) ≡ true = rw (← e) y in
      rw (y, z) (e, b, findings_of-Sharper aid fs gs rest)
  | inr n ↦
      let z : (aid == g.assertion_id) ≡ false = rw (← e) n in
      rw (n, z) (findings_of-Sharper aid fs gs rest)
]

any-Sharper :
    (fs gs : List Finding)
    → Sharper fs gs
    → any finding_blocks fs ≡ true
    → any finding_blocks gs ≡ true
any-Sharper [] [] h k = k
any-Sharper [] (g ∷ gs) h k = absurd h
any-Sharper (f ∷ fs) [] h k = absurd h
any-Sharper (f ∷ fs) (g ∷ gs) (e, b, rest) k = ground (arith, any-Sharper fs gs rest)

louder-blocks : (a b : Enforcement) → is_block (louder a b) ≡ (is_block a || is_block b)
louder-blocks advisory b = ground arith
louder-blocks exception_advisory b = ground arith
louder-blocks block b = ground arith

pub strictest-blocks :
    (best : Enforcement) (fs : List Finding)
    → is_block (strictest best fs) ≡ (is_block best || any finding_blocks fs)
unfolding strictest
strictest-blocks best [] = ground arith
strictest-blocks best (f ∷ fs) =
    ground
      (arith, strictest-blocks (louder best f.enforcement) fs, louder-blocks best f.enforcement)

mirror-Sharper :
    (fs gs : List Finding) (e : Row)
    → Sharper fs gs
    → (mirror fs e).1 ≡ true
    → (mirror gs e).1 ≡ true
unfolding mirror
mirror-Sharper [] [] e h k = k
mirror-Sharper [] (g ∷ gs) e h k = absurd h
mirror-Sharper (f ∷ fs) [] e h k = absurd h
mirror-Sharper (f ∷ fs) (g ∷ gs) e h k =
    rw (strictest-blocks g.enforcement gs)
      (any-Sharper (f ∷ fs) (g ∷ gs) h (rw (strictest-blocks f.enforcement fs) at k))

enforce_outcome_mono :
    (m n : ℕ) (fs gs : List Finding) (o : Outcome) (e : Row)
    → m ≤ n
    → Sharper fs gs
    → (enforce_outcome m fs o e).1 ≡ true
    → (enforce_outcome n gs o e).1 ≡ true
unfolding enforce_outcome
enforce_outcome_mono m n fs gs satisfied e h k b = b
enforce_outcome_mono m n fs gs violated e h k b =
    mirror-Sharper (findings_of e.assertion_id fs) (findings_of e.assertion_id gs) e
      (findings_of-Sharper e.assertion_id fs gs k) b
enforce_outcome_mono m n fs gs unresolved e h k b = ground arith

enforce_ledger_mono :
    (m n : ℕ) (fs gs : List Finding) (es : List Row)
    → m ≤ n
    → Sharper fs gs
    → (enforce_ledger m fs es).1 ≡ true
    → (enforce_ledger n gs es).1 ≡ true
unfolding enforce_ledger
enforce_ledger_mono m n fs gs [] h k b = b
enforce_ledger_mono m n fs gs (e ∷ es) h k b =
    ground
      (arith, enforce_outcome_mono m n fs gs e.outcome e h k, enforce_ledger_mono m n fs gs es h k)

-- Raising the stage never unblocks a run: what the ladder blocks at one stage it blocks, with the
-- same baseline, exceptions and findings, at every later one.
pub apply_ladder_mono :
    (m n : ℕ) (l : Ladder) (ledger : List Row) (findings : List Finding)
    → m ≤ n
    → (apply_ladder (at_stage m l) ledger findings).blocked ≡ true
    → (apply_ladder (at_stage n l) ledger findings).blocked ≡ true
unfolding apply_ladder
apply_ladder_mono m n l ledger findings h k = ground (
  arith,
  enforce_findings-flag (at_stage m l) findings,
  enforce_findings-flag (at_stage n l) findings,
  any-Sharper (enforce_findings (at_stage m l) findings).0
      (enforce_findings (at_stage n l) findings).0 (enforce_findings-Sharper m n l findings h),
  enforce_ledger_mono m n (enforce_findings (at_stage m l) findings).0
      (enforce_findings (at_stage n l) findings).0 ledger h
      (enforce_findings-Sharper m n l findings h),
)
