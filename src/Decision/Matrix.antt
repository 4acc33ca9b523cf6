-- ===== src/Decision/Matrix.antt =====
-- What a decision and its exit code say of the run.
use dev_gate_agentic_framewo.Common.{
  ℕ, ◌+◌, ◌≤◌, ◌≡◌, ◌↔◌, refl, String, Bool, true, false, Option, none, some, List, [], ◌∷◌, count,
  length, all, ◌==◌, string_eq, nat_eq, arith, Bool-cases, inl, inr,
}
use dev_gate_agentic_framewo.Ledger.{Row, Outcome}
use dev_gate_agentic_framewo.Decision.{
  Decision, pass, advisory, fail, error, decide, decide_rows, exit_of_class, open_rows, is_blocked,
  row_satisfied, row_violated, row_unresolved, summary,
}

summary-partition_at :
    (ledger : List Row)
    → count row_satisfied ledger + count row_violated ledger + count row_unresolved ledger
      ≡ length ledger
summary-partition_at [] = refl
summary-partition_at (e ∷ es) = ground (arith, summary-partition_at es)

-- The summary's three counts add up to the number of planned assertions: each row is counted once.
pub summary-partition :
    (ledger : List Row)
    → (summary ledger).satisfied + (summary ledger).violated + (summary ledger).unresolved
      ≡ (summary ledger).planned
unfolding summary
summary-partition = summary-partition_at

closed_iff : (ledger : List Row) → (open_rows ledger ≡ false) ↔ (all row_satisfied ledger ≡ true)
closed_iff [] = (λ h. refl, λ h. refl)
closed_iff (e ∷ es) = go e.outcome refl (closed_iff es)
  where
    go :
        (o : Outcome)
        → e.outcome ≡ o
        → ((open_rows es ≡ false) ↔ (all row_satisfied es ≡ true))
        → (open_rows (e ∷ es) ≡ false) ↔ (all row_satisfied (e ∷ es) ≡ true)
    go o h ih = (λ k. ground (arith, ih.0), λ k. ground (arith, ih.1))

-- No error class, or an empty one.
abbrev pub no_error : Option String → Bool
no_error none = true
no_error (some c) = c == ""

decide_rows-pass_iff :
    (ledger : List Row) (blocked : Bool)
    → ((decide_rows ledger blocked).1 ≡ 0) ↔ ((blocked ≡ false) × (all row_satisfied ledger ≡ true))
unfolding decide_rows
decide_rows-pass_iff ledger true = (λ h. cc, λ h. cc (h.0))
decide_rows-pass_iff ledger false =
    (λ h. (refl, (closed_iff ledger).0 (ground arith)), λ h. rw ((closed_iff ledger).1 h.1))

pub exit_of_class-bounds : (c : String) → 30 ≤ exit_of_class c
unfolding exit_of_class
exit_of_class-bounds c = ground arith

-- A run exits 0 exactly when it has no error class, no verdict blocks it, and every assertion of
-- its ledger is SATISFIED.
pub decide-pass_iff :
    (ledger : List Row) (stage : ℕ) (error_class : Option String) (blocked : Option Bool)
    → ((decide ledger stage error_class blocked).1 ≡ 0) ↔ (
        (no_error error_class ≡ true)
        × (is_blocked ledger stage blocked ≡ false)
        × (all row_satisfied ledger ≡ true))
unfolding decide
decide-pass_iff ledger stage none blocked =
    let rows = decide_rows-pass_iff ledger (is_blocked ledger stage blocked) in
    (λ h. (refl, (rows.0 h).0, (rows.0 h).1), λ h. rows.1 (h.1, h.2))
decide-pass_iff ledger stage (some c) blocked =
    let rows = decide_rows-pass_iff ledger (is_blocked ledger stage blocked) in
    elim (Bool-cases (c == "")) [
      | inl e ↦ rw e (λ h. (refl, (rows.0 h).0, (rows.0 h).1), λ h. rows.1 (h.1, h.2))
      | inr e ↦ rw e (λ h. absurd (omega (arith, exit_of_class-bounds c)), λ h. cc (h.0))
    ]

abbrev pub Agree : Decision × ℕ → Type 0
Agree (pass, code) = code ≡ 0
Agree (advisory, code) = code ≡ 10
Agree (fail, code) = code ≡ 20
Agree (error, code) = 30 ≤ code

decide_rows-Agree : (ledger : List Row) (blocked : Bool) → Agree (decide_rows ledger blocked)
unfolding decide_rows
decide_rows-Agree ledger true = refl
decide_rows-Agree ledger false = elim (Bool-cases (open_rows ledger)) [
  | inl o ↦ rw o
  | inr o ↦ rw o
]

-- The decision and the exit code always say the same: PASS is 0, ADVISORY 10, FAIL 20, and ERROR is
-- a code from 30 on.
pub decide-Agree :
    (ledger : List Row) (stage : ℕ) (error_class : Option String) (blocked : Option Bool)
    → Agree (decide ledger stage error_class blocked)
unfolding decide
decide-Agree ledger stage none blocked = decide_rows-Agree ledger (is_blocked ledger stage blocked)
decide-Agree ledger stage (some c) blocked = elim (Bool-cases (c == "")) [
  | inl e ↦ rw e (decide_rows-Agree ledger (is_blocked ledger stage blocked))
  | inr e ↦ rw e (exit_of_class-bounds c)
]
