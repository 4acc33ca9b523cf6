-- ===== src/Decision.antt =====
-- hub/coherence/result.py: the decision and exit code of a run, and the summary of its ledger.
pub mod Matrix
use dev_gate_agentic_framewo.Common.{
  ℕ, ◌+◌, String, Bool, true, false, Option, none, some, List, [], ◌∷◌, count, length, any, ◌==◌,
  string_eq, nat_eq, if◌then◌else◌, ◌&&◌, ◌||◌,
}
use dev_gate_agentic_framewo.Ledger.{Row, Outcome, is_satisfied, is_violated, is_unresolved}

pub data Decision : Type 0 where
  pass advisory fail error : Decision

abbrev pub exit_pass : ℕ
exit_pass = 0

abbrev pub exit_advisory : ℕ
exit_advisory = 10

abbrev pub exit_fail : ℕ
exit_fail = 20

abbrev pub exit_invalid_input : ℕ
exit_invalid_input = 30

abbrev pub exit_policy : ℕ
exit_policy = 31

abbrev pub exit_execution : ℕ
exit_execution = 32

abbrev pub exit_evidence : ℕ
exit_evidence = 33

abbrev pub exit_protocol : ℕ
exit_protocol = 40

-- `exit_map.get(error_class, EXIT_EXECUTION)`
unfoldable pub exit_of_class : String → ℕ
exit_of_class c =
    if c == "invalid-input"
    then exit_invalid_input
    else if c == "policy-resolution"
    then exit_policy
    else if c == "evaluator"
    then exit_execution
    else if c == "execution"
    then exit_execution
    else if c == "evidence"
    then exit_evidence
    else if c == "attestation"
    then exit_evidence
    else if c == "protocol"
    then exit_protocol
    else exit_execution

-- `stage in {2, 3, 4}`
abbrev pub in_block_stages : ℕ → Bool
in_block_stages stage = stage == 2 || stage == 3 || stage == 4

abbrev pub row_violated : Row → Bool
row_violated e = is_violated e.outcome

abbrev pub row_unresolved : Row → Bool
row_unresolved e = is_unresolved e.outcome

abbrev pub row_satisfied : Row → Bool
row_satisfied e = is_satisfied e.outcome

-- `violated or unresolved`, of the two lists
abbrev pub open_rows : List Row → Bool
open_rows ledger = any row_violated ledger || any row_unresolved ledger

-- The ladder's verdict, or the stage's where no verdict is given.
abbrev pub is_blocked : List Row → ℕ → Option Bool → Bool
is_blocked ledger stage none = in_block_stages stage && open_rows ledger
is_blocked ledger stage (some verdict) = verdict

unfoldable pub decide_rows : List Row → Bool → Decision × ℕ
decide_rows ledger blocked =
    if blocked
    then (fail, exit_fail)
    else if open_rows ledger
    then (advisory, exit_advisory)
    else (pass, exit_pass)

-- An empty error class is no error.
unfoldable pub decide : List Row → ℕ → Option String → Option Bool → Decision × ℕ
unfolding decide_rows exit_of_class
decide ledger stage none blocked = decide_rows ledger (is_blocked ledger stage blocked)
decide ledger stage (some c) blocked =
    if c == ""
    then decide_rows ledger (is_blocked ledger stage blocked)
    else (error, exit_of_class c)

pub record Summary : Type 0 where
  pub planned : ℕ
  pub satisfied : ℕ
  pub violated : ℕ
  pub unresolved : ℕ

unfoldable pub summary : List Row → Summary
summary ledger = record {
  planned = length ledger;
  satisfied = count row_satisfied ledger;
  violated = count row_violated ledger;
  unresolved = count row_unresolved ledger;
}
