-- ===== src/Examples/Claims.antt =====
-- A claim that an independent verifier confirms, one that fails, and their staleness.
use dev_gate_agentic_framewo.Common.{
  ◌≡◌, ◌↔◌, refl, String, true, none, some, List, [], ◌∷◌, nat_eq, option_eq, string_eq,
}
use dev_gate_agentic_framewo.Common.Dict.{Dict, NodupKeys, lookup, insert}
use dev_gate_agentic_framewo.Common.Json.{null}
use dev_gate_agentic_framewo.Claim.{
  attempted, verified, failed, state_eq, can_transition, Claim, Answer, new_claim, transition, bind,
  attach_evidence, verify_independently, record_answer, is_stale, staleness, revalidate,
  apply_table, moved, drifted,
}
use dev_gate_agentic_framewo.Claim.History.{
  Op, move, anchor, attach, certify, run, HasVerdict, run-verified,
}
use dev_gate_agentic_framewo.Claim.Freshness.{Matches, Revalidated, revalidate-verified_iff}

abbrev yes : Claim → Answer
yes c = record { name = "suite"; ok = true; observation = null; observed_after = none }

abbrev observed_digests : Dict String
observed_digests = ("subject", "d1") ∷ []

abbrev work : List Op
work =
    move verified "trust me"
    ∷ move attempted "started"
    ∷ anchor "subject" "d1"
    ∷ attach "log.txt"
    ∷ certify yes (some observed_digests) "confirmed"
    ∷ []

abbrev built : Claim
built = run (new_claim "c1" "r1" none "alice") work

built-verified : built.state ≡ verified
unfolding new_claim transition bind attach_evidence verify_independently record_answer is_stale
    staleness apply_table moved can_transition state_eq drifted string_eq insert option_eq lookup
built-verified = refl

run-verified_example : HasVerdict built
run-verified_example = run-verified "c1" "r1" "alice" none work built-verified

abbrev broken : Claim
broken = record {
  claim_id = "c2";
  requirement = "r1";
  state = failed;
  actor = some "bob";
  subject_digest = none;
  bound_digests = ("subject", "d1") ∷ ("policy", "p1") ∷ [];
  evidence_refs = [];
  independent_verification = none;
  transitions = [];
}

broken-NodupKeys : NodupKeys broken.bound_digests
unfolding lookup string_eq
broken-NodupKeys = (refl, (refl, tt))

revalidate-verified_iff_example :
    ((revalidate broken observed_digests ≡ verified)
      ↔ ((broken.state ≡ verified) × Matches broken.bound_digests observed_digests))
    × Revalidated broken observed_digests
revalidate-verified_iff_example = revalidate-verified_iff broken observed_digests broken-NodupKeys

abbrev both : List Claim
both = built ∷ broken ∷ []
