-- ===== src/Claim.antt =====
-- hub/coherence/verification.py: claims, their states and the operations that move them.
pub mod Freshness
pub mod Counts
pub mod History
pub mod Table
pub mod Terminal
use dev_gate_agentic_framewo.Common.{
  String, Bool, true, false, not, ◌&&◌, ◌||◌, Option, none, some, List, [], ◌∷◌, ◌++◌, Eq, ◌==◌,
  ◌!=◌, ℕ, ◌+◌, ◌-◌, length, nat_eq, contains, string_eq, string_discrete, option_eq, if◌then◌else◌,
}
use dev_gate_agentic_framewo.Common.Dict.{Dict, insert, lookup}
use dev_gate_agentic_framewo.Common.Json.{Json, obj, end, truthy}
use dev_gate_agentic_framewo.Common.Text.{sorted}
use dev_gate_agentic_framewo.Common.Result.{Result, ok, err, ◌>>=◌}

-- The state constants. A claim's state is a text, so any other text is a state too.
pub data State : Type 0 where
  requested planned attempted executed completed tested observed verified : State
  blocked failed unknown : State
  other : String → State

unfoldable pub state_discrete : Discrete State
unfolding string_discrete
state_discrete = hlevel string_discrete

instance unfoldable pub state_eq : Eq State
unfolding state_discrete
state_eq = record { dec = state_discrete }

abbrev pub ladder : List State
ladder = requested ∷ planned ∷ attempted ∷ executed ∷ completed ∷ tested ∷ observed ∷ verified ∷ []

abbrev pub terminal : List State
terminal = blocked ∷ failed ∷ unknown ∷ []

-- {LADDER[i]: LADDER[i + 1] for i in range(len(LADDER) - 1)}
unfoldable pub successor : List State → State → List State
successor [] s = []
successor (a ∷ []) s = []
successor (a ∷ (b ∷ rest)) s = let more = successor (b ∷ rest) s in if a == s then b ∷ [] else more

unfoldable pub forward : State → List State
unfolding successor
forward s = if s == requested then planned ∷ attempted ∷ [] else successor ladder s

-- The messages of `VerificationError`.
pub data Problem : Type 0 where
  unknown_current unknown_target : State → Problem
  self_certified : Problem
  illegal : State → State → Problem
  bad_role bad_digest bad_evidence stale_evidence : Problem

unfoldable pub can_transition : State → State → Result Problem Bool
unfolding forward
can_transition current target =
    if not (contains ladder current) && not (contains terminal current)
    then err (unknown_current current)
    else if not (contains ladder target) && not (contains terminal target)
    then err (unknown_target target)
    else if current == target
    then ok true
    else if contains terminal target
    then ok true
    else if target == verified && contains ladder current
    then ok true
    else ok (contains (forward current) target)

-- One entry of the transition log; an empty reason is stored as none.
pub record Move : Type 0 where
  pub to : State
  pub reason : Option String

pub record Verdict : Type 0 where
  pub verifier : String
  pub ok : Bool
  pub observation : Json

-- The fields of a claim's dict. `api_version` is the constant CLAIM_API_VERSION of every claim.
pub record Claim : Type 0 where
  pub claim_id : String
  pub requirement : String
  pub state : State
  pub actor : Option String
  pub subject_digest : Option String
  pub bound_digests : Dict String
  pub evidence_refs : List String
  pub independent_verification : Option Verdict
  pub transitions : List Move

-- `text or None`
abbrev pub or_none : String → Option String
or_none s = if s == "" then none else some s

unfoldable pub new_claim : String → String → Option String → String → Claim
new_claim id req subject who = record {
  claim_id = id;
  requirement = req;
  state = requested;
  actor = or_none who;
  subject_digest = subject;
  bound_digests = [];
  evidence_refs = [];
  independent_verification = none;
  transitions = record { to = requested; reason = some "created" } ∷ [];
}

-- A call mutates its claim and may raise: the claim after it, and the error that it raised.
pub record Effect : Type 0 where
  pub claim : Claim
  pub raised : Option Problem

abbrev pub raises : Claim → Problem → Effect
raises c p = record { claim = c; raised = some p }

abbrev pub returns : Claim → Effect
returns c = record { claim = c; raised = none }

unfoldable pub moved : Claim → State → String → Claim
moved c target reason = record c {
  state = target;
  transitions = c.transitions ++ (record { to = target; reason = or_none reason } ∷ []);
}

-- The verdict of the table on the way to `target`, and the move when it allows it.
unfoldable pub apply_table : Claim → State → String → Result Problem Bool → Effect
apply_table c target reason (err p) = raises c p
apply_table c target reason (ok false) = raises c (illegal c.state target)
apply_table c target reason (ok true) = returns (moved c target reason)

unfoldable pub transition : Claim → State → String → Bool → Effect
transition c target reason independent =
    if target == verified && c.state != verified && not independent
    then raises c self_certified
    else apply_table c target reason (can_transition c.state target)

-- A role and a digest are texts; the tests on their types are the signature's.
unfoldable pub bind : Claim → String → String → Effect
bind c role digest =
    if role == ""
    then raises c bad_role
    else if digest == ""
    then raises c bad_digest
    else returns (record c { bound_digests = insert role digest c.bound_digests })

unfoldable pub attach_evidence : Claim → String → Effect
attach_evidence c ref =
    if ref == ""
    then raises c bad_evidence
    else returns (record c { evidence_refs = c.evidence_refs ++ (ref ∷ []) })

-- The roles whose bound digest is not the observed one.
unfoldable pub drifted : Dict String → Dict String → List String
drifted [] seen = []
drifted ((role, digest) ∷ rest) seen =
    let more = drifted rest seen in if lookup role seen == some digest then more else role ∷ more

unfoldable pub staleness : Claim → Dict String → List String
unfolding drifted sorted
staleness c seen = sorted (drifted c.bound_digests seen)

unfoldable pub is_stale : Claim → Dict String → Bool
unfolding staleness
is_stale c seen = elim (staleness c seen) [ [] ↦ false | _ ∷ _ ↦ true ]

unfoldable pub revalidate : Claim → Dict String → State
unfolding is_stale
revalidate c seen = if is_stale c seen then unknown else c.state

-- What the caller's verifier answers. It runs on the claim and does not write to it; it may change
-- the mapping of observed digests that it shares with the caller, so the mapping comes back too.
pub record Answer : Type 0 where
  pub name : String
  pub ok : Bool
  pub observation : Json
  pub observed_after : Option (Dict String)

abbrev pub stale_now : Claim → Option (Dict String) → Bool
stale_now c none = false
stale_now c (some seen) = is_stale c seen

abbrev pub or_default : String → String → String
or_default s default = if s == "" then default else s

-- `observation or {}`
abbrev pub or_object : Json → Json
or_object j = if truthy j then j else obj end

unfoldable pub record_answer : Claim → Answer → String → Effect
record_answer c answer reason =
    let noted : Claim = record c {
      independent_verification = some (record {
        verifier = answer.name;
        ok = answer.ok;
        observation = or_object answer.observation;
      });
    } in
    if not answer.ok
    then transition noted failed (or_default reason "independent check failed") false
    else if stale_now noted answer.observed_after
    then transition noted unknown "digests changed between verification and recording" false
    else transition noted verified (or_default reason "independent check confirmed") true

unfoldable pub verify_independently :
    Claim → (Claim → Answer) → Option (Dict String) → String → Effect
verify_independently c verifier seen reason =
    if stale_now c seen then raises c stale_evidence else record_answer c (verifier c) reason

-- `counts[s] = counts.get(s, 0) + 1`
unfoldable pub bump : State → List (State × ℕ) → List (State × ℕ)
bump s [] = (s, 1) ∷ []
bump s ((t, n) ∷ counts) = if s == t then (t, n + 1) ∷ counts else (t, n) ∷ bump s counts

unfoldable pub count_states : List (State × ℕ) → List Claim → List (State × ℕ)
unfolding bump
count_states counts [] = counts
count_states counts (c ∷ cs) = count_states (bump c.state counts) cs

-- `counts.get(s, 0)`
unfoldable pub count_of : State → List (State × ℕ) → ℕ
count_of s [] = 0
count_of s ((t, n) ∷ counts) = if s == t then n else count_of s counts

pub record Summary : Type 0 where
  pub total : ℕ
  pub by_state : List (State × ℕ)
  pub verified : ℕ
  pub unverified : ℕ

unfoldable pub summarize : List Claim → Summary
unfolding count_states count_of
summarize claims =
    let counts : List (State × ℕ) = count_states [] claims in
    record {
      total = length claims;
      by_state = counts;
      verified = count_of verified counts;
      unverified = length claims - count_of verified counts;
    }
