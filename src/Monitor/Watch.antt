-- ===== src/Monitor/Watch.antt =====
-- hub/monitor.py: what a check sees of the world, the alerts that it raises, and how it may raise.
use dev_gate_agentic_framewo.Common.{
  ℕ, String, Bool, true, false, Option, none, some, List, [], ◌∷◌, ◌++◌, ◌==◌, string_eq,
  if◌then◌else◌, ◌||◌, nat_eq, ◌<>◌,
}
use Prim.Native.Char.{code}
use dev_gate_agentic_framewo.Common.Json.{
  Json, str, arr, obj, Fields, end, field, to_list, truthy, get_field,
}
use dev_gate_agentic_framewo.ScanView.{CheckClass, Detail}

pub data AlertClass : Type 0 where
  runner_offline runner_image_missing queue_stall gate_failure : AlertClass
  drift_overdue drift_failed : AlertClass
  coherence_unconfigured coherence_missing coherence_failure : AlertClass
  coherence_skipped coherence_overdue : AlertClass
  scan : CheckClass → AlertClass

-- Why a runner counts as offline; the age is none for a runner that never sent a heartbeat.
pub data Reason : Type 0 where
  api_not_online : Reason
  heartbeat_stale : Option ℕ → Reason

-- The details, with the values that their sentences interpolate.
pub data Notice : Type 0 where
  offline : List Reason → Notice
  image_fault : Json → Notice
  image_unreported : Notice
  scan_detail : Detail → Notice
  queued_for : ℕ → Json → Notice
  gate_conclusion : Json → String → Json → Notice
  no_workflow : String → Notice
  no_completed_runs : Json → Notice
  not_passed : Json → Json → Notice
  no_completion_time : Notice
  too_old : ℕ → Notice
  no_branches : Notice
  no_watched_run : Json → List String → Notice
  skipped_run : Json → Json → Notice

pub record Alert : Type 0 where
  pub repo : String
  pub check_class : AlertClass
  pub runner : Json
  pub detail : Notice

-- A check's run: the alerts that it raised on the way, and its result or an exception.
pub data Run {ℓ} (A : Type ℓ) : Type ℓ where
  returned : List Alert → A → Run A
  raised : List Alert → Run A

abbrev pub after {ℓ} : {A : Type ℓ} → List Alert → Run A → Run A
after xs (returned ys a) = returned (xs ++ ys) a
after xs (raised ys) = raised (xs ++ ys)

infixl 10 ◌>>=◌ ◌>>◌
abbrev pub ◌>>=◌ {ℓ κ} : {A : Type ℓ} {B : Type κ} → Run A → (A → Run B) → Run B
returned xs a >>= f = after xs (f a)
raised xs >>= f = raised xs

abbrev pub ◌>>◌ {ℓ κ} : {A : Type ℓ} {B : Type κ} → Run A → Run B → Run B
m >> k = m >>= λ _. k

abbrev pub pure {ℓ} : {A : Type ℓ} → A → Run A
pure a = returned [] a

abbrev pub fail {ℓ} : {A : Type ℓ} → Run A
fail = raised []

abbrev pub stop : Run (Unit {0})
stop = returned [] tt

abbrev pub raise_alert : Alert → Run (Unit {0})
raise_alert a = returned (a ∷ []) tt

abbrev pub alerts_of {ℓ} : {A : Type ℓ} → Run A → List Alert
alerts_of (returned xs a) = xs
alerts_of (raised xs) = xs

-- What `client.get_with_backoff` gives: an exception (a refused connection, a DNS failure), None
-- after the retries, or a status with the parsed body.
pub data Answer : Type 0 where
  network_down rate_limited : Answer
  reply : ℕ → Json → Answer

-- The checks that ask the API, and the paths that they ask for.
pub data Check : Type 0 where
  runner_status queue_drain gate_results drift_scan spec_coherence : Check

pub data Endpoint : Type 0 where
  runners_of queued_of workflows_of : String → Endpoint
  commit_of : String → String → Endpoint
  check_runs_of runs_of : String → Json → Endpoint

-- Times are microseconds since the epoch; the thresholds of the configuration too.
pub record Config : Type 0 where
  pub heartbeat_interval : ℕ
  pub queue_threshold : ℕ
  pub drift_grace : ℕ
  pub drift_workflow_match : String
  pub coherence_workflow_match : String
  pub watched_branches : List String

-- A cycle's world: the configuration, the API, the clock at each check, `datetime.fromisoformat`
-- of a text (none for a ValueError; the times that a check reads name their offset), and `match.lower() in name.lower()`.
pub record World : Type 0 where
  pub config : Config
  pub api : Check → Endpoint → Answer
  pub now : Check → ℕ
  pub fromisoformat : String → Option ℕ
  pub matches : String → String → Bool

-- The body of a call whose answer is worth reading: None and other statuses end the check.
abbrev pub with_body : Answer → (Json → Run (Unit {0})) → Run (Unit {0})
with_body network_down k = fail
with_body rate_limited k = stop
with_body (reply status body) k = if status == 200 then k body else stop

-- `value.get(key)`, which raises on what is no object.
abbrev pub get_or_raise : String → Json → Run (Option Json)
get_or_raise key (obj fields) = pure (get_field key fields)
get_or_raise key _ = fail

-- `value[key]`
abbrev pub field_or_raise : String → Json → Run Json
field_or_raise key value =
    get_or_raise key value >>= λ found. elim found [ none ↦ fail | some v ↦ pure v ]

abbrev pub key_list : Fields → List Json
key_list end = []
key_list (field k v rest) = str k ∷ key_list rest

abbrev pub letters : String → List Json
letters String.[] = []
letters (String.◌∷◌ c s) = str (String.◌∷◌ c String.[]) ∷ letters s

-- `for x in value`, which raises on what cannot be iterated.
abbrev pub iterate : Json → Run (List Json)
iterate (arr items) = pure (to_list items)
iterate (obj fields) = pure (key_list fields)
iterate (str s) = pure (letters s)
iterate _ = fail

-- `body.get(key, [])`, iterated
abbrev pub listed : String → Json → Run (List Json)
listed key body =
    get_or_raise key body >>= λ found. elim found [ none ↦ pure [] | some v ↦ iterate v ]

-- A list or an object cannot be put in a set or looked up in one.
abbrev pub hashable : Json → Bool
hashable (arr _) = false
hashable (obj _) = false
hashable _ = true

abbrev pub require : Bool → Run (Unit {0})
require true = stop
require false = fail

-- A loop over a list, one run after the other.
unfoldable pub each {ℓ} : {A : Type ℓ} → (A → Run (Unit {0})) → List A → Run (Unit {0})
each f [] = stop
each f (x ∷ xs) = f x >>= λ _. each f xs

-- value.replace("Z", "+00:00")
unfoldable pub with_offset : String → String
with_offset String.[] = ""
with_offset (String.◌∷◌ c s) =
    if code c == b'Z' then "+00:00" <> with_offset s else String.◌∷◌ c (with_offset s)

-- hub.github_client.parse_iso of a JSON value
unfoldable pub parse_iso : World → Json → Run (Option ℕ)
parse_iso w (str s) = pure (if s == "" then none else w.fromisoformat (with_offset s))
parse_iso w value = if truthy value then fail else pure none

-- NON_PASSING_CONCLUSIONS
abbrev pub non_passing : Json → Bool
non_passing (str s) =
    s == "failure"
    || s == "timed_out"
    || s == "cancelled"
    || s == "action_required"
    || s == "neutral"
    || s == "stale"
non_passing _ = false
