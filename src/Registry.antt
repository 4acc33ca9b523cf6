-- ===== src/Registry.antt =====
-- hub/tokens.py and hub/registry.py: the one-time enrollment tokens and the runners of a fleet.
-- The clock and `secrets.token_urlsafe` are the arguments `now` and `fresh`.
pub mod Calls
pub mod Tokens
pub mod Rows
use dev_gate_agentic_framewo.Common.{
  String, Bool, true, false, not, ◌&&◌, ◌||◌, Option, none, some, List, [], ◌∷◌, ◌++◌, ◌==◌,
  string_eq, if◌then◌else◌, keep, length, ◌-◌, ℕ, contains, nat_eq,
}
use dev_gate_agentic_framewo.Common.Json.{
  Json, null, bool, str, arr, obj, or_null, truthy, truthy?, get_field,
}
use dev_gate_agentic_framewo.Common.Result.{Result, ok, err, ◌>>=◌}

-- An exception that no handler of the hub catches: `.encode()` or a regex on a value that is no text.
pub data Crash : Type 0 where
  attribute_error type_error os_error : Crash

-- tokens.verify. What was presented is whatever the body held; the stored token is a text or none.
unfoldable pub verify : Json → Option String → Result Crash Bool
verify presented none = ok false
verify (str s) (some expected) = if s == "" then ok false else ok (s == expected)
verify presented (some expected) = if not (truthy presented) then ok false else err attribute_error

-- A runner's row. The fields that a spoke posts are kept as posted.
pub record Runner : Type 0 where
  pub name : String
  pub repo : String
  pub labels : Json
  pub host_alias : Json
  pub enrolled_at : String
  pub heartbeat_token : Option String
  pub last_heartbeat : Option String
  pub last_job_seen : Json
  pub disk_ok : Json
  pub podman_ok : Json
  pub image_digest : Json
  pub image_reason : Json
  pub scan_state : Json
  pub enrolled : Bool

pub record Registry : Type 0 where
  pub enrollment_tokens : List String
  pub runners : List Runner

-- Registry(path, auto_init=True) on a volume that holds no file yet.
abbrev pub fresh_registry : Registry
fresh_registry = record { enrollment_tokens = []; runners = [] }

-- --- one-time enrollment tokens

unfoldable pub add_enrollment_token : String → Registry → Registry
add_enrollment_token token reg =
    if contains reg.enrollment_tokens token
    then reg
    else record reg { enrollment_tokens = reg.enrollment_tokens ++ (token ∷ []) }

-- The registry afterwards, and how many tokens went.
unfoldable pub prune_enrollment_tokens : (String → Bool) → Registry → Registry × ℕ
prune_enrollment_tokens fits reg =
    let survivors : List String = keep fits reg.enrollment_tokens in
    let removed : ℕ = length reg.enrollment_tokens - length survivors in
    (if removed == 0 then reg else record reg { enrollment_tokens = survivors }, removed)

-- The loop of consume_enrollment_token: the tokens that stay, or none when nothing matched. The
-- candidate that matched is the first one of its text, so `list.remove` takes that one out.
unfoldable pub take_token : Json → List String → Result Crash (Option (List String))
unfolding verify
take_token presented [] = ok none
take_token presented (candidate ∷ rest) = do
  let more = take_token presented rest
  same ← verify presented (some candidate)
  if same
      then ok (some rest)
      else do found ← more; ok (elim found [ none ↦ none | some left ↦ some (candidate ∷ left) ])

unfoldable pub consume_enrollment_token : Json → Registry → Result Crash (Registry × Bool)
consume_enrollment_token presented reg = do
  found ← take_token presented reg.enrollment_tokens
  ok (elim found [
    | none ↦ (reg, false)
    | some left ↦ (record reg { enrollment_tokens = left }, true)
  ])

-- --- runners

-- `runner.get("name") == name`, for a name that may be any JSON value.
unfoldable pub named : Json → Runner → Bool
named (str s) r = s == r.name
named _ r = false

unfoldable pub find_in : Json → List Runner → Option Runner
find_in name [] = none
find_in name (r ∷ rs) = let rest = find_in name rs in if named name r then some r else rest

unfoldable pub find_runner : Json → Registry → Option Runner
find_runner name reg = find_in name reg.runners

-- A write through the row that find_runner returned.
unfoldable pub update_in : Json → (Runner → Runner) → List Runner → List Runner
update_in name f [] = []
update_in name f (r ∷ rs) = if named name r then f r ∷ rs else r ∷ update_in name f rs

unfoldable pub new_runner : String → String → Json → Json → String → String → Runner
new_runner name repo labels host_alias now fresh = record {
  name = name;
  repo = repo;
  labels = labels;
  host_alias = host_alias;
  enrolled_at = now;
  heartbeat_token = some fresh;
  last_heartbeat = none;
  last_job_seen = null;
  disk_ok = null;
  podman_ok = null;
  image_digest = null;
  image_reason = null;
  scan_state = null;
  enrolled = true;
}

unfoldable pub enroll : Runner → Registry → Registry
enroll r reg = record reg { runners = reg.runners ++ (r ∷ []) }

-- What one heartbeat carries. `none` for the last three is UNREPORTED: the body has no such key.
pub record Report : Type 0 where
  pub last_job_seen : Json
  pub disk_ok : Json
  pub podman_ok : Json
  pub image_digest : Option Json
  pub image_reason : Option Json
  pub scan_state : Option Json

-- `if value is not None: field = value`
abbrev pub unless_null : Json → Json → Json
unless_null null old = old
unless_null new old = new

-- `if value is not UNREPORTED: field = value`
abbrev pub if_reported : Option Json → Json → Json
if_reported none old = old
if_reported (some new) old = new

unfoldable pub refresh : String → Report → Runner → Runner
refresh now report r = record r {
  last_heartbeat = some now;
  last_job_seen = unless_null report.last_job_seen r.last_job_seen;
  disk_ok = unless_null report.disk_ok r.disk_ok;
  podman_ok = unless_null report.podman_ok r.podman_ok;
  image_digest = if_reported report.image_digest r.image_digest;
  image_reason = if_reported report.image_reason r.image_reason;
  scan_state = if_reported report.scan_state r.scan_state;
}

-- `runner is None or not runner.get("enrolled", False)`
abbrev pub is_live : Option Runner → Bool
is_live none = false
is_live (some r) = r.enrolled

unfoldable pub heartbeat : Json → String → Report → Registry → Registry × Bool
heartbeat name now report reg =
    if is_live (find_runner name reg)
    then (record reg { runners = update_in name (refresh now report) reg.runners }, true)
    else (reg, false)

abbrev pub token_of : Option Runner → Option String
token_of none = none
token_of (some r) = r.heartbeat_token

unfoldable pub verify_heartbeat_token : Json → Json → Registry → Result Crash Bool
verify_heartbeat_token name presented reg =
    if is_live (find_runner name reg)
    then verify presented (token_of (find_runner name reg))
    else ok false

abbrev pub unenrolled : Runner → Runner
unenrolled r = record r { enrolled = false }

unfoldable pub revoke : Json → Registry → Registry × Bool
revoke name reg = elim (find_runner name reg) [
  | none ↦ (reg, false)
  | some _ ↦ (record reg { runners = update_in name unenrolled reg.runners }, true)
]

-- --- what a stored row says

-- True when the stored scan state is no usable verdict.
unfoldable pub scan_state_unknown : Runner → Bool
scan_state_unknown r = elim r.scan_state [
  | obj fields ↦
      if truthy? (get_field "unreadable" fields)
      then true
      else elim (get_field "repos" fields) [ some (arr _) ↦ false | _ ↦ true ]
  | _ ↦ true
]

unfoldable pub image_missing : Runner → Bool
image_missing r = not (truthy r.image_digest)
