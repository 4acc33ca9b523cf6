-- ===== src/Server.antt =====
-- hub/server.py: the three POST handlers over the registry and its file.
pub mod Race
pub mod Replies
pub mod Accounts
pub mod Kept
use dev_gate_agentic_framewo.Common.{
  ℕ, String, Bool, true, false, not, ◌&&◌, ◌||◌, Option, none, some, is_some, List, [], ◌∷◌, ◌++◌,
  ◌==◌, ◌!=◌, string_eq, if◌then◌else◌, nat_eq, count, any,
}
use Prim.Native.Char.{code}
use dev_gate_agentic_framewo.Common.Text.{codes, is_space}
use dev_gate_agentic_framewo.Common.Json.{
  Json, str, arr, obj, Fields, nil, or_null, truthy, get_field,
}
use dev_gate_agentic_framewo.Common.Result.{Result, ok, err, ◌>>=◌}
use dev_gate_agentic_framewo.Registry.{
  Crash, type_error, os_error, Runner, Registry, Report, consume_enrollment_token, find_runner,
  new_runner, enroll, heartbeat, verify_heartbeat_token, revoke,
}

-- The registry in memory, and what the file holds (none before the first save).
pub record HubState : Type 0 where
  pub registry : Registry
  pub saved : Option Registry

-- The JSON bodies that the handlers send, with their status codes in `status`.
pub data Reply : Type 0 where
  object_required : Reply
  name_and_repo_required : Reply
  surrounding_whitespace : Reply
  already_enrolled : Reply
  unknown_or_revoked_token : Reply
  enrolled_as : String → String → Reply
  alive : Reply
  revoked : Json → Reply
  not_found : Reply
  -- the handler raised, and the client gets no JSON body
  crashed : Crash → Reply

abbrev pub status : Reply → ℕ
status object_required = 400
status name_and_repo_required = 400
status surrounding_whitespace = 400
status already_enrolled = 409
status unknown_or_revoked_token = 401
status (enrolled_as _ _) = 200
status alive = 200
status (revoked _) = 200
status not_found = 404
status (crashed _) = 0

-- What a function under the lock returns: False, or the body to send.
pub data Locked : Type 0 where
  refused : Locked
  done : Reply → Locked

-- The end of HubState.with_registry, on what the function made of the registry.
unfoldable pub settle : Bool → HubState → Result Crash (Registry × Locked) → HubState × Reply
settle saves s (err crash) = (s, crashed crash)
settle saves s (ok (reg, refused)) = (record s { registry = reg }, unknown_or_revoked_token)
settle true s (ok (reg, done reply)) = (record { registry = reg; saved = some reg }, reply)
settle false s (ok (reg, done reply)) = (record s { registry = reg }, crashed os_error)

-- HubState.with_registry, with whether the save succeeds. A function that raises skips the save.
unfoldable pub with_registry :
    Bool → (Registry → Result Crash (Registry × Locked)) → HubState → HubState × Reply
with_registry saves fn s = settle saves s (fn s.registry)

-- re.compile(r"^[^/]+/[^/]+$"), as a count of slashes with text on both sides.
unfoldable pub after_slash : Bool → List ℕ → Bool
after_slash some_text [] = some_text
after_slash some_text (c ∷ cs) = if c == 47 then false else after_slash true cs

unfoldable pub repo_chars : Bool → List ℕ → Bool
unfolding after_slash
repo_chars some_text [] = false
repo_chars some_text (c ∷ cs) =
    let rest = repo_chars true cs in if c == 47 then some_text && after_slash false cs else rest

-- REPO_RE.match(repo or "")
unfoldable pub repo_matches : Json → Result Crash Bool
unfolding repo_chars
repo_matches (str s) = ok (repo_chars false (codes s))
repo_matches other = if truthy other then err type_error else ok false

-- `name != name.strip()`: the first or the last character is white space.
unfoldable pub last_is_space : List ℕ → Bool
unfolding is_space
last_is_space [] = false
last_is_space (c ∷ []) = is_space c
last_is_space (c ∷ (d ∷ rest)) = last_is_space (d ∷ rest)

unfoldable pub first_is_space : List ℕ → Bool
unfolding is_space
first_is_space [] = false
first_is_space (c ∷ _) = is_space c

unfoldable pub strip_differs : String → Bool
unfolding last_is_space first_is_space
strip_differs s = first_is_space (codes s) || last_is_space (codes s)

-- `data.get(key) or default`
abbrev pub get_or_else : String → Json → Fields → Json
get_or_else key default fields =
    let v : Json = or_null (get_field key fields) in if truthy v then v else default

-- The fields of an enrollment that passed the checks before the lock.
pub record Enrollment : Type 0 where
  pub name : String
  pub repo : String
  pub presented : Json
  pub labels : Json
  pub host_alias : Json

-- What a handler finds before it takes the lock: an answer, or the work to do.
pub data Probe : Type 0 where
  answer : Reply → Probe
  attempt : Enrollment → Probe

-- The 409 probe, which reads the registry outside the lock.
unfoldable pub probe_name : Enrollment → HubState → Probe
probe_name e s =
    if strip_differs e.name
    then answer surrounding_whitespace
    else if is_some (find_runner (str e.name) s.registry)
    then answer already_enrolled
    else attempt e

abbrev pub as_text : Json → String
as_text (str s) = s
as_text _ = ""

-- What the pattern says of `repo`, and then the tests on the name.
unfoldable pub probe_repo : Result Crash Bool → Enrollment → HubState → Probe
probe_repo (err crash) e s = answer (crashed crash)
probe_repo (ok false) e s = answer name_and_repo_required
probe_repo (ok true) e s = probe_name e s

unfoldable pub enrollment_of : String → Fields → Enrollment
enrollment_of name fields = record {
  name = name;
  repo = as_text (or_null (get_field "repo" fields));
  presented = get_or_else "enrollment_token" (str "") fields;
  labels = get_or_else "labels" (arr nil) fields;
  host_alias = get_or_else "host_alias" (str "") fields;
}

-- The tests on runner_name and repo; a name that is no text or is empty is answered first.
unfoldable pub probe_fields : Json → Fields → HubState → Probe
probe_fields (str name) fields s =
    if name == ""
    then answer name_and_repo_required
    else probe_repo (repo_matches (or_null (get_field "repo" fields))) (enrollment_of name fields) s
probe_fields _ fields s = answer name_and_repo_required

unfoldable pub probe_enroll : Option Json → HubState → Probe
probe_enroll body s = elim body [
  | some (obj fields) ↦ probe_fields (or_null (get_field "runner_name" fields)) fields s
  | _ ↦ answer object_required
]

-- The function that /enroll runs under the lock, with the time and the token minted for the row.
unfoldable pub do_enroll :
    Enrollment → String → String → Registry → Result Crash (Registry × Locked)
do_enroll e now fresh reg = do
  taken ← consume_enrollment_token e.presented reg
  ok (
      if taken.1
      then (
        enroll (new_runner e.name e.repo e.labels e.host_alias now fresh) taken.0,
        done (enrolled_as e.name fresh),
      )
      else (taken.0, refused))

unfoldable pub commit_enroll : Bool → Enrollment → String → String → HubState → HubState × Reply
commit_enroll saves e now fresh s = with_registry saves (do_enroll e now fresh) s

unfoldable pub handle_enroll : Bool → Option Json → String → String → HubState → HubState × Reply
handle_enroll saves body now fresh s = elim (probe_enroll body s) [
  | answer reply ↦ (s, reply)
  | attempt e ↦ commit_enroll saves e now fresh s
]

-- The report of a heartbeat's body: the last three keys are read presence-aware.
unfoldable pub report_of : Fields → Report
report_of fields = record {
  last_job_seen = or_null (get_field "last_job_seen" fields);
  disk_ok = or_null (get_field "disk_ok" fields);
  podman_ok = or_null (get_field "podman_ok" fields);
  image_digest = get_field "image_digest" fields;
  image_reason = get_field "image_reason" fields;
  scan_state = get_field "scan_state" fields;
}

unfoldable pub do_heartbeat :
    Json → Json → String → Report → Registry → Result Crash (Registry × Locked)
do_heartbeat name presented now report reg = do
  same ← verify_heartbeat_token name presented reg
  ok (if same then ((heartbeat name now report reg).0, done alive) else (reg, refused))

unfoldable pub handle_heartbeat : Bool → Option Json → String → HubState → HubState × Reply
handle_heartbeat saves body now s = elim body [
  | some (obj fields) ↦
      with_registry saves
        (do_heartbeat (get_or_else "runner_name" (str "") fields)
          (get_or_else "heartbeat_token" (str "") fields) now (report_of fields))
        s
  | _ ↦ (s, object_required)
]

unfoldable pub do_revoke : Json → Json → Registry → Result Crash (Registry × Locked)
do_revoke name presented reg = do
  same ← verify_heartbeat_token name presented reg
  ok (if same then ((revoke name reg).0, done (revoked name)) else (reg, refused))

unfoldable pub handle_revoke : Bool → Option Json → HubState → HubState × Reply
handle_revoke saves body s = elim body [
  | some (obj fields) ↦
      with_registry saves
        (do_revoke (get_or_else "runner_name" (str "") fields)
          (get_or_else "heartbeat_token" (str "") fields))
        s
  | _ ↦ (s, object_required)
]

-- One request: its path, its body, and what the environment supplies while it runs.
pub record Request : Type 0 where
  pub path : String
  pub body : Option Json
  pub now : String
  pub fresh : String
  pub saves : Bool

-- do_POST
unfoldable pub do_post : Request → HubState → HubState × Reply
do_post q s =
    if q.path == "/enroll"
    then handle_enroll q.saves q.body q.now q.fresh s
    else if q.path == "/heartbeat"
    then handle_heartbeat q.saves q.body q.now s
    else if q.path == "/revoke"
    then handle_revoke q.saves q.body s
    else (s, not_found)

-- Requests one after the other.
abbrev pub serve : HubState → List Request → HubState
serve s [] = s
serve s (q ∷ qs) = serve (do_post q s).0 qs

abbrev live_row : Runner → Bool
live_row r = r.enrolled

-- The count of live rows that /health reports.
unfoldable pub registered_runners : HubState → ℕ
registered_runners s = count live_row s.registry.runners
