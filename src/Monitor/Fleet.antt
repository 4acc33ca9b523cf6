-- ===== src/Monitor/Fleet.antt =====
-- The checks that ask the API about runners, queued runs and check runs.
use dev_gate_agentic_framewo.Common.{
  ℕ, ◌+◌, ◌-◌, ◌*◌, String, Bool, true, false, ◌&&◌, Option, none, some, List, [], ◌∷◌, ◌++◌, all,
  ◌==◌, string_eq, if◌then◌else◌, ltb,
}
use dev_gate_agentic_framewo.Common.Json.{Json, null, arr, str, truthy, or_null}
use dev_gate_agentic_framewo.Registry.{Runner}
use dev_gate_agentic_framewo.Monitor.Watch.{
  Alert, runner_offline, queue_stall, gate_failure, Reason, api_not_online, heartbeat_stale,
  offline, queued_for, gate_conclusion, Run, raise_alert, stop, pure, each, ◌>>=◌, ◌>>◌, World,
  runner_status, queue_drain, gate_results, runners_of, queued_of, commit_of, check_runs_of,
  with_body, get_or_raise, field_or_raise, listed, iterate, hashable, require, parse_iso,
  non_passing,
}

-- {r["name"]: r for r in body.get("runners", [])}, newest first
unfoldable pub by_name : List Json → List (Json × Json) → Run (List (Json × Json))
by_name [] table = pure table
by_name (r ∷ rs) table = do
  name ← field_or_raise "name" r
  require (hashable name)
  by_name rs ((name, r) ∷ table)

-- The status under a name; the last row of a name wins, which stands first here.
unfoldable pub status_of : String → List (Json × Json) → Run Json
status_of name [] = pure null
status_of name ((str n, r) ∷ rest) =
    let more = status_of name rest in
    if n == name then (get_or_raise "status" r >>= λ s. pure (or_null s)) else more
status_of name (_ ∷ rest) = status_of name rest

abbrev pub is_online : Json → Bool
is_online (str s) = s == "online"
is_online _ = false

-- Twice the heartbeat interval
abbrev pub stale_threshold : World → ℕ
stale_threshold w = w.config.heartbeat_interval * 2

-- `(now - last).total_seconds() < threshold`, on times that may lie in the future.
abbrev pub is_fresh : World → Option ℕ → Bool
is_fresh w none = false
is_fresh w (some last) = ltb (w.now runner_status) (last + stale_threshold w)

abbrev pub age_of : World → Option ℕ → Option ℕ
age_of w none = none
age_of w (some last) = some (w.now runner_status - last)

abbrev pub reasons : Bool → Bool → Option ℕ → List Reason
reasons online fresh age =
    (if online then [] else api_not_online ∷ []) ++ (if fresh then [] else heartbeat_stale age ∷ [])

abbrev pub offline_alert : String → Runner → List Reason → Alert
offline_alert repo r why = record {
  repo = repo;
  check_class = runner_offline;
  runner = str r.name;
  detail = offline why;
}

abbrev pub heartbeat_text : Option String → Json
heartbeat_text none = null
heartbeat_text (some s) = str s

unfoldable pub check_one_runner : World → String → List (Json × Json) → Runner → Run (Unit {0})
check_one_runner w repo table r = do
  status ← status_of r.name table
  last ← parse_iso w (heartbeat_text r.last_heartbeat)
  let online = is_online status
  let fresh = is_fresh w last
  if online && fresh
      then stop
      else raise_alert (offline_alert repo r (reasons online fresh (age_of w last)))

unfoldable pub check_runner_status : World → String → List Runner → Run (Unit {0})
check_runner_status w repo runners = with_body (w.api runner_status (runners_of repo)) λ body. do
  rows ← listed "runners" body
  table ← by_name rows []
  each (check_one_runner w repo table) runners

-- {lbl for r in runners for lbl in r.get("labels", [])}: every row's labels are put in a set.
unfoldable pub collect_labels : List Runner → Run (Unit {0})
collect_labels = each (λ r. iterate r.labels >>= λ labels. require (all hashable labels))

-- run.get(key, "?")
abbrev pub or_unknown : Option Json → Json
or_unknown none = str "?"
or_unknown (some v) = v

unfoldable pub check_one_queued : World → String → Json → Run (Unit {0})
check_one_queued w repo run = do
  created_at ← get_or_raise "created_at" run
  created ← parse_iso w (or_null created_at)
  elim created [
    | none ↦ stop
    | some t ↦ if ltb (w.now queue_drain) (t + w.config.queue_threshold) then stop else do
      id ← get_or_raise "run_id" run
      name ← get_or_raise "name" run
      raise_alert (record {
        repo = repo;
        check_class = queue_stall;
        runner = or_unknown id;
        detail = queued_for (w.now queue_drain - t) (or_unknown name);
      })
  ]

unfoldable pub check_queue_drain : World → String → List Runner → Run (Unit {0})
check_queue_drain w repo runners = with_body (w.api queue_drain (queued_of repo)) λ body. do
  collect_labels runners
  runs ← listed "workflow_runs" body
  each (check_one_queued w repo) runs

-- `sha[:8]`, which a number or an object has not.
abbrev pub sliceable : Json → Bool
sliceable (str _) = true
sliceable (arr _) = true
sliceable _ = false

unfoldable pub check_one_gate : String → String → Json → Json → Run (Unit {0})
check_one_gate repo branch sha check = do
  conclusion ← get_or_raise "conclusion" check
  require (hashable (or_null conclusion))
  if non_passing (or_null conclusion)
      then (do
        name ← get_or_raise "name" check
        require (sliceable sha)
        raise_alert (record {
          repo = repo;
          check_class = gate_failure;
          runner = or_unknown name;
          detail = gate_conclusion (or_null conclusion) branch sha;
        }))
      else stop

unfoldable pub check_one_branch : World → String → String → Run (Unit {0})
check_one_branch w repo branch = with_body (w.api gate_results (commit_of repo branch)) λ commit. do
  found ← get_or_raise "sha" commit
  let sha = or_null found
  if truthy sha
      then (with_body (w.api gate_results (check_runs_of repo sha))
          λ body. listed "check_runs" body >>= each (check_one_gate repo branch sha))
      else stop

unfoldable pub check_gate_results : World → String → Run (Unit {0})
check_gate_results w repo = each (check_one_branch w repo) w.config.watched_branches
