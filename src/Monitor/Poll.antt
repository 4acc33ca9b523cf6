-- ===== src/Monitor/Poll.antt =====
-- One poll cycle: the enrolled rows by repository, and the checks of each in their order.
use dev_gate_agentic_framewo.Common.{
  String, List, [], ◌∷◌, ◌++◌, ◌==◌, string_eq, if◌then◌else◌, ◌&&◌, not,
}
use dev_gate_agentic_framewo.Common.Dict.{Dict}
use dev_gate_agentic_framewo.Registry.{Runner}
use dev_gate_agentic_framewo.Monitor.Watch.{Alert, Run, ◌>>◌, World, alerts_of}
use dev_gate_agentic_framewo.Monitor.Local.{check_image_readiness, check_scan_state}
use dev_gate_agentic_framewo.Monitor.Fleet.{
  check_runner_status, check_queue_drain, check_gate_results,
}
use dev_gate_agentic_framewo.Monitor.Workflows.{check_drift_scan, check_spec_coherence}

-- The checks that ask the API, in their order.
unfoldable pub poll_remote : World → String → List Runner → Run (Unit {0})
poll_remote w repo runners = do
  check_runner_status w repo runners
  check_queue_drain w repo runners
  check_gate_results w repo
  check_drift_scan w repo
  check_spec_coherence w repo

unfoldable pub poll_repo : World → String → List Runner → Run (Unit {0})
poll_repo w repo runners = do
  check_image_readiness repo runners
  check_scan_state repo runners
  poll_remote w repo runners

-- repos.setdefault(repo, []).append(runner)
unfoldable pub add_row : String → Runner → Dict (List Runner) → Dict (List Runner)
add_row repo r [] = (repo, r ∷ []) ∷ []
add_row repo r ((j, rows) ∷ d) =
    if repo == j then (j, rows ++ (r ∷ [])) ∷ d else (j, rows) ∷ add_row repo r d

unfoldable pub group_rows : Dict (List Runner) → List Runner → Dict (List Runner)
unfolding add_row
group_rows repos [] = repos
group_rows repos (r ∷ rs) =
    group_rows (if r.enrolled && not (r.repo == "") then add_row r.repo r repos else repos) rs

-- An exception ends its own repository only.
unfoldable pub poll_all : (String → World) → Dict (List Runner) → List Alert
poll_all world [] = []
poll_all world ((repo, rows) ∷ rest) =
    alerts_of (poll_repo (world repo) repo rows) ++ poll_all world rest

-- The alerts of a cycle, in order. The world may differ from one repository to the next.
unfoldable pub poll_cycle : (String → World) → List Runner → List Alert
unfolding group_rows
poll_cycle world runners = poll_all world (group_rows [] runners)
