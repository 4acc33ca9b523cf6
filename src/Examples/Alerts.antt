-- ===== src/Examples/Alerts.antt =====
-- One repository with a healthy row and a faulty one, polled in three worlds.
use dev_gate_agentic_framewo.Common.{
  ◌≡◌, ◌↔◌, refl, String, true, false, some, List, [], ◌∷◌, all, nat_eq, string_eq, inl, inr,
}
use dev_gate_agentic_framewo.Common.Json.{
  Json, int, ℤ, str, obj, arr, nil, cons, end, field, truthy, get_field,
}
use dev_gate_agentic_framewo.Registry.{Runner, new_runner, scan_state_unknown}
use dev_gate_agentic_framewo.ScanView.{scan_alerts, repos_of, is_clean}
use dev_gate_agentic_framewo.ScanView.Silence.{scan_alerts-silent_iff}
use dev_gate_agentic_framewo.Monitor.Watch.{
  World, Config, Answer, reply, network_down, Check, Endpoint, runner_status, queued_of, returned,
}
use dev_gate_agentic_framewo.Monitor.Fleet.{check_runner_status}
use dev_gate_agentic_framewo.Monitor.Coverage.{HasBadLabels}

abbrev swept_repo : String → Json
swept_repo state = obj (field "name" (str "acme/lib") (field "state" (str state) end))

abbrev swept : Runner
swept = record (new_runner "east" "acme/app" (arr nil) (str "") "t0" "secret") {
  image_digest = str "sha256:1";
  scan_state =
      obj (field "repos" (arr (cons (swept_repo "clean") (cons (swept_repo "findings") nil))) end);
}

-- A row whose labels were posted as a number.
abbrev numbered : Runner
numbered = record swept { name = "west"; labels = int (ℤ.pos 7) }

abbrev rows : List Runner
rows = swept ∷ numbered ∷ []

abbrev thresholds : Config
thresholds = record {
  heartbeat_interval = 60_000_000;
  queue_threshold = 900_000_000;
  drift_grace = 3_600_000_000;
  drift_workflow_match = "drift";
  coherence_workflow_match = "coherence";
  watched_branches = "main" ∷ [];
}

-- Only the queue of the repository answers.
abbrev queue_api : Check → Endpoint → Answer
queue_api runner_status e = Answer.rate_limited
queue_api c (queued_of r) = reply 200 (obj end)
queue_api c e = network_down

abbrev world : (Check → Endpoint → Answer) → World
world api = record {
  config = thresholds;
  api = api;
  now = λ c. 100_000_000_000;
  fromisoformat = λ text. some 99_000_000_000;
  matches = λ pattern' name. true;
}

scan_alerts-silent_iff_example :
    (scan_alerts swept ≡ [])
    ↔ ((scan_state_unknown swept ≡ false) × (all is_clean (repos_of swept) ≡ true))
scan_alerts-silent_iff_example = scan_alerts-silent_iff swept

swept-known : scan_state_unknown swept ≡ false
unfolding scan_state_unknown new_runner get_field string_eq truthy
swept-known = refl

rows-HasBadLabels : HasBadLabels rows
unfolding new_runner
rows-HasBadLabels = inr (inl refl)

rows-status : check_runner_status (world queue_api) "acme/app" rows ≡ returned [] tt
unfolding check_runner_status
rows-status = refl
