-- ===== src/Monitor/Workflows.antt =====
-- The two checks on scheduled workflows: the drift scan and the spec-coherence gate.
use dev_gate_agentic_framewo.Common.{
  ℕ, ◌+◌, ◌-◌, String, Bool, false, Option, none, some, List, [], ◌∷◌, any, keep, ◌==◌, ◌!=◌,
  string_eq, if◌then◌else◌, ltb,
}
use dev_gate_agentic_framewo.Common.Json.{Json, arr, str, nil, cons, truthy, or_null}
use dev_gate_agentic_framewo.Monitor.Watch.{
  Alert, Notice, AlertClass, drift_overdue, drift_failed, coherence_unconfigured, coherence_missing,
  coherence_failure, coherence_skipped, coherence_overdue, no_workflow, no_completed_runs,
  not_passed, no_completion_time, too_old, no_branches, no_watched_run, skipped_run, Run,
  raise_alert, stop, fail, pure, ◌>>=◌, ◌>>◌, World, Check, drift_scan, spec_coherence,
  workflows_of, runs_of, with_body, get_or_raise, field_or_raise, listed, hashable, require,
  parse_iso, non_passing,
}

abbrev pub repo_alert : String → AlertClass → Notice → Alert
repo_alert repo c notice = record {
  repo = repo;
  check_class = c;
  runner = str "?";
  detail = notice;
}

-- wf.get("name", ""), of which `.lower()` is called
abbrev pub text_or_raise : Option Json → Run String
text_or_raise none = pure ""
text_or_raise (some (str s)) = pure s
text_or_raise (some _) = fail

-- The first workflow whose name holds the pattern.
unfoldable pub find_workflow : World → String → List Json → Run (Option Json)
find_workflow w pattern' [] = pure none
find_workflow w pattern' (wf ∷ wfs) = do
  let more = find_workflow w pattern' wfs
  found ← get_or_raise "name" wf
  name ← text_or_raise found
  if w.matches pattern' name then pure (some wf) else more

-- 24 hours and the grace, in microseconds.
abbrev pub max_age : World → ℕ
max_age w = 86_400_000_000 + w.config.drift_grace

-- The last step of both checks: a completed run must be recent.
unfoldable pub check_recency : World → Check → AlertClass → String → Json → Run (Unit {0})
check_recency w check overdue repo latest = do
  completed_at ← get_or_raise "completed_at" latest
  completed ← parse_iso w (or_null completed_at)
  elim completed [
    | none ↦ raise_alert (repo_alert repo overdue no_completion_time)
    | some t ↦
        if ltb (t + max_age w) (w.now check)
        then raise_alert (repo_alert repo overdue (too_old (w.now check - t)))
        else stop
  ]

-- latest.get("html_url", "")
abbrev pub or_blank : Option Json → Json
or_blank none = str ""
or_blank (some v) = v

abbrev pub report_not_passed : String → AlertClass → Json → Json → Run (Unit {0})
report_not_passed repo failed conclusion latest = do
  url ← get_or_raise "html_url" latest
  raise_alert (repo_alert repo failed (not_passed conclusion (or_blank url)))

-- `latest.get("conclusion") in NON_PASSING_CONCLUSIONS`
unfoldable pub drift_verdict : World → String → Json → Run (Unit {0})
drift_verdict w repo latest = do
  found ← get_or_raise "conclusion" latest
  let conclusion = or_null found
  require (hashable conclusion)
  if non_passing conclusion
      then report_not_passed repo drift_failed conclusion latest
      else check_recency w drift_scan drift_overdue repo latest

-- `runs[0]` of what is truthy
unfoldable pub first_run : Json → Run Json
first_run (arr (cons r rs)) = pure r
first_run (str (String.◌∷◌ c s)) = pure (str (String.◌∷◌ c String.[]))
first_run _ = fail

-- body.get("workflow_runs", [])
abbrev pub or_no_runs : Option Json → Json
or_no_runs none = arr nil
or_no_runs (some v) = v

unfoldable pub drift_runs : World → String → Json → Json → Run (Unit {0})
drift_runs w repo wf body = do
  found ← get_or_raise "workflow_runs" body
  let runs = or_no_runs found
  if truthy runs then (first_run runs >>= drift_verdict w repo) else (do
    name ← field_or_raise "name" wf
    raise_alert (repo_alert repo drift_overdue (no_completed_runs name)))

abbrev pub ask_runs : World → Check → String → Json → (Json → Run (Unit {0})) → Run (Unit {0})
ask_runs w check repo wf k = do
  id ← field_or_raise "id" wf
  with_body (w.api check (runs_of repo id)) k

unfoldable pub check_drift_scan : World → String → Run (Unit {0})
check_drift_scan w repo = with_body (w.api drift_scan (workflows_of repo)) λ body. do
  wfs ← listed "workflows" body
  found ← find_workflow w w.config.drift_workflow_match wfs
  elim found [
    | none ↦ raise_alert (repo_alert repo drift_overdue (no_workflow w.config.drift_workflow_match))
    | some wf ↦ ask_runs w drift_scan repo wf (drift_runs w repo wf)
  ]

-- [b for b in watched_branches if b != "default"]
abbrev pub named_branches : World → List String
named_branches w = keep (λ b. b != "default") w.config.watched_branches

abbrev pub is_in : List String → Json → Bool
is_in branches (str b) = any (λ x. b == x) branches
is_in branches _ = false

-- The first run whose head branch is watched.
unfoldable pub latest_watched : List String → List Json → Run (Option Json)
latest_watched branches [] = pure none
latest_watched branches (r ∷ rs) = do
  let more = latest_watched branches rs
  head ← get_or_raise "head_branch" r
  if is_in branches (or_null head) then pure (some r) else more

abbrev pub is_skipped : Json → Bool
is_skipped (str s) = s == "skipped"
is_skipped _ = false

unfoldable pub coherence_verdict : World → String → Json → Run (Unit {0})
coherence_verdict w repo latest = do
  found ← get_or_raise "conclusion" latest
  let conclusion = or_null found
  require (hashable conclusion)
  if non_passing conclusion
      then report_not_passed repo coherence_failure conclusion latest
      else if is_skipped conclusion
      then (do
        branch ← get_or_raise "head_branch" latest
        url ← get_or_raise "html_url" latest
        raise_alert
            (repo_alert repo coherence_skipped (skipped_run (or_null branch) (or_blank url))))
      else check_recency w spec_coherence coherence_overdue repo latest

unfoldable pub coherence_runs : World → String → Json → Json → Run (Unit {0})
coherence_runs w repo wf body = do
  runs ← listed "workflow_runs" body
  latest ← latest_watched (named_branches w) runs
  elim latest [
    | none ↦ (do
      name ← field_or_raise "name" wf
      raise_alert (repo_alert repo coherence_missing (no_watched_run name (named_branches w))))
    | some r ↦ coherence_verdict w repo r
  ]

unfoldable pub coherence_workflow : World → String → Run (Unit {0})
coherence_workflow w repo = with_body (w.api spec_coherence (workflows_of repo)) λ body. do
  wfs ← listed "workflows" body
  found ← find_workflow w w.config.coherence_workflow_match wfs
  elim found [
    | none ↦
        raise_alert
          (repo_alert repo coherence_missing (no_workflow w.config.coherence_workflow_match))
    | some wf ↦ ask_runs w spec_coherence repo wf (coherence_runs w repo wf)
  ]

unfoldable pub check_spec_coherence : World → String → Run (Unit {0})
check_spec_coherence w repo = elim (named_branches w) [
  | [] ↦ raise_alert (repo_alert repo coherence_unconfigured no_branches)
  | _ ∷ _ ↦ coherence_workflow w repo
]
