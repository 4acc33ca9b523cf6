-- ===== src/Monitor/Coverage.antt =====
-- hub/monitor.py: the alerts of a poll when the API, or a row's own data, fails a check.
use dev_gate_agentic_framewo.Common.{
  String, ◌≡◌, refl, ap, ◌∙◌, sym, List, [], ◌∷◌, ◌++◌, map, keep, Bool-cases, inl, inr, ◌⊎◌,
  nat_eq, all,
}
use mathlib.Core.List.{append_assoc, append-nil}
use dev_gate_agentic_framewo.Common.Json.{Json, arr, obj, str}
use dev_gate_agentic_framewo.Registry.{Runner, image_missing}
use dev_gate_agentic_framewo.ScanView.{CheckClass, Detail, scan_alerts}
use dev_gate_agentic_framewo.Monitor.Watch.{
  Alert, Run, returned, raised, after, World, alerts_of, each, raise_alert, reply, network_down,
  Check, Endpoint, queue_drain, queued_of, iterate, hashable,
}
use dev_gate_agentic_framewo.Monitor.Local.{
  check_image_readiness, check_scan_state, image_alert, scan_alert,
}
use dev_gate_agentic_framewo.Monitor.Fleet.{check_runner_status, check_queue_drain, collect_labels}
use dev_gate_agentic_framewo.Monitor.Poll.{poll_repo, poll_remote}

-- The alerts that the registry alone earns a repository's rows.
abbrev pub image_alerts : String → List Runner → List Alert
image_alerts repo rows = map (image_alert repo) (keep image_missing rows)

abbrev pub scan_alerts_of : String → Runner → List Alert
scan_alerts_of repo r = map (scan_alert repo r) (scan_alerts r)

abbrev pub all_scan_alerts : String → List Runner → List Alert
all_scan_alerts repo [] = []
all_scan_alerts repo (r ∷ rs) = scan_alerts_of repo r ++ all_scan_alerts repo rs

abbrev pub local_alerts : String → List Runner → List Alert
local_alerts repo rows = image_alerts repo rows ++ all_scan_alerts repo rows

check_image_readiness_lem :
    (repo : String) (rows : List Runner)
    → check_image_readiness repo rows ≡ returned (image_alerts repo rows) tt
unfolding check_image_readiness each
check_image_readiness_lem repo [] = refl
check_image_readiness_lem repo (r ∷ rs) = elim (Bool-cases (image_missing r)) [
  | inl m ↦ rw m (ap (after (image_alert repo r ∷ [])) (check_image_readiness_lem repo rs))
  | inr m ↦ rw m (ap (after []) (check_image_readiness_lem repo rs))
]

each-raise_alert :
    (repo : String) (r : Runner) (found : List (CheckClass × Detail))
    → each (λ f. raise_alert (scan_alert repo r f)) found
      ≡ returned (map (scan_alert repo r) found) tt
unfolding each
each-raise_alert repo r [] = refl
each-raise_alert repo r (f ∷ fs) =
    ap (after (scan_alert repo r f ∷ [])) (each-raise_alert repo r fs)

check_scan_state_lem :
    (repo : String) (rows : List Runner)
    → check_scan_state repo rows ≡ returned (all_scan_alerts repo rows) tt
unfolding check_scan_state each
check_scan_state_lem repo [] = refl
check_scan_state_lem repo (r ∷ rs) =
    rw (each-raise_alert repo r (scan_alerts r))
      (ap (after (scan_alerts_of repo r)) (check_scan_state_lem repo rs))

alerts_of-after :
    (xs : List Alert) (m : Run (Unit {0})) → alerts_of (after xs m) ≡ xs ++ alerts_of m
alerts_of-after xs (returned ys a) = refl
alerts_of-after xs (raised ys) = refl

-- The alerts of a repository's poll begin with all alerts on its rows' images and scan states,
-- which do not depend on the API, the clock or the configuration; the API checks only add to them.
pub poll_repo-local_first :
    (w : World) (repo : String) (rows : List Runner)
    → alerts_of (poll_repo w repo rows)
      ≡ local_alerts repo rows ++ alerts_of (poll_remote w repo rows)
unfolding poll_repo
poll_repo-local_first w repo rows =
    rw (check_image_readiness_lem, check_scan_state_lem, alerts_of-after, alerts_of-after)
      (sym (
        append_assoc (image_alerts repo rows) (all_scan_alerts repo rows)
          (alerts_of (poll_remote w repo rows))))

-- With the network down, a repository's poll raises exactly the alerts that the registry earns.
pub poll_repo-network_down :
    (w : World) (repo : String) (rows : List Runner)
    → ((c : Check) (e : Endpoint) → w.api c e ≡ network_down)
    → alerts_of (poll_repo w repo rows) ≡ local_alerts repo rows
unfolding poll_remote check_runner_status
poll_repo-network_down w repo rows down = poll_repo-local_first w repo rows ∙ rw down (append-nil _)

-- `labels` that a loop cannot run over, such as a number that a spoke posted.
abbrev pub IsNoList : Json → Type 0
IsNoList labels = iterate labels ≡ raised []

abbrev pub HasBadLabels : List Runner → Type 0
HasBadLabels [] = ⊥
HasBadLabels (r ∷ rs) = IsNoList r.labels ⊎ HasBadLabels rs

iterate-cases :
    (j : Json) → (iterate j ≡ raised []) ⊎ ((xs : List Json) × (iterate j ≡ returned [] xs))
iterate-cases (arr xs) = inr (_, refl)
iterate-cases (obj fs) = inr (_, refl)
iterate-cases (str s) = inr (_, refl)
iterate-cases _ = inl refl

collect_labels-raised : (rows : List Runner) → HasBadLabels rows → collect_labels rows ≡ raised []
unfolding collect_labels each
collect_labels-raised [] h = absurd h
collect_labels-raised (r ∷ rs) (inl e) = rw e
collect_labels-raised (r ∷ rs) (inr h) = elim (iterate-cases r.labels) [
  | inl e ↦ rw e
  | inr (xs, e) ↦ elim (Bool-cases (all hashable xs)) [
    | inl y ↦ rw (e, y) (ap (after []) (collect_labels-raised rs h))
    | inr n ↦ rw (e, n)
  ]
]

-- One row whose labels are no list silences a repository: when its queue request is answered, the
-- exception of the label loop ends the poll there, and the gate, drift and coherence checks raise
-- nothing, whatever the API would say.
pub bad_labels_abort :
    (w : World) (repo : String) (rows : List Runner) (seen : List Alert) (body : Json)
    → HasBadLabels rows
    → check_runner_status w repo rows ≡ returned seen tt
    → w.api queue_drain (queued_of repo) ≡ reply 200 body
    → poll_remote w repo rows ≡ raised seen
unfolding poll_remote check_queue_drain
bad_labels_abort w repo rows seen body bad status answered =
    rw (status, answered, collect_labels-raised rows bad)
      (unfold nat_eq in ap raised (append-nil seen))
