-- ===== src/Monitor/Local.antt =====
-- The two checks that read only the registry: image readiness and the fleet scan state.
use dev_gate_agentic_framewo.Common.{String, List, if◌then◌else◌}
use dev_gate_agentic_framewo.Common.Json.{str, truthy}
use dev_gate_agentic_framewo.Registry.{Runner, image_missing}
use dev_gate_agentic_framewo.ScanView.{CheckClass, Detail, scan_alerts}
use dev_gate_agentic_framewo.Monitor.Watch.{
  Alert, Notice, runner_image_missing, scan, image_fault, image_unreported, scan_detail, Run,
  raise_alert, stop, each,
}

abbrev pub image_notice : Runner → Notice
image_notice r = if truthy r.image_reason then image_fault r.image_reason else image_unreported

abbrev pub image_alert : String → Runner → Alert
image_alert repo r = record {
  repo = repo;
  check_class = runner_image_missing;
  runner = str r.name;
  detail = image_notice r;
}

unfoldable pub check_image_readiness : String → List Runner → Run (Unit {0})
check_image_readiness repo =
    each (λ r. if image_missing r then raise_alert (image_alert repo r) else stop)

abbrev pub scan_alert : String → Runner → CheckClass × Detail → Alert
scan_alert repo r (c, d) = record {
  repo = repo;
  check_class = scan c;
  runner = str r.name;
  detail = scan_detail d;
}

unfoldable pub check_scan_state : String → List Runner → Run (Unit {0})
check_scan_state repo =
    each (λ r. each (λ found. raise_alert (scan_alert repo r found)) (scan_alerts r))
