-- ===== src/Examples/Notices.antt =====
-- Two alerts of one key within its cooldown.
use dev_gate_agentic_framewo.Common.{
  ℕ, ◌+◌, ◌≡◌, refl, true, none, some, List, [], ◌∷◌, is_some, string_eq, nat_eq, arith,
}
use dev_gate_agentic_framewo.Common.Result.{ok}
use dev_gate_agentic_framewo.Alerts.{Key, Notifier, Weather, recall, title_key, lstrip, rstrip}
use dev_gate_agentic_framewo.Common.Text.{is_space}
use dev_gate_agentic_framewo.Alerts.Cache.{filings, raise_all-filings}
use dev_gate_agentic_framewo.Alerts.Dedupe.{
  Alarm, raise_all, comments, AllWithin, raise_all-cooldown,
}

abbrev offline : Key
offline = record { repo = "acme/app"; check_class = "runner_offline"; runner = "east" }

abbrev notifier : Notifier
notifier = record {
  has_token = true;
  cooldown = 3600;
  open_issues = (offline, 12) ∷ [];
  last_comment = (offline, 100) ∷ [];
  log = [];
  writes = [];
}

abbrev at : ℕ → Weather
at now = record {
  ts = "t";
  mono = now;
  found = ok none;
  filed_as = ok (some 13);
  commenting = ok tt;
}

abbrev alarms : List Alarm
alarms = (offline, ("stale", at 200)) ∷ (offline, ("stale", at 3600)) ∷ []

offline-commented : recall offline notifier.last_comment ≡ some 100
unfolding recall string_eq
offline-commented = refl

alarms-AllWithin : AllWithin (100 + notifier.cooldown) alarms
alarms-AllWithin = (omega arith, (omega arith, tt))

raise_all-cooldown_example :
    comments offline (raise_all notifier alarms) ≡ comments offline notifier
raise_all-cooldown_example =
    raise_all-cooldown offline 100 notifier alarms offline-commented alarms-AllWithin

offline-known : is_some (recall (title_key offline) notifier.open_issues) ≡ true
unfolding recall lstrip rstrip string_eq nat_eq is_space
offline-known = refl

raise_all-filings_example : filings offline (raise_all notifier alarms) ≡ filings offline notifier
raise_all-filings_example = raise_all-filings offline notifier alarms offline-known
