-- ===== src/Alerts.antt =====
-- hub/alerts.py: an alert is logged, and filed as an issue or commented on the open one.
pub mod Dedupe
pub mod Cache
use dev_gate_agentic_framewo.Common.{
  ℕ, ◌+◌, ◌-◌, String, Bool, true, false, not, Option, none, some, List, [], ◌∷◌, ◌++◌, ◌<>◌, ◌==◌,
  string_eq, if◌then◌else◌, ◌&&◌, ltb,
}
use Prim.Native.Char.{code}
use dev_gate_agentic_framewo.Common.Text.{is_space}
use dev_gate_agentic_framewo.Common.Result.{Result, ok, err, ◌>>=◌}

-- (repo, check_class, runner), whose runner is a text
pub record Key : Type 0 where
  pub repo : String
  pub check_class : String
  pub runner : String

abbrev pub same_key : Key → Key → Bool
same_key a b = a.repo == b.repo && a.check_class == b.check_class && a.runner == b.runner

unfoldable pub recall {ℓ} : {V : Type ℓ} → Key → List (Key × V) → Option V
recall k [] = none
recall k ((j, v) ∷ d) = let rest = recall k d in if same_key k j then some v else rest

unfoldable pub store {ℓ} : {V : Type ℓ} → Key → V → List (Key × V) → List (Key × V)
store k v [] = (k, v) ∷ []
store k v ((j, w) ∷ d) =
    let rest = store k v d in if same_key k j then (j, v) ∷ d else (j, w) ∷ rest

-- One line of the day's log file, the path of the log being the text of the day.
pub record Entry : Type 0 where
  pub ts : String
  pub key : Key
  pub detail : String

-- What GitHub is asked to do.
pub data Write : Type 0 where
  filed : Key → Write
  commented : Key → ℕ → Write

-- The notifier's memory, its log and the requests that it has sent. Times are monotonic
-- microseconds.
pub record Notifier : Type 0 where
  pub has_token : Bool
  pub cooldown : ℕ
  pub open_issues : List (Key × ℕ)
  pub last_comment : List (Key × ℕ)
  pub log : List Entry
  pub writes : List Write

-- An exception other than HTTPError, such as a refused connection.
pub data Outage : Type 0 where
  outage : Outage

-- What the calls of one delivery meet: the number that the search finds, the number that filing
-- gives (none for an HTTP error), and whether the comment is sent; each may raise.
pub record Weather : Type 0 where
  pub ts : String
  pub mono : ℕ
  pub found : Result Outage (Option ℕ)
  pub filed_as : Result Outage (Option ℕ)
  pub commenting : Result Outage (Unit {0})

abbrev pub append_log : Entry → Notifier → Notifier
append_log e n = record n { log = n.log ++ (e ∷ []) }

abbrev pub remember : Key → Option ℕ → Notifier → Notifier
remember k none n = n
remember k (some number) n = record n { open_issues = store k number n.open_issues }

unfoldable pub lstrip : String → String
lstrip String.[] = ""
lstrip (String.◌∷◌ c s) = if is_space (code c) then lstrip s else String.◌∷◌ c s

unfoldable pub rstrip : String → String
rstrip String.[] = ""
rstrip (String.◌∷◌ c s) =
    let rest = rstrip s in if is_space (code c) && rest == "" then "" else String.◌∷◌ c rest

abbrev pub strip : String → String
strip s = rstrip (lstrip s)

-- `_key_from_title` of the title that the key has; the check classes have no colon.
abbrev pub title_key : Key → Key
title_key k = record k { check_class = strip k.check_class; runner = strip k.runner }

-- `_find_open_issue`: the search, which remembers the number that it finds.
unfoldable pub find_open_issue : Key → Weather → Notifier → Result Outage (Notifier × Option ℕ)
find_open_issue k w n = elim (recall (title_key k) n.open_issues) [
  | some number ↦ ok (n, some number)
  | none ↦ w.found >>= λ found. ok (remember (title_key k) found n, found)
]

-- `last is not None and now_mono - last < cooldown`
unfoldable pub in_cooldown : ℕ → ℕ → Option ℕ → Bool
in_cooldown cooldown now none = false
in_cooldown cooldown now (some last) = ltb now (last + cooldown)

abbrev pub write : Write → Notifier → Notifier
write x n = record n { writes = n.writes ++ (x ∷ []) }

-- The comment's time is stored only after it was sent without an exception.
abbrev pub stamp : Key → ℕ → Result Outage (Unit {0}) → Notifier → Notifier
stamp k now (ok _) n = record n { last_comment = store k now n.last_comment }
stamp k now (err _) n = n

-- A recurrence of an issue that is open.
unfoldable pub comment_on_issue : Key → ℕ → Weather → Notifier → Notifier
comment_on_issue k number w n =
    if in_cooldown n.cooldown w.mono (recall k n.last_comment)
    then n
    else stamp k w.mono w.commenting (write (commented k number) n)

abbrev pub filed_number : Result Outage (Option ℕ) → Option ℕ
filed_number (ok number) = number
filed_number (err _) = none

-- The first occurrence.
unfoldable pub file_issue : Key → Weather → Notifier → Notifier
file_issue k w n = remember k (filed_number w.filed_as) (write (filed k) n)

-- What the search gives, and the exception that `raise_alert` swallows.
unfoldable pub deliver : Key → Weather → Notifier → Result Outage (Notifier × Option ℕ) → Notifier
deliver k w n (err _) = n
deliver k w n (ok (n', some number)) = comment_on_issue k number w n'
deliver k w n (ok (n', none)) = file_issue k w n'

unfoldable pub raise_alert : Key → String → Weather → Notifier → Notifier
raise_alert k detail w n =
    let logged : Notifier = append_log (record { ts = w.ts; key = k; detail = detail }) n in
    if n.has_token then deliver k w logged (find_open_issue k w logged) else logged

-- NullNotifier.raise_alert
unfoldable pub log_only : Key → String → String → List Entry → List Entry
log_only k detail ts log = log ++ (record { ts = ts; key = k; detail = detail } ∷ [])
