-- ===== src/Alerts/Dedupe.antt =====
-- hub/alerts.py: the log and the comments over sequences of alerts.
use dev_gate_agentic_framewo.Common.{
  ℕ, ◌+◌, ◌<◌, ◌≡◌, refl, sym, ap, ◌∙◌, count-append, String, Bool, true, false, Option, none, some,
  List, [], ◌∷◌, ◌++◌, string_eq, if◌then◌else◌, arith, Bool-cases, inl, inr, count, map,
}
use mathlib.Core.Path.{subst}
use mathlib.Core.List.{append-nil, append_assoc}
use dev_gate_agentic_framewo.Common.Result.{Result, ok, err, ◌>>=◌}
use dev_gate_agentic_framewo.Alerts.{
  Key, Outage, same_key, title_key, recall, store, Entry, Write, filed, commented, Notifier,
  Weather, append_log, remember, find_open_issue, in_cooldown, write, stamp, comment_on_issue,
  file_issue, deliver, raise_alert, filed_number,
}

-- One alert after another, each with its detail and what its calls meet.
abbrev pub Alarm : Type 0
Alarm = Key × (String × Weather)

abbrev pub raise_all : Notifier → List Alarm → Notifier
raise_all n [] = n
raise_all n ((k, (detail, w)) ∷ rest) = raise_all (raise_alert k detail w n) rest

abbrev pub entry_of : Alarm → Entry
entry_of (k, (detail, w)) = record { ts = w.ts; key = k; detail = detail }

remember-log : (k : Key) (o : Option ℕ) (n : Notifier) → (remember k o n).log ≡ n.log
remember-log k none n = refl
remember-log k (some x) n = refl

deliver-log :
    (k : Key) (w : Weather) (n : Notifier) → (deliver k w n (find_open_issue k w n)).log ≡ n.log
unfolding deliver find_open_issue comment_on_issue file_issue
deliver-log k w n = ground arith

raise_alert-log :
    (k : Key) (detail : String) (w : Weather) (n : Notifier)
    → (raise_alert k detail w n).log ≡ n.log ++ (entry_of (k, (detail, w)) ∷ [])
unfolding raise_alert
raise_alert-log k detail w n =
    ground (arith, deliver-log k w (append_log (entry_of (k, (detail, w))) n))

raise_all-log_from :
    (n : Notifier) (alarms : List Alarm) → (raise_all n alarms).log ≡ n.log ++ map entry_of alarms
raise_all-log_from n [] = sym (append-nil n.log)
raise_all-log_from n ((k, (detail, w)) ∷ rest) =
    raise_all-log_from (raise_alert k detail w n) rest
    ∙ (ap (λ (l : List Entry). l ++ map entry_of rest) (raise_alert-log k detail w n)
        ∙ append_assoc n.log (entry_of (k, (detail, w)) ∷ []) (map entry_of rest))

-- Every alert is logged: over any alerts the log grows by exactly one line for each, in their
-- order, whatever the searches, filings and comments meet, a missing token included.
pub raise_all-log :
    (n : Notifier) (alarms : List Alarm) → (raise_all n alarms).log ≡ n.log ++ map entry_of alarms
raise_all-log = raise_all-log_from

pub recall-store :
    (j k : Key) (v : ℕ) (d : List (Key × ℕ))
    → recall j (store k v d) ≡ (if same_key j k then some v else recall j d)
unfolding recall store
recall-store j k v [] = ground arith
recall-store j k v ((i, w) ∷ d) = ground (arith, recall-store j k v d)

-- The comments that alerts of a key have sent, among the requests.
abbrev pub is_comment_on : Key → Write → Bool
is_comment_on k (filed j) = false
is_comment_on k (commented j number) = same_key k j

abbrev pub comments : Key → Notifier → ℕ
comments k n = count (is_comment_on k) n.writes

-- Every alert comes before the limit.
abbrev pub AllWithin : ℕ → List Alarm → Type 0
AllWithin limit [] = Unit
AllWithin limit ((k, (detail, w)) ∷ rest) = (w.mono < limit) × AllWithin limit rest

-- What an alert keeps of a key that is in its cooldown.
abbrev Kept : Key → Notifier → Notifier → Type 0
Kept k n n' =
    (recall k n'.last_comment ≡ recall k n.last_comment)
    × (comments k n' ≡ comments k n)
    × (n'.cooldown ≡ n.cooldown)

pub same_key-eq : (a b : Key) → same_key a b ≡ true → a ≡ b
same_key-eq a b h = ground arith

-- A comment that an alert of another key sends.
stamp-Kept :
    (k j : Key) (number now : ℕ) (r : Result Outage (Unit {0})) (n : Notifier)
    → same_key k j ≡ false
    → Kept k n (stamp j now r (write (commented j number) n))
stamp-Kept k j number now (ok x) n h =
    (rw (recall-store, h), rw (count-append, h) (omega arith), refl)
stamp-Kept k j number now (err p) n h = (refl, rw (count-append, h) (omega arith), refl)

comment_on_issue-quiet :
    (k : Key) (number last : ℕ) (w : Weather) (n : Notifier)
    → recall k n.last_comment ≡ some last
    → w.mono < last + n.cooldown
    → comment_on_issue k number w n ≡ n
unfolding comment_on_issue in_cooldown
comment_on_issue-quiet k number last w n h lt = rw h (ground arith)

comment_on_issue-Kept :
    (k j : Key) (number last : ℕ) (w : Weather) (n : Notifier)
    → recall k n.last_comment ≡ some last
    → w.mono < last + n.cooldown
    → Kept k n (comment_on_issue j number w n)
unfolding comment_on_issue in_cooldown
comment_on_issue-Kept k j number last w n h lt = elim (Bool-cases (same_key k j)) [
  | inl same ↦
      subst (λ i. Kept k n (comment_on_issue i number w n)) (same_key-eq k j same)
        (rw (comment_on_issue-quiet k number last w n h lt) (refl, refl, refl))
  | inr other ↦ elim (Bool-cases (in_cooldown n.cooldown w.mono (recall j n.last_comment))) [
    | inl quiet ↦ rw quiet (refl, refl, refl)
    | inr loud ↦ rw loud (stamp-Kept k j number w.mono w.commenting n other)
  ]
]

remember-Kept : (k j : Key) (o : Option ℕ) (n : Notifier) → Kept k n (remember j o n)
remember-Kept k j none n = (refl, refl, refl)
remember-Kept k j (some x) n = (refl, refl, refl)

Kept-trans : (k : Key) (a b c : Notifier) → Kept k a b → Kept k b c → Kept k a c
Kept-trans k a b c h h' = (h'.0 ∙ h.0, h'.1 ∙ h.1, h'.2 ∙ h.2)

file_issue-Kept : (k j : Key) (w : Weather) (n : Notifier) → Kept k n (file_issue j w n)
unfolding file_issue
file_issue-Kept k j w n =
    Kept-trans k n (write (filed j) n) (file_issue j w n)
      (refl, rw count-append (omega arith), refl)
      (remember-Kept k j (filed_number w.filed_as) (write (filed j) n))

-- What the search has left behind.
abbrev Searched : Key → Notifier → Result Outage (Notifier × Option ℕ) → Type 0
Searched k n (err _) = Unit
Searched k n (ok (n', _)) = Kept k n n'

find_open_issue-Searched :
    (k j : Key) (w : Weather) (n : Notifier) → Searched k n (find_open_issue j w n)
unfolding find_open_issue
find_open_issue-Searched k j w n = go (recall (title_key j) n.open_issues) w.found
  where
    go :
        (o : Option ℕ) (r : Result Outage (Option ℕ))
        → Searched k n (elim o as (λ x. Result Outage (Notifier × Option ℕ)) [
          | some number ↦ ok (n, some number)
          | none ↦ r >>= λ found. ok (remember (title_key j) found n, found)
        ])
    go (some number) r = (refl, refl, refl)
    go none (err p) = tt
    go none (ok found) = remember-Kept k (title_key j) found n

deliver-Kept :
    (k j : Key) (last : ℕ) (w : Weather) (n : Notifier) (r : Result Outage (Notifier × Option ℕ))
    → Searched k n r
    → recall k n.last_comment ≡ some last
    → w.mono < last + n.cooldown
    → Kept k n (deliver j w n r)
unfolding deliver
deliver-Kept k j last w n (err p) q h lt = (refl, refl, refl)
deliver-Kept k j last w n (ok (n', some number)) q h lt =
    Kept-trans k n n' (comment_on_issue j number w n') q
      (comment_on_issue-Kept k j number last w n' (q.0 ∙ h) (rw q.2 lt))
deliver-Kept k j last w n (ok (n', none)) q h lt =
    Kept-trans k n n' (file_issue j w n') q (file_issue-Kept k j w n')

raise_alert-Kept :
    (k j : Key) (detail : String) (last : ℕ) (w : Weather) (n : Notifier)
    → recall k n.last_comment ≡ some last
    → w.mono < last + n.cooldown
    → Kept k n (raise_alert j detail w n)
unfolding raise_alert
raise_alert-Kept k j detail last w n h lt = either _ n.has_token (
    deliver-Kept k j last w (append_log (entry_of (j, (detail, w))) n) _
      (find_open_issue-Searched k j w (append_log (entry_of (j, (detail, w))) n)) h lt)
  where
    either :
        (x : Notifier) (b : Bool)
        → Kept k n x
        → Kept k n (if b then x else append_log (entry_of (j, (detail, w))) n)
    either x true q = q
    either x false q = (refl, refl, refl)

-- While the cooldown of a key's last comment is on, no further comment is sent for that key: over any
-- alerts, of this key and of others, that come before the cooldown ends, the number of the comments
-- that alerts of this key have sent stays. An alert of another key is bound by that key's own cooldown
-- only, also where the two keys have come to the same issue.
pub raise_all-cooldown :
    (k : Key) (last : ℕ) (n : Notifier) (alarms : List Alarm)
    → recall k n.last_comment ≡ some last
    → AllWithin (last + n.cooldown) alarms
    → comments k (raise_all n alarms) ≡ comments k n
raise_all-cooldown k last n [] h within = refl
raise_all-cooldown k last n ((j, (detail, w)) ∷ rest) h within =
    let (same_time, same_count, same_cooldown) = raise_alert-Kept k j detail last w n h within.0 in
    raise_all-cooldown k last (raise_alert j detail w n) rest (same_time ∙ h)
      (rw same_cooldown within.1)
    ∙ same_count
