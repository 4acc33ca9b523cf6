-- ===== src/Alerts/Cache.antt =====
-- hub/alerts.py: the issue cache over sequences of alerts.
use dev_gate_agentic_framewo.Common.{
  ℕ, ◌≡◌, ◌⊎◌, refl, ◌∙◌, String, Bool, true, false, Option, none, some, is_some, List, [], ◌∷◌,
  string_eq, if◌then◌else◌, arith, Bool-cases, inl, inr, count, count-append,
}
use mathlib.Core.Path.{subst}
use dev_gate_agentic_framewo.Common.Result.{Result, ok, err, ◌>>=◌}
use dev_gate_agentic_framewo.Alerts.{
  Key, Outage, same_key, title_key, recall, Write, filed, commented, Notifier, Weather, append_log,
  remember, find_open_issue, in_cooldown, write, stamp, comment_on_issue, file_issue, deliver,
  raise_alert, filed_number,
}
use dev_gate_agentic_framewo.Alerts.Dedupe.{Alarm, raise_all, entry_of, recall-store, same_key-eq}

-- The cache has a number under the key that the title gives back.
abbrev pub IsKnown : Key → Notifier → Type 0
IsKnown k n = is_some (recall (title_key k) n.open_issues) ≡ true

abbrev pub is_filing_of : Key → Write → Bool
is_filing_of k (filed j) = same_key k j
is_filing_of k (commented j number) = false

-- The issues that the notifier has asked GitHub to open for the key.
abbrev pub filings : Key → Notifier → ℕ
filings k n = count (is_filing_of k) n.writes

abbrev Keeps : Key → Notifier → Notifier → Type 0
Keeps k n n' = IsKnown k n' × (filings k n' ≡ filings k n)

remember-Keeps :
    (k j : Key) (o : Option ℕ) (n : Notifier) → IsKnown k n → Keeps k n (remember j o n)
remember-Keeps k j none n known = (known, refl)
remember-Keeps k j (some x) n known = (rw recall-store (ground arith), refl)

stamp-Keeps :
    (k j : Key) (number now : ℕ) (r : Result Outage (Unit {0})) (n : Notifier)
    → IsKnown k n
    → Keeps k n (stamp j now r (write (commented j number) n))
stamp-Keeps k j number now (ok x) n known = (known, rw count-append (omega arith))
stamp-Keeps k j number now (err p) n known = (known, rw count-append (omega arith))

comment_on_issue-Keeps :
    (k j : Key) (number : ℕ) (w : Weather) (n : Notifier)
    → IsKnown k n
    → Keeps k n (comment_on_issue j number w n)
unfolding comment_on_issue
comment_on_issue-Keeps k j number w n known =
    elim (Bool-cases (in_cooldown n.cooldown w.mono (recall j n.last_comment))) [
      | inl quiet ↦ rw quiet (known, refl)
      | inr loud ↦ rw loud (stamp-Keeps k j number w.mono w.commenting n known)
    ]

-- An issue filed under another key.
file_issue-Keeps :
    (k j : Key) (w : Weather) (n : Notifier)
    → same_key k j ≡ false
    → IsKnown k n
    → Keeps k n (file_issue j w n)
unfolding file_issue
file_issue-Keeps k j w n other known =
    let (known', same) = remember-Keeps k j (filed_number w.filed_as) (write (filed j) n) known in
    (known', same ∙ rw (count-append, other) (omega arith))

deliver-Keeps_other :
    (k j : Key) (w : Weather) (n : Notifier)
    → same_key k j ≡ false
    → IsKnown k n
    → Keeps k n (deliver j w n (find_open_issue j w n))
unfolding deliver find_open_issue
deliver-Keeps_other k j w n other known = go (recall (title_key j) n.open_issues) w.found
  where
    file_after : (n' : Notifier) → Keeps k n n' → Keeps k n (file_issue j w n')
    file_after n' q = let (a, b) = file_issue-Keeps k j w n' other q.0 in (a, b ∙ q.1)

    comment_after :
        (n' : Notifier) (number : ℕ) → Keeps k n n' → Keeps k n (comment_on_issue j number w n')
    comment_after n' number q =
        let (a, b) = comment_on_issue-Keeps k j number w n' q.0 in (a, b ∙ q.1)

    go :
        (o : Option ℕ) (r : Result Outage (Option ℕ))
        → Keeps k n (
            deliver j w n (elim o as (λ x. Result Outage (Notifier × Option ℕ)) [
              | some number ↦ ok (n, some number)
              | none ↦ r >>= λ found. ok (remember (title_key j) found n, found)
            ]))
    go (some number) r = comment_after n number (known, refl)
    go none (err p) = (known, refl)
    go none (ok none) = file_after n (known, refl)
    go none (ok (some x)) =
        comment_after (remember (title_key j) (some x) n) x
          (remember-Keeps k (title_key j) (some x) n known)

deliver-Keeps_same :
    (k : Key) (w : Weather) (n : Notifier)
    → IsKnown k n
    → Keeps k n (deliver k w n (find_open_issue k w n))
unfolding deliver find_open_issue
deliver-Keeps_same k w n known = go (recall (title_key k) n.open_issues) known w.found
  where
    go :
        (o : Option ℕ)
        → is_some o ≡ true
        → (r : Result Outage (Option ℕ))
        → Keeps k n (
            deliver k w n (elim o as (λ x. Result Outage (Notifier × Option ℕ)) [
              | some number ↦ ok (n, some number)
              | none ↦ r >>= λ found. ok (remember (title_key k) found n, found)
            ]))
    go (some number) h r = comment_on_issue-Keeps k k number w n known
    go none h r = absurd (ground arith)

raise_alert-Keeps :
    (k j : Key) (detail : String) (w : Weather) (n : Notifier)
    → IsKnown k n
    → Keeps k n (raise_alert j detail w n)
unfolding raise_alert
raise_alert-Keeps k j detail w n known =
    either _ n.has_token (delivered (Bool-cases (same_key k j)))
  where
    delivered :
        (same_key k j ≡ true) ⊎ (same_key k j ≡ false)
        → Keeps k n (
            deliver j w
              (append_log (entry_of (j, (detail, w))) n)
              (find_open_issue j w (append_log (entry_of (j, (detail, w))) n)))
    delivered (inl same) =
        subst
          (λ i. Keeps k n (
            deliver i w (append_log (entry_of (j, (detail, w))) n)
              (find_open_issue i w (append_log (entry_of (j, (detail, w))) n))))
          (same_key-eq k j same)
          (deliver-Keeps_same k w (append_log (entry_of (j, (detail, w))) n) known)
    delivered (inr other) =
        deliver-Keeps_other k j w (append_log (entry_of (j, (detail, w))) n) other known

    either :
        (x : Notifier) (b : Bool)
        → Keeps k n x
        → Keeps k n (if b then x else append_log (entry_of (j, (detail, w))) n)
    either x true q = q
    either x false q = (known, refl)

-- Once an issue number is remembered for a key, no alert ever opens another issue for it: over any
-- alerts and whatever the searches would find, the number of issues filed for the key stays,
-- also when the issue has been closed.
pub raise_all-filings :
    (k : Key) (n : Notifier) (alarms : List Alarm)
    → is_some (recall (title_key k) n.open_issues) ≡ true
    → filings k (raise_all n alarms) ≡ filings k n
raise_all-filings k n [] known = refl
raise_all-filings k n ((j, (detail, w)) ∷ rest) known =
    let (known', same) = raise_alert-Keeps k j detail w n known in
    raise_all-filings k (raise_alert j detail w n) rest known' ∙ same
