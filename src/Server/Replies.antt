-- ===== src/Server/Replies.antt =====
-- hub/server.py: the answers of the handlers, the registry and its file.
use dev_gate_agentic_framewo.Common.{
  ◌≡◌, ◌≢◌, ◌⊎◌, ◌↔◌, refl, Bool, true, false, not, ◌&&◌, Option, none, some, String, ◌==◌,
  string_eq, option_eq, arith, if◌then◌else◌, Bool-cases, inl, inr, ap,
}
use dev_gate_agentic_framewo.Common.Json.{Json, obj, str, Fields}
use dev_gate_agentic_framewo.Common.Result.{Result, ok, err}
use dev_gate_agentic_framewo.Registry.{
  Crash, Registry, Runner, Report, find_runner, is_live, token_of, refresh, heartbeat, verify,
  verify_heartbeat_token,
}
use dev_gate_agentic_framewo.Registry.Calls.{refresh-name}
use dev_gate_agentic_framewo.Registry.Rows.{on_row, find_in-update_in}
use dev_gate_agentic_framewo.Registry.Tokens.{consume_enrollment_token-Consumed}
use dev_gate_agentic_framewo.Server.{
  HubState, Reply, alive, Locked, refused, done, settle, with_registry, Enrollment, answer, attempt,
  Probe, probe_name, probe_repo, probe_fields, enrollment_of, do_enroll, commit_enroll,
  probe_enroll, handle_enroll, do_heartbeat, handle_heartbeat, do_revoke, handle_revoke, Request,
  do_post, status, report_of, get_or_else,
}

-- The row of the name is live and the presented value is its token, which is not empty.
abbrev pub holds_token : Json → Option Runner → Bool
holds_token (str s) (some r) = r.enrolled && not (s == "") && r.heartbeat_token == some s
holds_token _ _ = false

verify-holds_token :
    (presented : Json) (o : Option Runner)
    → ((if is_live o then verify presented (token_of o) else ok false) ≡ ok true)
      ↔ (holds_token presented o ≡ true)
unfolding verify option_eq
verify-holds_token (str s) none = ground arith
verify-holds_token (str s) (some r) = ground arith
verify-holds_token p o = (λ h. ground arith, λ h. ground arith)

-- A heartbeat whose body is an object and whose save succeeds is answered 200 exactly when its name
-- has a live row whose token, not empty, is the one that it presents.
pub heartbeat-alive_iff :
    (fields : Fields) (now : String) (s : HubState)
    → ((handle_heartbeat true (some (obj fields)) now s).1 ≡ alive) ↔ (
        holds_token
          (get_or_else "heartbeat_token" (str "") fields)
          (find_runner (get_or_else "runner_name" (str "") fields) s.registry)
        ≡ true)
unfolding handle_heartbeat with_registry do_heartbeat settle verify_heartbeat_token
heartbeat-alive_iff fields now s =
    let presented : Json = get_or_else "heartbeat_token" (str "") fields in
    let row : Option Runner = find_runner (get_or_else "runner_name" (str "") fields) s.registry in
    (
      λ h. (verify-holds_token presented row).0 (ground arith),
      λ h. rw ((verify-holds_token presented row).1 h),
    )

-- A locked function leaves the registry alone unless it has a reply.
abbrev Quiet : Registry → Result Crash (Registry × Locked) → Type 0
Quiet reg (err crash) = Unit
Quiet reg (ok (r, refused)) = r ≡ reg
Quiet reg (ok (r, done reply)) = status reply ≡ 200

do_enroll-Quiet :
    (e : Enrollment) (now fresh : String) (reg : Registry) → Quiet reg (do_enroll e now fresh reg)
unfolding do_enroll
do_enroll-Quiet e now fresh reg =
    ground (arith, consume_enrollment_token-Consumed "" e.presented reg)

do_heartbeat-Quiet :
    (name presented : Json) (now : String) (report : Report) (reg : Registry)
    → Quiet reg (do_heartbeat name presented now report reg)
unfolding do_heartbeat
do_heartbeat-Quiet name presented now report reg = ground arith

do_revoke-Quiet :
    (name presented : Json) (reg : Registry) → Quiet reg (do_revoke name presented reg)
unfolding do_revoke
do_revoke-Quiet name presented reg = ground arith

-- The request answered 200 and the file holds the new registry, or nothing has changed.
abbrev pub Atomic : HubState → HubState × Reply → Type 0
Atomic s (s', reply) =
    ((status reply ≡ 200) × (s'.saved ≡ some s'.registry)) ⊎ ((status reply ≢ 200) × (s' ≡ s))

settle-Atomic :
    (s : HubState) (r : Result Crash (Registry × Locked))
    → Quiet s.registry r
    → Atomic s (settle true s r)
unfolding settle
settle-Atomic s (err crash) q = inr (omega arith, refl)
settle-Atomic s (ok (r, refused)) q =
    inr (omega arith, ap (λ (g : Registry). record s { registry = g }) q)
settle-Atomic s (ok (r, done reply)) q = inl (q, refl)

handle_heartbeat-Atomic :
    (body : Option Json) (now : String) (s : HubState) → Atomic s (handle_heartbeat true body now s)
unfolding handle_heartbeat with_registry
handle_heartbeat-Atomic (some (obj fields)) now s =
    settle-Atomic s _ (do_heartbeat-Quiet _ _ now (report_of fields) s.registry)
handle_heartbeat-Atomic _ now s = inr (omega arith, refl)

handle_revoke-Atomic : (body : Option Json) (s : HubState) → Atomic s (handle_revoke true body s)
unfolding handle_revoke with_registry
handle_revoke-Atomic (some (obj fields)) s = settle-Atomic s _ (do_revoke-Quiet _ _ s.registry)
handle_revoke-Atomic _ s = inr (omega arith, refl)

-- What is answered before the lock is no success.
abbrev Declines : Probe → Type 0
Declines (answer reply) = status reply ≢ 200
Declines (attempt e) = Unit

probe_name-Declines : (e : Enrollment) (s : HubState) → Declines (probe_name e s)
unfolding probe_name
probe_name-Declines e s = ground arith

probe_repo-Declines :
    (r : Result Crash Bool) (e : Enrollment) (s : HubState) → Declines (probe_repo r e s)
unfolding probe_repo
probe_repo-Declines (err crash) e s = omega arith
probe_repo-Declines (ok false) e s = omega arith
probe_repo-Declines (ok true) e s = probe_name-Declines e s

probe_fields-Declines :
    (name : Json) (fields : Fields) (s : HubState) → Declines (probe_fields name fields s)
unfolding probe_fields
probe_fields-Declines (str name) fields s = elim (Bool-cases (name == "")) [
  | inl e ↦ rw e (omega arith)
  | inr e ↦ rw e (probe_repo-Declines _ (enrollment_of name fields) s)
]
probe_fields-Declines _ fields s = omega arith

probe_enroll-Declines : (body : Option Json) (s : HubState) → Declines (probe_enroll body s)
unfolding probe_enroll
probe_enroll-Declines (some (obj fields)) s = probe_fields-Declines _ fields s
probe_enroll-Declines _ s = omega arith

handle_enroll-Atomic :
    (body : Option Json) (now fresh : String) (s : HubState)
    → Atomic s (handle_enroll true body now fresh s)
unfolding handle_enroll commit_enroll with_registry
handle_enroll-Atomic body now fresh s = go (probe_enroll body s) (probe_enroll-Declines body s)
  where
    go :
        (p : Probe)
        → Declines p
        → Atomic s (elim p as (λ x. HubState × Reply) [
          | answer reply ↦ (s, reply)
          | attempt e ↦ settle true s (do_enroll e now fresh s.registry)
        ])
    go (answer reply) k = inr (k, refl)
    go (attempt e) k = settle-Atomic s _ (do_enroll-Quiet e now fresh s.registry)

-- While saves succeed, a request that is answered 200 leaves the file holding the very registry in
-- memory, and a request with any other outcome, an exception included, leaves the hub's registry
-- and file as they were: an enrollment or a revocation is never half done.
pub do_post-Atomic : (q : Request) (s : HubState) → q.saves ≡ true → Atomic s (do_post q s)
unfolding do_post
do_post-Atomic q s h = rw h (elim (Bool-cases (q.path == "/enroll")) [
  | inl e ↦ rw e (handle_enroll-Atomic q.body q.now q.fresh s)
  | inr e ↦ elim (Bool-cases (q.path == "/heartbeat")) [
    | inl b ↦ rw (e, b) (handle_heartbeat-Atomic q.body q.now s)
    | inr b ↦ elim (Bool-cases (q.path == "/revoke")) [
      | inl r ↦ rw (e, b, r) (handle_revoke-Atomic q.body s)
      | inr r ↦ rw (e, b, r) (inr (omega arith, refl))
    ]
  ]
])

-- The row of a name after a heartbeat for a name: only the named row moves, and its image and scan
-- fields take exactly what the body has a key for, an explicit null included.
pub heartbeat-rows :
    (x y now : String) (report : Report) (reg : Registry)
    → is_live (find_runner (str x) reg) ≡ true
    → find_runner (str y) (heartbeat (str x) now report reg).0 ≡ (
        if y == x
        then on_row (refresh now report) (find_runner (str y) reg)
        else find_runner (str y) reg)
unfolding heartbeat find_runner
heartbeat-rows x y now report reg live =
    rw live (find_in-update_in (refresh now report) (refresh-name now report) y x reg.runners)
