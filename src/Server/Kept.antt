-- ===== src/Server/Kept.antt =====
-- hub/server.py: conditions on the registry, carried through the handlers.
use dev_gate_agentic_framewo.Common.{
  ◌≡◌, Bool, true, false, Option, none, some, List, [], ◌∷◌, String, ◌==◌, string_eq, arith,
  Bool-cases, inl, inr,
}
use dev_gate_agentic_framewo.Common.Json.{Json, obj, str, Fields, get_field, or_null}
use dev_gate_agentic_framewo.Common.Result.{Result, ok, err}
use dev_gate_agentic_framewo.Registry.{Crash, Registry, Report, find_runner}
use dev_gate_agentic_framewo.Server.{
  HubState, Reply, Locked, refused, done, settle, with_registry, Enrollment, Probe, answer, attempt,
  probe_name, probe_fields, probe_repo, enrollment_of, probe_enroll, repo_matches, do_enroll,
  commit_enroll, handle_enroll, report_of, do_heartbeat, handle_heartbeat, do_revoke, handle_revoke,
  Request, do_post, serve,
}

abbrev pub Post : (Registry → Type 0) → Result Crash (Registry × Locked) → Type 0
Post P (err crash) = Unit
Post P (ok (reg, l)) = P reg

settle-Post :
    (P : Registry → Type 0) (saves : Bool) (s : HubState) (r : Result Crash (Registry × Locked))
    → P s.registry
    → Post P r
    → P (settle saves s r).0.registry
unfolding settle
settle-Post P saves s (err crash) h k = h
settle-Post P saves s (ok (reg, refused)) h k = k
settle-Post P true s (ok (reg, done reply)) h k = k
settle-Post P false s (ok (reg, done reply)) h k = k

-- An enrollment reaches the lock only under a name that no row has.
abbrev pub Passed : HubState → Probe → Type 0
Passed s (answer reply) = Unit
Passed s (attempt e) = find_runner (str e.name) s.registry ≡ none

probe_name-Passed : (e : Enrollment) (s : HubState) → Passed s (probe_name e s)
unfolding probe_name
probe_name-Passed e s = ground arith

probe_repo-Passed :
    (r : Result Crash Bool) (e : Enrollment) (s : HubState) → Passed s (probe_repo r e s)
unfolding probe_repo
probe_repo-Passed (err crash) e s = tt
probe_repo-Passed (ok false) e s = tt
probe_repo-Passed (ok true) e s = probe_name-Passed e s

probe_fields-Passed :
    (name : Json) (fields : Fields) (s : HubState) → Passed s (probe_fields name fields s)
unfolding probe_fields
probe_fields-Passed (str name) fields s = elim (Bool-cases (name == "")) [
  | inl e ↦ rw e tt
  | inr e ↦ rw e (
      probe_repo-Passed (repo_matches (or_null (get_field "repo" fields)))
        (enrollment_of name fields) s)
]
probe_fields-Passed _ fields s = tt

pub probe_enroll-Passed : (body : Option Json) (s : HubState) → Passed s (probe_enroll body s)
unfolding probe_enroll
probe_enroll-Passed (some (obj fields)) s = probe_fields-Passed _ fields s
probe_enroll-Passed _ s = tt

module _ (P : Registry → Type 0) where
  -- The condition is kept by the three functions that run under the lock.
  pub record IsKept : Type 0 where
    pub enrolls :
        (e : Enrollment) (now fresh : String) (reg : Registry)
        → find_runner (str e.name) reg ≡ none
        → P reg
        → Post P (do_enroll e now fresh reg)
    pub beats :
        (name presented : Json) (now : String) (report : Report) (reg : Registry)
        → P reg
        → Post P (do_heartbeat name presented now report reg)
    pub revokes :
        (name presented : Json) (reg : Registry) → P reg → Post P (do_revoke name presented reg)

module _ (P : Registry → Type 0) (kept : IsKept P) where
  handle_enroll-kept :
      (saves : Bool) (body : Option Json) (now fresh : String) (s : HubState)
      → P s.registry
      → P (handle_enroll saves body now fresh s).0.registry
  unfolding handle_enroll commit_enroll with_registry
  handle_enroll-kept saves body now fresh s h =
      go (probe_enroll body s) (probe_enroll-Passed body s)
    where
      go :
          (p : Probe)
          → Passed s p
          → P
              (elim p as (λ x. HubState × Reply) [
                | answer reply ↦ (s, reply)
                | attempt e ↦ settle saves s (do_enroll e now fresh s.registry)
              ]).0.registry
      go (answer reply) k = h
      go (attempt e) k = settle-Post P saves s _ h (kept.enrolls e now fresh s.registry k h)

  handle_heartbeat-kept :
      (saves : Bool) (body : Option Json) (now : String) (s : HubState)
      → P s.registry
      → P (handle_heartbeat saves body now s).0.registry
  unfolding handle_heartbeat with_registry
  handle_heartbeat-kept saves (some (obj fields)) now s h =
      settle-Post P saves s _ h (kept.beats _ _ now (report_of fields) s.registry h)
  handle_heartbeat-kept saves _ now s h = h

  handle_revoke-kept :
      (saves : Bool) (body : Option Json) (s : HubState)
      → P s.registry
      → P (handle_revoke saves body s).0.registry
  unfolding handle_revoke with_registry
  handle_revoke-kept saves (some (obj fields)) s h =
      settle-Post P saves s _ h (kept.revokes _ _ s.registry h)
  handle_revoke-kept saves _ s h = h

  pub do_post-kept : (q : Request) (s : HubState) → P s.registry → P (do_post q s).0.registry
  unfolding do_post
  do_post-kept q s h = elim (Bool-cases (q.path == "/enroll")) [
    | inl e ↦ rw e (handle_enroll-kept q.saves q.body q.now q.fresh s h)
    | inr e ↦ elim (Bool-cases (q.path == "/heartbeat")) [
      | inl b ↦ rw (e, b) (handle_heartbeat-kept q.saves q.body q.now s h)
      | inr b ↦ elim (Bool-cases (q.path == "/revoke")) [
        | inl r ↦ rw (e, b, r) (handle_revoke-kept q.saves q.body s h)
        | inr r ↦ rw (e, b, r) h
      ]
    ]
  ]

  pub serve-kept : (s : HubState) (qs : List Request) → P s.registry → P (serve s qs).registry
  serve-kept s [] h = h
  serve-kept s (q ∷ qs) h = serve-kept (do_post q s).0 qs (do_post-kept q s h)
