-- ===== src/Server/Accounts.antt =====
-- hub/server.py: sequences of requests, by rows, tokens, names and revoked runners.
use dev_gate_agentic_framewo.Common.{
  suc, ◌≡◌, ◌∙◌, refl, sym, ap, Bool, true, false, some, List, [], ◌∷◌, ◌++◌, length, length-append,
  String, string_eq, arith, if◌then◌else◌,
}
use mathlib.Core.Path.{subst}
use mathlib.Core.List.{append-nil, append_assoc}
use dev_gate_agentic_framewo.Common.Json.{str, Fields, obj, get_field, or_null, truthy}
use dev_gate_agentic_framewo.Common.Result.{Result, ok, err, ◌>>=◌}
use dev_gate_agentic_framewo.Registry.{
  Crash, Registry, Runner, find_runner, find_in, enroll, new_runner, consume_enrollment_token,
}
use dev_gate_agentic_framewo.Registry.Rows.{names, NodupNames, append-NodupNames}
use dev_gate_agentic_framewo.Registry.Tokens.{Consumed, consume_enrollment_token-Consumed}
use dev_gate_agentic_framewo.Registry.Calls.{
  Gone, heartbeat-Gone, revoke-Gone, enroll-Gone, verify_heartbeat_token-Gone, Grown,
  Grown-heartbeat, Grown-revoke, heartbeat-NodupNames, revoke-NodupNames,
}
use dev_gate_agentic_framewo.Server.{
  HubState, unknown_or_revoked_token, refused, done, enrolled_as, settle, with_registry, Enrollment,
  do_enroll, do_heartbeat, handle_heartbeat, do_revoke, Request, serve, get_or_else,
}
use dev_gate_agentic_framewo.Server.Kept.{IsKept, Post, serve-kept}

-- A condition on the rows: an enrollment either leaves them alone or adds the new one at the end.
do_enroll-rows :
    (P : List Runner → Type 0) (e : Enrollment) (now fresh : String) (reg : Registry)
    → P reg.runners
    → P (reg.runners ++ (new_runner e.name e.repo e.labels e.host_alias now fresh ∷ []))
    → Post (λ r. P r.runners) (do_enroll e now fresh reg)
unfolding do_enroll enroll
do_enroll-rows P e now fresh reg old new =
    go (consume_enrollment_token e.presented reg)
      (consume_enrollment_token-Consumed "" e.presented reg)
  where
    go :
        (r : Result Crash (Registry × Bool))
        → Consumed "" e.presented reg r
        → Post
            (λ r'. P r'.runners)
            (r >>= λ taken. ok (
              if taken.1
              then (
                enroll (new_runner e.name e.repo e.labels e.host_alias now fresh) taken.0,
                done (enrolled_as e.name fresh),
              )
              else (taken.0, refused)))
    go (err crash) k = tt
    go (ok (r', true)) k =
        subst (λ rows. P (rows ++ (new_runner e.name e.repo e.labels e.host_alias now fresh ∷ [])))
          (sym k.0) new
    go (ok (r', false)) k = subst (λ (r'' : Registry). P r''.runners) (sym k) old

names-append : (rs ss : List Runner) → names (rs ++ ss) ≡ names rs ++ names ss
names-append [] ss = refl
names-append (r ∷ rs) ss = ap (λ ns. r.name ∷ ns) (names-append rs ss)

-- A row that /enroll adds, for a token that it takes.
enroll-Grown :
    (r : Runner) (before reg taken : Registry)
    → Grown before reg
    → taken.runners ≡ reg.runners
    → length reg.enrollment_tokens ≡ suc (length taken.enrollment_tokens)
    → Grown before (enroll r taken)
unfolding enroll
enroll-Grown r before reg taken (added, kept, used) same less = (
  added ++ (r.name ∷ []),
  names-append taken.runners (r ∷ [])
      ∙ (ap (λ rows. names rows ++ (r.name ∷ [])) same
          ∙ (ap (λ ns. ns ++ (r.name ∷ [])) kept ∙ append_assoc (names before.runners) added _)),
  rw (length-append added (r.name ∷ [])) (omega arith),
)

do_enroll-Grown :
    (before : Registry) (e : Enrollment) (now fresh : String) (reg : Registry)
    → Grown before reg
    → Post (Grown before) (do_enroll e now fresh reg)
unfolding do_enroll
do_enroll-Grown before e now fresh reg h =
    go (consume_enrollment_token e.presented reg)
      (consume_enrollment_token-Consumed "" e.presented reg)
  where
    go :
        (r : Result Crash (Registry × Bool))
        → Consumed "" e.presented reg r
        → Post (Grown before) (
            r >>= λ taken. ok (
              if taken.1
              then (
                enroll (new_runner e.name e.repo e.labels e.host_alias now fresh) taken.0,
                done (enrolled_as e.name fresh),
              )
              else (taken.0, refused)))
    go (err crash) k = tt
    go (ok (r', true)) k =
        enroll-Grown (new_runner e.name e.repo e.labels e.host_alias now fresh) before reg r' h k.0
          k.1
    go (ok (r', false)) k = subst (Grown before) (sym k) h

IsKept-Grown : (before : Registry) → IsKept (Grown before)
unfolding do_heartbeat do_revoke
IsKept-Grown before = record {
  enrolls = λ e now fresh reg free h. do_enroll-Grown before e now fresh reg h;
  beats = λ name presented now report reg h.
      ground (arith, h, Grown-heartbeat name now report before reg h);
  revokes = λ name presented reg h. ground (arith, h, Grown-revoke name before reg h);
}

IsKept-NodupNames : IsKept (λ reg. NodupNames reg.runners)
unfolding do_heartbeat do_revoke find_runner new_runner
IsKept-NodupNames = record {
  enrolls = λ e now fresh reg free h.
      do_enroll-rows NodupNames e now fresh reg h (append-NodupNames reg.runners _ free h);
  beats =
      λ name presented now report reg h. ground (arith, heartbeat-NodupNames name now report reg h);
  revokes = λ name presented reg h. ground (arith, revoke-NodupNames name reg h);
}

IsKept-Gone : (x : String) → IsKept (λ reg. Gone (find_runner (str x) reg))
unfolding do_heartbeat do_revoke find_runner enroll
IsKept-Gone x = record {
  enrolls = λ e now fresh reg free h.
      do_enroll-rows (λ rows. Gone (find_in (str x) rows)) e now fresh reg h
        (enroll-Gone x _ reg h);
  beats = λ name presented now report reg h. ground (arith, heartbeat-Gone x name now report reg h);
  revokes = λ name presented reg h. ground (arith, revoke-Gone x name reg h);
}

-- Over any requests no row goes and none changes its name or its place: the names of the rows are the
-- old ones followed by those of the rows that were added, and the number of unused enrollment tokens
-- falls by exactly the number of rows that were added.
pub serve-Grown : (s : HubState) (qs : List Request) → Grown s.registry (serve s qs).registry
serve-Grown s qs =
    serve-kept (Grown s.registry) (IsKept-Grown s.registry) s qs
      ([], sym (append-nil (names s.registry.runners)), omega arith)

-- Requests that run one after the other never give two rows the same name.
pub serve-NodupNames :
    (s : HubState) (qs : List Request)
    → NodupNames s.registry.runners
    → NodupNames (serve s qs).registry.runners
serve-NodupNames = serve-kept _ IsKept-NodupNames

get_or_else-str :
    (key x : String) (fields : Fields)
    → or_null (get_field key fields) ≡ str x
    → get_or_else key (str "") fields ≡ str x
unfolding truthy
get_or_else-str key x fields e = rw e (ground arith)

-- Once the row of a name is revoked it stays revoked over any requests, and every later heartbeat
-- that names it is answered 401 and changes nothing, whatever token it carries.
pub revoked_for_good :
    (x : String) (s : HubState) (qs : List Request) (fields : Fields) (now : String) (saves : Bool)
    → Gone (find_runner (str x) s.registry)
    → or_null (get_field "runner_name" fields) ≡ str x
    → handle_heartbeat saves (some (obj fields)) now (serve s qs)
      ≡ (serve s qs, unknown_or_revoked_token)
unfolding handle_heartbeat with_registry do_heartbeat settle
revoked_for_good x s qs fields now saves gone e = rw (
  get_or_else-str "runner_name" x fields e,
  verify_heartbeat_token-Gone x (get_or_else "heartbeat_token" (str "") fields)
      (serve s qs).registry (serve-kept _ (IsKept-Gone x) s qs gone),
)
