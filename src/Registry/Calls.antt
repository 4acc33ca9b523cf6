-- ===== src/Registry/Calls.antt =====
-- hub/registry.py: the registry's calls, by the number of rows, the names, and the revoked rows.
use dev_gate_agentic_framewo.Common.{
  ◌+◌, ◌≡◌, ◌∙◌, refl, Bool, true, false, Option, none, some, List, [], ◌∷◌, ◌++◌, length, String,
  string_eq, arith, Bool-cases, inl, inr,
}
use dev_gate_agentic_framewo.Common.Json.{Json, str}
use dev_gate_agentic_framewo.Common.Result.{ok}
use dev_gate_agentic_framewo.Registry.{
  Registry, Runner, Report, find_runner, find_in, update_in, named, refresh, unenrolled, is_live,
  heartbeat, verify_heartbeat_token, revoke, enroll,
}
use dev_gate_agentic_framewo.Registry.Rows.{
  on_row, or_else, find_in-append, update_in-NodupNames, names, names-update_in, NodupNames,
}

-- A row of that name is there and is not enrolled.
abbrev pub Gone : Option Runner → Type 0
Gone none = ⊥
Gone (some r) = r.enrolled ≡ false

pub refresh-name :
    (now : String) (report : Report) (r : Runner) → (refresh now report r).name ≡ r.name
unfolding refresh
refresh-name now report r = refl

refresh-enrolled :
    (now : String) (report : Report) (r : Runner) → (refresh now report r).enrolled ≡ r.enrolled
unfolding refresh
refresh-enrolled now report r = refl

on_row-Gone :
    (f : Runner → Runner) (o : Option Runner)
    → ((r : Runner) → r.enrolled ≡ false → (f r).enrolled ≡ false)
    → Gone o
    → Gone (on_row f o)
on_row-Gone f none k h = h
on_row-Gone f (some r) k h = k r h

-- A write to any row that keeps revoked rows revoked.
update_in-Gone :
    (x : String) (y : Json) (f : Runner → Runner) (rs : List Runner)
    → ((r : Runner) → (f r).name ≡ r.name)
    → ((r : Runner) → r.enrolled ≡ false → (f r).enrolled ≡ false)
    → Gone (find_in (str x) rs)
    → Gone (find_in (str x) (update_in y f rs))
unfolding find_in update_in named
update_in-Gone x y f [] same keeps h = h
update_in-Gone x y f (r ∷ rs) same keeps h =
    ground (arith, update_in-Gone x y f rs same keeps, same r, keeps r)

pub heartbeat-Gone :
    (x : String) (name : Json) (now : String) (report : Report) (reg : Registry)
    → Gone (find_runner (str x) reg)
    → Gone (find_runner (str x) (heartbeat name now report reg).0)
unfolding heartbeat find_runner
heartbeat-Gone x name now report reg h = elim (Bool-cases (is_live (find_in name reg.runners))) [
  | inl live ↦ rw live (
      update_in-Gone x name (refresh now report) reg.runners (refresh-name now report)
        (λ r e. rw refresh-enrolled e) h)
  | inr dead ↦ rw dead h
]

pub revoke-Gone :
    (x : String) (name : Json) (reg : Registry)
    → Gone (find_runner (str x) reg)
    → Gone (find_runner (str x) (revoke name reg).0)
unfolding revoke find_runner
revoke-Gone x name reg h =
    ground (arith, update_in-Gone x name unenrolled reg.runners (λ r. refl) (λ r e. refl) h)

pub enroll-Gone :
    (x : String) (r : Runner) (reg : Registry)
    → Gone (find_runner (str x) reg)
    → Gone (find_runner (str x) (enroll r reg))
unfolding enroll find_runner
enroll-Gone x r reg h = rw find_in-append (go (find_in (str x) reg.runners) h)
  where
    go : (o : Option Runner) → Gone o → Gone (or_else o (find_in (str x) (r ∷ [])))
    go none k = absurd k
    go (some s) k = k

-- The row of a revoked runner answers no token.
pub verify_heartbeat_token-Gone :
    (x : String) (presented : Json) (reg : Registry)
    → Gone (find_runner (str x) reg)
    → verify_heartbeat_token (str x) presented reg ≡ ok false
unfolding verify_heartbeat_token
verify_heartbeat_token-Gone x presented reg h = ground arith

-- The rows have the names that they had, in their order, then the names of rows that were added, and
-- the enrollment tokens are fewer by the number of those.
abbrev pub Grown : Registry → Registry → Type 0
Grown before after =
    (added : List String) × (names after.runners ≡ names before.runners ++ added)
    × (length after.enrollment_tokens + length added ≡ length before.enrollment_tokens)

pub Grown-heartbeat :
    (name : Json) (now : String) (report : Report) (before reg : Registry)
    → Grown before reg
    → Grown before (heartbeat name now report reg).0
unfolding heartbeat
Grown-heartbeat name now report before reg (added, kept, used) =
    elim (Bool-cases (is_live (find_runner name reg))) [
      | inl live ↦ rw live (
        added,
        names-update_in name (refresh now report) reg.runners (refresh-name now report) ∙ kept,
        used,
      )
      | inr gone ↦ rw gone (added, kept, used)
    ]

pub Grown-revoke :
    (name : Json) (before reg : Registry) → Grown before reg → Grown before (revoke name reg).0
unfolding revoke
Grown-revoke name before reg (added, kept, used) = go (find_runner name reg)
  where
    go :
        (o : Option Runner)
        → Grown before
            (elim o as (λ x. Registry × Bool) [
              | none ↦ (reg, false)
              | some _ ↦ (record reg { runners = update_in name unenrolled reg.runners }, true)
            ]).0
    go none = (added, kept, used)
    go (some r) = (added, names-update_in name unenrolled reg.runners (λ q. refl) ∙ kept, used)

pub heartbeat-NodupNames :
    (name : Json) (now : String) (report : Report) (reg : Registry)
    → NodupNames reg.runners
    → NodupNames (heartbeat name now report reg).0.runners
unfolding heartbeat
heartbeat-NodupNames name now report reg u =
    ground (
      arith,
      update_in-NodupNames (refresh now report) (refresh-name now report) name reg.runners u,
    )

pub revoke-NodupNames :
    (name : Json) (reg : Registry) → NodupNames reg.runners → NodupNames (revoke name reg).0.runners
unfolding revoke
revoke-NodupNames name reg u =
    ground (arith, update_in-NodupNames unenrolled (λ r. refl) name reg.runners u)
