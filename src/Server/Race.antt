-- ===== src/Server/Race.antt =====
-- hub/server.py: two threads in /enroll, whose probe for the name stands outside the lock.
use dev_gate_agentic_framewo.Common.{
  ℕ, ◌+◌, ◌≡◌, ◌≢◌, refl, Bool, true, false, none, some, List, [], ◌∷◌, ◌++◌, String, ◌==◌,
  string_eq, arith, contains, count, ◌&&◌, count-append,
}
use dev_gate_agentic_framewo.Common.Json.{str}
use dev_gate_agentic_framewo.Registry.{
  Registry, Runner, enroll, consume_enrollment_token, find_runner, new_runner,
}
use dev_gate_agentic_framewo.Registry.Tokens.{remove, take_token-remove, contains-remove}
use dev_gate_agentic_framewo.Server.{
  Reply, enrolled_as, HubState, Enrollment, attempt, probe_name, commit_enroll, with_registry,
  settle, do_enroll, strip_differs,
}

-- Two handler threads: both probe the state `s`, and then one after the other takes the lock.
abbrev pub interleaved :
    Enrollment → Enrollment → String → String → String → String → HubState → HubState × Reply
interleaved a b now fresh now' fresh' s =
    commit_enroll true b now' fresh' (commit_enroll true a now fresh s).0

-- How many live rows a name has.
abbrev pub live_named : String → Runner → Bool
live_named x r = r.enrolled && x == r.name

abbrev pub rows_named : String → Registry → ℕ
rows_named x reg = count (live_named x) reg.runners

-- Enrolling with a token that is there adds the row and takes the token.
commit_enroll-adds :
    (e : Enrollment) (t now fresh : String) (s : HubState)
    → e.presented ≡ str t
    → t ≢ ""
    → contains s.registry.enrollment_tokens t ≡ true
    → let reg : Registry = record {
      enrollment_tokens = remove t s.registry.enrollment_tokens;
      runners =
          s.registry.runners ++ (new_runner e.name e.repo e.labels e.host_alias now fresh ∷ []);
    } in
      commit_enroll true e now fresh s
      ≡ (record { registry = reg; saved = some reg }, enrolled_as e.name fresh)
unfolding commit_enroll with_registry do_enroll consume_enrollment_token enroll settle
commit_enroll-adds e t now fresh s p ne there =
    rw (p, take_token-remove t s.registry.enrollment_tokens ne there)

count-two :
    (p : Runner → Bool) (rows : List Runner) (r r' : Runner)
    → p r ≡ true
    → p r' ≡ true
    → count p ((rows ++ (r ∷ [])) ++ (r' ∷ [])) ≡ count p rows + 2
count-two p rows r r' h h' = simp count-append (rw (h, h') (omega arith))

live_named-new_runner :
    (e : Enrollment) (x now fresh : String)
    → x ≡ e.name
    → live_named x (new_runner e.name e.repo e.labels e.host_alias now fresh) ≡ true
unfolding new_runner
live_named-new_runner e x now fresh h = ground arith

-- The probe lets a name through when no row has it, and it is no variant with white space.
probe_name-attempt :
    (e : Enrollment) (s : HubState)
    → strip_differs e.name ≡ false
    → find_runner (str e.name) s.registry ≡ none
    → probe_name e s ≡ attempt e
unfolding probe_name
probe_name-attempt e s plain free = rw (plain, free)

-- Two enrollments of one new name with two different tokens that are in the registry: when both
-- threads probe before either takes the lock, both pass the probe, and the second is answered 200
-- like the first and the registry ends with two more live rows of that name.
pub enroll_race :
    (a b : Enrollment) (t u now fresh now' fresh' : String) (s : HubState)
    → a.name ≡ b.name
    → strip_differs a.name ≡ false
    → find_runner (str a.name) s.registry ≡ none
    → a.presented ≡ str t
    → b.presented ≡ str u
    → t ≢ ""
    → u ≢ ""
    → t ≢ u
    → contains s.registry.enrollment_tokens t ≡ true
    → contains s.registry.enrollment_tokens u ≡ true
    → (probe_name a s ≡ attempt a)
      × (probe_name b s ≡ attempt b)
      × ((commit_enroll true a now fresh s).1 ≡ enrolled_as a.name fresh)
      × ((interleaved a b now fresh now' fresh' s).1 ≡ enrolled_as b.name fresh')
      × (rows_named a.name (interleaved a b now fresh now' fresh' s).0.registry
          ≡ rows_named a.name s.registry + 2)
enroll_race a b t u now fresh now' fresh' s same plain free pt pu net neu ne ht hu =
    let first = commit_enroll-adds a t now fresh s pt net ht in
    let second =
      commit_enroll-adds b u now' fresh' (commit_enroll true a now fresh s).0 pu neu
        (rw first (rw (contains-remove t u s.registry.enrollment_tokens ne) hu)) in
    (
      probe_name-attempt a s plain free,
      probe_name-attempt b s (rw (← same) plain) (rw (← same) free),
      rw first,
      rw second,
      rw (second, first)
          (count-two (live_named a.name) s.registry.runners _ _
            (live_named-new_runner a a.name now fresh refl)
            (live_named-new_runner b a.name now' fresh' same)),
    )
