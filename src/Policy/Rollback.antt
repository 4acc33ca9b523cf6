-- ===== src/Policy/Rollback.antt =====
-- hub/coherence/policy.py: the verdicts of `check_anti_rollback`.
use dev_gate_agentic_framewo.Common.{
  ℕ, ◌≤◌, ◌<◌, ◌≡◌, ◌≢◌, ◌⊎◌, ◌↔◌, inl, inr, refl, String, Bool, true, false, ◌||◌, Option, none,
  some, List, [], ◌∷◌, ◌==◌, string_eq, if◌then◌else◌, ltb, arith, Bool-cases,
}
use mathlib.Core.Path.{subst, sym}
use dev_gate_agentic_framewo.Common.Json.{Json, str, obj, Fields, end, field, get_field, or_null}
use dev_gate_agentic_framewo.Common.Result.{Result, ok, err, ◌>>=◌}
use dev_gate_agentic_framewo.Policy.{
  Refusal, read_record, matching, grandfathers_of, any_unexpired, judge_windows, check_epoch,
  epoch_of, floor_of, check_other, check_expected, check_anti_rollback,
}

ok-inj : {A : Type 0} {a b : A} → ◌≡◌ {A = Result Refusal A} (ok a) (ok b) → a ≡ b
ok-inj h = ground arith

-- The bundle's epoch is a natural number that is not below the bound floor.
abbrev pub MeetsFloor : Option ℕ → Option ℕ → Type 0
MeetsFloor (some epoch) (some floor) = floor ≤ epoch
MeetsFloor _ _ = ⊥

check_epoch-ok_iff :
    (epoch floor : Option ℕ) → (check_epoch epoch floor ≡ ok tt) ↔ MeetsFloor epoch floor
unfolding check_epoch
check_epoch-ok_iff none floor = (λ h. cc, λ h. absurd h)
check_epoch-ok_iff (some e) none = (λ h. cc, λ h. absurd h)
check_epoch-ok_iff (some e) (some f) = (λ h. ground arith, λ h. ground arith)

-- The record names the digest and its window is open after `now`.
abbrev pub Covers : (String → Option ℕ) → ℕ → String → Json → Type 0
Covers parse now digest g =
    (until : String) × (t : ℕ) × (read_record digest g ≡ ok (until, true))
    × (parse until ≡ some t)
    × (now < t)

abbrev pub AnyCovers : (String → Option ℕ) → ℕ → String → List Json → Type 0
AnyCovers parse now digest [] = ⊥
AnyCovers parse now digest (g ∷ gs) = Covers parse now digest g ⊎ AnyCovers parse now digest gs

abbrev pub IsOpen : (String → Option ℕ) → ℕ → String → Type 0
IsOpen parse now until = (t : ℕ) × (parse until ≡ some t) × (now < t)

abbrev pub AnyOpen : (String → Option ℕ) → ℕ → List String → Type 0
AnyOpen parse now [] = ⊥
AnyOpen parse now (u ∷ us) = IsOpen parse now u ⊎ AnyOpen parse now us

any_unexpired-open :
    (parse : String → Option ℕ) (now : ℕ) (us : List String)
    → any_unexpired parse now us ≡ ok true
    → AnyOpen parse now us
unfolding any_unexpired
any_unexpired-open parse now [] k = absurd (ground arith)
any_unexpired-open parse now (u ∷ us) k =
    go (any_unexpired-open parse now us) (parse u) refl (any_unexpired parse now us) refl k
  where
    go :
        (any_unexpired parse now us ≡ ok true → AnyOpen parse now us)
        → (o : Option ℕ) → parse u ≡ o
        → (r : Result Refusal Bool) → any_unexpired parse now us ≡ r
        → (elim o as (λ x. Result Refusal Bool) [
          | none ↦ err Refusal.bad_window
          | some t ↦ r >>= λ more. ok (ltb now t || more)
        ])
          ≡ ok true
        → IsOpen parse now u ⊎ AnyOpen parse now us
    go ih none e r e' k = absurd (ground arith)
    go ih (some t) e (err p) e' k = absurd (ground arith)
    go ih (some t) e (ok true) e' k = inr (ih e')
    go ih (some t) e (ok false) e' k = inl (t, e, ground arith)

covered :
    (parse : String → Option ℕ) (now : ℕ) (digest : String) (gs : List Json) (us : List String)
    → matching digest gs ≡ ok us
    → AnyOpen parse now us
    → AnyCovers parse now digest gs
unfolding matching
covered parse now digest [] [] h k = k
covered parse now digest [] (u ∷ us) h k = absurd (ground arith)
covered parse now digest (g ∷ gs) us h k =
    go (read_record digest g) refl (matching digest gs) refl h (covered parse now digest gs)
  where
    step :
        (until : String) (named : Bool) (more : List String)
        → (matching digest gs ≡ ok more → AnyOpen parse now more → AnyCovers parse now digest gs)
        → read_record digest g ≡ ok (until, named)
        → matching digest gs ≡ ok more
        → AnyOpen parse now (if named then until ∷ more else more)
        → AnyCovers parse now digest (g ∷ gs)
    step until false more ih e e' k = inr (ih e' k)
    step until true more ih e e' (inl (t, p, lt)) = inl (until, t, e, p, lt)
    step until true more ih e e' (inr k) = inr (ih e' k)

    go :
        (r : Result Refusal (String × Bool))
        → read_record digest g ≡ r
        → (m : Result Refusal (List String)) → matching digest gs ≡ m
        → (r >>= λ (until, named). m >>= λ more. ok (if named then until ∷ more else more)) ≡ ok us
        → ((vs : List String)
            → matching digest gs ≡ ok vs
            → AnyOpen parse now vs
            → AnyCovers parse now digest gs)
        → AnyCovers parse now digest (g ∷ gs)
    go (err p) e m e' h ih = absurd (ground arith)
    go (ok (until, named)) e (err p) e' h ih = absurd (ground arith)
    go (ok (until, named)) e (ok more) e' h ih =
        step until named more (ih more) e e' (subst (AnyOpen parse now) (sym (ok-inj h)) k)

-- Some grandfather record of the binding names the digest with a window open at the given time.
abbrev pub Grandfathered : (String → Option ℕ) → String → Fields → Option String → Type 0
Grandfathered parse digest binding none = ⊥
Grandfathered parse digest binding (some ts) =
    (now : ℕ) × (records : List Json) × (parse ts ≡ some now)
    × (grandfathers_of (or_null (get_field "grandfathers" binding)) ≡ ok records)
    × AnyCovers parse now digest records

-- What an accepted bundle has shown: the binding expects a digest, and either the bundle has it and
-- meets the floor, or a window covers it.
abbrev pub Authorized : (String → Option ℕ) → String → Fields → Fields → Option String → Type 0
Authorized parse digest bundle binding time =
    (expected : String) × (or_null (get_field "expected_digest" binding) ≡ str expected)
    × (((digest ≡ expected) × MeetsFloor (epoch_of bundle) (floor_of binding))
        ⊎ Grandfathered parse digest binding time)

judge_windows-open :
    (parse : String → Option ℕ) (time : Option String) (us : List String)
    → judge_windows parse time us ≡ ok tt
    → (ts : String) × (now : ℕ) × (time ≡ some ts) × (parse ts ≡ some now) × AnyOpen parse now us
unfolding judge_windows
judge_windows-open parse time [] h = absurd (ground arith)
judge_windows-open parse none (u ∷ us) h = absurd (ground arith)
judge_windows-open parse (some ts) (u ∷ us) h = go (parse ts) refl (any_unexpired-open parse) h
  where
    open_now :
        (now : ℕ) (r : Result Refusal Bool)
        → (r >>= λ b. if b then ok tt else err Refusal.window_expired) ≡ ok (tt {0})
        → r ≡ ok true
    open_now now (err p) h = absurd (ground arith)
    open_now now (ok true) h = refl
    open_now now (ok false) h = absurd (ground arith)

    go :
        (o : Option ℕ)
        → parse ts ≡ o
        → ((now : ℕ) (vs : List String)
            → any_unexpired parse now vs ≡ ok true
            → AnyOpen parse now vs)
        → (elim o as (λ x. Result Refusal (Unit {0})) [
          | none ↦ err Refusal.bad_evaluation_time
          | some now ↦ any_unexpired parse now (u ∷ us) >>= λ b.
              if b then ok tt else err Refusal.window_expired
        ])
          ≡ ok tt
        → (x : String) × (now : ℕ) × (◌≡◌ {A = Option String} (some ts) (some x))
          × (parse x ≡ some now)
          × AnyOpen parse now (u ∷ us)
    go none e opens h = absurd (ground arith)
    go (some now) e opens h = (ts, now, refl, e, opens now (u ∷ us) (open_now now _ h))

check_other-Grandfathered :
    (parse : String → Option ℕ) (digest : String) (binding : Fields) (time : Option String)
    → check_other parse digest binding time ≡ ok tt
    → Grandfathered parse digest binding time
unfolding check_other
check_other-Grandfathered parse digest binding time h =
    go (grandfathers_of (or_null (get_field "grandfathers" binding))) refl h
  where
    end_of :
        (records : List Json)
        → grandfathers_of (or_null (get_field "grandfathers" binding)) ≡ ok records
        → (m : Result Refusal (List String)) → matching digest records ≡ m
        → (m >>= judge_windows parse time) ≡ ok tt
        → Grandfathered parse digest binding time
    end_of records e (err p) e' h = absurd (ground arith)
    end_of records e (ok us) e' h =
        let (ts, now, is_ts, is_now, opens) = judge_windows-open parse time us h in
        subst (Grandfathered parse digest binding) (sym is_ts)
          (now, records, is_now, e, covered parse now digest records us e' opens)

    go :
        (r : Result Refusal (List Json))
        → grandfathers_of (or_null (get_field "grandfathers" binding)) ≡ r
        → (r >>= λ records. matching digest records >>= λ matches. judge_windows parse time matches)
          ≡ ok tt
        → Grandfathered parse digest binding time
    go (err p) e h = absurd (ground arith)
    go (ok records) e h = end_of records e (matching digest records) refl h

check_expected-Authorized :
    (parse : String → Option ℕ) (digest : String) (bundle binding : Fields) (time : Option String)
    (j : Json)
    → or_null (get_field "expected_digest" binding) ≡ j
    → check_expected parse digest bundle binding time j ≡ ok tt
    → Authorized parse digest bundle binding time
unfolding check_expected
check_expected-Authorized parse digest bundle binding time (str e) found h =
    elim (Bool-cases (digest == e)) [
      | inl same ↦ (e, found, inl (ground arith, (check_epoch-ok_iff _ _).0 (ground arith)))
      | inr other ↦
          (e, found, inr (check_other-Grandfathered parse digest binding time (ground arith)))
    ]
check_expected-Authorized parse digest bundle binding time _ found h = absurd (ground arith)

-- A bundle is accepted only under a binding that expects some digest; then either the bundle has
-- that digest and its epoch is at least the bound floor, or a grandfather record of the binding
-- names its digest with a window that is still open at the evaluation time.
pub check_anti_rollback-Authorized :
    (parse : String → Option ℕ) (digest : String) (bundle binding : Fields) (time : Option String)
    → check_anti_rollback parse digest bundle (obj binding) time ≡ ok tt
    → Authorized parse digest bundle binding time
unfolding check_anti_rollback
check_anti_rollback-Authorized parse digest bundle end time h = absurd (ground arith)
check_anti_rollback-Authorized parse digest bundle (field k v rest) time h =
    check_expected-Authorized parse digest bundle (field k v rest) time _ refl h

end_unbound : (digest : String) → or_null (get_field "expected_digest" end) ≡ str digest → ⊥
unfolding get_field
end_unbound digest h = ground arith

check_expected-same :
    (parse : String → Option ℕ) (digest : String) (bundle binding : Fields) (time : Option String)
    → digest ≢ ""
    → check_expected parse digest bundle binding time (str digest)
      ≡ check_epoch (epoch_of bundle) (floor_of binding)
unfolding check_expected
check_expected-same parse digest bundle binding time ne = ground arith

-- Under a binding that expects the bundle's own digest, the check accepts the bundle exactly when
-- its epoch and the bound floor (0 when unset) are natural numbers and the epoch is not below it.
pub check_anti_rollback-bound_iff :
    (parse : String → Option ℕ) (digest : String) (bundle binding : Fields) (time : Option String)
    → digest ≢ ""
    → or_null (get_field "expected_digest" binding) ≡ str digest
    → (check_anti_rollback parse digest bundle (obj binding) time ≡ ok tt)
      ↔ MeetsFloor (epoch_of bundle) (floor_of binding)
unfolding check_anti_rollback
check_anti_rollback-bound_iff parse digest bundle end time ne found =
    absurd (end_unbound digest found)
check_anti_rollback-bound_iff parse digest bundle (field k v rest) time ne found =
    rw (found, check_expected-same parse digest bundle (field k v rest) time ne)
      (check_epoch-ok_iff _ _)
