-- ===== src/Monitor/Gate.antt =====
-- hub/monitor.py: the silence of the spec-coherence check.
use dev_gate_agentic_framewo.Common.{
  ℕ, ◌+◌, ◌≤◌, String, ◌≡◌, ◌↔◌, refl, ap, true, false, Option, none, some, [], arith, Bool-cases,
  inl, inr, ◌⊎◌, sym, ◌∙◌,
}
use dev_gate_agentic_framewo.Common.Json.{Json, or_null, get_field, obj, str, truthy, Fields}
use dev_gate_agentic_framewo.Monitor.Watch.{
  AlertClass, coherence_overdue, Run, returned, raised, after, World, stop, Check, spec_coherence,
  hashable, parse_iso, non_passing, pure,
}
use dev_gate_agentic_framewo.Monitor.Workflows.{
  coherence_verdict, check_recency, is_skipped, max_age,
}

-- The time reads as one that is, by the clock of the check, at most the maximal age ago.
abbrev pub IsRecent : World → Check → Json → Type 0
IsRecent w check completed_at =
    (t : ℕ) × (parse_iso w completed_at ≡ pure (some t)) × (w.now check ≤ t + max_age w)

abbrev pub value_of : String → Fields → Json
value_of key fields = or_null (get_field key fields)

parse_iso-cases :
    (w : World) (v : Json)
    → (parse_iso w v ≡ raised []) ⊎ ((o : Option ℕ) × (parse_iso w v ≡ pure o))
unfolding parse_iso
parse_iso-cases w (str s) = inr (_, refl)
parse_iso-cases w v = elim (Bool-cases (truthy v)) [ inl t ↦ inl (rw t) | inr f ↦ inr (none, rw f) ]

check_recency-silent_iff :
    (w : World) (check : Check) (overdue : AlertClass) (repo : String) (fields : Fields)
    → (check_recency w check overdue repo (obj fields) ≡ stop)
      ↔ IsRecent w check (value_of "completed_at" fields)
unfolding check_recency
check_recency-silent_iff w check overdue repo fields =
    elim (parse_iso-cases w (value_of "completed_at" fields)) [
      | inl e ↦ rw e (λ h. cc, λ h. cc (h.1))
      | inr (none, e) ↦ rw e (λ h. cc, λ h. cc (h.1))
      | inr (some t, e) ↦ rw e (λ h. (t, refl, ground arith), λ h. ground (arith, h.1, h.2))
    ]

recency :
    (w : World) (repo : String) (fields : Fields)
    → (check_recency w spec_coherence coherence_overdue repo (obj fields) ≡ stop)
      ↔ IsRecent w spec_coherence (value_of "completed_at" fields)
recency w = check_recency-silent_iff w spec_coherence coherence_overdue

after-nil : (m : Run (Unit {0})) → after [] m ≡ m
after-nil (returned xs a) = refl
after-nil (raised xs) = refl

twice :
    (w : World) (repo : String) (fields : Fields)
    → after [] (after [] (check_recency w spec_coherence coherence_overdue repo (obj fields)))
      ≡ check_recency w spec_coherence coherence_overdue repo (obj fields)
twice w repo fields = ap (after []) (after-nil _) ∙ after-nil _

-- The verdict on a watched run is silent, with no alert and no exception, exactly when the run's
-- conclusion is none of the listed failing ones and not "skipped" (nor a list or an object) and it
-- completed recently: a conclusion that is not listed, null included, passes.
pub coherence_verdict-silent_iff :
    (w : World) (repo : String) (fields : Fields)
    → (coherence_verdict w repo (obj fields) ≡ stop) ↔ (
        (hashable (value_of "conclusion" fields) ≡ true)
        × (non_passing (value_of "conclusion" fields) ≡ false)
        × (is_skipped (value_of "conclusion" fields) ≡ false)
        × IsRecent w spec_coherence (value_of "completed_at" fields))
unfolding coherence_verdict
coherence_verdict-silent_iff w repo fields =
    elim (Bool-cases (hashable (value_of "conclusion" fields))) [
      | inr u ↦ rw u (λ h. cc, λ h. cc (h.0))
      | inl k ↦ elim (Bool-cases (non_passing (value_of "conclusion" fields))) [
        | inl n ↦ rw (k, n) (λ h. cc, λ h. cc (h.1))
        | inr p ↦ elim (Bool-cases (is_skipped (value_of "conclusion" fields))) [
          | inl z ↦ rw (k, p, z) (λ h. cc, λ h. cc (h.2))
          | inr z ↦
              rw (k, p, z)
                (
                  λ h.
                      (refl, refl, refl, (recency w repo fields).0 (sym (twice w repo fields) ∙ h)),
                  λ h. twice w repo fields ∙ (recency w repo fields).1 h.3,
                )
        ]
      ]
    ]
