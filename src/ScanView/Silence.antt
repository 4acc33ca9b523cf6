-- ===== src/ScanView/Silence.antt =====
-- hub/scan_view.py: which repositories of a scan state an alert names.
use dev_gate_agentic_framewo.Common.{
  ℕ, ◌+◌, ◌≡◌, ◌↔◌, refl, String, true, false, List, [], ◌∷◌, ◌++◌, all, length, count, string_eq,
  arith, Bool-cases, inl, inr, &&-eq_true, ◌≢◌, length-map,
}
use text.Mathlib.TextEquality.{eq_iff}
use dev_gate_agentic_framewo.Common.Json.{Json}
use dev_gate_agentic_framewo.Registry.{Runner, scan_state_unknown}
use dev_gate_agentic_framewo.ScanView.{
  found_in, unknown_in, has_findings, is_clean, scan_alerts, repos_of, findings_alert,
  unknown_alert, CheckClass, Detail, leaks, no_verdict, leak_of, blind_of,
}

findings-ne-clean : ◌≢◌ {A = String} "findings" "clean"
findings-ne-clean = ground (arith, eq_iff "findings" "clean")

findings_excludes_clean : (r : Json) → has_findings r ≡ true → is_clean r ≡ false
findings_excludes_clean r h = ground (arith, findings-ne-clean)

buckets-empty_iff :
    (rs : List Json) → ((found_in rs ≡ []) × (unknown_in rs ≡ [])) ↔ (all is_clean rs ≡ true)
unfolding found_in unknown_in
buckets-empty_iff [] = (λ h. refl, λ h. (refl, refl))
buckets-empty_iff (r ∷ rs) = (
  λ h. elim (Bool-cases (has_findings r)) [
    | inl f ↦ absurd (ground arith)
    | inr f ↦ elim (Bool-cases (is_clean r)) [
      | inl c ↦ rw c ((buckets-empty_iff rs).0 (ground arith, ground arith))
      | inr c ↦ absurd (ground arith)
    ]
  ],
  λ h.
      let (c, rest) = &&-eq_true (is_clean r) (all is_clean rs) h in
      let (f, u) = (buckets-empty_iff rs).1 rest in
      elim (Bool-cases (has_findings r)) [
        | inl e ↦ absurd (cc (findings_excludes_clean r e))
        | inr e ↦ rw (e, c) (f, u)
      ],
)

-- Every record lands in exactly one place: found, unknown, or clean.
buckets-length :
    (rs : List Json) → length (found_in rs) + length (unknown_in rs) + count is_clean rs ≡ length rs
unfolding found_in unknown_in
buckets-length [] = refl
buckets-length (r ∷ rs) = elim (Bool-cases (has_findings r)) [
  | inl e ↦ rw (e, findings_excludes_clean r e) (omega (arith, buckets-length rs))
  | inr e ↦ elim (Bool-cases (is_clean r)) [
    | inl c ↦ rw (e, c) (omega (arith, buckets-length rs))
    | inr c ↦ rw (e, c) (omega (arith, buckets-length rs))
  ]
]

alerts_empty :
    (xs ys : List Json) → (findings_alert xs ++ unknown_alert ys ≡ []) ↔ ((xs ≡ []) × (ys ≡ []))
alerts_empty [] [] = (λ h. (refl, refl), λ h. refl)
alerts_empty [] (y ∷ ys) = (λ h. cc, λ h. cc (h.1))
alerts_empty (x ∷ xs) ys = (λ h. cc, λ h. cc (h.0))

-- A runner's scan state raises no alert exactly when it is a usable report and every repository in
-- it has the state "clean": a state that is missing, broken or of an unknown word always alerts.
pub scan_alerts-silent_iff :
    (r : Runner)
    → (scan_alerts r ≡ []) ↔ ((scan_state_unknown r ≡ false) × (all is_clean (repos_of r) ≡ true))
unfolding scan_alerts
scan_alerts-silent_iff r = elim (Bool-cases (scan_state_unknown r)) [
  | inl u ↦ rw u (λ h. cc, λ h. cc (h.0))
  | inr k ↦ rw k (
    λ h. (
      refl,
      (buckets-empty_iff (repos_of r)).0
          ((alerts_empty (found_in (repos_of r)) (unknown_in (repos_of r))).0 h),
    ),
    λ h.
        (alerts_empty (found_in (repos_of r)) (unknown_in (repos_of r))).1
          ((buckets-empty_iff (repos_of r)).1 h.1),
  )
]

-- How many repositories the alerts name.
abbrev pub named_by : Detail → ℕ
named_by (leaks ls) = length ls
named_by (no_verdict bs) = length bs
named_by _ = 0

abbrev pub mentions : List (CheckClass × Detail) → ℕ
mentions [] = 0
mentions ((_, d) ∷ rest) = named_by d + mentions rest

mentions-append :
    (xs ys : List (CheckClass × Detail)) → mentions (xs ++ ys) ≡ mentions xs + mentions ys
mentions-append [] ys = omega arith
mentions-append ((_, d) ∷ xs) ys = omega (arith, mentions-append xs ys)

mentions-leaks : (rs : List Json) → mentions (findings_alert rs) ≡ length rs
mentions-leaks [] = refl
mentions-leaks (r ∷ rs) = omega (arith, length-map leak_of rs)

mentions-no_verdict : (rs : List Json) → mentions (unknown_alert rs) ≡ length rs
mentions-no_verdict [] = refl
mentions-no_verdict (r ∷ rs) = omega (arith, length-map blind_of rs)

-- From a usable report, each repository is named in exactly one alert or has the state "clean":
-- the repositories that the alerts name and the clean ones are together as many as the report holds.
pub scan_alerts_complete :
    (r : Runner)
    → scan_state_unknown r ≡ false
    → mentions (scan_alerts r) + count is_clean (repos_of r) ≡ length (repos_of r)
unfolding scan_alerts
scan_alerts_complete r k =
    rw (k, mentions-append, mentions-leaks, mentions-no_verdict) (buckets-length (repos_of r))
