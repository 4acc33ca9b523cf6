-- ===== src/ResultCache/Window.antt =====
-- hub/coherence/cache.py: the conditions of a reuse.
use dev_gate_agentic_framewo.Common.{
  ℕ, ◌+◌, ◌*◌, ◌≤◌, ◌≡◌, ◌↔◌, refl, sym, ap, ◌∙◌, String, Bool, true, Option, none, some, List, [],
  ◌∷◌, arith, string_eq,
}
use mathlib.Core.Option.{some-injective}
use dev_gate_agentic_framewo.Common.Result.{Result, ok, err, ◌>>◌, ok_injective, >>=-ok}
use dev_gate_agentic_framewo.ResultCache.{
  Host, Request, CacheEntry, Signer, Check, Miss, ttl_undeclared, judge_age, max_seconds,
  check_signed, check_retained, reuse,
}

-- The time to live is declared, and the age is neither negative nor above it, in microseconds; a
-- `timedelta` holds the time to live.
abbrev pub InWindow : Host → Request → CacheEntry → Type 0
InWindow h q e =
    (ttl : ℕ) × (now : ℕ) × (since : ℕ) × (q.ttl_seconds ≡ some ttl)
    × (h.parse q.as_of ≡ some now)
    × (h.parse e.cached_at ≡ some since)
    × (since ≤ now)
    × (ttl ≤ max_seconds)
    × (now ≤ since + ttl * 1000000)

-- What is there to check is checked, and holds.
abbrev pub SignerHolds : Check Signer → Option Signer → Type 0
SignerHolds check none = Unit
SignerHolds check (some s) = (f : Signer → Bool × String) × (check ≡ some f) × ((f s).0 ≡ true)

abbrev pub RefsHold : Check (List String) → List String → Type 0
RefsHold check [] = Unit
RefsHold check (r ∷ rs) =
    (f : List String → Bool × String) × (check ≡ some f) × ((f (r ∷ rs)).0 ≡ true)

abbrev pub Usable : Host → Request → CacheEntry → Type 0
Usable h q e =
    InWindow h q e × SignerHolds q.signer_ok e.signer × RefsHold q.retention_ok e.retained_refs

judge_age-ok :
    (o p : Option ℕ) (ttl : ℕ) (u : Unit {0})
    → judge_age o p ttl ≡ ok u
    → (now : ℕ) × (since : ℕ) × (o ≡ some now)
      × (p ≡ some since)
      × (since ≤ now)
      × (ttl ≤ max_seconds)
      × (now ≤ since + ttl * 1000000)
unfolding judge_age
judge_age-ok none p ttl u h = absurd (ground arith)
judge_age-ok (some now) none ttl u h = absurd (ground arith)
judge_age-ok (some now) (some since) ttl u h =
    (now, since, refl, refl, ground arith, ground arith, ground arith)

judge_age-within :
    (now since ttl : ℕ)
    → since ≤ now
    → ttl ≤ max_seconds
    → now ≤ since + ttl * 1000000
    → judge_age (some now) (some since) ttl ≡ ok tt
unfolding judge_age
judge_age-within now since ttl h few k = ground arith

check_signed_iff :
    (c : Check Signer) (o : Option Signer) → (check_signed c o ≡ ok tt) ↔ SignerHolds c o
unfolding check_signed
check_signed_iff c none = (λ h. tt, λ h. refl)
check_signed_iff none (some s) = (λ h. absurd (ground arith), λ h. absurd (ground (arith, h.1)))
check_signed_iff (some f) (some s) =
    (λ h. (f, refl, ground arith), λ h. rw (ap (λ k. (k s).0) (some-injective f h.0 h.1) ∙ h.2))

check_retained_iff :
    (c : Check (List String)) (rs : List String) → (check_retained c rs ≡ ok tt) ↔ RefsHold c rs
unfolding check_retained
check_retained_iff c [] = (λ h. tt, λ h. refl)
check_retained_iff none (r ∷ rs) = (λ h. absurd (ground arith), λ h. absurd (ground (arith, h.1)))
check_retained_iff (some f) (r ∷ rs) = (
  λ h. (f, refl, ground arith),
  λ h. rw (ap (λ k. (k (r ∷ rs)).0) (some-injective f h.0 h.1) ∙ h.2),
)

pub reuse-Usable :
    (h : Host) (q : Request) (e : CacheEntry) (p : String)
    → reuse h q e ≡ ok p
    → (p ≡ e.payload) × Usable h q e
unfolding reuse
reuse-Usable h q e p = go q.ttl_seconds refl
  where
    go :
        (o : Option ℕ)
        → q.ttl_seconds ≡ o
        → (elim o as (λ x. Result Miss String) [
          | none ↦ err ttl_undeclared
          | some ttl ↦
              judge_age (h.parse q.as_of) (h.parse e.cached_at) ttl
              >> (check_signed q.signer_ok e.signer
                  >> (check_retained q.retention_ok e.retained_refs >> ok e.payload))
        ])
          ≡ ok p
        → (p ≡ e.payload) × Usable h q e
    go none k r = absurd (ground arith)
    go (some ttl) k r =
        let (_, r1, aged) = >>=-ok (judge_age (h.parse q.as_of) (h.parse e.cached_at) ttl) r in
        let (_, r2, signed) = >>=-ok (check_signed q.signer_ok e.signer) r1 in
        let (_, r3, held) = >>=-ok (check_retained q.retention_ok e.retained_refs) r2 in
        let (now, since, n, s, low, few, high) =
          judge_age-ok (h.parse q.as_of) (h.parse e.cached_at) ttl tt aged in
        (
          sym (ok_injective r3),
          (
            (ttl, now, since, k, n, s, low, few, high),
            (check_signed_iff q.signer_ok e.signer).0 signed,
            (check_retained_iff q.retention_ok e.retained_refs).0 held,
          ),
        )

pub Usable-reuse :
    (h : Host) (q : Request) (e : CacheEntry) → Usable h q e → reuse h q e ≡ ok e.payload
unfolding reuse
Usable-reuse h q e ((ttl, now, since, k, n, s, low, few, high), signed, held) = rw (
  k,
  n,
  s,
  judge_age-within now since ttl low few high,
  (check_signed_iff q.signer_ok e.signer).1 signed,
  (check_retained_iff q.retention_ok e.retained_refs).1 held,
)
