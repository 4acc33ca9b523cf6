-- ===== src/Claim/Freshness.antt =====
-- Staleness: what drift of the observed digests does to a claim.
use dev_gate_agentic_framewo.Common.{
  ◌≡◌, ◌∙◌, refl, sym, ◌↔◌, ◌⊎◌, inl, inr, Bool, false, contains, ◌!=◌, string_eq, option_eq, arith,
  [], ◌∷◌, none, some, String, Bool-cases,
}
use dev_gate_agentic_framewo.Common.Dict.{Dict, lookup, NodupKeys}
use dev_gate_agentic_framewo.Common.Text.{sorted, contains-sorted, sorted-nil}
use dev_gate_agentic_framewo.Claim.{
  verified, unknown, state_eq, Claim, drifted, staleness, is_stale, revalidate,
}

-- The role is bound to a digest that is not the one observed now.
abbrev pub differs : String → Dict String → Dict String → Bool
differs role bound seen = elim (lookup role bound) [
  | none ↦ false
  | some digest ↦ lookup role seen != some digest
]

contains-drifted :
    (role : String) (bound seen : Dict String)
    → NodupKeys bound
    → contains (drifted bound seen) role ≡ differs role bound seen
unfolding drifted lookup option_eq
contains-drifted role [] seen u = refl
contains-drifted role ((r, d) ∷ bound) seen (fresh, u) =
    ground (arith, contains-drifted role bound seen u)

-- Staleness lists exactly the bound roles whose observed digest is absent or another one.
pub contains-staleness :
    (c : Claim) (seen : Dict String) (role : String)
    → NodupKeys c.bound_digests
    → contains (staleness c seen) role ≡ differs role c.bound_digests seen
unfolding staleness
contains-staleness c seen role u = rw contains-sorted (contains-drifted role c.bound_digests seen u)

-- Every bound role is observed with the digest that it was bound to.
abbrev pub Matches : Dict String → Dict String → Type 0
Matches bound seen =
    (role digest : String) → lookup role bound ≡ some digest → lookup role seen ≡ some digest

Matches-tail :
    (r d : String) (bound seen : Dict String)
    → lookup r bound ≡ none
    → Matches ((r, d) ∷ bound) seen
    → Matches bound seen
unfolding lookup
Matches-tail r d bound seen fresh h role digest e = h role digest (ground arith)

drifted-nil_iff :
    (bound seen : Dict String) → NodupKeys bound → (drifted bound seen ≡ []) ↔ Matches bound seen
unfolding drifted lookup option_eq
drifted-nil_iff [] seen u = (λ h role digest e. cc, λ h. refl)
drifted-nil_iff ((r, d) ∷ bound) seen (fresh, u) = (
  λ h role digest e.
      ground
        (arith, λ (p : drifted bound seen ≡ []). (drifted-nil_iff bound seen u).0 p role digest),
  λ h.
      ground (arith, h r d, (drifted-nil_iff bound seen u).1 (Matches-tail r d bound seen fresh h)),
)

is_stale-false_iff :
    (c : Claim) (seen : Dict String)
    → NodupKeys c.bound_digests
    → (is_stale c seen ≡ false) ↔ Matches c.bound_digests seen
unfolding is_stale staleness sorted
is_stale-false_iff c seen u = (
  λ h. (drifted-nil_iff c.bound_digests seen u).0 (sorted-nil _ (ground arith)),
  λ h.
      let e : drifted c.bound_digests seen ≡ [] = (drifted-nil_iff c.bound_digests seen u).1 h in
      rw (e, is_stale),
)

-- How a claim counts where every digest that it was bound to is observed, and where one is not.
abbrev pub Revalidated : Claim → Dict String → Type 0
Revalidated c seen =
    (Matches c.bound_digests seen × (revalidate c seen ≡ c.state))
    ⊎ ((¬ Matches c.bound_digests seen) × (revalidate c seen ≡ unknown))

revalidate-Revalidated :
    (c : Claim) (seen : Dict String) → NodupKeys c.bound_digests → Revalidated c seen
unfolding revalidate
revalidate-Revalidated c seen u = elim (Bool-cases (is_stale c seen)) [
  | inl old ↦ inr (λ h. cc (old, (is_stale-false_iff c seen u).1 h), rw old refl)
  | inr new ↦ inl ((is_stale-false_iff c seen u).0 new, rw new refl)
]

-- A claim counts as verified today exactly when its recorded state is VERIFIED and every digest it
-- was bound to is still observed. It counts as in its recorded state where every such digest is
-- observed, and as UNKNOWN, whatever its state, where one is absent or another one.
pub revalidate-verified_iff :
    (c : Claim) (seen : Dict String)
    → NodupKeys c.bound_digests
    → ((revalidate c seen ≡ verified) ↔ ((c.state ≡ verified) × Matches c.bound_digests seen))
      × Revalidated c seen
revalidate-verified_iff c seen u =
    (counts (revalidate-Revalidated c seen u), revalidate-Revalidated c seen u)
  where
    counts :
        Revalidated c seen
        → (revalidate c seen ≡ verified) ↔ ((c.state ≡ verified) × Matches c.bound_digests seen)
    counts (inl (h, e)) = (λ k. (sym e ∙ k, h), λ k. e ∙ k.0)
    counts (inr (h, e)) = (λ k. cc (k, e), λ k. absurd (h k.1))
