-- ===== src/Claim/Counts.antt =====
-- hub/coherence/verification.py: the counts of `summarize`.
use dev_gate_agentic_framewo.Common.{
  ℕ, ◌+◌, ◌≡◌, refl, Bool, ◌==◌, arith, if◌then◌else◌, List, [], ◌∷◌, count, length,
  count-le-length,
}
use dev_gate_agentic_framewo.Claim.{
  State, verified, state_eq, Claim, bump, count_states, count_of, summarize,
}

count_of-bump :
    (s t : State) (counts : List (State × ℕ))
    → count_of s (bump t counts) ≡ (if s == t then 1 else 0) + count_of s counts
unfolding count_of bump
count_of-bump s t [] = ground arith
count_of-bump s t ((u, n) ∷ counts) = ground (arith, count_of-bump s t counts)

count_of-nil : (s : State) → count_of s [] ≡ 0
unfolding count_of
count_of-nil s = refl

abbrev pub in_state : State → Claim → Bool
in_state s c = s == c.state

count_of-count_states :
    (s : State) (counts : List (State × ℕ)) (claims : List Claim)
    → count_of s (count_states counts claims) ≡ count (in_state s) claims + count_of s counts
unfolding count_states
count_of-count_states s counts [] = omega arith
count_of-count_states s counts (c ∷ cs) =
    omega (arith, count_of-count_states s (bump c.state counts) cs, count_of-bump s c.state counts)

-- Whatever the claims, the summary's count for a state is the number of claims in that state, and
-- the verified and the unverified claims are all of them: no claim is counted twice or dropped.
pub summarize-counts :
    (claims : List Claim) (s : State)
    → (count_of s (summarize claims).by_state ≡ count (in_state s) claims)
      × ((summarize claims).verified ≡ count (in_state verified) claims)
      × ((summarize claims).verified + (summarize claims).unverified ≡ (summarize claims).total)
      × ((summarize claims).total ≡ length claims)
unfolding summarize
summarize-counts claims s = (
  counted s,
  counted verified,
  omega (arith, counted verified, count-le-length (in_state verified) claims),
  refl,
)
  where
    counted : (t : State) → count_of t (count_states [] claims) ≡ count (in_state t) claims
    counted t = omega (arith, count_of-count_states t [] claims, count_of-nil t)
