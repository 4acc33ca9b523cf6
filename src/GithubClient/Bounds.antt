-- ===== src/GithubClient/Bounds.antt =====
-- hub/github_client.py: how often `get_with_backoff` asks, and how long it waits.
use dev_gate_agentic_framewo.Common.{
  ℕ, zero, suc, ◌+◌, ◌*◌, ◌^◌, ◌≤◌, ◌≡◌, refl, Bool, true, false, Option, none, some, List, [], ◌∷◌,
  length, ◌==◌, nat_eq, if◌then◌else◌, arith, Bool-cases, inl, inr,
}
use dev_gate_agentic_framewo.Common.Json.{ℤ, Json, obj, get_field, truthy?, or_null}
use dev_gate_agentic_framewo.GithubClient.{
  Sent, failed, reply, Client, Outcome, answered, exhausted, raised, Session, is_limited, clip,
  wait_after, ended, waited, handle, attempts, get_with_backoff,
}

abbrev pub total : List ℕ → ℕ
total [] = 0
total (w ∷ ws) = w + total ws

-- The answer is no rate limit.
abbrev pub is_conclusive : Outcome → Bool
is_conclusive (answered status body) = if is_limited status then false else true
is_conclusive _ = true

-- A session's limits, for so many requests and sleeps of at most `most` seconds.
pub record Bounded (most : ℕ) (left : ℕ) (s : Session) : Type 0 where
  pub few : s.calls ≤ left
  pub short : total s.waits ≤ left * most
  pub between : length s.waits ≤ s.calls
  pub conclusive : is_conclusive s.outcome ≡ true
  pub spent : s.outcome ≡ exhausted → s.calls ≡ left

clip-bounds : (z : Option ℤ) (most w : ℕ) → clip z most ≡ some w → w ≤ most
clip-bounds none most w h = absurd (ground arith)
clip-bounds (some (ℤ.pos n)) most w h = ground arith
clip-bounds (some (ℤ.negsuc n)) most w h = absurd (ground arith)

wait_after-bounds :
    (c : Client) (attempt : ℕ) (body : Json) (w : ℕ)
    → wait_after c attempt body ≡ some w
    → w ≤ c.backoff_max
unfolding wait_after
wait_after-bounds c attempt (obj body) w h =
    elim (Bool-cases (truthy? (get_field "retry_after" body))) [
      | inl a ↦
          clip-bounds (c.to_int (or_null (get_field "retry_after" body))) c.backoff_max w
            (rw a at h)
      | inr a ↦ elim (Bool-cases (truthy? (get_field "X-Retry-After" body))) [
        | inl b ↦
            clip-bounds (c.to_int (or_null (get_field "X-Retry-After" body))) c.backoff_max w
              (rw (a, b) at h)
        | inr b ↦ clip-bounds (some (ℤ.pos (2 ^ attempt * 10))) c.backoff_max w (rw (a, b) at h)
      ]
    ]
wait_after-bounds c attempt _ w h = absurd (ground arith)

ended-Bounded :
    (most left : ℕ) (o : Outcome)
    → is_conclusive o ≡ true
    → (o ≡ exhausted → ⊥)
    → Bounded most (suc left) (ended o)
ended-Bounded most left o k n = record {
  few = omega arith;
  short = omega arith;
  between = omega arith;
  conclusive = k;
  spent = λ e. absurd (n e);
}

waited-Bounded :
    (most left : ℕ) (o : Option ℕ) (rest : Session)
    → ((w : ℕ) → o ≡ some w → w ≤ most)
    → Bounded most left rest
    → Bounded most (suc left) (waited o rest)
waited-Bounded most left none rest h b =
    ended-Bounded most left raised refl (λ e. absurd (ground arith))
waited-Bounded most left (some w) rest h b = record {
  few = omega (arith, b.few);
  short = omega (arith, h w refl, b.short);
  between = omega (arith, b.between);
  conclusive = b.conclusive;
  spent = λ e. omega (arith, b.spent e);
}

handle-Bounded :
    (c : Client) (attempt left : ℕ) (s : Sent) (rest : Session)
    → Bounded c.backoff_max left rest
    → Bounded c.backoff_max (suc left) (handle c attempt s rest)
unfolding handle
handle-Bounded c attempt left failed rest b =
    ended-Bounded c.backoff_max left raised refl (λ e. absurd (ground arith))
handle-Bounded c attempt left (reply status body) rest b = elim (Bool-cases (status == 200)) [
  | inl good ↦ rw good (
      ended-Bounded c.backoff_max left (answered status body) (ground arith)
        (λ e. absurd (ground arith)))
  | inr bad ↦ elim (Bool-cases (is_limited status)) [
    | inl limited ↦
        rw (bad, limited)
          (waited-Bounded c.backoff_max left (wait_after c attempt body) rest
            (wait_after-bounds c attempt body) b)
    | inr other ↦
        rw (bad, other)
          (ended-Bounded c.backoff_max left (answered status body) (ground arith)
            (λ e. absurd (ground arith)))
  ]
]

attempts-Bounded :
    (c : Client) (left attempt : ℕ) → Bounded c.backoff_max left (attempts c left attempt)
unfolding attempts
attempts-Bounded c zero attempt = record {
  few = omega arith;
  short = omega arith;
  between = omega arith;
  conclusive = refl;
  spent = λ e. refl;
}
attempts-Bounded c (suc left) attempt =
    handle-Bounded c attempt left (c.send attempt) (attempts c left (suc attempt))
      (attempts-Bounded c left (suc attempt))

-- Whatever GitHub answers, a GET makes at most `max_retries` requests, sleeps at most once after each
-- and at most `max_retries * backoff_max` seconds in all, never returns a 403 or a 429, and gives up
-- only after all of its requests.
pub get_with_backoff-Bounded :
    (c : Client) (max_retries : ℕ)
    → Bounded c.backoff_max max_retries (get_with_backoff c max_retries)
unfolding get_with_backoff
get_with_backoff-Bounded c max_retries = attempts-Bounded c max_retries 0
