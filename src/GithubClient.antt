-- ===== src/GithubClient.antt =====
-- hub/github_client.py: `get_with_backoff`, and what it waits between its requests.
pub mod Bounds
use dev_gate_agentic_framewo.Common.{
  ℕ, zero, suc, ◌+◌, ◌*◌, ◌^◌, String, Bool, true, false, ◌||◌, Option, none, some, List, [], ◌∷◌,
  min, ◌==◌, nat_eq, if◌then◌else◌,
}
use dev_gate_agentic_framewo.Common.Json.{ℤ, Json, obj, get_field, truthy?, or_null}

-- What one request comes to: an exception, or a status with the parsed body.
pub data Sent : Type 0 where
  failed : Sent
  reply : ℕ → Json → Sent

-- The client, with GitHub's answer to each attempt, and Python's `int` (none where it raises).
pub record Client : Type 0 where
  pub backoff_max : ℕ
  pub send : ℕ → Sent
  pub to_int : Json → Option ℤ

pub data Outcome : Type 0 where
  answered : ℕ → Json → Outcome
  exhausted raised : Outcome

-- The call's outcome, with the requests that it made and the seconds of each sleep.
pub record Session : Type 0 where
  pub outcome : Outcome
  pub calls : ℕ
  pub waits : List ℕ

abbrev pub is_limited : ℕ → Bool
is_limited status = status == 403 || status == 429

-- `min(seconds, self.backoff_max)`; `time.sleep` raises on what is negative.
abbrev pub clip : Option ℤ → ℕ → Option ℕ
clip none most = none
clip (some (ℤ.pos n)) most = some (min n most)
clip (some (ℤ.negsuc n)) most = none

-- The seconds to wait after an attempt; `.get` raises on a body that is no object.
unfoldable pub wait_after : Client → ℕ → Json → Option ℕ
wait_after c attempt (obj body) =
    if truthy? (get_field "retry_after" body)
    then clip (c.to_int (or_null (get_field "retry_after" body))) c.backoff_max
    else if truthy? (get_field "X-Retry-After" body)
    then clip (c.to_int (or_null (get_field "X-Retry-After" body))) c.backoff_max
    else some (min (2 ^ attempt * 10) c.backoff_max)
wait_after c attempt _ = none

abbrev pub ended : Outcome → Session
ended o = record { outcome = o; calls = 1; waits = [] }

abbrev pub waited : Option ℕ → Session → Session
waited none rest = ended raised
waited (some w) rest = record rest { calls = suc rest.calls; waits = w ∷ rest.waits }

-- The body of the loop, on an answer, given the rest of the loop.
unfoldable pub handle : Client → ℕ → Sent → Session → Session
handle c attempt failed rest = ended raised
handle c attempt (reply status body) rest =
    if status == 200
    then ended (answered status body)
    else if is_limited status
    then waited (wait_after c attempt body) rest
    else ended (answered status body)

-- `for attempt in range(max_retries)`, from an attempt on with so many left.
unfoldable pub attempts : Client → ℕ → ℕ → Session
attempts c zero attempt = record { outcome = exhausted; calls = 0; waits = [] }
attempts c (suc left) attempt = handle c attempt (c.send attempt) (attempts c left (suc attempt))

unfoldable pub get_with_backoff : Client → ℕ → Session
get_with_backoff c max_retries = attempts c max_retries 0
