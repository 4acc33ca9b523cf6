-- ===== src/Examples/Retries.antt =====
-- A GET that is limited once and then answered.
use dev_gate_agentic_framewo.Common.{ℕ, ◌≡◌, refl, zero, suc, none, [], ◌∷◌, nat_eq, string_eq}
use dev_gate_agentic_framewo.Common.Json.{obj, end, get_field, truthy}
use dev_gate_agentic_framewo.GithubClient.{
  Client, Sent, reply, answered, get_with_backoff, attempts, handle, wait_after,
}
use dev_gate_agentic_framewo.GithubClient.Bounds.{Bounded, get_with_backoff-Bounded}

abbrev answers : ℕ → Sent
answers zero = reply 429 (obj end)
answers (suc n) = reply 200 (obj end)

abbrev client : Client
client = record { backoff_max = 120; send = answers; to_int = λ j. none }

client-answered :
    get_with_backoff client 3
    ≡ record { outcome = answered 200 (obj end); calls = 2; waits = 10 ∷ [] }
unfolding get_with_backoff attempts handle wait_after get_field truthy nat_eq
client-answered = refl

get_with_backoff-Bounded_example : Bounded 120 3 (get_with_backoff client 3)
get_with_backoff-Bounded_example = get_with_backoff-Bounded client 3
