-- ===== src/Examples/Caches.antt =====
-- A signed result in the cache, looked up within its time to live.
use dev_gate_agentic_framewo.Common.{
  ◌≡◌, refl, String, Bool, true, Option, none, some, List, [], ◌∷◌, All, ◌<>◌, contains, string_eq,
  ◌==◌, ap, if◌then◌else◌, arith,
}
use dev_gate_agentic_framewo.ResultCache.{
  Material, Signer, Host, Store, Request, CacheEntry, readable, normal, get,
}
use dev_gate_agentic_framewo.ResultCache.Stored.{written}
use dev_gate_agentic_framewo.ResultCache.Log.{Put, replay, expected, NoCollision, get-replay}

abbrev material : Material
material = record {
  subject_digest = some "s";
  package_digest = some "p";
  policy_digest = some "o";
  context_digest = some "c";
  evaluator_image_digest = some "e";
  plugin_digests = some [];
  captured_fact_digests = some ("f" ∷ []);
}

abbrev text_of : Option String → String
text_of none = ""
text_of (some s) = s

-- A digest that joins the first components stands for SHA-256.
abbrev host : Host
host = record {
  digest = λ m. text_of m.subject_digest <> text_of m.package_digest;
  parse = λ t. if contains ("noon" ∷ []) t then some 0 else some 5000000;
}

abbrev signer : Signer
signer = record { key_id = "k"; signer_set_digest = "d" }

abbrev payload : String
payload = "result"

abbrev stored : CacheEntry
stored = written material payload "noon" (some signer) none

abbrev store : Store
store = ("sp", readable stored) ∷ []

always : Signer → Bool × String
always s = (true, "")

abbrev request : Request
request = record {
  as_of = "later";
  ttl_seconds = some 60;
  signer_ok = some always;
  retention_ok = none;
}

abbrev other : Material
other = record material { subject_digest = some "t" }

abbrev calls : List Put
calls =
    record { material = other; payload = "late"; cached_at = "noon"; signer = none; refs = none }
    ∷ record {
      material = material;
      payload = payload;
      cached_at = "noon";
      signer = some signer;
      refs = none;
    }
    ∷ []

no_same : ◌≡◌ {A = String} "tp" "sp" → ⊥
unfolding string_eq
no_same e = absurd (ground (arith, ap (λ s. s == "sp") e))

calls-apart : All (NoCollision host material) calls
unfolding normal
calls-apart = (λ e. absurd (no_same e), (λ e. refl, tt))

get-replay_example :
    get host request material (replay host calls) ≡ expected host request material calls
get-replay_example = get-replay host request material calls calls-apart
