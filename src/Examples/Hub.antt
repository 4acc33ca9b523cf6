-- ===== src/Examples/Hub.antt =====
-- A hub with one enrollment token left and two rows, one of them revoked.
use dev_gate_agentic_framewo.Common.{
  ◌+◌, ◌≡◌, ◌↔◌, refl, String, true, false, none, some, List, [], ◌∷◌, string_eq, nat_eq, contains,
  arith,
}
use text.Mathlib.TextEquality.{eq_iff}
use dev_gate_agentic_framewo.Common.Json.{
  str, obj, arr, nil, Fields, end, field, get_field, or_null,
}
use dev_gate_agentic_framewo.Registry.{
  Runner, Registry, new_runner, unenrolled, find_runner, find_in, named,
}
use dev_gate_agentic_framewo.Registry.Rows.{NodupNames}
use dev_gate_agentic_framewo.Registry.Calls.{Gone, Grown}
use dev_gate_agentic_framewo.Server.{
  HubState, Enrollment, enrolled_as, alive, unknown_or_revoked_token, attempt, probe_name,
  commit_enroll, handle_heartbeat, Request, do_post, serve, get_or_else, strip_differs,
}
use dev_gate_agentic_framewo.Server.Accounts.{serve-Grown, revoked_for_good}
use dev_gate_agentic_framewo.Server.Replies.{
  holds_token, heartbeat-alive_iff, Atomic, do_post-Atomic,
}
use dev_gate_agentic_framewo.Server.Race.{interleaved, rows_named, enroll_race}

abbrev east : Runner
east = new_runner "east" "acme/app" (arr nil) (str "") "t0" "secret-east"

abbrev west : Runner
west = unenrolled (new_runner "west" "acme/app" (arr nil) (str "") "t0" "secret-west")

abbrev fleet : Registry
fleet = record { enrollment_tokens = "once" ∷ "twice" ∷ []; runners = east ∷ west ∷ [] }

abbrev hub : HubState
hub = record { registry = fleet; saved = some fleet }

abbrev enroll_body : Fields
enroll_body =
    field "runner_name" (str "north")
      (field "repo" (str "acme/app") (field "enrollment_token" (str "once") end))

abbrev beat_body : String → String → Fields
beat_body name token = field "runner_name" (str name) (field "heartbeat_token" (str token) end)

abbrev post : String → Fields → Request
post path fields = record {
  path = path;
  body = some (obj fields);
  now = "t1";
  fresh = "new-secret";
  saves = true;
}

abbrev calls : List Request
calls =
    post "/enroll" enroll_body
    ∷ post "/heartbeat" (beat_body "east" "secret-east")
    ∷ post "/revoke" (beat_body "east" "secret-east")
    ∷ post "/enroll" enroll_body
    ∷ []

serve-Grown_example : Grown fleet (serve hub calls).registry
serve-Grown_example = serve-Grown hub calls

fleet-NodupNames : NodupNames fleet.runners
unfolding find_in named new_runner string_eq
fleet-NodupNames = (refl, (refl, tt))

west-Gone : Gone (find_runner (str "west") fleet)
unfolding find_runner find_in named new_runner string_eq
west-Gone = refl

west-named : or_null (get_field "runner_name" (beat_body "west" "secret-west")) ≡ str "west"
unfolding get_field string_eq
west-named = refl

revoked_for_good_example :
    handle_heartbeat true (some (obj (beat_body "west" "secret-west"))) "t2" (serve hub calls)
    ≡ (serve hub calls, unknown_or_revoked_token)
revoked_for_good_example =
    revoked_for_good "west" hub calls (beat_body "west" "secret-west") "t2" true west-Gone
      west-named

heartbeat-alive_iff_example :
    ((handle_heartbeat true (some (obj (beat_body "east" "secret-east"))) "t1" hub).1 ≡ alive) ↔ (
      holds_token
        (get_or_else "heartbeat_token" (str "") (beat_body "east" "secret-east"))
        (find_runner (get_or_else "runner_name" (str "") (beat_body "east" "secret-east")) fleet)
      ≡ true)
heartbeat-alive_iff_example = heartbeat-alive_iff (beat_body "east" "secret-east") "t1" hub

do_post-Atomic_example : Atomic hub (do_post (post "/enroll" enroll_body) hub)
do_post-Atomic_example = do_post-Atomic (post "/enroll" enroll_body) hub refl

abbrev joining : String → Enrollment
joining token = record {
  name = "north";
  repo = "acme/app";
  presented = str token;
  labels = arr nil;
  host_alias = str "";
}

north-plain : strip_differs "north" ≡ false
unfolding strip_differs nat_eq
north-plain = refl

north-free : find_runner (str "north") fleet ≡ none
unfolding find_runner find_in named new_runner string_eq
north-free = refl

once-there : contains fleet.enrollment_tokens "once" ≡ true
unfolding string_eq
once-there = refl

twice-there : contains fleet.enrollment_tokens "twice" ≡ true
unfolding string_eq
twice-there = refl

enroll_race_example :
    (probe_name (joining "once") hub ≡ attempt (joining "once"))
    × (probe_name (joining "twice") hub ≡ attempt (joining "twice"))
    × ((commit_enroll true (joining "once") "t1" "s1" hub).1 ≡ enrolled_as "north" "s1")
    × ((interleaved (joining "once") (joining "twice") "t1" "s1" "t2" "s2" hub).1
        ≡ enrolled_as "north" "s2")
    × (rows_named "north"
          (interleaved (joining "once") (joining "twice") "t1" "s1" "t2" "s2" hub).0.registry
        ≡ rows_named "north" fleet + 2)
enroll_race_example =
    enroll_race (joining "once") (joining "twice") "once" "twice" "t1" "s1" "t2" "s2" hub refl
      north-plain north-free refl refl (ground (arith, eq_iff "once" ""))
      (ground (arith, eq_iff "twice" "")) (ground (arith, eq_iff "once" "twice")) once-there
      twice-there
