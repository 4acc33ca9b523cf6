-- ===== src/Retention.antt =====
-- hub/coherence/retention.py: retained inputs, and the capability that unlocks one of them.
pub mod Access
pub mod Kept
use dev_gate_agentic_framewo.Common.{
  ℕ, ◌+◌, ◌*◌, String, Bool, true, false, not, ◌&&◌, ◌||◌, Option, none, some, List, [], ◌∷◌, all,
  length, ◌==◌, ◌!=◌, string_eq, nat_eq, if◌then◌else◌, ◌<>◌, leb, ltb,
}
use dev_gate_agentic_framewo.Common.Json.{ℤ}
use dev_gate_agentic_framewo.Common.Dict.{Dict, lookup, insert}
use dev_gate_agentic_framewo.Common.Text.{codes}
use dev_gate_agentic_framewo.Common.Result.{Result, ok, err, ◌>>=◌, ◌>>◌}

-- What a call raises: `RetentionError` with its reason, or an exception that nothing here catches.
pub data RetentionError : Type 0 where
  bad_ref key_not_configured key_malformed days_negative bad_time collision : RetentionError
  not_retained unauthorized record_missing expired tampered : RetentionError
  unauthorized_for : RetentionError → RetentionError
  uncaught : String → RetentionError

-- A `datetime`: the microseconds on its own clock since the start of the year 1, and, where it has a
-- time zone, how far that clock is ahead of UTC, as microseconds above minus one day.
pub record Moment : Type 0 where
  pub wall : ℕ
  pub ahead : Option ℕ

-- The module's surroundings: the hex of SHA-256 and of HMAC-SHA-256, the key of the environment, and
-- the parse of a time. Bytes stand as a text.
pub record Host : Type 0 where
  pub sha256 : String → String
  pub hmac : String → String → String
  pub key : Result RetentionError String
  pub parse : String → Option Moment

-- The metadata of a bundle.
pub record Meta : Type 0 where
  pub subject_digest : String
  pub content_digest : String
  pub retained_at : String
  pub retention_days : ℕ

-- The two directories of the store.
pub record Store : Type 0 where
  pub bundles : Dict String
  pub records : Dict Meta

abbrev pub is_hex : ℕ → Bool
is_hex c = (leb 48 c && leb c 57) || (leb 97 c && leb c 102)

-- What follows the prefix.
unfoldable pub after_prefix : List ℕ → List ℕ → Option (List ℕ)
after_prefix [] text = some text
after_prefix (p ∷ ps) [] = none
after_prefix (p ∷ ps) (c ∷ cs) = let rest = after_prefix ps cs in if p == c then rest else none

abbrev pub is_digest : Option (List ℕ) → Bool
is_digest none = false
is_digest (some cs) = length cs == 64 && all is_hex cs

-- _REF_RE
unfoldable pub is_ref : String → Bool
unfolding after_prefix nat_eq
is_ref ref = is_digest (after_prefix (codes "sha256:") (codes ref))

abbrev pub content_ref : Host → String → String
content_ref h payload = "sha256:" <> h.sha256 payload

unfoldable pub issue : Host → String → Result RetentionError String
issue h ref = do k ← h.key; ok ("hmac-sha256:" <> h.hmac k ref)

-- The bundle that is there must hold the same bytes.
unfoldable pub keep_bundle :
    String → String → Option String → Dict String → Result RetentionError (Dict String)
keep_bundle ref payload none bundles = ok (insert ref payload bundles)
keep_bundle ref payload (some old) bundles = if old != payload then err collision else ok bundles

-- The part of `retain` after its checks.
unfoldable pub write_bundle :
    Host → String → String → String → ℕ → Store → Result RetentionError (String × Store)
write_bundle h subject_digest payload retained_at days s = do
  bundles ←
      keep_bundle (content_ref h payload) payload (lookup (content_ref h payload) s.bundles)
        s.bundles
  ok (
    content_ref h payload,
    record {
      bundles = bundles;
      records =
          insert (content_ref h payload)
            (record {
              subject_digest = subject_digest;
              content_digest = content_ref h payload;
              retained_at = retained_at;
              retention_days = days;
            })
            s.records;
    },
  )

abbrev pub check_time : Option Moment → Result RetentionError (Unit {0})
check_time none = err bad_time
check_time (some t) = ok tt

-- The bundle's ref, and the store with the bundle and its record.
unfoldable pub retain :
    Host → String → String → String → ℤ → Store → Result RetentionError (String × Store)
retain h subject_digest payload retained_at (ℤ.negsuc n) s = err days_negative
retain h subject_digest payload retained_at (ℤ.pos days) s =
    check_time (h.parse retained_at) >> write_bundle h subject_digest payload retained_at days s

-- `except RetentionError as e`
abbrev pub wrap : Result RetentionError String → Result RetentionError String
wrap (ok token) = ok token
wrap (err e) = err (unauthorized_for e)

abbrev pub is_ascii : String → Bool
is_ascii s = all (λ c. ltb c 128) (codes s)

-- `hmac.compare_digest`, which takes ASCII texts only, on a presented value that may be no text
abbrev pub check_token : String → Option String → Result RetentionError (Unit {0})
check_token expected none = err unauthorized
check_token expected (some token) =
    if is_ascii expected && is_ascii token
    then (if expected == token then ok tt else err unauthorized)
    else err (uncaught "TypeError")

-- timedelta(days=1)
abbrev pub day : ℕ
day = 86400000000

-- `timedelta.max.days`, and `datetime.max` as microseconds since the start of the year 1
abbrev pub max_days : ℕ
max_days = 999999999

abbrev pub last_moment : ℕ
last_moment = 315537897599999999

-- `retained + timedelta(days=days)`, on the clock of `retained`
unfoldable pub add_days : Moment → ℕ → Result RetentionError ℕ
add_days retained days =
    if leb days max_days && leb (retained.wall + days * day) last_moment
    then ok (retained.wall + days * day)
    else err (uncaught "OverflowError")

-- `now > expiry`, where a time with a zone is not compared with one that has none
unfoldable pub is_later : Option ℕ → Option ℕ → ℕ → ℕ → Result RetentionError Bool
is_later none none now expiry = ok (ltb expiry now)
is_later (some b) (some a) now expiry = ok (ltb (expiry + b) (now + a))
is_later _ _ now expiry = err (uncaught "TypeError")

unfoldable pub check_window : Option Moment → Option Moment → ℕ → Result RetentionError (Unit {0})
check_window (some retained) (some now) days = do
  expiry ← add_days retained days
  late ← is_later now.ahead retained.ahead now.wall expiry
  if late then err expired else ok tt
check_window _ _ days = err bad_time

unfoldable pub check_record : Host → String → Option Meta → Result RetentionError (Unit {0})
check_record h as_of none = err record_missing
check_record h as_of (some m) =
    check_window (h.parse m.retained_at) (h.parse as_of) m.retention_days

-- The checks on a bundle that is there.
unfoldable pub open_bundle :
    Host → Store → String → String → Option String → String → Result RetentionError String
open_bundle h s ref as_of authorization payload = do
  expected ← wrap (issue h ref)
  check_token expected authorization
  check_record h as_of (lookup ref s.records)
  if content_ref h payload == ref then ok payload else err tampered

abbrev pub open_path :
    Host → Store → String → String → Option String → Option String → Result RetentionError String
open_path h s ref as_of authorization none = err not_retained
open_path h s ref as_of authorization (some payload) =
    open_bundle h s ref as_of authorization payload

unfoldable pub read : Host → Store → String → String → Option String → Result RetentionError String
read h s ref as_of authorization =
    if is_ref ref then open_path h s ref as_of authorization (lookup ref s.bundles) else err bad_ref
