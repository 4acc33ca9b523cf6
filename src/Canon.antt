-- ===== src/Canon.antt =====
-- hub/coherence/canon.py: canonical bytes and the digests of a role.
pub mod Roles
use dev_gate_agentic_framewo.Common.{
  ℕ, String, ◌<>◌, Bool, true, false, List, [], ◌∷◌, contains, string_eq, if◌then◌else◌, ltb,
}
use dev_gate_agentic_framewo.Common.Json.{
  ℤ, pos, negsuc, Json, null, bool, int, real, str, arr, obj, Items, nil, cons, Fields, end, field,
}
use dev_gate_agentic_framewo.Common.Result.{Result, ok, err, ◌>>◌, ◌>>=◌}

-- ROLE_TAGS
abbrev pub role_tags : List String
role_tags =
    "subject-manifest/v1" ∷ "package/v1" ∷ "policy/v1" ∷ "context/v1" ∷ "evidence-manifest/v1"
    ∷ "decision/v1" ∷ "file/v1" ∷ "signer-set/v1" ∷ []

pub data CanonError : Type 0 where
  int_out_of_range float_outside_profile : CanonError
  unknown_role : String → CanonError

-- `INT64_MIN <= obj <= INT64_MAX`, where `negsuc n` is -(n + 1)
unfoldable pub is_int64 : ℤ → Bool
is_int64 (pos n) = ltb n 9223372036854775808
is_int64 (negsuc n) = ltb n 9223372036854775808

-- `_check`, of what a JSON document can hold
unfoldable mutual
  pub check : Json → Result CanonError (Unit {0})
  check (int i) = if is_int64 i then ok tt else err int_out_of_range
  check (real b s) = err float_outside_profile
  check (arr xs) = check_items xs
  check (obj fields) = check_fields fields
  check _ = ok tt

  pub check_items : Items → Result CanonError (Unit {0})
  check_items nil = ok tt
  check_items (cons j xs) = check j >> check_items xs

  pub check_fields : Fields → Result CanonError (Unit {0})
  check_fields end = ok tt
  check_fields (field k j rest) = check j >> check_fields rest

-- The standard library: `json.dumps` with sorted keys, and the hexadecimal SHA-256 of bytes.
pub record Codec : Type 0 where
  pub dumps : Json → String
  pub sha256 : String → String

unfoldable pub canon : Codec → Json → Result CanonError String
canon c j = check j >> ok (c.dumps j)

-- Between the tag and the payload: the byte 0.
abbrev pub nul : String
nul = "\0"

unfoldable pub digest : Codec → String → String → Result CanonError String
digest c tag payload =
    if contains role_tags tag
    then ok ("sha256:" <> c.sha256 (tag <> (nul <> payload)))
    else err (unknown_role tag)

-- digest_bytes
abbrev pub digest_bytes : Codec → String → String → Result CanonError String
digest_bytes = digest

unfoldable pub digest_obj : Codec → String → Json → Result CanonError String
digest_obj c tag j = canon c j >>= digest c tag
