-- ===== src/Evidence/Check.antt =====
-- hub/coherence/evidence.py: `verify`, on a bundle that may have been tampered with.
use dev_gate_agentic_framewo.Common.{
  String, Bool, true, false, Option, none, some, List, [], ◌∷◌, ◌==◌, string_eq, nat_eq,
  if◌then◌else◌,
}
use dev_gate_agentic_framewo.Common.Json.{
  Json, str, arr, obj, Fields, end, field, get_field, or_null, to_list,
}
use dev_gate_agentic_framewo.Common.Dict.{lookup}
use dev_gate_agentic_framewo.Common.Result.{Result, ok, err, ◌>>=◌}
use dev_gate_agentic_framewo.Canon.{CanonError, digest_bytes, digest_obj}
use dev_gate_agentic_framewo.Evidence.{
  ReadError, not_json, not_utf8, EvidenceError, Disk, Files, contained, manifest_path,
}

-- `verify` may raise on a manifest of another shape.
pub data Crash : Type 0 where
  raised : String → Crash

abbrev pub caught : Result CanonError String → Result Crash String
caught (ok s) = ok s
caught (err e) = err (raised "CanonError")

abbrev pub equals_text : Json → String → Bool
equals_text (str s) t = s == t
equals_text _ t = false

-- The digest of the entry's file against the entry's.
unfoldable pub check_digest : Disk → Fields → Option String → Result Crash Bool
check_digest h entry none = ok false
check_digest h entry (some bytes) = do
  actual ← caught (digest_bytes h.codec "evidence-manifest/v1" bytes)
  elim (get_field "digest" entry) [
    | none ↦ err (raised "KeyError")
    | some d ↦ ok (equals_text d actual)
  ]

unfoldable pub check_path : Disk → Files → Fields → Result EvidenceError String → Result Crash Bool
check_path h files entry (err e) = ok false
check_path h files entry (ok rel) = check_digest h entry (lookup rel files)

unfoldable pub check_entry : Disk → Files → Json → Result Crash Bool
check_entry h files (obj entry) =
    check_path h files entry (contained h (or_null (get_field "path" entry)))
check_entry h files _ = err (raised "AttributeError")

-- The loop ends at the first entry that does not hold.
abbrev pub and_rest : Result Crash Bool → Result Crash Bool → Result Crash Bool
and_rest (ok true) rest = rest
and_rest first rest = first

unfoldable pub check_entries : Disk → Files → List Json → Result Crash Bool
check_entries h files [] = ok true
check_entries h files (j ∷ js) = and_rest (check_entry h files j) (check_entries h files js)

-- What `manifest.get("objects", [])` is iterated as; the characters of a text and the keys of a dict
-- have no `get`.
abbrev pub entries_of : Option Json → Result Crash (List Json)
entries_of none = ok []
entries_of (some (arr xs)) = ok (to_list xs)
entries_of (some (str s)) = if s == "" then ok [] else err (raised "AttributeError")
entries_of (some (obj end)) = ok []
entries_of (some (obj (field k j rest))) = err (raised "AttributeError")
entries_of (some _) = err (raised "TypeError")

unfoldable pub check_manifest_digest : Disk → Json → Json → Result Crash Bool
check_manifest_digest h expected m = do
  actual ← caught (digest_obj h.codec "evidence-manifest/v1" m)
  ok (equals_text expected actual)

unfoldable pub verify_manifest : Disk → Files → Json → Result ReadError Json → Result Crash Bool
verify_manifest h files expected (err not_json) = ok false
verify_manifest h files expected (err not_utf8) = err (raised "UnicodeDecodeError")
verify_manifest h files expected (ok (obj m)) = do
  entries ← entries_of (get_field "objects" m)
  and_rest (check_entries h files entries) (check_manifest_digest h expected (obj m))
verify_manifest h files expected (ok _) = err (raised "AttributeError")

-- The expected digest may come from a document.
unfoldable pub verify : Disk → Files → Json → Result Crash Bool
verify h files expected = elim (lookup manifest_path files) [
  | none ↦ ok false
  | some bytes ↦ verify_manifest h files expected (h.loads bytes)
]
