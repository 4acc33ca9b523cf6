-- ===== src/Evidence.antt =====
-- hub/coherence/evidence.py: the evidence of a run's findings, sealed under a manifest and verified.
pub mod Check
pub mod Sealed
pub mod Intact
use dev_gate_agentic_framewo.Common.{
  ℕ, zero, suc, String, ◌<>◌, Bool, true, false, not, ◌&&◌, ◌||◌, Option, none, some, is_some, List,
  [], ◌∷◌, map, any, keep, contains, ◌==◌, string_eq, nat_eq, if◌then◌else◌, leb,
}
use Prim.Native.Char.{code}
use dev_gate_agentic_framewo.Common.Json.{
  ℤ, pos, negsuc, Json, null, bool, int, str, arr, obj, Items, nil, cons, Fields, end, field,
  get_field, or_null, to_list, of_list,
}
use dev_gate_agentic_framewo.Common.Dict.{Dict, lookup, insert}
use dev_gate_agentic_framewo.Common.Result.{Result, ok, err, ◌>>=◌, ◌>>◌}
use dev_gate_agentic_framewo.Canon.{CanonError, Codec, canon, digest_bytes, digest_obj}

-- A finding, as far as its evidence tells it.
pub record Observation : Type 0 where
  pub assertion_id : String
  pub finding_key : String
  pub subject_locations : List String
  pub expected : Json
  pub observed : Json

pub data EvidenceError : Type 0 where
  cannot_create path_malformed unredacted_secret : EvidenceError
  bad_retention_days bad_assertion_id path_out_of_bounds cannot_seal : String → EvidenceError
  not_canonical : CanonError → EvidenceError

-- Why a file is no document: a JSONDecodeError or a UnicodeDecodeError.
pub data ReadError : Type 0 where
  not_json not_utf8 : ReadError

-- The standard library and the file system: `str.replace(secret, "[REDACTED]")`, the text of a
-- number, `json.loads` of a file's UTF-8 text, whether a relative path resolves to one inside the run's directory, whether
-- `emit` can put a file there, and whether it can then sync the directory that holds it.
pub record Disk : Type 0 where
  pub codec : Codec
  pub replace : String → String → String
  pub text : Json → String
  pub loads : String → Result ReadError Json
  pub is_inside : String → Bool
  pub is_writable : String → Bool
  pub is_synced : String → Bool

-- `emit` returns.
abbrev pub is_emitted : Disk → String → Bool
is_emitted h rel = h.is_writable rel && h.is_synced rel

-- The files of the run's directory, by their relative paths.
abbrev pub Files : Type 0
Files = Dict String

abbrev pub is_id_char : ℕ → Bool
is_id_char c = (leb 97 c && leb c 122) || (leb 48 c && leb c 57) || c == 46 || c == 95 || c == 45

abbrev pub all_id_chars : String → Bool
all_id_chars String.[] = true
all_id_chars (String.◌∷◌ c s) = is_id_char (code c) && all_id_chars s

-- _ASSERTION_ID_RE.fullmatch
unfoldable pub is_assertion_id : String → Bool
is_assertion_id String.[] = false
is_assertion_id (String.◌∷◌ c s) =
    ((leb 97 (code c) && leb (code c) 122) || (leb 48 (code c) && leb (code c) 57))
    && all_id_chars s

-- `contained`, of a path that may be no text
unfoldable pub contained : Disk → Json → Result EvidenceError String
contained h (str rel) =
    if rel == ""
    then err path_malformed
    else if h.is_inside rel
    then ok rel
    else err (path_out_of_bounds rel)
contained h _ = err path_malformed

abbrev pub redact_text : Disk → List String → String → String
redact_text h [] s = s
redact_text h (r ∷ rs) s = redact_text h rs (h.replace s r)

unfoldable mutual
  pub redact_values : Disk → List String → Json → Json
  redact_values h rs (str s) = str (redact_text h rs s)
  redact_values h rs (arr xs) = arr (redact_items h rs xs)
  redact_values h rs (obj fields) = obj (redact_fields h rs fields)
  redact_values h rs j = j

  pub redact_items : Disk → List String → Items → Items
  redact_items h rs nil = nil
  redact_items h rs (cons j xs) = cons (redact_values h rs j) (redact_items h rs xs)

  pub redact_fields : Disk → List String → Fields → Fields
  redact_fields h rs end = end
  redact_fields h rs (field k j rest) = field k (redact_values h rs j) (redact_fields h rs rest)

-- `needle in text`
unfoldable pub is_prefix : String → String → Bool
is_prefix String.[] t = true
is_prefix (String.◌∷◌ c s) String.[] = false
is_prefix (String.◌∷◌ c s) (String.◌∷◌ d t) = code c == code d && is_prefix s t

unfoldable pub occurs : String → String → Bool
occurs needle String.[] = needle == ""
occurs needle (String.◌∷◌ c s) = is_prefix needle (String.◌∷◌ c s) || occurs needle s

-- s[n:]
abbrev pub drop_text : ℕ → String → String
drop_text zero s = s
drop_text (suc n) String.[] = ""
drop_text (suc n) (String.◌∷◌ c s) = drop_text n s

-- s[:n]
abbrev pub take_text : ℕ → String → String
take_text zero s = ""
take_text (suc n) String.[] = ""
take_text (suc n) (String.◌∷◌ c s) = String.◌∷◌ c (take_text n s)

-- isinstance(days, int) and days >= 0
abbrev pub are_days : Json → Bool
are_days (int (pos n)) = true
are_days (bool b) = true
are_days _ = false

unfoldable pub check_retention : Dict Json → Result EvidenceError (Unit {0})
check_retention [] = ok tt
check_retention ((aid, days) ∷ ret) =
    let rest = check_retention ret in if are_days days then rest else err (bad_retention_days aid)

-- The class of the days that the assertion declares.
unfoldable pub retention_class : Disk → Dict Json → String → String
retention_class h ret aid = elim (lookup aid ret) [
  | none ↦ "standard"
  | some days ↦ "retention:" <> (h.text days <> "d")
]

-- What one finding writes, and its entry of the manifest.
pub record Object : Type 0 where
  pub path : String
  pub digest : String
  pub payload : String
  pub assertion_id : String
  pub retention : String

abbrev pub strings : List String → Items
strings ls = of_list (map str ls)

abbrev pub evidence_of : Observation → Json
evidence_of f = obj (
    field "assertion_id" (str f.assertion_id) (
      field "finding_key" (str f.finding_key) (
        field "subject_locations" (arr (strings f.subject_locations))
          (field "expected" f.expected (field "observed" f.observed end)))))

abbrev pub lift {ℓ} : {A : Type ℓ} → Result CanonError A → Result EvidenceError A
lift (ok a) = ok a
lift (err e) = err (not_canonical e)

abbrev pub path_of : String → String → String
path_of aid digest =
    "evidence/findings/" <> (aid <> ("--" <> (take_text 16 (drop_text 7 digest) <> ".json")))

abbrev pub refuse_if : Bool → EvidenceError → Result EvidenceError (Unit {0})
refuse_if true e = err e
refuse_if false e = ok tt

-- The body of the loop of `seal`, up to the write.
unfoldable pub seal_one : Disk → List String → Dict Json → Observation → Result EvidenceError Object
seal_one h values ret f = do
  refuse_if (not (is_assertion_id f.assertion_id)) (bad_assertion_id f.assertion_id)
  payload ← lift (canon h.codec (redact_values h values (evidence_of f)))
  refuse_if (any (λ r. occurs r payload) values) unredacted_secret
  digest ← lift (digest_bytes h.codec "evidence-manifest/v1" payload)
  rel ← contained h (str (path_of f.assertion_id digest))
  refuse_if (not (is_emitted h rel)) (cannot_seal rel)
  ok (record {
    path = rel;
    digest = digest;
    payload = payload;
    assertion_id = f.assertion_id;
    retention = retention_class h ret f.assertion_id;
  })

unfoldable pub seal_all :
    Disk
    → List String
    → Dict Json
    → List Observation
    → Files
    → Result EvidenceError (List Object × Files)
seal_all h values ret [] files = ok ([], files)
seal_all h values ret (f ∷ fs) files = do
  o ← seal_one h values ret f
  rest ← seal_all h values ret fs (insert o.path o.payload files)
  ok (o ∷ rest.0, rest.1)

abbrev pub entry_fields : Object → Fields
entry_fields o = field "path" (str o.path) (
    field "digest" (str o.digest) (
      field "media_type" (str "application/json") (
        field "assertion_id" (str o.assertion_id)
          (field "retention_class" (str o.retention) (field "redacted" (bool true) end)))))

abbrev pub entry_of : Object → Json
entry_of o = obj (entry_fields o)

abbrev pub manifest_of : List Object → Json
manifest_of os = obj (
    field "api_version" (str "devgate.spec-coherence.evidence/v1")
      (field "objects" (arr (of_list (map entry_of os))) end))

abbrev pub manifest_path : String
manifest_path = "evidence-manifest.json"

-- What `seal` returns, with the paths it writes into the findings' `evidence_refs`.
pub record Bundle : Type 0 where
  pub digest : String
  pub objects : List Object
  pub files : Files

abbrev pub is_nonempty_text : String → Bool
is_nonempty_text s = not (s == "")

-- The first argument but one says whether the directory can be made.
unfoldable pub seal :
    Disk → List String → Dict Json → List Observation → Bool → Files → Result EvidenceError Bundle
seal h redact ret findings is_directory files = do
  refuse_if (not is_directory) cannot_create
  check_retention ret
  sealed ← seal_all h (keep is_nonempty_text redact) ret findings files
  digest ← lift (digest_obj h.codec "evidence-manifest/v1" (manifest_of sealed.0))
  bytes ← lift (canon h.codec (manifest_of sealed.0))
  refuse_if (not (is_emitted h manifest_path)) (cannot_seal manifest_path)
  ok (record { digest = digest; objects = sealed.0; files = insert manifest_path bytes sealed.1 })
