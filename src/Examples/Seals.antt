-- ===== src/Examples/Seals.antt =====
-- Two findings whose evidence is sealed, and a decision that is attested and promoted.
use dev_gate_agentic_framewo.Common.{
  ◌≡◌, ◌↔◌, refl, ap, ◌∙◌, String, ◌<>◌, true, none, some, List, [], ◌∷◌, string_eq, nat_eq, ◌==◌,
  All, arith,
}
use dev_gate_agentic_framewo.Common.Json.{Json, null, str, obj, Fields, get_field, of_list}
use dev_gate_agentic_framewo.Common.Dict.{lookup, insert}
use dev_gate_agentic_framewo.Common.Result.{ok}
use dev_gate_agentic_framewo.Canon.{Codec, check, canon, digest, digest_obj, nul}
use dev_gate_agentic_framewo.Canon.Roles.{digest-injective}
use dev_gate_agentic_framewo.Evidence.Check
use dev_gate_agentic_framewo.Evidence.{
  Observation, Disk, Files, contained, is_assertion_id, redact_values, is_prefix, occurs,
  check_retention, retention_class, Object, seal_one, seal_all, manifest_of, Bundle, seal,
}
use dev_gate_agentic_framewo.Evidence.Check.{
  check_digest, check_path, check_entry, check_entries, check_manifest_digest, verify_manifest,
}
use dev_gate_agentic_framewo.Evidence.Sealed.{NamesApart}
use dev_gate_agentic_framewo.Evidence.Intact.{
  NoCollision, IsIntact, verify-IsIntact_iff, seal-verify,
}

-- The evidence is told by its finding's key, and every other document by its kind.
abbrev kind_of : Fields → String
kind_of fields = elim (get_field "objects" fields) [ none ↦ "document" | some j ↦ "manifest" ]

abbrev dumps : Json → String
dumps (obj fields) = elim (get_field "finding_key" fields) [
  | some (str key) ↦ key
  | _ ↦ kind_of fields
]
dumps _ = "scalar"

abbrev codec : Codec
codec = record { dumps = dumps; sha256 = λ s. s }

abbrev finding : String → Observation
finding id = record {
  assertion_id = id;
  finding_key = id;
  subject_locations = "a.json" ∷ [];
  expected = str "1";
  observed = null;
}

abbrev object : String → Object
object id = record {
  path = "evidence/findings/" <> (id <> "--evidence-manifes.json");
  digest = "sha256:evidence-manifest/v1" <> (nul <> id);
  payload = id;
  assertion_id = id;
  retention = "standard";
}

abbrev objects : List Object
objects = object "one" ∷ object "two" ∷ []

abbrev disk : Disk
disk = record {
  codec = codec;
  replace = λ s secret. s;
  text = λ j. "";
  loads = λ s. ok (manifest_of objects);
  is_inside = λ path. true;
  is_writable = λ path. true;
  is_synced = λ path. true;
}

abbrev files : Files
files =
    ("evidence/findings/one--evidence-manifes.json", "one")
    ∷ ("evidence/findings/two--evidence-manifes.json", "two")
    ∷ ("evidence-manifest.json", "manifest")
    ∷ []

abbrev bundle : Bundle
bundle = record {
  digest = "sha256:evidence-manifest/v1" <> (nul <> "manifest");
  objects = objects;
  files = files;
}

two-sealed : seal disk ("s3cret" ∷ []) [] (finding "one" ∷ finding "two" ∷ []) true [] ≡ ok bundle
unfolding seal seal_all seal_one is_assertion_id redact_values canon check digest digest_obj
    contained occurs is_prefix check_retention retention_class insert lookup string_eq nat_eq
    get_field of_list
two-sealed = refl

known :
    (b : String)
    → digest codec "evidence-manifest/v1" b
      ≡ ok ("sha256:" <> ("evidence-manifest/v1" <> (nul <> b)))
unfolding digest string_eq
known b = refl

abbrev decision : String
decision = "decision/v1"

abbrev x : String
x = "x"

x-digest : digest codec "decision/v1" "x" ≡ ok ("sha256:" <> ("decision/v1" <> (nul <> "x")))
unfolding digest string_eq
x-digest = refl

digest-injective_example : (decision ≡ decision) × (x ≡ x)
digest-injective_example =
    digest-injective codec decision decision x x ("sha256:" <> ("decision/v1" <> (nul <> "x")))
      (λ e. e) x-digest x-digest

objects-NamesApart : All (NamesApart objects) objects
unfolding string_eq
objects-NamesApart = (
  (λ e. refl, (λ e. absurd (ground (arith, ap (λ p. p == (object "two").path) e)), tt)),
  ((λ e. absurd (ground (arith, ap (λ p. p == (object "one").path) e)), (λ e. refl, tt)), tt),
)

seal-verify_example : Check.verify disk files (str bundle.digest) ≡ ok true
seal-verify_example =
    seal-verify disk ("s3cret" ∷ []) [] (finding "one" ∷ finding "two" ∷ []) [] bundle two-sealed
      refl objects-NamesApart

-- The second finding's file is altered.
abbrev altered : Files
altered = insert "evidence/findings/two--evidence-manifes.json" "2wo" files

same_manifest : lookup "evidence-manifest.json" altered ≡ lookup "evidence-manifest.json" files
unfolding insert lookup string_eq
same_manifest = refl

altered-NoCollision : All (NoCollision disk altered) objects
altered-NoCollision = (
  λ bytes there same. same_bytes bytes "one" same,
  (λ bytes there same. same_bytes bytes "two" same, tt),
)
  where
    same_bytes :
        (a b : String)
        → digest codec "evidence-manifest/v1" a ≡ digest codec "evidence-manifest/v1" b
        → a ≡ b
    same_bytes a b e =
        (digest-injective codec "evidence-manifest/v1" "evidence-manifest/v1" a b
          ("sha256:" <> ("evidence-manifest/v1" <> (nul <> b))) (λ k. k) (e ∙ known b) (known b)).1

verify-IsIntact_iff_example :
    (Check.verify disk altered (str bundle.digest) ≡ ok true) ↔ All (IsIntact altered) objects
verify-IsIntact_iff_example =
    verify-IsIntact_iff disk ("s3cret" ∷ []) [] (finding "one" ∷ finding "two" ∷ []) [] altered
      bundle two-sealed refl same_manifest altered-NoCollision
