-- ===== src/Examples/Vaults.antt =====
-- A bundle that is retained for a day.
use dev_gate_agentic_framewo.Common.{
  ◌≡◌, ◌↔◌, refl, String, true, some, [], ◌∷◌, contains, string_eq, if◌then◌else◌,
}
use dev_gate_agentic_framewo.Common.Json.{ℤ}
use dev_gate_agentic_framewo.Common.Dict.{lookup, insert}
use dev_gate_agentic_framewo.Common.Result.{ok}
use dev_gate_agentic_framewo.Retention.{
  Host, Store, Moment, is_ref, content_ref, retain, write_bundle, keep_bundle, read,
}
use dev_gate_agentic_framewo.Retention.Access.{Unlocks, Lasts, IsKept, read_iff}
use dev_gate_agentic_framewo.Retention.Kept.{retain-read}

abbrev hex : String
hex = "aaaaaaaaaaaaaaaaaaaaaaaaaaaaaaaaaaaaaaaaaaaaaaaaaaaaaaaaaaaaaaaa"

abbrev noon : Moment
noon = record { wall = 0; ahead = some 86400000000 }

abbrev host : Host
host = record {
  sha256 = λ payload. hex;
  hmac = λ key ref. "mac";
  key = ok "key";
  parse =
      λ t. if contains ("noon" ∷ []) t then some noon else some (record noon { wall = 5000000 });
}

abbrev ref : String
ref = "sha256:aaaaaaaaaaaaaaaaaaaaaaaaaaaaaaaaaaaaaaaaaaaaaaaaaaaaaaaaaaaaaaaa"

abbrev empty_vault : Store
empty_vault = record { bundles = []; records = [] }

abbrev vault : Store
vault = record {
  bundles = (ref, "bytes") ∷ [];
  records =
      (
        ref,
        record {
          subject_digest = "s";
          content_digest = ref;
          retained_at = "noon";
          retention_days = 1;
        },
      )
      ∷ [];
}

one-retained : retain host "s" "bytes" "noon" (ℤ.pos 1) empty_vault ≡ ok (ref, vault)
unfolding retain write_bundle keep_bundle lookup insert string_eq
one-retained = refl

ref-formed : is_ref ref ≡ true
unfolding is_ref
ref-formed = refl

abbrev payload : String
payload = "bytes"

read_iff_example : (read host vault ref "later" (some "hmac-sha256:mac") ≡ ok payload) ↔ (
    (is_ref ref ≡ true)
    × (lookup ref vault.bundles ≡ some payload)
    × (content_ref host payload ≡ ref)
    × Unlocks host ref (some "hmac-sha256:mac")
    × IsKept host vault ref "later")
read_iff_example = read_iff host vault ref "later" (some "hmac-sha256:mac") payload

retain-read_example : (read host vault ref "later" (some "hmac-sha256:mac") ≡ ok payload) ↔ (
    (payload ≡ payload) × Unlocks host ref (some "hmac-sha256:mac") × Lasts host "noon" 1 "later")
retain-read_example =
    retain-read host "s" "bytes" "noon" 1 empty_vault ref vault "later" (some "hmac-sha256:mac")
      payload one-retained ref-formed
