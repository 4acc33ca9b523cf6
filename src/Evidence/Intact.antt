-- ===== src/Evidence/Intact.antt =====
-- hub/coherence/evidence.py: when `verify` accepts a bundle that was sealed.
use dev_gate_agentic_framewo.Common.{
  ◌≡◌, ◌≢◌, ◌↔◌, ◌∙◌, refl, sym, ap, String, ◌<>◌, Bool, true, false, ◌||◌, Option, none, some,
  List, [], ◌∷◌, map, keep, ◌==◌, string_eq, nat_eq, if◌then◌else◌, All, arith, Bool-cases, inl,
  inr,
}
use text.Mathlib.TextLemmas.{nil-append, cons-append}
use Prim.Native.Char.{code}
use dev_gate_agentic_framewo.Common.Json.{Json, str, get_field, to_list, of_list}
use dev_gate_agentic_framewo.Common.Dict.{Dict, lookup, insert, lookup-insert}
use dev_gate_agentic_framewo.Common.Result.{Result, ok, err, ok_injective, >>=-ok, ◌>>=◌}
use dev_gate_agentic_framewo.Canon.{Codec, check, canon, digest_bytes, digest_obj, CanonError}
use dev_gate_agentic_framewo.Evidence.{
  Observation, Disk, Files, Object, path_of, take_text, drop_text, entry_fields, entry_of,
  manifest_of, manifest_path, Bundle, seal, is_nonempty_text,
}
use dev_gate_agentic_framewo.Evidence.Check.{
  Crash, caught, equals_text, check_digest, check_path, check_entry, and_rest, check_entries,
  check_manifest_digest, verify_manifest, verify,
}
use dev_gate_agentic_framewo.Evidence.Sealed.{IsSound, NamesApart, IsSealed, seal-IsSealed}

abbrev has_slash : String → Bool
has_slash String.[] = false
has_slash (String.◌∷◌ c s) = code c == 47 || has_slash s

has_slash-append : (s t : String) → has_slash (s <> t) ≡ (has_slash s || has_slash t)
has_slash-append String.[] t = ap has_slash (nil-append t)
has_slash-append (String.◌∷◌ c s) t =
    ap has_slash (cons-append c s t) ∙ ground (arith, has_slash-append s t)

path_of-ne : (aid digest : String) → manifest_path ≢ path_of aid digest
unfolding nat_eq
path_of-ne aid digest e = absurd (
    ground (
      arith,
      ap has_slash e
          ∙ has_slash-append "evidence/findings/"
              (aid <> ("--" <> (take_text 16 (drop_text 7 digest) <> ".json"))),
    ))

-- No other bytes at the object's path have the digest of its payload.
abbrev pub NoCollision : Disk → Files → Object → Type 0
NoCollision h files o =
    (bytes : String)
    → lookup o.path files ≡ some bytes
    → digest_bytes h.codec "evidence-manifest/v1" bytes
      ≡ digest_bytes h.codec "evidence-manifest/v1" o.payload
    → bytes ≡ o.payload

-- The object's file holds its payload.
abbrev pub IsIntact : Files → Object → Type 0
IsIntact files o = lookup o.path files ≡ some o.payload

equal : (a b : String) → (a == b) ≡ true → a ≡ b
equal a b e = ground arith

itself : (d : String) → ◌≡◌ {A = Result Crash Bool} (ok (d == d)) (ok true)
itself d = ground arith

and_rest-true : (r q : Result Crash Bool) → and_rest r q ≡ ok true → (r ≡ ok true) × (q ≡ ok true)
and_rest-true (ok true) q h = (refl, h)
and_rest-true (ok false) q h = absurd (ground arith)
and_rest-true (err e) q h = absurd (ground arith)

module _ (h : Disk) (values : List String) (files : Files) where
  check_digest_iff :
      (o : Object) (there : Option String)
      → IsSound h values o
      → ((bytes : String)
          → there ≡ some bytes
          → digest_bytes h.codec "evidence-manifest/v1" bytes
            ≡ digest_bytes h.codec "evidence-manifest/v1" o.payload
          → bytes ≡ o.payload)
      → (check_digest h (entry_fields o) there ≡ ok true) ↔ (there ≡ some o.payload)
  unfolding check_digest get_field string_eq
  check_digest_iff o none sound apart = (λ k. absurd (ground arith), λ k. absurd (ground arith))
  check_digest_iff o (some bytes) sound apart =
      go (digest_bytes h.codec "evidence-manifest/v1" bytes) refl
    where
      some_injective : {a b : String} → ◌≡◌ {A = Option String} (some a) (some b) → a ≡ b
      some_injective e = cc

      go :
          (r : Result CanonError String)
          → digest_bytes h.codec "evidence-manifest/v1" bytes ≡ r
          → ((caught r >>= λ actual. ok (equals_text (str o.digest) actual)) ≡ ok true)
            ↔ (◌≡◌ {A = Option String} (some bytes) (some o.payload))
      go (err e) made = (
        λ k. absurd (ground arith),
        λ k. absurd (
            ground (
              arith,
              sym made
                  ∙ (ap (digest_bytes h.codec "evidence-manifest/v1") (some_injective k)
                      ∙ sound.committed),
            )),
      )
      go (ok actual) made = (
        λ k. ap some (
            apart bytes refl (
              made ∙ (ap ok (sym (equal o.digest actual (ok_injective k))) ∙ sym sound.committed))),
        λ k.
            ap (λ d. ok (o.digest == d))
              (ok_injective (
                sym made
                ∙ (ap (digest_bytes h.codec "evidence-manifest/v1") (some_injective k)
                    ∙ sound.committed)))
            ∙ itself o.digest,
      )

  check_entry_iff :
      (o : Object)
      → IsSound h values o
      → NoCollision h files o
      → (check_entry h files (entry_of o) ≡ ok true) ↔ IsIntact files o
  unfolding check_entry get_field string_eq
  check_entry_iff o sound apart =
      let same = ap (check_path h files (entry_fields o)) sound.inside in
      let digest_iff = check_digest_iff o (lookup o.path files) sound apart in
      (
        λ k. digest_iff.0 (sym (path_digest o) ∙ (sym same ∙ k)),
        λ k. same ∙ (path_digest o ∙ digest_iff.1 k),
      )
    where
      path_digest :
          (o : Object)
          → check_path h files (entry_fields o) (ok o.path)
            ≡ check_digest h (entry_fields o) (lookup o.path files)
      path_digest o = unfold check_path in refl

  check_entries_iff :
      (os : List Object)
      → All (IsSound h values) os
      → All (NoCollision h files) os
      → (check_entries h files (map entry_of os) ≡ ok true) ↔ All (IsIntact files) os
  unfolding check_entries
  check_entries_iff [] sound apart = (λ k. tt, λ k. refl)
  check_entries_iff (o ∷ os) sound apart =
      let now = check_entry_iff o sound.0 apart.0 in
      let later = check_entries_iff os sound.1 apart.1 in
      (
        λ k. let (first, rest) = and_rest-true _ _ k in (now.0 first, later.0 rest),
        λ k. both (now.1 k.0) (later.1 k.1),
      )
    where
      both : {r q : Result Crash Bool} → r ≡ ok true → q ≡ ok true → and_rest r q ≡ ok true
      both e f = rw (e, f) refl

to_list-of_list : (js : List Json) → to_list (of_list js) ≡ js
unfolding to_list of_list
to_list-of_list [] = refl
to_list-of_list (j ∷ js) = ap (λ l. j ∷ l) (to_list-of_list js)

check_manifest_digest-own :
    (h : Disk) (m : Json) (d : String)
    → digest_obj h.codec "evidence-manifest/v1" m ≡ ok d
    → check_manifest_digest h (str d) m ≡ ok true
unfolding check_manifest_digest
check_manifest_digest-own h m d made =
    ap (λ (r : Result CanonError String). caught r >>= λ actual. ok (equals_text (str d) actual))
      made
    ∙ itself d

canon-dumps : (c : Codec) (j : Json) (bytes : String) → canon c j ≡ ok bytes → bytes ≡ c.dumps j
unfolding canon
canon-dumps c j bytes h = let (_, made, _) = >>=-ok (check j) h in sym (ok_injective made)

found_own : (k v : String) (files : Files) → lookup k (insert k v files) ≡ some v
found_own k v files = lookup-insert k k v files ∙ ground arith

-- The manifest is written beside the objects and over none of them.
kept-IsIntact :
    (h : Disk) (values : List String) (b : Bundle) (s : IsSealed h values b) (os : List Object)
    → All (IsSound h values) os
    → All (IsIntact s.written) os
    → All (IsIntact b.files) os
kept-IsIntact h values b s [] sound holds = tt
kept-IsIntact h values b s (o ∷ os) sound holds = (
  ap (lookup o.path) s.files ∙ (lookup-insert o.path manifest_path s.bytes s.written ∙ elsewhere),
  kept-IsIntact h values b s os sound.1 holds.1,
)
  where
    elsewhere :
        (if o.path == manifest_path then some s.bytes else lookup o.path s.written) ≡ some o.payload
    elsewhere = elim (Bool-cases (o.path == manifest_path)) [
      | inl e ↦
          absurd (
            path_of-ne o.assertion_id o.digest (sym (equal o.path manifest_path e) ∙ sound.0.named))
      | inr e ↦ ground (arith, e, holds.0)
    ]

intact-NoCollision :
    (h : Disk) (files : Files) (os : List Object)
    → All (IsIntact files) os
    → All (NoCollision h files) os
intact-NoCollision h files [] intact = tt
intact-NoCollision h files (o ∷ os) intact = (
  λ bytes there same. some_injective (sym there ∙ intact.0),
  intact-NoCollision h files os intact.1,
)
  where
    some_injective : {a b : String} → ◌≡◌ {A = Option String} (some a) (some b) → a ≡ b
    some_injective e = cc

-- On the manifest that was sealed, only the objects' files are left to check.
verify_manifest-own :
    (h : Disk) (files : Files) (os : List Object) (d : String)
    → digest_obj h.codec "evidence-manifest/v1" (manifest_of os) ≡ ok d
    → verify_manifest h files (str d) (ok (manifest_of os))
      ≡ and_rest (check_entries h files (map entry_of os)) (ok true)
unfolding verify_manifest get_field string_eq
verify_manifest-own h files os d made =
    ap
      (λ js. and_rest (check_entries h files js) (check_manifest_digest h (str d) (manifest_of os)))
      (to_list-of_list (map entry_of os))
    ∙ ap (and_rest (check_entries h files (map entry_of os)))
        (check_manifest_digest-own h (manifest_of os) d made)

verify-manifest :
    (h : Disk) (files : Files) (expected : Json) (bytes : String) (m : Json)
    → lookup manifest_path files ≡ some bytes
    → h.loads bytes ≡ ok m
    → verify h files expected ≡ verify_manifest h files expected (ok m)
unfolding verify
verify-manifest h files expected bytes m there read =
    ap
      (λ (o : Option String). elim o as (λ x. Result Crash Bool) [
        | none ↦ ok false
        | some text ↦ verify_manifest h files expected (h.loads text)
      ])
      there
    ∙ ap (verify_manifest h files expected) read

-- A bundle as `seal` left it, whose manifest is read back as it was written, is accepted under the
-- digest that `seal` returned exactly when the file of every object holds the bytes that were sealed,
-- provided that no other bytes there have the same digest: whatever else changes, a file of evidence
-- that is altered or missing is seen.
pub verify-IsIntact_iff :
    (h : Disk) (redact : List String) (ret : Dict Json) (fs : List Observation)
    (before after : Files) (b : Bundle)
    → seal h redact ret fs true before ≡ ok b
    → h.loads (h.codec.dumps (manifest_of b.objects)) ≡ ok (manifest_of b.objects)
    → lookup manifest_path after ≡ lookup manifest_path b.files
    → All (NoCollision h after) b.objects
    → (verify h after (str b.digest) ≡ ok true) ↔ All (IsIntact after) b.objects
verify-IsIntact_iff h redact ret fs before after b sealed read same apart =
    let s = seal-IsSealed h redact ret fs true before b sealed in
    let dumped = canon-dumps h.codec (manifest_of b.objects) s.bytes s.listed in
    let there =
      same ∙ (ap (lookup manifest_path) s.files ∙ found_own manifest_path s.bytes s.written) in
    let whole =
      verify-manifest h after (str b.digest) s.bytes (manifest_of b.objects) there
        (ap h.loads dumped ∙ read)
      ∙ verify_manifest-own h after b.objects b.digest s.committed in
    let entries =
      check_entries_iff h (keep is_nonempty_text redact) after b.objects s.sound apart in
    (
      λ k. entries.0 (and_rest-true _ _ (sym whole ∙ k)).0,
      λ k. whole ∙ (ap (λ r. and_rest r (ok true)) (entries.1 k)),
    )

-- What `seal` writes is accepted under the digest that it returns, where the manifest is read back as
-- it was written and two objects that share a file name share their bytes (the name has 16 digits of
-- the digest).
pub seal-verify :
    (h : Disk) (redact : List String) (ret : Dict Json) (fs : List Observation) (before : Files)
    (b : Bundle)
    → seal h redact ret fs true before ≡ ok b
    → h.loads (h.codec.dumps (manifest_of b.objects)) ≡ ok (manifest_of b.objects)
    → All (NamesApart b.objects) b.objects
    → verify h b.files (str b.digest) ≡ ok true
seal-verify h redact ret fs before b sealed read apart =
    let s = seal-IsSealed h redact ret fs true before b sealed in
    let intact =
      kept-IsIntact h (keep is_nonempty_text redact) b s b.objects s.sound (s.holds apart) in
    (verify-IsIntact_iff h redact ret fs before b.files b sealed read refl
        (intact-NoCollision h b.files b.objects intact)).1
      intact
