-- ===== src/Retention/Kept.antt =====
-- hub/coherence/retention.py: a read after a `retain`.
use dev_gate_agentic_framewo.Common.{
  ℕ, ◌≡◌, ◌↔◌, ◌∙◌, refl, sym, ap, String, true, Option, none, some, string_eq, arith,
}
use mathlib.Core.Path.{subst}
use mathlib.Core.Option.{some-injective}
use dev_gate_agentic_framewo.Common.Json.{ℤ}
use dev_gate_agentic_framewo.Common.Dict.{Dict, lookup, insert, lookup-insert}
use dev_gate_agentic_framewo.Common.Result.{ok, ok_injective, >>=-ok}
use dev_gate_agentic_framewo.Retention.{
  Host, Store, Meta, is_ref, content_ref, keep_bundle, write_bundle, check_time, retain, read,
}
use dev_gate_agentic_framewo.Retention.Access.{Unlocks, Lasts, read_iff}

abbrev meta_of : Host → String → String → String → ℕ → Meta
meta_of h subject_digest payload retained_at days = record {
  subject_digest = subject_digest;
  content_digest = content_ref h payload;
  retained_at = retained_at;
  retention_days = days;
}

lookup-insert_same :
    {V : Type 0} (k : String) (v : V) (d : Dict V) → lookup k (insert k v d) ≡ some v
lookup-insert_same k v d = lookup-insert k k v d ∙ ground arith

keep_bundle-lookup :
    (ref payload : String) (o : Option String) (bundles after : Dict String)
    → lookup ref bundles ≡ o
    → keep_bundle ref payload o bundles ≡ ok after
    → lookup ref after ≡ some payload
unfolding keep_bundle
keep_bundle-lookup ref payload none bundles after there k =
    ap (lookup ref) (sym (ok_injective k)) ∙ lookup-insert_same ref payload bundles
keep_bundle-lookup ref payload (some old) bundles after there k = ground (arith, there, k)

-- The bundle and its record are in the store, under the ref.
abbrev Holds : Host → String → String → String → ℕ → String × Store → Type 0
Holds h subject_digest payload retained_at days (ref, s) =
    (ref ≡ content_ref h payload)
    × (lookup ref s.bundles ≡ some payload)
    × (lookup ref s.records ≡ some (meta_of h subject_digest payload retained_at days))

retain-Holds :
    (h : Host) (subject_digest payload retained_at : String) (days : ℕ) (s : Store)
    (out : String × Store)
    → retain h subject_digest payload retained_at (ℤ.pos days) s ≡ ok out
    → Holds h subject_digest payload retained_at days out
unfolding retain write_bundle
retain-Holds h subject_digest payload retained_at days s out k =
    let ref = content_ref h payload in
    let (_, k1, _) = >>=-ok (check_time (h.parse retained_at)) k in
    let (bundles, k2, kept) =
      >>=-ok (keep_bundle ref payload (lookup ref s.bundles) s.bundles) k1 in
    subst (Holds h subject_digest payload retained_at days) (ok_injective k2) (
      refl,
      keep_bundle-lookup ref payload (lookup ref s.bundles) s.bundles bundles refl kept,
      lookup-insert_same ref (meta_of h subject_digest payload retained_at days) s.records,
    )

-- What is retained is read back: where the hash gives a ref of the right form, a read of the ref
-- after a `retain` returns bytes exactly when the caller presents the ref's own token, of ASCII
-- characters, and the time is within the days of this `retain`, whose end a date can hold; and they
-- are the bytes that were retained. This holds for bytes that were retained before too, whose record
-- is replaced.
pub retain-read :
    (h : Host) (subject_digest payload retained_at : String) (days : ℕ) (s : Store) (ref : String)
    (s' : Store) (as_of : String) (authorization : Option String) (found : String)
    → retain h subject_digest payload retained_at (ℤ.pos days) s ≡ ok (ref, s')
    → is_ref ref ≡ true
    → (read h s' ref as_of authorization ≡ ok found)
      ↔ ((found ≡ payload) × Unlocks h ref authorization × Lasts h retained_at days as_of)
retain-read h subject_digest payload retained_at days s ref s' as_of a found k formed =
    let (named, there, recorded) =
      retain-Holds h subject_digest payload retained_at days s (ref, s') k in
    let reads = read_iff h s' ref as_of a found in
    (
      λ r.
          let (_, here, _, unlocks, (m, at, lasts)) = reads.0 r in
          (
            some-injective found payload (sym here ∙ there),
            unlocks,
            subst (λ (x : Meta). Lasts h x.retained_at x.retention_days as_of)
                (some-injective m (meta_of h subject_digest payload retained_at days)
                  (sym at ∙ recorded))
                lasts,
          ),
      λ (same, unlocks, lasts). reads.1 (
        formed,
        there ∙ ap some (sym same),
        ap (content_ref h) same ∙ sym named,
        unlocks,
        (meta_of h subject_digest payload retained_at days, recorded, lasts),
      ),
    )
