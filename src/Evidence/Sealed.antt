-- ===== src/Evidence/Sealed.antt =====
-- hub/coherence/evidence.py: what `seal` leaves behind.
use dev_gate_agentic_framewo.Common.{
  ◌≡◌, ◌∙◌, refl, sym, ap, String, Bool, true, false, not, some, List, [], ◌∷◌, any, keep, ◌==◌,
  string_eq, if◌then◌else◌, All, arith, Bool-cases, inl, inr,
}
use mathlib.Core.Path.{subst}
use dev_gate_agentic_framewo.Common.Json.{Json, str}
use dev_gate_agentic_framewo.Common.Dict.{Dict, lookup, insert, lookup-insert}
use dev_gate_agentic_framewo.Common.Result.{Result, ok, err, ok_injective, >>=-ok}
use dev_gate_agentic_framewo.Canon.{canon, digest_bytes, digest_obj, CanonError}
use dev_gate_agentic_framewo.Evidence.{
  is_emitted, Observation, EvidenceError, Disk, Files, contained, is_assertion_id, redact_values,
  occurs, check_retention, Object, evidence_of, lift, path_of, refuse_if, seal_one, seal_all,
  manifest_of, manifest_path, Bundle, seal, is_nonempty_text, unredacted_secret, cannot_seal,
  cannot_create,
}

pub lift-ok : {A : Type 0} (r : Result CanonError A) (a : A) → lift r ≡ ok a → r ≡ ok a
lift-ok (ok b) a h = ap ok (ok_injective h)
lift-ok (err e) a h = absurd (ground arith)

refuse_if-ok : (b : Bool) (e : EvidenceError) (u : Unit {0}) → refuse_if b e ≡ ok u → b ≡ false
refuse_if-ok true e u h = absurd (ground arith)
refuse_if-ok false e u h = refl

contained-ok : (h : Disk) (p rel : String) → contained h (str p) ≡ ok rel → rel ≡ p
unfolding contained
contained-ok h p rel r = ground arith

-- What holds of an object that is sealed: its path stays inside the bundle, its digest is its
-- payload's, and no granted secret occurs in the payload.
pub record IsSound (h : Disk) (values : List String) (o : Object) : Type 0 where
  pub inside : contained h (str o.path) ≡ ok o.path
  pub committed : digest_bytes h.codec "evidence-manifest/v1" o.payload ≡ ok o.digest
  pub named : o.path ≡ path_of o.assertion_id o.digest
  pub clean : any (λ r. occurs r o.payload) values ≡ false

seal_one-IsSound :
    (h : Disk) (values : List String) (ret : Dict Json) (f : Observation) (o : Object)
    → seal_one h values ret f ≡ ok o
    → IsSound h values o
unfolding seal_one
seal_one-IsSound h values ret f o r =
    let (_, r1, _) = >>=-ok (refuse_if (not (is_assertion_id f.assertion_id)) _) r in
    let (payload, r2, _) =
      >>=-ok (lift (canon h.codec (redact_values h values (evidence_of f)))) r1 in
    let (u, r3, scanned) =
      >>=-ok (refuse_if (any (λ x. occurs x payload) values) unredacted_secret) r2 in
    let (digest, r4, hashed) =
      >>=-ok (lift (digest_bytes h.codec "evidence-manifest/v1" payload)) r3 in
    let (rel, r5, there) = >>=-ok (contained h (str (path_of f.assertion_id digest))) r4 in
    let (_, r6, _) = >>=-ok (refuse_if (not (is_emitted h rel)) (cannot_seal rel)) r5 in
    let same = contained-ok h (path_of f.assertion_id digest) rel there in
    subst (IsSound h values) (ok_injective r6) (record {
      inside = ap (λ p. contained h (str p)) same ∙ there;
      committed = lift-ok (digest_bytes h.codec "evidence-manifest/v1" payload) digest hashed;
      named = same;
      clean = refuse_if-ok _ unredacted_secret u scanned;
    })

pub seal_all-IsSound :
    (h : Disk) (values : List String) (ret : Dict Json) (fs : List Observation) (files : Files)
    (os : List Object) (files' : Files)
    → seal_all h values ret fs files ≡ ok (os, files')
    → All (IsSound h values) os
unfolding seal_all
seal_all-IsSound h values ret [] files os files' r =
    subst (λ (x : List Object × Files). All (IsSound h values) x.0) (ok_injective r) tt
seal_all-IsSound h values ret (f ∷ fs) files os files' r =
    let (o, r1, one) = >>=-ok (seal_one h values ret f) r in
    let (rest, r2, later) = >>=-ok (seal_all h values ret fs (insert o.path o.payload files)) r1 in
    subst (λ (x : List Object × Files). All (IsSound h values) x.0) (ok_injective r2)
      (
        seal_one-IsSound h values ret f o one,
        seal_all-IsSound h values ret fs (insert o.path o.payload files) rest.0 rest.1 later,
      )

-- Objects of the same name have the same bytes.
abbrev pub NamesApart : List Object → Object → Type 0
NamesApart os o = All (λ (p : Object). o.path ≡ p.path → o.payload ≡ p.payload) os

-- A file that no later object is written to is left alone; otherwise it holds the object's bytes.
seal_all-lookup :
    (h : Disk) (values : List String) (ret : Dict Json) (fs : List Observation) (files : Files)
    (os : List Object) (files' : Files) (k v : String)
    → seal_all h values ret fs files ≡ ok (os, files')
    → All (λ (p : Object). k ≡ p.path → v ≡ p.payload) os
    → lookup k files ≡ some v
    → lookup k files' ≡ some v
unfolding seal_all
seal_all-lookup h values ret [] files os files' k v r apart there =
    subst (λ (x : List Object × Files). lookup k x.1 ≡ some v) (ok_injective r) there
seal_all-lookup h values ret (f ∷ fs) files os files' k v r apart there =
    let (o, r1, one) = >>=-ok (seal_one h values ret f) r in
    let (rest, r2, later) = >>=-ok (seal_all h values ret fs (insert o.path o.payload files)) r1 in
    let apart' =
      subst (λ (x : List Object × Files). All (λ (p : Object). k ≡ p.path → v ≡ p.payload) x.0)
        (sym (ok_injective r2)) apart in
    subst (λ (x : List Object × Files). lookup k x.1 ≡ some v) (ok_injective r2)
      (seal_all-lookup h values ret fs (insert o.path o.payload files) rest.0 rest.1 k v later
        apart'.1 (lookup-insert k o.path o.payload files ∙ choose o apart'.0))
  where
    choose :
        (o : Object)
        → (k ≡ o.path → v ≡ o.payload)
        → (if k == o.path then some o.payload else lookup k files) ≡ some v
    choose o same = elim (Bool-cases (k == o.path)) [
      | inl e ↦ ground (arith, e, same (ground arith))
      | inr e ↦ ground (arith, e, there)
    ]

weaken : (o : Object) (os ps : List Object) → All (NamesApart (o ∷ os)) ps → All (NamesApart os) ps
weaken o os [] h = tt
weaken o os (p ∷ ps) h = (h.0.1, weaken o os ps h.1)

seal_all-holds :
    (h : Disk) (values : List String) (ret : Dict Json) (fs : List Observation) (files : Files)
    (os : List Object) (files' : Files)
    → seal_all h values ret fs files ≡ ok (os, files')
    → All (NamesApart os) os
    → All (λ (o : Object). lookup o.path files' ≡ some o.payload) os
unfolding seal_all
seal_all-holds h values ret [] files os files' r apart =
    subst
      (λ (x : List Object × Files). All (λ (o : Object). lookup o.path x.1 ≡ some o.payload) x.0)
      (ok_injective r) tt
seal_all-holds h values ret (f ∷ fs) files os files' r apart =
    let (o, r1, one) = >>=-ok (seal_one h values ret f) r in
    let (rest, r2, later) = >>=-ok (seal_all h values ret fs (insert o.path o.payload files)) r1 in
    let split =
      subst (λ (x : List Object × Files). All (NamesApart x.0) x.0) (sym (ok_injective r2)) apart in
    subst
      (λ (x : List Object × Files). All (λ (p : Object). lookup p.path x.1 ≡ some p.payload) x.0)
      (ok_injective r2)
      (
        seal_all-lookup h values ret fs (insert o.path o.payload files) rest.0 rest.1 o.path
            o.payload later split.0.1
            (lookup-insert o.path o.path o.payload files ∙ itself o.path o.payload),
        seal_all-holds h values ret fs (insert o.path o.payload files) rest.0 rest.1 later
            (weaken o rest.0 rest.0 split.1),
      )
  where
    itself : (k v : String) → (if k == k then some v else lookup k files) ≡ some v
    itself k v = ground arith

-- The parts of a bundle that is sealed.
pub record IsSealed (h : Disk) (values : List String) (b : Bundle) : Type 0 where
  pub written : Files
  pub bytes : String
  pub sound : All (IsSound h values) b.objects
  pub listed : canon h.codec (manifest_of b.objects) ≡ ok bytes
  pub committed : digest_obj h.codec "evidence-manifest/v1" (manifest_of b.objects) ≡ ok b.digest
  pub files : b.files ≡ insert manifest_path bytes written
  pub holds :
      All (NamesApart b.objects) b.objects
      → All (λ (o : Object). lookup o.path written ≡ some o.payload) b.objects

pub seal-IsSealed :
    (h : Disk) (redact : List String) (ret : Dict Json) (fs : List Observation) (d : Bool)
    (files : Files) (b : Bundle)
    → seal h redact ret fs d files ≡ ok b
    → IsSealed h (keep is_nonempty_text redact) b
unfolding seal
seal-IsSealed h redact ret fs d files b r =
    let values = keep is_nonempty_text redact in
    let (_, r1, _) = >>=-ok (refuse_if (not d) cannot_create) r in
    let (_, r2, _) = >>=-ok (check_retention ret) r1 in
    let (sealed, r3, all_sealed) = >>=-ok (seal_all h values ret fs files) r2 in
    let (digest, r4, hashed) =
      >>=-ok (lift (digest_obj h.codec "evidence-manifest/v1" (manifest_of sealed.0))) r3 in
    let (bytes, r5, dumped) = >>=-ok (lift (canon h.codec (manifest_of sealed.0))) r4 in
    let (_, r6, _) =
      >>=-ok (refuse_if (not (is_emitted h manifest_path)) (cannot_seal manifest_path)) r5 in
    subst (IsSealed h values) (ok_injective r6) (record {
      written = sealed.1;
      bytes = bytes;
      sound = seal_all-IsSound h values ret fs files sealed.0 sealed.1 all_sealed;
      listed = lift-ok (canon h.codec (manifest_of sealed.0)) bytes dumped;
      committed =
          lift-ok (digest_obj h.codec "evidence-manifest/v1" (manifest_of sealed.0)) digest hashed;
      files = refl;
      holds = seal_all-holds h values ret fs files sealed.0 sealed.1 all_sealed;
    })
