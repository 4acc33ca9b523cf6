-- ===== src/Attest/Signed.antt =====
-- hub/coherence/attest.py: an attestation that was signed is accepted for its decision only.
use dev_gate_agentic_framewo.Common.{
  ◌≡◌, ◌∙◌, refl, sym, ap, String, ◌<>◌, Bool, true, false, not, Option, none, some, find, ◌==◌,
  string_eq, arith, Bool-cases, inl, inr,
}
use mathlib.Core.Path.{subst}
use dev_gate_agentic_framewo.Common.Json.{Json, str, obj, Fields, end, field, get_field}
use dev_gate_agentic_framewo.Common.Text.{text_le}
use dev_gate_agentic_framewo.Common.Result.{Result, ok, err, ok_injective, >>=-ok, ok->>=}
use dev_gate_agentic_framewo.Canon.{CanonError, canon, digest_bytes, nul}
use dev_gate_agentic_framewo.Canon.Roles.{digest-injective}
use dev_gate_agentic_framewo.Attest.{
  Host, SignError, refused, signer_key, configured, bind, Bound, lift, no_errors, attestation_with,
  sign, signature,
}
use dev_gate_agentic_framewo.Attest.Checks.{
  Signer, SignerSet, refuse_if, member, check_signer, without, or_raise, caught, is_ascii,
  compare_digest, check_signature, check_statement, verify_attestation,
}
use dev_gate_agentic_framewo.Attest.Accepted.{check_statement-States}

lift-ok : {A : Type 0} (r : Result CanonError A) (a : A) → lift r ≡ ok a → r ≡ ok a
lift-ok (ok b) a h = ap ok (ok_injective h)
lift-ok (err e) a h = absurd (ground arith)

configured-ok : (o : Option String) (k : String) → configured o ≡ ok k → o ≡ some k
configured-ok none k h = absurd (ground arith)
configured-ok (some j) k h = ap some (ok_injective h)

signer_key-some :
    (h : Host) (k : String) → signer_key h ≡ ok (some k) → h.from_hex h.raw_key ≡ some k
unfolding signer_key
signer_key-some h k r = elim (Bool-cases (h.raw_key == "")) [
  | inl e ↦ absurd (no_key (rw e at r))
  | inr e ↦ go (h.from_hex h.raw_key) (rw e at r)
]
  where
    no_key : ◌≡◌ {A = Result SignError (Option String)} (ok none) (ok (some k)) → ⊥
    no_key e = ground arith

    go :
        (o : Option String)
        → (elim o as (λ x. Result SignError (Option String)) [
          | none ↦ err (refused "signer-key-not-configured")
          | some j ↦ ok (some j)
        ])
          ≡ ok (some k)
        → o ≡ some k
    go none e = absurd (ground arith)
    go (some j) e = ok_injective e

-- What `sign` returns: the attestation of the decision's digest, with its HMAC at the end.
pub record IsSigned (h : Host) (decision : String) (time : String) (attestation : Fields)
    : Type 0 where
  pub key : String
  pub bytes : String
  pub statement : String
  pub bound : Bound
  pub is_key : h.from_hex h.raw_key ≡ some key
  pub is_statement : digest_bytes h.disk.codec "decision/v1" decision ≡ ok statement
  pub is_bytes : canon h.disk.codec (obj (attestation_with h statement bound time end)) ≡ ok bytes
  pub is_attestation :
      attestation_with h statement bound time (field "signature" (str (signature h key bytes)) end)
      ≡ attestation

pub sign-IsSigned :
    (h : Host) (decision : String) (identities : Fields) (time : String) (attestation : Fields)
    → sign h decision identities time ≡ ok attestation
    → IsSigned h decision time attestation
unfolding sign
sign-IsSigned h decision identities time attestation r =
    let (configured_key, r1, c1) = >>=-ok (signer_key h) r in
    let (key, r2, c2) = >>=-ok (configured configured_key) r1 in
    let (bound, r3, c3) = >>=-ok (bind identities) r2 in
    let (statement, r4, c4) = >>=-ok (lift (digest_bytes h.disk.codec "decision/v1" decision)) r3 in
    let (bytes, r5, c5) =
      >>=-ok (lift (canon h.disk.codec (obj (attestation_with h statement bound time end)))) r4 in
    let (u, r6, c6) =
      >>=-ok
        (no_errors (
          h.schema_errors (
            obj (
              attestation_with h statement bound time
                (field "signature" (str (signature h key bytes)) end)))))
        r5 in
    record {
      key = key;
      bytes = bytes;
      statement = statement;
      bound = bound;
      is_key = signer_key-some h key (c1 ∙ ap ok (configured-ok configured_key key c2));
      is_statement = lift-ok (digest_bytes h.disk.codec "decision/v1" decision) statement c4;
      is_bytes =
          lift-ok (canon h.disk.codec (obj (attestation_with h statement bound time end))) bytes c5;
      is_attestation = ok_injective r6;
    }

-- The set has the signer that signs here, with its key and identity, in force at the set's time.
pub record IsEnrolled (h : Host) (set : SignerSet) : Type 0 where
  pub entry : Signer
  pub listed : find (λ s. h.key_id == s.key_id) set.signers ≡ some entry
  pub identified : h.identity ≡ entry.identity
  pub keyed : h.from_hex entry.key ≡ h.from_hex h.raw_key
  pub in_force : entry.revoked ≡ false
  pub begun : text_le entry.valid_from set.as_of ≡ true
  pub unexpired : text_le set.as_of entry.valid_until ≡ true

refuse_if-false : (b : Bool) (why : String) → b ≡ false → refuse_if b why ≡ ok tt
refuse_if-false b why e = rw e refl

not-true : (b : Bool) → b ≡ true → not b ≡ false
not-true b e = ground arith

itself : (s : String) → (s == s) ≡ true
itself s = ground arith

module _ (h : Host) (statement : String) (b : Bound) (time : String) (rest : Fields) where
  check_signer-enrolled :
      (set : SignerSet) (e : IsEnrolled h set)
      → check_signer set (attestation_with h statement b time rest) ≡ ok e.entry
  unfolding check_signer get_field string_eq
  check_signer-enrolled set e = ok->>= (member _) _ (ap member e.listed) (
      ok->>= (refuse_if _ _) _ (refuse_if-false _ _ (not-true _ (named e))) (
        ok->>= (refuse_if _ _) _ (refuse_if-false _ _ e.in_force) (
          ok->>= (refuse_if _ _) _ (refuse_if-false _ _ (not-true _ e.begun))
            (ok->>= (refuse_if _ _) _ (refuse_if-false _ _ (not-true _ e.unexpired)) refl))))
    where
      named : (e : IsEnrolled h set) → (h.identity == e.entry.identity) ≡ true
      named e = subst (λ i. (h.identity == i) ≡ true) e.identified (itself h.identity)

  check_statement-own :
      (decision : String)
      → digest_bytes h.disk.codec "decision/v1" decision ≡ ok statement
      → check_statement h decision (attestation_with h statement b time rest) ≡ ok tt
  unfolding check_statement get_field string_eq
  check_statement-own decision made =
      ok->>= (caught _) _ (ap caught made) (refuse_if-false _ _ (not-true _ (itself statement)))

check_signature-own :
    (h : Host) (statement : String) (b : Bound) (time : String) (key bytes : String)
    (entry : Signer)
    → canon h.disk.codec (obj (attestation_with h statement b time end)) ≡ ok bytes
    → h.from_hex entry.key ≡ some key
    → is_ascii (signature h key bytes) ≡ true
    → check_signature h
        (attestation_with h statement b time (field "signature" (str (signature h key bytes)) end))
        entry
      ≡ ok tt
unfolding check_signature without get_field string_eq
check_signature-own h statement b time key bytes entry made decoded ascii =
    ok->>= (or_raise "ValueError" (h.from_hex entry.key)) _ (ap (or_raise "ValueError") decoded)
      (ok->>= (caught _) _ (ap caught made) (compare_own (signature h key bytes) ascii))
  where
    compare_own : (s : String) → is_ascii s ≡ true → compare_digest s (str s) ≡ ok tt
    compare_own s e = unfold compare_digest in rw (e, itself s) refl

-- What is signed is accepted: the attestation that `sign` returns for a decision passes
-- `verify_attestation` for that decision, with every signer set that has the signer under the same
-- key and identity, in force and within its window. The signature is ASCII, as a hexadecimal HMAC is.
pub sign-verify_attestation :
    (h : Host) (decision : String) (identities : Fields) (time : String) (attestation : Fields)
    (set : SignerSet)
    → sign h decision identities time ≡ ok attestation
    → IsEnrolled h set
    → ((key bytes : String) → is_ascii (signature h key bytes) ≡ true)
    → verify_attestation h decision attestation set ≡ ok tt
unfolding verify_attestation
sign-verify_attestation h decision identities time attestation set r e ascii =
    let s = sign-IsSigned h decision identities time attestation r in
    let rest = field "signature" (str (signature h s.key s.bytes)) end in
    subst (λ a. verify_attestation h decision a set ≡ ok tt) s.is_attestation
      (ok->>= (check_signer set _) _ (check_signer-enrolled h s.statement s.bound time rest set e) (
        ok->>= (check_signature h _ e.entry) _
          (check_signature-own h s.statement s.bound time s.key s.bytes e.entry s.is_bytes
            (e.keyed ∙ s.is_key) (ascii s.key s.bytes))
          (check_statement-own h s.statement s.bound time rest decision s.is_statement)))

-- An attestation is of one decision: two decisions that it is accepted for, under whatever signer
-- sets, are the same bytes, where their hashed texts do not collide.
pub verify_attestation-one_decision :
    (h : Host) (one two : String) (attestation : Fields) (set set' : SignerSet)
    → (h.disk.codec.sha256 ("decision/v1" <> (nul <> one))
          ≡ h.disk.codec.sha256 ("decision/v1" <> (nul <> two))
        → ("decision/v1" <> (nul <> one)) ≡ ("decision/v1" <> (nul <> two)))
    → verify_attestation h one attestation set ≡ ok tt
    → verify_attestation h two attestation set' ≡ ok tt
    → one ≡ two
unfolding verify_attestation
verify_attestation-one_decision h one two attestation set set' apart r q =
    let (_, r1, _) = >>=-ok (check_signer set attestation) r in
    let (_, r2, _) = >>=-ok (check_signature h attestation _) r1 in
    let (_, q1, _) = >>=-ok (check_signer set' attestation) q in
    let (_, q2, _) = >>=-ok (check_signature h attestation _) q1 in
    let (d, made, stated) = check_statement-States h one attestation tt r2 in
    let (e, made', stated') = check_statement-States h two attestation tt q2 in
    let same = text_injective (sym stated ∙ stated') in
    (digest-injective h.disk.codec "decision/v1" "decision/v1" one two d apart made
      (made' ∙ ap ok (sym same))).1
  where
    text_injective : {a b : String} → ◌≡◌ {A = Option Json} (some (str a)) (some (str b)) → a ≡ b
    text_injective k = cc
