-- ===== src/Attest/Accepted.antt =====
-- hub/coherence/attest.py: what each check of an attestation makes sure of.
use dev_gate_agentic_framewo.Common.{
  ◌≡◌, refl, sym, ap, String, Bool, true, false, not, ◌&&◌, Option, none, some, find, ◌==◌,
  string_eq, arith, Bool-cases, inl, inr,
}
use mathlib.Core.Path.{subst}
use dev_gate_agentic_framewo.Common.Json.{Json, str, obj, Fields, get_field, or_null}
use dev_gate_agentic_framewo.Common.Text.{text_le}
use dev_gate_agentic_framewo.Common.Result.{Result, ok, err, ok_injective, >>=-ok}
use dev_gate_agentic_framewo.Evidence.{ReadError, not_json, not_utf8}
use dev_gate_agentic_framewo.Canon.{CanonError, canon, digest_bytes}
use dev_gate_agentic_framewo.Evidence.Check.{equals_text}
use dev_gate_agentic_framewo.Attest.{Host, signature}
use dev_gate_agentic_framewo.Attest.Checks.{
  Signer, SignerSet, Refusal, refuse_if, as_fields, or_empty, member, text_lt, check_signer,
  without, or_raise, caught, is_ascii, compare_digest, check_signature, check_statement, as_object,
  or_reason, read_document,
}

pub refuse_if-ok : (b : Bool) (why : String) (u : Unit {0}) → refuse_if b why ≡ ok u → b ≡ false
refuse_if-ok true why u h = absurd (ground arith)
refuse_if-ok false why u h = refl

pub not-false : (b : Bool) → not b ≡ false → b ≡ true
not-false b h = ground arith

pub equals_text-some :
    (o : Option Json) (t : String) → equals_text (or_null o) t ≡ true → o ≡ some (str t)
equals_text-some none t h = absurd (ground arith)
equals_text-some (some (str s)) t h = ap (λ x. some (str x)) (equal s t h)
  where
    equal : (a b : String) → (a == b) ≡ true → a ≡ b
    equal a b e = ground arith
equals_text-some (some _) t h = absurd (ground arith)

pub or_raise-ok :
    {A : Type 0} (name : String) (o : Option A) (a : A) → or_raise name o ≡ ok a → o ≡ some a
or_raise-ok name none a h = absurd (ground arith)
or_raise-ok name (some b) a h = ap some (ok_injective h)

pub read_document-ok : (r : Result ReadError Json) (j : Json) → read_document r ≡ ok j → r ≡ ok j
read_document-ok (ok i) j h = ap (λ k. ok k) (ok_injective h)
read_document-ok (err not_json) j h = absurd (ground arith)
read_document-ok (err not_utf8) j h = absurd (ground arith)

pub or_reason-ok :
    {A : Type 0} (why : String) (o : Option A) (a : A) → or_reason why o ≡ ok a → o ≡ some a
or_reason-ok why none a h = absurd (ground arith)
or_reason-ok why (some b) a h = ap some (ok_injective h)

pub as_object-ok : (j : Json) (fields : Fields) → as_object j ≡ ok fields → j ≡ obj fields
as_object-ok (obj f) fields h = ap obj (ok_injective h)
as_object-ok _ fields h = absurd (ground arith)

pub member-ok : (o : Option Signer) (s : Signer) → member o ≡ ok s → o ≡ some s
member-ok none s h = absurd (ground arith)
member-ok (some t) s h = ap some (ok_injective h)

pub caught-ok : (r : Result CanonError String) (s : String) → caught r ≡ ok s → r ≡ ok s
caught-ok (ok t) s h = ap ok (ok_injective h)
caught-ok (err e) s h = absurd (ground arith)

-- The signer that the attestation names is in the set, under its identity, not revoked, and valid at
-- the time of the set.
pub record IsTrusted (set : SignerSet) (attestation : Fields) (entry : Signer) : Type 0 where
  pub signer : Fields
  pub names : as_fields (get_field "signer" attestation) ≡ ok signer
  pub listed :
      find (λ s. equals_text (or_empty (get_field "key_id" signer)) s.key_id) set.signers
      ≡ some entry
  pub identified : get_field "identity" signer ≡ some (str entry.identity)
  pub in_force : entry.revoked ≡ false
  pub begun : text_le entry.valid_from set.as_of ≡ true
  pub unexpired : text_le set.as_of entry.valid_until ≡ true

pub check_signer-IsTrusted :
    (set : SignerSet) (attestation : Fields) (entry : Signer)
    → check_signer set attestation ≡ ok entry
    → IsTrusted set attestation entry
unfolding check_signer
check_signer-IsTrusted set attestation entry h =
    let (signer, h1, named) = >>=-ok (as_fields (get_field "signer" attestation)) h in
    let (e, h2, is_member) = >>=-ok (member _) h1 in
    let (u3, h3, c3) =
      >>=-ok (refuse_if (not (equals_text (or_null (get_field "identity" signer)) e.identity)) _)
        h2 in
    let (u4, h4, c4) = >>=-ok (refuse_if e.revoked _) h3 in
    let (u5, h5, c5) = >>=-ok (refuse_if (text_lt set.as_of e.valid_from) _) h4 in
    let (u6, h6, c6) = >>=-ok (refuse_if (text_lt e.valid_until set.as_of) _) h5 in
    subst (IsTrusted set attestation) (ok_injective h6) (record {
      signer = signer;
      names = named;
      listed = member-ok _ e is_member;
      identified =
          equals_text-some (get_field "identity" signer) e.identity
            (not-false _ (refuse_if-ok _ _ u3 c3));
      in_force = refuse_if-ok _ _ u4 c4;
      begun = not-false _ (refuse_if-ok _ _ u5 c5);
      unexpired = not-false _ (refuse_if-ok _ _ u6 c6);
    })

-- The signature is the HMAC of the rest of the attestation under the signer's key.
abbrev pub IsSignedBy : Host → Fields → Signer → Type 0
IsSignedBy h attestation entry =
    (key : String) × (bytes : String) × (h.from_hex entry.key ≡ some key)
    × (canon h.disk.codec (obj (without "signature" attestation)) ≡ ok bytes)
    × (or_empty (get_field "signature" attestation) ≡ str (signature h key bytes))

compare_digest-ok :
    (expected : String) (j : Json) (u : Unit {0})
    → compare_digest expected j ≡ ok u
    → j ≡ str expected
unfolding compare_digest
compare_digest-ok expected (str s) u h = elim (Bool-cases (is_ascii expected && is_ascii s)) [
  | inl e ↦
      let same = not-false (expected == s) (refuse_if-ok _ _ u (rw e at h)) in
      ap str (sym (equal expected s same))
  | inr e ↦ absurd (not_ok u (rw e at h))
]
  where
    equal : (a b : String) → (a == b) ≡ true → a ≡ b
    equal a b e = ground arith

    not_ok : {r : Refusal} (v : Unit {0}) → ◌≡◌ {A = Result Refusal (Unit {0})} (err r) (ok v) → ⊥
    not_ok v e = ground arith
compare_digest-ok expected _ u h = absurd (ground arith)

pub check_signature-IsSignedBy :
    (h : Host) (attestation : Fields) (entry : Signer) (u : Unit {0})
    → check_signature h attestation entry ≡ ok u
    → IsSignedBy h attestation entry
unfolding check_signature
check_signature-IsSignedBy h attestation entry u r =
    let (key, r1, decoded) = >>=-ok (or_raise "ValueError" (h.from_hex entry.key)) r in
    let (bytes, r2, dumped) =
      >>=-ok (caught (canon h.disk.codec (obj (without "signature" attestation)))) r1 in
    (
      key,
      bytes,
      or_raise-ok "ValueError" (h.from_hex entry.key) key decoded,
      caught-ok (canon h.disk.codec (obj (without "signature" attestation))) bytes dumped,
      compare_digest-ok (signature h key bytes) (or_empty (get_field "signature" attestation)) u r2,
    )

-- The attestation's statement is the digest of the decision.
abbrev pub States : Host → String → Fields → Type 0
States h decision attestation =
    (d : String) × (digest_bytes h.disk.codec "decision/v1" decision ≡ ok d)
    × (get_field "statement_digest" attestation ≡ some (str d))

pub check_statement-States :
    (h : Host) (decision : String) (attestation : Fields) (u : Unit {0})
    → check_statement h decision attestation ≡ ok u
    → States h decision attestation
unfolding check_statement
check_statement-States h decision attestation u r =
    let (d, r1, hashed) = >>=-ok (caught (digest_bytes h.disk.codec "decision/v1" decision)) r in
    (
      d,
      caught-ok (digest_bytes h.disk.codec "decision/v1" decision) d hashed,
      equals_text-some (get_field "statement_digest" attestation) d
          (not-false _ (refuse_if-ok _ _ u r1)),
    )
