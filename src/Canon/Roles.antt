-- ===== src/Canon/Roles.antt =====
-- hub/coherence/canon.py: digests of different roles are different digests.
use dev_gate_agentic_framewo.Common.{
  ◌≡◌, ◌∙◌, refl, sym, ap, String, ◌<>◌, Bool, true, not, ◌&&◌, List, [], ◌∷◌, all, contains,
  string_eq, nat_eq, ◌==◌, arith, Bool-cases, inl, inr,
}
use mathlib.Core.Path.{subst}
use Prim.Native.Char.{Char, code}
use text.Mathlib.TextLemmas.{
  nil-append, cons-append, append_cancel_left, head-eq_of_cons-eq, tail-eq_of_cons-eq,
}
use dev_gate_agentic_framewo.Common.Result.{ok, ok_injective}
use dev_gate_agentic_framewo.Canon.{role_tags, Codec, nul, digest}

-- The text has no byte 0.
abbrev nul_free : String → Bool
nul_free String.[] = true
nul_free (String.◌∷◌ c s) = not (code c == 0) && nul_free s

abbrev nul_char : Char
nul_char = "\0"

nul_first : (p : String) → ("" <> (nul <> p)) ≡ String.◌∷◌ nul_char p
nul_first p =
    nil-append (nul <> p) ∙ (cons-append nul_char "" p ∙ ap (String.◌∷◌ nul_char) (nil-append p))

split_nul :
    (s t p q : String)
    → nul_free s ≡ true
    → nul_free t ≡ true
    → (s <> (nul <> p)) ≡ (t <> (nul <> q))
    → (s ≡ t) × (p ≡ q)
split_nul String.[] String.[] p q hs ht h =
    (refl, append_cancel_left nul p q (sym (nil-append _) ∙ (h ∙ nil-append _)))
split_nul String.[] (String.◌∷◌ d t) p q hs ht h = absurd (
    ground
      (arith, ap code (head-eq_of_cons-eq (sym (nul_first p) ∙ (h ∙ cons-append d t (nul <> q))))))
split_nul (String.◌∷◌ c s) String.[] p q hs ht h = absurd (
    ground (
      arith,
      ap code (head-eq_of_cons-eq (sym (nul_first q) ∙ (sym h ∙ cons-append c s (nul <> p)))),
    ))
split_nul (String.◌∷◌ c s) (String.◌∷◌ d t) p q hs ht h =
    let split = sym (cons-append c s (nul <> p)) ∙ (h ∙ cons-append d t (nul <> q)) in
    let (same, rest) = split_nul s t p q (ground arith) (ground arith) (tail-eq_of_cons-eq split) in
    (ap (λ k. String.◌∷◌ k s) (head-eq_of_cons-eq split) ∙ ap (String.◌∷◌ d) same, rest)

contains-all :
    (xs : List String) (t : String)
    → all nul_free xs ≡ true
    → contains xs t ≡ true
    → nul_free t ≡ true
contains-all [] t h c = absurd (ground arith)
contains-all (x ∷ xs) t h c = elim (Bool-cases (t == x)) [
  | inl e ↦ subst (λ y. nul_free y ≡ true) (sym (eq t x e)) (ground arith)
  | inr e ↦ contains-all xs t (ground arith) (ground arith)
]
  where
    eq : (a b : String) → (a == b) ≡ true → a ≡ b
    eq a b e = ground arith

role-nul_free : (t : String) → contains role_tags t ≡ true → nul_free t ≡ true
unfolding nat_eq
role-nul_free t h = contains-all role_tags t refl h

digest-ok :
    (c : Codec) (t p d : String)
    → digest c t p ≡ ok d
    → (contains role_tags t ≡ true) × (("sha256:" <> c.sha256 (t <> (nul <> p))) ≡ d)
unfolding digest
digest-ok c t p d h = elim (Bool-cases (contains role_tags t)) [
  | inl e ↦ (e, ok_injective (rw e at h))
  | inr e ↦ absurd (ground arith)
]

-- A digest commits to its role as well as to its bytes: where the two hashed texts do not collide,
-- equal digests are digests of the same bytes under the same role tag.
pub digest-injective :
    (c : Codec) (t t' p p' d : String)
    → (c.sha256 (t <> (nul <> p)) ≡ c.sha256 (t' <> (nul <> p'))
        → (t <> (nul <> p)) ≡ (t' <> (nul <> p')))
    → digest c t p ≡ ok d
    → digest c t' p' ≡ ok d
    → (t ≡ t') × (p ≡ p')
digest-injective c t t' p p' d apart h k =
    let (role, made) = digest-ok c t p d h in
    let (role', made') = digest-ok c t' p' d k in
    split_nul t t' p p' (role-nul_free t role) (role-nul_free t' role')
      (apart (append_cancel_left "sha256:" _ _ (made ∙ sym made')))
