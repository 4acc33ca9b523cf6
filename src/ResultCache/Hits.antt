-- ===== src/ResultCache/Hits.antt =====
-- hub/coherence/cache.py: what a hit says of the record.
use dev_gate_agentic_framewo.Common.{
  ◌≡◌, refl, String, true, Option, none, some, List, [], ◌∷◌, string_eq, option_eq, arith,
  Bool-cases, inl, inr,
}
use dev_gate_agentic_framewo.Common.Text.{sorted}
use dev_gate_agentic_framewo.Common.Result.{Result}
use dev_gate_agentic_framewo.ResultCache.{
  Material, texts, lists, or_empty, text_drift, same_texts, list_drift, drift,
}

-- Every component is the same one; lists up to their order.
abbrev pub SameMaterial : Material → Material → Type 0
SameMaterial a b =
    (a.subject_digest ≡ b.subject_digest)
    × (a.package_digest ≡ b.package_digest)
    × (a.policy_digest ≡ b.policy_digest)
    × (a.context_digest ≡ b.context_digest)
    × (a.evaluator_image_digest ≡ b.evaluator_image_digest)
    × (sorted (or_empty a.plugin_digests) ≡ sorted (or_empty b.plugin_digests))
    × (sorted (or_empty a.captured_fact_digests) ≡ sorted (or_empty b.captured_fact_digests))

same_texts-eq : (xs ys : List String) → same_texts xs ys ≡ true → xs ≡ ys
unfolding same_texts
same_texts-eq [] [] h = refl
same_texts-eq (x ∷ xs) [] h = absurd (ground arith)
same_texts-eq [] (y ∷ ys) h = absurd (ground arith)
same_texts-eq (x ∷ xs) (y ∷ ys) h = ground (arith, same_texts-eq xs ys)

text_drift-none :
    (c d : String) (a b : Option String) (as' bs : List (String × Option String))
    → text_drift ((c, a) ∷ as') ((d, b) ∷ bs) ≡ none
    → (a ≡ b) × (text_drift as' bs ≡ none)
unfolding text_drift
text_drift-none c d a b as' bs h = elim (option_eq.dec a b) [
  | yes p ↦ (p, ground (arith, h, p))
  | no n ↦ absurd (ground (arith, h, n))
]

list_drift-none :
    (c d : String) (a b : Option (List String)) (as' bs : List (String × Option (List String)))
    → list_drift ((c, a) ∷ as') ((d, b) ∷ bs) ≡ none
    → (sorted (or_empty a) ≡ sorted (or_empty b)) × (list_drift as' bs ≡ none)
unfolding list_drift
list_drift-none c d a b as' bs h =
    elim (Bool-cases (same_texts (sorted (or_empty a)) (sorted (or_empty b)))) [
      | inl e ↦ (same_texts-eq _ _ e, rw e at h)
      | inr e ↦ absurd (ground arith)
    ]

drift-none :
    (a b : Material)
    → drift a b ≡ none
    → (text_drift (texts a) (texts b) ≡ none) × (list_drift (lists a) (lists b) ≡ none)
unfolding drift
drift-none a b = go (text_drift (texts a) (texts b)) (list_drift (lists a) (lists b))
  where
    go :
        (o p : Option String)
        → (elim o as (λ x. Option String) [ some comp ↦ some comp | none ↦ p ]) ≡ none
        → (o ≡ none) × (p ≡ none)
    go none p h = (refl, h)
    go (some comp) p h = absurd (ground arith)

pub drift-SameMaterial : (a b : Material) → drift a b ≡ none → SameMaterial a b
drift-SameMaterial a b h =
    let (t0, l0) = drift-none a b h in
    let (e1, t1) = text_drift-none _ _ a.subject_digest b.subject_digest _ _ t0 in
    let (e2, t2) = text_drift-none _ _ a.package_digest b.package_digest _ _ t1 in
    let (e3, t3) = text_drift-none _ _ a.policy_digest b.policy_digest _ _ t2 in
    let (e4, t4) = text_drift-none _ _ a.context_digest b.context_digest _ _ t3 in
    let (e5, _) = text_drift-none _ _ a.evaluator_image_digest b.evaluator_image_digest _ _ t4 in
    let (e6, l1) = list_drift-none _ _ a.plugin_digests b.plugin_digests _ _ l0 in
    let (e7, _) = list_drift-none _ _ a.captured_fact_digests b.captured_fact_digests _ _ l1 in
    (e1, e2, e3, e4, e5, e6, e7)
