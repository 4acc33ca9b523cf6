-- ===== src/ResultCache/Same.antt =====
-- hub/coherence/cache.py: materials with the same key.
use dev_gate_agentic_framewo.Common.{
  ◌≡◌, ◌↔◌, ◌∙◌, refl, ap, String, true, Option, none, some, is_some, List, [], ◌∷◌, string_eq,
  option_eq, arith,
}
use mathlib.Core.Path.{subst}
use dev_gate_agentic_framewo.Common.Text.{sorted}
use dev_gate_agentic_framewo.Common.Result.{ok, ok_injective, >>=-ok}
use dev_gate_agentic_framewo.ResultCache.{
  Material, texts, lists, key, normal, sort_list, or_empty, check_texts, check_items, check_lists,
  text_drift, list_drift, drift,
}
use dev_gate_agentic_framewo.ResultCache.Stored.{same_texts_refl, text_drift_refl}
use dev_gate_agentic_framewo.ResultCache.Hits.{SameMaterial}

text_drift-refl_eq : (xs ys : List (String × Option String)) → xs ≡ ys → text_drift xs ys ≡ none
text_drift-refl_eq xs ys e = subst (λ zs. text_drift xs zs ≡ none) e (text_drift_refl xs)

pub key-normal :
    (digest : Material → String) (m : Material) (k : String)
    → key digest m ≡ ok k
    → digest (normal m) ≡ k
unfolding key
key-normal digest m k h =
    let (_, h1, _) = >>=-ok (check_texts (texts m)) h in
    let (_, h2, _) = >>=-ok (check_lists (lists m)) h1 in ok_injective h2

-- A list component of a material with a key is there.
both_listed :
    (c d : String) (a b : Option (List String)) (u : Unit {0})
    → check_lists ((c, a) ∷ (d, b) ∷ []) ≡ ok u
    → (is_some a ≡ true) × (is_some b ≡ true)
unfolding check_lists
both_listed c d none b u h = absurd (ground arith)
both_listed c d (some a) none u h =
    let (_, later, _) = >>=-ok (check_items c a) h in absurd (ground arith)
both_listed c d (some a) (some b) u h = (refl, refl)

listed :
    (digest : Material → String) (m : Material) (k : String)
    → key digest m ≡ ok k
    → (is_some m.plugin_digests ≡ true) × (is_some m.captured_fact_digests ≡ true)
unfolding key
listed digest m k h =
    let (u, h1, _) = >>=-ok (check_texts (texts m)) h in
    let (v, _, there) = >>=-ok (check_lists (lists m)) h1 in
    both_listed _ _ m.plugin_digests m.captured_fact_digests v there

sorted-or_empty :
    (a b : Option (List String))
    → is_some a ≡ true
    → is_some b ≡ true
    → (sort_list a ≡ sort_list b) ↔ (sorted (or_empty a) ≡ sorted (or_empty b))
sorted-or_empty none b h k = absurd (ground arith)
sorted-or_empty (some a) none h k = absurd (ground arith)
sorted-or_empty (some a) (some b) h k = (λ e. list_injective e, λ e. ap some e)
  where
    list_injective : {a b : List String} → ◌≡◌ {A = Option (List String)} (some a) (some b) → a ≡ b
    list_injective e = cc

list_drift-skip :
    (c d : String) (a b : Option (List String)) (xs ys : List (String × Option (List String)))
    → sorted (or_empty a) ≡ sorted (or_empty b)
    → list_drift ((c, a) ∷ xs) ((d, b) ∷ ys) ≡ list_drift xs ys
unfolding list_drift
list_drift-skip c d a b xs ys e = rw (e, same_texts_refl (sorted (or_empty b))) refl

pub SameMaterial-drift : (a b : Material) → SameMaterial a b → drift a b ≡ none
unfolding drift
SameMaterial-drift a b (e1, e2, e3, e4, e5, e6, e7) =
    ap
      (λ (o : Option String). elim o as (λ x. Option String) [
        | some comp ↦ some comp
        | none ↦ list_drift (lists a) (lists b)
      ])
      (text_drift-refl_eq (texts a) (texts b) (rw (e1, e2, e3, e4, e5) refl))
    ∙ (list_drift-skip _ _ a.plugin_digests b.plugin_digests _ _ e6
        ∙ (list_drift-skip _ _ a.captured_fact_digests b.captured_fact_digests _ _ e7 ∙ nothing))
  where
    nothing : list_drift [] [] ≡ none
    nothing = unfold list_drift in refl

-- Materials that are both complete are the same one exactly when they have the same normal form.
pub normal-SameMaterial :
    (digest : Material → String) (a b : Material) (j k : String)
    → key digest a ≡ ok j
    → key digest b ≡ ok k
    → (normal a ≡ normal b) ↔ SameMaterial a b
unfolding normal
normal-SameMaterial digest a b j k ka kb =
    let (la, la') = listed digest a j ka in
    let (lb, lb') = listed digest b k kb in
    let plugins = sorted-or_empty a.plugin_digests b.plugin_digests la lb in
    let facts = sorted-or_empty a.captured_fact_digests b.captured_fact_digests la' lb' in
    (
      λ e. (
        ap (λ (m : Material). m.subject_digest) e,
        ap (λ (m : Material). m.package_digest) e,
        ap (λ (m : Material). m.policy_digest) e,
        ap (λ (m : Material). m.context_digest) e,
        ap (λ (m : Material). m.evaluator_image_digest) e,
        plugins.0 (ap (λ (m : Material). m.plugin_digests) e),
        facts.0 (ap (λ (m : Material). m.captured_fact_digests) e),
      ),
      λ (e1, e2, e3, e4, e5, e6, e7). rw (e1, e2, e3, e4, e5, plugins.1 e6, facts.1 e7) refl,
    )
