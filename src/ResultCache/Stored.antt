-- ===== src/ResultCache/Stored.antt =====
-- hub/coherence/cache.py: a lookup after a `put`.
use dev_gate_agentic_framewo.Common.{
  ◌≡◌, ◌↔◌, ◌∙◌, refl, sym, ap, String, true, Option, none, some, List, [], ◌∷◌, string_eq,
  option_eq, arith,
}
use mathlib.Core.Path.{subst}
use dev_gate_agentic_framewo.Common.Dict.{lookup, insert, lookup-insert}
use dev_gate_agentic_framewo.Common.Text.{sorted}
use dev_gate_agentic_framewo.Common.Result.{Result, ok, err, ok_injective, >>=-ok}
use dev_gate_agentic_framewo.ResultCache.{
  Host, Request, CacheEntry, Signer, Material, readable, Store, texts, lists, key, or_empty,
  check_time, check_refs, check_signer, put, text_drift, same_texts, list_drift, drift, read_entry,
  reuse, open_file, get, CacheError, Miss, bad_material, key_drift,
}
use dev_gate_agentic_framewo.ResultCache.Window.{Usable, reuse-Usable, Usable-reuse}

pub same_texts_refl : (xs : List String) → same_texts xs xs ≡ true
unfolding same_texts
same_texts_refl [] = refl
same_texts_refl (x ∷ xs) = ground (arith, same_texts_refl xs)

pub text_drift_refl : (xs : List (String × Option String)) → text_drift xs xs ≡ none
unfolding text_drift
text_drift_refl [] = refl
text_drift_refl ((k, v) ∷ xs) = ground (arith, text_drift_refl xs)

list_drift_refl : (xs : List (String × Option (List String))) → list_drift xs xs ≡ none
unfolding list_drift
list_drift_refl [] = refl
list_drift_refl ((k, v) ∷ xs) = rw (same_texts_refl (sorted (or_empty v))) (list_drift_refl xs)

drift_refl : (m : Material) → drift m m ≡ none
unfolding drift
drift_refl m =
    ap
      (λ (o : Option String). elim o as (λ x. Option String) [
        | some comp ↦ some comp
        | none ↦ list_drift (lists m) (lists m)
      ])
      (text_drift_refl (texts m))
    ∙ list_drift_refl (lists m)

-- The record that `put` writes.
abbrev pub written : Material → String → String → Option Signer → Option (List String) → CacheEntry
written m payload cached_at signer refs = record {
  key_material = m;
  cached_at = cached_at;
  signer = signer;
  retained_refs = or_empty refs;
  payload = payload;
}

get-insert :
    (h : Host) (q : Request) (m : Material) (k : String) (e : CacheEntry) (store : Store)
    → key h.digest m ≡ ok k
    → get h q m (insert k (readable e) store) ≡ read_entry h q m e
unfolding get open_file
get-insert h q m k e store keyed =
    ap
      (λ (r : Result CacheError String). elim r as (λ x. Result Miss String) [
        | err p ↦ err (bad_material p)
        | ok j ↦ open_file h q m (lookup j (insert k (readable e) store))
      ])
      keyed
    ∙ ap (open_file h q m) {y = some (readable e)}
        (lookup-insert k k (readable e) store ∙ ground arith)

read_entry-same :
    (h : Host) (q : Request) (m : Material) (e : CacheEntry)
    → e.key_material ≡ m
    → read_entry h q m e ≡ reuse h q e
unfolding read_entry
read_entry-same h q m e same =
    ap
      (λ (o : Option String). elim o as (λ x. Result Miss String) [
        | some comp ↦ err (key_drift comp)
        | none ↦ reuse h q e
      ])
      (ap (λ x. drift x m) same ∙ drift_refl m)

put-get_file :
    (h : Host) (q : Request) (m : Material) (payload cached_at : String) (signer : Option Signer)
    (refs : Option (List String)) (store : Store) (k : String) (store' : Store)
    → put h m payload cached_at signer refs store ≡ ok (k, store')
    → get h q m store' ≡ read_entry h q m (written m payload cached_at signer refs)
unfolding put
put-get_file h q m payload cached_at signer refs store k store' p =
    let (k', p1, keyed) = >>=-ok (key h.digest m) p in
    let (_, p2, _) = >>=-ok (check_time (h.parse cached_at)) p1 in
    let (_, p3, _) = >>=-ok (check_refs refs) p2 in
    let (_, p4, _) = >>=-ok (check_signer signer) p3 in
    subst
      (λ (r : String × Store).
        get h q m r.1 ≡ read_entry h q m (written m payload cached_at signer refs))
      (ok_injective p4) (get-insert h q m k' (written m payload cached_at signer refs) store keyed)

-- What is put under a complete key is found again: a lookup of the same material hits exactly when
-- the record is usable (its age is within the declared time to live, and its signer and its retained
-- inputs, where it has any, pass their checks), and then with the payload that was put.
pub put-get :
    (h : Host) (q : Request) (m : Material) (payload cached_at : String) (signer : Option Signer)
    (refs : Option (List String)) (store : Store) (k : String) (store' : Store) (found : String)
    → put h m payload cached_at signer refs store ≡ ok (k, store')
    → (get h q m store' ≡ ok found)
      ↔ ((found ≡ payload) × Usable h q (written m payload cached_at signer refs))
put-get h q m payload cached_at signer refs store k store' found p =
    let e = written m payload cached_at signer refs in
    let same =
      put-get_file h q m payload cached_at signer refs store k store' p
      ∙ read_entry-same h q m e refl in
    (
      λ r. reuse-Usable h q e found (sym same ∙ r),
      λ u. same ∙ (Usable-reuse h q e u.1 ∙ ap ok (sym u.0)),
    )
