-- ===== src/Overlay/Required.antt =====
-- hub/coherence/policy.py: the required assertions under `apply_overlay`.
use dev_gate_agentic_framewo.Common.{
  ◌≡◌, ◌∙◌, sym, ap, String, true, ◌||◌, Option, none, some, is_some, List, [], ◌∷◌, ◌++◌, map,
  string_eq, contains, arith, Bool-cases, inl, inr,
}
use mathlib.Core.Path.{subst}
use dev_gate_agentic_framewo.Common.Json.{Json, obj, Fields, get_field, truthy?}
use dev_gate_agentic_framewo.Common.Dict.{Dict, lookup, insert, lookup-insert, lookup-erase}
use dev_gate_agentic_framewo.Common.Result.{Result, ok, err, ◌>>=◌, ok_injective, >>=-ok}
use dev_gate_agentic_framewo.Overlay.{
  Entry, Central, OverlayError, bad_entry, bad_addition, table_of, array_of, entry_of,
  change_target, change_entry, change_all, add_entry, add_all, pick, apply_overlay,
}

-- The steps of `apply_overlay` when it returns.
pub record Applied (c : Central) (overlay : Fields) (assertions : List Entry) (out : List Entry)
    : Type 0 where
  pub changes : List Json
  pub additions : List Json
  pub changed : Dict Fields
  pub table : Dict Fields
  pub added : List Entry
  pub are_additions : array_of "add_assertions" overlay ≡ ok additions
  pub is_changed : change_all c changes (table_of assertions []) ≡ ok changed
  pub is_added : add_all additions changed ≡ ok (table, added)
  pub is_out : out ≡ pick table assertions ++ added

pub apply_overlay-Applied :
    (c : Central) (overlay : Fields) (assertions out : List Entry)
    → apply_overlay c (obj overlay) assertions ≡ ok out
    → Applied c overlay assertions out
unfolding apply_overlay
apply_overlay-Applied c overlay assertions out h =
    let (changes, h1, _) = >>=-ok (array_of "assertions" overlay) h in
    let (additions, h2, e2) = >>=-ok (array_of "add_assertions" overlay) h1 in
    let (changed, h3, e3) = >>=-ok (change_all c changes (table_of assertions [])) h2 in
    let (both, h4, e4) = >>=-ok (add_all additions changed) h3 in
    record {
      changes = changes;
      additions = additions;
      changed = changed;
      table = both.0;
      added = both.1;
      are_additions = e2;
      is_changed = e3;
      is_added = e4;
      is_out = ground arith;
    }

change_entry-required :
    (c : Central) (x : Entry) (t t' : Dict Fields) (k : String)
    → change_entry c x t ≡ ok t'
    → contains c.required k ≡ true
    → is_some (lookup k t) ≡ true
    → is_some (lookup k t') ≡ true
unfolding change_entry
change_entry-required c x t t' k h req here =
    elim (Bool-cases (truthy? (get_field "disabled" x.fields))) [
      | inl off ↦ elim (Bool-cases (contains c.required x.id)) [
        | inl r ↦ absurd (ground arith)
        | inr r ↦
            subst (λ (d : Dict Fields). is_some (lookup k d) ≡ true)
              (ok_injective (rw (off, r) at h)) (rw lookup-erase (ground arith))
      ]
      | inr on ↦ go (lookup x.id t) (rw on at h)
    ]
  where
    go :
        (o : Option Fields)
        → (elim o as (λ x. Result OverlayError (Dict Fields)) [
          | none ↦ err (OverlayError.unknown_assertion x.id)
          | some target ↦ change_target c x target >>= λ f. ok (insert x.id f t)
        ])
          ≡ ok t'
        → is_some (lookup k t') ≡ true
    go none h = absurd (ground arith)
    go (some target) h =
        let (g, done, _) = >>=-ok (change_target c x target) h in
        subst (λ (d : Dict Fields). is_some (lookup k d) ≡ true) (ok_injective done)
          (rw lookup-insert (ground arith))

change_all-required :
    (c : Central) (js : List Json) (t t' : Dict Fields) (k : String)
    → change_all c js t ≡ ok t'
    → contains c.required k ≡ true
    → is_some (lookup k t) ≡ true
    → is_some (lookup k t') ≡ true
unfolding change_all
change_all-required c [] t t' k h req here =
    subst (λ (d : Dict Fields). is_some (lookup k d) ≡ true) (ok_injective h) here
change_all-required c (j ∷ js) t t' k h req here =
    let (x, h1, _) = >>=-ok (entry_of bad_entry j) h in
    let (m, h2, one) = >>=-ok (change_entry c x t) h1 in
    change_all-required c js m t' k h2 req (change_entry-required c x t m k one req here)

-- One step of the additions that succeed.
pub record Added (j : Json) (js : List Json) (t : Dict Fields) (t' : Dict Fields)
    (added : List Entry) : Type 0 where
  pub entry : Entry
  pub more : List Entry
  pub is_entry : entry_of bad_addition j ≡ ok entry
  pub is_more : add_all js (insert entry.id entry.fields t) ≡ ok (t', more)
  pub is_added : added ≡ entry ∷ more

add_entry-insert :
    (x : Entry) (t m : Dict Fields) → add_entry x t ≡ ok m → m ≡ insert x.id x.fields t
unfolding add_entry
add_entry-insert x t m h = ground arith

pub add_all-Added :
    (j : Json) (js : List Json) (t t' : Dict Fields) (added : List Entry)
    → add_all (j ∷ js) t ≡ ok (t', added)
    → Added j js t t' added
unfolding add_all
add_all-Added j js t t' added h =
    let (x, h1, named) = >>=-ok (entry_of bad_addition j) h in
    let (m, h2, one) = >>=-ok (add_entry x t) h1 in
    let (both, h3, rest) = >>=-ok (add_all js m) h2 in
    let same = ok_injective h3 in
    record {
      entry = x;
      more = both.1;
      is_entry = named;
      is_more =
          ap (λ d. add_all js d) (sym (add_entry-insert x t m one))
          ∙ (rest
              ∙ ap (λ (d : Dict Fields). ok (d, both.1))
                  (ap (λ (p : Dict Fields × List Entry). p.0) same));
      is_added = sym (ap (λ (p : Dict Fields × List Entry). p.1) same);
    }

add_all-keeps :
    (js : List Json) (t t' : Dict Fields) (added : List Entry) (k : String)
    → add_all js t ≡ ok (t', added)
    → is_some (lookup k t) ≡ true
    → is_some (lookup k t') ≡ true
unfolding add_all
add_all-keeps [] t t' added k h here =
    subst (λ (p : Dict Fields × List Entry). is_some (lookup k p.0) ≡ true) (ok_injective h) here
add_all-keeps (j ∷ js) t t' added k h here =
    let a = add_all-Added j js t t' added h in
    add_all-keeps js (insert a.entry.id a.entry.fields t) t' a.more k a.is_more
      (rw lookup-insert (ground arith))

abbrev pub entry_ids : List Entry → List String
entry_ids as' = map (λ (a : Entry). a.id) as'

contains-append :
    (k : String) (xs ys : List Entry)
    → contains (entry_ids xs) k ≡ true
    → contains (entry_ids (xs ++ ys)) k ≡ true
contains-append k [] ys h = absurd (ground arith)
contains-append k (x ∷ xs) ys h = ground (arith, contains-append k xs ys)

table_of-some :
    (k : String) (as' : List Entry) (t : Dict Fields)
    → (contains (entry_ids as') k || is_some (lookup k t)) ≡ true
    → is_some (lookup k (table_of as' t)) ≡ true
unfolding table_of
table_of-some k [] t h = ground arith
table_of-some k (a ∷ as') t h =
    table_of-some k as' (insert a.id a.fields t) (rw lookup-insert (ground arith))

pick-contains :
    (k : String) (t : Dict Fields) (as' : List Entry)
    → is_some (lookup k t) ≡ true
    → contains (entry_ids as') k ≡ true
    → contains (entry_ids (pick t as')) k ≡ true
unfolding pick
pick-contains k t [] here h = absurd (ground arith)
pick-contains k t (a ∷ as') here h = ground (arith, pick-contains k t as' here)

-- An overlay that is applied keeps every assertion of the package that central policy requires,
-- whatever it disables, changes or adds.
pub apply_overlay-required :
    (c : Central) (overlay : Fields) (assertions out : List Entry) (k : String)
    → apply_overlay c (obj overlay) assertions ≡ ok out
    → contains c.required k ≡ true
    → contains (entry_ids assertions) k ≡ true
    → contains (entry_ids out) k ≡ true
apply_overlay-required c overlay assertions out k h req here =
    let p = apply_overlay-Applied c overlay assertions out h in
    let first = table_of-some k assertions [] (ground arith) in
    let second =
      change_all-required c p.changes (table_of assertions []) p.changed k p.is_changed req first in
    let third = add_all-keeps p.additions p.changed p.table p.added k p.is_added second in
    subst (λ l. contains (entry_ids l) k ≡ true) (sym p.is_out)
      (contains-append k (pick p.table assertions) p.added
        (pick-contains k p.table assertions third here))
