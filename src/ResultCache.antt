-- ===== src/ResultCache.antt =====
-- hub/coherence/cache.py: sealed results under the complete key of what they were computed from.
pub mod Window
pub mod Stored
pub mod Hits
pub mod Same
pub mod Log
use dev_gate_agentic_framewo.Common.{
  ℕ, ◌+◌, ◌*◌, String, Bool, true, false, not, ◌&&◌, Option, none, some, List, [], ◌∷◌, map, ◌==◌,
  ◌!=◌, string_eq, option_eq, if◌then◌else◌, ltb,
}
use dev_gate_agentic_framewo.Common.Dict.{Dict, lookup, insert}
use dev_gate_agentic_framewo.Common.Text.{sorted}
use dev_gate_agentic_framewo.Common.Result.{Result, ok, err, ◌>>=◌, ◌>>◌}

-- The bound identity. A component that is missing, None or of another type is `none`.
pub record Material : Type 0 where
  pub subject_digest : Option String
  pub package_digest : Option String
  pub policy_digest : Option String
  pub context_digest : Option String
  pub evaluator_image_digest : Option String
  pub plugin_digests : Option (List String)
  pub captured_fact_digests : Option (List String)

pub data CacheError : Type 0 where
  component_missing item_invalid : String → CacheError
  bad_time no_refs signer_incomplete : CacheError

-- _COMPONENTS, less _LIST_COMPONENTS
abbrev pub texts : Material → List (String × Option String)
texts m =
    ("subject_digest", m.subject_digest)
    ∷ ("package_digest", m.package_digest)
    ∷ ("policy_digest", m.policy_digest)
    ∷ ("context_digest", m.context_digest)
    ∷ ("evaluator_image_digest", m.evaluator_image_digest)
    ∷ []

-- _LIST_COMPONENTS
abbrev pub lists : Material → List (String × Option (List String))
lists m =
    ("plugin_digests", m.plugin_digests) ∷ ("captured_fact_digests", m.captured_fact_digests) ∷ []

unfoldable pub check_texts : List (String × Option String) → Result CacheError (Unit {0})
check_texts [] = ok tt
check_texts ((comp, none) ∷ rest) = err (component_missing comp)
check_texts ((comp, some val) ∷ rest) =
    let later = check_texts rest in if val == "" then err (component_missing comp) else later

unfoldable pub check_items : String → List String → Result CacheError (Unit {0})
check_items name [] = ok tt
check_items name (item ∷ items) =
    let later = check_items name items in if item == "" then err (item_invalid name) else later

unfoldable pub check_lists : List (String × Option (List String)) → Result CacheError (Unit {0})
check_lists [] = ok tt
check_lists ((comp, none) ∷ rest) = err (component_missing comp)
check_lists ((comp, some val) ∷ rest) = check_items comp val >> check_lists rest

abbrev pub sort_list : Option (List String) → Option (List String)
sort_list none = none
sort_list (some val) = some (sorted val)

unfoldable pub normal : Material → Material
normal m = record m {
  plugin_digests = sort_list m.plugin_digests;
  captured_fact_digests = sort_list m.captured_fact_digests;
}

-- `canon.digest_obj` of the components is the first argument.
unfoldable pub key : (Material → String) → Material → Result CacheError String
key digest m = do check_texts (texts m); check_lists (lists m); ok (digest (normal m))

pub record Signer : Type 0 where
  pub key_id : String
  pub signer_set_digest : String

-- The record that `put` writes; the payload's bytes stand for their base64 text.
pub record CacheEntry : Type 0 where
  pub key_material : Material
  pub cached_at : String
  pub signer : Option Signer
  pub retained_refs : List String
  pub payload : String

-- A file of the store, which may be no readable record.
pub data File : Type 0 where
  unreadable : File
  readable : CacheEntry → File

abbrev pub Store : Type 0
Store = Dict File

unfoldable pub check_refs : Option (List String) → Result CacheError (Unit {0})
check_refs none = ok tt
check_refs (some []) = err no_refs
check_refs (some (r ∷ rs)) = check_items "retained_refs" (r ∷ rs)

unfoldable pub check_signer : Option Signer → Result CacheError (Unit {0})
check_signer none = ok tt
check_signer (some s) = if s.signer_set_digest == "" then err signer_incomplete else ok tt

abbrev pub check_time : Option ℕ → Result CacheError (Unit {0})
check_time none = err bad_time
check_time (some t) = ok tt

abbrev pub or_empty : Option (List String) → List String
or_empty none = []
or_empty (some xs) = xs

-- The module's surroundings: the digest of the components, and the parse of a time to microseconds,
-- which are UTC's where the times have a zone. Both times of a lookup have one, or neither has.
pub record Host : Type 0 where
  pub digest : Material → String
  pub parse : String → Option ℕ

-- The key, and the store with the record.
unfoldable pub put :
    Host
    → Material
    → String
    → String
    → Option Signer
    → Option (List String)
    → Store
    → Result CacheError (String × Store)
put h m payload cached_at signer retained_refs store = do
  k ← key h.digest m
  check_time (h.parse cached_at)
  check_refs retained_refs
  check_signer signer
  ok (
    k,
    insert k
        (readable (record {
          key_material = m;
          cached_at = cached_at;
          signer = signer;
          retained_refs = or_empty retained_refs;
          payload = payload;
        }))
        store,
  )

-- A miss by its reason, or an exception that `get` does not catch.
pub data Miss : Type 0 where
  bad_material : CacheError → Miss
  no_entry entry_unreadable ttl_undeclared bad_clock bad_window ttl_expired : Miss
  key_drift : String → Miss
  signer_unchecked retention_unchecked : Miss
  signer_invalid retention_invalid : String → Miss
  uncaught : String → Miss

unfoldable pub text_drift :
    List (String × Option String) → List (String × Option String) → Option String
text_drift ((comp, a) ∷ as') ((comp', b) ∷ bs) =
    let later = text_drift as' bs in if a != b then some comp else later
text_drift _ _ = none

unfoldable pub same_texts : List String → List String → Bool
same_texts [] [] = true
same_texts (a ∷ as') (b ∷ bs) = a == b && same_texts as' bs
same_texts _ _ = false

unfoldable pub list_drift :
    List (String × Option (List String)) → List (String × Option (List String)) → Option String
list_drift ((comp, a) ∷ as') ((comp', b) ∷ bs) =
    let later = list_drift as' bs in
    if same_texts (sorted (or_empty a)) (sorted (or_empty b)) then later else some comp
list_drift _ _ = none

-- The first component in which the stored material is another one.
unfoldable pub drift : Material → Material → Option String
drift stored m = elim (text_drift (texts stored) (texts m)) [
  | some comp ↦ some comp
  | none ↦ list_drift (lists stored) (lists m)
]

-- The whole seconds of `timedelta.max`
abbrev pub max_seconds : ℕ
max_seconds = 86399999999999

-- The age against the time to live, both in microseconds.
unfoldable pub judge_age : Option ℕ → Option ℕ → ℕ → Result Miss (Unit {0})
judge_age (some now) (some since) ttl =
    if ltb now since
    then err bad_window
    else if ltb max_seconds ttl
    then err (uncaught "OverflowError")
    else if ltb (since + ttl * 1000000) now
    then err ttl_expired
    else ok tt
judge_age _ _ ttl = err bad_clock

-- A validity predicate: whether it holds, and its reason.
abbrev pub Check : Type 0 → Type 0
Check A = Option (A → Bool × String)

unfoldable pub check_signed : Check Signer → Option Signer → Result Miss (Unit {0})
check_signed signer_ok none = ok tt
check_signed none (some s) = err signer_unchecked
check_signed (some f) (some s) = if (f s).0 then ok tt else err (signer_invalid (f s).1)

unfoldable pub check_retained : Check (List String) → List String → Result Miss (Unit {0})
check_retained retention_ok [] = ok tt
check_retained none (r ∷ rs) = err retention_unchecked
check_retained (some f) (r ∷ rs) =
    if (f (r ∷ rs)).0 then ok tt else err (retention_invalid (f (r ∷ rs)).1)

-- What the caller of `get` gives beside the material.
pub record Request : Type 0 where
  pub as_of : String
  pub ttl_seconds : Option ℕ
  pub signer_ok : Check Signer
  pub retention_ok : Check (List String)

-- The checks on a record of the same material.
unfoldable pub reuse : Host → Request → CacheEntry → Result Miss String
reuse h q e = elim q.ttl_seconds [
  | none ↦ err ttl_undeclared
  | some ttl ↦ do
    judge_age (h.parse q.as_of) (h.parse e.cached_at) ttl
    check_signed q.signer_ok e.signer
    check_retained q.retention_ok e.retained_refs
    ok e.payload
]

unfoldable pub read_entry : Host → Request → Material → CacheEntry → Result Miss String
read_entry h q m e = elim (drift e.key_material m) [
  | some comp ↦ err (key_drift comp)
  | none ↦ reuse h q e
]

unfoldable pub open_file : Host → Request → Material → Option File → Result Miss String
open_file h q m none = err no_entry
open_file h q m (some unreadable) = err entry_unreadable
open_file h q m (some (readable e)) = read_entry h q m e

-- A hit is the payload, a miss its reason.
unfoldable pub get : Host → Request → Material → Store → Result Miss String
get h q m store = elim (key h.digest m) [
  | err e ↦ err (bad_material e)
  | ok k ↦ open_file h q m (lookup k store)
]
