-- ===== src/ResultCache/Log.antt =====
-- hub/coherence/cache.py: the store against the log of what was put.
use dev_gate_agentic_framewo.Common.{
  ℕ, ◌≡◌, ◌∙◌, refl, sym, ap, String, Bool, true, false, not, ◌&&◌, Option, none, some, is_some,
  List, [], ◌∷◌, string_eq, option_eq, arith, Bool-cases, inl, inr, if◌then◌else◌, ◌==◌, All,
}
use dev_gate_agentic_framewo.Common.Dict.{lookup, insert, lookup-insert}
use dev_gate_agentic_framewo.Common.Result.{Result, ok, err, ◌>>=◌, ◌>>◌}
use dev_gate_agentic_framewo.ResultCache.{
  Host, Request, CacheEntry, Signer, Material, File, readable, Store, key, normal, or_empty,
  check_time, check_refs, check_signer, put, drift, read_entry, reuse, open_file, get, CacheError,
  Miss, bad_material, no_entry, key_drift,
}
use dev_gate_agentic_framewo.ResultCache.Same.{key-normal, SameMaterial-drift, normal-SameMaterial}
use dev_gate_agentic_framewo.ResultCache.Hits.{drift-SameMaterial}

-- The arguments of a call of `put`.
pub record Put : Type 0 where
  pub material : Material
  pub payload : String
  pub cached_at : String
  pub signer : Option Signer
  pub refs : Option (List String)

abbrev pub kept : Put → CacheEntry
kept p = record {
  key_material = p.material;
  cached_at = p.cached_at;
  signer = p.signer;
  retained_refs = or_empty p.refs;
  payload = p.payload;
}

abbrev pub store_of : Store → Result CacheError (String × Store) → Store
store_of old (ok (k, new)) = new
store_of old (err e) = old

-- The store after the calls, of which the last stands first; a refused one changes nothing.
unfoldable pub replay : Host → List Put → Store
replay h [] = []
replay h (p ∷ ps) =
    let old = replay h ps in
    store_of old (put h p.material p.payload p.cached_at p.signer p.refs old)

abbrev pub is_ok {ℓ} : {E A : Type ℓ} → Result E A → Bool
is_ok (ok a) = true
is_ok (err e) = false

-- The call is not refused.
abbrev pub admits : Host → Put → Bool
admits h p =
    is_ok (key h.digest p.material)
    && (is_some (h.parse p.cached_at)
        && (is_ok (check_refs p.refs) && is_ok (check_signer p.signer)))

abbrev pub is_same : Material → Material → Bool
is_same a b = not (is_some (drift a b))

-- What the last accepted call on the same material put.
unfoldable pub latest : Host → Material → List Put → Option CacheEntry
latest h m [] = none
latest h m (p ∷ ps) =
    let older = latest h m ps in if admits h p && is_same p.material m then some (kept p) else older

-- What a lookup answers, from the log alone.
abbrev pub answer : Host → Request → Option CacheEntry → Result Miss String
answer h q none = err no_entry
answer h q (some e) = reuse h q e

abbrev pub expected : Host → Request → Material → List Put → Result Miss String
expected h q m log = elim (key h.digest m) [
  | err e ↦ err (bad_material e)
  | ok k ↦ answer h q (latest h m log)
]

abbrev equals_key : String → Result CacheError String → Bool
equals_key k (err e) = false
equals_key k (ok j) = k == j

abbrev has_key : Host → String → Material → Bool
has_key h k m = equals_key k (key h.digest m)

abbrev file_at : Host → String → List Put → Option File
file_at h k [] = none
file_at h k (p ∷ ps) =
    let older = file_at h k ps in
    if admits h p && has_key h k p.material then some (readable (kept p)) else older

-- The steps of `put`, on what they compute.
put_steps-lookup :
    (k : String) (f : File) (store : Store) (r : Result CacheError String) (t : Option ℕ)
    (c s : Result CacheError (Unit {0}))
    → lookup k (store_of store (do j ← r; check_time t; c; s; ok (j, insert j f store))) ≡ (
        if (is_ok r && (is_some t && (is_ok c && is_ok s))) && equals_key k r
        then some f
        else lookup k store)
put_steps-lookup k f store (err e) t c s = refl
put_steps-lookup k f store (ok j) none c s = refl
put_steps-lookup k f store (ok j) (some t) (err e) s = refl
put_steps-lookup k f store (ok j) (some t) (ok u) (err e) = refl
put_steps-lookup k f store (ok j) (some t) (ok u) (ok v) = lookup-insert k j f store

put-lookup :
    (h : Host) (p : Put) (k : String) (store : Store)
    → lookup k (store_of store (put h p.material p.payload p.cached_at p.signer p.refs store))
      ≡ (if admits h p && has_key h k p.material then some (readable (kept p)) else lookup k store)
unfolding put
put-lookup h p k store =
    put_steps-lookup k (readable (kept p)) store (key h.digest p.material) (h.parse p.cached_at)
      (check_refs p.refs) (check_signer p.signer)

replay-lookup : (h : Host) (k : String) (log : List Put) → lookup k (replay h log) ≡ file_at h k log
unfolding replay
replay-lookup h k [] = unfold lookup in refl
replay-lookup h k (p ∷ ps) = put-lookup h p k (replay h ps) ∙ ground (arith, replay-lookup h k ps)

no_drift : (o : Option String) → not (is_some o) ≡ true → o ≡ none
no_drift none e = refl
no_drift (some c) e = absurd (ground arith)

abbrev file_of : Option CacheEntry → Option File
file_of none = none
file_of (some e) = some (readable e)

abbrev AllSame : Material → Option CacheEntry → Type 0
AllSame m none = Unit
AllSame m (some e) = drift e.key_material m ≡ none

-- The call's material has the digest of this one only where it has its normal form.
abbrev pub NoCollision : Host → Material → Put → Type 0
NoCollision h m p =
    h.digest (normal p.material) ≡ h.digest (normal m) → normal p.material ≡ normal m

module _ (h : Host) where
  -- Without a collision, the key of a complete material is the other's exactly when the materials are
  -- the same.
  has_key-is_same :
      (m : Material) (k : String) (n : Material)
      → (h.digest (normal n) ≡ h.digest (normal m) → normal n ≡ normal m)
      → key h.digest m ≡ ok k
      → is_ok (key h.digest n) ≡ true
      → has_key h k n ≡ is_same n m
  has_key-is_same m k n apart km kn = go (key h.digest n) refl kn
    where
      go :
          (r : Result CacheError String)
          → key h.digest n ≡ r
          → is_ok r ≡ true
          → equals_key k r ≡ is_same n m
      go (err e) there good = absurd (ground arith)
      go (ok j) there good =
          let same = normal-SameMaterial h.digest n m j k there km in
          let n_key = key-normal h.digest n j there in
          let m_key = key-normal h.digest m k km in
          elim (Bool-cases (is_same n m)) [
            | inl e ↦
                let equal = same.1 (drift-SameMaterial n m (no_drift (drift n m) e)) in
                equal_key (sym m_key ∙ (ap h.digest (sym equal) ∙ n_key)) ∙ sym e
            | inr e ↦
                distinct_key (λ eq.
                  other e (SameMaterial-drift n m (same.0 (apart (n_key ∙ (sym eq ∙ sym m_key))))))
                ∙ sym e
          ]
        where
          equal_key : {a b : String} → a ≡ b → (a == b) ≡ true
          equal_key e = ground arith

          distinct_key : {a b : String} → (a ≡ b → ⊥) → (a == b) ≡ false
          distinct_key e = ground (arith, e)

          other : is_same n m ≡ false → drift n m ≡ none → ⊥
          other e none' = ground (arith, ap is_some none')

  file_at-latest :
      (m : Material) (k : String) (log : List Put)
      → All (NoCollision h m) log
      → key h.digest m ≡ ok k
      → file_at h k log ≡ file_of (latest h m log)
  unfolding latest
  file_at-latest m k [] apart km = refl
  file_at-latest m k (p ∷ ps) apart km = elim (Bool-cases (is_ok (key h.digest p.material))) [
    | inl good ↦
        rw (has_key-is_same m k p.material apart.0 km good, file_at-latest m k ps apart.1 km)
          (choice (admits h p && is_same p.material m) (kept p) (latest h m ps))
    | inr bad ↦ rw (bad, file_at-latest m k ps apart.1 km) refl
  ]
    where
      choice :
          (b : Bool) (e : CacheEntry) (o : Option CacheEntry)
          → (if b then some (readable e) else file_of o) ≡ file_of (if b then some e else o)
      choice true e o = refl
      choice false e o = refl

  latest-is_same : (m : Material) (log : List Put) → AllSame m (latest h m log)
  unfolding latest
  latest-is_same m [] = tt
  latest-is_same m (p ∷ ps) = elim (Bool-cases (admits h p && is_same p.material m)) [
    | inl e ↦ rw e (no_drift (drift p.material m) (ground arith))
    | inr e ↦ rw e (latest-is_same m ps)
  ]

  open_file-answer :
      (q : Request) (m : Material) (o : Option CacheEntry)
      → AllSame m o
      → open_file h q m (file_of o) ≡ answer h q o
  unfolding open_file read_entry
  open_file-answer q m none same = refl
  open_file-answer q m (some e) same =
      ap
        (λ (o : Option String). elim o as (λ x. Result Miss String) [
          | some comp ↦ err (key_drift comp)
          | none ↦ reuse h q e
        ])
        same

  get-replay_at :
      (q : Request) (m : Material) (log : List Put)
      → All (NoCollision h m) log
      → get h q m (replay h log) ≡ expected h q m log
  unfolding get
  get-replay_at q m log apart = go (key h.digest m) refl
    where
      go :
          (r : Result CacheError String)
          → key h.digest m ≡ r
          → (elim r as (λ x. Result Miss String) [
            | err e ↦ err (bad_material e)
            | ok k ↦ open_file h q m (lookup k (replay h log))
          ])
            ≡ (elim r as (λ x. Result Miss String) [
              | err e ↦ err (bad_material e)
              | ok k ↦ answer h q (latest h m log)
            ])
      go (err e) there = refl
      go (ok k) there =
          ap (open_file h q m) (replay-lookup h k log ∙ file_at-latest m k log apart there)
          ∙ open_file-answer q m (latest h m log) (latest-is_same m log)

-- The cache refines the log of what was put: whatever calls of `put` have been made, a lookup
-- answers as the log does, where the last accepted call on the same material counts and every other
-- material counts for nothing, provided that no call's material
-- collides with the one looked up.
pub get-replay :
    (h : Host) (q : Request) (m : Material) (log : List Put)
    → All (NoCollision h m) log
    → get h q m (replay h log) ≡ expected h q m log
get-replay = get-replay_at
