-- ===== src/Common/Dict.antt =====
-- Python's `dict` with string keys, in insertion order, and its laws.
use dev_gate_agentic_framewo.Common.Equality.{◌==◌, string_eq}
use dev_gate_agentic_framewo.Common.Tests.{if◌then◌else◌}
use Prim.Native.String.{String}
use mathlib.Core.Path.{◌≡◌, refl}
use mathlib.Core.Option.{Option, none, some}
use mathlib.Core.List.{List, [], ◌∷◌, map}
use native.Mathlib.Omega.{arith}

abbrev pub Dict {ℓ} : Type ℓ → Type ℓ
Dict V = List (String × V)

module _ {ℓ} {V : Type ℓ} where
  -- d.get(k)
  unfoldable pub lookup : String → Dict V → Option V
  lookup k [] = none
  lookup k ((j, v) ∷ d) = if k == j then some v else lookup k d

  -- d[k] = v: the entry stays where it is, or a new one comes last.
  unfoldable pub insert : String → V → Dict V → Dict V
  insert k v [] = (k, v) ∷ []
  insert k v ((j, w) ∷ d) = if k == j then (j, v) ∷ d else (j, w) ∷ insert k v d

  -- d.pop(k, None)
  unfoldable pub erase : String → Dict V → Dict V
  erase k [] = []
  erase k ((j, w) ∷ d) = let rest = erase k d in if k == j then rest else (j, w) ∷ rest

  pub lookup-insert :
      (j k : String) (v : V) (d : Dict V)
      → lookup j (insert k v d) ≡ (if j == k then some v else lookup j d)
  unfolding lookup insert
  lookup-insert j k v [] = refl
  lookup-insert j k v ((i, w) ∷ d) = ground (arith, lookup-insert j k v d)

  pub lookup-erase :
      (j k : String) (d : Dict V) → lookup j (erase k d) ≡ (if j == k then none else lookup j d)
  unfolding lookup erase
  lookup-erase j k [] = ground arith
  lookup-erase j k ((i, w) ∷ d) = ground (arith, lookup-erase j k d)

abbrev pub keys {ℓ} : {V : Type ℓ} → Dict V → List String
keys d = map (λ (k, _). k) d

-- A key has one entry, as in a real dict.
abbrev pub NodupKeys {ℓ} : {V : Type ℓ} → Dict V → Type ℓ
NodupKeys [] = Unit
NodupKeys ((k, _) ∷ d) = (lookup k d ≡ none) × NodupKeys d

pub insert-NodupKeys {ℓ} :
    {V : Type ℓ} (k : String) (v : V) (d : Dict V) → NodupKeys d → NodupKeys (insert k v d)
unfolding insert lookup
insert-NodupKeys k v [] u = (refl, tt)
insert-NodupKeys k v ((j, w) ∷ d) (fresh, u) =
    ground (arith, insert-NodupKeys k v d u, lookup-insert j k v d)
