-- ===== src/Common/Json.antt =====
-- JSON values as Python's `json.loads` returns them, with truthiness and the type tests.
use dev_gate_agentic_framewo.Common.Equality.{◌==◌, string_eq}
use dev_gate_agentic_framewo.Common.Tests.{if◌then◌else◌}
use Prim.Native.Nat.{ℕ, zero}
use Prim.Native.String.{String}
use mathlib.Core.Bool.{Bool, true, false, not}
use mathlib.Core.Option.{Option, none, some}
use mathlib.Core.List.{List, [], ◌∷◌}

-- A JSON integer: `negsuc n` is -(n + 1).
pub data ℤ : Type 0 where
  pos : ℕ → ℤ
  negsuc : ℕ → ℤ

-- A float keeps whether it is truthy and its spelling: no code here computes with one.
mutual
  pub data Json : Type 0 where
    null : Json
    bool : Bool → Json
    int : ℤ → Json
    real : Bool → String → Json
    str : String → Json
    arr : Items → Json
    obj : Fields → Json

  pub data Items : Type 0 where
    nil : Items
    cons : Json → Items → Items

  pub data Fields : Type 0 where
    end : Fields
    field : String → Json → Fields → Fields

unfoldable pub to_list : Items → List Json
to_list nil = []
to_list (cons j xs) = j ∷ to_list xs

unfoldable pub of_list : List Json → Items
of_list [] = nil
of_list (j ∷ xs) = cons j (of_list xs)

-- `obj.get(key)` on the entries; `none` when the key is absent.
unfoldable pub get_field : String → Fields → Option Json
get_field k end = none
get_field k (field j v rest) = if k == j then some v else get_field k rest

-- `bool(value)`
unfoldable pub truthy : Json → Bool
truthy null = false
truthy (bool b) = b
truthy (int (pos zero)) = false
truthy (int _) = true
truthy (real b _) = b
truthy (str s) = not (s == "")
truthy (arr nil) = false
truthy (arr _) = true
truthy (obj end) = false
truthy (obj _) = true

-- `value.get(key)` where the key may be absent: `None` reads as null.
abbrev pub or_null : Option Json → Json
or_null none = null
or_null (some v) = v

abbrev pub truthy? : Option Json → Bool
truthy? o = truthy (or_null o)
