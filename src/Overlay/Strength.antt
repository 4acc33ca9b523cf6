-- ===== src/Overlay/Strength.antt =====
-- hub/coherence/policy.py: severities and evaluators under `apply_overlay`.
use dev_gate_agentic_framewo.Common.{◌≡◌, ◌⊎◌, String, Option, some, List, [], ◌∷◌, string_eq}
use dev_gate_agentic_framewo.Common.Json.{Json, obj, Fields}
use dev_gate_agentic_framewo.Common.Dict.{Dict, lookup}
use dev_gate_agentic_framewo.Common.Result.{Result, ok}
use dev_gate_agentic_framewo.Overlay.{Entry, Central, table_of, array_of}
use dev_gate_agentic_framewo.Overlay.Table.{Kept}

-- The fields stand for the id in the base, up to a permitted change.
abbrev pub Grounded : Central → Dict Fields → String → Fields → Type 0
Grounded c base k g = (f : Fields) × (lookup k base ≡ some f) × Kept c k f g

abbrev AllGrounded : Central → Dict Fields → Dict Fields → Type 0
AllGrounded c base t = (k : String) (g : Fields) → lookup k t ≡ some g → Grounded c base k g

abbrev AtKey : Central → Dict Fields → String → Option Fields → Type 0
AtKey c base k o = (g : Fields) → o ≡ some g → Grounded c base k g

-- The object is one of the list.
abbrev pub Among : Fields → List Json → Type 0
Among f [] = ⊥
Among f (j ∷ js) = (j ≡ obj f) ⊎ Among f js

-- An entry after the additions was there before, or is one of them.
abbrev OldOrAdded : Dict Fields → List Json → String → Option Fields → Type 0
OldOrAdded t js k o = (g : Fields) → o ≡ some g → (lookup k t ≡ some g) ⊎ Among g js

-- The entry is one of the overlay's additions.
abbrev pub IsAddition : Fields → Fields → Type 0
IsAddition overlay f =
    (items : List Json) × (array_of "add_assertions" overlay ≡ ok items) × Among f items

-- The entry is an assertion of the package, up to a permitted change, or an addition.
abbrev pub IsPermitted : Central → Fields → List Entry → Entry → Type 0
IsPermitted c overlay assertions e =
    Grounded c (table_of assertions []) e.id e.fields ⊎ IsAddition overlay e.fields
