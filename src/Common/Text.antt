-- ===== src/Common/Text.antt =====
-- Python's text operations: `str.strip`, `in`, `sorted` over strings.
use dev_gate_agentic_framewo.Common.Equality.{◌==◌, nat_eq, string_eq, contains}
use dev_gate_agentic_framewo.Common.Tests.{leb, if◌then◌else◌}
use Prim.Native.Nat.{ℕ}
use Prim.Native.Char.{code}
use Prim.Native.String.{String}
use mathlib.Core.Path.{◌≡◌, refl}
use mathlib.Core.Logic.{◌≢◌}
use mathlib.Core.Bool.{Bool, true, false, ◌&&◌, ◌||◌}
use mathlib.Core.List.{List, [], ◌∷◌}
use native.Mathlib.Omega.{arith}

-- The code points of a text.
abbrev pub codes : String → List ℕ
codes String.[] = []
codes (String.◌∷◌ c s) = code c ∷ codes s

-- `str.isspace` of one code point: what `str.strip` removes.
unfoldable pub is_space : ℕ → Bool
is_space c =
    (leb 9 c && leb c 13)
    || (leb 28 c && leb c 32)
    || c == 0x85
    || c == 0xa0
    || c == 0x1680
    || (leb 0x2000 c && leb c 0x200a)
    || c == 0x2028
    || c == 0x2029
    || c == 0x202f
    || c == 0x205f
    || c == 0x3000

-- `a <= b` on texts, by code points.
unfoldable pub codes_le : List ℕ → List ℕ → Bool
codes_le [] bs = true
codes_le (a ∷ as') [] = false
codes_le (a ∷ as') (b ∷ bs) = let rest = codes_le as' bs in if a == b then rest else leb a b

unfoldable pub text_le : String → String → Bool
unfolding codes_le
text_le s t = codes_le (codes s) (codes t)

unfoldable pub insert_sorted : String → List String → List String
insert_sorted s [] = s ∷ []
insert_sorted s (t ∷ ts) = if text_le s t then s ∷ (t ∷ ts) else t ∷ insert_sorted s ts

-- `sorted(texts)`
unfoldable pub sorted : List String → List String
unfolding insert_sorted text_le
sorted [] = []
sorted (s ∷ ss) = insert_sorted s (sorted ss)

insert_sorted-ne-nil : (s : String) (ts : List String) → insert_sorted s ts ≢ []
unfolding insert_sorted
insert_sorted-ne-nil s [] = ground arith
insert_sorted-ne-nil s (t ∷ ts) = ground arith

contains-insert_sorted :
    (s t : String) (ts : List String) → contains (insert_sorted s ts) t ≡ (t == s || contains ts t)
unfolding insert_sorted
contains-insert_sorted s t [] = refl
contains-insert_sorted s t (u ∷ ts) = ground (arith, contains-insert_sorted s t ts)

-- Sorting keeps what a list holds.
pub contains-sorted : (t : String) (ts : List String) → contains (sorted ts) t ≡ contains ts t
unfolding sorted
contains-sorted t [] = refl
contains-sorted t (s ∷ ss) =
    ground (arith, contains-insert_sorted s t (sorted ss), contains-sorted t ss)

pub sorted-nil : (ts : List String) → sorted ts ≡ [] → ts ≡ []
unfolding sorted
sorted-nil [] h = refl
sorted-nil (s ∷ ss) h = absurd (insert_sorted-ne-nil s (sorted ss) h)
