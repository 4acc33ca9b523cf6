-- ===== src/Common/Decimal.antt =====
-- `str(n)` of a natural number.
use dev_gate_agentic_framewo.Common.Tests.{ltb, if◌then◌else◌}
use dev_gate_agentic_framewo.Common.Equality.{◌==◌, nat_eq}
use Prim.Native.Nat.{ℕ, zero, suc, ◌/◌, ◌%◌}
use Prim.Native.String.{String, ◌++◌}

unfoldable pub digit : ℕ → String
digit d =
    if d == 0
    then "0"
    else if d == 1
    then "1"
    else if d == 2
    then "2"
    else if d == 3
    then "3"
    else if d == 4
    then "4"
    else if d == 5
    then "5"
    else if d == 6
    then "6"
    else if d == 7
    then "7"
    else if d == 8
    then "8"
    else "9"

-- The digits of n on fuel; n has fewer than n + 1 of them.
unfoldable pub digits : ℕ → ℕ → String
digits zero n = ""
digits (suc f) n =
    let front = digits f (n / 10) in if ltb n 10 then digit n else front ++ digit (n % 10)

unfoldable pub show : ℕ → String
unfolding digits digit
show n = digits (suc n) n
