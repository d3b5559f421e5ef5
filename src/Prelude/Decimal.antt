-- ===== src/Prelude/Decimal.antt =====
-- `to_string` of an unsigned integer, as `format!` prints it.
pub mod Value
pub mod Parse
use Prim.Native.Nat.{ℕ, zero, suc, ◌/◌, ◌%◌}
use Prim.Native.String.{String, ◌++◌}
use mathlib.Core.List.{List, [], ◌∷◌}
use mathlib.Core.Option.{none, some}
use ferroq.Prelude.Tests.{ltb, if◌then◌else◌}
use ferroq.Prelude.Lists.{get_elem?}
use ferroq.Prelude.Int.{ℤ, pos, negsuc}

abbrev digits : List String
digits = "0" ∷ "1" ∷ "2" ∷ "3" ∷ "4" ∷ "5" ∷ "6" ∷ "7" ∷ "8" ∷ "9" ∷ []

digit : ℕ → String
digit d = elim (get_elem? digits d) [ some s ↦ s | none ↦ "" ]

-- A number has fewer digits than its successor is large, so `suc n` rounds are enough.
print : ℕ → ℕ → String → String
unfolding digit
print zero n rest = rest
print (suc fuel) n rest =
    let more = print fuel (n / 10) (digit (n % 10) ++ rest) in
    if ltb n 10 then digit n ++ rest else more

unfoldable pub to_string : ℕ → String
unfolding print
to_string n = print (suc n) n ""

-- `to_string` of a signed integer.
unfoldable pub int_text : ℤ → String
unfolding to_string
int_text (pos n) = to_string n
int_text (negsuc n) = "-" ++ to_string (suc n)
