-- ===== src/Common/Texts.antt =====
-- Texts that the program walks byte by byte, as lists of numbers.
use Prim.Native.Nat.{ℕ, zero, suc, ◌/◌, ◌%◌}
use Prim.Native.Char.{code}
use Prim.Native.String.{String, ◌++◌ as str_append}
use mathlib.Core.List.{List, [], ◌∷◌}
use mathlib.Core.Option.{none, some}
use ngfwtraffic_gen.Common.Lists.{get_elem?}
use ngfwtraffic_gen.Common.Booleans.{ltb, if◌then◌else◌}

abbrev pub Bytes : Type 0
Bytes = List ℕ

-- The bytes of a text in ASCII.
abbrev pub codes : String → Bytes
codes String.[] = []
codes (String.◌∷◌ c s) = code c ∷ codes s

abbrev digit : ℕ → String
digit n =
    let names = "0" ∷ "1" ∷ "2" ∷ "3" ∷ "4" ∷ "5" ∷ "6" ∷ "7" ∷ "8" ∷ "9" ∷ [] in
    elim (get_elem? names n) [ none ↦ "" | some name ↦ name ]

digits : ℕ → ℕ → String
digits zero n = ""
digits (suc fuel) n =
    let rest = digits fuel (n / 10) in
    if ltb n 10 then digit n else str_append rest (digit (n % 10))

-- `std::to_string` of a `uint32_t`, which has ten digits at most.
unfoldable pub to_string : ℕ → String
unfolding digits
to_string n = digits 10 n
