-- ===== src/Condition/Integers.antt =====
-- An instance of the floating-point interface for tests: texts of decimal digits, of which at most 308 are
-- surely in the range of double.
use bsc_thesis.Base.{ℕ, suc, ◌+◌, ◌-◌, ◌*◌, Bool, ◌&&◌, [], ◌∷◌, Text, ltb, leb, if◌then◌else◌}
use bsc_thesis.Condition.{Doubles}

abbrev is_digit : ℕ → Bool
is_digit c = leb b'0' c && leb c b'9'

abbrev digits_length : Text → ℕ
digits_length [] = 0
digits_length (c ∷ s) = let rest = digits_length s in if is_digit c then suc rest else 0

abbrev digits_value : ℕ → Text → ℕ
digits_value acc [] = acc
digits_value acc (c ∷ s) =
    let rest = digits_value (acc * 10 + (c - b'0')) s in if is_digit c then rest else acc

abbrev pub integers : Doubles
integers = record {
  Double = ℕ;
  strtod_length = digits_length;
  strtod = digits_value 0;
  in_range = λ s. ltb (digits_length s) 309;
  lt = ltb;
  le = leb;
}
