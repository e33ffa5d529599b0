-- ===== src/Numeric.antt =====
-- The numbers of the database and of the messages: the conversions of pkg/common/utils.go between
-- `pgtype.Numeric`, `*big.Int` and decimal text. A `*big.Int` that may be nil is an `Option ℤ`.
pub mod Decimal
pub mod Laws
mod Tests
use spotted_network.Base.{
  ℕ, zero, suc, ◌+◌, ◌-◌, ◌*◌, ◌/◌, ◌%◌, ◌^◌, String, Bool, true, false, Option, none, some, ◌==◌,
  if◌then◌else◌, str_eq,
}
use spotted_network.Base.Int.{ℤ, pos, negsuc, sub_ℕ}
use spotted_network.Base.Outcome.{Outcome, ok, err, panic, message}
use Decimal.{to_string, set_string}

-- `pgtype.Numeric`: the number `int * 10 ^ exp`, or NULL. Its NaN and infinity are not used.
pub record Numeric : Type 0 where
  pub int : Option ℤ
  pub exp : ℤ
  pub valid : Bool

-- `new(big.Int).Exp(10, n, nil)`
abbrev pub pow10 : ℕ → ℕ
pow10 n = 10 ^ n

abbrev pub mul_ℤ : ℤ → ℕ → ℤ
mul_ℤ (pos n) k = pos (n * k)
mul_ℤ (negsuc n) k = sub_ℕ 0 (suc n * k)

-- `big.Int.Div` and the remainder of `DivMod`, Euclidean, by a positive divisor
abbrev pub div_ℤ : ℤ → ℕ → ℤ
div_ℤ (pos n) k = pos (n / k)
div_ℤ (negsuc n) k = negsuc (n / k)

abbrev pub mod_ℤ : ℤ → ℕ → ℕ
mod_ℤ (pos n) k = n % k
mod_ℤ (negsuc n) k = k - 1 - n % k

-- The tests of `NumericToBigInt` on the exponent, and on a nil integer where it is read.
convert : ℤ → Option ℤ → Outcome (Option ℤ)
convert (pos zero) i = ok i
convert (pos (suc e)) none = panic
convert (pos (suc e)) (some i) = ok (some (mul_ℤ i (pow10 (suc e))))
convert (negsuc e) none = panic
convert (negsuc e) (some i) =
    if mod_ℤ i (pow10 (suc e)) == 0
    then ok (some (div_ℤ i (pow10 (suc e))))
    else err (message "cannot convert to integer")

-- `NumericToBigInt`
unfoldable pub numeric_to_big_int : Numeric → Outcome (Option ℤ)
unfolding convert
numeric_to_big_int n = convert n.exp n.int

-- The tests of `NumericToString` on a nil integer and on the exponent.
print : Option ℤ → ℤ → String
print none _ = "0"
print (some i) (pos zero) = to_string i
print (some i) (pos (suc e)) = to_string (mul_ℤ i (pow10 (suc e)))
print (some i) (negsuc e) = to_string (div_ℤ i (pow10 (suc e)))

-- `NumericToString`: NULL and nil read as 0, and a remainder is dropped.
unfoldable pub numeric_to_string : Numeric → String
unfolding print
numeric_to_string n = if n.valid then print n.int n.exp else "0"

-- `StringToBigInt`: nil where the text is no number
unfoldable pub string_to_big_int : String → Option ℤ
string_to_big_int s = if str_eq s "" then some (pos 0) else set_string s

-- `BigIntToNumeric`
unfoldable pub big_int_to_numeric : Option ℤ → Numeric
big_int_to_numeric x = record { int = x; exp = pos 0; valid = true }

-- `StringToNumeric`
unfoldable pub string_to_numeric : String → Numeric
unfolding string_to_big_int big_int_to_numeric
string_to_numeric s = big_int_to_numeric (string_to_big_int s)
