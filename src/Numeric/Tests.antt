-- ===== src/Numeric/Tests.antt =====
-- The theorems on the conversions at concrete numbers.
use spotted_network.Base.{◌≡◌, refl, true, some}
use spotted_network.Base.Int.{pos, negsuc}
use spotted_network.Base.Outcome.{ok}
use spotted_network.Numeric.{Numeric, numeric_to_big_int, string_to_numeric}
use spotted_network.Numeric.Decimal.{to_string}
use spotted_network.Numeric.Laws.{numeric_round_trip}

-- 4200 / 100
abbrev forty_two : Numeric
forty_two = record { int = some (pos 4200); exp = negsuc 1; valid = true }

converted : numeric_to_big_int forty_two ≡ ok (some (pos 42))
unfolding numeric_to_big_int
converted = refl

numeric_round_trip_example :
    numeric_to_big_int (string_to_numeric (to_string (negsuc 41))) ≡ ok (some (negsuc 41))
numeric_round_trip_example = numeric_round_trip (negsuc 41)
