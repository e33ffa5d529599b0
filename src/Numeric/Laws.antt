-- ===== src/Numeric/Laws.antt =====
-- What the conversions keep: the value of a number on its way through text and the database.
use native.Mathlib.Nat.{pow-suc}
use spotted_network.Base.{
  ◌/◌, ℕ, zero, suc, ◌*◌, ◌<◌, ◌≡◌, refl, ap, Bool, true, false, Option, none, some, arith, eq_iff,
  str_eq, inl, inr, Bool-cases, ◌==◌,
}
use spotted_network.Base.Int.{ℤ, pos, negsuc, eq_of_parts}
use spotted_network.Base.Outcome.{ok}
use spotted_network.Numeric.Decimal.{to_string, set_string, set_string-to_string}
use spotted_network.Numeric.{
  Numeric, pow10, mul_ℤ, div_ℤ, mod_ℤ, convert, print, numeric_to_big_int, numeric_to_string,
  string_to_big_int, big_int_to_numeric, string_to_numeric,
}

set_string-nil : set_string "" ≡ none
unfolding set_string
set_string-nil = refl

to_string-ne-nil : (x : ℤ) → str_eq (to_string x) "" ≡ false
to_string-ne-nil x = elim (Bool-cases (str_eq (to_string x) "")) [
  | inl empty ↦
      let e : to_string x ≡ "" = (eq_iff _ _).0 empty in
      absurd (cc (set_string-to_string x, ap set_string e, set_string-nil))
  | inr full ↦ full
]

-- `StringToBigInt` reads back what `big.Int.String` prints.
pub string_to_big_int-to_string : (x : ℤ) → string_to_big_int (to_string x) ≡ some x
unfolding string_to_big_int
string_to_big_int-to_string x = rw (to_string-ne-nil x) (set_string-to_string x)

pow10-pos : (n : ℕ) → 0 < pow10 n
pow10-pos zero = omega arith
pow10-pos (suc n) = rw (pow-suc 10 n) (omega (arith, pow10-pos n))

mul-div : (i : ℤ) (k : ℕ) → 0 < k → mod_ℤ i k ≡ 0 → mul_ℤ (div_ℤ i k) k ≡ i
mul-div (pos n) k h e = ap pos (grind arith)
mul-div (negsuc n) k h e =
    let d : suc (n / k) * k ≡ suc n = grind arith in eq_of_parts _ _ (rw d (ground arith))

-- `v` is the integer of `n` with its exponent applied.
abbrev pub IsExact : Numeric → ℤ → Type 0
IsExact n v = elim n.exp [
  | pos e ↦ (i : ℤ) × (n.int ≡ some i) × (v ≡ mul_ℤ i (pow10 e))
  | negsuc e ↦ (i : ℤ) × (n.int ≡ some i) × (mul_ℤ v (pow10 (suc e)) ≡ i)
]

mul-one : (i : ℤ) → mul_ℤ i (pow10 0) ≡ i
mul-one (pos n) = ap pos (omega arith)
mul-one (negsuc n) = ground arith

convert-IsExact :
    (e : ℤ) (i : Option ℤ) (ok_bool : Bool) (v : ℤ)
    → convert e i ≡ ok (some v)
    → IsExact (record { int = i; exp = e; valid = ok_bool }) v
unfolding convert
convert-IsExact (pos zero) (some i) b v h = (i, refl, cc (mul-one i))
convert-IsExact (pos zero) none b v h = cc
convert-IsExact (pos (suc e)) (some i) b v h = (i, refl, cc)
convert-IsExact (pos (suc e)) none b v h = cc
convert-IsExact (negsuc e) (some i) b v h = elim (Bool-cases (mod_ℤ i (pow10 (suc e)) == 0)) [
  | inl whole ↦
      let w : div_ℤ i (pow10 (suc e)) ≡ v = ground arith in
      (i, refl, rw (← w) (mul-div i _ (pow10-pos (suc e)) (ground arith)))
  | inr part ↦ absurd (ground arith)
]
convert-IsExact (negsuc e) none b v h = cc

-- A conversion to a whole number that succeeds is exact: the number read back is the integer with its
-- exponent applied, and nothing was rounded.
pub numeric_to_big_int-IsExact :
    (n : Numeric) (v : ℤ) → numeric_to_big_int n ≡ ok (some v) → IsExact n v
unfolding numeric_to_big_int
numeric_to_big_int-IsExact n v h = convert-IsExact n.exp n.int n.valid v h

print-convert : (e : ℤ) (i : Option ℤ) (v : ℤ) → convert e i ≡ ok (some v) → print i e ≡ to_string v
unfolding convert print
print-convert (pos zero) (some i) v h = ap to_string (cc)
print-convert (pos zero) none v h = cc
print-convert (pos (suc e)) (some i) v h = ap to_string (cc)
print-convert (pos (suc e)) none v h = cc
print-convert (negsuc e) (some i) v h = ap to_string (ground arith)
print-convert (negsuc e) none v h = cc

-- `NumericToString` and `NumericToBigInt` agree on every valid number that is whole.
pub numeric_to_string-numeric_to_big_int :
    (n : Numeric) (v : ℤ)
    → n.valid ≡ true
    → numeric_to_big_int n ≡ ok (some v)
    → numeric_to_string n ≡ to_string v
unfolding numeric_to_big_int numeric_to_string
numeric_to_string-numeric_to_big_int n v valid h = rw valid (print-convert n.exp n.int v h)

-- An integer that is printed, read back as a number and converted comes back unchanged.
pub numeric_round_trip :
    (v : ℤ) → numeric_to_big_int (string_to_numeric (to_string v)) ≡ ok (some v)
unfolding numeric_to_big_int string_to_numeric big_int_to_numeric convert
numeric_round_trip v = ap ok (string_to_big_int-to_string v)
