-- ===== src/Numeric/Decimal.antt =====
-- `big.Int.String` and `big.Int.SetString(s, 10)`: decimal text with an optional sign.
use Prim.Native.Char.{Char, code}
use Prim.Native.String.{String, [], ◌∷◌}
use mathlib.Core.Option
use spotted_network.Base.{
  ℕ, zero, suc, ◌+◌, ◌-◌, ◌*◌, ◌/◌, ◌%◌, ◌<◌, ◌≡◌, refl, sym, ap, ◌∙◌, Bool, true, false, ◌&&◌,
  Option, none, some, arith, ltb, leb, ◌==◌, if◌then◌else◌, inl, inr, Bool-cases,
}
use spotted_network.Base.Int.{ℤ, pos, negsuc, sub_ℕ}

abbrev pub digit : ℕ → Char
digit zero = "0"
digit (suc zero) = "1"
digit (suc (suc zero)) = "2"
digit (suc (suc (suc zero))) = "3"
digit (suc (suc (suc (suc zero)))) = "4"
digit (suc (suc (suc (suc (suc zero))))) = "5"
digit (suc (suc (suc (suc (suc (suc zero)))))) = "6"
digit (suc (suc (suc (suc (suc (suc (suc zero))))))) = "7"
digit (suc (suc (suc (suc (suc (suc (suc (suc zero)))))))) = "8"
digit _ = "9"

-- A hexadecimal digit, in small letters.
abbrev pub hex_digit : ℕ → Char
hex_digit d =
    if d == 10
    then "a"
    else if d == 11
    then "b"
    else if d == 12
    then "c"
    else if d == 13
    then "d"
    else if d == 14
    then "e"
    else if d == 15
    then "f"
    else digit d

-- The digits of `n` before `acc`, on fuel above `n`.
digits : ℕ → ℕ → String → String
digits zero n acc = acc
digits (suc f) n acc =
    let rest = digits f (n / 10) (digit (n % 10) ∷ acc) in if ltb n 10 then digit n ∷ acc else rest

nat_string : ℕ → String
unfolding digits
nat_string n = digits (suc n) n []

-- `(*big.Int).String`
unfoldable pub to_string : ℤ → String
unfolding nat_string
to_string (pos n) = nat_string n
to_string (negsuc n) = "-" ∷ nat_string (suc n)

abbrev is_digit : Char → Bool
is_digit c = leb b'0' (code c) && leb (code c) b'9'

parse_digits : ℕ → String → Option ℕ
parse_digits acc [] = some acc
parse_digits acc (c ∷ s) =
    let rest = parse_digits (acc * 10 + (code c - b'0')) s in if is_digit c then rest else none

unfoldable pub parse_nat : String → Option ℕ
unfolding parse_digits
parse_nat [] = none
parse_nat (c ∷ s) = parse_digits 0 (c ∷ s)

-- `new(big.Int).SetString(s, 10)`: `none` where it reports failure
unfoldable pub set_string : String → Option ℤ
unfolding parse_nat
set_string [] = none
set_string (c ∷ s) =
    if code c == b'-'
    then Option.map (sub_ℕ 0) (parse_nat s)
    else if code c == b'+'
    then Option.map pos (parse_nat s)
    else Option.map pos (parse_nat (c ∷ s))

code-digit : (d : ℕ) → d < 10 → code (digit d) ≡ b'0' + d
code-digit zero h = refl
code-digit (suc zero) h = refl
code-digit (suc (suc zero)) h = refl
code-digit (suc (suc (suc zero))) h = refl
code-digit (suc (suc (suc (suc zero)))) h = refl
code-digit (suc (suc (suc (suc (suc zero))))) h = refl
code-digit (suc (suc (suc (suc (suc (suc zero)))))) h = refl
code-digit (suc (suc (suc (suc (suc (suc (suc zero))))))) h = refl
code-digit (suc (suc (suc (suc (suc (suc (suc (suc zero)))))))) h = refl
code-digit (suc (suc (suc (suc (suc (suc (suc (suc (suc zero))))))))) h = refl
code-digit (suc (suc (suc (suc (suc (suc (suc (suc (suc (suc d)))))))))) h = absurd (omega arith)

is_digit-digit : (d : ℕ) → d < 10 → is_digit (digit d) ≡ true
is_digit-digit d h = rw (code-digit d h) (ground arith)

parse_digits-digit :
    (a d : ℕ) (s : String) → d < 10 → parse_digits a (digit d ∷ s) ≡ parse_digits (a * 10 + d) s
unfolding parse_digits
parse_digits-digit a d s h =
    let e : code (digit d) - b'0' ≡ d = rw (code-digit d h) (omega arith) in
    rw (is_digit-digit d h) (ap (λ k. parse_digits (a * 10 + k) s) e)

parse_digits-digits :
    (f n : ℕ) (acc : String) → n < f → parse_digits 0 (digits f n acc) ≡ parse_digits n acc
unfolding digits
parse_digits-digits zero n acc h = absurd (omega arith)
parse_digits-digits (suc f) n acc h = elim (Bool-cases (ltb n 10)) [
  | inl small ↦ rw small (ground (arith, parse_digits-digit 0 n acc))
  | inr large ↦ rw large (
      ground (
        arith,
        parse_digits-digits f (n / 10) (digit (n % 10) ∷ acc),
        parse_digits-digit (n / 10) (n % 10) acc,
      ))
]

parse_digits-nil : (n : ℕ) → parse_digits n [] ≡ some n
unfolding parse_digits
parse_digits-nil n = refl

digits_head :
    (f n : ℕ) (acc : String)
    → (d : ℕ) × (rest : String) × (d < 10) × (digits (suc f) n acc ≡ digit d ∷ rest)
unfolding digits
digits_head zero n acc = elim (Bool-cases (ltb n 10)) [
  | inl small ↦ (n, acc, ground arith, rw small)
  | inr large ↦ (n % 10, acc, ground arith, rw large)
]
digits_head (suc f) n acc = elim (Bool-cases (ltb n 10)) [
  | inl small ↦ (n, acc, ground arith, rw small)
  | inr large ↦
      let (d, rest, h, e) = digits_head f (n / 10) (digit (n % 10) ∷ acc) in
      (d, rest, h, rw large e)
]

nat_string_head : (n : ℕ) → (d : ℕ) × (rest : String) × (d < 10) × (nat_string n ≡ digit d ∷ rest)
unfolding nat_string
nat_string_head n = digits_head n n []

parse_digits-nat_string : (n : ℕ) → parse_digits 0 (nat_string n) ≡ some n
unfolding nat_string
parse_digits-nat_string n = parse_digits-digits (suc n) n [] (omega arith) ∙ parse_digits-nil n

parse_nat-cons : (c : Char) (s : String) → parse_nat (c ∷ s) ≡ parse_digits 0 (c ∷ s)
unfolding parse_nat
parse_nat-cons c s = refl

parse_nat-nat_string : (n : ℕ) → parse_nat (nat_string n) ≡ some n
parse_nat-nat_string n =
    let (d, rest, h, e) = nat_string_head n in
    ap parse_nat e ∙ parse_nat-cons _ _ ∙ ap (parse_digits 0) (sym e) ∙ parse_digits-nat_string n

set_string-digit :
    (d : ℕ) (rest s : String)
    → d < 10
    → s ≡ digit d ∷ rest
    → set_string s ≡ Option.map pos (parse_nat s)
unfolding set_string
set_string-digit d rest s h e =
    let k : (code (digit d) == b'-') ≡ false = rw (code-digit d h) (ground arith) in
    let l : (code (digit d) == b'+') ≡ false = rw (code-digit d h) (ground arith) in
    rw e (rw (k, l))

set_string-minus : (s : String) → set_string ("-" ∷ s) ≡ Option.map (sub_ℕ 0) (parse_nat s)
unfolding set_string
set_string-minus s = refl

-- Reading back the decimal text of an integer gives that integer.
pub set_string-to_string : (x : ℤ) → set_string (to_string x) ≡ some x
unfolding to_string
set_string-to_string (pos n) =
    let (d, rest, h, e) = nat_string_head n in
    set_string-digit d rest (nat_string n) h e ∙ ap (Option.map pos) (parse_nat-nat_string n)
set_string-to_string (negsuc n) =
    set_string-minus (nat_string (suc n))
    ∙ ap (Option.map (sub_ℕ 0)) (parse_nat-nat_string (suc n))
    ∙ ground arith
