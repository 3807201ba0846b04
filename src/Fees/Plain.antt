-- ===== src/Fees/Plain.antt =====
-- A value of the interface of decimals for the tests: a natural number, or a number below zero.
use arseeding.Prelude.{
  ℕ, ◌+◌, ◌-◌, ◌*◌, ltb, Text, codes, Bool, true, false, ◌≡◌, refl, Option, none, some, [], ◌∷◌,
  if◌then◌else◌,
}
use arseeding.Effect.{Result, ok, err, other}
use arseeding.Fees.Types.{Decimals}

abbrev both : (ℕ → ℕ → Option ℕ) → Option ℕ → Option ℕ → Option ℕ
both f (some a) (some b) = f a b
both f _ _ = none

abbrev below_zero : Option ℕ → Bool
below_zero none = true
below_zero (some a) = false

abbrev read : Text → Result (Option ℕ)
read [] = ok none
read (n ∷ []) = ok (some n)
read (n ∷ m ∷ text) = err (other (codes "can't convert to decimal"))

abbrev print : Option ℕ → Text
print none = []
print (some n) = n ∷ []

pub read-print : (d : Option ℕ) → read (print d) ≡ ok d
read-print none = refl
read-print (some n) = refl

unfoldable pub naturals : Decimals
naturals = record {
  Decimal = Option ℕ;
  add_decimal = both (λ a b. some (a + b));
  sub_decimal = both (λ a b. if ltb a b then none else some (a - b));
  mul_decimal = both (λ a b. some (a * b));
  decimal_from_int = λ n. some n;
  is_negative = below_zero;
  zero_decimal = some 0;
  decimal_from_string = read;
  decimal_string = print;
  decimal_from_string-decimal_string = read-print;
}
