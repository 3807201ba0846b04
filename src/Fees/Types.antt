-- ===== src/Fees/Types.antt =====
-- schema/fee.go, and the interface of github.com/shopspring/decimal.
use arseeding.Prelude.{ℕ, Text, Bool, ◌≡◌}
use arseeding.Effect.{Result, ok}

-- int64, never negative
pub record ArFee : Type 0 where
  pub base : ℕ
  pub per_chunk : ℕ

pub record Decimals : Type 1 where
  pub Decimal : Type 0
  -- `Add`, `Sub`, `Mul`, `NewFromInt` and `LessThan(decimal.NewFromInt(0))`
  pub add_decimal : Decimal → Decimal → Decimal
  pub sub_decimal : Decimal → Decimal → Decimal
  pub mul_decimal : Decimal → Decimal → Decimal
  pub decimal_from_int : ℕ → Decimal
  pub is_negative : Decimal → Bool
  -- the zero value, which `NewFromString` returns beside an error
  pub zero_decimal : Decimal
  pub decimal_from_string : Text → Result Decimal
  pub decimal_string : Decimal → Text
  pub decimal_from_string-decimal_string :
      (d : Decimal) → decimal_from_string (decimal_string d) ≡ ok d

module _ ⦃dec : Decimals⦄ where
  pub record Fee : Type 0 where
    pub currency : Text
    pub decimals : ℕ
    pub base : dec.Decimal
    pub per_chunk : dec.Decimal

pub record RespFee : Type 0 where
  pub currency : Text
  pub decimals : ℕ
  pub final_fee : Text
