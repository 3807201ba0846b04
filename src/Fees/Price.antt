-- ===== src/Fees/Price.antt =====
-- api.go, bundle.go and arseeding.go: `calculatePrice`, `GetPerFee` and `CalcItemFee`.
use arseeding.Prelude.{
  ℕ, ◌+◌, ◌-◌, ◌*◌, ◌/◌, Text, codes, ◌++◌, ltb, Option, none, some, if◌then◌else◌,
}
use arseeding.Prelude.Int.{ℤ, pos, negsuc, wrap64}
use arseeding.Prelude.Maps.{Dict, lookup}
use arseeding.Effect.{Result, ok, err, other}
use arseeding.Fees.Types.{ArFee, Decimals, Fee, RespFee}

-- goar's `types.MAX_CHUNK_SIZE`
abbrev pub max_chunk_size : ℕ
max_chunk_size = 256 * 1024

-- the number of chunks that is paid for
unfoldable pub fee_chunks : ℤ → ℕ
fee_chunks (pos n) = if ltb 0 n then (n - 1) / max_chunk_size + 1 else 0
fee_chunks (negsuc n) = 0

-- The sum and the product wrap around to an int64, which may be negative.
unfoldable pub calculate_price : ArFee → ℤ → ℤ
calculate_price fee data_size = wrap64 (pos (fee.base + fee_chunks data_size * fee.per_chunk))

module _ ⦃dec : Decimals⦄ (to_upper : Text → Text) where
  unfoldable pub get_per_fee : Dict Fee → Text → Option Fee
  get_per_fee per_fees token_symbol = lookup (to_upper token_symbol) per_fees

  unfoldable pub calc_item_fee : Dict Fee → Text → ℤ → Result RespFee
  calc_item_fee per_fees currency item_size = elim (get_per_fee per_fees currency) [
    | none ↦ err (other (codes "not support currency: " ++ currency))
    | some per_fee ↦
        let chunk_fees =
          dec.mul_decimal (dec.decimal_from_int (fee_chunks item_size)) per_fee.per_chunk in
        ok (record {
          currency = per_fee.currency;
          decimals = per_fee.decimals;
          final_fee = dec.decimal_string (dec.add_decimal per_fee.base chunk_fees);
        })
  ]
