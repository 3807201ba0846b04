-- ===== src/Fees/Chunks.antt =====
-- What `calculatePrice` (api.go) charges for.
use arseeding.Prelude.{ℕ, ◌+◌, ◌*◌, ◌%◌, ◌^◌, ◌≤◌, ◌<◌, arith, ◌≡◌, refl, ltb, true}
use arseeding.Prelude.Int.{pos, wrap64}
use arseeding.Fees.Types.{ArFee}
use arseeding.Fees.Price.{max_chunk_size, fee_chunks, calculate_price}

wrap_small : (n : ℕ) → n < 2 ^ 63 → wrap64 (pos n) ≡ pos n
unfolding wrap64
wrap_small n h =
    let same : n % 2 ^ 64 ≡ n = omega arith in
    let fits : ltb n (2 ^ 63) ≡ true = ground arith in rw (same, fits) refl

-- The chunks that are paid for hold the data, and one chunk less does not.
fee_chunks-cover :
    (n : ℕ)
    → (n ≤ fee_chunks (pos n) * max_chunk_size)
      × (fee_chunks (pos n) * max_chunk_size < n + max_chunk_size)
unfolding fee_chunks
fee_chunks-cover n = ground arith

-- Where the price does not reach 2^63, it is the base fee and the fee for each of `k` chunks, where `k`
-- is the least number of chunks of 256 KB that hold the data.
pub calculate_price-least :
    (fee : ArFee) (n : ℕ)
    → fee.base + fee_chunks (pos n) * fee.per_chunk < 2 ^ 63
    → ((k : ℕ) × (calculate_price fee (pos n) ≡ pos (fee.base + k * fee.per_chunk))
        × (n ≤ k * max_chunk_size)
        × (k * max_chunk_size < n + max_chunk_size))
unfolding calculate_price
calculate_price-least fee n small =
    let k = fee_chunks (pos n) in
    let total = fee.base + k * fee.per_chunk in
    (k, wrap_small total small, (fee_chunks-cover n).0, (fee_chunks-cover n).1)
