-- ===== src/Store/Numbers.antt =====
-- store.go (`itob`, `btoi`) with the parts of encoding/binary and strconv that the offsets use.
-- A `uint64` is a number below `2 ^ 64`; what the source adds or subtracts wraps there.
use arseeding.Prelude.{
  ℕ, zero, suc, ◌+◌, ◌-◌, ◌*◌, ◌/◌, ◌%◌, ◌^◌, ◌<◌, Text, Bytes, codes, ◌≡◌, refl, ◌&&◌, [], ◌∷◌,
  ◌++◌, Option, none, some, arith, leb, ltb, ◌==◌, if◌then◌else◌,
}
use arseeding.Prelude.Int.{ℤ, pos, negsuc}
use arseeding.Effect.{Error, Result, ok, err, other, panic}
use arseeding.Goar.Types.{Goar}

abbrev pub u64_mod : ℕ
u64_mod = 2 ^ 64

-- `uint64` arithmetic
abbrev pub add64 : ℕ → ℕ → ℕ
add64 a b = (a + b) % u64_mod

abbrev pub sub64 : ℕ → ℕ → ℕ
sub64 a b = (a + u64_mod - b) % u64_mod

abbrev pub parse_error : Error
parse_error = other (codes "strconv")

-- `binary.BigEndian.PutUint64`
put_uint64 : ℕ → Bytes
put_uint64 v =
    v / 2 ^ 56 % 256
    ∷ v / 2 ^ 48 % 256
    ∷ v / 2 ^ 40 % 256
    ∷ v / 2 ^ 32 % 256
    ∷ v / 2 ^ 24 % 256
    ∷ v / 2 ^ 16 % 256
    ∷ v / 2 ^ 8 % 256
    ∷ v % 256
    ∷ []

-- `binary.BigEndian.Uint64`, which panics on fewer than eight bytes
uint64 : Bytes → Result ℕ
uint64 (a ∷ b ∷ c ∷ d ∷ e ∷ f ∷ g ∷ h ∷ _) =
    ok (a * 2 ^ 56 + b * 2 ^ 48 + c * 2 ^ 40 + d * 2 ^ 32 + e * 2 ^ 24 + f * 2 ^ 16 + g * 2 ^ 8 + h)
uint64 _ = err panic

zeros : ℕ → Bytes
zeros zero = []
zeros (suc n) = 0 ∷ zeros n

uint64-put_uint64 : (v : ℕ) (rest : Bytes) → v < u64_mod → uint64 (put_uint64 v ++ rest) ≡ ok v
unfolding uint64 put_uint64
uint64-put_uint64 v rest h = ground arith

module _ ⦃g : Goar⦄ where
  abbrev decoded : Result Bytes → Result ℕ
  unfolding uint64
  decoded (ok b) = uint64 b
  decoded (err e) = err panic

  -- a 64-byte buffer, of which the first eight bytes are written
  unfoldable pub itob : ℕ → Text
  unfolding put_uint64 zeros
  itob v = g.base64_encode (put_uint64 v ++ zeros 56)

  unfoldable pub btoi : Text → Result ℕ
  unfolding uint64
  btoi t = decoded (g.base64_decode t)

  -- A 64-bit number that `itob` writes is the number that `btoi` reads.
  pub btoi-itob : (v : ℕ) → v < u64_mod → btoi (itob v) ≡ ok v
  unfolding btoi itob
  btoi-itob v h = rw (g.decode-encode (put_uint64 v ++ zeros 56)) (uint64-put_uint64 v (zeros 56) h)

-- The digits that `strconv.ParseUint` reads at base 10.
parse_digits : ℕ → Text → Option ℕ
parse_digits acc [] = some acc
parse_digits acc (c ∷ t) =
    let rest = parse_digits (acc * 10 + (c - 48)) t in
    if leb b'0' c && leb c b'9' then rest else none

-- A value that passes the word is a range error.
below : ℕ → Option ℕ → Result ℕ
below bound none = err parse_error
below bound (some n) = if ltb n bound then ok n else err parse_error

-- `strconv.ParseUint(s, 10, 64)`
unfoldable pub parse_uint : Text → Result ℕ
unfolding parse_digits below
parse_uint [] = err parse_error
parse_uint (c ∷ t) = below u64_mod (parse_digits 0 (c ∷ t))

pub parse_uint-lt : (t : Text) (n : ℕ) → parse_uint t ≡ ok n → n < u64_mod
unfolding parse_uint
parse_uint-lt [] n h = cc
parse_uint-lt (c ∷ t) n h = ground arith

signed : (ℕ → Result ℤ) → Result ℕ → Result ℤ
signed f (ok n) = f n
signed f (err e) = err e

positive : Text → Result ℤ
unfolding signed parse_digits below
positive [] = err parse_error
positive (c ∷ t) = signed (λ n. ok (pos n)) (below (2 ^ 63) (parse_digits 0 (c ∷ t)))

-- The least `int` is -(2 ^ 63).
negative : ℕ → Result ℤ
negative zero = ok (pos 0)
negative (suc n) = ok (negsuc n)

-- `strconv.Atoi`, at 64 bits
unfoldable pub atoi : Text → Result ℤ
unfolding positive negative signed parse_digits below
atoi [] = err parse_error
atoi (c ∷ t) =
    if c == b'+'
    then positive t
    else if c == b'-'
    then elim t [
      | [] ↦ err parse_error
      | d ∷ u ↦ signed negative (below (2 ^ 63 + 1) (parse_digits 0 (d ∷ u)))
    ]
    else positive (c ∷ t)

parse_uint_max :
    (parse_uint (codes "18446744073709551615") ≡ ok (u64_mod - 1))
    × (parse_uint (codes "18446744073709551616") ≡ err parse_error)
    × (parse_uint (codes "12a") ≡ err parse_error)
    × (atoi (codes "-7") ≡ ok (negsuc 6))
unfolding parse_uint atoi
parse_uint_max = (refl, refl, refl, refl)
