-- ===== src/Http/Paths.antt =====
-- middleware.go: `getTxIdFromPath`, `getRequestSandbox`, `getSubDomain`.
use arseeding.Prelude.{
  ℕ, zero, suc, Text, Bool, ◌&&◌, ◌||◌, ◌==◌, leb, ltb, length, Option, none, some, [], ◌∷◌,
  if◌then◌else◌,
}
use arseeding.Prelude.Maps.{map_option}

-- `strings.Split(text, sep)[0]`
unfoldable pub before : ℕ → Text → Text
before sep [] = []
before sep (c ∷ text) = let rest = before sep text in if c == sep then [] else c ∷ rest

-- `strings.SplitN(text, sep, 2)[1]`, which panics where the text has no separator: `none`
unfoldable pub after : ℕ → Text → Option Text
after sep [] = none
after sep (c ∷ text) = let rest = after sep text in if c == sep then some text else rest

-- the class `[a-zA-Z\d-_]`
unfoldable pub is_id_byte : ℕ → Bool
is_id_byte c =
    (leb b'a' c && leb c b'z')
    || ((leb b'A' c && leb c b'Z') || ((leb b'0' c && leb c b'9') || (c == b'-' || c == b'_')))

-- the first `n` bytes, where all are of the class
unfoldable pub take_id : ℕ → Text → Option Text
take_id zero text = some []
take_id (suc n) [] = none
take_id (suc n) (c ∷ text) =
    let rest = take_id n text in if is_id_byte c then map_option (λ t. c ∷ t) rest else none

abbrev pub or_empty : Option Text → Text
or_empty none = []
or_empty (some t) = t

-- `^\/?([a-zA-Z\d-_]{43})`
unfoldable pub get_tx_id_from_path : Text → Text
get_tx_id_from_path [] = []
get_tx_id_from_path (c ∷ path) =
    or_empty (if c == b'/' then take_id 43 path else take_id 43 (c ∷ path))

unfoldable pub get_request_sandbox : Text → Text
get_request_sandbox host =
    let prefix = before b'.' host in if ltb 40 (length prefix) then prefix else []

unfoldable pub get_sub_domain : Text → Text
get_sub_domain domain = before b'.' domain
