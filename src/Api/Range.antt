-- ===== src/Api/Range.antt =====
-- api.go: `dataRangeResponse`, which serves a range of a file. The content of the file stands for the
-- file. `none` stands for a loop that has used up its fuel.
use arseeding.Prelude.{
  ℕ, zero, suc, ◌+◌, ◌-◌, ◌*◌, ◌<◌, ◌≤◌, Text, Bytes, codes, text_eq, ◌≡◌, ◌==◌, ltb, leb, length,
  Option, none, some, [], ◌∷◌, ◌++◌, if◌then◌else◌,
}
use arseeding.Prelude.Int.{ℤ, pos, negsuc, wrap64}
use arseeding.Prelude.Slices.{take, drop}
use arseeding.Prelude.Maps.{map_option}
use arseeding.Effect.{Error, Result, ok, err, other}
use arseeding.Store.Numbers.{atoi}
use arseeding.Http.Paths.{before, after}

-- `strings.Split(text, sep)` where it has two parts
abbrev pub no_more : ℕ → Text → Option Text → Option (Text × Text)
no_more sep first none = none
no_more sep first (some second) = elim (after sep second) [
  | none ↦ some (first, second)
  | some third ↦ none
]

unfoldable pub split_in_two : ℕ → Text → Option (Text × Text)
split_in_two sep text = no_more sep (before sep text) (after sep text)

-- a - b of two numbers, without wrap-around
unfoldable pub diff : ℕ → ℕ → ℤ
diff a b = if leb b a then pos (a - b) else negsuc (b - a - 1)

unfoldable pub minus : ℤ → ℤ → ℤ
minus (pos a) (pos b) = diff a b
minus (pos a) (negsuc b) = pos (a + suc b)
minus (negsuc a) (pos b) = negsuc (a + b)
minus (negsuc a) (negsuc b) = diff (suc b) (suc a)

unfoldable pub plus_one : ℤ → ℤ
plus_one (pos a) = pos (suc a)
plus_one (negsuc zero) = pos 0
plus_one (negsuc (suc a)) = negsuc a

abbrev pub number_or : ℤ → Result ℤ → ℤ
number_or default (ok n) = n
number_or default (err e) = default

abbrev pub invalid_range : Error
invalid_range = other (codes "Invalid Range header")

-- start and end of `start-end`; a number that does not parse has a default
unfoldable pub start_end : ℕ → Text → Text → ℤ × ℤ
start_end size [] last =
    let end = number_or (minus (pos size) (pos 1)) (atoi last) in
    (wrap64 (minus (pos size) end), minus (pos size) (pos 1))
start_end size (c ∷ first) [] = (number_or (pos 0) (atoi (c ∷ first)), minus (pos size) (pos 1))
start_end size (c ∷ first) (d ∷ last) =
    (number_or (pos 0) (atoi (c ∷ first)), number_or (minus (pos size) (pos 1)) (atoi (d ∷ last)))

abbrev pub range_parts : ℕ → Option (Text × Text) → Result (ℤ × ℤ)
range_parts size none = err invalid_range
range_parts size (some (first, last)) = ok (start_end size first last)

abbrev pub of_unit : ℕ → Option (Text × Text) → Result (ℤ × ℤ)
of_unit size none = err invalid_range
of_unit size (some (unit, ranges)) =
    if text_eq unit (codes "bytes")
    then range_parts size (split_in_two b'-' ranges)
    else err invalid_range

unfoldable pub parse_range : ℕ → Text → Result (ℤ × ℤ)
parse_range size range_header = of_unit size (split_in_two b'=' range_header)

-- `contentLength := end - start + 1`
unfoldable pub content_length : ℤ → ℤ → ℤ
content_length start end = wrap64 (plus_one (minus end start))

-- `os.File.Read` on a position and a number of bytes, of which all are there: the number that is read
pub record FileReads : Type 0 where
  pub read : ℕ → ℕ → Result ℕ
  -- A read without an error moves on, and stays within the buffer.
  pub read_ok : (p k n : ℕ) → 0 < k → read p k ≡ ok n → (0 < n) × (n ≤ k)

abbrev pub buffer_len : ℕ
buffer_len = 1024 * 1024

abbrev pub least : ℕ → ℕ → ℕ
least a b = if ltb b a then b else a

-- what was written to the response, and how the handler returns
abbrev pub Written : Type 0
Written = Bytes × Result (Unit {0})

abbrev pub behind : Bytes → Written → Written
behind chunk (body, r) = (chunk ++ body, r)

abbrev pub read_failed : Written
read_failed = ([], err (other (codes "Error reading file")))

pub data RangeReply : Type 0 where
  -- the error of `Stat` or of the header, before anything is written
  no_range : Error → RangeReply
  -- `c.File`
  whole_file : Bytes → RangeReply
  -- status 206: start, end and size of Content-Range, Content-Length, and what follows the headers
  partial_content : ℤ → ℤ → ℕ → ℤ → Written → RangeReply

module _ ⦃f : FileReads⦄ where
  -- The loop, at position `p` with `rest` behind it. At the end of the file a read is an error.
  unfoldable pub send_range : ℕ → Bytes → ℕ → ℕ → Option Written
  send_range zero rest p remaining = none
  send_range (suc fuel) rest p remaining =
      let there = least (least buffer_len remaining) (length rest) in
      let next = λ (n : ℕ).
        map_option (behind (take n rest)) (send_range fuel (drop n rest) (p + n) (remaining - n)) in
      if remaining == 0
      then some ([], ok tt)
      else if there == 0
      then some read_failed
      else elim (f.read p there) [ ok n ↦ next n | err e ↦ some read_failed ]

  -- `Seek` refuses a position below 0; a length below 1 sends nothing.
  unfoldable pub seek_and_send : ℕ → Bytes → ℤ → ℤ → Option Written
  seek_and_send fuel file (negsuc start) len = some ([], err (other (codes "error seeking file")))
  seek_and_send fuel file (pos start) (negsuc len) = some ([], ok tt)
  seek_and_send fuel file (pos start) (pos len) = send_range fuel (drop start file) start len

  abbrev pub send_parsed : ℕ → Bytes → Result (ℤ × ℤ) → Option RangeReply
  send_parsed fuel file (err e) = some (no_range e)
  send_parsed fuel file (ok (start, end)) =
      let len = content_length start end in
      map_option (partial_content start end (length file) len) (seek_and_send fuel file start len)

  unfoldable pub data_range_response : ℕ → Result (Unit {0}) → Text → Bytes → Option RangeReply
  data_range_response fuel (err e) header file =
      some (no_range (other (codes "Error getting file info")))
  data_range_response fuel (ok u) [] file = some (whole_file file)
  data_range_response fuel (ok u) (c ∷ header) file =
      send_parsed fuel file (parse_range (length file) (c ∷ header))
