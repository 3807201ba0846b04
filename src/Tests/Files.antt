-- ===== src/Tests/Files.antt =====
-- A file of six bytes that is served in part.
use arseeding.Prelude.{ℕ, ◌<◌, ◌≤◌, arith, ◌≡◌, refl, Text, Bytes, codes, text_eq, some, [], ◌∷◌}
use arseeding.Prelude.Int.{pos}
use arseeding.Effect.{ok}
use arseeding.Store.Numbers.{atoi, parse_uint}
use arseeding.Http.Paths.{before, after}
use arseeding.Api.Range.{
  FileReads, Written, split_in_two, start_end, minus, diff, parse_range, partial_content,
  data_range_response,
}
use arseeding.Api.Served.{Sent, data_range_response-Sent}
use arseeding.Api.Files.{TmpFiles, Moves}
use arseeding.Api.Counts.{IsBalanced, data_response-IsBalanced}
use arseeding.Api.Files.{data_response}
use arseeding.Prelude.Slices.{drop}

-- Every read gets all that it asks for.
pub all_read : (k n : ℕ) → 0 < k → ok k ≡ ok n → (0 < n) × (n ≤ k)
all_read k n more got = let e : k ≡ n = cc in (omega arith, omega arith)

abbrev pub all_at_once : FileReads
all_at_once = record { read = λ p k. ok k; read_ok = λ p k n more got. all_read k n more got }

abbrev six : Bytes
six = codes "abcdef"

abbrev range_header : Text
range_header = codes "ytes=1-3"

one_to_three : parse_range 6 (b'b' ∷ range_header) ≡ ok (pos 1, pos 3)
unfolding parse_range split_in_two before after start_end atoi parse_uint text_eq minus diff
one_to_three = refl

data_range_response-Sent_example :
    (w : Written) × (data_range_response ⦃f = all_at_once⦄ 4 (ok tt) (b'b' ∷ range_header) six
      ≡ some (partial_content (pos 1) (pos 3) 6 (pos 3) w))
    × Sent ⦃f = all_at_once⦄ 3 (drop 1 six) w
data_range_response-Sent_example =
    data_range_response-Sent ⦃f = all_at_once⦄ 4 1 3 b'b' range_header six one_to_three
      (omega arith) (omega arith) (omega arith)

abbrev done : Moves
done = record { rename = ok tt; reopen = ok tt }

-- Another request uses the file.
abbrev one_in_use : TmpFiles
one_in_use = record {
  tmp_file_map = (codes "./tmpFile/ip-read-id", pos 1) ∷ [];
  files = (codes "new", six) ∷ [];
}

data_response-IsBalanced_example : IsBalanced one_in_use (
    data_response ⦃f = all_at_once⦄ 4
      (ok tt)
      done
      (b'b' ∷ range_header)
      (codes "ip")
      (some (codes "new", six))
      []
      []
      (codes "id")
      one_in_use)
data_response-IsBalanced_example =
    data_response-IsBalanced ⦃f = all_at_once⦄ 4 (ok tt) done (b'b' ∷ range_header) (codes "ip")
      (some (codes "new", six)) [] [] (codes "id") one_in_use refl
