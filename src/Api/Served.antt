-- ===== src/Api/Served.antt =====
-- api.go: what `dataRangeResponse` sends.
use arseeding.Prelude.{
  ℕ, zero, suc, ◌+◌, ◌-◌, ◌^◌, ◌%◌, ◌<◌, ◌≤◌, Text, Bytes, ◌≡◌, refl, ◌∙◌, ap, subst, ◌⊎◌, inl, inr,
  true, false, Bool-cases, ◌==◌, ltb, leb, length, arith, some, [], ◌∷◌, ◌++◌,
}
use arseeding.Prelude.Int.{pos, wrap64}
use arseeding.Prelude.Slices.{take, drop, length-drop, take-take-drop}
use arseeding.Effect.{Error, ok, err, Result-cases}
use arseeding.Api.Range.{
  FileReads, Written, behind, buffer_len, least, read_failed, send_range, seek_and_send,
  content_length, plus_one, minus, diff, parse_range, partial_content, data_range_response,
}

module _ ⦃f : FileReads⦄ where
  abbrev pub ReadFails : Type 0
  ReadFails = (p : ℕ) × (k : ℕ) × (e : Error) × (f.read p k ≡ err e)

  -- What was written of `n` bytes of a file from a position on: all of them, or, beside an error, the
  -- first of them, where the file has fewer or a read fails.
  abbrev pub Sent : ℕ → Bytes → Written → Type 0
  Sent n rest (body, ok u) = (n ≤ length rest) × (body ≡ take n rest)
  Sent n rest (body, err e) =
      ((length rest < n) ⊎ ReadFails) × ((m : ℕ) × (m ≤ n) × (body ≡ take m rest))

  short-drop :
      (k n : ℕ) (rest : Bytes) → k ≤ length rest → length (drop k rest) < n → length rest < k + n
  short-drop k n rest h short = omega (arith, length-drop k rest)

  Sent-behind :
      (k n : ℕ) (rest : Bytes) (w : Written)
      → k ≤ length rest
      → Sent n (drop k rest) w
      → Sent (k + n) rest (behind (take k rest) w)
  Sent-behind k n rest (body, ok u) h (fits, all) =
      (omega (arith, length-drop k rest), ap (λ l. take k rest ++ l) all ∙ take-take-drop k n rest)
  Sent-behind k n rest (body, err e) h (inl short, (m, le, some_of)) = (
    inl (short-drop k n rest h short),
    (k + m, omega arith, ap (λ l. take k rest ++ l) some_of ∙ take-take-drop k m rest),
  )
  Sent-behind k n rest (body, err e) h (inr fails, (m, le, some_of)) = (
    inr fails,
    (k + m, omega arith, ap (λ l. take k rest ++ l) some_of ∙ take-take-drop k m rest),
  )

take_none : (rest : Bytes) → [] ≡ take 0 rest
unfolding take
take_none rest = refl

module _ ⦃f : FileReads⦄ where
  send_range-Sent :
      (fuel : ℕ) (rest : Bytes) (p n : ℕ)
      → n < fuel
      → (w : Written) × (send_range fuel rest p n ≡ some w) × Sent n rest w
  unfolding send_range
  send_range-Sent zero rest p n h = absurd (omega arith)
  send_range-Sent (suc fuel) rest p zero h = (([], ok tt), refl, (omega arith, take_none rest))
  send_range-Sent (suc fuel) rest p (suc n) h =
      let there = least (least buffer_len (suc n)) (length rest) in
      let going : (suc n == 0) ≡ false = ground arith in
      elim (Bool-cases (there == 0)) [
        | inl over ↦ (
          read_failed,
          rw (going, over) refl,
          (inl (ground arith), (0, omega arith, take_none rest)),
        )
        | inr more ↦ elim (Result-cases (f.read p there)) [
          | inl (k, got) ↦
              let (moves, fits) = f.read_ok p there k (ground arith) got in
              let (w, sent, rest_sent) =
                send_range-Sent fuel (drop k rest) (p + k) (suc n - k) (ground arith) in
              let whole : k + (suc n - k) ≡ suc n = ground arith in
              (
                behind (take k rest) w,
                rw (going, more, got, sent) refl,
                subst (λ j. Sent j rest (behind (take k rest) w)) whole
                    (Sent-behind k (suc n - k) rest w (ground arith) rest_sent),
              )
          | inr (e, failed) ↦ (
            read_failed,
            rw (going, more, failed) refl,
            (inr (p, there, e, failed), (0, omega arith, take_none rest)),
          )
        ]
      ]

content_length-within :
    (a b : ℕ) → a ≤ b → b + 1 < 2 ^ 63 → content_length (pos a) (pos b) ≡ pos (suc b - a)
unfolding content_length wrap64 plus_one minus diff
content_length-within a b le small =
    let no_wrap : (suc (b - a)) % 2 ^ 64 ≡ suc b - a = omega arith in
    let in_order : leb a b ≡ true = ground arith in
    let fits : ltb (suc b - a) (2 ^ 63) ≡ true = ground arith in rw (in_order, no_wrap, fits) refl

-- A range header that asks for the bytes from `a` to `b`, in this order, of a file that can be examined:
-- within one round of the loop for each byte and one more, `data_range_response` returns a partial
-- content with these bounds and their length in its headers. What it sends is these bytes of the file,
-- where the file has them; where the file ends before `b` it ends in an error, after the first ones of
-- these bytes. With the bytes there, it ends in an error only where a read fails.
pub data_range_response-Sent :
    ⦃f : FileReads⦄ (fuel a b : ℕ) (c : ℕ) (header : Text) (file : Bytes)
    → parse_range (length file) (c ∷ header) ≡ ok (pos a, pos b)
    → a ≤ b
    → b + 1 < 2 ^ 63
    → suc b - a < fuel
    → (w : Written) × (data_range_response fuel (ok tt) (c ∷ header) file
        ≡ some (partial_content (pos a) (pos b) (length file) (pos (suc b - a)) w))
      × Sent (suc b - a) (drop a file) w
unfolding data_range_response seek_and_send
data_range_response-Sent fuel a b c header file parsed le small enough =
    let (w, sent, part) = send_range-Sent fuel (drop a file) a (suc b - a) enough in
    (w, rw (parsed, content_length-within a b le small, sent) refl, part)
