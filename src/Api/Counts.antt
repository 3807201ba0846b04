-- ===== src/Api/Counts.antt =====
-- api.go: a file is in use while it is served, and no longer.
use arseeding.Prelude.{
  ℕ, zero, suc, ◌+◌, ◌-◌, Text, Bytes, text_eq, text_eq_iff, text_eq_refl, ◌≡◌, refl, ap, ◌∙◌,
  arith, true, leb, Option, none, some, List, Bool-cases, inl, inr,
}
use arseeding.Prelude.Int.{ℤ, pos, negsuc}
use arseeding.Prelude.Maps.{lookup, insert, lookup-insert, map_option}
use arseeding.Effect.{Result, ok, Result-cases}
use arseeding.Goar.Types.{Tag}
use arseeding.Api.Range.{FileReads, RangeReply, plus_one, minus, diff, data_range_response}
use arseeding.Api.Files.{
  TmpFiles, or_zero, inc_file_cnt, dec_file_cnt, Reader, DataReply, data_range, Moves, moved,
  serve_file, data_response, gen_tmp_file_name,
}

-- how often a file is in use
abbrev pub uses : Text → TmpFiles → ℤ
uses name t = or_zero (lookup name t.tmp_file_map)

minus-plus_one : (n : ℤ) → minus (plus_one n) (pos 1) ≡ n
unfolding minus plus_one diff
minus-plus_one (pos n) =
    let in_order : leb 1 (suc n) ≡ true = ground arith in
    let back : suc n - 1 ≡ n = omega arith in rw (in_order, back) refl
minus-plus_one (negsuc zero) = refl
minus-plus_one (negsuc (suc n)) = let e : n + 1 ≡ suc n = omega arith in rw e refl

inc-dec :
    (name other : Text) (t : TmpFiles)
    → uses other (dec_file_cnt name (inc_file_cnt name t)) ≡ uses other t
unfolding dec_file_cnt inc_file_cnt
inc-dec name other t =
    let m = t.tmp_file_map in
    let n = plus_one (or_zero (lookup name m)) in
    let once = insert name n m in
    let back : minus (or_zero (lookup name once)) (pos 1) ≡ or_zero (lookup name m) =
      rw (lookup-insert name name n m, text_eq_refl name)
        (minus-plus_one (or_zero (lookup name m))) in
    elim (Bool-cases (text_eq name other)) [
      | inl same ↦
          let e : name ≡ other = (text_eq_iff name other).0 same in
          rw (lookup-insert name other (minus (or_zero (lookup name once)) (pos 1)) once, same)
            (back ∙ ap (λ k. or_zero (lookup k m)) e)
      | inr ne ↦
          rw
            (
              lookup-insert name other (minus (or_zero (lookup name once)) (pos 1)) once,
              ne,
              lookup-insert name other n m,
              ne,
            )
            refl
    ]

-- of what a handler leaves, where its loop ends
abbrev pub IsBalanced : TmpFiles → Option (TmpFiles × DataReply) → Type 0
IsBalanced t none = Unit {0}
IsBalanced t (some (t', r)) = (name : Text) → uses name t' ≡ uses name t

module _ ⦃f : FileReads⦄ (fuel : ℕ) (stat : Result (Unit {0})) (header : Text) where
  serve_file-IsBalanced :
      (tmp : Text) (file : Bytes) (t t' : TmpFiles)
      → ((name : Text) → uses name t' ≡ uses name t)
      → IsBalanced t (serve_file fuel stat header tmp file t')
  unfolding serve_file
  serve_file-IsBalanced tmp file t t' same = by_range (data_range_response fuel stat header file)
    where
      by_range :
          (o : Option RangeReply)
          → IsBalanced t
              (map_option (λ r. (dec_file_cnt tmp (inc_file_cnt tmp t'), data_range r)) o)
      by_range none = tt
      by_range (some r) = λ name. inc-dec tmp name t' ∙ same name

  data_response-by :
      (moves : Moves) (ip : Text) (reader : Option Reader) (bytes : Bytes) (tags : List Tag)
      (id : Text) (t : TmpFiles)
      → moves.rename ≡ ok tt
      → IsBalanced t (data_response fuel stat moves header ip reader bytes tags id t)
  unfolding data_response
  data_response-by moves ip none bytes tags id t renamed = λ name. refl
  data_response-by moves ip (some (n, file)) bytes tags id t renamed =
      let tmp = gen_tmp_file_name ip id in
      elim (Bool-cases (text_eq n tmp)) [
        | inl here ↦ rw here (serve_file-IsBalanced tmp file t t (λ name. refl))
        | inr elsewhere ↦ elim (Result-cases moves.reopen) [
          | inl (v, opened) ↦
              rw (elsewhere, renamed, opened)
                (serve_file-IsBalanced tmp file t (moved n tmp file t) (λ name. refl))
          | inr (e, failed) ↦ rw (elsewhere, renamed, failed) (λ name. refl)
        ]
      ]

-- Whatever `data_response` sends, in whole, as a range or as an error: unless its file cannot be renamed,
-- every file is in use, when it returns, as often as it was before.
pub data_response-IsBalanced :
    ⦃f : FileReads⦄ (fuel : ℕ) (stat : Result (Unit {0})) (moves : Moves) (header ip : Text)
    (reader : Option Reader) (bytes : Bytes) (tags : List Tag) (id : Text) (t : TmpFiles)
    → moves.rename ≡ ok tt
    → IsBalanced t (data_response fuel stat moves header ip reader bytes tags id t)
data_response-IsBalanced fuel stat moves header ip reader bytes tags id t =
    data_response-by fuel stat header moves ip reader bytes tags id t
