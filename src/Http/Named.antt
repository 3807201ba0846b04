-- ===== src/Http/Named.antt =====
-- middleware.go: the parts of a host and of a path that `ManifestMiddleware` takes.
use arseeding.Prelude.{
  ℕ, zero, suc, ◌<◌, ◌≤◌, Text, ◌≡◌, ◌≢◌, refl, ap, subst, ◌∙◌, ◌⊎◌, inl, inr, true, false, ◌==◌,
  ltb, length, All, Option, none, some, [], ◌∷◌, ◌++◌, arith, Bool-cases, Option-cases,
}
use arseeding.Http.Paths.{
  before, after, is_id_byte, take_id, or_empty, get_tx_id_from_path, get_request_sandbox,
}

-- a letter, a digit, `-` or `_`
abbrev pub IsIdByte : ℕ → Type 0
IsIdByte c =
    ((97 ≤ c) × (c ≤ 122))
    ⊎ (((65 ≤ c) × (c ≤ 90)) ⊎ (((48 ≤ c) × (c ≤ 57)) ⊎ ((c ≡ 45) ⊎ (c ≡ 95))))

-- The path is the id of 43 bytes, with or without a slash before it, and anything behind it.
abbrev pub Names : Text → Text → Type 0
Names uri id =
    (length id ≡ 43)
    × All IsIdByte id
    × ((rest : Text) × ((uri ≡ id ++ rest) ⊎ (uri ≡ 47 ∷ id ++ rest)))

-- The host is a first label of more than 40 bytes, a dot and the root.
abbrev pub HasLabel : Text → Text → Text → Type 0
HasLabel host label root =
    (host ≡ label ++ 46 ∷ root) × All (λ c. c ≢ 46) label × (40 < length label)

is_id_byte-IsIdByte : (c : ℕ) → is_id_byte c ≡ true → IsIdByte c
unfolding is_id_byte
is_id_byte-IsIdByte c h = ground arith

take_id-some :
    (n : ℕ) (text id : Text)
    → take_id n text ≡ some id
    → (length id ≡ n) × All IsIdByte id × ((rest : Text) × (text ≡ id ++ rest))
unfolding take_id
take_id-some zero text [] h = (refl, tt, (text, refl))
take_id-some zero text (c ∷ id) h = absurd cc
take_id-some (suc n) [] id h = absurd cc
take_id-some (suc n) (c ∷ text) id h = elim (Bool-cases (is_id_byte c)) [
  | inl good ↦ elim (Option-cases (take_id n text)) [
    | inl short ↦ let k = rw (good, short) at h in absurd cc
    | inr (t, taken) ↦
        let (long, bytes, (rest, e)) = take_id-some n text t taken in
        let k = rw (good, taken) at h in
        let same : c ∷ t ≡ id = cc in
        subst (λ i. (length i ≡ suc n) × All IsIdByte i × ((r : Text) × (c ∷ text ≡ i ++ r))) same
          (ap suc long, (is_id_byte-IsIdByte c good, bytes), (rest, ap (λ l. c ∷ l) e))
  ]
  | inr bad ↦ let k = rw bad at h in absurd cc
]

or_empty-some : (o : Option Text) → (length (or_empty o) == 0) ≡ false → o ≡ some (or_empty o)
or_empty-some none h = absurd cc
or_empty-some (some t) h = refl

pub get_tx_id_from_path-Names :
    (uri : Text)
    → (length (get_tx_id_from_path uri) == 0) ≡ false
    → Names uri (get_tx_id_from_path uri)
unfolding get_tx_id_from_path
get_tx_id_from_path-Names [] h = absurd cc
get_tx_id_from_path-Names (c ∷ path) h = elim (Bool-cases (c == 47)) [
  | inl slash ↦
      let k = rw slash at h in
      let (long, bytes, (rest, e)) =
        take_id-some 43 path (or_empty (take_id 43 path)) (or_empty-some (take_id 43 path) k) in
      let is_slash : c ≡ 47 = ground arith in
      rw slash (
        long,
        bytes,
        (
          rest,
          inr (ap (λ l. c ∷ l) e ∙ ap (λ d. d ∷ (or_empty (take_id 43 path) ++ rest)) is_slash),
        ),
      )
  | inr other ↦
      let k = rw other at h in
      let o = take_id 43 (c ∷ path) in
      let (long, bytes, (rest, e)) = take_id-some 43 (c ∷ path) (or_empty o) (or_empty-some o k) in
      rw other (long, bytes, (rest, inl e))
]

before-no_sep : (sep : ℕ) (text : Text) → All (λ c. c ≢ sep) (before sep text)
unfolding before
before-no_sep sep [] = tt
before-no_sep sep (c ∷ text) = elim (Bool-cases (c == sep)) [
  | inl same ↦ rw same tt
  | inr other ↦ rw other ((λ e. absurd (ground arith)), before-no_sep sep text)
]

before-after :
    (sep : ℕ) (text rest : Text) → after sep text ≡ some rest → text ≡ before sep text ++ sep ∷ rest
unfolding before after
before-after sep [] rest h = absurd cc
before-after sep (c ∷ text) rest h = elim (Bool-cases (c == sep)) [
  | inl same ↦
      let k = rw same at h in
      let is_sep : c ≡ sep = ground arith in
      let is_rest : text ≡ rest = cc in
      rw same (ap (λ d. d ∷ text) is_sep ∙ ap (λ t. sep ∷ t) is_rest)
  | inr other ↦ rw other (ap (λ t. c ∷ t) (before-after sep text rest (rw other at h)))
]

pub get_request_sandbox-HasLabel :
    (host root : Text)
    → (length (get_request_sandbox host) == 0) ≡ false
    → after 46 host ≡ some root
    → HasLabel host (get_request_sandbox host) root
unfolding get_request_sandbox
get_request_sandbox-HasLabel host root h split =
    let prefix = before 46 host in
    elim (Bool-cases (ltb 40 (length prefix))) [
      | inl long ↦ rw long (before-after 46 host root split, before-no_sep 46 host, ground arith)
      | inr short ↦ let k = rw short at h in absurd cc
    ]
