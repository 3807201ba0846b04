-- ===== src/Orders/Selecting.antt =====
-- Selections and pages of orders that stand in descending order.
use arseeding.Prelude.{
  ℕ, zero, suc, ◌≡◌, refl, ◌<◌, ◌≤◌, ap, ◌∙◌, arith, Bool, true, false, Bool-cases, inl, inr, ◌&&◌,
  ltb, lt→ltb, length, All, List, [], ◌∷◌, ◌++◌,
}
use arseeding.Prelude.Int.{pos}
use arseeding.Prelude.Slices.{drop}
use arseeding.Orders.Types.{Order, select}
use arseeding.Orders.Wdb.{limit}
use arseeding.Orders.Lists.{insert_by, order_by, id_desc, cursor_or, max_int64}
use arseeding.Orders.Descending.{IsDescending, All-mono}

abbrev pub last_of : Order → List Order → Order
last_of x [] = x
last_of x (y ∷ ys) = last_of y ys

abbrev pub last_id : List Order → ℕ
last_id [] = 0
last_id (x ∷ xs) = (last_of x xs).id

abbrev pub under : ℕ → Order → Bool
under c o = ltb o.id c

module _ (p q : Order → Bool) where
  pub select-&& : (xs : List Order) → select (λ o. p o && q o) xs ≡ select p (select q xs)
  unfolding select
  select-&& [] = refl
  select-&& (x ∷ xs) = elim (Bool-cases (q x)) [
    | inl yes_q ↦ elim (Bool-cases (p x)) [
      | inl yes_p ↦ rw (yes_q, yes_p) (ap (λ l. x ∷ l) (select-&& xs))
      | inr no_p ↦ rw (yes_q, no_p) (select-&& xs)
    ]
    | inr no_q ↦ elim (Bool-cases (p x)) [
      | inl yes_p ↦ rw (no_q, yes_p) (select-&& xs)
      | inr no_p ↦ rw (no_q, no_p) (select-&& xs)
    ]
  ]

  -- a weaker selection before changes nothing
  pub select-weaker :
      (xs : List Order)
      → ((o : Order) → p o ≡ true → q o ≡ true)
      → select p (select q xs) ≡ select p xs
  unfolding select
  select-weaker [] h = refl
  select-weaker (x ∷ xs) h = elim (Bool-cases (q x)) [
    | inl yes_q ↦ elim (Bool-cases (p x)) [
      | inl yes_p ↦ rw (yes_q, yes_p) (ap (λ l. x ∷ l) (select-weaker xs h))
      | inr no_p ↦ rw (yes_q, no_p) (select-weaker xs h)
    ]
    | inr no_q ↦ elim (Bool-cases (p x)) [
      | inl yes_p ↦ absurd cc (h x yes_p)
      | inr no_p ↦ rw (no_q, no_p) (select-weaker xs h)
    ]
  ]

pub select_passing :
    (p : Order → Bool) (xs : List Order) → All (λ o. p o ≡ true) xs → select p xs ≡ xs
unfolding select
select_passing p [] h = refl
select_passing p (x ∷ xs) (px, h) = rw px (ap (λ l. x ∷ l) (select_passing p xs h))

pub All-last :
    (P : Order → Type 0) (x : Order) (xs : List Order) → P x → All P xs → P (last_of x xs)
All-last P x [] px h = px
All-last P x (y ∷ ys) px (py, h) = All-last P y ys py h

pub All-limit : (P : Order → Type 0) (n : ℕ) (xs : List Order) → All P xs → All P (limit n xs)
unfolding limit
All-limit P zero xs h = tt
All-limit P (suc n) [] h = tt
All-limit P (suc n) (x ∷ xs) (px, h) = (px, All-limit P n xs h)

-- What stands under the last id of a page is what the page leaves out.
pub under-last :
    (n : ℕ) (x : Order) (xs : List Order)
    → IsDescending (x ∷ xs)
    → select (under (last_of x (limit n xs)).id) (x ∷ xs) ≡ drop n xs
unfolding select limit drop
under-last zero x xs (below, d) =
    let self : ltb x.id x.id ≡ false = ground arith in
    rw self (select_passing (under x.id) xs (All-mono (λ o h. lt→ltb o.id x.id h) xs below))
under-last (suc n) x [] (below, d) = let self : ltb x.id x.id ≡ false = ground arith in rw self refl
under-last (suc n) x (y ∷ ys) ((lt, below), d) =
    let last = last_of y (limit n ys) in
    let lower : last.id < x.id =
      All-last (λ o. o.id < x.id) y (limit n ys) lt (All-limit (λ o. o.id < x.id) n ys below) in
    let out : ltb x.id last.id ≡ false = ground arith in rw out (under-last n y ys d)

pub limit-++-drop : (n : ℕ) (xs : List Order) → limit n xs ++ drop n xs ≡ xs
unfolding limit drop
limit-++-drop zero xs = refl
limit-++-drop (suc n) [] = refl
limit-++-drop (suc n) (x ∷ xs) = ap (λ l. x ∷ l) (limit-++-drop n xs)

pub length-drop-le : (n : ℕ) (xs : List Order) → length (drop n xs) ≤ length xs
unfolding drop
length-drop-le zero xs = omega arith
length-drop-le (suc n) [] = omega arith
length-drop-le (suc n) (x ∷ xs) = omega (arith, length-drop-le n xs)

pub length-select : (p : Order → Bool) (xs : List Order) → length (select p xs) ≤ length xs
unfolding select
length-select p [] = omega arith
length-select p (x ∷ xs) = elim (Bool-cases (p x)) [
  | inl mine ↦ rw mine (omega (arith, length-select p xs))
  | inr other ↦ rw other (omega (arith, length-select p xs))
]

pub length-insert_by :
    (x : Order) (xs : List Order) → length (insert_by id_desc x xs) ≡ suc (length xs)
unfolding insert_by
length-insert_by x [] = refl
length-insert_by x (y ∷ ys) = elim (Bool-cases (id_desc x y)) [
  | inl first ↦ rw first refl
  | inr later ↦ rw later (ap suc (length-insert_by x ys))
]

pub length-order_by : (xs : List Order) → length (order_by id_desc xs) ≡ length xs
unfolding order_by
length-order_by [] = refl
length-order_by (x ∷ xs) = length-insert_by x (order_by id_desc xs) ∙ ap suc (length-order_by xs)

pub from_id : (i : ℕ) → 0 < i → cursor_or max_int64 (pos i) ≡ i
from_id zero h = absurd (omega arith)
from_id (suc i) h = refl

pub trans_under : (a b c : ℕ) → ltb a b ≡ true → ltb b c ≡ true → ltb a c ≡ true
trans_under a b c h k = ground arith

pub All-pass : (p : Order → Bool) (xs : List Order) → All (λ o. p o ≡ true) (select p xs)
unfolding select
All-pass p [] = tt
All-pass p (x ∷ xs) = elim (Bool-cases (p x)) [
  | inl mine ↦ rw mine (mine, All-pass p xs)
  | inr other ↦ rw other (All-pass p xs)
]
