-- ===== src/Orders/Descending.antt =====
-- Rows in descending order of their ids.
use arseeding.Prelude.{
  ◌≡◌, ◌≢◌, refl, ◌<◌, ap, ◌∙◌, sym, arith, Bool, Bool-cases, inl, inr, ltb→lt, lt→ltb, All, List,
  [], ◌∷◌, if◌then◌else◌,
}
use arseeding.Orders.Types.{Order, select}
use arseeding.Orders.Lists.{insert_by, order_by, id_desc}

abbrev pub Below : Order → List Order → Type 0
Below x xs = All (λ y. y.id < x.id) xs

abbrev pub IsDescending : List Order → Type 0
IsDescending [] = Unit {0}
IsDescending (x ∷ xs) = Below x xs × IsDescending xs

-- different ids, as a primary key has
abbrev pub HasKeys : List Order → Type 0
HasKeys [] = Unit {0}
HasKeys (x ∷ xs) = All (λ y. y.id ≢ x.id) xs × HasKeys xs

module _ {P Q : Order → Type 0} where
  pub All-mono : (f : (o : Order) → P o → Q o) (xs : List Order) → All P xs → All Q xs
  All-mono f [] h = tt
  All-mono f (x ∷ xs) (p, h) = (f x p, All-mono f xs h)

module _ (P : Order → Type 0) where
  pub All-select : (p : Order → Bool) (xs : List Order) → All P xs → All P (select p xs)
  unfolding select
  All-select p [] h = tt
  All-select p (x ∷ xs) (px, h) = elim (Bool-cases (p x)) [
    | inl here ↦ rw here (px, All-select p xs h)
    | inr out ↦ rw out (All-select p xs h)
  ]

  All-insert : (x : Order) (xs : List Order) → P x → All P xs → All P (insert_by id_desc x xs)
  unfolding insert_by
  All-insert x [] px h = (px, tt)
  All-insert x (y ∷ ys) px (py, h) = elim (Bool-cases (id_desc x y)) [
    | inl first ↦ rw first (px, (py, h))
    | inr later ↦ rw later (py, All-insert x ys px h)
  ]

  pub All-order_by : (xs : List Order) → All P xs → All P (order_by id_desc xs)
  unfolding order_by
  All-order_by [] h = tt
  All-order_by (x ∷ xs) (px, h) = All-insert x (order_by id_desc xs) px (All-order_by xs h)

insert-IsDescending :
    (x : Order) (xs : List Order)
    → All (λ y. y.id ≢ x.id) xs
    → IsDescending xs
    → IsDescending (insert_by id_desc x xs)
unfolding insert_by
insert-IsDescending x [] new d = (tt, tt)
insert-IsDescending x (y ∷ ys) (ne, new) (below, d) = elim (Bool-cases (id_desc x y)) [
  | inl first ↦
      let lt = ltb→lt y.id x.id first in
      rw first ((lt, All-mono (λ o (h : o.id < y.id). omega (arith, h, lt)) ys below), (below, d))
  | inr later ↦ rw later (
    All-insert (λ o. o.id < y.id) x ys (ground (arith, ne, later)) below,
    insert-IsDescending x ys new d,
  )
]

pub order_by-IsDescending : (xs : List Order) → HasKeys xs → IsDescending (order_by id_desc xs)
unfolding order_by
order_by-IsDescending [] keys = tt
order_by-IsDescending (x ∷ xs) (new, keys) =
    insert-IsDescending x (order_by id_desc xs) (All-order_by (λ y. y.id ≢ x.id) xs new)
      (order_by-IsDescending xs keys)

insert-head : (x : Order) (xs : List Order) → Below x xs → insert_by id_desc x xs ≡ x ∷ xs
unfolding insert_by
insert-head x [] below = refl
insert-head x (y ∷ ys) (lt, below) = rw (lt→ltb y.id x.id lt) refl

-- A selection of ordered rows is the selected rows in order.
module _ (p : Order → Bool) where
  insert-select :
      (x : Order) (xs : List Order)
      → IsDescending xs
      → select p (insert_by id_desc x xs)
        ≡ (if p x then insert_by id_desc x (select p xs) else select p xs)
  unfolding insert_by select
  insert-select x [] d = refl
  insert-select x (y ∷ ys) (below, d) = elim (Bool-cases (id_desc x y)) [
    | inl first ↦
        let lt = ltb→lt y.id x.id first in
        let under : Below x (y ∷ ys) =
          (lt, All-mono (λ o (h : o.id < y.id). omega (arith, h, lt)) ys below) in
        rw
          (
            first,
            insert-head x (select p (y ∷ ys)) (All-select (λ o. o.id < x.id) p (y ∷ ys) under),
          )
          refl
    | inr later ↦ elim (Bool-cases (p y)) [
      | inl here ↦ elim (Bool-cases (p x)) [
        | inl mine ↦
            rw (later, here, mine)
              (rw later (ap (λ l. y ∷ l) (insert-select x ys d ∙ rw mine refl)))
        | inr other ↦
            rw (later, here, other) (ap (λ l. y ∷ l) (insert-select x ys d ∙ rw other refl))
      ]
      | inr out ↦ rw (later, out) (insert-select x ys d)
    ]
  ]

  pub order_by-select :
      (xs : List Order)
      → HasKeys xs
      → order_by id_desc (select p xs) ≡ select p (order_by id_desc xs)
  unfolding order_by select
  order_by-select [] keys = refl
  order_by-select (x ∷ xs) (new, keys) =
      let step = insert-select x (order_by id_desc xs) (order_by-IsDescending xs keys) in
      elim (Bool-cases (p x)) [
        | inl mine ↦
            rw mine (ap (insert_by id_desc x) (order_by-select xs keys) ∙ sym (step ∙ rw mine refl))
        | inr other ↦ rw other (order_by-select xs keys ∙ sym (step ∙ rw other refl))
      ]

  pub select-IsDescending : (xs : List Order) → IsDescending xs → IsDescending (select p xs)
  unfolding select
  select-IsDescending [] d = tt
  select-IsDescending (x ∷ xs) (below, d) = elim (Bool-cases (p x)) [
    | inl mine ↦ rw mine (All-select (λ o. o.id < x.id) p xs below, select-IsDescending xs d)
    | inr other ↦ rw other (select-IsDescending xs d)
  ]

  pub HasKeys-select : (xs : List Order) → HasKeys xs → HasKeys (select p xs)
  unfolding select
  HasKeys-select [] keys = tt
  HasKeys-select (x ∷ xs) (new, keys) = elim (Bool-cases (p x)) [
    | inl mine ↦ rw mine (All-select (λ y. y.id ≢ x.id) p xs new, HasKeys-select xs keys)
    | inr other ↦ rw other (HasKeys-select xs keys)
  ]
