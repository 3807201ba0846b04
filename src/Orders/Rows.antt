-- ===== src/Orders/Rows.antt =====
-- The rows that a query finds and that an update leaves alone.
use mathlib.Core.List.{Memᴰ}
use mathlib.Core.List.Memᴰ
use arseeding.Prelude.{
  ◌≡◌, refl, sym, subst, ap, inl, inr, Bool, true, false, ◌&&◌, List, [], ◌∷◌, Bool-cases,
  if◌then◌else◌,
}
use arseeding.Effect.{Result, ok, err, record_not_found, bind_result, Result-cases}
use arseeding.Orders.Types.{select, change, Row, TableName, SqlDb}
use arseeding.Orders.Wdb.{first_row, is_not_found}

pub both_true : (a b : Bool) → (a && b) ≡ true → (a ≡ true) × (b ≡ true)
both_true true b h = (refl, h)
both_true false b h = absurd cc

module _ {ℓ} {A : Type ℓ} where
  pub select-Mem :
      (p : A → Bool) {k : A} (xs : List A) → Memᴰ k (select p xs) → Memᴰ k xs × (p k ≡ true)
  unfolding select
  select-Mem p [] m = absurd (Memᴰ.not-nil m)
  select-Mem p {k} (x ∷ xs) m = elim (Bool-cases (p x)) [
    | inl yes_p ↦ elim (Memᴰ.cases_cons (rw (select, yes_p) at m)) [
      | inl e ↦ (Memᴰ.head e, rw e yes_p)
      | inr below ↦ let r = select-Mem p xs below in (Memᴰ.tail r.0, r.1)
    ]
    | inr no_p ↦ let r = select-Mem p xs (rw (select, no_p) at m) in (Memᴰ.tail r.0, r.1)
  ]

  pub Mem-select :
      (p : A → Bool) {k : A} (xs : List A) → Memᴰ k xs → p k ≡ true → Memᴰ k (select p xs)
  unfolding select
  Mem-select p [] m h = absurd (Memᴰ.not-nil m)
  Mem-select p (x ∷ xs) (Memᴰ.head e) h = rw (select, sym (ap p e), h) (Memᴰ.head e)
  Mem-select p (x ∷ xs) (Memᴰ.tail m) h = elim (Bool-cases (p x)) [
    | inl yes_p ↦ rw (select, yes_p) (Memᴰ.tail (Mem-select p xs m h))
    | inr no_p ↦ rw (select, no_p) (Mem-select p xs m h)
  ]

  pub Mem-change :
      (p : A → Bool) (f : A → A) {k : A} (xs : List A)
      → Memᴰ k xs
      → p k ≡ false
      → Memᴰ k (change p f xs)
  unfolding change
  Mem-change p f [] m h = absurd (Memᴰ.not-nil m)
  Mem-change p f (x ∷ xs) (Memᴰ.head e) h = rw (change, sym (ap p e), h) (Memᴰ.head e)
  Mem-change p f (x ∷ xs) (Memᴰ.tail m) h = Memᴰ.tail (Mem-change p f xs m h)

  pub Mem-change_to :
      (p : A → Bool) (f : A → A) {k : A} (xs : List A)
      → Memᴰ k xs
      → p k ≡ true
      → Memᴰ (f k) (change p f xs)
  unfolding change
  Mem-change_to p f [] m h = absurd (Memᴰ.not-nil m)
  Mem-change_to p f (x ∷ xs) (Memᴰ.head e) h = rw (change, sym (ap p e), h) (Memᴰ.head (ap f e))
  Mem-change_to p f (x ∷ xs) (Memᴰ.tail m) h = Memᴰ.tail (Mem-change_to p f xs m h)

  pub Mem-of_change :
      (p : A → Bool) (f : A → A) {q : A} (xs : List A)
      → Memᴰ q (change p f xs)
      → (x : A) × Memᴰ x xs × (q ≡ (if p x then f x else x))
  unfolding change
  Mem-of_change p f [] m = absurd (Memᴰ.not-nil m)
  Mem-of_change p f (x ∷ xs) (Memᴰ.head e) = (x, Memᴰ.head refl, e)
  Mem-of_change p f (x ∷ xs) (Memᴰ.tail m) =
      let r = Mem-of_change p f xs m in (r.0, Memᴰ.tail r.1, r.2)

  is_not_found-first_row : {k : A} (xs : List A) → Memᴰ k xs → is_not_found (first_row xs) ≡ false
  unfolding is_not_found first_row
  is_not_found-first_row [] m = absurd (Memᴰ.not-nil m)
  is_not_found-first_row (x ∷ xs) m = refl

module _ ⦃sql : SqlDb⦄ (t : TableName) (p : Row t → Bool) (db : sql.Db) where
  -- A query that some row meets does not return `ErrRecordNotFound`, whether it fails or not.
  first-found :
      (k : Row t) (r : Result (List (Row t)))
      → sql.find t p db ≡ r
      → Memᴰ k (sql.rows t db)
      → p k ≡ true
      → is_not_found (bind_result r first_row) ≡ false
  unfolding is_not_found
  first-found k (ok found) h m pk =
      is_not_found-first_row found (
        subst (λ l. Memᴰ k l) (sym (sql.find_ok t p db found h))
          (Mem-select p (sql.rows t db) m pk))
  first-found k (err record_not_found) h m pk = absurd (sql.find_err t p db h)
  first-found k (err _) h m pk = refl

  pub is_not_found-find :
      (k : Row t)
      → Memᴰ k (sql.rows t db)
      → p k ≡ true
      → is_not_found (bind_result (sql.find t p db) first_row) ≡ false
  is_not_found-find k m pk = first-found k (sql.find t p db) refl m pk

  pub find-Mem :
      (k : Row t) (found : List (Row t))
      → sql.find t p db ≡ ok found
      → Memᴰ k found
      → Memᴰ k (sql.rows t db) × (p k ≡ true)
  find-Mem k found h m =
      select-Mem p (sql.rows t db) (subst (λ l. Memᴰ k l) (sql.find_ok t p db found h) m)

module _ ⦃sql : SqlDb⦄ (t : TableName) (p : Row t → Bool) (f : Row t → Row t) (db : sql.Db) where
  -- An update leaves the rows alone that do not have its condition, whether it fails or not.
  pub Mem-update :
      (k : Row t)
      → Memᴰ k (sql.rows t db)
      → p k ≡ false
      → Memᴰ k (sql.rows t (sql.update t p f db).0)
  Mem-update k m h = elim (Result-cases (sql.update t p f db).1) [
    | inl (u, done) ↦
        subst (λ l. Memᴰ k l) (sym (sql.update_ok t p f db done))
          (Mem-change p f (sql.rows t db) m h)
    | inr (e, failed) ↦ subst (λ d. Memᴰ k (sql.rows t d)) (sym (sql.update_err t p f db failed)) m
  ]
