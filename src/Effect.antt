-- ===== src/Effect.antt =====
-- Go's `error` (schema/errors.go), and methods that change a state and may return an error.
-- What was written before an error stays written, so the state comes back beside the error too.
use arseeding.Prelude.{Text, Bool, true, false, ◌≡◌, refl, ◌⊎◌, inl, inr}

-- The `var` block of schema/errors.go; `other` is any error that the code compares with none of
-- these, by its text. A `panic` unwinds to the handler's recovery, with what was written so far.
-- `record_not_found` is gorm's `ErrRecordNotFound`.
pub data Error : Type 0 where
  not_exist not_found exist exist_tx task_closed fetch_data : Error
  data_too_big null_data local_not_exist page_not_found not_implement : Error
  record_not_found : Error
  other : Text → Error
  panic : Error

pub data Result {ℓ} (A : Type ℓ) : Type ℓ where
  ok : A → Result A
  err : Error → Result A

-- The test `err == schema.ErrNotExist` of the `IsExist…` methods: every other error is "exists".
abbrev pub exists_unless {ℓ} : {A : Type ℓ} → Result A → Result Bool
exists_unless (err not_exist) = ok false
exists_unless (err panic) = err panic
exists_unless _ = ok true

abbrev pub is_ok {ℓ} : {A : Type ℓ} → Result A → Bool
is_ok (ok a) = true
is_ok (err e) = false

abbrev pub bind_result {ℓ κ} : {A : Type ℓ} {B : Type κ} → Result A → (A → Result B) → Result B
bind_result (ok a) f = f a
bind_result (err e) f = err e

pub bind_result-ok {ℓ κ} :
    {A : Type ℓ} {B : Type κ} (r : Result A) (f : A → Result B) {b : B}
    → bind_result r f ≡ ok b
    → (a : A) × (r ≡ ok a) × (f a ≡ ok b)
bind_result-ok (ok a) f h = (a, refl, h)
bind_result-ok (err e) f h = absurd cc

pub Result-cases {ℓ} :
    {A : Type ℓ} (r : Result A) → ((a : A) × (r ≡ ok a)) ⊎ ((e : Error) × (r ≡ err e))
Result-cases (ok a) = inl (a, refl)
Result-cases (err e) = inr (e, refl)

abbrev pub Eff {ℓ κ} : Type ℓ → Type κ → Type (ℓ ⊔ κ)
Eff S A = S → S × Result A

module _ {ℓ κ} {S : Type ℓ} {A : Type κ} where
  abbrev pub pure : A → Eff S A
  pure a s = (s, ok a)

  abbrev pub throw : Error → Eff S A
  throw e s = (s, err e)

  -- A call that computes a result and leaves the state alone.
  abbrev pub lift : Result A → Eff S A
  lift r s = (s, r)

  -- `m`, and `cleanup` where `m` fails, the error of `m` returned whatever `cleanup` does.
  abbrev pub undone : Eff S (Unit {0}) → S × Result A → S × Result A
  undone cleanup (s, ok a) = (s, ok a)
  undone cleanup (s, err e) = ((cleanup s).0, err e)

  abbrev pub on_error : Eff S A → Eff S (Unit {0}) → Eff S A
  on_error m cleanup s = undone cleanup (m s)

  -- A read of the state.
  abbrev pub reads : (S → Result A) → Eff S A
  reads f s = (s, f s)

module _ {ℓ κ μ} {S : Type ℓ} {A : Type κ} {B : Type μ} where
  abbrev pub continue : (A → Eff S B) → S → Result A → S × Result B
  continue f s (ok a) = f a s
  continue f s (err e) = (s, err e)

  infixl 5 ◌>>=◌
  abbrev pub ◌>>=◌ : Eff S A → (A → Eff S B) → Eff S B
  ◌>>=◌ m f s = let (s', r) = m s in continue f s' r

module _ {ℓ κ} {S : Type ℓ} {B : Type κ} where
  infixl 5 ◌>>◌
  abbrev pub ◌>>◌ : Eff S (Unit {0}) → Eff S B → Eff S B
  m >> k = m >>= λ _. k

-- How a bind ends: with what follows, or with the error of its first part.
module _ {ℓ κ μ} {S : Type ℓ} {A : Type κ} {B : Type μ} where
  continue-cases :
      (f : A → Eff S B) (s : S) (r : Result A)
      → ((a : A) × (r ≡ ok a) × (continue f s r ≡ f a s))
        ⊎ ((e : Error) × (r ≡ err e) × (continue f s r ≡ (s, err e)))
  continue-cases f s (ok a) = inl (a, refl, refl)
  continue-cases f s (err e) = inr (e, refl, refl)

  pub >>=-cases :
      (m : Eff S A) (f : A → Eff S B) (s : S)
      → ((a : A) × ((m s).1 ≡ ok a) × ((m >>= f) s ≡ f a (m s).0))
        ⊎ ((e : Error) × ((m s).1 ≡ err e) × ((m >>= f) s ≡ ((m s).0, err e)))
  >>=-cases m f s = continue-cases f (m s).0 (m s).1

  -- The success of a bind is that of both parts.
  pub >>=-ok :
      (m : Eff S A) (f : A → Eff S B) (s : S) {b : B}
      → ((m >>= f) s).1 ≡ ok b
      → (a : A) × ((m s).1 ≡ ok a) × ((m >>= f) s ≡ f a (m s).0)
  >>=-ok m f s h = elim (>>=-cases m f s) [ inl p ↦ p | inr (e, failed, out) ↦ absurd cc ]

module _ {ℓ κ} {S : Type ℓ} {A : Type κ} where
  undone-cases :
      (cleanup : Eff S (Unit {0})) (s : S) (r : Result A)
      → ((a : A) × (r ≡ ok a) × (undone cleanup (s, r) ≡ (s, ok a)))
        ⊎ ((e : Error) × (r ≡ err e) × (undone cleanup (s, r) ≡ ((cleanup s).0, err e)))
  undone-cases cleanup s (ok a) = inl (a, refl, refl)
  undone-cases cleanup s (err e) = inr (e, refl, refl)

  pub on_error-cases :
      (m : Eff S A) (cleanup : Eff S (Unit {0})) (s : S)
      → ((a : A) × ((m s).1 ≡ ok a) × (on_error m cleanup s ≡ ((m s).0, ok a)))
        ⊎ ((e : Error) × ((m s).1 ≡ err e) × (on_error m cleanup s ≡ ((cleanup (m s).0).0, err e)))
  on_error-cases m cleanup s = undone-cases cleanup (m s).0 (m s).1
