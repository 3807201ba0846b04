-- ===== src/Store/Frame.antt =====
-- Which buckets of the store a call leaves as they are, whether it succeeds or not.
use arseeding.Prelude.{
  Text, Bytes, ◌≡◌, refl, ◌∙◌, ap, Bool, true, false, ◌==◌, inl, inr, if◌then◌else◌,
}
use arseeding.Effect.{
  Result, Eff, lift, reads, ◌>>=◌, >>=-cases, on_error, on_error-cases, Result-cases,
}
use arseeding.Rawdb.Interface.{KeyValueDb, Bucket, bucket_number}

module _ ⦃kv : KeyValueDb⦄ {S : Type 0} (view : S → kv.Db) (b : Bucket) where
  -- The call leaves the bucket of the store in the state as it is.
  abbrev pub Untouched {ℓ} : {A : Type ℓ} → Eff S A → Type 0
  Untouched m = (k : Text) (s : S) → kv.get b k (view (m s).0) ≡ kv.get b k (view s)

  pub >>=-Untouched {ℓ κ} :
      {A : Type ℓ} {B : Type κ} (m : Eff S A) (f : A → Eff S B)
      → Untouched m
      → ((a : A) → Untouched (f a))
      → Untouched (m >>= f)
  >>=-Untouched m f first second k s = elim (>>=-cases m f s) [
    | inl (a, done, out) ↦ ap (λ o. kv.get b k (view o.0)) out ∙ second a k (m s).0 ∙ first k s
    | inr (e, failed, out) ↦ ap (λ o. kv.get b k (view o.0)) out ∙ first k s
  ]

  -- A read, or a result computed, changes nothing.
  pub reads-Untouched {ℓ κ} :
      {A : Type ℓ} {B : Type κ} (r : S → Result A) (f : A → Eff S B)
      → ((a : A) → Untouched (f a))
      → Untouched (reads r >>= f)
  reads-Untouched r f later = >>=-Untouched (reads r) f (λ k s. refl) later

  pub lift-Untouched {ℓ κ} :
      {A : Type ℓ} {B : Type κ} (r : Result A) (f : A → Eff S B)
      → ((a : A) → Untouched (f a))
      → Untouched (lift r >>= f)
  lift-Untouched r f later = >>=-Untouched (lift r) f (λ k s. refl) later

  module _ {ℓ} {A : Type ℓ} where
    pub on_error-Untouched :
        (m : Eff S A) (cleanup : Eff S (Unit {0}))
        → Untouched m
        → Untouched cleanup
        → Untouched (on_error m cleanup)
    on_error-Untouched m cleanup first last k s = elim (on_error-cases m cleanup s) [
      | inl (a, done, out) ↦ ap (λ o. kv.get b k (view o.0)) out ∙ first k s
      | inr (e, failed, out) ↦ ap (λ o. kv.get b k (view o.0)) out ∙ last k (m s).0 ∙ first k s
    ]

    pub if-Untouched :
        (c : Bool) (m n : Eff S A) → Untouched m → Untouched n → Untouched (if c then m else n)
    if-Untouched true m n first second = first
    if-Untouched false m n first second = second

module _ ⦃kv : KeyValueDb⦄ where
  pub put-Untouched :
      (b b' : Bucket) (k : Text) (v : Bytes)
      → (bucket_number b' == bucket_number b) ≡ false
      → Untouched (λ db. db) b (kv.put b' k v)
  put-Untouched b b' k v other j db = elim (Result-cases (kv.put b' k v db).1) [
    | inl (u, done) ↦ rw (kv.get-put b' k v db b j done, other) refl
    | inr (e, failed) ↦ kv.get-put_err b' k v db b j failed
  ]
