-- ===== src/Manifest/Batches.antt =====
-- manifest.go: the batches of 90 ids in which `syncManifestData` asks for transactions.
use mathlib.Core.List.{Memᴰ}
use mathlib.Core.List.Memᴰ
use arseeding.Prelude.{
  ℕ, zero, suc, ◌≤◌, Text, ◌≡◌, ◌↔◌, refl, Option, some, List, [], ◌∷◌, ◌++◌, ◌⊎◌, inl, inr, length,
  arith,
}
use arseeding.Prelude.Slices.{take, drop, length-drop}
use arseeding.Effect.{Result, ok}
use arseeding.Manifest.Sync.{TxNode, Gateway, query_batches}
use arseeding.Manifest.Items.{ManifestJson}

module _ (found : Text → Option TxNode) where
  -- The transaction is found for one of the ids.
  abbrev pub IsAsked : List Text → TxNode → Type 0
  IsAsked ids tx = (id : Text) × Memᴰ id ids × (found id ≡ some tx)

  -- The transactions are those found for the ids, in any order.
  abbrev pub FoundFor : List Text → Result (List TxNode) → Type 0
  FoundFor ids r =
      (txs : List TxNode) × (r ≡ ok txs) × ((tx : TxNode) → Memᴰ tx txs ↔ IsAsked ids tx)

  -- The service knows at most one transaction for an id, and answers a request for at most as many ids
  -- as its page has room for, at most 100, with all that it knows of them.
  abbrev pub AnswersPages : ⦃gw : Gateway⦄ → Type 0
  AnswersPages ⦃gw⦄ =
      (batch : List Text) (first : ℕ)
      → length batch ≤ first
      → first ≤ 100
      → FoundFor batch (gw.batch_get_items_bundle_in batch first [])

Mem-take : (n : ℕ) (ids : List Text) {id : Text} → Memᴰ id (take n ids) → Memᴰ id ids
unfolding take
Mem-take zero ids m = absurd (Memᴰ.not-nil m)
Mem-take (suc n) [] m = absurd (Memᴰ.not-nil m)
Mem-take (suc n) (i ∷ ids) (Memᴰ.head e) = Memᴰ.head e
Mem-take (suc n) (i ∷ ids) (Memᴰ.tail m) = Memᴰ.tail (Mem-take n ids m)

Mem-drop : (n : ℕ) (ids : List Text) {id : Text} → Memᴰ id (drop n ids) → Memᴰ id ids
unfolding drop
Mem-drop zero ids m = m
Mem-drop (suc n) [] m = absurd (Memᴰ.not-nil m)
Mem-drop (suc n) (i ∷ ids) m = Memᴰ.tail (Mem-drop n ids m)

Mem-take_or_drop :
    (n : ℕ) (ids : List Text) {id : Text}
    → Memᴰ id ids
    → Memᴰ id (take n ids) ⊎ Memᴰ id (drop n ids)
unfolding take drop
Mem-take_or_drop zero ids m = inr m
Mem-take_or_drop (suc n) [] m = absurd (Memᴰ.not-nil m)
Mem-take_or_drop (suc n) (i ∷ ids) (Memᴰ.head e) = inl (Memᴰ.head e)
Mem-take_or_drop (suc n) (i ∷ ids) (Memᴰ.tail m) = elim (Mem-take_or_drop n ids m) [
  | inl here ↦ inl (Memᴰ.tail here)
  | inr later ↦ inr later
]

length-take_le : (n : ℕ) (ids : List Text) → length (take n ids) ≤ n
unfolding take
length-take_le zero ids = omega arith
length-take_le (suc n) [] = omega arith
length-take_le (suc n) (i ∷ ids) = omega (arith, length-take_le n ids)

-- what two batches find, for the ids of both
FoundFor-append :
    (found : Text → Option TxNode) (n : ℕ) (ids : List Text) (xs ys : List TxNode)
    → ((tx : TxNode) → Memᴰ tx xs ↔ IsAsked found (take n ids) tx)
    → ((tx : TxNode) → Memᴰ tx ys ↔ IsAsked found (drop n ids) tx)
    → (tx : TxNode) → Memᴰ tx (xs ++ ys) ↔ IsAsked found ids tx
FoundFor-append found n ids xs ys first rest tx = (
  λ m. elim (Memᴰ.append_cases xs m) [
    | inl here ↦ let (id, asked, is_tx) = (first tx).0 here in (id, Mem-take n ids asked, is_tx)
    | inr later ↦ let (id, asked, is_tx) = (rest tx).0 later in (id, Mem-drop n ids asked, is_tx)
  ],
  λ q. elim (Mem-take_or_drop n ids q.1) [
    | inl here ↦ Memᴰ.append_left ys ((first tx).1 (q.0, here, q.2))
    | inr later ↦ Memᴰ.append_right xs ((rest tx).1 (q.0, later, q.2))
  ],
)

-- The service answers a request for at most as many ids as the page that is asked for has room for, at
-- most 100 ids, in any order, with all the transactions that it knows of them. Then `query_batches`, with
-- a round for each id, succeeds and collects the transactions of all ids and no others: no id is lost
-- between the batches or behind the end of a page.
pub query_batches-FoundFor :
    ⦃j : ManifestJson⦄ ⦃gw : Gateway⦄ (found : Text → Option TxNode)
    → AnswersPages found
    → (fuel : ℕ) (ids : List Text) → length ids ≤ fuel
    → FoundFor found ids (query_batches fuel ids)
unfolding query_batches
query_batches-FoundFor found answers zero [] h =
    ([], refl, λ tx. (λ m. absurd (Memᴰ.not-nil m), λ q. absurd (Memᴰ.not-nil q.1)))
query_batches-FoundFor found answers zero (i ∷ ids) h = absurd (omega arith)
query_batches-FoundFor found answers (suc fuel) [] h =
    ([], refl, λ tx. (λ m. absurd (Memᴰ.not-nil m), λ q. absurd (Memᴰ.not-nil q.1)))
query_batches-FoundFor found answers (suc fuel) (i ∷ ids) h =
    let (xs, answer, first) =
      answers (take 90 (i ∷ ids)) 90 (length-take_le 90 (i ∷ ids)) (omega arith) in
    let (ys, others, rest) =
      query_batches-FoundFor found answers fuel (drop 90 (i ∷ ids))
        (omega (arith, length-drop 90 (i ∷ ids), h)) in
    (xs ++ ys, rw (answer, others) refl, FoundFor-append found 90 (i ∷ ids) xs ys first rest)
