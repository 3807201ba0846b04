-- ===== src/Bundle/Arrange.antt =====
-- The order in which `getOnChainBundle` (jobs.go) puts the items of a bundle.
use mathlib.Core.List.{Perm}
use mathlib.Core.List.Perm
use arseeding.Prelude.{
  Text, ◌≡◌, ◌≢◌, refl, false, Option, none, some, List, [], ◌∷◌, ◌++◌, All, inl, inr, Bool-cases,
}
use arseeding.Effect.{Result, ok, err}
use arseeding.Rawdb.Interface.{KeyValueDb}
use arseeding.Bundle.Types.{BundleItem, BundleUtils}
use arseeding.Bundle.OnChain.{
  nil_text, end_data, take_with_data, moved, arrange, load_items, get_on_chain_bundle,
}

HasData : BundleItem → Type 0
HasData i = i.data_text ≢ []

-- The list ends with an item that has data.
pub data EndsWithData : List BundleItem → Type 0 where
  ends :
      (items : List BundleItem) (i : BundleItem)
      → i.data_text ≢ []
      → EndsWithData (items ++ (i ∷ []))

abbrev pub Arranged : List BundleItem → Result (List BundleItem) → Type 0
Arranged items (ok bundle) = Perm items bundle × EndsWithData bundle
Arranged items (err e) = All (λ i. i.data_text ≡ []) items

abbrev Taken : List BundleItem → Option (BundleItem × List BundleItem) → Type 0
Taken items none = All (λ i. i.data_text ≡ []) items
Taken items (some (found, others)) = (found.data_text ≢ []) × Perm items (found ∷ others)

take_with_data-Taken : (items : List BundleItem) → Taken items (take_with_data items)
unfolding take_with_data
take_with_data-Taken [] = tt
take_with_data-Taken (i ∷ items) =
    by_data i.data_text refl (take_with_data items) refl (take_with_data-Taken items)
  where
    by_data :
        (t : Text)
        → i.data_text ≡ t
        → (r : Option (BundleItem × List BundleItem)) → take_with_data items ≡ r
        → Taken items r
        → Taken (i ∷ items) (take_with_data (i ∷ items))
    by_data (c ∷ t) h r e rest = simp h ((λ q. cc q), Perm.refl (i ∷ items))
    by_data [] h none e rest = simp (h, e) (refl, rest)
    by_data [] h (some (found, others)) e rest =
        simp (h, e) (rest.0, Perm.trans (Perm.cons i rest.1) (Perm.swap found i others))

move_last : (i : BundleItem) (items : List BundleItem) → Perm (i ∷ items) (items ++ (i ∷ []))
move_last i [] = Perm.refl (i ∷ [])
move_last i (j ∷ items) = Perm.trans (Perm.swap j i items) (Perm.cons j (move_last i items))

moved-Arranged :
    (items : List BundleItem) (r : Option (BundleItem × List BundleItem))
    → Taken items r
    → Arranged items (moved r)
moved-Arranged items none h = h
moved-Arranged items (some (found, others)) (p, perm) =
    (Perm.trans perm (move_last found others), ends others found p)

end_data-EndsWithData :
    (i : BundleItem) (items : List BundleItem) → end_data i items ≢ [] → EndsWithData (i ∷ items)
end_data-EndsWithData i [] h = ends [] i h
end_data-EndsWithData i (j ∷ items) h = behind i (end_data-EndsWithData j items h)
  where
    behind : {js : List BundleItem} (k : BundleItem) → EndsWithData js → EndsWithData (k ∷ js)
    behind k (ends items i h) = ends (k ∷ items) i h

nil_text_lem : (t : Text) → nil_text t ≡ false → t ≢ []
nil_text_lem [] h = cc
nil_text_lem (c ∷ t) h = λ e. cc

arrange-Arranged : (items : List BundleItem) → Arranged items (arrange items)
unfolding arrange
arrange-Arranged [] = tt
arrange-Arranged (i ∷ items) = elim (Bool-cases (nil_text (end_data i items))) [
  | inl null ↦ rw null (moved-Arranged (i ∷ items) _ (take_with_data-Taken (i ∷ items)))
  | inr full ↦ rw full (Perm.refl (i ∷ items), end_data-EndsWithData i items (nil_text_lem _ full))
]

-- The bundle that `get_on_chain_bundle` returns has exactly the items that load and decode, each as
-- often as they do, and its last item has data. It returns an error exactly where none of those
-- items has data; that no item loads is such a case.
pub get_on_chain_bundle-Arranged :
    ⦃kv : KeyValueDb⦄ ⦃u : BundleUtils⦄ (item_ids : List Text) (db : kv.Db)
    → Arranged (load_items item_ids db) (get_on_chain_bundle item_ids db)
unfolding get_on_chain_bundle
get_on_chain_bundle-Arranged item_ids db = arrange-Arranged (load_items item_ids db)
