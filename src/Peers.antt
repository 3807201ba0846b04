-- ===== src/Peers.antt =====
-- The counts of the peers: `updatePeerMap` of jobs.go. A count starts at 1 and never goes below 0.
use arseeding.Prelude.{
  ℕ, ◌+◌, ◌-◌, Text, text_eq, text_eq_iff, ◌≡◌, refl, Bool, false, Option, none, some, List, [],
  ◌∷◌, ◌||◌, arith, if◌then◌else◌,
}
use arseeding.Prelude.Maps.{Dict, lookup, insert, lookup-insert}

-- the keys of `availablePeers`
unfoldable pub is_available : Text → List Text → Bool
is_available peer [] = false
is_available peer (p ∷ available) = text_eq p peer || is_available peer available

-- the first loop
unfoldable pub recount : List Text → Dict ℕ → Dict ℕ
recount available [] = []
recount available ((peer, cnt) ∷ m) =
    let rest = recount available m in
    (peer, if is_available peer available then cnt + 1 else cnt - 1) ∷ rest

insert_new : Option ℕ → Text → Dict ℕ → Dict ℕ
insert_new (some cnt) peer m = m
insert_new none peer m = insert peer 1 m

-- the second loop
unfoldable pub add_new : List Text → Dict ℕ → Dict ℕ
unfolding insert_new
add_new [] m = m
add_new (peer ∷ available) m = add_new available (insert_new (lookup peer m) peer m)

unfoldable pub update_peer_map : Dict ℕ → List Text → Dict ℕ
update_peer_map old available = add_new available (recount available old)

-- what one update makes of the count of a peer
abbrev pub next_count : Bool → Option ℕ → Option ℕ
next_count available none = if available then some 1 else none
next_count available (some cnt) = some (if available then cnt + 1 else cnt - 1)

abbrev recounted : Bool → Option ℕ → Option ℕ
recounted available none = none
recounted available (some cnt) = some (if available then cnt + 1 else cnt - 1)

abbrev or_one : Bool → Option ℕ → Option ℕ
or_one available none = if available then some 1 else none
or_one available (some cnt) = some cnt

lookup-recount :
    (peer : Text) (available : List Text) (m : Dict ℕ)
    → lookup peer (recount available m) ≡ recounted (is_available peer available) (lookup peer m)
unfolding recount lookup
lookup-recount peer available [] = refl
lookup-recount peer available ((p, cnt) ∷ m) =
    ground (arith, text_eq_iff p peer, lookup-recount peer available m)

lookup-add_new :
    (peer : Text) (available : List Text) (m : Dict ℕ)
    → lookup peer (add_new available m) ≡ or_one (is_available peer available) (lookup peer m)
unfolding add_new is_available insert_new
lookup-add_new peer [] m = ground arith
lookup-add_new peer (p ∷ available) m = ground (
  arith,
  text_eq_iff p peer,
  lookup-add_new peer available (insert_new (lookup p m) p m),
  lookup-insert p peer 1 m,
)

-- `update_peer_map` counts an available peer up and another one down, down to 0, and adds an available
-- peer that has no count with 1; it forgets no peer and adds no other one.
pub lookup-update_peer_map :
    (peer : Text) (old : Dict ℕ) (available : List Text)
    → lookup peer (update_peer_map old available)
      ≡ next_count (is_available peer available) (lookup peer old)
unfolding update_peer_map
lookup-update_peer_map peer old available = ground (
  arith,
  lookup-add_new peer available (recount available old),
  lookup-recount peer available old,
)
