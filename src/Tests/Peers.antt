-- ===== src/Tests/Peers.antt =====
-- The counts of two peers, one of which is available, and a new one.
use arseeding.Prelude.{ℕ, Text, codes, text_eq, ◌≡◌, refl, some, List, [], ◌∷◌}
use arseeding.Prelude.Maps.{Dict, lookup, insert}
use arseeding.Peers.{is_available, update_peer_map, recount, add_new}

abbrev counts : Dict ℕ
counts = (codes "a", 2) ∷ (codes "b", 0) ∷ []

abbrev available : List Text
available = codes "a" ∷ codes "c" ∷ []

-- The available one counts up, the other one stays at 0, and the new one begins at 1.
recounted :
    (lookup (codes "a") (update_peer_map counts available) ≡ some 3)
    × (lookup (codes "b") (update_peer_map counts available) ≡ some 0)
    × (lookup (codes "c") (update_peer_map counts available) ≡ some 1)
unfolding update_peer_map recount add_new is_available lookup insert text_eq
recounted = (refl, refl, refl)
