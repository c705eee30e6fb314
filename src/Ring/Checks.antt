-- ===== src/Ring/Checks.antt =====
-- Runs of the rings, and instances of their laws.
use torus.Base.{
  ℕ, ◌+◌, ◌≡◌, ◌≢◌, refl, true, false, not, ◌&&◌, ◌||◌, List, [], ◌∷◌, length, take, ◌⊎◌, Bytes, ok,
  err, Error,
}
use torus.Refs.{BlockRef, to_bytes}
use torus.Peers.{
  Uuid, PeerInfo, PeerPermutation, peer_list, has, union, and_not, intersect, index_at, index_from,
  get_weights, Weights, info_union, info_and_not, has_uuid, uuid_at, uuid_from, weights_loop,
  gcd_loop, gcd_rounds,
}
use torus.Ring.Types.{Ring, mod_ring, union_ring, ModRing, KetamaRing, HashRing}
use torus.Ring.Mod
use torus.Ring.Ketama
use torus.Ring.Ketama.{build}
use torus.Ring.Calls.{get_peers, members}
use torus.Ring.Targets.{IsPlacement, get_peers-IsPlacement, union_names_both}
use torus.Ring.Changes.{add_peers_mod, remove_peers_mod, add_peers_ketama, remove_peers_ketama}
use torus.Peers.Sets.{has_of_sets}

abbrev key : BlockRef
key = record { inode_ref = record { volume = 1; inode = 2 }; index = 3 }

-- A stand-in for the checksum: the length of the key, 24.
abbrev count_bytes : Bytes → ℕ
count_bytes b = length b + 1

abbrev alpha : PeerInfo
alpha = record { uuid = 10; total_blocks = 40 }

abbrev beta : PeerInfo
beta = record { uuid = 20; total_blocks = 60 }

abbrev gamma : PeerInfo
gamma = record { uuid = 30; total_blocks = 20 }

abbrev two_peers : ModRing
two_peers = record { version = 1; rep = 2; peers = alpha ∷ beta ∷ [] }

abbrev three_peers : ModRing
three_peers = record { version = 2; rep = 2; peers = alpha ∷ beta ∷ gamma ∷ [] }

abbrev changing : Ring
changing = union_ring (mod_ring two_peers) (mod_ring three_peers)

abbrev placed : PeerPermutation
placed = record { replication = 2; peers = 20 ∷ 10 ∷ 30 ∷ [] }

placed_lem : get_peers count_bytes changing key ≡ ok placed
unfolding get_peers Mod.get_peers to_bytes peer_list union has index_at index_from
placed_lem = refl

get_peers-IsPlacement_example : IsPlacement (members changing) placed
unfolding peer_list
get_peers-IsPlacement_example =
    get_peers-IsPlacement count_bytes changing key ((refl, (refl, tt)), (refl, (refl, (refl, tt))))
      placed_lem

union_names_both_example :
    (n : PeerPermutation) × (o : PeerPermutation) × (get_peers count_bytes
        (mod_ring three_peers)
        key
      ≡ ok n)
    × (get_peers count_bytes (mod_ring two_peers) key ≡ ok o)
    × (2 ≡ n.replication)
    × (take (length o.peers) (20 ∷ 10 ∷ 30 ∷ []) ≡ o.peers)
    × ((u : Uuid) → has (20 ∷ 10 ∷ 30 ∷ []) u ≡ (has o.peers u || has n.peers u))
union_names_both_example =
    union_names_both count_bytes (mod_ring two_peers) (mod_ring three_peers) key placed_lem

-- A stand-in for the hash ring: every weighted peer, whatever the key.
abbrev names : Weights → List Uuid
names [] = []
names ((u, x) ∷ w) = u ∷ names w

abbrev all_nodes : Weights → HashRing
all_nodes w = λ k n. (names w, true)

abbrev hashed_two : KetamaRing
hashed_two = record {
  version = 1;
  rep = 2;
  peers = alpha ∷ beta ∷ [];
  ring = all_nodes ((10, 2) ∷ (20, 3) ∷ []);
}

abbrev hashed_three : KetamaRing
hashed_three = record {
  version = 2;
  rep = 2;
  peers = alpha ∷ beta ∷ gamma ∷ [];
  ring = all_nodes ((10, 2) ∷ (20, 3) ∷ (30, 1) ∷ []);
}

abbrev hashed_one : KetamaRing
hashed_one = record { version = 2; rep = 2; peers = beta ∷ []; ring = all_nodes ((20, 1) ∷ []) }

added_lem : Ketama.add_peers all_nodes hashed_two (gamma ∷ []) ≡ ok hashed_three
unfolding Ketama.add_peers build get_weights weights_loop gcd_loop gcd_rounds info_union has_uuid
    uuid_at uuid_from peer_list
added_lem = refl

removed_lem : Ketama.remove_peers all_nodes hashed_two (10 ∷ []) ≡ ok hashed_one
unfolding Ketama.remove_peers build get_weights weights_loop gcd_loop gcd_rounds info_and_not has
    index_at index_from peer_list
removed_lem = refl

add_peers_ketama_example :
    (hashed_three.version ≡ hashed_two.version + 1)
    × (hashed_three.rep ≡ hashed_two.rep)
    × ((u : Uuid)
        → has (peer_list hashed_three.peers) u
          ≡ (has (peer_list hashed_two.peers) u || has (peer_list (gamma ∷ [])) u))
    × (peer_list hashed_three.peers ≢ peer_list hashed_two.peers)
add_peers_ketama_example = add_peers_ketama all_nodes hashed_two hashed_three (gamma ∷ []) added_lem

remove_peers_ketama_example :
    (hashed_one.version ≡ hashed_two.version + 1)
    × (hashed_one.rep ≡ hashed_two.rep)
    × ((u : Uuid)
        → has (peer_list hashed_one.peers) u
          ≡ (has (peer_list hashed_two.peers) u && not (has (10 ∷ []) u)))
    × (length hashed_one.peers ≢ length hashed_two.peers)
remove_peers_ketama_example =
    remove_peers_ketama all_nodes hashed_two hashed_one (10 ∷ []) removed_lem

add_peers_mod_example :
    ((Mod.add_peers two_peers (gamma ∷ []) ≡ err Error.exists_already)
      × ((u : Uuid)
          → has (peer_list (gamma ∷ [])) u ≡ true
          → has (peer_list two_peers.peers) u ≡ true))
    ⊎ ((m' : ModRing) × (Mod.add_peers two_peers (gamma ∷ []) ≡ ok m')
        × (m'.version ≡ 1 + 1)
        × (m'.rep ≡ 2)
        × ((u : Uuid)
            → has (peer_list m'.peers) u
              ≡ (has (peer_list two_peers.peers) u || has (peer_list (gamma ∷ [])) u))
        × ((u : Uuid) × (has (peer_list (gamma ∷ [])) u ≡ true)
            × (has (peer_list two_peers.peers) u ≡ false)))
add_peers_mod_example = add_peers_mod two_peers (gamma ∷ [])

remove_peers_mod_example :
    ((Mod.remove_peers two_peers (10 ∷ []) ≡ err Error.not_exist)
      × ((u : Uuid) → has (peer_list two_peers.peers) u ≡ true → has (10 ∷ []) u ≡ false))
    ⊎ ((m' : ModRing) × (Mod.remove_peers two_peers (10 ∷ []) ≡ ok m')
        × (m'.version ≡ 1 + 1)
        × (m'.rep ≡ 2)
        × ((u : Uuid)
            → has (peer_list m'.peers) u
              ≡ (has (peer_list two_peers.peers) u && not (has (10 ∷ []) u)))
        × ((u : Uuid) × (has (peer_list two_peers.peers) u ≡ true) × (has (10 ∷ []) u ≡ true)))
remove_peers_mod_example = remove_peers_mod two_peers (10 ∷ [])

has_of_sets_example :
    (has (and_not (10 ∷ 20 ∷ []) (20 ∷ [])) 10 ≡ (has (10 ∷ 20 ∷ []) 10 && not (has (20 ∷ []) 10)))
    × (has (union (10 ∷ 20 ∷ []) (20 ∷ [])) 10 ≡ (has (10 ∷ 20 ∷ []) 10 || has (20 ∷ []) 10))
    × (has (intersect (10 ∷ 20 ∷ []) (20 ∷ [])) 10 ≡ (has (10 ∷ 20 ∷ []) 10 && has (20 ∷ []) 10))
has_of_sets_example = has_of_sets (10 ∷ 20 ∷ []) (20 ∷ []) 10
