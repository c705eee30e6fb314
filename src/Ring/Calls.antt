-- ===== src/Ring/Calls.antt =====
-- The interface `torus.Ring` over the kinds of rings: GetPeers, Members, Version, Type, and the
-- empty, single and union rings (ring/empty.go, ring/single.go, ring/union.go).
use torus.Base.{ℕ, [], ◌∷◌, Bytes, Outcome, ok, err, Error, ◌>>=◌}
use torus.Refs.{BlockRef}
use torus.Peers.{PeerList, PeerInfo, PeerInfoList, PeerPermutation, peer_list, union}
use torus.Ring.Types.{
  Ring, empty, single, mod_ring, ketama, union_ring, type_empty, type_single, type_mod, type_union,
  type_ketama,
}
use torus.Ring.Mod
use torus.Ring.Ketama

-- `makeSingle`, on the fields of the message
unfoldable pub make_single : ℕ → PeerInfoList → Outcome Ring
make_single version [] = err Error.invalid
make_single version (p ∷ []) = ok (single version p)
make_single version (p ∷ (q ∷ ps)) = err Error.invalid

-- `empty.GetPeers`
abbrev pub empty_permutation : PeerPermutation
empty_permutation = record { replication = 0; peers = [] }

-- `single.permutation`
abbrev pub single_permutation : PeerInfo → PeerPermutation
single_permutation p = record { replication = 1; peers = p.uuid ∷ [] }

-- `unionRing.GetPeers` on the answers of its rings: the new ring is asked first.
unfoldable pub union_permutation :
    Outcome PeerPermutation → Outcome PeerPermutation → Outcome PeerPermutation
union_permutation of_new of_old = do
  n ← of_new
  o ← of_old
  ok (record { replication = n.replication; peers = union o.peers n.peers })

unfoldable pub get_peers : (Bytes → ℕ) → Ring → BlockRef → Outcome PeerPermutation
unfolding union_permutation
get_peers checksum (empty v) key = ok empty_permutation
get_peers checksum (single v p) key = ok (single_permutation p)
get_peers checksum (mod_ring m) key = Mod.get_peers checksum m key
get_peers checksum (ketama k) key = Ketama.get_peers k key
get_peers checksum (union_ring old new) key =
    union_permutation (get_peers checksum new key) (get_peers checksum old key)

unfoldable pub members : Ring → PeerList
members (empty v) = []
members (single v p) = p.uuid ∷ []
members (mod_ring m) = peer_list m.peers
members (ketama k) = peer_list k.peers
members (union_ring old new) = union (members new) (members old)

-- The version of a union ring is that of its new ring.
unfoldable pub version : Ring → ℕ
version (empty v) = v
version (single v p) = v
version (mod_ring m) = m.version
version (ketama k) = k.version
version (union_ring old new) = version new

unfoldable pub ring_type : Ring → ℕ
ring_type (empty v) = type_empty
ring_type (single v p) = type_single
ring_type (mod_ring m) = type_mod
ring_type (ketama k) = type_ketama
ring_type (union_ring old new) = type_union
