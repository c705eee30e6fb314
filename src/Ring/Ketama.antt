-- ===== src/Ring/Ketama.antt =====
-- The ketama ring: ring/ketama.go. `new_with_weights` is the constructor of the hashring package.
use torus.Base.{
  ℕ, ◌+◌, Bool, true, false, List, [], ◌∷◌, ◌++◌, length, ltb, ◌==◌, if◌then◌else◌, bytes_eq,
  Outcome, ok, err, Error, ◌>>=◌,
}
use torus.Refs.{BlockRef, to_bytes}
use torus.Peers.{
  Uuid, PeerList, PeerInfoList, PeerPermutation, Weights, peer_list, info_union, info_and_not,
  get_weights,
}
use torus.Ring.Types.{HashRing, KetamaRing}

-- The inner loop of `GetPeers`: is `u` among `s`?
unfoldable pub among : List Uuid → Uuid → Bool
among [] u = false
among (y ∷ s) u = if y == u then true else among s u

-- The outer loop: every peer that the hash ring did not give is appended.
unfoldable pub append_missing : PeerInfoList → List Uuid → List Uuid
unfolding among
append_missing [] s = s
append_missing (x ∷ ps) s = append_missing ps (if among s x.uuid then s else s ++ (x.uuid ∷ []))

-- The end of `GetPeers`, with the peers in order.
unfoldable pub permutation_of : KetamaRing → List Uuid → Outcome PeerPermutation
permutation_of k s =
    if length s == length k.peers
    then ok (record {
      replication = if ltb (length k.peers) k.rep then length k.peers else k.rep;
      peers = s;
    })
    else err (Error.other 1)

-- `ketama.GetPeers` on what `GetNodes` gave.
unfoldable pub peers_of_nodes : KetamaRing → List Uuid × Bool → Outcome PeerPermutation
unfolding append_missing permutation_of
peers_of_nodes k (s, enough) =
    if enough
    then permutation_of k s
    else if length s == 0
    then err (Error.other 0)
    else permutation_of k (append_missing k.peers s)

unfoldable pub get_peers : KetamaRing → BlockRef → Outcome PeerPermutation
unfolding peers_of_nodes
get_peers k key = peers_of_nodes k (k.ring (to_bytes key) (length k.peers))

module _ (new_with_weights : Weights → HashRing) where
  -- A ring at these peers; `GetWeights` may panic.
  unfoldable pub build : ℕ → ℕ → PeerInfoList → Outcome KetamaRing
  build version rep peers = do
    weights ← get_weights peers
    ok (record { version = version; rep = rep; peers = peers; ring = new_with_weights weights })

  -- `makeKetama`, on the fields of the message
  unfoldable pub make_ketama : ℕ → ℕ → PeerInfoList → Outcome KetamaRing
  unfolding build
  make_ketama version factor peers = build version (if factor == 0 then 1 else factor) peers

  -- `ketama.AddPeers`
  unfoldable pub add_peers : KetamaRing → PeerInfoList → Outcome KetamaRing
  unfolding build
  add_peers k peers =
      let new_peers = info_union k.peers peers in
      if bytes_eq (peer_list new_peers) (peer_list k.peers)
      then err Error.exists_already
      else build (k.version + 1) k.rep new_peers

  -- `ketama.RemovePeers`
  unfoldable pub remove_peers : KetamaRing → PeerList → Outcome KetamaRing
  unfolding build
  remove_peers k pl =
      let new_peers = info_and_not k.peers pl in
      if length new_peers == length (peer_list k.peers)
      then err Error.not_exist
      else build (k.version + 1) k.rep new_peers

-- `ketama.ChangeReplication`, for a number that is not negative; the code takes any `int`.
unfoldable pub change_replication : KetamaRing → ℕ → Outcome KetamaRing
change_replication k r =
    ok (record { version = k.version + 1; rep = r; peers = k.peers; ring = k.ring })
