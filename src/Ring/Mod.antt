-- ===== src/Ring/Mod.antt =====
-- The mod ring: ring/mod.go. The checksum is `crc32.ChecksumIEEE`, a parameter; `int` has 64 bits.
use torus.Base.{
  ℕ, ◌+◌, ◌-◌, ◌%◌, not, length, take, drop, replicate, splice, ltb, ◌==◌, if◌then◌else◌, Bytes,
  bytes_eq, Outcome, ok, err, Error,
}
use torus.Refs.{BlockRef, to_bytes}
use torus.Peers.{PeerList, PeerInfoList, PeerPermutation, peer_list, info_union, info_and_not}
use torus.Ring.Types.{ModRing}

-- `makeMod`, on the fields of the message
unfoldable pub make_mod : ℕ → ℕ → PeerInfoList → ModRing
make_mod version factor peers = record {
  version = version;
  rep = if factor == 0 then 1 else factor;
  peers = peers;
}

-- `copy(permute, peerlist[sum:])` and `copy(permute[len(peerlist)-sum:], peerlist[:sum])` on a
-- fresh slice; 0 stands for the empty string.
unfoldable pub permute_from : ℕ → PeerList → PeerList
permute_from sum peerlist =
    splice (length peerlist - sum) (take sum peerlist)
      (splice 0 (drop sum peerlist) (replicate (length peerlist) 0))

-- `mod.GetPeers`. The type conversion to `sort.StringSlice` does not sort.
unfoldable pub get_peers : (Bytes → ℕ) → ModRing → BlockRef → Outcome PeerPermutation
unfolding permute_from
get_peers checksum m key =
    let peerlist = peer_list m.peers in
    if length peerlist == 0
    then err (Error.other 0)
    else if not (length peerlist == length m.peers)
    then err (Error.other 1)
    else ok (record {
      replication = if ltb (length m.peers) m.rep then length m.peers else m.rep;
      peers = permute_from (checksum (to_bytes key) % length m.peers) peerlist;
    })

-- `mod.AddPeers`; `reflect.DeepEqual` on two lists of identifiers compares them entry by entry.
unfoldable pub add_peers : ModRing → PeerInfoList → Outcome ModRing
add_peers m peers =
    let new_peers = info_union m.peers peers in
    if bytes_eq (peer_list new_peers) (peer_list m.peers)
    then err Error.exists_already
    else ok (record { version = m.version + 1; rep = m.rep; peers = new_peers })

-- `mod.RemovePeers`
unfoldable pub remove_peers : ModRing → PeerList → Outcome ModRing
remove_peers m pl =
    let new_peers = info_and_not m.peers pl in
    if length new_peers == length m.peers
    then err Error.not_exist
    else ok (record { version = m.version + 1; rep = m.rep; peers = new_peers })

-- `mod.ChangeReplication`, for a number that is not negative; the code takes any `int`.
unfoldable pub change_replication : ModRing → ℕ → Outcome ModRing
change_replication m r = ok (record { version = m.version + 1; rep = r; peers = m.peers })
