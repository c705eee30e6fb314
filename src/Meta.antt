-- ===== src/Meta.antt =====
-- The metadata service in memory, metadata/temp/temp.go: the server that its clients share. A string
-- (a UUID, a name, a key) is only compared, so a number stands for it, 0 for the empty one. The server's
-- mutex makes each call one step; a call that blocks with the mutex held is `none`.
pub mod Volumes
pub mod Runs
pub mod Stops
pub mod Locks
pub mod Holding
pub mod Found
pub mod Exclusion
mod Checks
use torus.Base.{
  ℕ, ◌+◌, ◌%◌, Bool, true, false, List, [], ◌∷◌, ◌++◌, map, Option, none, some, Bytes, u64_mod,
  ◌==◌, ◌&&◌, if◌then◌else◌, Outcome, ok, err, panic, Error,
}
use torus.Refs.{INodeRef}
use torus.Peers.{PeerInfo, PeerInfoList, Uuid}
use torus.Ring.Types.{Ring, empty}
use torus.Ring.Calls.{version}
use torus.NumMap.{NumMap, find, put, remove, find_or}

pub record Volume : Type 0 where
  pub name : ℕ
  pub id : ℕ
  pub kind : ℕ
  pub max_bytes : ℕ

pub record Snapshot : Type 0 where
  pub name : ℕ
  pub time : ℕ
  pub inode_ref : Bytes

-- `blockTempVolumeData` of block/temp.go; `locked` is the UUID of the client that holds the lock.
pub record VolumeData : Type 0 where
  pub locked : Uuid
  pub id : INodeRef
  pub snaps : List Snapshot

-- `sent` holds what was sent to a channel, the oldest first.
pub record Server : Type 0 where
  pub inode : NumMap ℕ
  pub vol : ℕ
  pub vol_index : NumMap Volume
  pub peers : PeerInfoList
  pub ring : Ring
  pub keys : NumMap VolumeData
  pub ring_listeners : List ℕ
  pub sent : List (ℕ × Ring)

unfoldable pub new_server : Server
new_server = record {
  inode = [];
  vol = 0;
  vol_index = [];
  peers = [];
  ring = empty 1;
  keys = [];
  ring_listeners = [];
  sent = [];
}

-- The loop of `RegisterPeer`, and what is appended behind it
unfoldable pub replace_peer : PeerInfoList → PeerInfo → PeerInfoList
replace_peer [] pi = pi ∷ []
replace_peer (p ∷ ps) pi = if p.uuid == pi.uuid then pi ∷ ps else p ∷ replace_peer ps pi

unfoldable pub register_peer : Server → PeerInfo → Server
unfolding replace_peer
register_peer s pi = record s { peers = replace_peer s.peers pi }

unfoldable pub new_volume_id : Server → ℕ × Server
new_volume_id s = ((s.vol + 1) % u64_mod, record s { vol = (s.vol + 1) % u64_mod })

unfoldable pub get_inode_index : Server → ℕ → ℕ
get_inode_index s vol = find_or 0 vol s.inode

unfoldable pub commit_inode_index : Server → ℕ → ℕ × Server
unfolding get_inode_index
commit_inode_index s vol =
    let next = (get_inode_index s vol + 1) % u64_mod in
    (next, record s { inode = put vol next s.inode })

unfoldable pub get_volumes : Server → List Volume × ℕ
get_volumes s = (map (λ e. e.1) s.vol_index, s.vol)

unfoldable pub create_volume : Server → Volume → Server
create_volume s v = record s { vol_index = put v.name v s.vol_index; inode = put v.id 1 s.inode }

-- A missing volume is an error made on the spot.
unfoldable pub get_volume : Server → ℕ → Outcome Volume
get_volume s name = elim (find name s.vol_index) [ none ↦ err (Error.other 0) | some v ↦ ok v ]

unfoldable pub subscribe_new_rings : Server → ℕ → Server
subscribe_new_rings s ch = record s { ring_listeners = s.ring_listeners ++ (ch ∷ []) }

-- The loop of `UnsubscribeNewRings`: the list without the first such channel.
unfoldable pub without : List ℕ → ℕ → Option (List ℕ)
without [] ch = none
without (c ∷ cs) ch =
    let rest = without cs ch in
    if ch == c then some cs else elim rest [ none ↦ none | some l ↦ some (c ∷ l) ]

unfoldable pub unsubscribe_new_rings : Server → ℕ → Outcome Server
unfolding without
unsubscribe_new_rings s ch = elim (without s.ring_listeners ch) [
  | none ↦ panic
  | some l ↦ ok (record s { ring_listeners = l })
]

-- Whether each listener takes what is sent to its channel
unfoldable pub all_receive : (ℕ → Bool) → List ℕ → Bool
all_receive receives [] = true
all_receive receives (c ∷ cs) = receives c && all_receive receives cs

-- `SetRing`: the version before the new one is that of the ring in place. A version of 0 has -1
-- before it. The ring is sent to each listener with the mutex held; `receives` tells which channels
-- take it, and a channel that does not blocks the call, `none`, and with it the mutex.
unfoldable pub set_ring : (ℕ → Bool) → Server → Ring → Option (Outcome (Unit {0}) × Server)
unfolding all_receive
set_ring receives s r =
    if version r == version s.ring + 1
    then (if all_receive receives s.ring_listeners
        then some
            (ok tt, record s { ring = r; sent = s.sent ++ map (λ c. (c, r)) s.ring_listeners })
        else none)
    else some (err Error.non_sequential_ring, s)

unfoldable pub get_data : Server → ℕ → Option VolumeData
get_data s x = find x s.keys

unfoldable pub set_data : Server → ℕ → VolumeData → Server
set_data s x v = record s { keys = put x v s.keys }

-- `Client.DeleteVolume`, which takes the mutex: with the mutex held it never returns, `none`.
unfoldable pub delete_volume_data : Bool → Server → ℕ → Option (Server)
delete_volume_data true s name = none
delete_volume_data false s name =
    some (record s { keys = remove name s.keys; vol_index = remove name s.vol_index })
