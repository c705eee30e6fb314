-- ===== src/Ring/Types.antt =====
-- The ring types: ring/ring_main.go and the struct of each ring.
use torus.Base.{ℕ, Bytes, Bool, List}
use torus.Peers.{Uuid, PeerInfo, PeerInfoList}

-- The consistent-hash ring of github.com/serialx/hashring, by its one method that is called:
-- `GetNodes` with a key and a number of nodes gives nodes and whether there were enough.
abbrev pub HashRing : Type 0
HashRing = Bytes → ℕ → List Uuid × Bool

-- The numbers of the ring types, as they are marshaled.
abbrev pub type_empty : ℕ
type_empty = 0

abbrev pub type_single : ℕ
type_single = 1

abbrev pub type_mod : ℕ
type_mod = 2

abbrev pub type_union : ℕ
type_union = 3

abbrev pub type_ketama : ℕ
type_ketama = 4

pub record ModRing : Type 0 where
  pub version : ℕ
  pub rep : ℕ
  pub peers : PeerInfoList

pub record KetamaRing : Type 0 where
  pub version : ℕ
  pub rep : ℕ
  pub peers : PeerInfoList
  pub ring : HashRing

-- The implementations of `torus.Ring`. A single ring keeps its permutation, which is its peer.
pub data Ring : Type 0 where
  empty : ℕ → Ring
  single : ℕ → PeerInfo → Ring
  mod_ring : ModRing → Ring
  ketama : KetamaRing → Ring
  union_ring : Ring → Ring → Ring
