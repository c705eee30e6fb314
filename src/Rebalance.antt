-- ===== src/Rebalance.antt =====
-- One tick of the rebalancer, distributor/rebalance/tick.go: up to fifty blocks of the local store are sent
-- to the peers that the ring wants them on, and those that belong elsewhere are deleted. The two maps over which the
-- code goes in any order are lists here.
pub mod Sends
pub mod Lists
pub mod Plans
pub mod Scans
pub mod Moves
mod Checks
use torus.Base.{
  ℕ, zero, suc, ◌+◌, Bool, true, false, List, [], ◌∷◌, ◌++◌, map, Option, none, some, length, take,
  ltb, ◌==◌, if◌then◌else◌, Bytes, Outcome, ok, err, panic, Error, ◌>>=◌,
}
use torus.Refs.{BlockRef}
use torus.RefMap.{RefMap, lookup, insert}
use torus.NumMap.{NumMap, put, find_or}
use torus.Peers.{Uuid, PeerList, PeerPermutation, index_at}
use torus.Store.Interface.{BlockStore}

abbrev pub max_iters : ℕ
max_iters = 50

-- What the first loop finds: the blocks for each peer, those to delete here, and the dead ones.
pub record Plan : Type 0 where
  pub wanted : NumMap (List BlockRef)
  pub to_delete : RefMap Bool
  pub dead : RefMap Bool

-- Whether `mine` is the index `j`
abbrev pub is_mine : Option ℕ → ℕ → Bool
is_mine none j = false
is_mine (some i) j = i == j

-- The loop over the desired peers, from index `j` on
unfoldable pub want_from :
    ℕ → Option ℕ → PeerList → BlockRef → NumMap (List BlockRef) → NumMap (List BlockRef)
want_from j mine [] r m = m
want_from j mine (p ∷ ps) r m =
    want_from (j + 1) mine ps r (if is_mine mine j then m else put p (find_or [] p m ++ (r ∷ [])) m)

-- A round of the first loop for a block that is not dead; a replication above the number of peers
-- is a slice out of range.
unfoldable pub plan_block : Uuid → Plan → BlockRef → PeerPermutation → Outcome Plan
unfolding want_from
plan_block me x r perm =
    let desired = take perm.replication perm.peers in
    let mine = index_at desired me in
    if ltb (length perm.peers) perm.replication
    then panic
    else ok (record x {
      wanted = want_from 0 mine desired r x.wanted;
      to_delete = elim mine [ none ↦ insert r true x.to_delete | some i ↦ x.to_delete ];
    })

-- What the rebalancer calls: the collector, the ring, and the server's own UUID
pub record Guide : Type 0 where
  pub is_dead : BlockRef → Bool
  pub get_peers : BlockRef → Outcome PeerPermutation
  pub me : Uuid

-- The first loop, over the references that the iterator has left; the last component tells that it
-- has ended.
unfoldable pub scan : Guide → ℕ → List BlockRef → Plan → Outcome (Plan × List BlockRef × Bool)
unfolding plan_block
scan g zero refs x = ok (x, refs, false)
scan g (suc k) [] x = ok (x, [], true)
scan g (suc k) (r ∷ rs) x =
    let buried = scan g k rs (record x { dead = insert r true x.dead }) in
    let planned = g.get_peers r >>= λ perm. plan_block g.me x r perm >>= λ x'. scan g k rs x' in
    if g.is_dead r then buried else planned

-- The other peers, with a state of their own
pub record CheckAndSender (W : Type 0) : Type 0 where
  pub check : W → Uuid → List BlockRef → Outcome (List Bool) × W
  pub put_block : W → Uuid → BlockRef → Bytes → Outcome (Unit {0}) × W

-- What the second loop changes
pub record Sent (W : Type 0) : Type 0 where
  pub world : W
  pub to_delete : RefMap Bool
  pub n : ℕ

-- The blocks stay: `toDelete[blk] = false` for each
unfoldable pub refuse : RefMap Bool → List BlockRef → RefMap Bool
refuse m [] = m
refuse m (r ∷ rs) = refuse (insert r false m) rs

abbrev pub is_marked : RefMap Bool → BlockRef → Bool
is_marked m r = elim (lookup r m) [ none ↦ false | some b ↦ b ]

abbrev pub keys : RefMap Bool → List BlockRef
keys m = map (λ e. e.0) m

module _ {S W : Type 0} (st : BlockStore S) (cs : CheckAndSender W) where
  -- The end of a send, with what PutBlock gave
  unfoldable pub sent : Sent W → BlockRef → Outcome (Unit {0}) × W → Outcome (Sent W)
  sent x r (ok _, w) = ok (record x { world = w; n = x.n + 1 })
  sent x r (err e, w) =
      ok (record x { world = w; n = x.n + 1; to_delete = insert r false x.to_delete })
  sent x r (panic, w) = panic

  -- A block that the peer does not have, with what the local GetBlock gave
  unfoldable pub send_data : Sent W → Uuid → BlockRef → Outcome Bytes → Outcome (Sent W)
  unfolding sent
  send_data x p r (ok d) = sent x r (cs.put_block x.world p r d)
  send_data x p r (err e) = ok x
  send_data x p r panic = panic

  -- The loop over the answers of a peer
  unfoldable pub send_list : S → Sent W → Uuid → List BlockRef → List Bool → Outcome (Sent W)
  unfolding send_data
  send_list s x p rs [] = ok x
  send_list s x p [] (true ∷ oks) = send_list s x p [] oks
  send_list s x p [] (false ∷ oks) = panic
  send_list s x p (r ∷ rs) (true ∷ oks) = send_list s x p rs oks
  send_list s x p (r ∷ rs) (false ∷ oks) =
      send_data x p r (st.get_block s r) >>= λ x'. send_list s x' p rs oks

  -- A peer's answer
  unfoldable pub answered :
      S → Sent W → Uuid → List BlockRef → Outcome (List Bool) × W → Outcome (Sent W)
  unfolding send_list refuse
  answered s x p rs (ok oks, w) = send_list s (record x { world = w }) p rs oks
  answered s x p rs (err e, w) = ok (record x { world = w; to_delete = refuse x.to_delete rs })
  answered s x p rs (panic, w) = panic

  -- The second loop
  unfoldable pub send_all : S → Sent W → NumMap (List BlockRef) → Outcome (Sent W)
  unfolding answered
  send_all s x [] = ok x
  send_all s x ((p, rs) ∷ m) = answered s x p rs (cs.check x.world p rs) >>= λ x'. send_all s x' m

  -- The loops that delete, over the keys of a map: those with the value true are deleted, and an
  -- error is only logged.
  unfoldable pub delete_marked : S → RefMap Bool → List BlockRef → Outcome S
  delete_marked s m [] = ok s
  delete_marked s m (r ∷ rs) =
      let (a, s') = st.delete_block s r in
      let kept = delete_marked s m rs in
      let rest = delete_marked s' m rs in
      if is_marked m r then elim a [ ok _ ↦ rest | err e ↦ rest | panic ↦ panic ] else kept

  -- `Tick`, from the references that the iterator has left: how many blocks were sent, whether the
  -- iterator has ended, and what is left of it.
  unfoldable pub tick : Guide → S → W → List BlockRef → Outcome ((ℕ × Bool) × List BlockRef × S × W)
  unfolding scan send_all delete_marked
  tick g s w refs =
      scan g max_iters refs (record { wanted = []; to_delete = []; dead = [] }) >>= λ t.
      send_all s (record { world = w; to_delete = t.0.to_delete; n = 0 }) t.0.wanted >>= λ x.
      delete_marked s x.to_delete (keys x.to_delete) >>= λ s1.
      delete_marked s1 t.0.dead (keys t.0.dead) >>= λ s2. ok ((x.n, t.2), t.1, s2, x.world)
