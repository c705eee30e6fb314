-- ===== src/Meta/Runs.antt =====
-- Calls of many clients on the server of metadata/temp/temp.go, in the order in which they get its mutex.
use torus.Base.{ℕ, Bool, List, [], ◌∷◌, Option, none, some, Outcome, ok, err, panic}
use torus.Refs.{INodeRef}
use torus.Peers.{Uuid, PeerInfo}
use torus.Ring.Types.{Ring}
use torus.Meta.{
  Server, Volume, register_peer, new_volume_id, commit_inode_index, subscribe_new_rings,
  unsubscribe_new_rings, set_ring,
}
use torus.Meta.Volumes.{
  create_block_volume, lock, sync_inode, unlock, delete_volume, save_snapshot, delete_snapshot,
}

-- The calls that change the server; those on a volume begin with its number. A new ring comes with
-- the channels that take it.
pub data Call : Type 0 where
  create : Volume → Call
  locks : ℕ → Call
  syncs : ℕ → INodeRef → Call
  unlocks : ℕ → Call
  deletes : ℕ → ℕ → Call
  saves : ℕ → ℕ → ℕ → Call
  drops : ℕ → ℕ → Call
  commits : ℕ → Call
  new_volume : Call
  registers : PeerInfo → Call
  subscribes : ℕ → Call
  unsubscribes : ℕ → Call
  rings : (ℕ → Bool) → Ring → Call

-- The server behind a call that may never return
abbrev pub returned : Option (Outcome (Unit {0}) × Server) → Option Server
returned none = none
returned (some r) = some r.1

-- The server behind a call that may panic, which ends the process that has the server
abbrev pub survived : Outcome (Unit {0}) → Server → Option Server
survived (ok _) s = some s
survived (err e) s = some s
survived panic s = none

abbrev pub unsubscribed : Outcome Server → Server → Option Server
unsubscribed (ok t) s = some t
unsubscribed (err e) s = some s
unsubscribed panic s = none

module _ (sprint : ℕ → ℕ) (require : Bool → Outcome (Unit {0})) where
  -- The server after a call of the client `u`; `none` if the call stops the server for good: it
  -- holds the mutex and never returns, or it panics. No later call then returns to anybody.
  unfoldable pub apply : Uuid → Server → Call → Option Server
  apply u s (create v) =
      survived (create_block_volume sprint require s v).0 (create_block_volume sprint require s v).1
  apply u s (locks vid) = some (lock sprint u s vid).1
  apply u s (syncs vid i) = some (sync_inode sprint u s vid i).1
  apply u s (unlocks vid) = some (unlock sprint u s vid).1
  apply u s (deletes vid name) = returned (delete_volume sprint u name s vid)
  apply u s (saves vid name now) = some (save_snapshot sprint s vid name now).1
  apply u s (drops vid name) = some (delete_snapshot sprint s vid name).1
  apply u s (commits vol) = some (commit_inode_index s vol).1
  apply u s new_volume = some (new_volume_id s).1
  apply u s (registers pi) = some (register_peer s pi)
  apply u s (subscribes ch) = some (subscribe_new_rings s ch)
  apply u s (unsubscribes ch) = unsubscribed (unsubscribe_new_rings s ch) s
  apply u s (rings receives r) = returned (set_ring receives s r)

  -- The server after calls one after the other; `none` once one of them has stopped it
  unfoldable pub run : List (Uuid × Call) → Server → Option Server
  unfolding apply
  run [] s = some s
  run ((w, c) ∷ cs) s = elim (apply w s c) [ none ↦ none | some t ↦ run cs t ]
