-- ===== src/Blockset/Layers.antt =====
-- The layers together, as the calls through the interface `blockset` join them. A value holds its
-- layer below; the store is shared by all layers, and its state is passed on.
pub mod Plain
pub mod Writes
pub mod Truncates
mod Checks
use torus.Base.{
  ℕ, zero, suc, ◌+◌, ◌-◌, Bool, true, false, List, [], ◌∷◌, length, ltb, leb, ◌==◌, if◌then◌else◌,
  Bytes, Outcome, ok, err, panic, Error, ◌>>=◌,
}
use torus.Refs.{INodeRef, BlockRef}
use torus.Store.Interface.{BlockStore}
use torus.Blockset.Base
use torus.Blockset.Base.{BaseBlockset}
use torus.Blockset.Crc
use torus.Blockset.Replication
use torus.Blockset.Replication.{ReplicationBlockset}

pub data Blockset : Type 0 where
  base : BaseBlockset → Blockset
  crc : List ℕ → Blockset → Blockset
  rep : ReplicationBlockset → Blockset → Blockset

-- `Length`. The CRC layer would panic on lengths that differ; `Plain` has that they agree.
unfoldable pub length_of : Blockset → ℕ
length_of (base b) = length b.blocks
length_of (crc crcs sub) = length crcs
length_of (rep r sub) = length_of sub

-- `makeID` goes down to the base layer.
unfoldable pub make_id : Blockset → INodeRef → BlockRef × Blockset
make_id (base b) inode = let (r, b') = Base.make_id b inode in (r, base b')
make_id (crc crcs sub) inode = let (r, sub') = make_id sub inode in (r, crc crcs sub')
make_id (rep c sub) inode = let (r, sub') = make_id sub inode in (r, rep c sub')

module _ {S : Type 0} (st : BlockStore S) (checksum : Bytes → ℕ) where
  unfoldable pub get_block : S → Blockset → ℕ → Outcome Bytes
  get_block s (base b) i = Base.get_block st s b i
  get_block s (crc crcs sub) i = Crc.get_block checksum crcs i (get_block s sub i)
  get_block s (rep r sub) i = Replication.get_block st s r i (get_block s sub i)

  -- What a call that may change the layers and the store gives back.
  abbrev pub Put : Type 0
  Put = Outcome (Unit {0}) × Blockset × S

  unfoldable pub base_put : Outcome (Unit {0}) × BaseBlockset × S → Put
  base_put (o, b, s) = (o, base b, s)

  -- `crcBlockset.PutBlock` with the answer of the layer below
  unfoldable pub crc_put : List ℕ → ℕ → Bytes → Put → Put
  crc_put crcs i d (ok _, sub, s) = (ok tt, crc (Crc.put_block checksum crcs i d) sub, s)
  crc_put crcs i d (err e, sub, s) = (err e, crc crcs sub, s)
  crc_put crcs i d (panic, sub, s) = (panic, crc crcs sub, s)

  -- The write of one copy, with the answer of the store; `more` is the rest of the loop.
  unfoldable pub copy_put :
      ReplicationBlockset
      → Blockset
      → ℕ
      → ℕ
      → BlockRef
      → Outcome (Unit {0}) × S
      → (ReplicationBlockset → S → Put)
      → Put
  copy_put r sub k i new (ok _, s) more = elim (Replication.put_copy r.rep_blocks k i new) [
    | ok lists ↦ more (record r { rep_blocks = lists }) s
    | err e ↦ (err e, rep r sub, s)
    | panic ↦ (panic, rep r sub, s)
  ]
  copy_put r sub k i new (err e, s) more = (err e, rep r sub, s)
  copy_put r sub k i new (panic, s) more = (panic, rep r sub, s)

  -- The loop of `replicationBlockset.PutBlock`: `n` rounds from copy `k` on.
  unfoldable pub put_copies :
      ℕ → ℕ → S → ReplicationBlockset → Blockset → INodeRef → ℕ → Bytes → Put
  unfolding copy_put
  put_copies zero k s r sub inode i d = (ok tt, rep r sub, s)
  put_copies (suc n) k s r sub inode i d =
      let (new, sub') = make_id sub inode in
      copy_put r sub' k i new (st.write_block s new d)
        (λ r' s'. put_copies n (k + 1) s' r' sub' inode i d)

  unfoldable pub rep_put : ReplicationBlockset → INodeRef → ℕ → Bytes → Put → Put
  unfolding put_copies
  rep_put r inode i d (ok _, sub, s) = put_copies (r.rep - 1) 0 s r sub inode i d
  rep_put r inode i d (err e, sub, s) = (err e, rep r sub, s)
  rep_put r inode i d (panic, sub, s) = (panic, rep r sub, s)

  unfoldable pub put_block : S → Blockset → INodeRef → ℕ → Bytes → Put
  unfolding base_put crc_put
  put_block s (base b) inode i d = base_put (Base.put_block st s b inode i d)
  put_block s (crc crcs sub) inode i d =
      let below = put_block s sub inode i d in
      if ltb (length crcs) i
      then (err Error.block_not_exist, crc crcs sub, s)
      else crc_put crcs i d below
  put_block s (rep r sub) inode i d =
      let below = put_block s sub inode i d in
      if r.rep == 0 then (err Error.block_unavailable, rep r sub, s) else rep_put r inode i d below

  -- `Truncate` and `Trim`; only the replication layer can panic, and then its value is as before.
  unfoldable pub truncate : Blockset → ℕ → ℕ → Outcome Blockset
  truncate (base b) last_index blocksize = ok (base (Base.truncate b last_index))
  truncate (crc crcs sub) last_index blocksize = do
    sub' ← truncate sub last_index blocksize
    ok (crc (Crc.truncate checksum crcs last_index blocksize) sub')
  truncate (rep r sub) last_index blocksize = do
    sub' ← truncate sub last_index blocksize
    r' ← Replication.truncate r last_index
    ok (rep r' sub')

  unfoldable pub trim : S → Blockset → ℕ → ℕ → Outcome Blockset
  trim s (base b) from to = ok (base (Base.trim b from to))
  trim s (crc crcs sub) from to = do
    sub' ← trim s sub from to
    ok (crc (Crc.trim checksum crcs from to (st.block_size s)) sub')
  trim s (rep r sub) from to = do
    sub' ← trim s sub from to
    r' ← Replication.trim r from to
    ok (rep r' sub')
