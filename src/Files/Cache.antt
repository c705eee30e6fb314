-- ===== src/Files/Cache.antt =====
-- `singleBlockCache` of file_cache.go: one block that is being written and one that was read. An
-- index of -1 is `none`, as is a nil slice. A slice bound behind the length panics here; Go allows it
-- up to the capacity, but a file keeps its bounds within the block.
use torus.Base.{
  ℕ, ◌+◌, Bool, true, false, ◌&&◌, Option, none, some, [], length, replicate, splice, ltb, leb,
  ◌==◌, if◌then◌else◌, Bytes, Outcome, ok, err, panic,
}
use torus.Refs.{INodeRef, zero_inode}
use torus.Files.Ops.{BlocksetOps}

pub record SingleBlockCache (B : Type 0) : Type 0 where
  pub open_idx : Option ℕ
  pub open_data : Option Bytes
  pub open_wrote : Bool
  pub ref : INodeRef
  pub blocks : B
  pub read_idx : Option ℕ
  pub read_data : Option Bytes
  pub blk_size : ℕ

-- `idx == i`
abbrev pub is_at : Option ℕ → ℕ → Bool
is_at none i = false
is_at (some j) i = j == i

-- A slice as its bytes
abbrev pub or_nil : Option Bytes → Bytes
or_nil none = []
or_nil (some d) = d

abbrev pub is_some : Option Bytes → Bool
is_some none = false
is_some (some d) = true

module _ {B : Type 0} (o : BlocksetOps B) where
  unfoldable pub new_single_block_cache : B → ℕ → SingleBlockCache B
  new_single_block_cache bs blk_size = record {
    open_idx = none;
    open_data = none;
    open_wrote = false;
    ref = zero_inode;
    blocks = bs;
    read_idx = none;
    read_data = none;
    blk_size = blk_size;
  }

  unfoldable pub new_inode : SingleBlockCache B → INodeRef → SingleBlockCache B
  new_inode c ref = record c { ref = ref }

  -- The end of `sync`, with the answer of PutBlock: also a failed write is not tried again.
  unfoldable pub synced :
      SingleBlockCache B → Outcome (Unit {0}) × B → Outcome (Unit {0}) × SingleBlockCache B
  synced c (ok _, b) = (ok tt, record c { blocks = b; open_wrote = false })
  synced c (err e, b) = (err e, record c { blocks = b; open_wrote = false })
  synced c (panic, b) = (panic, record c { blocks = b })

  -- The write of the open block; PutBlock at -1 panics.
  unfoldable pub sync_open : SingleBlockCache B → Option ℕ → Outcome (Unit {0}) × SingleBlockCache B
  unfolding synced
  sync_open c none = (panic, c)
  sync_open c (some i) = synced c (o.put_block c.blocks c.ref i (or_nil c.open_data))

  unfoldable pub sync : SingleBlockCache B → Outcome (Unit {0}) × SingleBlockCache B
  unfolding sync_open
  sync c = if c.open_wrote then sync_open c c.open_idx else (ok tt, c)

  -- The end of `openBlock`, with the answer of GetBlock
  unfoldable pub opened :
      SingleBlockCache B → ℕ → Outcome Bytes → Outcome (Unit {0}) × SingleBlockCache B
  opened c i (ok d) = (ok tt, record c { open_data = some d; open_idx = some i })
  opened c i (err e) = (err e, c)
  opened c i panic = (panic, c)

  -- `openBlock`, once the block that was open is written
  unfoldable pub open_at : SingleBlockCache B → ℕ → Outcome (Unit {0}) × SingleBlockCache B
  unfolding opened
  open_at c i =
      if i == o.length_of c.blocks
      then (ok tt, record c { open_data = some (replicate c.blk_size 0); open_idx = some i })
      else if ltb (o.length_of c.blocks) i
      then (panic, c)
      else if is_at c.read_idx i
      then (
        ok tt,
        record c { open_idx = some i; open_data = c.read_data; read_data = none; read_idx = none },
      )
      else opened c i (o.get_block c.blocks i)

  unfoldable pub open_synced :
      ℕ → Outcome (Unit {0}) × SingleBlockCache B → Outcome (Unit {0}) × SingleBlockCache B
  unfolding open_at
  open_synced i (ok _, c) = open_at c i
  open_synced i (err e, c) = (err e, c)
  open_synced i (panic, c) = (panic, c)

  unfoldable pub open_block : SingleBlockCache B → ℕ → Outcome (Unit {0}) × SingleBlockCache B
  unfolding open_synced
  open_block c i =
      if is_at c.open_idx i && is_some c.open_data then (ok tt, c) else open_synced i (sync c)

  -- `copy(sb.openData[from:to], data)`
  unfoldable pub copy_in : SingleBlockCache B → ℕ → ℕ → Bytes → Outcome ℕ × SingleBlockCache B
  copy_in c from to d =
      if leb to (length (or_nil c.open_data))
      then (ok (length d), record c { open_data = some (splice from d (or_nil c.open_data)) })
      else (panic, c)

  -- `writeToBlock`, once the block is open
  unfoldable pub write_open :
      ℕ → ℕ → Bytes → Outcome (Unit {0}) × SingleBlockCache B → Outcome ℕ × SingleBlockCache B
  unfolding copy_in
  write_open from to d (ok _, c) =
      let c' : SingleBlockCache B = record c { open_wrote = true } in
      if to == from + length d then copy_in c' from to d else (panic, c')
  write_open from to d (err e, c) = (err e, c)
  write_open from to d (panic, c) = (panic, c)

  unfoldable pub write_to_block :
      SingleBlockCache B → ℕ → ℕ → ℕ → Bytes → Outcome ℕ × SingleBlockCache B
  unfolding write_open
  write_to_block c i from to d =
      write_open from to d (if is_at c.open_idx i then (ok tt, c) else open_block c i)

  -- `openRead` with the answer of GetBlock, and the slice that `getBlock` then returns
  unfoldable pub opened_read :
      SingleBlockCache B → ℕ → Outcome Bytes → Outcome Bytes × SingleBlockCache B
  opened_read c i (ok d) = (ok d, record c { read_data = some d; read_idx = some i })
  opened_read c i (err e) = (err e, c)
  opened_read c i panic = (panic, c)

  unfoldable pub get_block : SingleBlockCache B → ℕ → Outcome Bytes × SingleBlockCache B
  unfolding opened_read
  get_block c i =
      if is_at c.open_idx i
      then (ok (or_nil c.open_data), c)
      else if is_at c.read_idx i
      then (ok (or_nil c.read_data), c)
      else opened_read c i (o.get_block c.blocks i)
