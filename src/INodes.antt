-- ===== src/INodes.antt =====
-- `INodeStore` of inode.go: inodes in blocks of their own type, over a block store. The marshaled
-- inode is given as bytes (its message is generated code); its length is below 2 ^ 32.
pub mod Stored
pub mod Reopened
pub mod Rounds
mod Checks
use torus.Base.{
  ℕ, zero, suc, ◌+◌, ◌-◌, ◌/◌, Bool, true, false, ◌&&◌, Option, none, some, List, [], ◌∷◌, ◌++◌,
  length, take, drop, replicate, splice, min, ltb, leb, ◌==◌, if◌then◌else◌, Bytes, le_bytes,
  le_value, Outcome, ok, err, panic, Error, ◌>>=◌,
}
use torus.Refs.{INodeRef, BlockRef, set_block_type, block_type, type_inode}
use torus.Store.Interface.{BlockStore}

-- The reference of block `index` of the inode
unfoldable pub inode_block : INodeRef → ℕ → BlockRef
inode_block i index = set_block_type type_inode (record { inode_ref = i; index = index })

-- `buf` with the data copied to `from`, as far as both go
abbrev pub filled : ℕ → ℕ → Bytes → Bytes → Bytes
filled size from buf d = splice from (take (size - from) d) buf

-- The first block, which begins with the length
abbrev pub head_block : ℕ → Bytes → Bytes
head_block size d = splice 0 (le_bytes 4 (length d)) (replicate size 0)

module _ {S : Type 0} (st : BlockStore S) where
  -- The loop of `WriteINode`: a round writes block `index`, `buf` with what fits of the data behind
  -- `offset`. One round more than there are bytes is enough: only the first may
  -- copy nothing, in blocks of four bytes.
  unfoldable pub write_blocks : ℕ → S → INodeRef → ℕ → ℕ → Bytes → Bytes → Outcome (Unit {0}) × S
  write_blocks zero s i index offset buf d = (if length d == 0 then ok tt else panic, s)
  write_blocks (suc k) s i index offset buf d =
      let size = st.block_size s in
      let (a, s') = st.write_block s (inode_block i index) (filled size offset buf d) in
      let rest =
        write_blocks k s' i (index + 1) 0 (replicate (st.block_size s') 0)
          (drop (size - offset) d) in
      if length d == 0
      then (ok tt, s)
      else elim a [ ok _ ↦ rest | err e ↦ (err e, s') | panic ↦ (panic, s') ]

  unfoldable pub write_inode : S → INodeRef → Bytes → Outcome (Unit {0}) × S
  unfolding write_blocks
  write_inode s i d =
      if i.inode == 0
      then (panic, s)
      else if ltb (st.block_size s) 4
      then (panic, s)
      else write_blocks (length d + 1) s i 1 4 (head_block (st.block_size s) d) d

  -- The loop of `GetINode`: `want` bytes, the first of them from `avail`, what is left of block
  -- `index`. An empty block would never end it; here it comes to a panic.
  unfoldable pub read_blocks : ℕ → S → INodeRef → ℕ → ℕ → Bytes → Outcome Bytes
  read_blocks zero s i index want avail = if want == 0 then ok [] else panic
  read_blocks (suc k) s i index want avail =
      let part = take want avail in
      let more = st.get_block s (inode_block i (index + 1)) >>= λ blk.
      read_blocks k s i (index + 1) (want - length part) blk >>= λ rest. ok (part ++ rest) in
      if want == 0 then ok [] else if want - length part == 0 then ok part else more

  unfoldable pub read_first : S → INodeRef → Bytes → Outcome Bytes
  unfolding read_blocks
  read_first s i d =
      if ltb (length d) 4
      then panic
      else read_blocks (le_value (take 4 d) + 1) s i 1 (le_value (take 4 d)) (drop 4 d)

  -- `GetINode`, up to the marshaled inode
  unfoldable pub get_inode : S → INodeRef → Outcome Bytes
  unfolding read_first
  get_inode s i =
      if i.inode == 0 then panic else st.get_block s (inode_block i 1) >>= λ d. read_first s i d

  -- The loop of `DeleteINode`: `k` blocks from `index` on
  unfoldable pub delete_blocks : ℕ → S → INodeRef → ℕ → Outcome (Unit {0}) × S
  delete_blocks zero s i index = (ok tt, s)
  delete_blocks (suc k) s i index =
      let (a, s') = st.delete_block s (inode_block i index) in
      let rest = delete_blocks k s' i (index + 1) in
      elim a [ ok _ ↦ rest | err e ↦ (err e, s') | panic ↦ (panic, s') ]

  unfoldable pub delete_found : S → INodeRef → Outcome Bytes → Outcome (Unit {0}) × S
  unfolding delete_blocks
  delete_found s i (ok d) =
      if ltb (length d) 4
      then (panic, s)
      else delete_blocks (le_value (take 4 d) / st.block_size s + 1) s i 1
  delete_found s i (err e) = (err e, s)
  delete_found s i panic = (panic, s)

  unfoldable pub delete_inode : S → INodeRef → Outcome (Unit {0}) × S
  unfolding delete_found
  delete_inode s i =
      if i.inode == 0 then (panic, s) else delete_found s i (st.get_block s (inode_block i 1))

-- `INodeIterator.Next` over the references that a block iterator has left: the next first block of an
-- inode, and what is left behind it.
unfoldable pub next_inode : List BlockRef → Option (INodeRef × List BlockRef)
next_inode [] = none
next_inode (r ∷ rs) =
    if block_type r == type_inode && r.index == 1 then some (r.inode_ref, rs) else next_inode rs
