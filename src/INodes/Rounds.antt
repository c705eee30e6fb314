-- ===== src/INodes/Rounds.antt =====
-- The loop of `WriteINode` of inode.go ends: the rounds of the model are enough.
use torus.Base.{
  ℕ, zero, suc, ◌+◌, ◌-◌, ◌≤◌, ◌<◌, ◌≡◌, ◌≢◌, refl, Bool, true, false, arith, length, drop,
  replicate, length-drop, ltb, ◌==◌, if◌then◌else◌, Bytes, Outcome, ok, err, panic,
}
use torus.Refs.{INodeRef, BlockRef}
use torus.Store.Interface.{BlockStore}
use torus.INodes.{filled, inode_block, write_blocks, head_block, write_inode}

abbrev round :
    {S : Type 0}
    → Bool
    → Outcome (Unit {0})
    → Outcome (Unit {0}) × S
    → S
    → S
    → Outcome (Unit {0}) × S
round b a rest s s' =
    if b then (ok tt, s) else elim a [ ok _ ↦ rest | err e ↦ (err e, s') | panic ↦ (panic, s') ]

calm_round :
    {S : Type 0} (b : Bool) (a : Outcome (Unit {0})) (rest : Outcome (Unit {0}) × S) (s s' : S)
    → a ≢ panic
    → (b ≡ false → rest.0 ≢ panic)
    → (round b a rest s s').0 ≢ panic
calm_round true a rest s s' h k e = cc
calm_round false (ok _) rest s s' h k e = k refl e
calm_round false (err x) rest s s' h k e = cc
calm_round false panic rest s s' h k e = h refl

module _ {S : Type 0} (st : BlockStore S)
    (steady : (s : S) (r : BlockRef) (d : Bytes)
      → st.block_size (st.write_block s r d).1 ≡ st.block_size s)
    (calm : (s : S) (r : BlockRef) (d : Bytes) → (st.write_block s r d).0 ≢ panic) where
  write_blocks-ends :
      (fuel : ℕ) (s : S) (i : INodeRef) (index offset : ℕ) (buf d : Bytes)
      → offset < st.block_size s
      → length d ≤ fuel
      → (write_blocks st fuel s i index offset buf d).0 ≢ panic
  unfolding write_blocks
  write_blocks-ends zero s i index offset buf d inside h =
      let empty : (length d == 0) ≡ true = ground arith in by_test (length d == 0) empty
    where
      by_test :
          (b : Bool)
          → b ≡ true
          → ◌≡◌ {A = Outcome (Unit {0})} (if b then ok tt else panic) panic
          → ⊥
      by_test true e = λ h. cc
      by_test false e = λ h. cc
  write_blocks-ends (suc fuel) s i index offset buf d inside h =
      let size = st.block_size s in
      let w = st.write_block s (inode_block i index) (filled size offset buf d) in
      let left = drop (size - offset) d in
      let rest = write_blocks st fuel w.1 i (index + 1) 0 (replicate (st.block_size w.1) 0) left in
      calm_round (length d == 0) w.0 rest s w.1
        (calm s (inode_block i index) (filled size offset buf d))
        (λ some_.
          write_blocks-ends fuel w.1 i (index + 1) 0 _ left
            (omega (arith, steady s (inode_block i index) (filled size offset buf d)))
            (ground (arith, length-drop (size - offset) d)))

  -- The first block may have no room behind the length.
  first-ends :
      (fuel : ℕ) (s : S) (i : INodeRef) (offset : ℕ) (buf d : Bytes)
      → offset ≤ st.block_size s
      → 0 < st.block_size s
      → length d ≤ fuel
      → (write_blocks st (suc fuel) s i 1 offset buf d).0 ≢ panic
  unfolding write_blocks
  first-ends fuel s i offset buf d room size h =
      let n = st.block_size s - offset in
      let blk = filled (st.block_size s) offset buf d in
      let w = st.write_block s (inode_block i 1) blk in
      calm_round (length d == 0) w.0
        (write_blocks st fuel w.1 i (1 + 1) 0 (replicate (st.block_size w.1) 0) (drop n d)) s w.1
        (calm s (inode_block i 1) blk)
        (λ some_.
          write_blocks-ends fuel w.1 i (1 + 1) 0 _ (drop n d)
            (omega (arith, steady s (inode_block i 1) blk)) (omega (arith, length-drop n d)))

  -- Over a store whose writes keep the block size and never panic, WriteINode of an inode that is not
  -- zero never panics, with blocks of four bytes or more: it does not run out of rounds.
  pub write_inode-ends :
      (s : S) (i : INodeRef) (d : Bytes)
      → 0 < i.inode
      → 4 ≤ st.block_size s
      → (write_inode st s i d).0 ≢ panic
  unfolding write_inode
  write_inode-ends s i d pos size =
      let not_zero : (i.inode == 0) ≡ false = ground arith in
      let big : ltb (st.block_size s) 4 ≡ false = ground arith in
      let one_more : length d + 1 ≡ suc (length d) = omega arith in
      rw (not_zero, big, one_more)
        (first-ends (length d) s i 4 (head_block (st.block_size s) d) d size (omega arith)
          (omega arith))
