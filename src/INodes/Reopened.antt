-- ===== src/INodes/Reopened.antt =====
-- An inode that `WriteINode` of inode.go wrote is read back by `GetINode`, over any store that keeps its contract.
use torus.Base.{
  ℕ, zero, suc, ◌+◌, ◌-◌, ◌^◌, ◌≤◌, ◌<◌, ◌≡◌, ◌≢◌, subst, refl, sym, ap, ◌∙◌, Bool, true, false, [],
  arith, inl, inr, length, take, drop, replicate, length-splice, length-take, length-drop,
  length-replicate, length-le_bytes, le_value-le_bytes, Fits-u32, slice-splice_self, take_all,
  drop_all, u64_mod, ltb, ◌==◌, if◌then◌else◌, Bool-cases, Bytes, le_bytes, le_value, Outcome, ok,
  err, panic,
}
use torus.Refs.{INodeRef, BlockRef}
use torus.Store.Interface.{BlockStore, Contract, IsUsable}
use torus.INodes.{inode_block, filled, write_blocks, head_block, write_inode, read_first, get_inode}
use torus.INodes.Stored.{
  IsINode, inode_block-IsUsable, inode_block_ne, take-filled, read_filled, HasData, last_block,
  more_blocks,
}

abbrev step :
    {S : Type 0} → Outcome (Unit {0}) → Outcome (Unit {0}) × S → S → Outcome (Unit {0}) × S
step a rest s' = elim a [ ok _ ↦ rest | err e ↦ (err e, s') | panic ↦ (panic, s') ]

-- A step that ends well went on with the rest.
went_on :
    {S : Type 0} (a : Outcome (Unit {0})) (rest : Outcome (Unit {0}) × S) (s' : S)
    → (step a rest s').0 ≡ ok tt
    → (a ≡ ok tt) × (step a rest s' ≡ rest)
went_on (ok _) rest s' h = (refl, refl)
went_on (err e) rest s' h = cc
went_on panic rest s' h = cc

module _ {S : Type 0} (st : BlockStore S) (k : Contract st) where
  write_blocks_nil :
      (fuel : ℕ) (s : S) (i : INodeRef) (index offset : ℕ) (buf : Bytes)
      → write_blocks st fuel s i index offset buf [] ≡ (ok tt, s)
  unfolding write_blocks
  write_blocks_nil zero s i index offset buf = refl
  write_blocks_nil (suc fuel) s i index offset buf = refl

  fits-HasData :
      (s : S) (i : INodeRef) (index offset : ℕ) (buf d : Bytes)
      → IsINode i
      → k.IsValid s
      → 0 < index
      → index < u64_mod
      → offset < st.block_size s
      → length buf ≡ st.block_size s
      → 0 < length d
      → length d ≤ st.block_size s - offset
      → (st.write_block s (inode_block i index) (filled (st.block_size s) offset buf d)).0 ≡ ok tt
      → HasData st k s i index offset buf d
          (st.write_block s (inode_block i index) (filled (st.block_size s) offset buf d)).1
  fits-HasData s i index offset buf d vi v pos lt inside lbuf some_ fits wrote =
      let size = st.block_size s in
      let r = inode_block i index in
      let blk = filled size offset buf d in
      let u = inode_block-IsUsable i index vi pos lt in
      let s1 = (st.write_block s r blk).1 in
      let full : length blk ≡ size = length-splice offset (take (size - offset) d) buf ∙ lbuf in
      let got : st.get_block s1 r ≡ ok blk = k.write_read s r blk v u full wrote in
      let front = take-filled size offset buf d lbuf (omega arith) in
      let part : take (length d) (drop offset blk) ≡ d =
        read_filled size offset buf d lbuf (omega arith) ∙ take_all (size - offset) d fits in
      record {
        first =
            (blk, got, front, last_block st k s s1 i index offset buf d blk some_ got front part);
        others = λ q uq ne. k.write_other s r q blk v u uq (ne index (omega arith));
        valid = k.write_valid s r blk v u;
        same_size = k.write_size s r blk v u;
      }

  longer-HasData :
      (s : S) (i : INodeRef) (index offset : ℕ) (buf d : Bytes) (s2 : S)
      → IsINode i
      → k.IsValid s
      → 0 < index
      → index < u64_mod
      → offset < st.block_size s
      → length buf ≡ st.block_size s
      → st.block_size s - offset < length d
      → (st.write_block s (inode_block i index) (filled (st.block_size s) offset buf d)).0 ≡ ok tt
      → (buf' : Bytes)
      → HasData st k
          (st.write_block s (inode_block i index) (filled (st.block_size s) offset buf d)).1
          i
          (index + 1)
          0
          buf'
          (drop (st.block_size s - offset) d)
          s2
      → HasData st k s i index offset buf d s2
  longer-HasData s i index offset buf d s2 vi v pos lt inside lbuf longer wrote buf' rest =
      let size = st.block_size s in
      let r = inode_block i index in
      let blk = filled size offset buf d in
      let u = inode_block-IsUsable i index vi pos lt in
      let s1 = (st.write_block s r blk).1 in
      let full : length blk ≡ size = length-splice offset (take (size - offset) d) buf ∙ lbuf in
      let kept : st.get_block s2 r ≡ st.get_block s1 r =
        rest.others r u (λ j h. inode_block_ne i j index (λ e. omega arith)) in
      let got : st.get_block s2 r ≡ ok blk = kept ∙ k.write_read s r blk v u full wrote in
      let (next, got_next, _, reads) = rest.first in
      record {
        first = (
          blk,
          got,
          take-filled size offset buf d lbuf (omega arith),
          more_blocks st k s2 i index offset (size - offset) d blk next (omega arith) longer
              (read_filled size offset buf d lbuf (omega arith)) got_next reads,
        );
        others = λ q uq ne.
            rest.others q uq (λ j h. ne j (omega arith))
            ∙ k.write_other s r q blk v u uq (ne index (omega arith));
        valid = rest.valid;
        same_size = rest.same_size ∙ k.write_size s r blk v u;
      }

  write_blocks-HasData :
      (fuel : ℕ) (s : S) (i : INodeRef) (index offset : ℕ) (buf d : Bytes)
      → IsINode i
      → k.IsValid s
      → 0 < index
      → index + length d < u64_mod
      → offset < st.block_size s
      → length buf ≡ st.block_size s
      → 0 < length d
      → (write_blocks st fuel s i index offset buf d).0 ≡ ok tt
      → HasData st k s i index offset buf d (write_blocks st fuel s i index offset buf d).1
  unfolding write_blocks
  write_blocks-HasData zero s i index offset buf d vi v pos lt inside lbuf some_ h =
      let not_empty : (length d == 0) ≡ false = ground arith in
      absurd (stopped (length d == 0) not_empty h)
    where
      stopped :
          (b : Bool)
          → b ≡ false
          → ◌≡◌ {A = Outcome (Unit {0})} (if b then ok tt else panic) (ok tt)
          → ⊥
      stopped true e h = cc
      stopped false e h = cc
  write_blocks-HasData (suc fuel) s i index offset buf d vi v pos lt inside lbuf some_ h =
      let size = st.block_size s in
      let blk = filled size offset buf d in
      let w = st.write_block s (inode_block i index) blk in
      let left = drop (size - offset) d in
      let rest = write_blocks st fuel w.1 i (index + 1) 0 (replicate (st.block_size w.1) 0) left in
      let not_empty : (length d == 0) ≡ false = ground arith in
      let (wrote, e) =
        went_on w.0 rest w.1
          (sym (ap (λ b. (if b then (ok tt, s) else step w.0 rest w.1).0) not_empty) ∙ h) in
      let u = inode_block-IsUsable i index vi pos (omega arith) in
      let same = k.write_size s (inode_block i index) blk v u in
      let result : write_blocks st (suc fuel) s i index offset buf d ≡ rest =
        ap (λ b. if b then (ok tt, s) else step w.0 rest w.1) not_empty ∙ e in
      subst (λ t. HasData st k s i index offset buf d t.1) (sym result)
        (elim (Bool-cases (ltb (size - offset) (length d))) [
          | inl longer ↦
              longer-HasData s i index offset buf d rest.1 vi v pos (omega arith) inside lbuf
                (ground arith) wrote _
                (write_blocks-HasData fuel w.1 i (index + 1) 0 _ left vi (k.write_valid s _ blk v u)
                  (omega arith) (omega (arith, length-drop (size - offset) d)) (omega (arith, same))
                  (length-replicate _ _) (ground (arith, length-drop (size - offset) d))
                  (sym (ap (λ t. t.0) result) ∙ h))
          | inr fits ↦
              let none_left : left ≡ [] = drop_all (size - offset) d (ground arith) in
              let end : rest ≡ (ok tt, w.1) =
                ap
                  (λ l.
                    write_blocks st fuel w.1 i (index + 1) 0 (replicate (st.block_size w.1) 0) l)
                  none_left
                ∙ write_blocks_nil fuel w.1 i (index + 1) 0 _ in
              subst (λ t. HasData st k s i index offset buf d t.1) (sym end)
                (fits-HasData s i index offset buf d vi v pos (omega arith) inside lbuf some_
                  (ground arith) wrote)
        ])

  -- The store in which the inode is, and where nothing but its blocks has changed.
  pub record IsStored (s : S) (i : INodeRef) (d : Bytes) (s' : S) : Type 0 where
    read_back : get_inode st s' i ≡ ok d
    others :
        (q : BlockRef)
        → IsUsable q
        → ((j : ℕ) → 0 < j → inode_block i j ≢ q)
        → st.get_block s' q ≡ st.get_block s q
    valid : k.IsValid s'

  get_inode-HasData :
      (s s' : S) (i : INodeRef) (d : Bytes)
      → IsINode i
      → 4 < st.block_size s
      → length d < 2 ^ 32
      → HasData st k s i 1 4 (head_block (st.block_size s) d) d s'
      → get_inode st s' i ≡ ok d
  unfolding get_inode read_first
  get_inode-HasData s s' i d vi size lt data_ =
      let (blk, got, front, reads) = data_.first in
      let size_head : length (le_bytes 4 (length d)) ≡ 4 = length-le_bytes 4 (length d) in
      let head : take 4 blk ≡ le_bytes 4 (length d) =
        front
        ∙ ap (λ n. take n (head_block (st.block_size s) d)) (sym size_head)
        ∙ slice-splice_self 0 (le_bytes 4 (length d)) (replicate (st.block_size s) 0)
            (omega (arith, size_head, length-replicate {A = ℕ} (st.block_size s) 0)) in
      let value : le_value (take 4 blk) ≡ length d =
        ap le_value head ∙ le_value-le_bytes 4 (length d) (Fits-u32 (length d) lt) in
      let not_zero : (i.inode == 0) ≡ false = let p = vi.inode_pos in ground arith in
      let long : ltb (length blk) 4 ≡ false =
        ground (arith, length-take 4 blk, ap length head, size_head) in
      rw (not_zero, got, long, value) (reads (length d + 1) (omega arith))

  -- Over any store that keeps its contract, with blocks of more than four bytes: after a WriteINode
  -- of a non-empty marshaled inode below 2 ^ 32 bytes that succeeds, GetINode gives those bytes
  -- back, every block that is not one of the inode reads as before, and the store is valid.
  pub write_inode-IsStored :
      (s : S) (i : INodeRef) (d : Bytes)
      → IsINode i
      → k.IsValid s
      → 4 < st.block_size s
      → 0 < length d
      → length d < 2 ^ 32
      → (write_inode st s i d).0 ≡ ok tt
      → IsStored s i d (write_inode st s i d).1
  unfolding write_inode
  write_inode-IsStored s i d vi v size some_ lt h =
      let not_zero : (i.inode == 0) ≡ false = let p = vi.inode_pos in ground arith in
      let big : ltb (st.block_size s) 4 ≡ false = ground arith in
      let out : Outcome (Unit {0}) × S =
        write_blocks st (length d + 1) s i 1 4 (head_block (st.block_size s) d) d in
      let result : write_inode st s i d ≡ out = rw (not_zero, big) refl in
      let data_ : HasData st k s i 1 4 (head_block (st.block_size s) d) d out.1 =
        write_blocks-HasData (length d + 1) s i 1 4 (head_block (st.block_size s) d) d vi v
          (omega arith) (omega arith) (omega arith)
          (length-splice 0 (le_bytes 4 (length d)) (replicate (st.block_size s) 0)
            ∙ length-replicate (st.block_size s) 0)
          some_ (sym (ap (λ t. t.0) result) ∙ h) in
      subst (λ t. IsStored s i d t.1) (sym result)
        (record {
          read_back = get_inode-HasData s out.1 i d vi size lt data_;
          others = λ q u ne. data_.others q u (λ j le. ne j (omega arith));
          valid = data_.valid;
        })
