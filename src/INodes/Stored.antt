-- ===== src/INodes/Stored.antt =====
-- An inode that was written is read back, over any store that keeps its contract.
use torus.Base.{
  ℕ, zero, suc, ◌+◌, ◌-◌, ◌≤◌, ◌<◌, ◌≡◌, ◌≢◌, refl, sym, ap, ◌∙◌, true, false, [], ◌∷◌, arith, inl,
  inr, length, take, drop, splice, length-splice, length-take, length-drop, take-append-drop,
  take_all, slice-splice_self, u64_mod, ltb, ◌==◌, Bool-cases, Bytes, ok,
}
use torus.Refs.{INodeRef, BlockRef, volume_bits, set_block_type, type_inode}
use torus.Refs.Fields.{set_block_type_fields}
use torus.Store.Interface.{BlockStore, Contract, IsUsable}
use torus.INodes.{inode_block, filled, read_blocks}

-- The numbers of an inode reference: a volume below 2 ^ 40, and a word that is not zero.
pub record IsINode (i : INodeRef) : Type 0 where
  pub volume_lt : i.volume < volume_bits
  pub inode_pos : 0 < i.inode
  pub inode_lt : i.inode < u64_mod

pub inode_block-IsUsable :
    (i : INodeRef) (index : ℕ)
    → IsINode i
    → 0 < index
    → index < u64_mod
    → IsUsable (inode_block i index)
unfolding inode_block
inode_block-IsUsable i index v pos lt =
    let (kind, volume, number, place, fits) =
      set_block_type_fields type_inode (record { inode_ref = i; index = index }) v.volume_lt
        (omega arith) in
    record {
      in_range = record {
        volume_lt = fits;
        inode_lt = rw number v.inode_lt;
        index_lt = rw place lt;
      };
      nonzero =
          λ e. let zero_ : index ≡ 0 = sym place ∙ ap (λ (r : BlockRef). r.index) e in omega arith;
    }

pub inode_block_ne : (i : INodeRef) (a b : ℕ) → a ≢ b → inode_block i a ≢ inode_block i b
unfolding inode_block set_block_type
inode_block_ne i a b ne e = ne (ap (λ (r : BlockRef). r.index) e)

-- The part of a block that a round fills, read back.
pub take-filled :
    (size offset : ℕ) (buf d : Bytes)
    → length buf ≡ size
    → offset ≤ size
    → take offset (filled size offset buf d) ≡ take offset buf
take-filled size offset buf d l h = slice-below (take (size - offset) d) offset buf
  where
    slice-below : (ys : Bytes) (n : ℕ) (xs : Bytes) → take n (splice n ys xs) ≡ take n xs
    slice-below ys zero xs = refl
    slice-below ys (suc n) [] = refl
    slice-below ys (suc n) (x ∷ xs) = ap (λ l. x ∷ l) (slice-below ys n xs)

-- What stands behind the offset begins with what was copied there.
pub read_filled :
    (size offset : ℕ) (buf d : Bytes)
    → length buf ≡ size
    → offset ≤ size
    → take (length d) (drop offset (filled size offset buf d)) ≡ take (size - offset) d
read_filled size offset buf d l h = elim (Bool-cases (ltb (size - offset) (length d))) [
  | inl longer ↦
      let part : Bytes = take (size - offset) d in
      let n : length part ≡ size - offset = ground (arith, length-take (size - offset) d) in
      let tail : Bytes = drop offset (splice offset part buf) in
      let size_tail : length tail ≡ length part = omega (
        arith,
        length-drop offset (splice offset part buf),
        length-splice offset part buf,
        l,
        n,
        h,
      ) in
      take_all (length d) tail (ground (arith, size_tail, n))
      ∙ sym (take_all (length part) tail (omega (arith, size_tail)))
      ∙ slice-splice_self offset part buf (omega (arith, n, l, h))
  | inr fits ↦
      let all : take (size - offset) d ≡ d = take_all (size - offset) d (ground arith) in
      rw all (slice-splice_self offset d buf (ground (arith, l, h)))
]

module _ {S : Type 0} (st : BlockStore S) (k : Contract st) where
  -- What the loop of `WriteINode` leaves when it has written `d` from block `index` on: the block
  -- keeps what stood in front of the data, the loop of `GetINode` reads the data, and every block
  -- that is not one of these is as before.
  pub record HasData (s : S) (i : INodeRef) (index offset : ℕ) (buf d : Bytes) (s' : S)
      : Type 0 where
    pub first :
        (blk : Bytes) × (st.get_block s' (inode_block i index) ≡ ok blk)
        × (take offset blk ≡ take offset buf)
        × ((fuel : ℕ)
            → length d ≤ fuel
            → read_blocks st fuel s' i index (length d) (drop offset blk) ≡ ok d)
    pub others :
        (q : BlockRef)
        → IsUsable q
        → ((j : ℕ) → index ≤ j → inode_block i j ≢ q)
        → st.get_block s' q ≡ st.get_block s q
    pub valid : k.IsValid s'
    pub same_size : st.block_size s' ≡ st.block_size s

  -- The data ends in this block.
  pub last_block :
      (s s' : S) (i : INodeRef) (index offset : ℕ) (buf d blk : Bytes)
      → 0 < length d
      → st.get_block s' (inode_block i index) ≡ ok blk
      → take offset blk ≡ take offset buf
      → take (length d) (drop offset blk) ≡ d
      → (fuel : ℕ) → length d ≤ fuel
      → read_blocks st fuel s' i index (length d) (drop offset blk) ≡ ok d
  unfolding read_blocks
  last_block s s' i index offset buf d blk some_ got front part zero h = absurd (omega arith)
  last_block s s' i index offset buf d blk some_ got front part (suc fuel) h =
      let some_left : (length d == 0) ≡ false = ground arith in
      let all_read : (length d - length d == 0) ≡ true = ground arith in
      rw (part, some_left, all_read) refl

  -- The data goes on in the next block.
  pub more_blocks :
      (s' : S) (i : INodeRef) (index offset n : ℕ) (d blk next : Bytes)
      → 0 < n
      → n < length d
      → take (length d) (drop offset blk) ≡ take n d
      → st.get_block s' (inode_block i (index + 1)) ≡ ok next
      → ((fuel : ℕ)
          → length (drop n d) ≤ fuel
          → read_blocks st fuel s' i (index + 1) (length (drop n d)) next ≡ ok (drop n d))
      → (fuel : ℕ) → length d ≤ fuel
      → read_blocks st fuel s' i index (length d) (drop offset blk) ≡ ok d
  unfolding read_blocks
  more_blocks s' i index offset n d blk next some_ less part got rest zero h = absurd (omega arith)
  more_blocks s' i index offset n d blk next some_ less part got rest (suc fuel) h =
      let size : length (take n d) ≡ n = ground (arith, length-take n d) in
      let left : length d - length (take n d) ≡ length (drop n d) =
        omega (arith, size, length-drop n d) in
      let some_left : (length d == 0) ≡ false = ground arith in
      let not_all : (length (drop n d) == 0) ≡ false = ground (arith, length-drop n d) in
      rw (part, some_left, left, not_all, got, rest fuel (omega (arith, length-drop n d)))
        (ap ok (take-append-drop n d))
