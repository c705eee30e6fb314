-- ===== src/Blockset/Layers/Writes.antt =====
-- PutBlock followed by GetBlock, through every stack of base and CRC layers and over every store
-- that keeps its contract.
use torus.Base.{
  ℕ, ◌+◌, ◌≤◌, ◌≡◌, ◌≢◌, refl, sym, ap, ap₂, ◌∙◌, true, false, Option, none, some, List, arith, inl,
  inr, ◌⊎◌, length, get_elem?, ltb, ◌==◌, if◌then◌else◌, Bool-cases, Bytes, ok, err, panic, Outcome,
  Error, ==_self, replicate,
}
use torus.Refs.{INodeRef, BlockRef, is_zero}
use torus.Store.Interface.{BlockStore, Contract, IsUsable}
use torus.Blockset.Base
use torus.Blockset.Base.{BaseBlockset, made_id, next_id, put_at, put_written, get_ref}
use torus.Blockset.Indexing.{get_elem?-put_at_self, get_elem?-put_at_ne, length-put_at}
use torus.Blockset.Crc
use torus.Blockset.Crc.{checked}
use torus.Blockset.Layers.{Blockset, base, crc, rep, length_of, get_block, put_block, crc_put}
use torus.Blockset.Layers.Plain
use torus.Blockset.Layers.Plain.{
  IsPlain, IsFresh, HasRoom, base_of, next_id_lem, made_id-IsUsable, made_id_new, base_put-IsFresh,
}

-- A zero reference made by `makeID` does not exist: its index is not zero.
made_id_nonzero :
    (inode : INodeRef) (b : BaseBlockset) → HasRoom inode b → is_zero (made_id b inode) ≡ false
unfolding is_zero
made_id_nonzero inode b h = ground (arith, next_id_lem inode b h)

module _ {S : Type 0} (st : BlockStore S) (k : Contract st) (checksum : Bytes → ℕ) where
  -- What a successful PutBlock of `d` at `i` leaves: `d` is read back, every other index reads as
  -- before, the invariants hold on, and the blockset has grown by one if it was an append.
  pub record IsStored (inode : INodeRef) (i : ℕ) (d : Bytes) (s : S) (bs : Blockset)
      (bs' : Blockset) (s' : S) : Type 0 where
    pub read_back : get_block st checksum s' bs' i ≡ ok d
    pub others : (j : ℕ) → i ≢ j → get_block st checksum s' bs' j ≡ get_block st checksum s bs j
    pub plain : IsPlain bs'
    pub fresh : IsFresh inode (base_of bs')
    pub valid : k.IsValid s'
    pub within : i ≤ length_of bs
    pub grown : length_of bs' ≡ (if i == length_of bs then length_of bs + 1 else length_of bs)

  put_written_ok :
      (b : BaseBlockset) (new : BlockRef) (i : ℕ) (o : Outcome (Unit {0}) × S)
      → (put_written st b new i o).0 ≡ ok tt
      → (o.0 ≡ ok tt)
        × ((put_written st b new i o).1 ≡ record b { blocks = put_at b.blocks i new })
        × ((put_written st b new i o).2 ≡ o.1)
  unfolding put_written
  put_written_ok b new i (ok _, s) e = (refl, refl, refl)
  put_written_ok b new i (err x, s) e = cc
  put_written_ok b new i (panic, s) e = cc

  -- A successful write of the base layer, taken apart.
  base_ok :
      (s : S) (b : BaseBlockset) (inode : INodeRef) (i : ℕ) (d : Bytes)
      → (Base.put_block st s b inode i d).0 ≡ ok tt
      → (i ≤ length b.blocks)
        × ((st.write_block s (made_id b inode) d).0 ≡ ok tt)
        × ((Base.put_block st s b inode i d).1 ≡ Plain.base_put b inode i)
        × ((Base.put_block st s b inode i d).2 ≡ (st.write_block s (made_id b inode) d).1)
  unfolding Base.put_block
  base_ok s b inode i d e = elim (Bool-cases (ltb (length b.blocks) i)) [
    | inl beyond ↦ let bad : err Error.block_not_exist ≡ ok tt = rw beyond at e in cc
    | inr inside ↦
        let done =
          put_written_ok (record b { ids = next_id b }) (made_id b inode) i
            (st.write_block s (made_id b inode) d) (rw inside at e) in
        rw inside (ground arith, done.0, done.1, done.2)
  ]

  -- A read of an entry that is not the new one is as before the write.
  ref_kept :
      (s : S) (b : BaseBlockset) (inode : INodeRef) (d : Bytes) (o : Option BlockRef)
      → k.IsValid s
      → HasRoom inode b
      → ((r : BlockRef)
          → o ≡ some r
          → (is_zero r ≡ true) ⊎ (IsUsable r × (r.inode_ref ≡ inode → r.index ≤ b.ids)))
      → get_ref st (st.write_block s (made_id b inode) d).1 o ≡ get_ref st s o
  unfolding get_ref
  ref_kept s b inode d none v h entry = refl
  ref_kept s b inode d (some r) v h entry = kept (entry r refl)
    where
      usable : IsUsable (made_id b inode)
      usable = made_id-IsUsable inode b h

      s' : S
      s' = (st.write_block s (made_id b inode) d).1

      size : st.block_size s' ≡ st.block_size s
      size = k.write_size s (made_id b inode) d v usable

      kept :
          (is_zero r ≡ true) ⊎ (IsUsable r × (r.inode_ref ≡ inode → r.index ≤ b.ids))
          → (if is_zero r then ok (replicate (st.block_size s') 0) else st.get_block s' r)
            ≡ (if is_zero r then ok (replicate (st.block_size s) 0) else st.get_block s r)
      kept (inl z) = rw z (ap (λ n. ok (replicate n 0)) size)
      kept (inr (u, old)) =
          let read : st.get_block s' r ≡ st.get_block s r =
            k.write_other s (made_id b inode) r d v usable u (made_id_new inode b r h old) in
          rw (read, size)

  base-IsStored :
      (s : S) (b : BaseBlockset) (inode : INodeRef) (i : ℕ) (d : Bytes)
      → k.IsValid s
      → HasRoom inode b
      → IsFresh inode b
      → length d ≡ st.block_size s
      → i ≤ length b.blocks
      → (st.write_block s (made_id b inode) d).0 ≡ ok tt
      → IsStored inode i d s
          (base b)
          (base (Plain.base_put b inode i))
          (st.write_block s (made_id b inode) d).1
  unfolding get_block Base.get_block length_of get_ref
  base-IsStored s b inode i d v h fresh l within done =
      let usable = made_id-IsUsable inode b h in
      record {
        read_back =
            ap (get_ref st (st.write_block s (made_id b inode) d).1)
              (get_elem?-put_at_self b.blocks i (made_id b inode) within)
            ∙ rw (made_id_nonzero inode b h) (k.write_read s (made_id b inode) d v usable l done);
        others = λ j ne.
            ap (get_ref st (st.write_block s (made_id b inode) d).1)
              (get_elem?-put_at_ne b.blocks i j (made_id b inode) within ne)
            ∙ ref_kept s b inode d (get_elem? b.blocks j) v h (fresh j);
        plain = tt;
        fresh = base_put-IsFresh inode b i h within fresh;
        valid = k.write_valid s (made_id b inode) d v usable;
        within = within;
        grown = length-put_at b.blocks i (made_id b inode) within;
      }

  crc-IsStored :
      (s s' : S) (crcs : List ℕ) (sub sub' : Blockset) (inode : INodeRef) (i : ℕ) (d : Bytes)
      → length crcs ≡ length_of sub
      → IsStored inode i d s sub sub' s'
      → IsStored inode i d s (crc crcs sub) (crc (Crc.put_block checksum crcs i d) sub') s'
  unfolding get_block length_of Crc.get_block Crc.put_block
  crc-IsStored s s' crcs sub sub' inode i d same below =
      let within : i ≤ length crcs = omega (arith, below.within) in
      let size : length (put_at crcs i (checksum d))
          ≡ (if i == length crcs then length crcs + 1 else length crcs) =
        length-put_at crcs i (checksum d) within in
      record {
        read_back =
            ap₂ (Crc.checked_at checksum) (get_elem?-put_at_self crcs i (checksum d) within)
              below.read_back
            ∙ rw (==_self (checksum d));
        others = λ j ne.
            ap₂ (Crc.checked_at checksum) (get_elem?-put_at_ne crcs i j (checksum d) within ne)
              (below.others j ne);
        plain = (size ∙ rw same (sym below.grown), below.plain);
        fresh = below.fresh;
        valid = below.valid;
        within = within;
        grown = size;
      }

  -- The CRC layer's answer, taken apart when it succeeds.
  crc_put_ok :
      (crcs : List ℕ) (i : ℕ) (d : Bytes) (below : Outcome (Unit {0}) × Blockset × S)
      → (crc_put st checksum crcs i d below).0 ≡ ok tt
      → (below.0 ≡ ok tt)
        × (crc_put st checksum crcs i d below
            ≡ (ok tt, crc (Crc.put_block checksum crcs i d) below.1, below.2))
  unfolding crc_put
  crc_put_ok crcs i d (ok _, sub, s) e = (refl, refl)
  crc_put_ok crcs i d (err x, sub, s) e = cc
  crc_put_ok crcs i d (panic, sub, s) e = cc

  -- Through any stack of base and CRC layers, over any store that keeps its contract, with an inode
  -- whose numbers are words and a counter of blocks that is not at its end: a PutBlock that
  -- succeeds with data of the block size is read back by GetBlock at its index, every other index
  -- reads as before, the length grows by one exactly on an append, and the invariants hold on.
  pub put_block-get_block :
      (s : S) (bs : Blockset) (inode : INodeRef) (i : ℕ) (d : Bytes)
      → IsPlain bs
      → k.IsValid s
      → HasRoom inode (base_of bs)
      → IsFresh inode (base_of bs)
      → length d ≡ st.block_size s
      → (put_block st checksum s bs inode i d).0 ≡ ok tt
      → IsStored inode i d s bs
          (put_block st checksum s bs inode i d).1
          (put_block st checksum s bs inode i d).2
  unfolding put_block
  put_block-get_block s (base b) inode i d plain v h fresh l e =
      let done = base_ok s b inode i d e in
      rw (done.2, done.3) (base-IsStored s b inode i d v h fresh l done.0 done.1)
  put_block-get_block s (crc crcs sub) inode i d plain v h fresh l e =
      elim (Bool-cases (ltb (length crcs) i)) [
        | inl beyond ↦ let bad : err Error.block_not_exist ≡ ok tt = rw beyond at e in cc
        | inr inside ↦
            let done =
              crc_put_ok crcs i d (put_block st checksum s sub inode i d) (rw inside at e) in
            rw (inside, done.1)
              (crc-IsStored s (put_block st checksum s sub inode i d).2 crcs sub
                (put_block st checksum s sub inode i d).1 inode i d plain.0
                (put_block-get_block s sub inode i d plain.1 v h fresh l done.0))
      ]
  put_block-get_block s (rep r sub) inode i d plain v h fresh l e = absurd plain
