-- ===== src/Files/Layered.antt =====
-- The stacks of layers as the blockset of a file: the value is the stack with the state of its store.
use torus.Base.{ℕ, Bytes, Outcome, ok, err, panic}
use torus.Refs.{INodeRef}
use torus.Store.Interface.{BlockStore, Contract}
use torus.Blockset.Layers
use torus.Blockset.Layers.{Blockset}
use torus.Blockset.Layers.Plain.{IsPlain, IsFresh, HasRoom, base_of}
use torus.Blockset.Layers.Writes.{put_block-get_block}
use torus.Files.Ops.{BlocksetOps, IsWritable}

module _ {S : Type 0} (st : BlockStore S) (checksum : Bytes → ℕ) where
  abbrev pub with_store : S → Outcome Blockset → Blockset → Outcome (Unit {0}) × (Blockset × S)
  with_store s (ok bs') bs = (ok tt, (bs', s))
  with_store s (err e) bs = (err e, (bs, s))
  with_store s panic bs = (panic, (bs, s))

  abbrev pub layered : BlocksetOps (Blockset × S)
  layered = record {
    length_of = λ b. Layers.length_of b.0;
    get_block = λ b i. Layers.get_block st checksum b.1 b.0 i;
    put_block =
        λ b inode i d. let p = Layers.put_block st checksum b.1 b.0 inode i d in (p.0, (p.1, p.2));
    truncate = λ b n size. with_store b.1 (Layers.truncate st checksum b.0 n size) b.0;
    trim = λ b from to. with_store b.1 (Layers.trim st checksum b.1 b.0 from to) b.0;
  }

  -- A plain stack over a store that keeps its contract takes the next write.
  pub layered-IsWritable :
      (k : Contract st) (s : S) (bs : Blockset) (inode : INodeRef)
      → IsPlain bs
      → k.IsValid s
      → HasRoom inode (base_of bs)
      → IsFresh inode (base_of bs)
      → IsWritable layered (st.block_size s) inode (bs, s)
  layered-IsWritable k s bs inode plain v room fresh i d l done =
      let w = put_block-get_block st k checksum s bs inode i d plain v room fresh l done in
      record { read_back = w.read_back; others = w.others; within = w.within; grown = w.grown }
