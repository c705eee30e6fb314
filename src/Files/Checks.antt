-- ===== src/Files/Checks.antt =====
-- Runs of a file over the layers "crc,base" and the store in memory, and instances of the laws.
use torus.Base.{
  ℕ, zero, suc, ◌+◌, ◌-◌, ◌≤◌, ◌<◌, ◌≡◌, refl, sym, ap, ◌∙◌, ◌/◌, Bool, true, false, none, some, [],
  ◌∷◌, arith, inl, inr, length, min, ltb, if◌then◌else◌, Bytes, Outcome, ok, err, panic,
}
use torus.Refs.{BlockRef, INodeRef, is_zero, block_ref_eq}
use torus.Store.Interface.{IsUsable}
use torus.Store.Temp
use torus.Store.Temp.{TempBlockStore, used_blocks}
use torus.Store.Temp.Reads.{temp_store, temp_contract}
use torus.Blockset.Base
use torus.Blockset.Base.{get_ref}
use torus.Blockset.Crc
use torus.Blockset.Layers
use torus.Blockset.Layers.{Blockset, base, crc}
use torus.Blockset.Layers.Plain.{IsFresh, base_of}
use torus.Files.Ops.{IsWritable}
use torus.Files.Cache.{
  SingleBlockCache, sync, write_to_block, open_block, open_synced, open_at, opened,
  new_single_block_cache,
}
use torus.Files.View.{IsCache, view}
use torus.Files.Writing.{IsWritten, write_to_block-IsWritten}
use torus.Files.Cache
use torus.Files.File.{
  File, eof, open_write, write_at, update_size, write_start, write_front, write_rest, write_bulk,
  write_tail, write_part,
}
use torus.Files.Reader.{read_at, read_loop, read_part}
use torus.Files.Reading.{HasRead, read_at-HasRead}
use torus.Files.WriteAt.{IsReady, HasWritten, write_at-HasWritten}
use torus.Files.Layered.{layered, layered-IsWritable}

abbrev count_bytes : Bytes → ℕ
count_bytes d = length d + 1

abbrev file_inode : INodeRef
file_inode = record { volume = 1; inode = 2 }

abbrev first_ref : BlockRef
first_ref = record { inode_ref = file_inode; index = 1 }

abbrev one_block : TempBlockStore
one_block = record {
  store = some ((first_ref, 1 ∷ 2 ∷ 3 ∷ 4 ∷ []) ∷ []);
  n_blocks = 4;
  block_size = 4;
}

abbrev stack : Blockset
stack = crc (5 ∷ []) (base (record { ids = 1; blocks = first_ref ∷ [] }))

abbrev cache_0 : SingleBlockCache (Blockset × TempBlockStore)
cache_0 = record {
  open_idx = none;
  open_data = none;
  open_wrote = false;
  ref = file_inode;
  blocks = (stack, one_block);
  read_idx = none;
  read_data = none;
  blk_size = 4;
}

abbrev file_0 : File (Blockset × TempBlockStore)
file_0 = record {
  blk_size = 4;
  offset = 0;
  read_only = false;
  volume_id = 1;
  inode = record { volume = 1; inode = 2; filesize = 3 };
  replaces = 1;
  cache = cache_0;
  write_inode_ref = file_inode;
  write_open = true;
}

sizes :
    (i : ℕ) (d : Bytes)
    → Layers.get_block temp_store count_bytes one_block stack i ≡ ok d
    → (length d ≡ 4) × (i + 1 ≤ 1)
unfolding Layers.get_block Crc.get_block Base.get_block get_ref is_zero Temp.get_block block_ref_eq
sizes zero d h = let e : 1 ∷ 2 ∷ 3 ∷ 4 ∷ [] ≡ d = cc in (ap length (sym e), omega arith)
sizes (suc i) d h = cc

cache_0-IsCache : IsCache (layered temp_store count_bytes) cache_0
unfolding Layers.length_of
cache_0-IsCache = record {
  blocks_ok = record { sized = λ i d h. (sizes i d h).0; inside = λ i d h. (sizes i d h).1 };
  open_ok = λ i e. cc;
  none_open = λ e. refl;
  read_ok = λ i e. cc;
}

first_ref-IsUsable : IsUsable first_ref
first_ref-IsUsable = record {
  in_range = omega arith;
  nonzero = λ e. let index : ◌≡◌ {A = ℕ} 1 0 = ap (λ (r : BlockRef). r.index) e in omega arith;
}

fresh : IsFresh file_inode (base_of stack)
fresh zero r h = let e : first_ref ≡ r = cc in rw (← e) (inr (first_ref-IsUsable, λ q. omega arith))
fresh (suc j) r h = cc

bounded : used_blocks one_block ≤ 4
unfolding used_blocks
bounded = omega arith

cache_0-IsWritable : IsWritable (layered temp_store count_bytes) 4 file_inode (stack, one_block)
unfolding Layers.length_of
cache_0-IsWritable =
    layered-IsWritable temp_store count_bytes temp_contract one_block stack file_inode (refl, tt)
      bounded (record { volume_lt = omega arith; inode_lt = omega arith; ids_lt = omega arith })
      fresh

syncs : (sync (layered temp_store count_bytes) cache_0).0 ≡ ok tt
unfolding sync
syncs = refl

readable : view (layered temp_store count_bytes) cache_0 0 ≡ ok (1 ∷ 2 ∷ 3 ∷ 4 ∷ [])
unfolding Layers.get_block Crc.get_block Base.get_block get_ref is_zero Temp.get_block block_ref_eq
readable = refl

write_to_block-IsWritten_example :
    ((write_to_block (layered temp_store count_bytes) cache_0 0 1 3 (9 ∷ 8 ∷ [])).0 ≡ ok 2)
    × IsWritten
        (layered temp_store count_bytes)
        cache_0
        0
        1
        (9 ∷ 8 ∷ [])
        (write_to_block (layered temp_store count_bytes) cache_0 0 1 3 (9 ∷ 8 ∷ [])).1
write_to_block-IsWritten_example =
    write_to_block-IsWritten (layered temp_store count_bytes) cache_0 0 1 3 (9 ∷ 8 ∷ [])
      cache_0-IsCache cache_0-IsWritable syncs (inl (1 ∷ 2 ∷ 3 ∷ 4 ∷ [], readable)) refl
      (omega arith)

blocks_readable :
    (p : ℕ) → p < 3 → (d : Bytes) × (view (layered temp_store count_bytes) cache_0 (p / 4) ≡ ok d)
blocks_readable p h =
    let first : p / 4 ≡ 0 = omega arith in
    (1 ∷ 2 ∷ 3 ∷ 4 ∷ [], ap (view (layered temp_store count_bytes) cache_0) first ∙ readable)

read_at-HasRead_example :
    HasRead
      (layered temp_store count_bytes)
      file_0
      1
      (min 5 (3 - 1))
      (if ltb 3 (5 + 1) then err eof else ok tt)
      (read_at (layered temp_store count_bytes) file_0 5 1)
read_at-HasRead_example =
    read_at-HasRead (layered temp_store count_bytes) file_0 5 1 (omega arith) refl cache_0-IsCache
      blocks_readable

abbrev no_check : Bool → Outcome (Unit {0})
no_check b = ok tt

already_open : open_write (layered temp_store count_bytes) no_check (ok 2) file_0 ≡ (ok tt, file_0)
unfolding open_write
already_open = refl

file_0-IsReady : IsReady (layered temp_store count_bytes) no_check (ok 2) file_0 1
unfolding Layers.length_of
file_0-IsReady = record {
  blk_pos = omega arith;
  cache_size = refl;
  cache = cache_0-IsCache;
  writable = cache_0-IsWritable;
  syncs = syncs;
  there = inl (1 ∷ 2 ∷ 3 ∷ 4 ∷ [], readable);
  no_gap = omega arith;
}

write_at-HasWritten_example :
    HasWritten
      (layered temp_store count_bytes)
      no_check
      (ok 2)
      file_0
      (9 ∷ 8 ∷ [])
      1
      (write_at (layered temp_store count_bytes) no_check (ok 2) file_0 (9 ∷ 8 ∷ []) 1)
write_at-HasWritten_example =
    write_at-HasWritten (layered temp_store count_bytes) no_check (ok 2) file_0 file_0 (9 ∷ 8 ∷ [])
      1 already_open file_0-IsReady (omega arith) (omega arith) (omega arith)

-- A write that leaves a gap of exactly one block panics.
one_block_gap :
    (write_at (layered temp_store count_bytes) no_check (ok 2) file_0 (9 ∷ 8 ∷ []) 9).out ≡ panic
unfolding write_at open_write write_start write_front write_part write_to_block sync open_block
    open_synced Layers.length_of
one_block_gap = refl

-- A whole block goes past the cache: after it the file still reads what it had read before.
abbrev read_once : File (Blockset × TempBlockStore)
read_once = (read_at (layered temp_store count_bytes) file_0 3 0).2

abbrev overwritten : File (Blockset × TempBlockStore)
overwritten =
    (write_at (layered temp_store count_bytes) no_check (ok 2) read_once (9 ∷ 9 ∷ 9 ∷ 9 ∷ [])
      0).file

stale_read : (read_at (layered temp_store count_bytes) overwritten 3 0).1 ≡ 1 ∷ 2 ∷ 3 ∷ []
unfolding read_at read_loop read_part Cache.get_block write_at open_write write_start write_front
    write_rest write_bulk write_tail write_part update_size Layers.length_of Layers.get_block
    Layers.put_block Layers.base_put Layers.crc_put Crc.get_block Base.get_block Base.put_block
    Base.put_written get_ref is_zero Temp.get_block Temp.write_block block_ref_eq
stale_read = refl
