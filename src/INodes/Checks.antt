-- ===== src/INodes/Checks.antt =====
-- Runs of the operations on inodes over the store in memory, and instances of the theorems.
use torus.Base.{◌≡◌, ◌≢◌, refl, some, [], ◌∷◌, arith, Bytes, Outcome, ok, panic}
use torus.Refs.{INodeRef, BlockRef, set_block_type, block_ref_eq}
use torus.Store.Temp
use torus.Store.Temp.{TempBlockStore, used_blocks}
use torus.Store.Temp.Reads.{temp_store, temp_contract, IsBounded}
use torus.INodes.{inode_block, write_blocks, write_inode, delete_blocks, delete_found, delete_inode}
use torus.INodes.Reopened.{IsStored, write_inode-IsStored}
use torus.INodes.Rounds.{write_inode-ends}

abbrev empty_store : TempBlockStore
empty_store = record { store = some []; n_blocks = 3; block_size = 8 }

abbrev second_inode : INodeRef
second_inode = record { volume = 1; inode = 2 }

abbrev six_bytes : Bytes
six_bytes = 1 ∷ 2 ∷ 3 ∷ 4 ∷ 5 ∷ 6 ∷ []

abbrev get_block_after : TempBlockStore → Outcome Bytes
get_block_after t =
    Temp.get_block (delete_inode temp_store t second_inode).1 (inode_block second_inode 2)

six_written : (write_inode temp_store empty_store second_inode six_bytes).0 ≡ ok tt
unfolding write_inode write_blocks inode_block set_block_type Temp.write_block Temp.used_blocks
    block_ref_eq
six_written = refl

empty_store-IsBounded : IsBounded empty_store
unfolding used_blocks
empty_store-IsBounded = omega arith

write_inode-IsStored_example :
    IsStored temp_store temp_contract empty_store second_inode six_bytes
      (write_inode temp_store empty_store second_inode six_bytes).1
write_inode-IsStored_example =
    write_inode-IsStored temp_store temp_contract empty_store second_inode six_bytes
      (record { volume_lt = omega arith; inode_pos = omega arith; inode_lt = omega arith })
      empty_store-IsBounded (omega arith) (omega arith) (omega arith) six_written

steady :
    (t : TempBlockStore) (r : BlockRef) (d : Bytes)
    → (Temp.write_block t r d).1.block_size ≡ t.block_size
unfolding Temp.write_block
steady t r d = ground arith

calm : (t : TempBlockStore) (r : BlockRef) (d : Bytes) → (Temp.write_block t r d).0 ≢ panic
unfolding Temp.write_block
calm t r d = ground arith

six_ends : (write_inode temp_store empty_store second_inode six_bytes).0 ≢ panic
six_ends =
    write_inode-ends temp_store steady calm empty_store second_inode six_bytes (omega arith)
      (omega arith)

-- The second of two blocks stays when an inode of six bytes is deleted.
delete_leaves_block :
    get_block_after (write_inode temp_store empty_store second_inode six_bytes).1
    ≡ ok (5 ∷ 6 ∷ 0 ∷ 0 ∷ 0 ∷ 0 ∷ 0 ∷ 0 ∷ [])
unfolding write_inode write_blocks inode_block set_block_type Temp.write_block Temp.get_block
    Temp.delete_block Temp.used_blocks block_ref_eq delete_inode delete_found delete_blocks
delete_leaves_block = refl
