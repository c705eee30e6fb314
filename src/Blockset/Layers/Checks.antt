-- ===== src/Blockset/Layers/Checks.antt =====
-- A run of the default layers "crc,base" over the store in memory.
use torus.Base.{ℕ, ◌+◌, ◌≤◌, ◌≡◌, refl, some, [], ◌∷◌, arith, length, Bytes, ok}
use torus.Refs.{INodeRef}
use torus.Store.Temp
use torus.Store.Temp.{TempBlockStore, used_blocks}
use torus.Store.Temp.Reads.{temp_store, temp_contract}
use torus.Blockset.Base
use torus.Blockset.Base.{put_written}
use torus.Blockset.Layers.{Blockset, base, crc, length_of, put_block, crc_put, base_put}
use torus.Blockset.Layers.Plain.{HasRoom, IsFresh, base_of}
use torus.Blockset.Layers.Writes.{IsStored, put_block-get_block}

abbrev empty_store : TempBlockStore
empty_store = record { store = some []; n_blocks = 4; block_size = 2 }

-- A stand-in for the checksum.
abbrev count_bytes : Bytes → ℕ
count_bytes d = length d + 1

abbrev empty_file : Blockset
empty_file = crc [] (base (record { ids = 0; blocks = [] }))

abbrev file_inode : INodeRef
file_inode = record { volume = 1; inode = 2 }

empty_store-IsBounded : used_blocks empty_store ≤ 4
unfolding used_blocks
empty_store-IsBounded = omega arith

room : HasRoom file_inode (base_of empty_file)
room = record { volume_lt = omega arith; inode_lt = omega arith; ids_lt = omega arith }

fresh : IsFresh file_inode (base_of empty_file)
fresh = λ j r known. cc

put_lem :
    (put_block temp_store count_bytes empty_store empty_file file_inode 0 (5 ∷ 6 ∷ [])).0 ≡ ok tt
unfolding put_block crc_put base_put Base.put_block put_written Temp.write_block
put_lem = refl

put_block-get_block_example :
    IsStored temp_store temp_contract count_bytes file_inode 0
      (5 ∷ 6 ∷ [])
      empty_store
      empty_file
      (put_block temp_store count_bytes empty_store empty_file file_inode 0 (5 ∷ 6 ∷ [])).1
      (put_block temp_store count_bytes empty_store empty_file file_inode 0 (5 ∷ 6 ∷ [])).2
unfolding length_of
put_block-get_block_example =
    put_block-get_block temp_store temp_contract count_bytes empty_store empty_file file_inode 0
      (5 ∷ 6 ∷ []) (refl, tt) empty_store-IsBounded room fresh refl put_lem
