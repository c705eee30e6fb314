-- ===== src/Store/Temp/Checks.antt =====
-- Runs of the store in memory, and instances of its laws.
use torus.Base.{◌≡◌, ◌≢◌, refl, some, none, [], ◌∷◌, arith, if◌then◌else◌, ok, err, panic, Error}
use torus.Refs.{BlockRef, block_ref_eq}
use torus.Store.Temp.{
  TempBlockStore, open_temp_block_store, used_blocks, get_block, write_block, write_buf,
  delete_block,
}
use torus.Store.Temp.Reads.{
  IsBounded, get_block-write_block, store_stays-IsBounded, get_block-delete_block,
}

abbrev first_ref : BlockRef
first_ref = record { inode_ref = record { volume = 1; inode = 2 }; index = 3 }

abbrev other_ref : BlockRef
other_ref = record { inode_ref = record { volume = 1; inode = 2 }; index = 4 }

-- Room for two blocks, one of them used.
abbrev half_full : TempBlockStore
half_full = record { store = some ((first_ref, 7 ∷ 8 ∷ []) ∷ []); n_blocks = 2; block_size = 2 }

opened : open_temp_block_store 5 2 ≡ ok (record { store = some []; n_blocks = 2; block_size = 2 })
unfolding open_temp_block_store
opened = refl

half_full-IsBounded : IsBounded half_full
unfolding used_blocks
half_full-IsBounded = omega arith

get_block-write_block_example :
    get_block (write_block half_full other_ref (1 ∷ 2 ∷ [])).1 first_ref
    ≡ (elim (write_block half_full other_ref (1 ∷ 2 ∷ [])).0 [
      | ok _ ↦
          if block_ref_eq other_ref first_ref
          then ok (1 ∷ 2 ∷ [])
          else get_block half_full first_ref
      | err e ↦ get_block half_full first_ref
      | panic ↦ get_block half_full first_ref
    ])
get_block-write_block_example = get_block-write_block half_full other_ref first_ref (1 ∷ 2 ∷ [])

store_stays-IsBounded_example :
    IsBounded (write_block half_full other_ref (1 ∷ 2 ∷ [])).1
    × IsBounded (write_buf half_full other_ref).1
    × IsBounded (delete_block half_full other_ref).1
store_stays-IsBounded_example =
    store_stays-IsBounded half_full other_ref (1 ∷ 2 ∷ []) half_full-IsBounded

half_full_open : half_full.store ≢ none
half_full_open = λ e. cc

get_block-delete_block_example :
    ((delete_block half_full first_ref).0 ≡ ok tt)
    × (get_block (delete_block half_full first_ref).1 first_ref ≡ (
        if block_ref_eq first_ref first_ref
        then err Error.block_not_exist
        else get_block half_full first_ref))
get_block-delete_block_example = get_block-delete_block half_full first_ref first_ref half_full_open
