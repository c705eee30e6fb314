-- ===== src/Store/Mfile/Checks.antt =====
-- Runs of the on-disk store with two slots of four bytes, and instances of its laws.
use torus.Base.{
  ℕ, ◌<◌, ◌≡◌, ◌≢◌, refl, sym, ap, false, true, none, some, [], ◌∷◌, arith, replicate, Bytes, ok,
  err, Error, AllBytes,
}
use torus.Refs.{BlockRef, to_bytes, from_bytes, block_ref_eq}
use torus.RefMap.{lookup}
use torus.Store.Interface.{IsUsable}
use torus.Store.Mmap
use torus.Store.Mmap.{MFile, num_blocks}
use torus.Store.Mmap.Blocks.{IsFile, block_at}
use torus.Store.Mfile.{
  MFileBlock, blank_ref_bytes, slot, load_index, new_mfile_block_store, find_empty, find_empty_from,
  get_block, has_block, write_block, delete_block, used_blocks,
}
use torus.Store.Mfile.Free.{IsFree, find_empty_complete}
use torus.Store.Mfile.Invariant.{IsStore}
use torus.Store.Mfile.Reads.{write_block-IsStore, write_block-read, write_block-other}
use torus.Store.Mfile.Load.{load_index_lem, new_mfile_block_store-IsStore}
use torus.Store.Mfile.Successes.{write_block-succeeds}
use torus.Store.Mfile.Deletes.{delete_block-forgets, write_block_leaks}

abbrev first_ref : BlockRef
first_ref = record { inode_ref = record { volume = 1; inode = 2 }; index = 3 }

abbrev other_ref : BlockRef
other_ref = record { inode_ref = record { volume = 1; inode = 2 }; index = 4 }

abbrev data_0 : MFile
data_0 = record { mmap = replicate 8 0; blk_size = 4; size = 8 }

abbrev refs_0 : MFile
refs_0 = record { mmap = replicate 48 0; blk_size = 24; size = 48 }

abbrev store_0 : MFileBlock
store_0 = record {
  data_file = data_0;
  ref_file = refs_0;
  ref_index = [];
  is_closed = false;
  last_free = 0;
  block_size = 4;
}

abbrev payload : Bytes
payload = 5 ∷ 6 ∷ 7 ∷ 8 ∷ []

first_ref-IsUsable : IsUsable first_ref
first_ref-IsUsable = record {
  in_range = omega arith;
  nonzero = λ e. let index : ◌≡◌ {A = ℕ} 3 0 = ap (λ (r : BlockRef). r.index) e in omega arith;
}

other_ref-IsUsable : IsUsable other_ref
other_ref-IsUsable = record {
  in_range = omega arith;
  nonzero = λ e. let index : ◌≡◌ {A = ℕ} 4 0 = ap (λ (r : BlockRef). r.index) e in omega arith;
}

refs_differ : first_ref ≢ other_ref
refs_differ e = let index : ◌≡◌ {A = ℕ} 3 4 = ap (λ (r : BlockRef). r.index) e in omega arith

data_0-IsFile : IsFile 2 data_0
data_0-IsFile = record {
  blk_pos = omega arith;
  size_eq = refl;
  length_eq = refl;
  size_lt = omega arith;
}

refs_0-IsFile : IsFile 2 refs_0
refs_0-IsFile = record {
  blk_pos = omega arith;
  size_eq = refl;
  length_eq = refl;
  size_lt = omega arith;
}

store_0-IsStore : IsStore 2 store_0
store_0-IsStore = record {
  data_ok = data_0-IsFile;
  ref_ok = refs_0-IsFile;
  ref_size = refl;
  data_size = refl;
  indexed = λ r i known. cc;
  marked = λ r i u known. cc;
}

-- The store with one block in it.
abbrev store_1 : MFileBlock
store_1 = (write_block store_0 first_ref payload).1

written_lem : (write_block store_0 first_ref payload).0 ≡ ok tt
unfolding write_block find_empty find_empty_from slot num_blocks Mmap.get_block Mmap.write_block
    to_bytes
written_lem = refl

known_lem : lookup first_ref store_1.ref_index ≡ some 1
unfolding write_block find_empty find_empty_from slot num_blocks Mmap.get_block Mmap.write_block
    to_bytes block_ref_eq
known_lem = refl

open_lem : store_1.is_closed ≡ false
unfolding write_block find_empty find_empty_from slot num_blocks Mmap.get_block Mmap.write_block
    to_bytes
open_lem = refl

again_lem : (write_block store_1 first_ref payload).0 ≡ ok tt
unfolding write_block find_empty find_empty_from slot num_blocks Mmap.get_block Mmap.write_block
    to_bytes block_ref_eq
again_lem = refl

write_block-IsStore_example : IsStore 2 store_1
write_block-IsStore_example =
    write_block-IsStore 2 store_0 store_0-IsStore first_ref payload first_ref-IsUsable

store_1-IsStore : IsStore 2 store_1
store_1-IsStore = write_block-IsStore 2 store_0 store_0-IsStore first_ref payload first_ref-IsUsable

write_block-read_example : get_block store_1 first_ref ≡ ok payload
write_block-read_example =
    write_block-read 2 store_0 store_0-IsStore first_ref payload first_ref-IsUsable refl written_lem

write_block-other_example :
    get_block (write_block store_1 other_ref payload).1 first_ref ≡ get_block store_1 first_ref
write_block-other_example =
    write_block-other 2 store_1 store_1-IsStore other_ref first_ref payload other_ref-IsUsable
      first_ref-IsUsable (λ e. refs_differ (sym e))

delete_block-forgets_example :
    let (result, s') = delete_block store_1 first_ref in
    (result ≡ ok tt)
    × IsStore 2 s'
    × (block_at s'.ref_file 1 ≡ blank_ref_bytes)
    × (get_block s' first_ref ≡ err Error.block_not_exist)
    × ((q : BlockRef) → IsUsable q → first_ref ≢ q → get_block s' q ≡ get_block store_1 q)
delete_block-forgets_example =
    delete_block-forgets 2 store_1 store_1-IsStore first_ref 1 first_ref-IsUsable open_lem known_lem

write_block_leaks_example :
    (i : ℕ) × (i ≢ 1)
    × (i < 2)
    × (block_at store_1.ref_file i ≡ blank_ref_bytes)
    × (block_at (write_block store_1 first_ref payload).1.ref_file i ≡ to_bytes first_ref)
    × (used_blocks (write_block store_1 first_ref payload).1 ≡ used_blocks store_1)
write_block_leaks_example =
    write_block_leaks 2 store_1 store_1-IsStore first_ref payload 1 first_ref-IsUsable known_lem
      again_lem

found_lem : find_empty store_0 ≡ some 1
unfolding find_empty find_empty_from slot num_blocks Mmap.get_block
found_lem = refl

-- A store whose only slot is taken.
abbrev full_store : MFileBlock
full_store = record {
  data_file = record { mmap = replicate 4 0; blk_size = 4; size = 4 };
  ref_file = record { mmap = replicate 24 1; blk_size = 24; size = 24 };
  ref_index = [];
  is_closed = false;
  last_free = 0;
  block_size = 4;
}

full_lem : find_empty full_store ≡ none
unfolding find_empty find_empty_from slot num_blocks Mmap.get_block
full_lem = refl

one_slot : 0 < num_blocks full_store.data_file
unfolding num_blocks
one_slot = omega arith

find_empty_complete_example : ¬ IsFree full_store 0
find_empty_complete_example = find_empty_complete full_store 0 full_lem one_slot

load_index_lem_example :
    ((j : ℕ)
      → j < 2
      → block_at store_1.ref_file j ≡ to_bytes first_ref
      → lookup first_ref (load_index store_1.ref_file) ≢ none)
    × ((j : ℕ)
        → lookup first_ref (load_index store_1.ref_file) ≡ some j
        → (j < 2) × (from_bytes (block_at store_1.ref_file j) ≡ first_ref))
load_index_lem_example =
    load_index_lem 2 store_1.ref_file store_1-IsStore.ref_ok store_1-IsStore.ref_size first_ref
      first_ref-IsUsable

zeros-AllBytes : AllBytes refs_0.mmap
zeros-AllBytes = omega arith

new_mfile_block_store-IsStore_example :
    (s : MFileBlock) × (new_mfile_block_store data_0 refs_0 4 ≡ ok s) × IsStore 2 s
new_mfile_block_store-IsStore_example =
    new_mfile_block_store-IsStore 2 data_0 refs_0 data_0-IsFile refs_0-IsFile refl zeros-AllBytes

write_block-succeeds_example :
    ((write_block store_0 first_ref payload).0 ≡ ok tt)
    × (has_block (write_block store_0 first_ref payload).1 first_ref ≡ true)
write_block-succeeds_example =
    write_block-succeeds 2 store_0 store_0-IsStore first_ref payload 0 first_ref-IsUsable refl
      (omega arith) refl (omega arith) refl
