-- ===== src/Store/Temp/Reads.antt =====
-- Reads after writes and deletes, the bound on the number of blocks, and the contract.
use torus.Base.{
  ℕ, ◌+◌, ◌≤◌, ◌≡◌, ◌≢◌, refl, ◌∙◌, Option, none, some, arith, inl, inr, leb, if◌then◌else◌, Bytes,
  replicate, Bool-cases, Option-cases, ok, err, panic, Error,
}
use torus.Refs.{BlockRef, block_ref_eq}
use torus.Refs.Fields.{block_ref_eq_iff, block_ref_eq_refl}
use torus.RefMap.{RefMap, insert, size, lookup-insert, lookup-erase, size-insert, size-erase}
use torus.Store.Interface.{BlockStore, Contract}
use torus.Store.Temp.{TempBlockStore, used_blocks, get_block, write_block, write_buf, delete_block}

-- One read after one write on the store in memory: after a write that succeeds the reference reads
-- as the data and every other one as before, and after a write that fails every reference reads as
-- before.
pub get_block-write_block :
    (t : TempBlockStore) (r q : BlockRef) (d : Bytes)
    → get_block (write_block t r d).1 q ≡ (elim (write_block t r d).0 [
      | ok _ ↦ if block_ref_eq r q then ok d else get_block t q
      | err e ↦ get_block t q
      | panic ↦ get_block t q
    ])
unfolding get_block write_block
get_block-write_block t r q d = go t.store t.n_blocks t.block_size
  where
    go :
        (o : Option (RefMap Bytes)) (n b : ℕ)
        → let t' : TempBlockStore = record { store = o; n_blocks = n; block_size = b } in
          get_block (write_block t' r d).1 q ≡ (elim (write_block t' r d).0 [
            | ok _ ↦ if block_ref_eq r q then ok d else get_block t' q
            | err e ↦ get_block t' q
            | panic ↦ get_block t' q
          ])
    go none n b = refl
    go (some m) n b = elim (Bool-cases (leb n (size m))) [
      | inl no_room ↦ rw no_room
      | inr room ↦ rw room (
          rw (lookup-insert r q d m, get_block)
            (elim (Bool-cases (block_ref_eq r q)) [ inl same ↦ rw same | inr other ↦ rw other ]))
    ]

-- The store never holds more blocks than it was opened for.
abbrev pub IsBounded : TempBlockStore → Type 0
IsBounded t = used_blocks t ≤ t.n_blocks

size-insert_le : (r : BlockRef) (d : Bytes) (m : RefMap Bytes) → size (insert r d m) ≤ size m + 1
size-insert_le r d m = ground (arith, size-insert r d m)

pub write_block-IsBounded :
    (t : TempBlockStore) (r : BlockRef) (d : Bytes) → IsBounded t → IsBounded (write_block t r d).1
unfolding used_blocks write_block
write_block-IsBounded t r d h = elim (Option-cases t.store) [
  | inl closed_ ↦ rw closed_ (omega arith)
  | inr (m, open_) ↦
      let below : size m ≤ t.n_blocks = rw open_ at h in
      rw open_ (ground (arith, size-insert_le r d m))
]

write_buf-IsBounded :
    (t : TempBlockStore) (r : BlockRef) → IsBounded t → IsBounded (write_buf t r).1
unfolding used_blocks write_buf
write_buf-IsBounded t r h = elim (Option-cases t.store) [
  | inl closed_ ↦ rw closed_ (omega arith)
  | inr (m, open_) ↦
      let below : size m ≤ t.n_blocks = rw open_ at h in
      rw open_ (ground (arith, size-insert_le r (replicate t.block_size 0) m))
]

delete_block-IsBounded :
    (t : TempBlockStore) (r : BlockRef) → IsBounded t → IsBounded (delete_block t r).1
unfolding used_blocks delete_block
delete_block-IsBounded t r h = elim (Option-cases t.store) [
  | inl closed_ ↦ rw closed_ (omega arith)
  | inr (m, open_) ↦
      let below : size m ≤ t.n_blocks = rw open_ at h in rw open_ (omega (arith, size-erase r m))
]

-- No write or delete takes the store in memory over its capacity, if it is within it before.
pub store_stays-IsBounded :
    (t : TempBlockStore) (r : BlockRef) (d : Bytes)
    → IsBounded t
    → IsBounded (write_block t r d).1 × IsBounded (write_buf t r).1 × IsBounded (delete_block t r).1
store_stays-IsBounded t r d h =
    (write_block-IsBounded t r d h, write_buf-IsBounded t r h, delete_block-IsBounded t r h)

-- A delete on an open store in memory succeeds; after it the block is gone, and every other one is
-- as it was.
pub get_block-delete_block :
    (t : TempBlockStore) (r q : BlockRef)
    → t.store ≢ none
    → ((delete_block t r).0 ≡ ok tt)
      × (get_block (delete_block t r).1 q
          ≡ (if block_ref_eq r q then err Error.block_not_exist else get_block t q))
unfolding get_block delete_block
get_block-delete_block t r q = go t.store t.n_blocks t.block_size
  where
    go :
        (o : Option (RefMap Bytes)) (n b : ℕ)
        → o ≢ none
        → let t' : TempBlockStore = record { store = o; n_blocks = n; block_size = b } in
          ((delete_block t' r).0 ≡ ok tt)
          × (get_block (delete_block t' r).1 q
              ≡ (if block_ref_eq r q then err Error.block_not_exist else get_block t' q))
    go none n b open_ = absurd (open_ refl)
    go (some m) n b open_ = (
      refl,
      rw (lookup-erase r q m, get_block)
          (elim (Bool-cases (block_ref_eq r q)) [ inl same ↦ rw same | inr other ↦ rw other ]),
    )

abbrev pub temp_store : BlockStore TempBlockStore
temp_store = record {
  get_block = get_block;
  write_block = write_block;
  delete_block = delete_block;
  block_size = λ t. t.block_size;
}

pub write_read :
    (t : TempBlockStore) (r : BlockRef) (d : Bytes)
    → (write_block t r d).0 ≡ ok tt
    → get_block (write_block t r d).1 r ≡ ok d
write_read t r d e = get_block-write_block t r r d ∙ rw (e, block_ref_eq_refl r)

pub write_other :
    (t : TempBlockStore) (r q : BlockRef) (d : Bytes)
    → r ≢ q
    → get_block (write_block t r d).1 q ≡ get_block t q
write_other t r q d ne = ground (arith, get_block-write_block t r q d, block_ref_eq_iff r q)

pub write_size :
    (t : TempBlockStore) (r : BlockRef) (d : Bytes)
    → (write_block t r d).1.block_size ≡ t.block_size
unfolding write_block
write_size t r d = ground arith

-- The store in memory keeps the contract of `BlockStore`.
abbrev pub temp_contract : Contract temp_store
temp_contract = record {
  IsValid = IsBounded;
  write_valid = λ t r d v u. write_block-IsBounded t r d v;
  write_read = λ t r d v u l e. write_read t r d e;
  write_other = λ t r q d v u w ne. write_other t r q d ne;
  write_size = λ t r d v u. write_size t r d;
}
