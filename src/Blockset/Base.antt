-- ===== src/Blockset/Base.antt =====
-- The base layer, a list of block references: blockset/base.go. The store is the section's `st`, and
-- its state `s` is passed on; `blocksize` of the struct is written and never read.
use torus.Base.{
  ℕ, zero, suc, ◌+◌, ◌-◌, ◌/◌, ◌%◌, ◌^◌, Option, none, some, List, [], ◌∷◌, ◌++◌, length, get_elem?,
  set, take, drop, replicate, ltb, leb, ◌==◌, if◌then◌else◌, Bytes, u64_mod, Outcome, ok, err,
  panic, Error,
}
use torus.Refs.{INodeRef, BlockRef, is_zero, zero_block, to_bytes, from_bytes, block_ref_byte_size}
use torus.Store.Interface.{BlockStore}

pub record BaseBlockset : Type 0 where
  pub ids : ℕ
  pub blocks : List BlockRef

-- `newBaseBlockset`
abbrev pub new_base : BaseBlockset
new_base = record { ids = 0; blocks = [] }

-- The counter after `atomic.AddUint64(&b.ids, 1)`
abbrev pub next_id : BaseBlockset → ℕ
next_id b = (b.ids + 1) % u64_mod

-- `makeID`: the reference, and the layer with the counter moved.
abbrev pub made_id : BaseBlockset → INodeRef → BlockRef
made_id b i = record { inode_ref = i; index = next_id b }

unfoldable pub make_id : BaseBlockset → INodeRef → BlockRef × BaseBlockset
make_id b i = (made_id b i, record b { ids = next_id b })

-- `b.blocks[i]` after a write there, or appended at the end
abbrev pub put_at {ℓ} : {A : Type ℓ} → List A → ℕ → A → List A
put_at xs i v = if i == length xs then xs ++ (v ∷ []) else set xs i v

module _ {S : Type 0} (st : BlockStore S) where
  -- The answer of `GetBlock` for the reference at the index.
  unfoldable pub get_ref : S → Option BlockRef → Outcome Bytes
  get_ref s none = err Error.block_not_exist
  get_ref s (some r) = if is_zero r then ok (replicate (st.block_size s) 0) else st.get_block s r

  -- `GetBlock`: `get_elem?` has nothing from the length on, where the code returns early.
  unfoldable pub get_block : S → BaseBlockset → ℕ → Outcome Bytes
  unfolding get_ref
  get_block s b i = get_ref s (get_elem? b.blocks i)

  -- `PutBlock` with the answer of the store. The counter has moved in any case.
  unfoldable pub put_written :
      BaseBlockset → BlockRef → ℕ → Outcome (Unit {0}) × S → Outcome (Unit {0}) × BaseBlockset × S
  put_written b new i (ok _, s) = (ok tt, record b { blocks = put_at b.blocks i new }, s)
  put_written b new i (err e, s) = (err e, b, s)
  put_written b new i (panic, s) = (panic, b, s)

  unfoldable pub put_block :
      S → BaseBlockset → INodeRef → ℕ → Bytes → Outcome (Unit {0}) × BaseBlockset × S
  unfolding put_written
  put_block s b inode i d =
      if ltb (length b.blocks) i
      then (err Error.block_not_exist, b, s)
      else put_written (record b { ids = next_id b }) (made_id b inode) i
          (st.write_block s (made_id b inode) d)

-- `Marshal`: the bytes of the references one after another.
unfoldable pub marshal : List BlockRef → Bytes
marshal [] = []
marshal (x ∷ xs) = to_bytes x ++ marshal xs

-- The loop of `Unmarshal`: `l` references from the front of the data.
unfoldable pub unmarshal_loop : ℕ → Bytes → List BlockRef
unmarshal_loop zero d = []
unmarshal_loop (suc l) d =
    from_bytes (take block_ref_byte_size d) ∷ unmarshal_loop l (drop block_ref_byte_size d)

unfoldable pub unmarshal : Bytes → List BlockRef
unfolding unmarshal_loop
unmarshal d = unmarshal_loop (length d / block_ref_byte_size) d

-- `Truncate`: cut, or filled up with zero blocks.
abbrev pub resize {ℓ} : {A : Type ℓ} → ℕ → A → List A → List A
resize n pad xs = if leb n (length xs) then take n xs else xs ++ replicate (n - length xs) pad

unfoldable pub truncate : BaseBlockset → ℕ → BaseBlockset
truncate b last_index = record b { blocks = resize last_index zero_block b.blocks }

-- `for i := from; i < to; i++ { xs[i] = v }`, on the number of rounds
abbrev pub fill_from {ℓ} : {A : Type ℓ} → ℕ → ℕ → A → List A → List A
fill_from zero i v xs = xs
fill_from (suc k) i v xs = fill_from k (i + 1) v (set xs i v)

-- The guards and the loop of `Trim`
abbrev pub trim_range {ℓ} : {A : Type ℓ} → ℕ → ℕ → A → List A → List A
trim_range from to v xs =
    if leb (length xs) from
    then xs
    else if ltb (length xs) to
    then fill_from (length xs - from) from v xs
    else fill_from (to - from) from v xs

unfoldable pub trim : BaseBlockset → ℕ → ℕ → BaseBlockset
trim b from to = record b { blocks = trim_range from to zero_block b.blocks }

-- `GetLiveINodes`, as the numbers added to the bitmap, in order
unfoldable pub live_inodes : List BlockRef → List ℕ
live_inodes [] = []
live_inodes (x ∷ xs) =
    let rest = live_inodes xs in if is_zero x then rest else (x.inode % 2 ^ 32) ∷ rest
