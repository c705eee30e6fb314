-- ===== src/Blockset/Replication.antt =====
-- The replication layer, further copies of each block under references of their own:
-- blockset/replication.go. `rep_blocks[k]` lists the references of copy `k`. `rep` is an int that
-- the registration reads from text; a number here, so the length `rep - 1` needs `rep` at least 1.
use torus.Base.{
  ℕ, zero, suc, ◌+◌, ◌-◌, List, [], ◌∷◌, ◌++◌, length, get_elem?, set, take, replicate, ltb, leb,
  ◌==◌, if◌then◌else◌, Bytes, Outcome, ok, err, panic, Error, ◌>>=◌, or_panic,
}
use torus.Refs.{BlockRef, zero_block}
use torus.Store.Interface.{BlockStore}

pub record ReplicationBlockset : Type 0 where
  pub rep : ℕ
  pub rep_blocks : List (List BlockRef)

abbrev pub default_replication : ℕ
default_replication = 2

-- `newReplicationBlockset`: `make` with a negative length panics.
unfoldable pub new_replication : ℕ → Outcome ReplicationBlockset
new_replication r =
    if r == 0 then panic else ok (record { rep = r; rep_blocks = replicate (r - 1) [] })

-- `b.repBlocks[rep][i]`
abbrev pub copy_ref : List (List BlockRef) → ℕ → ℕ → Outcome BlockRef
copy_ref lists rep i = do list ← or_panic (get_elem? lists rep); or_panic (get_elem? list i)

module _ {S : Type 0} (st : BlockStore S) where
  -- What follows a read of one copy: data is the answer, an error goes on to the next copy.
  unfoldable pub first_copy : Outcome Bytes → Outcome Bytes → Outcome Bytes
  first_copy (ok d) rest = ok d
  first_copy (err e) rest = rest
  first_copy panic rest = panic

  -- The loop of `GetBlock` over the copies: `k` rounds from copy `rep` on.
  unfoldable pub read_copies : S → List (List BlockRef) → ℕ → ℕ → ℕ → Outcome Bytes
  unfolding first_copy
  read_copies s lists zero rep i = err Error.block_unavailable
  read_copies s lists (suc k) rep i =
      let rest = read_copies s lists k (rep + 1) i in
      elim (copy_ref lists rep i) [
        | ok r ↦ first_copy (st.get_block s r) rest
        | err e ↦ err e
        | panic ↦ panic
      ]

  -- `GetBlock` on the answer of the layer below
  unfoldable pub get_block : S → ReplicationBlockset → ℕ → Outcome Bytes → Outcome Bytes
  unfolding read_copies
  get_block s b i below = if b.rep == 0 then err Error.block_unavailable else elim below [
    | ok d ↦ ok d
    | err Error.block_not_exist ↦ err Error.block_not_exist
    | err other_error ↦ read_copies s b.rep_blocks (b.rep - 1) 0 i
    | panic ↦ panic
  ]

-- The list of one copy after a write at `i`: appended, or assigned, which panics out of range.
unfoldable pub put_ref : List BlockRef → ℕ → BlockRef → Outcome (List BlockRef)
put_ref list i r =
    if i == length list
    then ok (list ++ (r ∷ []))
    else if ltb i (length list)
    then ok (set list i r)
    else panic

-- `b.repBlocks[rep]` after that write
unfoldable pub put_copy : List (List BlockRef) → ℕ → ℕ → BlockRef → Outcome (List (List BlockRef))
unfolding put_ref
put_copy lists rep i r = do
  list ← or_panic (get_elem? lists rep)
  list' ← put_ref list i r
  ok (set lists rep list')

-- The first loop of `Truncate`. `x[:n]` behind the end of `x` panics (where the capacity reaches
-- further, Go would give back entries that had been cut off).
unfoldable pub cut_all : ℕ → List (List BlockRef) → Outcome (List (List BlockRef))
cut_all n [] = ok []
cut_all n (x ∷ xs) = do
  rest ← cut_all n xs
  if leb n (length x) then ok (take n x ∷ rest) else panic

-- The second loop: `k` rounds from copy `i` on. How many to add is computed anew in each round,
-- from the first copy as it is then.
unfoldable pub extend_all : ℕ → ℕ → ℕ → List (List BlockRef) → Outcome (List (List BlockRef))
extend_all n zero i lists = ok lists
extend_all n (suc k) i lists = do
  first ← or_panic (get_elem? lists 0)
  list ← or_panic (get_elem? lists i)
  extend_all n k (i + 1) (set lists i (list ++ replicate (n - length first) zero_block))

-- `Truncate`, once the layer below has changed its length
unfoldable pub truncate : ReplicationBlockset → ℕ → Outcome ReplicationBlockset
unfolding cut_all extend_all
truncate b last_index = do
  first ← or_panic (get_elem? b.rep_blocks 0)
  lists ←
      if leb last_index (length first)
      then cut_all last_index b.rep_blocks
      else extend_all last_index (length b.rep_blocks) 0 b.rep_blocks
  ok (record b { rep_blocks = lists })

-- `blist[i] = torus.ZeroBlock()`, where an empty list is passed over
unfoldable pub zero_in : ℕ → List BlockRef → Outcome (List BlockRef)
zero_in i [] = ok []
zero_in i (x ∷ xs) = if ltb i (length (x ∷ xs)) then ok (set (x ∷ xs) i zero_block) else panic

unfoldable pub zero_round : ℕ → List (List BlockRef) → Outcome (List (List BlockRef))
unfolding zero_in
zero_round i [] = ok []
zero_round i (x ∷ xs) = do x' ← zero_in i x; rest ← zero_round i xs; ok (x' ∷ rest)

-- The loop of `Trim`: `k` rounds from index `i` on.
unfoldable pub zero_rounds : ℕ → ℕ → List (List BlockRef) → Outcome (List (List BlockRef))
unfolding zero_round
zero_rounds zero i lists = ok lists
zero_rounds (suc k) i lists = do lists' ← zero_round i lists; zero_rounds k (i + 1) lists'

-- `Trim`, once the layer below has been trimmed
unfoldable pub trim : ReplicationBlockset → ℕ → ℕ → Outcome ReplicationBlockset
unfolding zero_rounds
trim b from to = do
  first ← or_panic (get_elem? b.rep_blocks 0)
  lists ←
      if leb (length first) from
      then ok b.rep_blocks
      else zero_rounds ((if ltb (length first) to then length first else to) - from) from
          b.rep_blocks
  ok (record b { rep_blocks = lists })
