-- ===== src/Store/Mfile.antt =====
-- `mfileBlock`, the on-disk block store: storage/mfile.go. A data file and a map file have one
-- slot for each block; the map file holds the reference of each slot, all zeros for a free one, and
-- `ref_index` caches the map file in memory. The lock makes each method one step; the counters for
-- Prometheus and the log lines are left out.
pub mod Free
pub mod Invariant
pub mod Writes
pub mod Reads
mod Checks
pub mod Load
pub mod Deletes
pub mod Successes
use torus.Base.{
  ℕ, zero, suc, ◌+◌, ◌-◌, ◌%◌, Bool, true, false, Option, none, some, List, [], ◌∷◌, map, replicate,
  length, get_elem?, ◌==◌, leb, if◌then◌else◌, Bytes, bytes_eq, Outcome, ok, err, panic, Error,
  ◌>>=◌, ◌>>◌,
}
use torus.Refs.{BlockRef, to_bytes, from_bytes, block_ref_byte_size}
use torus.RefMap.{RefMap, lookup, insert, erase, size}
use torus.Store.Mmap
use torus.Store.Mmap.{MFile, num_blocks}

abbrev pub blank_ref_bytes : Bytes
blank_ref_bytes = replicate block_ref_byte_size 0

pub record MFileBlock : Type 0 where
  pub data_file : MFile
  pub ref_file : MFile
  pub ref_index : RefMap ℕ
  pub is_closed : Bool
  pub last_free : ℕ
  pub block_size : ℕ

-- A slot of a file as a byte slice; a nil slice has no bytes.
unfoldable pub slot : MFile → ℕ → Bytes
slot m i = elim (Mmap.get_block m i) [ none ↦ [] | some b ↦ b ]

-- The loop of `loadIndex`: `k` rounds from slot `i` on.
unfoldable pub load_from : MFile → ℕ → ℕ → RefMap ℕ → RefMap ℕ
load_from m zero i out = out
load_from m (suc k) i out =
    load_from m k (i + 1)
      (if bytes_eq blank_ref_bytes (slot m i) then out else insert (from_bytes (slot m i)) i out)

unfoldable pub load_index : MFile → RefMap ℕ
load_index m = load_from m (num_blocks m) 0 []

-- `newMFileBlockStore`, once the two files are open.
unfoldable pub new_mfile_block_store : MFile → MFile → ℕ → Outcome MFileBlock
new_mfile_block_store d m block_size =
    if num_blocks m == num_blocks d
    then ok (record {
      data_file = d;
      ref_file = m;
      ref_index = load_index m;
      is_closed = false;
      last_free = 0;
      block_size = block_size;
    })
    else panic

unfoldable pub num_blocks_of : MFileBlock → ℕ
num_blocks_of s = num_blocks s.data_file

unfoldable pub used_blocks : MFileBlock → ℕ
used_blocks s = size s.ref_index

-- `findIndex`; `none` is -1.
abbrev pub find_index : MFileBlock → BlockRef → Option ℕ
find_index s r = lookup r s.ref_index

-- The loop of `findEmpty`: `k` rounds from round `i` on. `none` is -1.
unfoldable pub find_empty_from : MFileBlock → ℕ → ℕ → Option ℕ
find_empty_from s zero i = none
find_empty_from s (suc k) i =
    let at = (i + s.last_free + 1) % num_blocks s.data_file in
    let rest = find_empty_from s k (i + 1) in
    if bytes_eq (slot s.ref_file at) blank_ref_bytes then some at else rest

unfoldable pub find_empty : MFileBlock → Option ℕ
find_empty s = find_empty_from s (num_blocks s.data_file) 0

unfoldable pub has_block : MFileBlock → BlockRef → Bool
has_block s r = elim (find_index s r) [ none ↦ false | some i ↦ true ]

-- The answer of `GetBlock` for what `findIndex` found.
unfoldable pub get_found : MFileBlock → Option ℕ → Outcome Bytes
get_found s none = err Error.block_not_exist
get_found s (some i) = ok (slot s.data_file i)

unfoldable pub get_block : MFileBlock → BlockRef → Outcome Bytes
unfolding get_found
get_block s r = if s.is_closed then err Error.closed else get_found s (find_index s r)

-- The tail of `WriteBlock`, from `findIndex` on, with both files written at slot `i`. The log line
-- on a clash is left out; it shows ten bytes of both blocks, and panics on slices with fewer.
unfoldable pub record_write :
    MFileBlock → BlockRef → Bytes → ℕ → Option ℕ → Outcome (Unit {0}) × MFileBlock
record_write s r d i (some v) =
    if bytes_eq (slot s.data_file v) d then (ok tt, s) else (err Error.exists_already, s)
record_write s r d i none = (ok tt, record s { ref_index = insert r i s.ref_index })

-- The write to the map file, once the data stands in slot `i`.
unfoldable pub write_ref :
    MFileBlock → BlockRef → Bytes → ℕ → Outcome (Unit {0}) × MFile → Outcome (Unit {0}) × MFileBlock
unfolding record_write
write_ref s r d i (ok _, f) =
    let s' : MFileBlock = record s { ref_file = f } in record_write s' r d i (find_index s' r)
write_ref s r d i (err e, f) = (err e, record s { ref_file = f })
write_ref s r d i (panic, f) = (panic, record s { ref_file = f })

-- The write to the data file at slot `i`.
unfoldable pub write_data :
    MFileBlock → BlockRef → Bytes → ℕ → Outcome (Unit {0}) × MFile → Outcome (Unit {0}) × MFileBlock
unfolding write_ref
write_data s r d i (ok _, f) =
    write_ref (record s { data_file = f }) r d i (Mmap.write_block s.ref_file i (to_bytes r))
write_data s r d i (err e, f) = (err e, record s { data_file = f })
write_data s r d i (panic, f) = (panic, record s { data_file = f })

-- `WriteBlock` at what `findEmpty` found; it has moved `lastFree` there.
unfoldable pub write_at : MFileBlock → BlockRef → Bytes → Option ℕ → Outcome (Unit {0}) × MFileBlock
unfolding write_data
write_at s r d none = (err Error.out_of_space, s)
write_at s r d (some i) =
    write_data (record s { last_free = i }) r d i (Mmap.write_block s.data_file i d)

unfoldable pub write_block : MFileBlock → BlockRef → Bytes → Outcome (Unit {0}) × MFileBlock
unfolding write_at
write_block s r d = if s.is_closed then (err Error.closed, s) else write_at s r d (find_empty s)

-- `WriteBuf` with the map file written at slot `i`. The buffer it hands out is the window of slot
-- `i` of the data file: the slot's number stands for it.
unfoldable pub record_buf : MFileBlock → BlockRef → ℕ → Option ℕ → Outcome ℕ × MFileBlock
record_buf s r i (some v) = (err Error.exists_already, s)
record_buf s r i none = (ok i, record s { ref_index = insert r i s.ref_index })

unfoldable pub write_buf_ref :
    MFileBlock → BlockRef → ℕ → Outcome (Unit {0}) × MFile → Outcome ℕ × MFileBlock
unfolding record_buf
write_buf_ref s r i (ok _, f) =
    let s' : MFileBlock = record s { ref_file = f } in record_buf s' r i (find_index s' r)
write_buf_ref s r i (err e, f) = (err e, record s { ref_file = f })
write_buf_ref s r i (panic, f) = (panic, record s { ref_file = f })

unfoldable pub write_buf_at : MFileBlock → BlockRef → Option ℕ → Outcome ℕ × MFileBlock
unfolding write_buf_ref
write_buf_at s r none = (err Error.out_of_space, s)
write_buf_at s r (some i) =
    write_buf_ref (record s { last_free = i }) r i (Mmap.write_block s.ref_file i (to_bytes r))

unfoldable pub write_buf : MFileBlock → BlockRef → Outcome ℕ × MFileBlock
unfolding write_buf_at
write_buf s r = if s.is_closed then (err Error.closed, s) else write_buf_at s r (find_empty s)

-- `close`, given how closing each mapping ends (`MFile.Close` is two calls of the mmap package).
unfoldable pub close :
    Outcome (Unit {0}) → Outcome (Unit {0}) → MFileBlock → Outcome (Unit {0}) × MFileBlock
close data_closed ref_closed s =
    if s.is_closed then (ok tt, s) else elim (data_closed >> ref_closed) [
      | ok _ ↦ (ok tt, record s { is_closed = true })
      | err e ↦ (err e, s)
      | panic ↦ (panic, s)
    ]

-- `DeleteBlock`, once the slot is known: the map file's slot is blanked, and then the index.
unfoldable pub delete_ref :
    MFileBlock → BlockRef → Outcome (Unit {0}) × MFile → Outcome (Unit {0}) × MFileBlock
delete_ref s r (ok _, f) = (ok tt, record s { ref_file = f; ref_index = erase r s.ref_index })
delete_ref s r (err e, f) = (err e, record s { ref_file = f })
delete_ref s r (panic, f) = (panic, record s { ref_file = f })

unfoldable pub delete_at : MFileBlock → BlockRef → Option ℕ → Outcome (Unit {0}) × MFileBlock
unfolding delete_ref
delete_at s r none = (err Error.block_not_exist, s)
delete_at s r (some i) = delete_ref s r (Mmap.write_block s.ref_file i blank_ref_bytes)

unfoldable pub delete_block : MFileBlock → BlockRef → Outcome (Unit {0}) × MFileBlock
unfolding delete_at
delete_block s r = if s.is_closed then (err Error.closed, s) else delete_at s r (find_index s r)

-- `mfileIterator`: the keys in the map's order, an index that begins at -1, here one more.
pub record MFileIterator : Type 0 where
  pub set : List BlockRef
  pub next_index : ℕ
  pub done : Bool

unfoldable pub block_iterator : MFileBlock → MFileIterator
block_iterator s = record { set = map (λ p. p.0) s.ref_index; next_index = 0; done = false }

unfoldable pub next : MFileIterator → Bool × MFileIterator
next i =
    if i.done
    then (false, i)
    else if i.next_index == length i.set
    then (false, record i { next_index = i.next_index + 1; done = true })
    else (true, record i { next_index = i.next_index + 1 })

-- The reference at the index; before the first `Next` and behind the last it panics.
unfoldable pub block_ref : MFileIterator → Outcome BlockRef
block_ref i =
    if i.next_index == 0
    then panic
    else elim (get_elem? i.set (i.next_index - 1)) [ none ↦ panic | some r ↦ ok r ]
