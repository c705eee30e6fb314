-- ===== src/Store/Mmap.antt =====
-- `MFile`, a file of equal blocks mapped into memory: storage/mmap_file.go.
pub mod Blocks
use torus.Base.{
  ℕ, ◌+◌, ◌-◌, ◌*◌, ◌/◌, ◌%◌, Option, none, some, List, ◌++◌, length, drop, replicate, ltb, leb,
  ◌==◌, if◌then◌else◌, Bytes, slice, splice, u64_mod, Outcome, ok, err, panic, Error,
}

pub record MFile : Type 0 where
  pub mmap : Bytes
  pub blk_size : ℕ
  pub size : ℕ

-- `OpenMFile`, given the contents of the file. A block size of zero divides by zero.
unfoldable pub open_mfile : Bytes → ℕ → Outcome MFile
open_mfile contents blk_size =
    if blk_size == 0
    then panic
    else if length contents % blk_size == 0
    then ok (record { mmap = contents; blk_size = blk_size; size = length contents })
    else err (Error.other 0)

-- `n * m.blkSize`, in uint64
abbrev pub offset_of : MFile → ℕ → ℕ
offset_of m n = n * m.blk_size % u64_mod

-- `MFile.GetBlock`; `none` is the nil slice.
unfoldable pub get_block : MFile → ℕ → Option Bytes
get_block m n =
    if leb m.size (offset_of m n) then none else some (slice (offset_of m n) m.blk_size m.mmap)

-- `MFile.NumBlocks`
unfoldable pub num_blocks : MFile → ℕ
num_blocks m = m.size / m.blk_size

-- `zero`: the loop copies zeros over all of `b`.
abbrev pub zero_out : Bytes → Bytes
zero_out b = replicate (length b) 0

-- The short path of `WriteBlock`: the block is copied, and the rest of the slot is zeroed.
unfoldable pub write_short : MFile → ℕ → Bytes → Option Bytes → Outcome (Unit {0}) × MFile
write_short m n d none = (err (Error.other 2), m)
write_short m n d (some blk) =
    (ok tt, record m { mmap = splice (offset_of m n) (d ++ zero_out (drop (length d) blk)) m.mmap })

-- `MFile.WriteBlock`
unfoldable pub write_block : MFile → ℕ → Bytes → Outcome (Unit {0}) × MFile
unfolding write_short
write_block m n d =
    if ltb m.blk_size (length d)
    then (err (Error.other 1), m)
    else if length d == m.blk_size
    then if ltb (length m.mmap) (offset_of m n)
      then (panic, m)
      else (ok tt, record m { mmap = splice (offset_of m n) d m.mmap })
    else write_short m n d (get_block m n)
