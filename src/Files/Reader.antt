-- ===== src/Files/Reader.antt =====
-- Reading, seeking and syncing a `File`: file.go. The flush of the block store is an argument.
use torus.Base.{
  ℕ, zero, suc, ◌+◌, ◌-◌, ◌/◌, ◌%◌, [], ◌++◌, length, slice, ltb, leb, min, ◌==◌, if◌then◌else◌,
  Bytes, Outcome, ok, err, panic, Error,
}
use torus.Files.Ops.{BlocksetOps}
use torus.Files.Cache
use torus.Files.Cache.{SingleBlockCache}
use torus.Files.File.{File, eof}

module _ {B : Type 0} (o : BlocksetOps B) where
  -- What a read gives: how it ended, the bytes, and the file, whose cache has moved.
  abbrev pub ReadResult : Type 0
  ReadResult = Outcome (Unit {0}) × Bytes × File B

  abbrev pub with_cache : File B → SingleBlockCache B → File B
  with_cache f c = record f { cache = c }

  -- A round of the loop with the block: `this` bytes from `from` on; `more` is the rest of the loop.
  unfoldable pub read_part :
      File B
      → Bytes
      → ℕ
      → ℕ
      → Outcome Bytes × SingleBlockCache B
      → (File B → Bytes → ReadResult)
      → ReadResult
  read_part f got from this (ok blk, c) more =
      let rest = more (with_cache f c) (got ++ slice from this blk) in
      if leb (from + this) (length blk) then rest else (panic, got, with_cache f c)
  read_part f got from this (err e, c) more = (err e, got, with_cache f c)
  read_part f got from this (panic, c) more = (panic, got, with_cache f c)

  -- The loop of `ReadAt`, which ends as `ends` when `want` bytes are there. Each round reads a byte
  -- at least, so `want` rounds are enough.
  unfoldable pub read_loop : ℕ → Outcome (Unit {0}) → File B → ℕ → ℕ → Bytes → ReadResult
  unfolding read_part
  read_loop zero ends f want off got = (ends, got, f)
  read_loop (suc k) ends f want off got =
      let blk_off = off % f.blk_size in
      let this = min (f.blk_size - blk_off) (want - length got) in
      let round =
        read_part f got blk_off this (Cache.get_block o f.cache (off / f.blk_size))
          (λ f' got'. read_loop k ends f' want (off + this) got') in
      if ltb (length got) want then round else (ends, got, f)

  -- `ReadAt` of `len` bytes; what lies behind the file's size is cut off, and is an `io.EOF`.
  unfoldable pub read_at : File B → ℕ → ℕ → ReadResult
  unfolding read_loop
  read_at f len off =
      if ltb f.inode.filesize (len + off)
      then read_loop (f.inode.filesize - off) (err eof) f (f.inode.filesize - off) off []
      else read_loop len (ok tt) f len off []

  -- `Read`
  unfoldable pub read : File B → ℕ → ReadResult
  unfolding read_at
  read f len =
      let (a, got, f') = read_at f len f.offset in
      (a, got, record f' { offset = f.offset + length got })

  -- `Seek`; only forward moves, as offsets are natural numbers. `whence` is 0, 1 or 2.
  unfoldable pub seek : File B → ℕ → ℕ → Outcome ℕ × File B
  seek f offset whence =
      if whence == 0
      then (ok offset, record f { offset = offset })
      else if whence == 1
      then (ok offset, record f { offset = f.offset + offset })
      else (err (Error.other 2), f)

  -- `SyncBlocks`
  unfoldable pub flushed :
      Outcome (Unit {0})
      → File B
      → Outcome (Unit {0}) × SingleBlockCache B
      → Outcome (Unit {0}) × File B
  flushed flush f (ok _, c) = (flush, with_cache f c)
  flushed flush f (err e, c) = (err e, with_cache f c)
  flushed flush f (panic, c) = (panic, with_cache f c)

  unfoldable pub sync_blocks : Outcome (Unit {0}) → File B → Outcome (Unit {0}) × File B
  unfolding flushed
  sync_blocks flush f = flushed flush f (Cache.sync o f.cache)
