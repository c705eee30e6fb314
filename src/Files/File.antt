-- ===== src/Files/File.antt =====
-- `File` of file.go. Its blockset is the one of its cache. The answer of `CommitINodeIndex` of the
-- metadata service and `godbc.Require` are arguments; the block size is not zero, and offsets are
-- natural numbers in 63 bits. A write returns how far it came also when it fails.
use torus.Base.{
  ℕ, zero, suc, ◌+◌, ◌-◌, ◌/◌, ◌%◌, Bool, true, false, length, take, drop, ltb, min, ◌==◌,
  if◌then◌else◌, Bytes, Outcome, ok, err, panic, Error,
}
use torus.Refs.{INodeRef, new_inode_ref}
use torus.Files.Ops.{BlocksetOps}
use torus.Files.Cache
use torus.Files.Cache.{SingleBlockCache, new_single_block_cache, new_inode}

-- Of `models.INode` what a file reads and writes itself
pub record FileINode : Type 0 where
  pub volume : ℕ
  pub inode : ℕ
  pub filesize : ℕ

pub record File (B : Type 0) : Type 0 where
  pub blk_size : ℕ
  pub offset : ℕ
  pub read_only : Bool
  pub volume_id : ℕ
  pub inode : FileINode
  pub replaces : ℕ
  pub cache : SingleBlockCache B
  pub write_inode_ref : INodeRef
  pub write_open : Bool

-- `io.EOF`
abbrev pub eof : Error
eof = Error.other 0

-- Where a write stands: how it ended so far, the bytes written, the offset, and the bytes left.
pub record Progress (B : Type 0) : Type 0 where
  pub out : Outcome (Unit {0})
  pub n : ℕ
  pub off : ℕ
  pub rest : Bytes
  pub file : File B

module _ {B : Type 0} (o : BlocksetOps B) where
  -- `CreateFile` with the block size of the global metadata
  unfoldable pub create_file : ℕ → FileINode → B → ℕ → File B
  create_file volume inode blocks block_size = record {
    blk_size = block_size;
    offset = 0;
    read_only = false;
    volume_id = volume;
    inode = inode;
    replaces = 0;
    cache = new_single_block_cache o blocks block_size;
    write_inode_ref = record { volume = 0; inode = 0 };
    write_open = false;
  }

  -- `openWrite` with the new inode's reference
  unfoldable pub opened_write : File B → ℕ → Outcome INodeRef → Outcome (Unit {0}) × File B
  opened_write f n (ok ref) = (
    ok tt,
    record f {
      write_inode_ref = ref;
      replaces = f.inode.inode;
      inode = record f.inode { inode = n };
      write_open = true;
      cache = new_inode o f.cache ref;
    },
  )
  opened_write f n (err e) = (err e, f)
  opened_write f n panic = (panic, f)

  module _ (require : Bool → Outcome (Unit {0})) (commit : Outcome ℕ) where
    unfoldable pub committed : File B → Outcome ℕ → Outcome (Unit {0}) × File B
    unfolding opened_write
    committed f (ok n) = opened_write f n (new_inode_ref require f.volume_id n)
    committed f (err e) = (err e, f)
    committed f panic = (panic, f)

    unfoldable pub open_write : File B → Outcome (Unit {0}) × File B
    unfolding committed
    open_write f =
        if f.read_only
        then (err Error.locked, f)
        else if f.write_open
        then (ok tt, f)
        else committed f commit

    -- `Truncate`: an error of the blockset is ignored.
    unfoldable pub resized : ℕ → File B → Outcome (Unit {0}) × B → Outcome (Unit {0}) × File B
    resized size f (panic, b) = (panic, record f { cache = record f.cache { blocks = b } })
    resized size f (ok _, b) = (
      ok tt,
      record f {
        cache = record f.cache { blocks = b };
        inode = record f.inode { filesize = size };
      },
    )
    resized size f (err e, b) = (
      ok tt,
      record f {
        cache = record f.cache { blocks = b };
        inode = record f.inode { filesize = size };
      },
    )

    abbrev pub block_count : ℕ → ℕ → ℕ
    block_count size blk_size =
        if size % blk_size == 0 then size / blk_size else size / blk_size + 1

    unfoldable pub truncate_open : ℕ → Outcome (Unit {0}) × File B → Outcome (Unit {0}) × File B
    unfolding resized
    truncate_open size (ok _, f) =
        resized size f (o.truncate f.cache.blocks (block_count size f.blk_size) f.blk_size)
    truncate_open size (err e, f) = (err e, f)
    truncate_open size (panic, f) = (panic, f)

    unfoldable pub truncate : File B → ℕ → Outcome (Unit {0}) × File B
    unfolding truncate_open
    truncate f size = truncate_open size (open_write f)

    -- `Trim`: the blocks that lie wholly in the range
    unfoldable pub trimmed : File B → Outcome (Unit {0}) × B → Outcome (Unit {0}) × File B
    trimmed f (a, b) = (a, record f { cache = record f.cache { blocks = b } })

    unfoldable pub trim_open : ℕ → ℕ → Outcome (Unit {0}) × File B → Outcome (Unit {0}) × File B
    unfolding trimmed
    trim_open offset len (ok _, f) =
        trimmed f
          (o.trim f.cache.blocks (block_count offset f.blk_size) ((offset + len) / f.blk_size))
    trim_open offset len (err e, f) = (err e, f)
    trim_open offset len (panic, f) = (panic, f)

    unfoldable pub trim : File B → ℕ → ℕ → Outcome (Unit {0}) × File B
    unfolding trim_open
    trim f offset len = trim_open offset len (open_write f)

    -- A step of `WriteAt` after a write of `len` bytes through the cache
    unfoldable pub wrote : Progress B → ℕ → Outcome ℕ × SingleBlockCache B → Progress B
    wrote p len (ok w, c) =
        let f : File B = record p.file { cache = c } in
        if w == len
        then record p { n = p.n + w; off = p.off + w; rest = drop len p.rest; file = f }
        else record p { out = err (Error.other 1); file = f }
    wrote p len (err e, c) = record p { out = err e; file = record p.file { cache = c } }
    wrote p len (panic, c) = record p { out = panic; file = record p.file { cache = c } }

    -- A write of the first `len` bytes left, at `from` of block `off / blkSize`
    unfoldable pub write_part : Progress B → ℕ → ℕ → Progress B
    unfolding wrote
    write_part p from len = wrote p len (
        Cache.write_to_block o p.file.cache (p.off / p.file.blk_size) from (from + len)
          (take len p.rest))

    -- The front matter
    unfoldable pub write_front : Progress B → Progress B
    unfolding write_part
    write_front p =
        let blk_off = p.off % p.file.blk_size in
        if blk_off == 0
        then p
        else write_part p blk_off (min (p.file.blk_size - blk_off) (length p.rest))

    -- A round of the bulk write, which goes past the cache
    unfoldable pub bulk_wrote : Progress B → Outcome (Unit {0}) × B → Progress B
    bulk_wrote p (ok _, b) = record p {
      n = p.n + p.file.blk_size;
      off = p.off + p.file.blk_size;
      rest = drop p.file.blk_size p.rest;
      file = record p.file { cache = record p.file.cache { blocks = b } };
    }
    bulk_wrote p (err e, b) = record p {
      out = err e;
      file = record p.file { cache = record p.file.cache { blocks = b } };
    }
    bulk_wrote p (panic, b) = record p {
      out = panic;
      file = record p.file { cache = record p.file.cache { blocks = b } };
    }

    -- What comes next, unless the write has ended
    abbrev pub go_on : Progress B → (Progress B → Progress B) → Progress B
    go_on p next = elim p.out [ ok _ ↦ next p | err e ↦ p | panic ↦ p ]

    -- The bulk loop, on its number of rounds
    unfoldable pub write_bulk : ℕ → Progress B → Progress B
    unfolding bulk_wrote
    write_bulk zero p = p
    write_bulk (suc k) p =
        go_on
          (bulk_wrote p (
            o.put_block p.file.cache.blocks p.file.write_inode_ref (p.off / p.file.blk_size)
              (take p.file.blk_size p.rest)))
          (write_bulk k)

    -- The trailing matter
    unfoldable pub write_tail : Progress B → Progress B
    unfolding write_part
    write_tail p =
        if length p.rest == 0
        then p
        else if p.off % p.file.blk_size == 0
        then write_part p 0 (length p.rest)
        else record p { out = panic }

    -- From the bulk write on
    unfoldable pub write_rest : Progress B → Progress B
    unfolding write_bulk write_tail
    write_rest p =
        if length p.rest == 0
        then p
        else if p.off % p.file.blk_size == 0
        then go_on (write_bulk (length p.rest / p.file.blk_size) p) write_tail
        else record p { out = panic }

    -- Where the write begins: behind a gap of more than a block the file is truncated to the offset.
    unfoldable pub write_start : File B → Bytes → ℕ → Progress B
    unfolding truncate
    write_start f b off =
        if ltb (o.length_of f.cache.blocks + 1) (off / f.blk_size)
        then (let (a, f') = truncate f off in
            record { out = a; n = 0; off = off; rest = b; file = f' })
        else record { out = ok tt; n = 0; off = off; rest = b; file = f }

    -- The deferred update of the file size
    unfoldable pub update_size : Progress B → Progress B
    update_size p =
        if ltb p.file.inode.filesize p.off
        then record p { file = record p.file { inode = record p.file.inode { filesize = p.off } } }
        else p

    unfoldable pub write_opened : Bytes → ℕ → Outcome (Unit {0}) × File B → Progress B
    unfolding write_start write_front write_rest update_size
    write_opened b off (ok _, f) =
        update_size (go_on (go_on (write_start f b off) write_front) write_rest)
    write_opened b off (err e, f) = record { out = err e; n = 0; off = off; rest = b; file = f }
    write_opened b off (panic, f) = record { out = panic; n = 0; off = off; rest = b; file = f }

    -- `WriteAt`
    unfoldable pub write_at : File B → Bytes → ℕ → Progress B
    unfolding write_opened
    write_at f b off = write_opened b off (open_write f)

    -- `Write`
    unfoldable pub write : File B → Bytes → Progress B
    unfolding write_at
    write f b =
        let p = write_at f b f.offset in
        record p { file = record p.file { offset = f.offset + p.n } }
