-- ===== src/Files/WriteAt.antt =====
-- `WriteAt` of bytes that lie within one block: it succeeds, and which bytes it changes.
use torus.Base.{
  ℕ, ◌+◌, ◌-◌, ◌/◌, ◌%◌, ◌≤◌, ◌<◌, ◌≡◌, refl, sym, ap, ap₂, subst, ◌∙◌, Bool, true, false, [],
  arith, inl, inr, ◌⊎◌, length, take, drop, take_all, drop_all, ltb, min, ◌==◌, ==_self,
  if◌then◌else◌, Bool-cases, Bytes, Outcome, ok, err, panic,
}
use native.Mathlib.Nat.{div-eq_of_lt}
use torus.Files.Ops.{BlocksetOps, IsWritable}
use torus.Files.Cache.{SingleBlockCache, sync, write_to_block}
use torus.Files.View.{view, IsCache}
use torus.Files.Writing.{IsWritten, write_to_block-IsWritten}
use torus.Files.File.{
  File, Progress, open_write, write_at, write_opened, write_start, write_front, write_rest,
  write_tail, write_bulk, write_part, wrote, update_size, go_on,
}
use torus.Files.Updates.{HasBytes, written-HasBytes}

module _ {B : Type 0} (o : BlocksetOps B) where
  module _ (require : Bool → Outcome (Unit {0})) (commit : Outcome ℕ) where
    -- The end of a part, with what `writeToBlock` gave
    wrote_lem :
        (p : Progress B) (len : ℕ) (a : Outcome ℕ × SingleBlockCache B)
        → a.0 ≡ ok len
        → wrote o require commit p len a ≡ record p {
          n = p.n + len;
          off = p.off + len;
          rest = drop len p.rest;
          file = record p.file { cache = a.1 };
        }
    unfolding wrote
    wrote_lem p len (ok w, c) e = let same : w ≡ len = cc in rw same (rw (==_self len) refl)
    wrote_lem p len (err x, c) e = cc
    wrote_lem p len (panic, c) e = cc

    -- A part that takes all that is left
    part_lem :
        (p : Progress B) (from : ℕ)
        → from ≡ p.off % p.file.blk_size
        → IsCache o p.file.cache
        → IsWritable o p.file.cache.blk_size p.file.cache.ref p.file.cache.blocks
        → (sync o p.file.cache).0 ≡ ok tt
        → ((e : Bytes) × (view o p.file.cache (p.off / p.file.blk_size) ≡ ok e))
          ⊎ (p.off / p.file.blk_size ≡ o.length_of (sync o p.file.cache).1.blocks)
        → p.file.cache.blk_size ≡ p.file.blk_size
        → from + length p.rest ≤ p.file.blk_size
        → (c' : SingleBlockCache B) × IsWritten o p.file.cache
            (p.off / p.file.blk_size)
            from
            p.rest
            c'
          × (write_part o require commit p from (length p.rest) ≡ record p {
            n = p.n + length p.rest;
            off = p.off + length p.rest;
            rest = [];
            file = record p.file { cache = c' };
          })
    unfolding write_part
    part_lem p from e v w done there size fits =
        let whole : take (length p.rest) p.rest ≡ p.rest =
          take_all (length p.rest) p.rest (omega arith) in
        let none_left : drop (length p.rest) p.rest ≡ [] =
          drop_all (length p.rest) p.rest (omega arith) in
        let i : ℕ = p.off / p.file.blk_size in
        let wr =
          write_to_block-IsWritten o p.file.cache i from (from + length p.rest) p.rest v w done
            there refl (omega (arith, fits, size)) in
        let c' : SingleBlockCache B =
          (write_to_block o p.file.cache i from (from + length p.rest) p.rest).1 in
        (
          c',
          wr.1,
          ap
                (λ x.
                  wrote o require commit p (length p.rest)
                    (write_to_block o p.file.cache i from (from + length p.rest) x))
                whole
              ∙ wrote_lem p (length p.rest)
                  (write_to_block o p.file.cache i from (from + length p.rest) p.rest) wr.0
              ∙ ap
                  (λ x. record p {
                    n = p.n + length p.rest;
                    off = p.off + length p.rest;
                    rest = x;
                    file = record p.file { cache = c' };
                  })
                  none_left,
        )

    -- How a write within one block ends, before the size is updated
    record IsPartDone (f : File B) (b : Bytes) (off : ℕ) (p : Progress B) : Type 0 where
      done : p.out ≡ ok tt
      count : p.n ≡ length b
      offset : p.off ≡ off + length b
      bytes : HasBytes o f b off p.file
      cache : IsCache o p.file.cache
      inode : p.file.inode ≡ f.inode

    abbrev started : File B → Bytes → ℕ → Progress B
    started f b off = record { out = ok tt; n = 0; off = off; rest = b; file = f }

    part-IsPartDone :
        (f : File B) (b : Bytes) (off from : ℕ)
        → 0 < f.blk_size
        → from ≡ off % f.blk_size
        → IsCache o f.cache
        → IsWritable o f.cache.blk_size f.cache.ref f.cache.blocks
        → (sync o f.cache).0 ≡ ok tt
        → ((e : Bytes) × (view o f.cache (off / f.blk_size) ≡ ok e))
          ⊎ (off / f.blk_size ≡ o.length_of (sync o f.cache).1.blocks)
        → f.cache.blk_size ≡ f.blk_size
        → from + length b ≤ f.blk_size
        → (p : Progress B) × (write_part o require commit (started f b off) from (length b) ≡ p)
          × (p.rest ≡ [])
          × IsPartDone f b off p
    part-IsPartDone f b off from pos e v w done there size fits =
        let (c', written, steps) = part_lem (started f b off) from e v w done there size fits in
        (
          record {
            out = ok tt;
            n = 0 + length b;
            off = off + length b;
            rest = [];
            file = record f { cache = c' };
          },
          steps,
          refl,
          record {
            done = refl;
            count = omega arith;
            offset = refl;
            bytes =
                written-HasBytes o f b off c' pos size (omega (arith, e, fits))
                  (subst (λ x. IsWritten o f.cache (off / f.blk_size) x b c') e written);
            cache = written.cache;
            inode = refl;
          },
        )

    -- Front and tail: one of them takes the whole write.
    body_lem :
        (f : File B) (b : Bytes) (off : ℕ) (p : Progress B)
        → 0 < length b
        → length b < f.blk_size
        → off % f.blk_size + length b ≤ f.blk_size
        → p.rest ≡ []
        → p.out ≡ ok tt
        → write_part o require commit (started f b off) (off % f.blk_size) (length b) ≡ p
        → go_on o require commit
            (write_front o require commit (started f b off))
            (write_rest o require commit)
          ≡ p
    unfolding write_front write_rest write_tail write_bulk
    body_lem f b off p some_ less fits none_left fine steps =
        elim (Bool-cases (off % f.blk_size == 0)) [
          | inl aligned ↦
              let full : (length b == 0) ≡ false = ground arith in
              let rounds : length b / f.blk_size ≡ 0 = div-eq_of_lt less in
              let zero_ : off % f.blk_size ≡ 0 = ground arith in
              rw (aligned, full, aligned, rounds, full, aligned)
                (ap (λ x. write_part o require commit (started f b off) x (length b)) (sym zero_)
                  ∙ steps)
          | inr inside ↦
              let all : min (f.blk_size - off % f.blk_size) (length b) ≡ length b =
                omega (arith, fits) in
              rw (inside, all, steps, fine, none_left) refl
        ]

    -- A file that `WriteAt` has opened, and the condition under which block `i` can be written there
    pub record IsReady (f : File B) (off : ℕ) : Type 0 where
      pub blk_pos : 0 < f.blk_size
      pub cache_size : f.cache.blk_size ≡ f.blk_size
      pub cache : IsCache o f.cache
      pub writable : IsWritable o f.cache.blk_size f.cache.ref f.cache.blocks
      pub syncs : (sync o f.cache).0 ≡ ok tt
      pub there :
          ((e : Bytes) × (view o f.cache (off / f.blk_size) ≡ ok e))
          ⊎ (off / f.blk_size ≡ o.length_of (sync o f.cache).1.blocks)
      pub no_gap : off / f.blk_size ≤ o.length_of f.cache.blocks + 1

    pub record HasWritten (f : File B) (b : Bytes) (off : ℕ) (p : Progress B) : Type 0 where
      pub done : p.out ≡ ok tt
      pub count : p.n ≡ length b
      pub bytes : HasBytes o f b off p.file
      pub cache : IsCache o p.file.cache
      pub filesize :
          p.file.inode.filesize
          ≡ (if ltb f.inode.filesize (off + length b) then off + length b else f.inode.filesize)

    size_lem :
        (f : File B) (b : Bytes) (off : ℕ) (p : Progress B)
        → IsPartDone f b off p
        → HasWritten f b off (update_size o require commit p)
    unfolding update_size
    size_lem f b off p d = elim (Bool-cases (ltb p.file.inode.filesize p.off)) [
      | inl grows ↦
          let grows_f : ltb f.inode.filesize (off + length b) ≡ true =
            ap₂ ltb (ap (λ x. x.filesize) (sym d.inode)) (sym d.offset) ∙ grows in
          rw grows (record {
            done = d.done;
            count = d.count;
            bytes = record { new = d.bytes.new; kept = d.bytes.kept };
            cache = d.cache;
            filesize = rw grows_f d.offset;
          })
      | inr stays ↦
          let stays_f : ltb f.inode.filesize (off + length b) ≡ false =
            ap₂ ltb (ap (λ x. x.filesize) (sym d.inode)) (sym d.offset) ∙ stays in
          rw stays (record {
            done = d.done;
            count = d.count;
            bytes = d.bytes;
            cache = d.cache;
            filesize = rw stays_f (ap (λ x. x.filesize) d.inode);
          })
    ]

    -- WriteAt of a non-empty slice shorter than a block, which lies in one block of a ready file
    -- that is open for writing, succeeds and counts all its bytes; afterwards each byte of the file
    -- is the written one or the one from before, and the file size has grown to the end of the
    -- write if that lay beyond it.
    pub write_at-HasWritten :
        (f f' : File B) (b : Bytes) (off : ℕ)
        → open_write o require commit f ≡ (ok tt, f')
        → IsReady f' off
        → 0 < length b
        → length b < f'.blk_size
        → off % f'.blk_size + length b ≤ f'.blk_size
        → HasWritten f' b off (write_at o require commit f b off)
    unfolding write_at write_opened write_start
    write_at-HasWritten f f' b off opened r some_ less fits =
        let (p, steps, none_left, d) =
          part-IsPartDone f' b off (off % f'.blk_size) r.blk_pos refl r.cache r.writable r.syncs
            r.there r.cache_size fits in
        let body = body_lem f' b off p some_ less fits none_left d.done steps in
        let near : ltb (o.length_of f'.cache.blocks + 1) (off / f'.blk_size) ≡ false =
          ground (arith, r.no_gap) in
        let start : write_start o require commit f' b off ≡ started f' b off = rw near refl in
        rw opened (rw start (rw body (size_lem f' b off p d)))
