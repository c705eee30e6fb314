-- ===== src/Files/Reading.antt =====
-- What `ReadAt` gives: the bytes of the file, as the view of its cache has them.
use torus.Base.{
  ℕ, zero, suc, ◌+◌, ◌-◌, ◌/◌, ◌%◌, ◌≤◌, ◌<◌, ◌≡◌, refl, sym, ap, ap₂, subst, ◌∙◌, true, [], ◌++◌,
  arith, inl, inr, length, slice, get_or, ltb, leb, min, if◌then◌else◌, Bool-cases, length-append,
  length-slice, Bytes, Outcome, ok, err, panic,
}
use native.Mathlib.Nat.{mod-lt}
use torus.Files.Bytes.{get_or-append_left, get_or-append_right, get_or-slice, byte_of, div_in_block}
use torus.Files.Ops.{BlocksetOps}
use torus.Files.Cache
use torus.Files.Cache.{SingleBlockCache, is_at, or_nil}
use torus.Files.Opening.{is_at_iff}
use torus.Files.View.{view, IsCache}
use torus.Files.Writing.{IsRead, get_block-IsRead}
use torus.Files.File.{File, eof}
use torus.Files.Reader.{read_part, read_loop, read_at}

module _ {B : Type 0} (o : BlocksetOps B) where
  -- Byte `p` of the file, as it is read
  abbrev pub byte_at : File B → ℕ → ℕ
  byte_at f p = byte_of (view o f.cache (p / f.blk_size)) (p % f.blk_size)

  -- The file reads as `f₀` does.
  record IsSame (f₀ f : File B) : Type 0 where
    cache : IsCache o f.cache
    block_size : f.blk_size ≡ f₀.blk_size
    cache_size : f.cache.blk_size ≡ f.blk_size
    same_view : (j : ℕ) → view o f.cache j ≡ view o f₀.cache j

  -- The bytes read so far are those of `f₀` from `base` on.
  abbrev IsPrefix : File B → ℕ → Bytes → Type 0
  IsPrefix f₀ base got = (k : ℕ) → k < length got → get_or got k 0 ≡ byte_at f₀ (base + k)

  part-IsPrefix :
      (f₀ : File B) (base off this : ℕ) (got d : Bytes)
      → 0 < f₀.blk_size
      → off ≡ base + length got
      → view o f₀.cache (off / f₀.blk_size) ≡ ok d
      → length d ≡ f₀.blk_size
      → off % f₀.blk_size + this ≤ f₀.blk_size
      → IsPrefix f₀ base got
      → (length (got ++ slice (off % f₀.blk_size) this d) ≡ length got + this)
        × IsPrefix f₀ base (got ++ slice (off % f₀.blk_size) this d)
  part-IsPrefix f₀ base off this got d pos at block l fits before =
      let from : ℕ = off % f₀.blk_size in
      let part : Bytes = slice from this d in
      let size : length part ≡ this = length-slice from this d (omega (arith, l, fits)) in
      let total : length (got ++ part) ≡ length got + this =
        length-append got part ∙ omega (arith, size) in
      (
        total,
        λ k h. elim (Bool-cases (ltb k (length got))) [
          | inl old ↦ get_or-append_left got part k (ground arith) ∙ before k (ground arith)
          | inr new ↦
              let j : ℕ = k - length got in
              let inside : from + j < f₀.blk_size = ground (arith, h, total, fits) in
              let place : base + k ≡ off + j = ground (arith, at) in
              let here = div_in_block f₀.blk_size off j pos inside in
              let byte : byte_at f₀ (off + j) ≡ get_or d (from + j) 0 =
                ap₂ (λ q r. byte_of (view o f₀.cache q) r) here.0 here.1
                ∙ ap (λ x. byte_of x (from + j)) block in
              get_or-append_right got part k (ground arith)
              ∙ get_or-slice from this d j (ground (arith, h, total))
              ∙ sym byte
              ∙ ap (byte_at f₀) (sym place)
        ],
      )

  pub record HasRead (f₀ : File B) (base want : ℕ) (ends : Outcome (Unit {0}))
      (r : Outcome (Unit {0}) × Bytes × File B) : Type 0 where
    pub ended : r.0 ≡ ends
    pub size : length r.1 ≡ want
    pub bytes : (k : ℕ) → k < want → get_or r.1 k 0 ≡ byte_at f₀ (base + k)
    pub same_view : (j : ℕ) → view o r.2.cache j ≡ view o f₀.cache j

  read_done :
      (f₀ f : File B) (base want : ℕ) (ends : Outcome (Unit {0})) (got : Bytes)
      → IsSame f₀ f
      → length got ≡ want
      → IsPrefix f₀ base got
      → HasRead f₀ base want ends (ends, got, f)
  read_done f₀ f base want ends got s l p = record {
    ended = refl;
    size = l;
    bytes = λ k h. p k (omega (arith, l, h));
    same_view = s.same_view;
  }

  view-sized :
      (c : SingleBlockCache B) (j : ℕ) (d : Bytes)
      → IsCache o c
      → view o c j ≡ ok d
      → length d ≡ c.blk_size
  view-sized c j d v e = elim (Bool-cases (is_at c.open_idx j)) [
    | inl open_ ↦
        let (x, data_of, size, within, saved) = v.open_ok j (is_at_iff o c.open_idx j open_) in
        let same : ok (or_nil c.open_data) ≡ ok d = rw open_ at e in
        let eq : or_nil c.open_data ≡ d = cc in ap length (sym eq ∙ ap or_nil data_of) ∙ size
    | inr behind ↦ v.blocks_ok.sized j d (rw behind at e)
  ]

  -- One round: the block is there, and the rest of the loop does the rest.
  part-HasRead :
      (f₀ f : File B) (base want off from this q : ℕ) (ends : Outcome (Unit {0})) (got d : Bytes)
      (a : Outcome Bytes × SingleBlockCache B)
      (more : File B → Bytes → Outcome (Unit {0}) × Bytes × File B)
      → 0 < f₀.blk_size
      → IsSame f₀ f
      → IsPrefix f₀ base got
      → off ≡ base + length got
      → from ≡ off % f₀.blk_size
      → q ≡ off / f₀.blk_size
      → from + this ≤ f₀.blk_size
      → view o f₀.cache q ≡ ok d
      → IsRead o f.cache q a
      → ((f' : File B) (got' : Bytes)
          → IsSame f₀ f'
          → IsPrefix f₀ base got'
          → length got' ≡ length got + this
          → HasRead f₀ base want ends (more f' got'))
      → HasRead f₀ base want ends (read_part o f got from this a more)
  unfolding read_part
  part-HasRead f₀ f base want off from this q ends got d (ok blk, c) more pos s p at ef eq fits
        known r next =
      let seen : ok blk ≡ ok d = r.answer ∙ s.same_view q ∙ known in
      let blk_d : blk ≡ d = cc in
      let size : length blk ≡ f₀.blk_size =
        view-sized f.cache q blk s.cache (sym r.answer) ∙ s.cache_size ∙ s.block_size in
      let whole : leb (from + this) (length blk) ≡ true = ground (arith, fits, size) in
      let block : view o f₀.cache (off / f₀.blk_size) ≡ ok blk =
        ap (view o f₀.cache) (sym eq) ∙ known ∙ sym seen in
      let prefix =
        part-IsPrefix f₀ base off this got blk pos at block size (omega (arith, ef, fits)) p in
      let window : got ++ slice (off % f₀.blk_size) this blk ≡ got ++ slice from this blk =
        ap (λ x. got ++ slice x this blk) (sym ef) in
      rw whole (
        next (record f { cache = c }) (got ++ slice from this blk)
          (record {
            cache = r.cache;
            block_size = s.block_size;
            cache_size = r.same_size ∙ s.cache_size;
            same_view = λ j. r.same_view j ∙ s.same_view j;
          })
          (subst (IsPrefix f₀ base) window prefix.1) (sym (ap length window) ∙ prefix.0))
  part-HasRead f₀ f base want off from this q ends got d (err x, c) more pos s p at ef eq fits known
        r next =
      let bad : err x ≡ ok d = r.answer ∙ s.same_view q ∙ known in cc
  part-HasRead f₀ f base want off from this q ends got d (panic, c) more pos s p at ef eq fits known
        r next =
      let bad : panic ≡ ok d = r.answer ∙ s.same_view q ∙ known in cc

  -- `k` rounds are enough for `k` bytes.
  loop-HasRead :
      (f₀ : File B) (base want k off : ℕ) (ends : Outcome (Unit {0})) (f : File B) (got : Bytes)
      → 0 < f₀.blk_size
      → ((p : ℕ)
          → base ≤ p
          → p < base + want
          → (d : Bytes) × (view o f₀.cache (p / f₀.blk_size) ≡ ok d))
      → IsSame f₀ f
      → IsPrefix f₀ base got
      → off ≡ base + length got
      → length got ≤ want
      → want ≤ length got + k
      → HasRead f₀ base want ends (read_loop o k ends f want off got)
  unfolding read_loop
  loop-HasRead f₀ base want zero off ends f got pos readable s p at l enough =
      read_done f₀ f base want ends got s (omega arith) p
  loop-HasRead f₀ base want (suc k) off ends f got pos readable s p at l enough =
      elim (Bool-cases (ltb (length got) want)) [
        | inr done ↦ rw done (read_done f₀ f base want ends got s (ground arith) p)
        | inl more ↦
            let b : ℕ = f.blk_size in
            let this : ℕ = min (b - off % b) (want - length got) in
            let within : off % b < b = mod-lt off (ground (arith, s.block_size)) in
            let some_left : length got < want = ground arith in
            let (d, known) = readable off (omega arith) (omega arith) in
            rw more (
              part-HasRead f₀ f base want off (off % b) this (off / b) ends got d
                (Cache.get_block o f.cache (off / b))
                (λ f' got'. read_loop o k ends f' want (off + this) got') pos s p at
                (ap (λ x. off % x) s.block_size) (ap (λ x. off / x) s.block_size)
                (omega (arith, within, s.block_size))
                (ap (λ x. view o f₀.cache (off / x)) s.block_size ∙ known)
                (get_block-IsRead o f.cache (off / b) s.cache)
                (λ f' got' s' p' l'.
                  loop-HasRead f₀ base want k (off + this) ends f' got' pos readable s' p'
                    (omega (arith, at, l')) (omega (arith, l'))
                    (omega (arith, l', within, some_left))))
      ]

  -- ReadAt of a file whose cache is consistent and has the block size of the file, where each block
  -- below the file size can be read: it gives exactly the bytes from the offset on, as many as
  -- asked for or as the file has, each of which is the byte of the view of the open block and the
  -- blockset at its position; the outcome is EOF exactly when the end asked for lies beyond the
  -- file size; and the view of the blocks stays the same.
  pub read_at-HasRead :
      (f : File B) (len off : ℕ)
      → 0 < f.blk_size
      → f.cache.blk_size ≡ f.blk_size
      → IsCache o f.cache
      → ((p : ℕ) → p < f.inode.filesize → (d : Bytes) × (view o f.cache (p / f.blk_size) ≡ ok d))
      → HasRead f off
          (min len (f.inode.filesize - off))
          (if ltb f.inode.filesize (len + off) then err eof else ok tt)
          (read_at o f len off)
  unfolding read_at
  read_at-HasRead f len off pos size v readable =
      let same : IsSame f f = record {
        cache = v;
        block_size = refl;
        cache_size = size;
        same_view = λ j. refl;
      } in
      elim (Bool-cases (ltb f.inode.filesize (len + off))) [
        | inl beyond ↦
            let want : min len (f.inode.filesize - off) ≡ f.inode.filesize - off = ground arith in
            rw (beyond, want)
              (loop-HasRead f off (f.inode.filesize - off) (f.inode.filesize - off) off (err eof) f
                [] pos (λ p g h. readable p (omega (arith, g, h))) same
                (λ k h. absurd (omega arith)) (omega arith) (omega arith) (omega arith))
        | inr inside ↦
            let want : min len (f.inode.filesize - off) ≡ len = ground arith in
            rw (inside, want)
              (loop-HasRead f off len len off (ok tt) f [] pos
                (λ p g h. readable p (ground (arith, inside, h))) same (λ k h. absurd (omega arith))
                (omega arith) (omega arith) (omega arith))
      ]
