-- ===== src/Store/Mmap/Blocks.antt =====
-- A mapped file is an array of blocks: a write replaces one block and keeps the others.
use torus.Base.{
  ℕ, ◌+◌, ◌-◌, ◌*◌, ◌≤◌, ◌<◌, ◌≡◌, ◌≢◌, sym, ap, ◌∙◌, true, false, some, ◌++◌, arith, inl, inr,
  length, drop, replicate, length-append, length-drop, length-replicate, ltb, leb, ◌==◌, Bytes,
  slice, splice, u64_mod, length-splice, length-slice, slice-splice_self, slice-splice_below,
  slice-splice_above, append-nil, Bool-cases, ok, err, Error,
}
use native.Mathlib.Nat.{mul-div_cancel}
use torus.Store.Mmap.{MFile, offset_of, get_block, num_blocks, write_block}

-- A mapped file of `n` blocks.
pub record IsFile (n : ℕ) (m : MFile) : Type 0 where
  pub blk_pos : 0 < m.blk_size
  pub size_eq : m.size ≡ n * m.blk_size
  pub length_eq : length m.mmap ≡ n * m.blk_size
  pub size_lt : n * m.blk_size < u64_mod

abbrev pub block_at : MFile → ℕ → Bytes
block_at m i = slice (i * m.blk_size) m.blk_size m.mmap

-- A block as it is stored: filled up with zeros.
abbrev pub fill : ℕ → Bytes → Bytes
fill size d = d ++ replicate (size - length d) 0

pub next_block : (i n b : ℕ) → i < n → i * b + b ≤ n * b
next_block i n b h = grind arith

pub offset_lem : (n : ℕ) (m : MFile) (i : ℕ) → IsFile n m → i < n → offset_of m i ≡ i * m.blk_size
offset_lem n m i f h = let fits = next_block i n m.blk_size h in grind (arith, fits, f.size_lt)

offset_lt : (n : ℕ) (m : MFile) (i : ℕ) → IsFile n m → i < n → i * m.blk_size < m.size
offset_lt n m i f h =
    let fits = next_block i n m.blk_size h in omega (arith, fits, f.size_eq, f.blk_pos)

-- Every block below `n` can be read, and has the size of a block.
pub get_block_lem :
    (n : ℕ) (m : MFile) (i : ℕ)
    → IsFile n m
    → i < n
    → (get_block m i ≡ some (block_at m i)) × (length (block_at m i) ≡ m.blk_size)
unfolding get_block
get_block_lem n m i f h =
    let e = offset_lem n m i f h in
    let inside = offset_lt n m i f h in
    let seen : leb m.size (i * m.blk_size) ≡ false = ground arith in
    (
      rw e (rw seen),
      length-slice (i * m.blk_size) m.blk_size m.mmap
          (omega (arith, next_block i n m.blk_size h, f.length_eq)),
    )

pub num_blocks_lem : (n : ℕ) (m : MFile) → IsFile n m → num_blocks m ≡ n
unfolding num_blocks
num_blocks_lem n m f = rw f.size_eq (mul-div_cancel n f.blk_pos)

-- The file after block `i` has been overwritten by `d`.
abbrev pub written : MFile → ℕ → Bytes → MFile
written m i d = record m { mmap = splice (i * m.blk_size) (fill m.blk_size d) m.mmap }

length-fill : (size : ℕ) (d : Bytes) → length d ≤ size → length (fill size d) ≡ size
length-fill size d h =
    let pad : length (replicate (size - length d) 0) ≡ size - length d =
      length-replicate {A = ℕ} (size - length d) 0 in
    omega (arith, length-append d (replicate (size - length d) 0), pad)

pub written-IsFile : (n : ℕ) (m : MFile) (i : ℕ) (d : Bytes) → IsFile n m → IsFile n (written m i d)
written-IsFile n m i d f = record {
  blk_pos = f.blk_pos;
  size_eq = f.size_eq;
  length_eq = length-splice (i * m.blk_size) (fill m.blk_size d) m.mmap ∙ f.length_eq;
  size_lt = f.size_lt;
}

pub block_at-written_self :
    (n : ℕ) (m : MFile) (i : ℕ) (d : Bytes)
    → IsFile n m
    → i < n
    → length d ≤ m.blk_size
    → block_at (written m i d) i ≡ fill m.blk_size d
block_at-written_self n m i d f h l =
    let e = length-fill m.blk_size d l in
    let at =
      slice-splice_self (i * m.blk_size) (fill m.blk_size d) m.mmap
        (omega (arith, next_block i n m.blk_size h, f.length_eq, e)) in
    ap (λ k. slice (i * m.blk_size) k (splice (i * m.blk_size) (fill m.blk_size d) m.mmap)) (sym e)
    ∙ at

pub block_at-written_ne :
    (m : MFile) (i j : ℕ) (d : Bytes)
    → length d ≤ m.blk_size
    → i ≢ j
    → block_at (written m i d) j ≡ block_at m j
block_at-written_ne m i j d l ne = elim (Bool-cases (ltb j i)) [
  | inl below ↦
      let h : j < i = ground arith in
      slice-splice_below (i * m.blk_size) (j * m.blk_size) m.blk_size (fill m.blk_size d) m.mmap
        (next_block j i m.blk_size h)
  | inr above ↦
      let h : i < j = ground arith in
      slice-splice_above (i * m.blk_size) (j * m.blk_size) m.blk_size (fill m.blk_size d) m.mmap
        (omega (arith, next_block i j m.blk_size h, length-fill m.blk_size d l))
]

-- Writing a block that fits succeeds, on the exact and on the short path alike.
pub write_block_lem :
    (n : ℕ) (m : MFile) (i : ℕ) (d : Bytes)
    → IsFile n m
    → i < n
    → length d ≤ m.blk_size
    → write_block m i d ≡ (ok tt, written m i d)
unfolding write_block
write_block_lem n m i d f h l =
    let fits : ltb m.blk_size (length d) ≡ false = ground arith in
    let at = offset_lem n m i f h in
    rw fits (elim (Bool-cases (length d == m.blk_size)) [
      | inl full ↦
          let inside : ltb (length m.mmap) (i * m.blk_size) ≡ false =
            ground (arith, offset_lt n m i f h, f.length_eq, f.size_eq) in
          let none_left : m.blk_size - length d ≡ 0 = ground arith in
          rw full (rw at (rw inside (rw none_left (rw append-nil))))
      | inr short ↦
          let got = get_block_lem n m i f h in
          let rest : length (drop (length d) (block_at m i)) ≡ m.blk_size - length d =
            length-drop (length d) (block_at m i) ∙ ap (λ k. k - length d) got.1 in
          rw short (rw got.0 (rw at (rw rest)))
    ])

-- A block that is too long is refused, and the file is as it was.
pub write_block_too_long :
    (m : MFile) (i : ℕ) (d : Bytes)
    → m.blk_size < length d
    → write_block m i d ≡ (err (Error.other 1), m)
unfolding write_block
write_block_too_long m i d l = let long : ltb m.blk_size (length d) ≡ true = ground arith in rw long
