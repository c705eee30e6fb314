-- ===== src/Store/Mfile/Invariant.antt =====
-- The invariant of the store: two files of `n` slots, and an index that agrees with the map file.
use torus.Base.{
  ℕ, ◌-◌, ◌≤◌, ◌<◌, ◌≡◌, ◌≢◌, sym, ap, ◌∙◌, some, arith, inl, inr, append-nil, length, Bytes,
  Bool-cases,
}
use torus.Refs.{BlockRef, to_bytes, block_ref_eq, block_ref_byte_size}
use torus.Refs.Fields.{block_ref_eq_iff}
use torus.Refs.Encoding.{to_bytes_blank, to_bytes_injective, length-to_bytes}
use torus.RefMap.{lookup, insert, lookup-insert}
use torus.Store.Interface.{IsUsable}
use torus.Store.Mmap.{MFile}
use torus.Store.Mmap.Blocks.{
  IsFile, block_at, fill, written, get_block_lem, num_blocks_lem, written-IsFile,
  block_at-written_self, block_at-written_ne,
}
use torus.Store.Mfile.{MFileBlock, blank_ref_bytes, slot, find_empty}
use torus.Store.Mfile.Free.{find_empty_sound}

pub record IsStore (n : ℕ) (s : MFileBlock) : Type 0 where
  pub data_ok : IsFile n s.data_file
  pub ref_ok : IsFile n s.ref_file
  pub ref_size : s.ref_file.blk_size ≡ block_ref_byte_size
  pub data_size : s.data_file.blk_size ≡ s.block_size
  pub indexed : (r : BlockRef) (i : ℕ) → lookup r s.ref_index ≡ some i → i < n
  pub marked :
      (r : BlockRef) (i : ℕ)
      → IsUsable r
      → lookup r s.ref_index ≡ some i
      → block_at s.ref_file i ≡ to_bytes r

pub slot_lem : (n : ℕ) (m : MFile) (i : ℕ) → IsFile n m → i < n → slot m i ≡ block_at m i
unfolding slot
slot_lem n m i f h = let got = (get_block_lem n m i f h).0 in rw (got, slot)

pub fill_exact : (size : ℕ) (d : Bytes) → length d ≡ size → fill size d ≡ d
fill_exact size d e = let z : size - length d ≡ 0 = omega arith in rw z (append-nil d)

pub not_blank : (r : BlockRef) → IsUsable r → to_bytes r ≢ blank_ref_bytes
not_blank r u e = u.nonzero ((to_bytes_blank r u.in_range).0 e)

module _ (n : ℕ) (s : MFileBlock) (v : IsStore n s) where
  -- The slot that the search finds lies in both files and is free.
  pub found_slot :
      {i : ℕ} → find_empty s ≡ some i → (i < n) × (block_at s.ref_file i ≡ blank_ref_bytes)
  found_slot {i} h =
      let found = find_empty_sound s h in
      let l : i < n = rw (num_blocks_lem n s.data_file v.data_ok) at found.0 in
      (l, sym (slot_lem n s.ref_file i v.ref_ok l) ∙ found.1)

  -- A used slot is not the free one.
  pub used_ne_free :
      {i : ℕ} (q : BlockRef) (j : ℕ)
      → IsUsable q
      → lookup q s.ref_index ≡ some j
      → block_at s.ref_file i ≡ blank_ref_bytes
      → i ≢ j
  used_ne_free {i} q j u known free same =
      not_blank q u (sym (v.marked q j u known) ∙ ap (block_at s.ref_file) (sym same) ∙ free)

  -- Two references never share a slot.
  pub slots_distinct :
      (q r : BlockRef) (i j : ℕ)
      → IsUsable q
      → IsUsable r
      → q ≢ r
      → lookup q s.ref_index ≡ some i
      → lookup r s.ref_index ≡ some j
      → i ≢ j
  slots_distinct q r i j u w ne hq hr same = ne (
      to_bytes_injective q r u.in_range w.in_range
        (sym (v.marked q i u hq) ∙ ap (block_at s.ref_file) same ∙ v.marked r j w hr))

  -- Both files written at a free slot.
  abbrev pub stored : BlockRef → Bytes → ℕ → MFileBlock
  stored r d i = record s {
    data_file = written s.data_file i d;
    ref_file = written s.ref_file i (to_bytes r);
    last_free = i;
  }

  fits_ref : (r : BlockRef) → length (to_bytes r) ≤ s.ref_file.blk_size
  fits_ref r = omega (arith, length-to_bytes r, v.ref_size)

  pub ref_stored :
      (r : BlockRef) (i : ℕ) → i < n → block_at (written s.ref_file i (to_bytes r)) i ≡ to_bytes r
  ref_stored r i h =
      block_at-written_self n s.ref_file i (to_bytes r) v.ref_ok h (fits_ref r)
      ∙ fill_exact s.ref_file.blk_size (to_bytes r) (omega (arith, length-to_bytes r, v.ref_size))

  pub stored-IsStore :
      (r : BlockRef) (d : Bytes) (i : ℕ)
      → block_at s.ref_file i ≡ blank_ref_bytes
      → IsStore n (stored r d i)
  stored-IsStore r d i free = record {
    data_ok = written-IsFile n s.data_file i d v.data_ok;
    ref_ok = written-IsFile n s.ref_file i (to_bytes r) v.ref_ok;
    ref_size = v.ref_size;
    data_size = v.data_size;
    indexed = v.indexed;
    marked = λ q j u known.
        block_at-written_ne s.ref_file i j (to_bytes r) (fits_ref r) (used_ne_free q j u known free)
        ∙ v.marked q j u known;
  }

  pub inserted-IsStore :
      (r : BlockRef) (d : Bytes) (i : ℕ)
      → i < n
      → block_at s.ref_file i ≡ blank_ref_bytes
      → IsStore n (record (stored r d i) { ref_index = insert r i s.ref_index })
  inserted-IsStore r d i h free =
      let w = stored-IsStore r d i free in
      record {
        data_ok = w.data_ok;
        ref_ok = w.ref_ok;
        ref_size = v.ref_size;
        data_size = v.data_size;
        indexed = λ q j known. entry_lt q j known;
        marked = λ q j u known. entry_marked w q j u known;
      }
    where
      entry_lt : (q : BlockRef) (j : ℕ) → lookup q (insert r i s.ref_index) ≡ some j → j < n
      entry_lt q j known = ground (arith, lookup-insert r q i s.ref_index, v.indexed q j)

      entry_marked :
          IsStore n (stored r d i)
          → (q : BlockRef) (j : ℕ) → IsUsable q
          → lookup q (insert r i s.ref_index) ≡ some j
          → block_at (written s.ref_file i (to_bytes r)) j ≡ to_bytes q
      entry_marked w q j u known = elim (Bool-cases (block_ref_eq r q)) [
        | inl same ↦
            let e : r ≡ q = (block_ref_eq_iff r q).0 same in
            let at : i ≡ j = ground (arith, lookup-insert r q i s.ref_index) in
            rw (← at, ← e) (ref_stored r i h)
        | inr other ↦
            let old : lookup q s.ref_index ≡ some j =
              ground (arith, lookup-insert r q i s.ref_index) in
            w.marked q j u old
      ]
