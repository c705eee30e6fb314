-- ===== src/Store/Mfile/Load.antt =====
-- Opening a store: the index read off the map file (loadIndex, newMFileBlockStore).
use torus.Base.{
  ℕ, zero, suc, ◌+◌, ◌*◌, ◌≤◌, ◌<◌, ◌≡◌, ◌≢◌, refl, sym, ap, ◌∙◌, true, false, none, some, arith,
  inl, inr, [], length, if◌then◌else◌, ltb, ◌==◌, bytes_eq, bytes_eq→eq, bytes_eq_refl, Bool-cases,
  ok, AllBytes, AllBytes-take, AllBytes-drop, drop,
}
use torus.Refs.{BlockRef, to_bytes, from_bytes, block_ref_eq, block_ref_byte_size}
use torus.Refs.Fields.{block_ref_eq_iff}
use torus.Refs.Encoding.{to_bytes-from_bytes, from_bytes-to_bytes}
use torus.RefMap.{RefMap, lookup, insert, lookup-insert}
use torus.Store.Interface.{IsUsable}
use torus.Store.Mmap.{MFile, num_blocks}
use torus.Store.Mmap.Blocks.{IsFile, block_at, get_block_lem, num_blocks_lem}
use torus.Store.Mfile.{
  MFileBlock, blank_ref_bytes, slot, load_from, load_index, new_mfile_block_store,
}
use torus.Store.Mfile.Invariant.{IsStore, slot_lem, not_blank}

module _ (m : MFile) where
  -- Slot `j` holds reference `r` and is not free.
  abbrev Holds : BlockRef → ℕ → Type 0
  Holds r j = (from_bytes (slot m j) ≡ r) × (slot m j ≢ blank_ref_bytes)

  -- One round of the loop.
  abbrev add_slot : ℕ → RefMap ℕ → RefMap ℕ
  add_slot i out =
      if bytes_eq blank_ref_bytes (slot m i) then out else insert (from_bytes (slot m i)) i out

  add_slot_sound :
      (i : ℕ) (out : RefMap ℕ)
      → ((r : BlockRef) (j : ℕ) → lookup r out ≡ some j → Holds r j × (j < i))
      → (r : BlockRef) (j : ℕ) → lookup r (add_slot i out) ≡ some j
      → Holds r j × (j < i + 1)
  add_slot_sound i out ih r j h = elim (Bool-cases (bytes_eq blank_ref_bytes (slot m i))) [
    | inl blank ↦ let old = ih r j (rw blank at h) in (old.0, omega (arith, old.1))
    | inr used ↦
        let h' : lookup r (insert (from_bytes (slot m i)) i out) ≡ some j = rw used at h in
        elim (Bool-cases (block_ref_eq (from_bytes (slot m i)) r)) [
          | inl same ↦
              let at : i ≡ j = ground (arith, lookup-insert (from_bytes (slot m i)) r i out) in
              rw (← at) (
                (
                  (block_ref_eq_iff (from_bytes (slot m i)) r).0 same,
                  λ e.
                      let full : bytes_eq blank_ref_bytes (slot m i) ≡ true =
                        rw e (bytes_eq_refl blank_ref_bytes) in
                      cc,
                ),
                omega arith,
              )
          | inr other ↦
              let old = ih r j (ground (arith, lookup-insert (from_bytes (slot m i)) r i out)) in
              (old.0, omega (arith, old.1))
        ]
  ]

  load_from_sound :
      (k i : ℕ) (out : RefMap ℕ)
      → ((r : BlockRef) (j : ℕ) → lookup r out ≡ some j → Holds r j × (j < i))
      → (r : BlockRef) (j : ℕ) → lookup r (load_from m k i out) ≡ some j
      → Holds r j × (j < i + k)
  unfolding load_from
  load_from_sound zero i out ih r j h = let old = ih r j h in (old.0, omega (arith, old.1))
  load_from_sound (suc k) i out ih r j h =
      let rest = load_from_sound k (i + 1) (add_slot i out) (add_slot_sound i out ih) r j h in
      (rest.0, omega (arith, rest.1))

  abbrev IsKnown : BlockRef → RefMap ℕ → Type 0
  IsKnown r out = lookup r out ≢ none

  insert-IsKnown :
      (r k : BlockRef) (i : ℕ) (out : RefMap ℕ) → IsKnown r out → IsKnown r (insert k i out)
  insert-IsKnown r k i out h e = h (ground (arith, lookup-insert k r i out))

  add_slot-IsKnown :
      (r : BlockRef) (i : ℕ) (out : RefMap ℕ) → IsKnown r out → IsKnown r (add_slot i out)
  add_slot-IsKnown r i out h = elim (Bool-cases (bytes_eq blank_ref_bytes (slot m i))) [
    | inl blank ↦ rw blank h
    | inr used ↦ rw used (insert-IsKnown r (from_bytes (slot m i)) i out h)
  ]

  add_slot_new : (r : BlockRef) (i : ℕ) (out : RefMap ℕ) → Holds r i → IsKnown r (add_slot i out)
  add_slot_new r i out h = elim (Bool-cases (bytes_eq blank_ref_bytes (slot m i))) [
    | inl blank ↦ absurd (h.1 (sym (bytes_eq→eq blank_ref_bytes (slot m i) blank)))
    | inr used ↦
        let same : block_ref_eq (from_bytes (slot m i)) r ≡ true =
          (block_ref_eq_iff (from_bytes (slot m i)) r).1 h.0 in
        rw used (λ e.
          let found : some i ≡ none =
            sym (lookup-insert (from_bytes (slot m i)) r i out ∙ rw same) ∙ e in
          cc)
  ]

  load_from_keeps :
      (k i : ℕ) (out : RefMap ℕ) (r : BlockRef) → IsKnown r out → IsKnown r (load_from m k i out)
  unfolding load_from
  load_from_keeps zero i out r h = h
  load_from_keeps (suc k) i out r h =
      load_from_keeps k (i + 1) (add_slot i out) r (add_slot-IsKnown r i out h)

  load_from_complete :
      (k i : ℕ) (out : RefMap ℕ) (r : BlockRef) (j : ℕ)
      → i ≤ j
      → j < i + k
      → Holds r j
      → IsKnown r (load_from m k i out)
  unfolding load_from
  load_from_complete zero i out r j lo hi h = absurd (omega arith)
  load_from_complete (suc k) i out r j lo hi h = elim (Bool-cases (ltb i j)) [
    | inl later ↦ load_from_complete k (i + 1) (add_slot i out) r j (ground arith) (omega arith) h
    | inr now ↦
        let e : j ≡ i = ground arith in
        load_from_keeps k (i + 1) (add_slot i out) r (add_slot_new r i out (rw e at h))
  ]

module _ (n : ℕ) (m : MFile) (f : IsFile n m) (width : m.blk_size ≡ block_ref_byte_size) where
  -- For a usable reference, the loaded index knows it whenever some slot of the map file holds it,
  -- and the slot that the index names holds it.
  pub load_index_lem :
      (r : BlockRef)
      → IsUsable r
      → ((j : ℕ) → j < n → block_at m j ≡ to_bytes r → lookup r (load_index m) ≢ none)
        × ((j : ℕ) → lookup r (load_index m) ≡ some j → (j < n) × (from_bytes (block_at m j) ≡ r))
  unfolding load_index
  load_index_lem r u =
      let count = num_blocks_lem n m f in
      (
        λ j h e.
            let at : slot m j ≡ to_bytes r = slot_lem n m j f h ∙ e in
            load_from_complete m (num_blocks m) 0 [] r j (omega arith) (rw count (omega arith)) (
              ap from_bytes at ∙ from_bytes-to_bytes r u.in_range,
              λ blank. not_blank r u (sym at ∙ blank),
            ),
        λ j known.
            let got = load_from_sound m (num_blocks m) 0 [] (λ q k h. cc) r j known in
            let h : j < n = omega (arith, got.1, count) in
            (h, ap from_bytes (sym (slot_lem n m j f h)) ∙ got.0.0),
      )

-- A store opened on two files of the same number of slots, where the map file holds bytes in slots
-- of 24, is opened and meets the invariant.
pub new_mfile_block_store-IsStore :
    (n : ℕ) (d m : MFile)
    → IsFile n d
    → IsFile n m
    → m.blk_size ≡ block_ref_byte_size
    → AllBytes m.mmap
    → (s : MFileBlock) × (new_mfile_block_store d m d.blk_size ≡ ok s) × IsStore n s
unfolding new_mfile_block_store load_index
new_mfile_block_store-IsStore n d m fd fm width bytes =
    let same : (num_blocks m == num_blocks d) ≡ true =
      ground (arith, num_blocks_lem n d fd, num_blocks_lem n m fm) in
    (
      record {
        data_file = d;
        ref_file = m;
        ref_index = load_index m;
        is_closed = false;
        last_free = 0;
        block_size = d.blk_size;
      },
      rw same,
      record {
        data_ok = fd;
        ref_ok = fm;
        ref_size = width;
        data_size = refl;
        indexed = λ r j known. (entry r j known).1;
        marked = λ r j u known.
            let got = entry r j known in
            let block : block_at m j ≡ slot m j = sym (slot_lem n m j fm got.1) in
            let size : length (block_at m j) ≡ block_ref_byte_size =
              (get_block_lem n m j fm got.1).1 ∙ width in
            sym (
              to_bytes-from_bytes (block_at m j) size (
                AllBytes-take m.blk_size (drop (j * m.blk_size) m.mmap)
                  (AllBytes-drop (j * m.blk_size) m.mmap bytes)))
            ∙ ap to_bytes (ap from_bytes block ∙ got.0.0);
      },
    )
  where
    entry : (r : BlockRef) (j : ℕ) → lookup r (load_index m) ≡ some j → Holds m r j × (j < n)
    entry r j known =
        let got = load_from_sound m (num_blocks m) 0 [] (λ q k h. cc) r j known in
        (got.0, omega (arith, got.1, num_blocks_lem n m fm))
