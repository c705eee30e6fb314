-- ===== src/Store/Mfile/Writes.antt =====
-- WriteBlock, GetBlock and DeleteBlock on a store that meets the invariant.
use torus.Base.{
  ℕ, ◌≤◌, ◌<◌, ◌≡◌, ◌≢◌, ap, ◌∙◌, true, false, none, some, arith, inl, inr, length, ltb,
  if◌then◌else◌, Bytes, bytes_eq, bytes_eq→eq, bytes_eq_refl, Bool-cases, Option-cases, ok, err,
  Outcome, Error,
}
use torus.Refs.{BlockRef, to_bytes}
use torus.Refs.Encoding.{length-to_bytes}
use torus.RefMap.{lookup, insert}
use torus.Store.Interface.{IsUsable}
use torus.Store.Mmap
use torus.Store.Mmap.{MFile, num_blocks}
use torus.Store.Mmap.Blocks.{
  block_at, written, write_block_lem, written-IsFile, block_at-written_ne, write_block_too_long,
}
use torus.Store.Mfile.{
  MFileBlock, blank_ref_bytes, slot, find_empty, get_block, write_block, write_at, record_write,
}
use torus.Store.Mfile.Invariant.{IsStore, slot_lem, stored, found_slot, used_ne_free}

module _ (n : ℕ) (s : MFileBlock) (v : IsStore n s) where
  -- A read of a known reference gives the block of its slot.
  pub get_block_known :
      (r : BlockRef) (i : ℕ)
      → s.is_closed ≡ false
      → lookup r s.ref_index ≡ some i
      → get_block s r ≡ ok (block_at s.data_file i)
  unfolding get_block
  get_block_known r i open_ known =
      rw open_ (rw known (ap ok (slot_lem n s.data_file i v.data_ok (v.indexed r i known))))

  write_block_open :
      (r : BlockRef) (d : Bytes)
      → s.is_closed ≡ false
      → write_block s r d ≡ write_at s r d (find_empty s)
  unfolding write_block
  write_block_open r d open_ =
      ap (λ c. if c then (err Error.closed, s) else write_at s r d (find_empty s)) open_

  write_block_full :
      (r : BlockRef) (d : Bytes)
      → s.is_closed ≡ false
      → find_empty s ≡ none
      → write_block s r d ≡ (err Error.out_of_space, s)
  unfolding write_at
  write_block_full r d open_ none_free = write_block_open r d open_ ∙ ap (write_at s r d) none_free

  -- With a free slot and a block that fits, both files are written there.
  write_block_stored :
      (r : BlockRef) (d : Bytes) {i : ℕ}
      → s.is_closed ≡ false
      → find_empty s ≡ some i
      → length d ≤ s.block_size
      → write_block s r d ≡ record_write (stored n s v r d i) r d i (lookup r s.ref_index)
  unfolding write_at
  write_block_stored r d {i} open_ found l =
      let at = found_slot n s v found in
      let data_done =
        write_block_lem n s.data_file i d v.data_ok at.0 (omega (arith, v.data_size)) in
      let ref_done =
        write_block_lem n s.ref_file i (to_bytes r) v.ref_ok at.0
          (omega (arith, length-to_bytes r, v.ref_size)) in
      write_block_open r d open_ ∙ ap (write_at s r d) found ∙ rw data_done (rw ref_done)

  -- Every outcome of WriteBlock: the store is closed, has no free slot, the block is too long, or it
  -- is written under a new reference, or under a known one with the same or with other data.
  pub data WriteCase (r : BlockRef) (d : Bytes) : Outcome (Unit {0}) × MFileBlock → Type 0 where
    shut : s.is_closed ≡ true → WriteCase r d (err Error.closed, s)
    full : s.is_closed ≡ false → find_empty s ≡ none → WriteCase r d (err Error.out_of_space, s)
    too_long :
        (i : ℕ)
        → s.is_closed ≡ false
        → s.block_size < length d
        → WriteCase r d (err (Error.other 1), record s { last_free = i })
    fresh :
        (i : ℕ)
        → s.is_closed ≡ false
        → length d ≤ s.block_size
        → i < n
        → block_at s.ref_file i ≡ blank_ref_bytes
        → lookup r s.ref_index ≡ none
        → WriteCase r d (ok tt, record (stored n s v r d i) { ref_index = insert r i s.ref_index })
    again :
        (i j : ℕ)
        → s.is_closed ≡ false
        → length d ≤ s.block_size
        → i < n
        → block_at s.ref_file i ≡ blank_ref_bytes
        → lookup r s.ref_index ≡ some j
        → block_at s.data_file j ≡ d
        → WriteCase r d (ok tt, stored n s v r d i)
    clash :
        (i j : ℕ)
        → s.is_closed ≡ false
        → length d ≤ s.block_size
        → i < n
        → block_at s.ref_file i ≡ blank_ref_bytes
        → lookup r s.ref_index ≡ some j
        → block_at s.data_file j ≢ d
        → WriteCase r d (err Error.exists_already, stored n s v r d i)

  -- The slot of a known reference, with both files written at a free slot.
  slot_stored :
      (r q : BlockRef) (d : Bytes) (i j : ℕ)
      → IsUsable q
      → length d ≤ s.block_size
      → block_at s.ref_file i ≡ blank_ref_bytes
      → lookup q s.ref_index ≡ some j
      → block_at (written s.data_file i d) j ≡ block_at s.data_file j
  slot_stored r q d i j u l free known =
      block_at-written_ne s.data_file i j d (omega (arith, v.data_size))
        (used_ne_free n s v q j u known free)

  record_write_case :
      (r : BlockRef) (d : Bytes) (i : ℕ)
      → IsUsable r
      → s.is_closed ≡ false
      → length d ≤ s.block_size
      → i < n
      → block_at s.ref_file i ≡ blank_ref_bytes
      → WriteCase r d (record_write (stored n s v r d i) r d i (lookup r s.ref_index))
  unfolding record_write
  record_write_case r d i u open_ l h free = elim (Option-cases (lookup r s.ref_index)) [
    | inl new ↦ rw new (fresh i open_ l h free new)
    | inr (j, known) ↦
        let file_ok = written-IsFile n s.data_file i d v.data_ok in
        let read : slot (written s.data_file i d) j ≡ block_at s.data_file j =
          slot_lem n (written s.data_file i d) j file_ok (v.indexed r j known)
          ∙ slot_stored r r d i j u l free known in
        rw known (
          rw read (elim (Bool-cases (bytes_eq (block_at s.data_file j) d)) [
            | inl same ↦
                rw same
                  (again i j open_ l h free known (bytes_eq→eq (block_at s.data_file j) d same))
            | inr differ ↦ rw differ (
                clash i j open_ l h free known (λ e.
                  let same : bytes_eq (block_at s.data_file j) d ≡ true = rw e (bytes_eq_refl d) in
                  cc))
          ]))
  ]

  write_block_fits :
      (r : BlockRef) (d : Bytes)
      → IsUsable r
      → s.is_closed ≡ false
      → length d ≤ s.block_size
      → WriteCase r d (write_block s r d)
  write_block_fits r d u open_ l = elim (Option-cases (find_empty s)) [
    | inl none_free ↦ rw (write_block_full r d open_ none_free) (full open_ none_free)
    | inr (i, found) ↦
        let at = found_slot n s v found in
        rw (write_block_stored r d open_ found l) (record_write_case r d i u open_ l at.0 at.1)
  ]

  write_block_long :
      (r : BlockRef) (d : Bytes)
      → s.is_closed ≡ false
      → s.block_size < length d
      → WriteCase r d (write_block s r d)
  unfolding write_at
  write_block_long r d open_ l = elim (Option-cases (find_empty s)) [
    | inl none_free ↦ rw (write_block_full r d open_ none_free) (full open_ none_free)
    | inr (i, found) ↦
        let refused : Mmap.write_block s.data_file i d ≡ (err (Error.other 1), s.data_file) =
          write_block_too_long s.data_file i d (omega (arith, v.data_size)) in
        rw (write_block_open r d open_ ∙ ap (write_at s r d) found)
          (rw refused (too_long i open_ l))
  ]

  -- WriteBlock ends in one of these ways.
  pub write_block_case : (r : BlockRef) (d : Bytes) → IsUsable r → WriteCase r d (write_block s r d)
  write_block_case r d u = elim (Bool-cases s.is_closed) [
    | inl closed_ ↦
        let e : write_block s r d ≡ (err Error.closed, s) =
          unfold write_block in
          ap (λ c. if c then (err Error.closed, s) else write_at s r d (find_empty s)) closed_ in
        rw e (shut closed_)
    | inr open_ ↦ elim (Bool-cases (ltb s.block_size (length d))) [
      | inl long ↦ write_block_long r d open_ (ground arith)
      | inr fits ↦ write_block_fits r d u open_ (ground arith)
    ]
  ]
