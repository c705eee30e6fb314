-- ===== src/Store/Mfile/Deletes.antt =====
-- DeleteBlock, and what a repeated WriteBlock of one block leaves behind in the map file.
use torus.Base.{
  ℕ, ◌<◌, ◌≡◌, ◌≢◌, refl, sym, ap, ◌∙◌, true, false, none, some, arith, inl, inr, length,
  if◌then◌else◌, Bytes, Bool-cases, ok, err, Outcome, Error,
}
use torus.Refs.{BlockRef, to_bytes, block_ref_eq}
use torus.Refs.Fields.{block_ref_eq_iff, block_ref_eq_refl}
use torus.RefMap.{lookup, erase, lookup-erase}
use torus.Store.Interface.{IsUsable}
use torus.Store.Mmap.Blocks.{
  block_at, written, write_block_lem, written-IsFile, block_at-written_self, block_at-written_ne,
}
use torus.Store.Mfile.{
  MFileBlock, blank_ref_bytes, used_blocks, get_block, write_block, delete_block, delete_at,
}
use torus.Store.Mfile.Invariant.{IsStore, fill_exact, used_ne_free, slots_distinct, ref_stored}
use torus.Store.Mfile.Writes.{
  WriteCase, shut, full, too_long, fresh, again, clash, write_block_case,
}
use torus.Store.Mfile.Reads.{same_read, get_block-unknown}

module _ (n : ℕ) (s : MFileBlock) (v : IsStore n s) where
  -- The store without `r`, whose slot was `i`.
  abbrev pub removed : BlockRef → ℕ → MFileBlock
  removed r i = record s {
    ref_file = written s.ref_file i blank_ref_bytes;
    ref_index = erase r s.ref_index;
  }

  blank_fits : length blank_ref_bytes ≡ s.ref_file.blk_size
  blank_fits = sym v.ref_size

  pub delete_block_lem :
      (r : BlockRef) (i : ℕ)
      → s.is_closed ≡ false
      → lookup r s.ref_index ≡ some i
      → delete_block s r ≡ (ok tt, removed r i)
  unfolding delete_block
  delete_block_lem r i open_ known =
      ap (λ c. if c then (err Error.closed, s) else delete_at s r (lookup r s.ref_index)) open_
      ∙ ap (delete_at s r) known
      ∙ rw (
          write_block_lem n s.ref_file i blank_ref_bytes v.ref_ok (v.indexed r i known)
            (omega (arith, blank_fits)))

  entry_left :
      (r q : BlockRef) (j : ℕ)
      → lookup q (erase r s.ref_index) ≡ some j
      → (r ≢ q) × (lookup q s.ref_index ≡ some j)
  entry_left r q j known = elim (Bool-cases (block_ref_eq r q)) [
    | inl same ↦
        let gone : none ≡ some j = sym (lookup-erase r q s.ref_index ∙ rw same) ∙ known in cc
    | inr other ↦ (
      λ e. let same : block_ref_eq r q ≡ true = (block_ref_eq_iff r q).1 e in cc,
      sym (lookup-erase r q s.ref_index ∙ rw other) ∙ known,
    )
  ]

  slot_kept :
      (r q : BlockRef) (i j : ℕ)
      → IsUsable r
      → IsUsable q
      → r ≢ q
      → lookup r s.ref_index ≡ some i
      → lookup q s.ref_index ≡ some j
      → block_at (written s.ref_file i blank_ref_bytes) j ≡ block_at s.ref_file j
  slot_kept r q i j u w ne hr hq =
      block_at-written_ne s.ref_file i j blank_ref_bytes (omega (arith, blank_fits))
        (slots_distinct n s v r q i j u w ne hr hq)

  removed-IsStore :
      (r : BlockRef) (i : ℕ) → IsUsable r → lookup r s.ref_index ≡ some i → IsStore n (removed r i)
  removed-IsStore r i u known = record {
    data_ok = v.data_ok;
    ref_ok = written-IsFile n s.ref_file i blank_ref_bytes v.ref_ok;
    ref_size = v.ref_size;
    data_size = v.data_size;
    indexed = λ q j left. v.indexed q j (entry_left r q j left).1;
    marked = λ q j w left.
        let old = entry_left r q j left in
        slot_kept r q i j u w old.0 known old.1 ∙ v.marked q j w old.1;
  }

  -- Deleting a stored block of a valid open store succeeds, keeps the invariant, frees its slot,
  -- makes the block unknown, and changes no read of another usable reference.
  pub delete_block-forgets :
      (r : BlockRef) (i : ℕ)
      → IsUsable r
      → s.is_closed ≡ false
      → lookup r s.ref_index ≡ some i
      → let (result, s') = delete_block s r in
        (result ≡ ok tt)
        × IsStore n s'
        × (block_at s'.ref_file i ≡ blank_ref_bytes)
        × (get_block s' r ≡ err Error.block_not_exist)
        × ((q : BlockRef) → IsUsable q → r ≢ q → get_block s' q ≡ get_block s q)
  delete_block-forgets r i u open_ known =
      let w = removed-IsStore r i u known in
      rw (delete_block_lem r i open_ known) (
        refl,
        w,
        block_at-written_self n s.ref_file i blank_ref_bytes v.ref_ok (v.indexed r i known)
              (omega (arith, blank_fits))
            ∙ fill_exact s.ref_file.blk_size blank_ref_bytes blank_fits,
        get_block-unknown (removed r i) r open_
            (lookup-erase r r s.ref_index ∙ rw (block_ref_eq_refl r)),
        λ q uq ne. same_read n s v (removed r i) q w refl (entry_same r q ne) (λ j hq. refl),
      )
    where
      entry_same : (r q : BlockRef) → r ≢ q → lookup q (erase r s.ref_index) ≡ lookup q s.ref_index
      entry_same r q ne = elim (Bool-cases (block_ref_eq r q)) [
        | inl same ↦ absurd (ne ((block_ref_eq_iff r q).0 same))
        | inr other ↦ lookup-erase r q s.ref_index ∙ rw other
      ]

  leak_case :
      (r : BlockRef) (d : Bytes) (j : ℕ) {p : Outcome (Unit {0}) × MFileBlock}
      → IsUsable r
      → lookup r s.ref_index ≡ some j
      → WriteCase n s v r d p
      → p.0 ≡ ok tt
      → (i : ℕ) × (i ≢ j)
        × (i < n)
        × (block_at s.ref_file i ≡ blank_ref_bytes)
        × (block_at p.1.ref_file i ≡ to_bytes r)
        × (used_blocks p.1 ≡ used_blocks s)
  unfolding used_blocks
  leak_case r d j u known (shut _) e = cc
  leak_case r d j u known (full _ _) e = cc
  leak_case r d j u known (too_long i _ _) e = cc
  leak_case r d j u known (fresh i _ _ h free new) e =
      let clash' : none ≡ some j = sym new ∙ known in cc
  leak_case r d j u known (again i k _ _ h free _ _) e =
      (i, used_ne_free n s v r j u known free, h, free, ref_stored n s v r i h, refl)
  leak_case r d j u known (clash i k _ _ _ _ _ _) e = cc

  -- On a valid on-disk store, a second successful WriteBlock of a stored block uses up a further
  -- free slot of the map file, which then holds the same reference, while UsedBlocks does not
  -- change.
  pub write_block_leaks :
      (r : BlockRef) (d : Bytes) (j : ℕ)
      → IsUsable r
      → lookup r s.ref_index ≡ some j
      → (write_block s r d).0 ≡ ok tt
      → (i : ℕ) × (i ≢ j)
        × (i < n)
        × (block_at s.ref_file i ≡ blank_ref_bytes)
        × (block_at (write_block s r d).1.ref_file i ≡ to_bytes r)
        × (used_blocks (write_block s r d).1 ≡ used_blocks s)
  write_block_leaks r d j u known e = leak_case r d j u known (write_block_case n s v r d u) e
