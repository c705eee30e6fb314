-- ===== src/Store/Mfile/Successes.antt =====
-- When WriteBlock succeeds.
use torus.Base.{
  ℕ, ◌≤◌, ◌<◌, ◌≡◌, ◌≢◌, refl, sym, ◌∙◌, true, false, Option, none, some, arith, length, Bytes, ok,
  Outcome,
}
use torus.Refs.{BlockRef}
use torus.RefMap.{lookup, lookup-insert_self}
use torus.Store.Interface.{IsUsable}
use torus.Store.Mmap.Blocks.{block_at, num_blocks_lem}
use torus.Store.Mfile.{MFileBlock, blank_ref_bytes, find_empty, has_block, write_block}
use torus.Store.Mfile.Free.{find_empty_complete}
use torus.Store.Mfile.Invariant.{IsStore, slot_lem}
use torus.Store.Mfile.Writes.{
  WriteCase, shut, full, too_long, fresh, again, clash, write_block_case,
}

has_block_lem : (s : MFileBlock) (r : BlockRef) → lookup r s.ref_index ≢ none → has_block s r ≡ true
unfolding has_block
has_block_lem s r h = go (lookup r s.ref_index) h
  where
    go : (o : Option ℕ) → o ≢ none → (elim o [ none ↦ false | some i ↦ true ]) ≡ true
    go none k = absurd (k refl)
    go (some i) k = refl

module _ (n : ℕ) (s : MFileBlock) (v : IsStore n s) where
  free_is_found : (t : ℕ) → t < n → block_at s.ref_file t ≡ blank_ref_bytes → find_empty s ≢ none
  free_is_found t h free e =
      find_empty_complete s t e (rw (num_blocks_lem n s.data_file v.data_ok) (omega (arith, h)))
        (slot_lem n s.ref_file t v.ref_ok h ∙ free)

  case_succeeds :
      (r : BlockRef) (d : Bytes) {p : Outcome (Unit {0}) × MFileBlock}
      → s.is_closed ≡ false
      → find_empty s ≢ none
      → length d ≤ s.block_size
      → lookup r s.ref_index ≡ none
      → WriteCase n s v r d p
      → (p.0 ≡ ok tt) × (lookup r p.1.ref_index ≢ none)
  case_succeeds r d open_ found fits new (shut closed_) = cc
  case_succeeds r d open_ found fits new (full _ e) = absurd (found e)
  case_succeeds r d open_ found fits new (too_long i _ l) = absurd (omega (arith, fits, l))
  case_succeeds r d open_ found fits new (fresh i _ _ h free _) =
      (refl, λ e. let some_ : some i ≡ none = sym (lookup-insert_self r i s.ref_index) ∙ e in cc)
  case_succeeds r d open_ found fits new (again i j _ _ _ _ known _) =
      let bad : none ≡ some j = sym new ∙ known in cc
  case_succeeds r d open_ found fits new (clash i j _ _ _ _ known _) =
      let bad : none ≡ some j = sym new ∙ known in cc

  -- On a valid open store with a free slot, WriteBlock of a usable reference that is not stored,
  -- with data no longer than a block, succeeds, and the block is there afterwards.
  pub write_block-succeeds :
      (r : BlockRef) (d : Bytes) (t : ℕ)
      → IsUsable r
      → s.is_closed ≡ false
      → t < n
      → block_at s.ref_file t ≡ blank_ref_bytes
      → length d ≤ s.block_size
      → lookup r s.ref_index ≡ none
      → ((write_block s r d).0 ≡ ok tt) × (has_block (write_block s r d).1 r ≡ true)
  write_block-succeeds r d t u open_ h free fits new =
      let done =
        case_succeeds r d open_ (free_is_found t h free) fits new (write_block_case n s v r d u) in
      (done.0, has_block_lem (write_block s r d).1 r done.1)
