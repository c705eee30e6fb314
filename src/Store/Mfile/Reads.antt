-- ===== src/Store/Mfile/Reads.antt =====
-- What a client of the store sees: reads after writes, and the contract of the interface.
use torus.Base.{
  ℕ, ◌≡◌, ◌≢◌, refl, sym, ap, ◌∙◌, false, none, some, arith, inl, inr, length, if◌then◌else◌, Bytes,
  Bool-cases, Option-cases, ok, err, Outcome, Error,
}
use torus.Refs.{BlockRef}
use torus.RefMap.{lookup, insert, lookup-insert_self, lookup-insert_ne}
use torus.Store.Interface.{IsUsable, BlockStore, Contract}
use torus.Store.Mmap.Blocks.{block_at, block_at-written_self, block_at-written_ne}
use torus.Store.Mfile.{MFileBlock, get_block, get_found, write_block, delete_block}
use torus.Store.Mfile.Invariant.{
  IsStore, fill_exact, stored, used_ne_free, stored-IsStore, inserted-IsStore,
}
use torus.Store.Mfile.Writes.{
  WriteCase, shut, full, too_long, fresh, again, clash, write_block_case, get_block_known,
}

moved-IsStore :
    (n : ℕ) (s : MFileBlock) (i : ℕ) → IsStore n s → IsStore n (record s { last_free = i })
moved-IsStore n s i v = record {
  data_ok = v.data_ok;
  ref_ok = v.ref_ok;
  ref_size = v.ref_size;
  data_size = v.data_size;
  indexed = v.indexed;
  marked = v.marked;
}

-- A read depends on the open flag, the index and the data file alone.
pub get_block-unknown :
    (s : MFileBlock) (r : BlockRef)
    → s.is_closed ≡ false
    → lookup r s.ref_index ≡ none
    → get_block s r ≡ err Error.block_not_exist
unfolding get_block
get_block-unknown s r open_ none_ =
    rw none_ (ap (λ c. if c then err Error.closed else err Error.block_not_exist) open_)

module _ (n : ℕ) (s : MFileBlock) (v : IsStore n s) where
  case-IsStore :
      (r : BlockRef) (d : Bytes) {p : Outcome (Unit {0}) × MFileBlock}
      → WriteCase n s v r d p
      → IsStore n p.1
  case-IsStore r d (shut _) = v
  case-IsStore r d (full _ _) = v
  case-IsStore r d (too_long i _ _) = moved-IsStore n s i v
  case-IsStore r d (fresh i _ _ h free _) = inserted-IsStore n s v r d i h free
  case-IsStore r d (again i _ _ _ _ free _ _) = stored-IsStore n s v r d i free
  case-IsStore r d (clash i _ _ _ _ free _ _) = stored-IsStore n s v r d i free

  -- WriteBlock of a usable reference keeps the invariant of the on-disk store, whatever it returns.
  pub write_block-IsStore :
      (r : BlockRef) (d : Bytes) → IsUsable r → IsStore n (write_block s r d).1
  write_block-IsStore r d u = case-IsStore r d (write_block_case n s v r d u)

  case_read :
      (r : BlockRef) (d : Bytes) {p : Outcome (Unit {0}) × MFileBlock}
      → IsUsable r
      → length d ≡ s.block_size
      → WriteCase n s v r d p
      → p.0 ≡ ok tt
      → get_block p.1 r ≡ ok d
  case_read r d u l (shut _) e = cc
  case_read r d u l (full _ _) e = cc
  case_read r d u l (too_long i _ _) e = cc
  case_read r d u l (fresh i open_ fits h free new) e =
      get_block_known n (record (stored n s v r d i) { ref_index = insert r i s.ref_index })
        (inserted-IsStore n s v r d i h free) r i open_ (lookup-insert_self r i s.ref_index)
      ∙ ap ok (
          block_at-written_self n s.data_file i d v.data_ok h (omega (arith, v.data_size))
          ∙ fill_exact s.data_file.blk_size d (l ∙ sym v.data_size))
  case_read r d u l (again i j open_ fits h free known same) e =
      get_block_known n (stored n s v r d i) (stored-IsStore n s v r d i free) r j open_ known
      ∙ ap ok (
          block_at-written_ne s.data_file i j d (omega (arith, v.data_size))
            (used_ne_free n s v r j u known free)
          ∙ same)
  case_read r d u l (clash i j _ _ _ _ _ _) e = cc

  -- On a valid on-disk store and a usable reference, after a WriteBlock that succeeds, with data of
  -- the block size, GetBlock returns that data.
  pub write_block-read :
      (r : BlockRef) (d : Bytes)
      → IsUsable r
      → length d ≡ s.block_size
      → (write_block s r d).0 ≡ ok tt
      → get_block (write_block s r d).1 r ≡ ok d
  write_block-read r d u l e = case_read r d u l (write_block_case n s v r d u) e

  -- A read of `q` is the same in any valid store with the same flag, the same entry for `q` and
  -- the same block in its slot.
  pub same_read :
      (s' : MFileBlock) (q : BlockRef)
      → IsStore n s'
      → s'.is_closed ≡ s.is_closed
      → lookup q s'.ref_index ≡ lookup q s.ref_index
      → ((j : ℕ) → lookup q s.ref_index ≡ some j → block_at s'.data_file j ≡ block_at s.data_file j)
      → get_block s' q ≡ get_block s q
  same_read s' q w flag entry kept = elim (Bool-cases s.is_closed) [
    | inl closed_ ↦
        unfold get_block in
        (ap (λ c. if c then err Error.closed else get_found s' (lookup q s'.ref_index))
            (flag ∙ closed_)
          ∙ sym (
              ap (λ c. if c then err Error.closed else get_found s (lookup q s.ref_index)) closed_))
    | inr open_ ↦ elim (Option-cases (lookup q s.ref_index)) [
      | inl unknown ↦
          get_block-unknown s' q (flag ∙ open_) (entry ∙ unknown)
          ∙ sym (get_block-unknown s q open_ unknown)
      | inr (j, known) ↦
          get_block_known n s' w q j (flag ∙ open_) (entry ∙ known)
          ∙ ap ok (kept j known)
          ∙ sym (get_block_known n s v q j open_ known)
    ]
  ]

  case_other :
      (r q : BlockRef) (d : Bytes) {p : Outcome (Unit {0}) × MFileBlock}
      → IsUsable r
      → IsUsable q
      → r ≢ q
      → WriteCase n s v r d p
      → get_block p.1 q ≡ get_block s q
  case_other r q d u w ne (shut _) = refl
  case_other r q d u w ne (full _ _) = refl
  case_other r q d u w ne (too_long i _ _) =
      same_read (record s { last_free = i }) q (moved-IsStore n s i v) refl refl (λ j known. refl)
  case_other r q d u w ne (fresh i _ fits h free _) =
      same_read (record (stored n s v r d i) { ref_index = insert r i s.ref_index }) q
        (inserted-IsStore n s v r d i h free) refl (lookup-insert_ne r q i s.ref_index ne)
        (λ j known.
          block_at-written_ne s.data_file i j d (omega (arith, v.data_size))
            (used_ne_free n s v q j w known free))
  case_other r q d u w ne (again i _ _ fits _ free _ _) =
      same_read (stored n s v r d i) q (stored-IsStore n s v r d i free) refl refl (λ j known.
        block_at-written_ne s.data_file i j d (omega (arith, v.data_size))
          (used_ne_free n s v q j w known free))
  case_other r q d u w ne (clash i _ _ fits _ free _ _) =
      same_read (stored n s v r d i) q (stored-IsStore n s v r d i free) refl refl (λ j known.
        block_at-written_ne s.data_file i j d (omega (arith, v.data_size))
          (used_ne_free n s v q j w known free))

  -- On a valid on-disk store a WriteBlock changes no read of another usable reference, whatever it
  -- returns.
  pub write_block-other :
      (r q : BlockRef) (d : Bytes)
      → IsUsable r
      → IsUsable q
      → r ≢ q
      → get_block (write_block s r d).1 q ≡ get_block s q
  write_block-other r q d u w ne = case_other r q d u w ne (write_block_case n s v r d u)

  case_size :
      (r : BlockRef) (d : Bytes) {p : Outcome (Unit {0}) × MFileBlock}
      → WriteCase n s v r d p
      → p.1.block_size ≡ s.block_size
  case_size r d (shut _) = refl
  case_size r d (full _ _) = refl
  case_size r d (too_long _ _ _) = refl
  case_size r d (fresh _ _ _ _ _ _) = refl
  case_size r d (again _ _ _ _ _ _ _ _) = refl
  case_size r d (clash _ _ _ _ _ _ _ _) = refl

  pub write_block_size :
      (r : BlockRef) (d : Bytes) → IsUsable r → (write_block s r d).1.block_size ≡ s.block_size
  write_block_size r d u = case_size r d (write_block_case n s v r d u)

abbrev pub mfile_store : BlockStore MFileBlock
mfile_store = record {
  get_block = get_block;
  write_block = write_block;
  delete_block = delete_block;
  block_size = λ s. s.block_size;
}

-- The on-disk store keeps the contract of `BlockStore`.
abbrev pub mfile_contract : ℕ → Contract mfile_store
mfile_contract n = record {
  IsValid = IsStore n;
  write_valid = λ s r d v u. write_block-IsStore n s v r d u;
  write_read = λ s r d v u l e. write_block-read n s v r d u l e;
  write_other = λ s r q d v u w ne. write_block-other n s v r q d u w ne;
  write_size = λ s r d v u. write_block_size n s v r d u;
}
