-- ===== src/Files/Writing.antt =====
-- `writeToBlock` and `getBlock` of the cache: what is read after them.
use torus.Base.{
  ℕ, ◌+◌, ◌≤◌, ◌≡◌, ◌≢◌, refl, sym, ap, ◌∙◌, true, false, ◌&&◌, none, some, arith, inl, inr, ◌⊎◌,
  length, splice, length-splice, ◌==◌, ltb, leb, ==_self, if◌then◌else◌, Bool-cases, Bytes, Outcome,
  ok, err, panic,
}
use torus.Files.Ops.{BlocksetOps, IsWritable}
use torus.Files.Cache.{
  SingleBlockCache, is_at, is_some, or_nil, sync, open_at, open_synced, open_block, opened, copy_in,
  write_open, write_to_block, opened_read, get_block,
}
use torus.Files.View.{view, IsCache, IsSynced, sync-IsSynced}
use torus.Files.Opening.{
  HeldBefore, IsOpened, open_block-IsOpened, already_open, clean_view, is_at_iff,
}

module _ {B : Type 0} (o : BlocksetOps B) where
  -- Block `i` has `d` at `from` over what it held, and every other block reads as before.
  pub record IsWritten (c : SingleBlockCache B) (i from : ℕ) (d : Bytes) (c' : SingleBlockCache B)
      : Type 0 where
    pub cache : IsCache o c'
    pub written :
        (old : Bytes) × HeldBefore o c i old
        × (length old ≡ c.blk_size)
        × (view o c' i ≡ ok (splice from d old))
    pub others : (j : ℕ) → i ≢ j → view o c' j ≡ view o c j
    pub same_size : c'.blk_size ≡ c.blk_size

  -- A block that is not open is read from the blockset.
  behind :
      (c : SingleBlockCache B) (i j : ℕ)
      → c.open_idx ≡ some i
      → i ≢ j
      → view o c j ≡ o.get_block c.blocks j
  behind c i j at ne =
      let far : (i == j) ≡ false = ground arith in
      ap (λ y. if is_at y j then ok (or_nil c.open_data) else o.get_block c.blocks j) at
      ∙ rw far refl

  -- The copy into the open block
  copied-IsWritten :
      (c s : SingleBlockCache B) (i from : ℕ) (d : Bytes)
      → IsOpened o c i s
      → IsWritten c i from d
          (record s { open_wrote = true; open_data = some (splice from d (or_nil s.open_data)) })
  copied-IsWritten c s i from d p =
      let (old, open_, l, held) = p.held in
      let v = p.cache in
      let new : Bytes = splice from d (or_nil s.open_data) in
      let of_old : new ≡ splice from d old = ap (λ x. splice from d (or_nil x)) open_ in
      let size : length new ≡ s.blk_size =
        ap length of_old ∙ length-splice from d old ∙ l ∙ sym p.same_size in
      record {
        cache = record {
          blocks_ok = v.blocks_ok;
          open_ok = λ j e.
              let (x, data_of, was, inside, saved) = v.open_ok j e in
              (new, refl, size, inside, λ q. let bad : true ≡ false = q in cc);
          none_open = λ e. let bad : some i ≡ none = sym p.at ∙ e in cc;
          read_ok = v.read_ok;
        };
        written = (
          old,
          held,
          l,
          ap (λ y. if is_at y i then ok new else o.get_block s.blocks i) p.at
              ∙ rw (==_self i) (ap ok of_old),
        );
        others = λ j ne.
            behind (record s { open_wrote = true; open_data = some new }) i j p.at ne
            ∙ sym (behind s i j p.at ne)
            ∙ p.others j ne;
        same_size = p.same_size;
      }

  write_open-IsWritten :
      (c : SingleBlockCache B) (i from to : ℕ) (d : Bytes)
      (a : Outcome (Unit {0}) × SingleBlockCache B)
      → a.0 ≡ ok tt
      → IsOpened o c i a.1
      → to ≡ from + length d
      → to ≤ c.blk_size
      → ((write_open o from to d a).0 ≡ ok (length d))
        × IsWritten c i from d (write_open o from to d a).1
  unfolding write_open copy_in
  write_open-IsWritten c i from to d (ok _, s) e p at fits =
      let (old, open_, l, held) = p.held in
      let exact : (to == from + length d) ≡ true = ground arith in
      let room : leb to (length (or_nil s.open_data)) ≡ true =
        ground (arith, ap (λ x. length (or_nil x)) open_, l) in
      rw (exact, room) (refl, copied-IsWritten c s i from d p)
  write_open-IsWritten c i from to d (err x, s) e p at fits = cc
  write_open-IsWritten c i from to d (panic, s) e p at fits = cc

  open_at_succeeds :
      (s : SingleBlockCache B) (i : ℕ)
      → IsCache o s
      → s.open_wrote ≡ false
      → ((e : Bytes) × (view o s i ≡ ok e)) ⊎ (i ≡ o.length_of s.blocks)
      → (open_at o s i).0 ≡ ok tt
  unfolding open_at opened
  open_at_succeeds s i v clean (inr end) =
      let at_end : (i == o.length_of s.blocks) ≡ true = ground arith in rw at_end refl
  open_at_succeeds s i v clean (inl (e, read)) =
      let known : o.get_block s.blocks i ≡ ok e = sym (clean_view o s i v clean) ∙ read in
      let inside = v.blocks_ok.inside i e known in
      let not_end : (i == o.length_of s.blocks) ≡ false = ground (arith, inside) in
      let below : ltb (o.length_of s.blocks) i ≡ false = ground (arith, inside) in
      elim (Bool-cases (is_at s.read_idx i)) [
        | inl at ↦ rw (not_end, below, at) refl
        | inr apart ↦ rw (not_end, below, apart, known) refl
      ]

  -- A block is opened if it can be read or is the next one, and the block open before can be written.
  open_block_succeeds :
      (c : SingleBlockCache B) (i : ℕ)
      → IsCache o c
      → IsWritable o c.blk_size c.ref c.blocks
      → (sync o c).0 ≡ ok tt
      → ((e : Bytes) × (view o c i ≡ ok e)) ⊎ (i ≡ o.length_of (sync o c).1.blocks)
      → (open_block o c i).0 ≡ ok tt
  unfolding open_block
  open_block_succeeds c i v w done there =
      elim (Bool-cases (is_at c.open_idx i && is_some c.open_data)) [
        | inl open_ ↦ rw open_ refl
        | inr closed_ ↦ rw closed_ (go (sync o c) done (sync-IsSynced o c v w done) there)
      ]
    where
      go :
          (a : Outcome (Unit {0}) × SingleBlockCache B)
          → a.0 ≡ ok tt
          → IsSynced o c a.1
          → ((e : Bytes) × (view o c i ≡ ok e)) ⊎ (i ≡ o.length_of a.1.blocks)
          → (open_synced o i a).0 ≡ ok tt
      go (ok _, s) e y (inl (x, read)) =
          open_at_succeeds s i y.cache y.clean (inl (x, y.same_view i ∙ read))
      go (ok _, s) e y (inr end) = open_at_succeeds s i y.cache y.clean (inr end)
      go (err x, s) e y t = cc
      go (panic, s) e y t = cc

  -- On a consistent cache over a blockset whose next PutBlock is a write, and where the open block
  -- can be synced, writeToBlock of data that fits, into a block that is there or is the next one,
  -- succeeds: afterwards the view has the old content (zeros for a new block) with the data copied
  -- in, every other block reads as before, and the cache is consistent.
  pub write_to_block-IsWritten :
      (c : SingleBlockCache B) (i from to : ℕ) (d : Bytes)
      → IsCache o c
      → IsWritable o c.blk_size c.ref c.blocks
      → (sync o c).0 ≡ ok tt
      → ((e : Bytes) × (view o c i ≡ ok e)) ⊎ (i ≡ o.length_of (sync o c).1.blocks)
      → to ≡ from + length d
      → to ≤ c.blk_size
      → ((write_to_block o c i from to d).0 ≡ ok (length d))
        × IsWritten c i from d (write_to_block o c i from to d).1
  unfolding write_to_block
  write_to_block-IsWritten c i from to d v w done there at fits =
      elim (Bool-cases (is_at c.open_idx i)) [
        | inl open_ ↦ rw open_ (
            write_open-IsWritten c i from to d (ok tt, c) refl
              (already_open o c i v (is_at_iff o c.open_idx i open_)) at fits)
        | inr closed_ ↦
            let opened_ = open_block_succeeds c i v w done there in
            rw closed_ (
              write_open-IsWritten c i from to d (open_block o c i) opened_
                (open_block-IsOpened o c i v w opened_) at fits)
      ]

  -- `getBlock` answers with the view, and does not change it.
  pub record IsRead (c : SingleBlockCache B) (i : ℕ) (p : Outcome Bytes × SingleBlockCache B)
      : Type 0 where
    pub answer : p.0 ≡ view o c i
    pub cache : IsCache o p.1
    pub same_view : (j : ℕ) → view o p.1 j ≡ view o c j
    pub same_size : p.1.blk_size ≡ c.blk_size

  opened_read-IsRead :
      (c : SingleBlockCache B) (i : ℕ) (a : Outcome Bytes)
      → IsCache o c
      → is_at c.open_idx i ≡ false
      → o.get_block c.blocks i ≡ a
      → IsRead c i (opened_read o c i a)
  unfolding opened_read
  opened_read-IsRead c i (ok d) v apart e = record {
    answer = rw apart (sym e);
    cache = record {
      blocks_ok = v.blocks_ok;
      open_ok = v.open_ok;
      none_open = v.none_open;
      read_ok = λ j q.
          let same : i ≡ j = cc in
          (
            λ at.
                let there : true ≡ false =
                  sym (ap (λ x. is_at x i) at ∙ ap (λ x. x == i) (sym same) ∙ ==_self i) ∙ apart in
                cc,
            (d, refl, ap (o.get_block c.blocks) (sym same) ∙ e),
          );
    };
    same_view = λ j. refl;
    same_size = refl;
  }
  opened_read-IsRead c i (err x) v apart e = record {
    answer = rw apart (sym e);
    cache = v;
    same_view = λ j. refl;
    same_size = refl;
  }
  opened_read-IsRead c i panic v apart e = record {
    answer = rw apart (sym e);
    cache = v;
    same_view = λ j. refl;
    same_size = refl;
  }

  pub get_block-IsRead :
      (c : SingleBlockCache B) (i : ℕ) → IsCache o c → IsRead c i (get_block o c i)
  unfolding get_block
  get_block-IsRead c i v = elim (Bool-cases (is_at c.open_idx i)) [
    | inl open_ ↦
        rw open_
          (record { answer = rw open_ refl; cache = v; same_view = λ j. refl; same_size = refl })
    | inr apart ↦ elim (Bool-cases (is_at c.read_idx i)) [
      | inl at ↦
          let (ne, (d, read, known)) = v.read_ok i (is_at_iff o c.read_idx i at) in
          rw (apart, at)
            (record {
              answer = rw apart (ap (λ x. ok (or_nil x)) read ∙ sym known);
              cache = v;
              same_view = λ j. refl;
              same_size = refl;
            })
      | inr other ↦ rw (apart, other) (opened_read-IsRead c i (o.get_block c.blocks i) v apart refl)
    ]
  ]
