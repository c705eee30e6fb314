-- ===== src/Files/View.antt =====
-- What a file reads through its cache: the open block in front of the blockset. The cache's
-- invariant, and `sync`, which changes nothing of what is read.
use torus.Base.{
  ℕ, ◌≤◌, ◌≡◌, ◌≢◌, refl, sym, ap, ◌∙◌, true, false, none, some, arith, inl, inr, length, ◌==◌,
  ==_iff, if◌then◌else◌, Bool-cases, Option-cases, Bytes, Outcome, ok, err, panic,
}
use torus.Files.Ops.{BlocksetOps, IsPut, IsWritable, IsSized}
use torus.Files.Cache.{SingleBlockCache, is_at, or_nil, sync, sync_open, synced}

module _ {B : Type 0} (o : BlocksetOps B) where
  -- Block `j` as the file reads it
  abbrev pub view : SingleBlockCache B → ℕ → Outcome Bytes
  view c j = if is_at c.open_idx j then ok (or_nil c.open_data) else o.get_block c.blocks j

  -- The open block has its data, which stands in the blockset unless it was written since; the block
  -- that was read is as in the blockset, and not the open one.
  pub record IsCache (c : SingleBlockCache B) : Type 0 where
    pub blocks_ok : IsSized o c.blk_size c.blocks
    pub open_ok :
        (i : ℕ)
        → c.open_idx ≡ some i
        → (d : Bytes) × (c.open_data ≡ some d)
          × (length d ≡ c.blk_size)
          × (i ≤ o.length_of c.blocks)
          × (c.open_wrote ≡ false → o.get_block c.blocks i ≡ ok d)
    pub none_open : c.open_idx ≡ none → c.open_wrote ≡ false
    pub read_ok :
        (i : ℕ)
        → c.read_idx ≡ some i
        → (c.open_idx ≢ some i)
          × ((d : Bytes) × (c.read_data ≡ some d) × (o.get_block c.blocks i ≡ ok d))

  -- The cache of a file that has just been opened
  pub record IsSynced (c c' : SingleBlockCache B) : Type 0 where
    pub cache : IsCache c'
    pub clean : c'.open_wrote ≡ false
    pub same_view : (j : ℕ) → view c' j ≡ view c j
    pub same_open : c'.open_idx ≡ c.open_idx
    pub same_size : c'.blk_size ≡ c.blk_size

  put-IsSized :
      (size : ℕ) (b b' : B) (i : ℕ) (d : Bytes)
      → length d ≡ size
      → IsPut o b i d b'
      → IsSized o size b
      → IsSized o size b'
  put-IsSized size b b' i d l p s = record {
    sized = λ j e known. elim (Bool-cases (i == j)) [
      | inl at ↦
          let same : i ≡ j = (==_iff i j).0 at in
          let same_data : ok d ≡ ok e = sym p.read_back ∙ ap (o.get_block b') same ∙ known in
          let eq : d ≡ e = cc in ap length (sym eq) ∙ l
      | inr other ↦ s.sized j e (sym (p.others j (λ q. ground arith)) ∙ known)
    ];
    inside = λ j e known. elim (Bool-cases (i == j)) [
      | inl at ↦ ground (arith, p.grown, p.within)
      | inr other ↦
          ground (arith, s.inside j e (sym (p.others j (λ q. ground arith)) ∙ known), p.grown)
    ];
  }

  put-IsSynced :
      (c : SingleBlockCache B) (i : ℕ) (d : Bytes) (b' : B)
      → IsCache c
      → c.open_idx ≡ some i
      → c.open_data ≡ some d
      → length d ≡ c.blk_size
      → IsPut o c.blocks i d b'
      → IsSynced c (record c { blocks = b'; open_wrote = false })
  put-IsSynced c i d b' v at open_ l p = record {
    cache = record {
      blocks_ok = put-IsSized c.blk_size c.blocks b' i d l p v.blocks_ok;
      open_ok = λ j e.
          let same : i ≡ j = cc in
          (
            d,
            open_,
            l,
            ground (arith, p.grown, p.within),
            λ _. ap (o.get_block b') (sym same) ∙ p.read_back,
          );
      none_open = λ e. refl;
      read_ok = λ j e.
          let (apart, (old, read, known)) = v.read_ok j e in
          (apart, (old, read, p.others j (λ q. apart (at ∙ ap some q)) ∙ known));
    };
    clean = refl;
    same_view = λ j. elim (Bool-cases (i == j)) [
      | inl here ↦ rw (at, here) refl
      | inr other ↦ rw (at, other) (p.others j (λ q. ground arith))
    ];
    same_open = refl;
    same_size = refl;
  }

  same-IsSynced : (c : SingleBlockCache B) → IsCache c → c.open_wrote ≡ false → IsSynced c c
  same-IsSynced c v clean = record {
    cache = v;
    clean = clean;
    same_view = λ j. refl;
    same_open = refl;
    same_size = refl;
  }

  sync_wrote :
      (c : SingleBlockCache B) (i : ℕ) (d : Bytes)
      → c.open_wrote ≡ true
      → c.open_idx ≡ some i
      → c.open_data ≡ some d
      → sync o c ≡ synced o c (o.put_block c.blocks c.ref i d)
  unfolding sync sync_open
  sync_wrote c i d wrote at open_ =
      ap (λ w. if w then sync_open o c c.open_idx else (ok tt, c)) wrote
      ∙ ap (sync_open o c) at
      ∙ ap (λ x. synced o c (o.put_block c.blocks c.ref i (or_nil x))) open_

  sync_clean : (c : SingleBlockCache B) → c.open_wrote ≡ false → sync o c ≡ (ok tt, c)
  unfolding sync
  sync_clean c clean = ap (λ w. if w then sync_open o c c.open_idx else (ok tt, c)) clean

  synced-IsSynced :
      (c : SingleBlockCache B) (i : ℕ) (d : Bytes) (a : Outcome (Unit {0}) × B)
      → IsCache c
      → c.open_idx ≡ some i
      → c.open_data ≡ some d
      → length d ≡ c.blk_size
      → (a.0 ≡ ok tt → IsPut o c.blocks i d a.1)
      → (synced o c a).0 ≡ ok tt
      → IsSynced c (synced o c a).1
  unfolding synced
  synced-IsSynced c i d (ok _, b') v at open_ l p h = put-IsSynced c i d b' v at open_ l (p refl)
  synced-IsSynced c i d (err x, b') v at open_ l p h = cc
  synced-IsSynced c i d (panic, b') v at open_ l p h = cc

  -- A `sync` that succeeds changes nothing of what the file reads, and leaves the open block written.
  pub sync-IsSynced :
      (c : SingleBlockCache B)
      → IsCache c
      → IsWritable o c.blk_size c.ref c.blocks
      → (sync o c).0 ≡ ok tt
      → IsSynced c (sync o c).1
  sync-IsSynced c v w e = elim (Bool-cases c.open_wrote) [
    | inl wrote ↦ elim (Option-cases c.open_idx) [
      | inl closed_ ↦ let bad : true ≡ false = sym wrote ∙ v.none_open closed_ in cc
      | inr (i, at) ↦
          let (d, open_, l, within, saved) = v.open_ok i at in
          let steps = sync_wrote c i d wrote at open_ in
          rw steps (
            synced-IsSynced c i d (o.put_block c.blocks c.ref i d) v at open_ l (w i d l)
              (rw steps at e))
    ]
    | inr clean ↦ rw (sync_clean c clean) (same-IsSynced c v clean)
  ]
