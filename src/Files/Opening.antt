-- ===== src/Files/Opening.antt =====
-- What opening a block for writing leaves: its data in the cache, and every other block as before.
use torus.Base.{
  ℕ, ◌≤◌, ◌≡◌, ◌≢◌, refl, sym, ap, subst, ◌∙◌, true, false, ◌&&◌, Option, none, some, arith, inl,
  inr, ◌⊎◌, length, replicate, length-replicate, ◌==◌, ltb, ==_iff, ==_self, if◌then◌else◌,
  Bool-cases, Bytes, Outcome, ok, err, panic,
}
use torus.Files.Ops.{BlocksetOps, IsWritable}
use torus.Files.Cache.{
  SingleBlockCache, is_at, is_some, or_nil, sync, open_at, open_synced, open_block, opened,
}
use torus.Files.View.{view, IsCache, IsSynced, sync-IsSynced}

module _ {B : Type 0} (o : BlocksetOps B) where
  -- What block `i` held before it was opened: what the file read there, or zeros behind the end.
  abbrev pub HeldBefore : SingleBlockCache B → ℕ → Bytes → Type 0
  HeldBefore c i d =
      (view o c i ≡ ok d) ⊎ ((d ≡ replicate c.blk_size 0) × ((e : Bytes) → view o c i ≢ ok e))

  -- The cache about to be written: the invariant holds once the open block counts as written.
  pub record IsOpened (c : SingleBlockCache B) (i : ℕ) (c' : SingleBlockCache B) : Type 0 where
    pub cache : IsCache o (record c' { open_wrote = true })
    pub at : c'.open_idx ≡ some i
    pub held : (d : Bytes) × (c'.open_data ≡ some d) × (length d ≡ c.blk_size) × HeldBefore c i d
    pub others : (j : ℕ) → i ≢ j → view o c' j ≡ view o c j
    pub same_size : c'.blk_size ≡ c.blk_size

  pub clean_view :
      (c : SingleBlockCache B) (j : ℕ)
      → IsCache o c
      → c.open_wrote ≡ false
      → view o c j ≡ o.get_block c.blocks j
  clean_view c j v clean = go c.open_idx refl
    where
      go : (x : Option ℕ) → c.open_idx ≡ x → view o c j ≡ o.get_block c.blocks j
      go none at =
          ap (λ y. if is_at y j then ok (or_nil c.open_data) else o.get_block c.blocks j) at
      go (some i) at =
          let (d, open_, l, within, saved) = v.open_ok i at in
          ap (λ y. if is_at y j then ok (or_nil c.open_data) else o.get_block c.blocks j) at
          ∙ (elim (Bool-cases (i == j)) [
            | inl same ↦
                let e : i ≡ j = (==_iff i j).0 same in
                rw same
                  (ap (λ y. ok (or_nil y)) open_ ∙ sym (saved clean) ∙ ap (o.get_block c.blocks) e)
            | inr other ↦ rw other refl
          ])

  -- Block `i` with data `d` in front of the blockset.
  opened_lem :
      (c : SingleBlockCache B) (i : ℕ) (d : Bytes) (ri : Option ℕ) (rd : Option Bytes)
      → IsCache o c
      → c.open_wrote ≡ false
      → i ≤ o.length_of c.blocks
      → length d ≡ c.blk_size
      → HeldBefore c i d
      → ((j : ℕ)
          → ri ≡ some j
          → (i ≢ j) × ((e : Bytes) × (rd ≡ some e) × (o.get_block c.blocks j ≡ ok e)))
      → IsOpened c i
          (record c { open_idx = some i; open_data = some d; read_idx = ri; read_data = rd })
  opened_lem c i d ri rd v clean within l held reads = record {
    cache = record {
      blocks_ok = v.blocks_ok;
      open_ok = λ j e.
          let same : i ≡ j = cc in
          (d, refl, l, rw (← same) within, λ q. let bad : true ≡ false = q in cc);
      none_open = λ e. let bad : some i ≡ none = e in cc;
      read_ok = λ j e. let (apart, old) = reads j e in (λ q. apart cc, old);
    };
    at = refl;
    held = (d, refl, l, held);
    others =
        λ j ne. let far : (i == j) ≡ false = ground arith in rw far (sym (clean_view c j v clean));
    same_size = refl;
  }

  kept_reads :
      (c : SingleBlockCache B) (i : ℕ)
      → IsCache o c
      → is_at c.read_idx i ≡ false
      → (j : ℕ) → c.read_idx ≡ some j
      → (i ≢ j) × ((e : Bytes) × (c.read_data ≡ some e) × (o.get_block c.blocks j ≡ ok e))
  kept_reads c i v apart j e =
      let far : (j == i) ≡ false = ap (λ x. is_at x i) (sym e) ∙ apart in
      (λ q. ground (arith, far, q), (v.read_ok j e).1)

  open_answer :
      (c : SingleBlockCache B) (i : ℕ) (a : Outcome Bytes)
      → IsCache o c
      → c.open_wrote ≡ false
      → is_at c.read_idx i ≡ false
      → o.get_block c.blocks i ≡ a
      → (opened o c i a).0 ≡ ok tt
      → IsOpened c i (opened o c i a).1
  unfolding opened
  open_answer c i (ok d) v clean apart e h =
      opened_lem c i d c.read_idx c.read_data v clean (omega (arith, v.blocks_ok.inside i d e))
        (v.blocks_ok.sized i d e) (inl (clean_view c i v clean ∙ e)) (kept_reads c i v apart)
  open_answer c i (err x) v clean apart e h = cc
  open_answer c i panic v clean apart e h = cc

  open_append :
      (c : SingleBlockCache B) (i : ℕ)
      → IsCache o c
      → c.open_wrote ≡ false
      → i ≡ o.length_of c.blocks
      → IsOpened c i (record c { open_data = some (replicate c.blk_size 0); open_idx = some i })
  open_append c i v clean end =
      let unread : (e : Bytes) → o.get_block c.blocks i ≢ ok e =
        λ e q. omega (arith, v.blocks_ok.inside i e q) in
      opened_lem c i (replicate c.blk_size 0) c.read_idx c.read_data v clean (omega arith)
        (length-replicate {A = ℕ} c.blk_size 0)
        (inr (refl, λ e q. unread e (sym (clean_view c i v clean) ∙ q)))
        (λ j e.
          let (apart, (x, read, known)) = v.read_ok j e in
          (λ q. unread x (ap (o.get_block c.blocks) q ∙ known), (x, read, known)))

  open_read :
      (c : SingleBlockCache B) (i : ℕ)
      → IsCache o c
      → c.open_wrote ≡ false
      → c.read_idx ≡ some i
      → IsOpened c i (record c {
        open_idx = some i;
        open_data = c.read_data;
        read_data = none;
        read_idx = none;
      })
  open_read c i v clean at =
      let (apart, (d, read, known)) = v.read_ok i at in
      subst
        (λ x.
          IsOpened c i
            (record c { open_idx = some i; open_data = x; read_data = none; read_idx = none }))
        (sym read)
        (opened_lem c i d none none v clean (omega (arith, v.blocks_ok.inside i d known))
          (v.blocks_ok.sized i d known) (inl (clean_view c i v clean ∙ known))
          (λ j e. let bad : none ≡ some j = e in cc))

  -- The rest of `openBlock`, for a block of the blockset
  abbrev known : SingleBlockCache B → ℕ → Outcome (Unit {0}) × SingleBlockCache B
  known c i =
      if is_at c.read_idx i
      then (
        ok tt,
        record c { open_idx = some i; open_data = c.read_data; read_data = none; read_idx = none },
      )
      else opened o c i (o.get_block c.blocks i)

  pub is_at_iff : (x : Option ℕ) (i : ℕ) → is_at x i ≡ true → x ≡ some i
  is_at_iff none i h = cc
  is_at_iff (some j) i h = ap some ((==_iff j i).0 h)

  open_known :
      (c : SingleBlockCache B) (i : ℕ)
      → IsCache o c
      → c.open_wrote ≡ false
      → (known c i).0 ≡ ok tt
      → IsOpened c i (known c i).1
  open_known c i v clean h = elim (Bool-cases (is_at c.read_idx i)) [
    | inl read ↦ rw read (open_read c i v clean (is_at_iff c.read_idx i read))
    | inr apart ↦
        rw apart (open_answer c i (o.get_block c.blocks i) v clean apart refl (rw apart at h))
  ]

  open_at-IsOpened :
      (c : SingleBlockCache B) (i : ℕ)
      → IsCache o c
      → c.open_wrote ≡ false
      → (open_at o c i).0 ≡ ok tt
      → IsOpened c i (open_at o c i).1
  unfolding open_at
  open_at-IsOpened c i v clean h = elim (Bool-cases (i == o.length_of c.blocks)) [
    | inl end ↦ rw end (open_append c i v clean (ground arith))
    | inr not_end ↦ elim (Bool-cases (ltb (o.length_of c.blocks) i)) [
      | inl beyond ↦ let bad : panic ≡ ok tt = rw (not_end, beyond) at h in cc
      | inr inside ↦ rw (not_end, inside) (open_known c i v clean (rw (not_end, inside) at h))
    ]
  ]

  -- The cache after `sync` reads as before, so what is opened on it is opened on the cache before.
  over_synced :
      (c s c' : SingleBlockCache B) (i : ℕ) → IsSynced o c s → IsOpened s i c' → IsOpened c i c'
  over_synced c s c' i y p = record {
    cache = p.cache;
    at = p.at;
    held = let (d, open_, l, held) = p.held in (d, open_, l ∙ y.same_size, held_over d held);
    others = λ j ne. p.others j ne ∙ y.same_view j;
    same_size = p.same_size ∙ y.same_size;
  }
    where
      held_over : (d : Bytes) → HeldBefore s i d → HeldBefore c i d
      held_over d (inl read) = inl (sym (y.same_view i) ∙ read)
      held_over d (inr (zeros, unread)) =
          inr (zeros ∙ ap (λ n. replicate n 0) y.same_size, λ e q. unread e (y.same_view i ∙ q))

  open_synced-IsOpened :
      (c : SingleBlockCache B) (i : ℕ) (a : Outcome (Unit {0}) × SingleBlockCache B)
      → (a.0 ≡ ok tt → IsSynced o c a.1)
      → (open_synced o i a).0 ≡ ok tt
      → IsOpened c i (open_synced o i a).1
  unfolding open_synced
  open_synced-IsOpened c i (ok _, s) y h =
      let z = y refl in
      over_synced c s (open_at o s i).1 i z (open_at-IsOpened s i z.cache z.clean h)
  open_synced-IsOpened c i (err x, s) y h = cc
  open_synced-IsOpened c i (panic, s) y h = cc

  pub already_open :
      (c : SingleBlockCache B) (i : ℕ) → IsCache o c → c.open_idx ≡ some i → IsOpened c i c
  already_open c i v at =
      let (d, open_, l, within, saved) = v.open_ok i at in
      record {
        cache = record {
          blocks_ok = v.blocks_ok;
          open_ok = λ j e.
              let (x, data_of, size, inside, was) = v.open_ok j e in
              (x, data_of, size, inside, λ q. let bad : true ≡ false = q in cc);
          none_open = λ e. let bad : some i ≡ none = sym at ∙ e in cc;
          read_ok = v.read_ok;
        };
        at = at;
        held = (
          d,
          open_,
          l,
          inl (
              ap (λ y. if is_at y i then ok (or_nil c.open_data) else o.get_block c.blocks i) at
              ∙ rw (==_self i) (ap (λ y. ok (or_nil y)) open_)),
        );
        others = λ j ne. refl;
        same_size = refl;
      }

  -- `openBlock`, when it succeeds
  pub open_block-IsOpened :
      (c : SingleBlockCache B) (i : ℕ)
      → IsCache o c
      → IsWritable o c.blk_size c.ref c.blocks
      → (open_block o c i).0 ≡ ok tt
      → IsOpened c i (open_block o c i).1
  unfolding open_block
  open_block-IsOpened c i v w h = elim (Bool-cases (is_at c.open_idx i && is_some c.open_data)) [
    | inl open_ ↦ rw open_ (already_open c i v (is_at_iff c.open_idx i (ground arith)))
    | inr closed_ ↦
        rw closed_ (
          open_synced-IsOpened c i (sync o c) (λ done. sync-IsSynced o c v w done)
            (rw closed_ at h))
  ]
