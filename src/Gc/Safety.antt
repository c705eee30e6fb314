-- ===== src/Gc/Safety.antt =====
-- `PrepVolume` and `IsDead` of block/gc_block_vol.go over any number of volumes.
use torus.Base.{
  ℕ, ◌<◌, ◌≡◌, ◌≢◌, refl, sym, ap, subst, ◌∙◌, Bool, true, false, List, ◌∷◌, ◌++◌, Option, some,
  arith, inl, inr, leb, ◌==◌, if◌then◌else◌, get_elem?, Outcome, ok, err, panic,
}
use Prim.Native.String.{String}
use torus.Refs.{INodeRef, BlockRef, volume_of, block_type, type_inode, has_inode}
use torus.NumMap.{put, find-put_self}
use torus.Blockset.Registry.{LayerMessage}
use torus.Meta.{Volume, Snapshot}
use torus.Gc.{
  BlockMetadata, BlockVolGc, refs_of, mark_inodes, mark_current, snapshot_inodes, prep_snapshots,
  prep_current, prep_volume, is_current, is_dead,
}
use torus.Gc.Marks.{
  IsKnown, Extends, Extends-refl, Extends-trans, is_current-append, is_current_at, known_put,
}
use torus.Gc.Kept.{
  IsMarked-Extends, marked-kept, listed-kept, mark_inodes-Extends, mark_inodes-IsMarked,
}

-- The inodes join the list when all of them could be read.
abbrev finish : List INodeRef → Outcome (Unit {0}) → BlockVolGc → Outcome (Unit {0}) × BlockVolGc
finish xs a g = elim a [
  | ok _ ↦ (ok tt, record g { cur_inodes = g.cur_inodes ++ xs })
  | err e ↦ (err e, g)
  | panic ↦ (panic, g)
]

finish-Extends :
    (xs : List INodeRef) (a : Outcome (Unit {0})) (g : BlockVolGc) → Extends g (finish xs a g).1
finish-Extends xs (ok _) g = record {
  known = λ v h. h;
  marked = λ r h. h;
  listed = λ r h. is_current-append g.cur_inodes xs r (inl h);
}
finish-Extends xs (err e) g = Extends-refl g
finish-Extends xs panic g = Extends-refl g

finished :
    (xs : List INodeRef) (a : Outcome (Unit {0})) (g : BlockVolGc)
    → (finish xs a g).0 ≡ ok tt
    → (a ≡ ok tt) × ((finish xs a g).1.cur_inodes ≡ g.cur_inodes ++ xs)
finished xs (ok _) g h = (refl, refl)
finished xs (err e) g h = absurd cc
finished xs panic g h = absurd cc

-- The volume's highwater begins at 0.
abbrev begun : BlockVolGc → INodeRef → BlockVolGc
begun g cur = record g { highwaters = put (volume_of cur) 0 g.highwaters }

begun-Extends : (g : BlockVolGc) (cur : INodeRef) → Extends g (begun g cur)
begun-Extends g cur = record {
  known = λ v h. known_put v (volume_of cur) 0 g.highwaters h;
  marked = λ r h. h;
  listed = λ r h. h;
}

module _ (volume_type : ℕ) (atoi : String → Option ℕ) where
  abbrev Fetch : Type 0
  Fetch = INodeRef → Outcome (List LayerMessage)

  prep_snapshots-Extends :
      (fetch : Fetch) (g : BlockVolGc) (cur : INodeRef) (o : Outcome (List Snapshot))
      → Extends g (prep_snapshots volume_type atoi fetch g cur o).1
  unfolding prep_snapshots mark_current
  prep_snapshots-Extends fetch g cur (ok ss) =
      let xs = cur ∷ snapshot_inodes ss in
      let m = mark_inodes volume_type atoi fetch g xs in
      Extends-trans (mark_inodes-Extends volume_type atoi fetch g xs) (finish-Extends xs m.0 m.1)
  prep_snapshots-Extends fetch g cur (err e) = Extends-refl g
  prep_snapshots-Extends fetch g cur panic = Extends-refl g

  prep_current-Extends :
      (mds : BlockMetadata) (fetch : Fetch) (g : BlockVolGc) (v : Volume) (o : Outcome INodeRef)
      → Extends g (prep_current volume_type atoi mds fetch g v o).1
  unfolding prep_current
  prep_current-Extends mds fetch g v (ok cur) = Extends-trans (begun-Extends g cur) (
      by_age _ (leb cur.inode 1)
        (prep_snapshots-Extends fetch (begun g cur) cur (mds.get_snapshots v.id)))
    where
      by_age :
          (t : Outcome (Unit {0}) × BlockVolGc) (b : Bool)
          → Extends (begun g cur) t.1
          → Extends (begun g cur) (if b then (ok tt, begun g cur) else t).1
      by_age t true h = Extends-refl (begun g cur)
      by_age t false h = h
  prep_current-Extends mds fetch g v (err e) = Extends-refl g
  prep_current-Extends mds fetch g v panic = Extends-refl g

  prep_volume-Extends :
      (mds : BlockMetadata) (fetch : Fetch) (g : BlockVolGc) (v : Volume)
      → Extends g (prep_volume volume_type atoi mds fetch g v).1
  unfolding prep_volume
  prep_volume-Extends mds fetch g v =
      by_type _ (v.kind == volume_type) (prep_current-Extends mds fetch g v (mds.get_inode v.id))
    where
      by_type :
          (t : Outcome (Unit {0}) × BlockVolGc) (b : Bool)
          → Extends g t.1
          → Extends g (if b then t else (ok tt, g)).1
      by_type t true h = h
      by_type t false h = Extends-refl g

  -- The collector after it has prepared more volumes, whatever their metadata and inodes, and
  -- whether or not that came to an error.
  pub data Prepared (g : BlockVolGc) : BlockVolGc → Type 0 where
    here : Prepared g g
    next :
        {t : BlockVolGc}
        → Prepared g t
        → (mds : BlockMetadata) (fetch : Fetch) (v : Volume)
        → Prepared g (prep_volume volume_type atoi mds fetch t v).1

  Prepared-Extends : {g t : BlockVolGc} → Prepared g t → Extends g t
  Prepared-Extends {g = g} here = Extends-refl g
  Prepared-Extends (next {t = t} p mds fetch v) =
      Extends-trans (Prepared-Extends p) (prep_volume-Extends mds fetch t v)

  -- What the inode `x` needs is not dead: the data blocks that it refers to, and its own blocks.
  pub record IsKept (g : BlockVolGc) (fetch : Fetch) (cur x : INodeRef) : Type 0 where
    data_kept :
        (rs : List BlockRef) (i : ℕ) (r : BlockRef)
        → refs_of volume_type atoi fetch x ≡ ok rs
        → get_elem? rs i ≡ some r
        → 0 < r.inode
        → block_type r ≢ type_inode
        → is_dead g r ≡ false
    inode_kept :
        (r : BlockRef)
        → has_inode r x type_inode ≡ true
        → volume_of x ≡ volume_of cur
        → is_dead g r ≡ false

  -- A volume that is prepared to the end
  prepared_to_end :
      (mds : BlockMetadata) (fetch : Fetch) (g : BlockVolGc) (v : Volume) (cur : INodeRef)
      (ss : List Snapshot)
      → v.kind ≡ volume_type
      → mds.get_inode v.id ≡ ok cur
      → 1 < cur.inode
      → mds.get_snapshots v.id ≡ ok ss
      → prep_volume volume_type atoi mds fetch g v
        ≡ mark_current volume_type atoi fetch (begun g cur) (cur ∷ snapshot_inodes ss)
  unfolding prep_volume prep_current prep_snapshots
  prepared_to_end mds fetch g v cur ss kind inode age snaps =
      let right : (v.kind == volume_type) ≡ true = ground arith in
      let old : leb cur.inode 1 ≡ false = ground arith in rw (right, inode, old, snaps) refl

  -- When PrepVolume of a block volume whose current inode is beyond the first succeeds, then, also
  -- after more volumes have been prepared with or without errors: no data block that the current
  -- inode or a snapshot refers to is dead, if it has an inode number and is not of the inode type,
  -- and no block of such an inode in the same volume is dead.
  pub prep_volume-IsKept :
      (mds : BlockMetadata) (fetch : Fetch) (g g' : BlockVolGc) (v : Volume) (cur x : INodeRef)
      (ss : List Snapshot) (j : ℕ)
      → v.kind ≡ volume_type
      → mds.get_inode v.id ≡ ok cur
      → 1 < cur.inode
      → mds.get_snapshots v.id ≡ ok ss
      → (prep_volume volume_type atoi mds fetch g v).0 ≡ ok tt
      → Prepared (prep_volume volume_type atoi mds fetch g v).1 g'
      → get_elem? (cur ∷ snapshot_inodes ss) j ≡ some x
      → IsKept g' fetch cur x
  unfolding mark_current has_inode
  prep_volume-IsKept mds fetch g g' v cur x ss j kind inode age snaps done later at_x =
      let xs = cur ∷ snapshot_inodes ss in
      let m = mark_inodes volume_type atoi fetch (begun g cur) xs in
      let whole : prep_volume volume_type atoi mds fetch g v ≡ finish xs m.0 m.1 =
        prepared_to_end mds fetch g v cur ss kind inode age snaps in
      let (marked_ok, list) = finished xs m.0 m.1 (sym (ap (λ t. t.0) whole) ∙ done) in
      let on : Extends (finish xs m.0 m.1).1 g' =
        subst (λ t. Extends t.1 g') whole (Prepared-Extends later) in
      let ended = finish-Extends xs m.0 m.1 in
      let marks = mark_inodes-Extends volume_type atoi fetch (begun g cur) xs in
      record {
        data_kept = λ rs i r refs at_r pos ne. marked-kept g' r ne (
            IsMarked-Extends (finish xs m.0 m.1).1 g' r on (
              IsMarked-Extends m.1 (finish xs m.0 m.1).1 r ended (
                mark_inodes-IsMarked volume_type atoi fetch (begun g cur) xs j i x rs r marked_ok
                  at_x refs at_r pos)));
        inode_kept = λ r has same.
            let volume : volume_of r.inode_ref ≡ volume_of x = ground arith in
            let kind_ : block_type r ≡ type_inode = ground arith in
            let known : IsKnown (volume_of cur) (begun g cur) =
              (0, find-put_self (volume_of cur) 0 g.highwaters) in
            listed-kept g' r
              (subst (λ n. IsKnown n g') (sym (volume ∙ same))
                (on.known _ (ended.known _ (marks.known _ known))))
              kind_
              (on.listed r (
                ap (λ l. is_current l r) list
                ∙ is_current-append m.1.cur_inodes xs r (inr (is_current_at xs j x r at_x has))));
      }
