-- ===== src/Gc/Kept.antt =====
-- `PrepVolume` and `IsDead` of block/gc_block_vol.go: what a current inode or a snapshot refers to is not dead.
use torus.Base.{
  ℕ, zero, suc, ◌<◌, ◌≡◌, ◌≢◌, refl, sym, ap, subst, ◌∙◌, Bool, true, false, List, [], ◌∷◌, Option,
  some, arith, leb, ◌==◌, if◌then◌else◌, get_elem?, Outcome, ok, err, panic,
}
use Prim.Native.String.{String}
use torus.Refs.{INodeRef, BlockRef, volume_of, block_type, type_inode}
use torus.RefMap.{lookup}
use torus.Blockset.Registry.{LayerMessage}
use torus.Gc.{BlockVolGc, mark_all, refs_of, mark_inodes, is_current, is_dead, is_dead_below}
use torus.Gc.Marks.{
  IsKnown, Extends, Extends-refl, Extends-trans, mark_all-Extends, mark_all-IsMarked,
}

pub record IsMarked (g : BlockVolGc) (r : BlockRef) : Type 0 where
  pub known : IsKnown (volume_of r.inode_ref) g
  pub marked : lookup r g.set ≡ some true

pub IsMarked-Extends :
    (g g' : BlockVolGc) (r : BlockRef) → Extends g g' → IsMarked g r → IsMarked g' r
IsMarked-Extends g g' r e m = record { known = e.known _ m.known; marked = e.marked r m.marked }

-- Marked data and listed inode blocks are kept.
pub marked-kept :
    (g : BlockVolGc) (r : BlockRef) → block_type r ≢ type_inode → IsMarked g r → is_dead g r ≡ false
unfolding is_dead is_dead_below
marked-kept g r ne m =
    let (h, e) = m.known in
    let other : (block_type r == type_inode) ≡ false = ground arith in
    ap (is_dead_below g r) e ∙ rw (other, m.marked) (by_age (leb h r.inode))
  where
    by_age : (b : Bool) → ◌≡◌ {A = Bool} (if b then false else false) false
    by_age true = refl
    by_age false = refl

pub listed-kept :
    (g : BlockVolGc) (r : BlockRef)
    → IsKnown (volume_of r.inode_ref) g
    → block_type r ≡ type_inode
    → is_current g.cur_inodes r ≡ true
    → is_dead g r ≡ false
unfolding is_dead is_dead_below
listed-kept g r (h, e) kind listed =
    let same : (block_type r == type_inode) ≡ true = ground arith in
    ap (is_dead_below g r) e ∙ rw (same, listed) (by_age (leb h r.inode))
  where
    by_age : (b : Bool) → ◌≡◌ {A = Bool} (if b then false else false) false
    by_age true = refl
    by_age false = refl

module _ (volume_type : ℕ) (atoi : String → Option ℕ) where
  abbrev Fetch : Type 0
  Fetch = INodeRef → Outcome (List LayerMessage)

  -- The step of the outer loop, for what the inode's references are
  abbrev on_refs :
      Fetch → BlockVolGc → List INodeRef → Outcome (List BlockRef) → Outcome (Unit {0}) × BlockVolGc
  on_refs fetch g xs o = elim o [
    | ok rs ↦ mark_inodes volume_type atoi fetch (mark_all g rs) xs
    | err e ↦ (err e, g)
    | panic ↦ (panic, g)
  ]

  pub mark_inodes-Extends :
      (fetch : Fetch) (g : BlockVolGc) (xs : List INodeRef)
      → Extends g (mark_inodes volume_type atoi fetch g xs).1
  unfolding mark_inodes
  mark_inodes-Extends fetch g [] = Extends-refl g
  mark_inodes-Extends fetch g (x ∷ xs) =
      by_refs (refs_of volume_type atoi fetch x)
        (λ rs. mark_inodes-Extends fetch (mark_all g rs) xs)
    where
      by_refs :
          (o : Outcome (List BlockRef))
          → ((rs : List BlockRef)
              → Extends (mark_all g rs) (mark_inodes volume_type atoi fetch (mark_all g rs) xs).1)
          → Extends g (on_refs fetch g xs o).1
      by_refs (ok rs) later = Extends-trans (mark_all-Extends g rs) (later rs)
      by_refs (err e) later = Extends-refl g
      by_refs panic later = Extends-refl g

  pub mark_inodes-IsMarked :
      (fetch : Fetch) (g : BlockVolGc) (xs : List INodeRef) (j i : ℕ) (x : INodeRef)
      (rs : List BlockRef) (r : BlockRef)
      → (mark_inodes volume_type atoi fetch g xs).0 ≡ ok tt
      → get_elem? xs j ≡ some x
      → refs_of volume_type atoi fetch x ≡ ok rs
      → get_elem? rs i ≡ some r
      → 0 < r.inode
      → IsMarked (mark_inodes volume_type atoi fetch g xs).1 r
  unfolding mark_inodes
  mark_inodes-IsMarked fetch g [] j i x rs r h at_x refs at_r pos = absurd cc
  mark_inodes-IsMarked fetch g (y ∷ xs) zero i x rs r h at_x refs at_r pos =
      let same : x ≡ y = cc in
      let here_ : refs_of volume_type atoi fetch y ≡ ok rs =
        sym (ap (refs_of volume_type atoi fetch) same) ∙ refs in
      let (known, marked) = mark_all-IsMarked g rs i r at_r pos in
      subst (λ o. IsMarked (on_refs fetch g xs o).1 r) (sym here_)
        (IsMarked-Extends (mark_all g rs) _ r (mark_inodes-Extends fetch (mark_all g rs) xs)
          (record { known = known; marked = marked }))
  mark_inodes-IsMarked fetch g (y ∷ xs) (suc j) i x rs r h at_x refs at_r pos =
      by_refs (refs_of volume_type atoi fetch y)
        (λ qs h'. mark_inodes-IsMarked fetch (mark_all g qs) xs j i x rs r h' at_x refs at_r pos) h
    where
      by_refs :
          (o : Outcome (List BlockRef))
          → ((qs : List BlockRef)
              → (mark_inodes volume_type atoi fetch (mark_all g qs) xs).0 ≡ ok tt
              → IsMarked (mark_inodes volume_type atoi fetch (mark_all g qs) xs).1 r)
          → (on_refs fetch g xs o).0 ≡ ok tt
          → IsMarked (on_refs fetch g xs o).1 r
      by_refs (ok qs) later h' = later qs h'
      by_refs (err e) later h' = absurd cc
      by_refs panic later h' = absurd cc
