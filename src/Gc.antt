-- ===== src/Gc.antt =====
-- Garbage collection: gc/gc.go, gc/null.go, and the collector of block volumes in block/gc_block_vol.go. A volume's metadata
-- and its inodes are reached through interfaces.
pub mod Marks
pub mod Kept
pub mod Safety
mod Checks
use torus.Base.{
  ℕ, zero, suc, ◌+◌, ◌*◌, Bool, true, false, not, List, [], ◌∷◌, ◌++◌, map, Option, none, some,
  length, replicate, splice, ltb, leb, ◌==◌, if◌then◌else◌, Outcome, ok, err, panic, Error, ◌>>=◌,
}
use Prim.Native.String.{String}
use torus.Refs.{
  INodeRef, BlockRef, volume_of, block_type, type_inode, has_inode, is_zero, zero_block,
  inode_ref_from_bytes,
}
use torus.RefMap.{RefMap, lookup, insert}
use torus.NumMap.{NumMap, find, put, find_or}
use torus.Blockset.Layers.{Blockset, base, crc, rep}
use torus.Blockset.Registry.{LayerMessage, unmarshal_from_proto}
use torus.Meta.{Server, Volume, Snapshot}
use torus.Meta.Volumes

-- What the collector calls of the metadata of a volume, by its number.
pub record BlockMetadata : Type 0 where
  pub get_inode : ℕ → Outcome INodeRef
  pub get_snapshots : ℕ → Outcome (List Snapshot)

-- The metadata service in memory
abbrev pub temp_metadata : (ℕ → ℕ) → Server → BlockMetadata
temp_metadata sprint s = record {
  get_inode = Volumes.get_inode sprint s;
  get_snapshots = Volumes.get_snapshots sprint s;
}

-- The copies of `replicationBlockset.GetAllBlockRefs`, list `i` to its place in `out`
unfoldable pub place_lists : ℕ → ℕ → List (List BlockRef) → List BlockRef → List BlockRef
place_lists i n [] out = out
place_lists i n (l ∷ ls) out = place_lists (i + 1) n ls (splice (i * n) l out)

unfoldable pub copies_of : List (List BlockRef) → Outcome (List BlockRef)
unfolding place_lists
copies_of [] = panic
copies_of (l ∷ ls) =
    ok (place_lists 0 (length l) (l ∷ ls) (replicate (length l * length (l ∷ ls)) zero_block))

-- `GetAllBlockRefs` of each layer
unfoldable pub all_refs : Blockset → Outcome (List BlockRef)
unfolding copies_of
all_refs (base b) = ok b.blocks
all_refs (crc crcs sub) = all_refs sub
all_refs (rep r sub) = all_refs sub >>= λ own. copies_of r.rep_blocks >>= λ out. ok (own ++ out)

pub record BlockVolGc : Type 0 where
  pub set : RefMap Bool
  pub highwaters : NumMap ℕ
  pub cur_inodes : List INodeRef

unfoldable pub clear : BlockVolGc → BlockVolGc
clear g = record { set = []; highwaters = []; cur_inodes = [] }

unfoldable pub raised : NumMap ℕ → BlockRef → NumMap ℕ
unfolding volume_of
raised m r =
    if ltb (find_or 0 (volume_of r.inode_ref) m) r.inode
    then put (volume_of r.inode_ref) r.inode m
    else m

-- The inner loop of `PrepVolume`
unfoldable pub mark : BlockVolGc → BlockRef → BlockVolGc
unfolding raised
mark g r =
    if is_zero r
    then g
    else record g { set = insert r true g.set; highwaters = raised g.highwaters r }

unfoldable pub mark_all : BlockVolGc → List BlockRef → BlockVolGc
unfolding mark
mark_all g [] = g
mark_all g (r ∷ rs) = mark_all (mark g r) rs

unfoldable pub snapshot_inodes : List Snapshot → List INodeRef
snapshot_inodes ss = map (λ x. inode_ref_from_bytes x.inode_ref) ss

-- `volume_type` is the number that stands for the type of block volumes.
module _ (volume_type : ℕ) (atoi : String → Option ℕ) where
  -- The references of an inode: its blocks, opened
  unfoldable pub refs_of :
      (INodeRef → Outcome (List LayerMessage)) → INodeRef → Outcome (List BlockRef)
  unfolding all_refs
  refs_of fetch x = fetch x >>= λ ls. unmarshal_from_proto atoi ls >>= λ bs. all_refs bs

  -- The outer loop of `PrepVolume`
  unfoldable pub mark_inodes :
      (INodeRef → Outcome (List LayerMessage))
      → BlockVolGc
      → List INodeRef
      → Outcome (Unit {0}) × BlockVolGc
  unfolding refs_of mark_all
  mark_inodes fetch g [] = (ok tt, g)
  mark_inodes fetch g (x ∷ xs) = elim (refs_of fetch x) [
    | ok rs ↦ mark_inodes fetch (mark_all g rs) xs
    | err e ↦ (err e, g)
    | panic ↦ (panic, g)
  ]

  -- The rest of `PrepVolume`, for the inodes that are current
  unfoldable pub mark_current :
      (INodeRef → Outcome (List LayerMessage))
      → BlockVolGc
      → List INodeRef
      → Outcome (Unit {0}) × BlockVolGc
  unfolding mark_inodes
  mark_current fetch g xs =
      let (a, g') = mark_inodes fetch g xs in
      elim a [
        | ok _ ↦ (ok tt, record g' { cur_inodes = g'.cur_inodes ++ xs })
        | err e ↦ (err e, g')
        | panic ↦ (panic, g')
      ]

  unfoldable pub prep_snapshots :
      (INodeRef → Outcome (List LayerMessage))
      → BlockVolGc
      → INodeRef
      → Outcome (List Snapshot)
      → Outcome (Unit {0}) × BlockVolGc
  unfolding mark_current snapshot_inodes
  prep_snapshots fetch g cur (ok ss) = mark_current fetch g (cur ∷ snapshot_inodes ss)
  prep_snapshots fetch g cur (err e) = (err e, g)
  prep_snapshots fetch g cur panic = (panic, g)

  unfoldable pub prep_current :
      BlockMetadata
      → (INodeRef → Outcome (List LayerMessage))
      → BlockVolGc
      → Volume
      → Outcome INodeRef
      → Outcome (Unit {0}) × BlockVolGc
  unfolding prep_snapshots volume_of
  prep_current mds fetch g v (ok cur) =
      let g' : BlockVolGc = record g { highwaters = put (volume_of cur) 0 g.highwaters } in
      if leb cur.inode 1 then (ok tt, g') else prep_snapshots fetch g' cur (mds.get_snapshots v.id)
  prep_current mds fetch g v (err e) = (err e, g)
  prep_current mds fetch g v panic = (panic, g)

  unfoldable pub prep_volume :
      BlockMetadata
      → (INodeRef → Outcome (List LayerMessage))
      → BlockVolGc
      → Volume
      → Outcome (Unit {0}) × BlockVolGc
  unfolding prep_current
  prep_volume mds fetch g v =
      if v.kind == volume_type then prep_current mds fetch g v (mds.get_inode v.id) else (ok tt, g)

-- The loop of `IsDead` over the inodes
unfoldable pub is_current : List INodeRef → BlockRef → Bool
is_current [] r = false
is_current (x ∷ xs) r = if has_inode r x type_inode then true else is_current xs r

-- A data block is dead unless the set has it.
abbrev pub is_unmarked : Option Bool → Bool
is_unmarked none = true
is_unmarked (some b) = not b

-- `IsDead`, for the highwater of the volume
unfoldable pub is_dead_below : BlockVolGc → BlockRef → Option ℕ → Bool
unfolding is_current
is_dead_below g r none = true
is_dead_below g r (some v) =
    if leb v r.inode
    then false
    else if block_type r == type_inode
    then not (is_current g.cur_inodes r)
    else is_unmarked (lookup r g.set)

unfoldable pub is_dead : BlockVolGc → BlockRef → Bool
unfolding is_dead_below volume_of
is_dead g r = is_dead_below g r (find (volume_of r.inode_ref) g.highwaters)

-- The controller of gc/gc.go over collectors of one type
pub record GcOps (G : Type 0) : Type 0 where
  pub prep_volume : G → Volume → Outcome (Unit {0}) × G
  pub is_dead : G → BlockRef → Bool
  pub clear : G → G

-- `NullGC` of gc/null.go
abbrev pub null_gc : GcOps (Unit {0})
null_gc = record { prep_volume = λ g v. (ok tt, g); is_dead = λ g r. false; clear = λ g. g }

module _ {G : Type 0} (o : GcOps G) where
  unfoldable pub prep_each : List G → Volume → Outcome (Unit {0}) × List G
  prep_each [] v = (ok tt, [])
  prep_each (g ∷ gs) v =
      let (a, g') = o.prep_volume g v in
      let (b, gs') = prep_each gs v in
      elim a [ ok _ ↦ (b, g' ∷ gs') | err e ↦ (err e, g' ∷ gs) | panic ↦ (panic, g' ∷ gs) ]

  unfoldable pub is_dead_any : List G → BlockRef → Bool
  is_dead_any [] r = false
  is_dead_any (g ∷ gs) r = if o.is_dead g r then true else is_dead_any gs r

  unfoldable pub clear_each : List G → List G
  clear_each gs = map o.clear gs
