-- ===== src/Gc/Checks.antt =====
-- A run of the collector over a volume with one snapshot, and an instance of its law.
use torus.Base.{
  ℕ, ◌==◌, get_elem?, ◌≡◌, refl, true, List, [], ◌∷◌, Option, none, some, arith, if◌then◌else◌,
  Outcome, ok, err, Error,
}
use Prim.Native.String.{String}
use torus.Refs.{
  INodeRef, BlockRef, volume_of, block_type, is_zero, inode_ref_to_bytes, inode_ref_from_bytes,
  to_bytes, from_bytes, block_ref_eq,
}
use torus.Blockset.Base
use torus.Blockset.Registry.{
  LayerMessage, kind_base, unmarshal_from_proto, unmarshal_layers, create_blockset, fill_layer,
  top_layer,
}
use torus.Meta.{Volume, Snapshot}
use torus.Gc.{
  BlockMetadata, BlockVolGc, all_refs, raised, mark, mark_all, refs_of, mark_inodes, mark_current,
  snapshot_inodes, prep_snapshots, prep_current, prep_volume, is_current, is_dead, is_dead_below,
}
use torus.Gc.Safety.{here, next, IsKept, prep_volume-IsKept}

abbrev no_number : String → Option ℕ
no_number s = none

abbrev inode_at : ℕ → INodeRef
inode_at n = record { volume = 1; inode = n }

-- Each inode wrote one block.
abbrev block_of : INodeRef → BlockRef
block_of i = record { inode_ref = i; index = 1 }

abbrev fetched : INodeRef → Outcome (List LayerMessage)
fetched i = ok (record { kind = kind_base; content = Base.marshal (block_of i ∷ []) } ∷ [])

abbrev snaps : List Snapshot
snaps = record { name = 7; time = 0; inode_ref = inode_ref_to_bytes (inode_at 2) } ∷ []

abbrev snapped : BlockMetadata
snapped = record { get_inode = λ n. ok (inode_at 4); get_snapshots = λ n. ok snaps }

abbrev missing : BlockMetadata
missing = record { get_inode = λ n. err Error.not_exist; get_snapshots = λ n. err Error.not_exist }

abbrev one_volume : Volume
one_volume = record { name = 20; id = 1; kind = 3; max_bytes = 4096 }

abbrev fresh : BlockVolGc
fresh = record { set = []; highwaters = []; cur_inodes = [] }

abbrev prepared : BlockVolGc
prepared = (prep_volume 3 no_number snapped fetched fresh one_volume).1

abbrev twice_prepared : BlockVolGc
twice_prepared = (prep_volume 3 no_number missing fetched prepared one_volume).1

prepared_ok : (prep_volume 3 no_number snapped fetched fresh one_volume).0 ≡ ok tt
unfolding prep_volume prep_current prep_snapshots mark_current mark_inodes refs_of
    unmarshal_from_proto unmarshal_layers create_blockset fill_layer top_layer all_refs
prepared_ok = refl

snapshot_at : get_elem? (inode_at 4 ∷ snapshot_inodes snaps) 1 ≡ some (inode_at 2)
unfolding snapshot_inodes inode_ref_from_bytes inode_ref_to_bytes
snapshot_at = refl

prep_volume-IsKept_example : IsKept 3 no_number twice_prepared fetched (inode_at 4) (inode_at 2)
prep_volume-IsKept_example =
    prep_volume-IsKept 3 no_number snapped fetched fresh twice_prepared one_volume (inode_at 4)
      (inode_at 2) snaps 1 refl refl (omega arith) refl prepared_ok
      (next here missing fetched one_volume) snapshot_at

-- What nothing refers to is dead, but not what is newer than all that is referred to.
unused_dead : is_dead prepared (block_of (inode_at 3)) ≡ true
unfolding is_dead is_dead_below is_current volume_of block_type block_ref_eq prep_volume
    prep_current prep_snapshots mark_current mark_inodes refs_of unmarshal_from_proto
    unmarshal_layers create_blockset fill_layer top_layer all_refs mark_all mark raised is_zero
    snapshot_inodes inode_ref_from_bytes inode_ref_to_bytes Base.unmarshal Base.unmarshal_loop
    Base.marshal to_bytes from_bytes
unused_dead = refl

-- A snapshot taken before the first sync refers to inode 1, which was never written.
abbrev unwritten : INodeRef → Outcome (List LayerMessage)
unwritten i = if i.inode == 1 then err Error.block_not_exist else fetched i

abbrev early : BlockMetadata
early = record {
  get_inode = λ n. ok (inode_at 4);
  get_snapshots =
      λ n. ok (record { name = 7; time = 0; inode_ref = inode_ref_to_bytes (inode_at 1) } ∷ []);
}

early_snapshot_fails :
    (prep_volume 3 no_number early unwritten fresh one_volume).0 ≡ err Error.block_not_exist
unfolding prep_volume prep_current prep_snapshots mark_current mark_inodes refs_of
    unmarshal_from_proto unmarshal_layers create_blockset fill_layer top_layer all_refs
    snapshot_inodes inode_ref_from_bytes inode_ref_to_bytes
early_snapshot_fails = refl
