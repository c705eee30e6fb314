-- ===== src/Refs.antt =====
-- Block references: storage.go (VolumeID, INodeRef, BlockRef and their bytes, block types,
-- write and read levels). A word is a number; its range is a hypothesis where it matters.
-- Definitions here; what they satisfy stands in the children.
pub mod Fields
pub mod Encoding
mod Checks
use Prim.Native.Nat.{bit_or}
use Prim.Native.String.{String}
use text.Mathlib.Text.{◌==◌ as str_eq}
use torus.Base.{
  ℕ, ◌+◌, ◌-◌, ◌*◌, ◌/◌, ◌%◌, ◌^◌, Bool, true, false, ◌&&◌, List, [], ◌∷◌, ◌++◌, ltb, ◌==◌,
  if◌then◌else◌, Bytes, le_bytes, le_value, slice, Outcome, ok, err, Error, ◌>>=◌, ◌>>◌,
}

-- `VolumeMax` is 2 ^ 40 - 1, so `x & VolumeMax` is `x % 2 ^ 40`.
abbrev pub volume_max : ℕ
volume_max = 0xFFFFFFFFFF

abbrev pub volume_bits : ℕ
volume_bits = 2 ^ 40

-- `BlockType`, a uint16
abbrev pub type_block : ℕ
type_block = 0

abbrev pub type_inode : ℕ
type_inode = 1

pub record INodeRef : Type 0 where
  pub volume : ℕ
  pub inode : ℕ

pub record BlockRef : Type 0 where
  pub inode_ref : INodeRef
  pub open inode_ref use *
  pub index : ℕ

abbrev pub volume_id_byte_size : ℕ
volume_id_byte_size = 5

abbrev pub inode_ref_byte_size : ℕ
inode_ref_byte_size = 8 * 2

abbrev pub block_ref_byte_size : ℕ
block_ref_byte_size = 8 * 3

-- `INodeRef.Equals`
unfoldable pub inode_ref_eq : INodeRef → INodeRef → Bool
inode_ref_eq i x = i.volume == x.volume && i.inode == x.inode

-- Go's `==` on the struct BlockRef, by which it is a map's key
unfoldable pub block_ref_eq : BlockRef → BlockRef → Bool
unfolding inode_ref_eq
block_ref_eq a b = inode_ref_eq a.inode_ref b.inode_ref && a.index == b.index

-- `INodeRef.Volume`
unfoldable pub volume_of : INodeRef → ℕ
volume_of i = i.volume % volume_bits

-- `VolumeID.ToBytes`
unfoldable pub volume_to_bytes : ℕ → Bytes
volume_to_bytes v = slice 0 volume_id_byte_size (le_bytes 8 v)

-- `NewINodeRef`. `godbc.Require` is outside the repository: `require`.
unfoldable pub new_inode_ref : (Bool → Outcome (Unit {0})) → ℕ → ℕ → Outcome INodeRef
new_inode_ref require vol i =
    require (ltb vol volume_max) >> ok (record { volume = vol % volume_bits; inode = i })

unfoldable pub inode_ref_to_bytes : INodeRef → Bytes
inode_ref_to_bytes i = le_bytes 8 i.volume ++ le_bytes 8 i.inode

unfoldable pub inode_ref_from_bytes : Bytes → INodeRef
inode_ref_from_bytes b = record { volume = le_value (slice 0 8 b); inode = le_value (slice 8 8 b) }

-- `BlockRef.ToBytes`, which is `ToBytesBuf` on a fresh buffer of the right size
unfoldable pub to_bytes : BlockRef → Bytes
to_bytes b = le_bytes 8 b.volume ++ (le_bytes 8 b.inode ++ le_bytes 8 b.index)

unfoldable pub block_ref_from_uint64s : ℕ → ℕ → ℕ → BlockRef
block_ref_from_uint64s volume inode index = record {
  inode_ref = record { volume = volume; inode = inode };
  index = index;
}

-- `BlockRefFromBytes`
unfoldable pub from_bytes : Bytes → BlockRef
unfolding block_ref_from_uint64s
from_bytes b =
    block_ref_from_uint64s (le_value (slice 0 8 b)) (le_value (slice 8 8 b))
      (le_value (slice 16 8 b))

-- `BlockRef.BlockType`: `&^ VolumeMax` clears the low 40 bits, and uint16 keeps 16 bits.
unfoldable pub block_type : BlockRef → ℕ
block_type b = (b.volume - b.volume % volume_bits) / volume_bits % 2 ^ 16

-- `BlockRef.SetBlockType`
unfoldable pub set_block_type : ℕ → BlockRef → BlockRef
set_block_type t b = record {
  inode_ref = record { volume = bit_or b.volume (t % 2 ^ 24 * volume_bits); inode = b.inode };
  index = b.index;
}

-- `BlockRef.HasINode`
unfoldable pub has_inode : BlockRef → INodeRef → ℕ → Bool
unfolding volume_of block_type
has_inode b i t = b.inode == i.inode && (volume_of b.inode_ref == volume_of i && block_type b == t)

-- `BlockRef.IsZero`: the block type does not count.
unfoldable pub is_zero : BlockRef → Bool
unfolding volume_of
is_zero b = volume_of b.inode_ref == 0 && (b.inode == 0 && b.index == 0)

abbrev pub zero_inode : INodeRef
zero_inode = record { volume = 0; inode = 0 }

abbrev pub zero_block : BlockRef
zero_block = record { inode_ref = zero_inode; index = 0 }

pub data WriteLevel : Type 0 where
  write_all write_one write_local : WriteLevel

pub data ReadLevel : Type 0 where
  read_block read_sequential read_spread : ReadLevel

unfoldable pub parse_write_level : String → Outcome WriteLevel
parse_write_level s =
    if str_eq s "all"
    then ok write_all
    else if str_eq s "one"
    then ok write_one
    else if str_eq s "local"
    then ok write_local
    else err (Error.other 0)

unfoldable pub parse_read_level : String → Outcome ReadLevel
parse_read_level s =
    if str_eq s "spread"
    then ok read_spread
    else if str_eq s "seq"
    then ok read_sequential
    else if str_eq s "block"
    then ok read_block
    else err (Error.other 1)
