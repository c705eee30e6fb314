-- ===== src/Refs/Fields.antt =====
-- The block type and the volume share one 64-bit word: SetBlockType, BlockType, Volume, HasINode.
use torus.Base.{
  ℕ, ◌+◌, ◌*◌, ◌/◌, ◌%◌, ◌^◌, ◌<◌, ◌≡◌, refl, ◌↔◌, ◌∙◌, ap, true, arith, bit_or-shifted, low_part,
  low_part_lem, bit_or-zero, bit_or_lt, u64_mod,
}
use Prim.Native.Nat.{bit_or}
use torus.Refs.{
  INodeRef, BlockRef, volume_bits, volume_of, block_type, set_block_type, has_inode, inode_ref_eq,
  block_ref_eq,
}

-- The low 40 bits of the word.
low_part_mod : (a : ℕ) → low_part 40 a ≡ a % volume_bits
low_part_mod a = omega (arith, low_part_lem 40 a)

set_volume_lem :
    (v t : ℕ)
    → bit_or v (t * volume_bits) ≡ bit_or (v / volume_bits) t * volume_bits + v % volume_bits
set_volume_lem v t = omega (arith, bit_or-shifted 40 v t, low_part_mod v)

pub volume_of-set_block_type :
    (t : ℕ) (b : BlockRef) → volume_of (set_block_type t b).inode_ref ≡ volume_of b.inode_ref
unfolding volume_of set_block_type
volume_of-set_block_type t b = omega (arith, set_volume_lem b.volume (t % 2 ^ 24))

pub block_type-set_block_type :
    (t : ℕ) (b : BlockRef)
    → b.volume < volume_bits
    → t < 2 ^ 16
    → block_type (set_block_type t b) ≡ t
unfolding block_type set_block_type
block_type-set_block_type t b h k =
    let high : b.volume / volume_bits ≡ 0 = omega arith in
    let plain : t % 2 ^ 24 ≡ t = omega arith in
    let e : bit_or (b.volume / volume_bits) (t % 2 ^ 24) ≡ t =
      ap (λ x. bit_or x (t % 2 ^ 24)) high ∙ bit_or-zero (t % 2 ^ 24) ∙ plain in
    omega (arith, set_volume_lem b.volume (t % 2 ^ 24), e)

-- Setting the type stays within 64 bits.
pub set_block_type_lt :
    (t : ℕ) (b : BlockRef) → b.volume < u64_mod → (set_block_type t b).volume < u64_mod
unfolding set_block_type
set_block_type_lt t b h =
    let small : bit_or (b.volume / volume_bits) (t % 2 ^ 24) < 2 ^ 24 =
      bit_or_lt 24 (b.volume / volume_bits) (t % 2 ^ 24) (omega arith) (omega arith) in
    omega (arith, set_volume_lem b.volume (t % 2 ^ 24), small)

-- A reference without a type, whose volume is below 2 ^ 40, gets exactly the given 16-bit type, and
-- nothing else of it changes: it still names the same volume, inode and index, and fits its 64-bit
-- word.
pub set_block_type_fields :
    (t : ℕ) (b : BlockRef)
    → b.volume < volume_bits
    → t < 2 ^ 16
    → (block_type (set_block_type t b) ≡ t)
      × (volume_of (set_block_type t b).inode_ref ≡ volume_of b.inode_ref)
      × ((set_block_type t b).inode ≡ b.inode)
      × ((set_block_type t b).index ≡ b.index)
      × ((set_block_type t b).volume < u64_mod)
unfolding set_block_type
set_block_type_fields t b h k = (
  block_type-set_block_type t b h k,
  volume_of-set_block_type t b,
  refl,
  refl,
  set_block_type_lt t b (omega arith),
)

-- A block written under a 16-bit type `t`, with a volume below 2 ^ 40, is recognised as a block of
-- inode `j` and type `u` exactly when the inode, the volume and the type agree.
pub has_inode-set_block_type :
    (t u : ℕ) (b : BlockRef) (j : INodeRef)
    → b.volume < volume_bits
    → t < 2 ^ 16
    → (has_inode (set_block_type t b) j u ≡ true)
      ↔ ((b.inode ≡ j.inode) × (volume_of b.inode_ref ≡ volume_of j) × (t ≡ u))
unfolding has_inode
has_inode-set_block_type t u b j h k = let s = set_block_type_fields t b h k in ground (arith, s)

pub inode_ref_eq_iff : (a b : INodeRef) → (inode_ref_eq a b ≡ true) ↔ (a ≡ b)
unfolding inode_ref_eq
inode_ref_eq_iff a b = ground arith

pub block_ref_eq_iff : (a b : BlockRef) → (block_ref_eq a b ≡ true) ↔ (a ≡ b)
unfolding block_ref_eq
block_ref_eq_iff a b = ground arith

pub block_ref_eq_refl : (a : BlockRef) → block_ref_eq a a ≡ true
block_ref_eq_refl a = (block_ref_eq_iff a a).1 refl
