-- ===== src/Refs/Checks.antt =====
-- Runs of the reference code, and instances of its laws.
use torus.Base.{ℕ, ◌+◌, ◌^◌, ◌<◌, ◌≡◌, refl, ◌↔◌, true, [], ◌∷◌, arith, replicate, u64_mod, ok}
use torus.Refs.{
  INodeRef, BlockRef, to_bytes, from_bytes, block_type, set_block_type, volume_of, has_inode,
  zero_block, block_ref_byte_size, type_inode, parse_write_level, write_one, parse_read_level,
  read_sequential,
}
use torus.Refs.Fields.{set_block_type_fields, has_inode-set_block_type}
use torus.Refs.Encoding.{InRange, from_bytes-to_bytes, to_bytes_blank}

abbrev sample : BlockRef
sample = record { inode_ref = record { volume = 3; inode = 258 }; index = 7 }

abbrev sample_inode : INodeRef
sample_inode = record { volume = 3; inode = 258 }

sample-InRange : InRange sample
sample-InRange = omega arith

sample_bytes :
    to_bytes sample
    ≡ 3 ∷ 0 ∷ 0 ∷ 0 ∷ 0 ∷ 0 ∷ 0 ∷ 0 ∷ 2 ∷ 1 ∷ 0 ∷ 0 ∷ 0 ∷ 0 ∷ 0 ∷ 0 ∷ 7 ∷ 0 ∷ 0 ∷ 0 ∷ 0 ∷ 0 ∷ 0 ∷ 0
      ∷ []
unfolding to_bytes
sample_bytes = refl

inode_volume : (set_block_type type_inode sample).volume ≡ 2 ^ 40 + 3
unfolding set_block_type
inode_volume = refl

levels : (parse_write_level "one" ≡ ok write_one) × (parse_read_level "seq" ≡ ok read_sequential)
unfolding parse_write_level parse_read_level
levels = (refl, refl)

set_block_type_fields_example :
    (block_type (set_block_type 1 sample) ≡ 1)
    × (volume_of (set_block_type 1 sample).inode_ref ≡ volume_of sample_inode)
    × ((set_block_type 1 sample).inode ≡ 258)
    × ((set_block_type 1 sample).index ≡ 7)
    × ((set_block_type 1 sample).volume < u64_mod)
set_block_type_fields_example = set_block_type_fields 1 sample (omega arith) (omega arith)

has_inode-set_block_type_example :
    (has_inode (set_block_type 1 sample) sample_inode 1 ≡ true)
    ↔ (◌≡◌ {A = ℕ} 258 258 × (volume_of sample_inode ≡ volume_of sample_inode) × ◌≡◌ {A = ℕ} 1 1)
has_inode-set_block_type_example =
    has_inode-set_block_type 1 1 sample sample_inode (omega arith) (omega arith)

from_bytes-to_bytes_example : from_bytes (to_bytes sample) ≡ sample
from_bytes-to_bytes_example = from_bytes-to_bytes sample sample-InRange

to_bytes_blank_example : (to_bytes sample ≡ replicate block_ref_byte_size 0) ↔ (sample ≡ zero_block)
to_bytes_blank_example = to_bytes_blank sample sample-InRange
