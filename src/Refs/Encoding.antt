-- ===== src/Refs/Encoding.antt =====
-- References as bytes: ToBytes and FromBytes of INodeRef and BlockRef.
use torus.Base.{
  ℕ, ◌+◌, ◌≤◌, ◌<◌, ◌≡◌, refl, sym, ap, ◌∙◌, ◌↔◌, arith, ◌++◌, length, drop, replicate, Bytes,
  le_bytes, le_value, slice, le_value-le_bytes, Fits-u64, u64_mod, subst, ap₂, three_windows,
  le_bytes-le_value, le_value_lt, Fits, AllBytes, AllBytes-take, AllBytes-drop, length-slice,
}
use torus.Refs.{
  INodeRef, BlockRef, inode_ref_to_bytes, inode_ref_from_bytes, to_bytes, from_bytes, zero_block,
  block_ref_byte_size,
}

-- Each field fits its uint64.
pub record InRange (b : BlockRef) : Type 0 where
  pub volume_lt : b.volume < u64_mod
  pub inode_lt : b.inode < u64_mod
  pub index_lt : b.index < u64_mod

value_of_word : (v : ℕ) → v < u64_mod → le_value (le_bytes 8 v) ≡ v
value_of_word v h = le_value-le_bytes 8 v (Fits-u64 v h)

pub length-to_bytes : (b : BlockRef) → length (to_bytes b) ≡ block_ref_byte_size
unfolding to_bytes
length-to_bytes b = refl

-- Reading back the bytes of a reference gives the reference, when its three fields are 64-bit
-- words.
pub from_bytes-to_bytes : (b : BlockRef) → InRange b → from_bytes (to_bytes b) ≡ b
unfolding from_bytes to_bytes
from_bytes-to_bytes b r = λ i. record {
  inode_ref = record {
    volume = value_of_word b.volume r.volume_lt i;
    inode = value_of_word b.inode r.inode_lt i;
  };
  index = value_of_word b.index r.index_lt i;
}

pub inode_ref_from_bytes-to_bytes :
    (i : INodeRef)
    → i.volume < u64_mod
    → i.inode < u64_mod
    → inode_ref_from_bytes (inode_ref_to_bytes i) ≡ i
unfolding inode_ref_from_bytes inode_ref_to_bytes
inode_ref_from_bytes-to_bytes i h k =
    λ j. record { volume = value_of_word i.volume h j; inode = value_of_word i.inode k j }

-- References with the same bytes are the same.
pub to_bytes_injective : (a b : BlockRef) → InRange a → InRange b → to_bytes a ≡ to_bytes b → a ≡ b
to_bytes_injective a b r s e =
    sym (from_bytes-to_bytes a r) ∙ ap from_bytes e ∙ from_bytes-to_bytes b s

-- The bytes that mark a free slot, 24 zeros, are those of the zero reference alone, among
-- references whose fields are 64-bit words.
pub to_bytes_blank :
    (b : BlockRef) → InRange b → (to_bytes b ≡ replicate block_ref_byte_size 0) ↔ (b ≡ zero_block)
unfolding to_bytes from_bytes
to_bytes_blank b r = (λ e. sym (from_bytes-to_bytes b r) ∙ ap from_bytes e, λ e. ap to_bytes e)

-- The other way round: 24 bytes are the bytes of the reference that they are read as.
pub to_bytes-from_bytes :
    (b : Bytes) → length b ≡ block_ref_byte_size → AllBytes b → to_bytes (from_bytes b) ≡ b
unfolding to_bytes from_bytes
to_bytes-from_bytes b l h =
    let word = λ (at : ℕ) (room : at + 8 ≤ 24).
      let size : length (slice at 8 b) ≡ 8 = length-slice at 8 b (omega arith) in
      subst (λ k. le_bytes k (le_value (slice at 8 b)) ≡ slice at 8 b) size
        (le_bytes-le_value (slice at 8 b) (AllBytes-take 8 (drop at b) (AllBytes-drop at b h))) in
    ap₂ ◌++◌ (word 0 (omega arith)) (ap₂ ◌++◌ (word 8 (omega arith)) (word 16 (omega arith)))
    ∙ three_windows 8 b l

pub from_bytes-InRange :
    (b : Bytes) → length b ≡ block_ref_byte_size → AllBytes b → InRange (from_bytes b)
unfolding from_bytes
from_bytes-InRange b l h = record {
  volume_lt = word_lt 0 (omega arith);
  inode_lt = word_lt 8 (omega arith);
  index_lt = word_lt 16 (omega arith);
}
  where
    word_lt : (at : ℕ) → at + 8 ≤ 24 → le_value (slice at 8 b) < u64_mod
    word_lt at room =
        let size : length (slice at 8 b) ≡ 8 = length-slice at 8 b (omega arith) in
        let fits : Fits 8 (le_value (slice at 8 b)) =
          subst (λ k. Fits k (le_value (slice at 8 b))) size
            (le_value_lt (slice at 8 b) (AllBytes-take 8 (drop at b) (AllBytes-drop at b h))) in
        omega arith
