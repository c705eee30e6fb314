-- ===== src/Blockset/RoundTrips.antt =====
-- The encodings of the layers read back: the lists of references and of checksums, the lists of
-- copies, and the whole stack.
use torus.Base.{
  ℕ, ◌*◌, ◌/◌, ◌<◌, ◌≡◌, refl, sym, ap, ap₂, ◌∙◌, false, List, [], ◌∷◌, ◌++◌, arith, length, take,
  drop, replicate, length-append, append_assoc, take-append_left, drop-append_left, ltb, ◌==◌,
  Bytes, le_bytes, le_value, length-le_bytes, le_value-le_bytes, Fits-u32, u32_mod, ok,
}
use native.Mathlib.Nat.{mul-div_cancel}
use torus.Refs.{BlockRef, to_bytes, from_bytes, block_ref_byte_size}
use torus.Refs.Encoding.{InRange, length-to_bytes, from_bytes-to_bytes}
use torus.Blockset.Base
use torus.Blockset.Base.{BaseBlockset}
use torus.Blockset.Crc
use torus.Blockset.Copies.{i32_max, write_i32, read_i32, read_refs}

-- All references of a list are made of words.
abbrev pub AllInRange : List BlockRef → Type 0
AllInRange [] = Unit
AllInRange (x ∷ xs) = InRange x × AllInRange xs

-- All checksums have 32 bits.
abbrev pub AllChecksums : List ℕ → Type 0
AllChecksums [] = Unit
AllChecksums (x ∷ xs) = (x < u32_mod) × AllChecksums xs

pub take_front : (n : ℕ) (xs ys : Bytes) → length xs ≡ n → take n (xs ++ ys) ≡ xs
take_front n xs ys e = ap (λ k. take k (xs ++ ys)) (sym e) ∙ take-append_left xs ys

pub drop_front : (n : ℕ) (xs ys : Bytes) → length xs ≡ n → drop n (xs ++ ys) ≡ ys
drop_front n xs ys e = ap (λ k. drop k (xs ++ ys)) (sym e) ∙ drop-append_left xs ys

length-marshal : (xs : List BlockRef) → length (Base.marshal xs) ≡ length xs * block_ref_byte_size
unfolding Base.marshal
length-marshal [] = refl
length-marshal (x ∷ xs) =
    omega
      (arith, length-append (to_bytes x) (Base.marshal xs), length-to_bytes x, length-marshal xs)

unmarshal_loop-marshal :
    (xs : List BlockRef) → AllInRange xs → Base.unmarshal_loop (length xs) (Base.marshal xs) ≡ xs
unfolding Base.unmarshal_loop Base.marshal
unmarshal_loop-marshal [] h = refl
unmarshal_loop-marshal (x ∷ xs) h =
    ap₂ (λ y ys. y ∷ ys)
      (ap from_bytes
          (take_front block_ref_byte_size (to_bytes x) (Base.marshal xs) (length-to_bytes x))
        ∙ from_bytes-to_bytes x h.0)
      (ap (Base.unmarshal_loop (length xs))
          (drop_front block_ref_byte_size (to_bytes x) (Base.marshal xs) (length-to_bytes x))
        ∙ unmarshal_loop-marshal xs h.1)

-- The references of the base layer are read back.
pub unmarshal-marshal : (xs : List BlockRef) → AllInRange xs → Base.unmarshal (Base.marshal xs) ≡ xs
unfolding Base.unmarshal
unmarshal-marshal xs h =
    let count : length (Base.marshal xs) / block_ref_byte_size ≡ length xs =
      ap (λ n. n / block_ref_byte_size) (length-marshal xs)
      ∙ mul-div_cancel (length xs) (omega arith) in
    ap (λ n. Base.unmarshal_loop n (Base.marshal xs)) count ∙ unmarshal_loop-marshal xs h

length-crc_marshal : (xs : List ℕ) → length (Crc.marshal xs) ≡ length xs * 4
unfolding Crc.marshal
length-crc_marshal [] = refl
length-crc_marshal (x ∷ xs) = omega (
  arith,
  length-append (le_bytes 4 x) (Crc.marshal xs),
  length-le_bytes 4 x,
  length-crc_marshal xs,
)

crc_loop-marshal :
    (xs : List ℕ) → AllChecksums xs → Crc.unmarshal_loop (length xs) (Crc.marshal xs) ≡ xs
unfolding Crc.unmarshal_loop Crc.marshal
crc_loop-marshal [] h = refl
crc_loop-marshal (x ∷ xs) h =
    ap₂ (λ y ys. y ∷ ys)
      (ap le_value (take_front 4 (le_bytes 4 x) (Crc.marshal xs) (length-le_bytes 4 x))
        ∙ le_value-le_bytes 4 x (Fits-u32 x h.0))
      (ap (Crc.unmarshal_loop (length xs))
          (drop_front 4 (le_bytes 4 x) (Crc.marshal xs) (length-le_bytes 4 x))
        ∙ crc_loop-marshal xs h.1)

-- The checksums of the CRC layer are read back.
pub crc_unmarshal-marshal : (xs : List ℕ) → AllChecksums xs → Crc.unmarshal (Crc.marshal xs) ≡ xs
unfolding Crc.unmarshal
crc_unmarshal-marshal xs h =
    let count : length (Crc.marshal xs) / 4 ≡ length xs =
      ap (λ n. n / 4) (length-crc_marshal xs) ∙ mul-div_cancel (length xs) (omega arith) in
    ap (λ n. Crc.unmarshal_loop n (Crc.marshal xs)) count ∙ crc_loop-marshal xs h

-- Every list of copies is shorter than 2 ^ 31 and holds references made of words.
abbrev pub AllCopies : List (List BlockRef) → Type 0
AllCopies [] = Unit
AllCopies (x ∷ xs) = ((length x < i32_max) × AllInRange x) × AllCopies xs

pub read_i32-write : (n : ℕ) (d : Bytes) → n < i32_max → read_i32 (write_i32 n ++ d) ≡ ok (n, d)
unfolding read_i32
read_i32-write n d h =
    let size = length-le_bytes 4 n in
    let long : ltb (length (le_bytes 4 n ++ d)) 4 ≡ false =
      ground (arith, length-append (le_bytes 4 n) d, size) in
    rw long (
      ap₂ (λ v r. ok (v, r))
        (ap le_value (take_front 4 (le_bytes 4 n) d size)
          ∙ le_value-le_bytes 4 n (Fits-u32 n (omega arith)))
        (drop_front 4 (le_bytes 4 n) d size))

pub read_refs-marshal :
    (xs : List BlockRef) (d : Bytes)
    → AllInRange xs
    → read_refs (length xs) (Base.marshal xs ++ d) ≡ ok (xs, d)
unfolding read_refs Base.marshal
read_refs-marshal [] d h = refl
read_refs-marshal (x ∷ xs) d h =
    let size = length-to_bytes x in
    let pad : Bytes = replicate block_ref_byte_size 0 in
    let split : (to_bytes x ++ Base.marshal xs) ++ d ≡ to_bytes x ++ (Base.marshal xs ++ d) =
      append_assoc (to_bytes x) (Base.marshal xs) d in
    let some_left : (length (to_bytes x ++ (Base.marshal xs ++ d)) == 0) ≡ false =
      ground (arith, length-append (to_bytes x) (Base.marshal xs ++ d), size) in
    let behind = drop_front block_ref_byte_size (to_bytes x) (Base.marshal xs ++ d) size in
    let front : take block_ref_byte_size ((to_bytes x ++ (Base.marshal xs ++ d)) ++ pad)
        ≡ to_bytes x =
      ap (take block_ref_byte_size) (append_assoc (to_bytes x) (Base.marshal xs ++ d) pad)
      ∙ take_front block_ref_byte_size (to_bytes x) ((Base.marshal xs ++ d) ++ pad) size in
    rw (split, some_left, behind, read_refs-marshal xs d h.1, front, from_bytes-to_bytes x h.0) refl
