-- ===== src/Blockset/Layers/Truncates.antt =====
-- Truncate through every stack of base and CRC layers.
use torus.Base.{
  ℕ, ◌<◌, ◌≡◌, refl, sym, ap, ap₂, ◌∙◌, some, List, inl, inr, length, get_elem?, ltb, ==_self,
  if◌then◌else◌, Bool-cases, Bytes, replicate, ok,
}
use torus.Refs.{zero_block, is_zero}
use torus.Store.Interface.{BlockStore}
use torus.Blockset.Base
use torus.Blockset.Base.{BaseBlockset, get_ref, resize}
use torus.Blockset.Indexing.{length-resize, get_elem?-resize}
use torus.Blockset.Crc
use torus.Blockset.Crc.{checked}
use torus.Blockset.Layers.{Blockset, base, crc, rep, length_of, get_block, truncate}
use torus.Blockset.Layers.Plain.{IsPlain}

module _ {S : Type 0} (st : BlockStore S) (checksum : Bytes → ℕ) where
  -- What a stack of length `n` reads when it was `bs` before.
  pub record IsTruncated (s : S) (n : ℕ) (bs : Blockset) (bs' : Blockset) : Type 0 where
    pub plain : IsPlain bs'
    pub size : length_of bs' ≡ n
    pub reads :
        (j : ℕ)
        → j < n
        → get_block st checksum s bs' j ≡ (
            if ltb j (length_of bs)
            then get_block st checksum s bs j
            else ok (replicate (st.block_size s) 0))

  base-IsTruncated :
      (s : S) (n : ℕ) (b : BaseBlockset) → IsTruncated s n (base b) (base (Base.truncate b n))
  unfolding get_block Base.get_block length_of get_ref is_zero Base.truncate
  base-IsTruncated s n b = record {
    plain = tt;
    size = length-resize n zero_block b.blocks;
    reads = λ j h. elim (Bool-cases (ltb j (length b.blocks))) [
      | inl old ↦
          let entry : get_elem? (resize n zero_block b.blocks) j ≡ get_elem? b.blocks j =
            get_elem?-resize n zero_block b.blocks j h ∙ rw old refl in
          rw old (ap (get_ref st s) entry)
      | inr new ↦
          let entry : get_elem? (resize n zero_block b.blocks) j ≡ some zero_block =
            get_elem?-resize n zero_block b.blocks j h ∙ rw new refl in
          rw new (ap (get_ref st s) entry)
    ];
  }

  crc-IsTruncated :
      (s : S) (n : ℕ) (crcs : List ℕ) (sub sub' : Blockset)
      → length crcs ≡ length_of sub
      → IsTruncated s n sub sub'
      → IsTruncated s n (crc crcs sub) (crc (Crc.truncate checksum crcs n (st.block_size s)) sub')
  unfolding get_block length_of Crc.get_block Crc.truncate
  crc-IsTruncated s n crcs sub sub' same below =
      let zeros : Bytes = replicate (st.block_size s) 0 in
      let empty : ℕ = checksum zeros in
      record {
        plain = (length-resize n empty crcs ∙ sym below.size, below.plain);
        size = length-resize n empty crcs;
        reads = λ j h. elim (Bool-cases (ltb j (length crcs))) [
          | inl old ↦
              let entry : get_elem? (resize n empty crcs) j ≡ get_elem? crcs j =
                get_elem?-resize n empty crcs j h ∙ rw old refl in
              let bytes : get_block st checksum s sub' j ≡ get_block st checksum s sub j =
                below.reads j h ∙ rw (sym same, old) refl in
              rw old (ap₂ (Crc.checked_at checksum) entry bytes)
          | inr new ↦
              let entry : get_elem? (resize n empty crcs) j ≡ some empty =
                get_elem?-resize n empty crcs j h ∙ rw new refl in
              let bytes : get_block st checksum s sub' j ≡ ok zeros =
                below.reads j h ∙ rw (sym same, new) refl in
              rw new (ap₂ (Crc.checked_at checksum) entry bytes ∙ rw (==_self empty) refl)
        ];
      }

  -- Truncate through any stack of base and CRC layers, with the block size of the store, succeeds
  -- and gives exactly the asked length; an index that was there before reads as before, and a new
  -- one reads as zeros.
  pub truncate-IsTruncated :
      (s : S) (n : ℕ) (bs : Blockset)
      → IsPlain bs
      → (bs' : Blockset) × (truncate st checksum bs n (st.block_size s) ≡ ok bs')
        × IsTruncated s n bs bs'
  unfolding truncate
  truncate-IsTruncated s n (base b) plain = (base (Base.truncate b n), refl, base-IsTruncated s n b)
  truncate-IsTruncated s n (crc crcs sub) plain =
      let (sub', done, below) = truncate-IsTruncated s n sub plain.1 in
      (
        crc (Crc.truncate checksum crcs n (st.block_size s)) sub',
        rw done refl,
        crc-IsTruncated s n crcs sub sub' plain.0 below,
      )
  truncate-IsTruncated s n (rep r sub) plain = absurd plain
