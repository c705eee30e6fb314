-- ===== src/Store/Interface.antt =====
-- `torus.BlockStore` over a state `S`, and its contract.
use torus.Base.{ℕ, ◌≡◌, ◌≢◌, Bytes, length, Outcome, ok}
use torus.Refs.{BlockRef, zero_block}
use torus.Refs.Encoding.{InRange}

pub record BlockStore (S : Type 0) : Type 0 where
  pub get_block : S → BlockRef → Outcome Bytes
  pub write_block : S → BlockRef → Bytes → Outcome (Unit {0}) × S
  pub delete_block : S → BlockRef → Outcome (Unit {0}) × S
  pub block_size : S → ℕ

-- A reference under which a store keeps data: each field a word, and not the zero reference.
pub record IsUsable (r : BlockRef) : Type 0 where
  pub in_range : InRange r
  pub nonzero : r ≢ zero_block

-- What a client of a store relies on: a block that was written is read back, and no write
-- disturbs another reference.
pub record Contract {S : Type 0} (st : BlockStore S) : Type 1 where
  pub IsValid : S → Type 0
  pub write_valid :
      (s : S) (r : BlockRef) (d : Bytes) → IsValid s → IsUsable r → IsValid (st.write_block s r d).1
  pub write_read :
      (s : S) (r : BlockRef) (d : Bytes)
      → IsValid s
      → IsUsable r
      → length d ≡ st.block_size s
      → (st.write_block s r d).0 ≡ ok tt
      → st.get_block (st.write_block s r d).1 r ≡ ok d
  pub write_other :
      (s : S) (r q : BlockRef) (d : Bytes)
      → IsValid s
      → IsUsable r
      → IsUsable q
      → r ≢ q
      → st.get_block (st.write_block s r d).1 q ≡ st.get_block s q
  pub write_size :
      (s : S) (r : BlockRef) (d : Bytes)
      → IsValid s
      → IsUsable r
      → st.block_size (st.write_block s r d).1 ≡ st.block_size s
