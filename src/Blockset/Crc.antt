-- ===== src/Blockset/Crc.antt =====
-- The CRC layer, a checksum for each block: blockset/crc.go. Each function takes what the layer
-- below answered. `checksum` is `crc32.ChecksumIEEE`; the lock makes each method one step.
use torus.Base.{
  ℕ, zero, suc, ◌/◌, Option, none, some, List, [], ◌∷◌, ◌++◌, length, get_elem?, take, drop,
  replicate, ◌==◌, if◌then◌else◌, Bytes, le_bytes, le_value, Outcome, ok, err, Error, ◌>>=◌,
}
use torus.Blockset.Base.{put_at, resize, trim_range}

module _ (checksum : Bytes → ℕ) where
  -- `GetBlock` past the guard: the data of the layer below is compared with the recorded checksum.
  -- The debug line on a mismatch is left out; it shows ten bytes, and panics on a slice with no
  -- capacity for ten.
  unfoldable pub checked : ℕ → Outcome Bytes → Outcome Bytes
  checked crc below = do d ← below; if checksum d == crc then ok d else err Error.block_unavailable

  -- With the checksum recorded for the index, which is missing from the length on
  unfoldable pub checked_at : Option ℕ → Outcome Bytes → Outcome Bytes
  unfolding checked
  checked_at none below = err Error.block_not_exist
  checked_at (some crc) below = checked crc below

  unfoldable pub get_block : List ℕ → ℕ → Outcome Bytes → Outcome Bytes
  unfolding checked_at
  get_block crcs i below = checked_at (get_elem? crcs i) below

  -- `PutBlock`, once the layer below has put the block
  unfoldable pub put_block : List ℕ → ℕ → Bytes → List ℕ
  put_block crcs i d = put_at crcs i (checksum d)

  -- `Truncate`, once the layer below has changed its length
  unfoldable pub truncate : List ℕ → ℕ → ℕ → List ℕ
  truncate crcs last_index blocksize = resize last_index (checksum (replicate blocksize 0)) crcs

  -- `Trim`, once the layer below has been trimmed
  unfoldable pub trim : List ℕ → ℕ → ℕ → ℕ → List ℕ
  trim crcs from to store_block_size =
      trim_range from to (checksum (replicate store_block_size 0)) crcs

-- `Marshal`: four bytes for each checksum
unfoldable pub marshal : List ℕ → Bytes
marshal [] = []
marshal (x ∷ xs) = le_bytes 4 x ++ marshal xs

unfoldable pub unmarshal_loop : ℕ → Bytes → List ℕ
unmarshal_loop zero d = []
unmarshal_loop (suc l) d = le_value (take 4 d) ∷ unmarshal_loop l (drop 4 d)

unfoldable pub unmarshal : Bytes → List ℕ
unfolding unmarshal_loop
unmarshal d = unmarshal_loop (length d / 4) d
